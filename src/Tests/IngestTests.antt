-- ===== src/Tests/IngestTests.antt =====
-- Tests of Store/Ingest.
use omni_token.Prelude.{[], ◌∷◌, ℕ, Bool, true, false, ◌≡◌, refl, none, some, [], ◌∷◌}
use omni_token.Model.Envelope.{IngestEnvelopeV2}
use omni_token.Store.Database.{empty_db}
use omni_token.Store.Ingest.{
  IngestV2Result, Outcome, applied, failed, receipt_conflict, apply_ingest_v2, apply_all,
}
use omni_token.Store.Ingest.Replay.{apply_ingest-replay}
use omni_token.Tests.Data.{envelope, ingest_ack, ingested_db}

abbrev other_device : IngestEnvelopeV2
other_device = record envelope { device_id = "dddddddd-dddd-4ddd-8ddd-dddddddddddd" }

first_time :
    apply_ingest_v2 envelope 100 empty_db
    ≡ (applied (record { ack = ingest_ack; replay = false; mutated = true }), ingested_db)
unfolding apply_ingest_v2 omni_token.Store.Ingest.ingest_receipt_tx omni_token.Prelude.find_where
    omni_token.Store.Ingest.apply_payload omni_token.Store.Events.Batch.insert_events_from_tx
    omni_token.Store.Events.Batch.observe_all omni_token.Store.Events.Batch.observe
    omni_token.Store.Events.Insert.settle_fork omni_token.Store.Events.insert
    omni_token.Store.Events.Insert.mutated
first_time = refl

-- Another device's own batch comes in between.
abbrev other_batch : IngestEnvelopeV2
other_batch = record other_device { batch_id = "eeeeeeee-eeee-4eee-8eee-eeeeeeeeeeee" }

apply_ingest-replay_example :
    apply_ingest_v2 envelope 200 (apply_all ((other_batch, 150) ∷ []) ingested_db) ≡ (
      applied (record { ack = ingest_ack; replay = true; mutated = false }),
      apply_all ((other_batch, 150) ∷ []) ingested_db,
    )
apply_ingest-replay_example =
    apply_ingest-replay envelope envelope 100 200 ((other_batch, 150) ∷ []) empty_db first_time refl

conflicted : apply_ingest_v2 other_device 300 ingested_db ≡ (failed receipt_conflict, ingested_db)
unfolding apply_ingest_v2 omni_token.Store.Ingest.ingest_receipt_tx omni_token.Prelude.find_where
conflicted = refl

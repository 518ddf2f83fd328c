-- ===== src/Tests/DeliveryTests.antt =====
-- Tests of Delivery.
use omni_token.Prelude.{
  ℕ, Bool, true, false, ◌≡◌, ◌⊎◌, inl, inr, refl, Option, none, some, List, [], ◌∷◌, All, Any,
  Pairs, is_some,
}
use omni_token.Model.Envelope.{IngestEnvelopeV2}
use omni_token.Store.Database.{empty_db}
use omni_token.Store.Ingest.{ingest_receipt_tx}
use omni_token.Server.Ingest.{handle_ingest_v2}
use omni_token.Delivery.{System, Action, send, upload, unanswered, delivered, act_all}
use omni_token.Delivery.Receipts.{OtherReceipt}
use omni_token.Delivery.Loss.{IsKept, RoundTrips, act_all-IsKept}
use omni_token.Delivery.Once.{act_all_once}
use omni_token.Tests.Data.{envelope, encode, decode, empty_outbox, ingested_db}

abbrev trusted : IngestEnvelopeV2 → Option Bool
trusted e = some true

abbrev start : System
start = record { outbox = empty_outbox; db = empty_db; sent = [] }

-- The first answer is lost, the second arrives.
abbrev actions : List Action
actions = send 9 (envelope ∷ []) ∷ upload 100 unanswered ∷ upload 200 delivered ∷ []

abbrev settled : System
settled = record {
  outbox = record empty_outbox { last_sequence = 1 };
  db = ingested_db;
  sent = envelope ∷ [];
}

run : act_all trusted encode decode actions start ≡ settled
unfolding act_all omni_token.Model.Envelope.validate_ingest_envelope
    omni_token.Model.Envelope.check_header omni_token.Model.Envelope.valid_uuid
    omni_token.Model.Envelope.check_events_payload omni_token.Model.Envelope.check_events
    omni_token.Prelude.find_where omni_token.Store.Ingest.apply_ingest_v2 ingest_receipt_tx
    omni_token.Store.Ingest.apply_payload omni_token.Store.Events.Batch.insert_events_from_tx
    omni_token.Store.Events.Batch.observe_all omni_token.Store.Events.Batch.observe
    omni_token.Store.Events.Insert.settle_fork omni_token.Store.Events.insert
run = refl

trips : All (RoundTrips trusted encode decode) (act_all trusted encode decode actions start).sent
unfolding act_all omni_token.Model.Envelope.validate_ingest_envelope
    omni_token.Model.Envelope.check_header omni_token.Model.Envelope.valid_uuid
    omni_token.Model.Envelope.check_events_payload omni_token.Model.Envelope.check_events
    omni_token.Prelude.find_where
trips = (refl, tt)

act_all-IsKept_example :
    let s = act_all trusted encode decode actions start in
    All (IsKept trusted encode decode s.outbox s.db) s.sent
act_all-IsKept_example = act_all-IsKept trusted encode decode actions start trips tt

receipted : is_some (ingest_receipt_tx envelope.batch_id settled.db) ≡ true
unfolding ingest_receipt_tx omni_token.Prelude.find_where
receipted = refl

act_all_once_example :
    let s = act_all trusted encode decode actions settled in
    Pairs OtherReceipt s.db.receipts × ((handle_ingest_v2 trusted envelope 300 s.db).db ≡ s.db)
act_all_once_example =
    act_all_once trusted encode decode actions settled envelope 300 (tt, tt) receipted

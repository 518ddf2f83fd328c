-- ===== src/Store/Ingest.antt =====
-- internal/store/ingestv2.go: `ApplyIngestV2`, one transaction for a payload and its receipt. A
-- receipt's sequence is kept as a number; the table holds its decimal text.
pub mod Growth
pub mod Replay
use omni_token.Prelude.{
  ℕ, ◌-◌, String, Bool, true, false, not, Option, none, some, List, [], ◌∷◌, ◌==◌, ltb, length,
  find_where, if◌then◌else◌,
}
use omni_token.Model.Envelope.{IngestEnvelopeV2, IngestAckV2, kind_events, kind_quotas, kind_procs}
use omni_token.Model.Snapshot.{ProcReport}
use omni_token.Store.Events.{self}
use omni_token.Store.Events.Insert.{EventApplyResult, mutated}
use omni_token.Store.Events.Batch.{State, insert_events_from_tx}
use omni_token.Store.Database.{Db}
use omni_token.Store.Quotas.{insert_quotas_tx}
use omni_token.Store.Procs.{Live, apply_proc_report_tx}

pub record IngestV2Result : Type 0 where
  pub ack : IngestAckV2
  pub replay : Bool
  pub mutated : Bool

pub data IngestError : Type 0 where
  receipt_conflict constraint missing_payload unsupported_kind : IngestError

pub data Outcome : Type 0 where
  applied : IngestV2Result → Outcome
  failed : IngestError → Outcome

abbrev pub receipt_for : String → IngestAckV2 → Bool
receipt_for batch r = r.batch_id == batch

-- The receipt of a batch, if it was applied before.
unfoldable pub ingest_receipt_tx : String → Db → Option IngestAckV2
ingest_receipt_tx batch db = find_where (receipt_for batch) db.receipts

-- What a payload did: the tables, the rows accepted, the duplicates, and whether the UI changes.
pub record Payload : Type 0 where
  pub db : Db
  pub accepted : ℕ
  pub duplicates : ℕ
  pub mutated : Bool

pub data PayloadOutcome : Type 0 where
  done : Payload → PayloadOutcome
  error : IngestError → PayloadOutcome

abbrev pub events_outcome : IngestEnvelopeV2 → Db → Option State → PayloadOutcome
events_outcome e db none = error constraint
events_outcome e db (some (t, res)) = done (record {
  db = record db { events = t };
  accepted = res.inserted;
  duplicates = length e.events - res.inserted;
  mutated = mutated res;
})

abbrev pub apply_events : IngestEnvelopeV2 → ℕ → Db → PayloadOutcome
apply_events e received_at db =
    events_outcome e db (insert_events_from_tx db.events e.events received_at self)

abbrev pub apply_quotas : IngestEnvelopeV2 → Db → PayloadOutcome
apply_quotas e db =
    let (t, inserted) = insert_quotas_tx e.quotas db.quotas in
    done (record {
      db = record db { quotas = t };
      accepted = inserted;
      duplicates = length e.quotas - inserted;
      mutated = ltb 0 inserted;
    })

abbrev pub apply_procs : Option ProcReport → Db → PayloadOutcome
apply_procs none db = error missing_payload
apply_procs (some report) db =
    let (live, changed) =
      apply_proc_report_tx report
        (record { sessions = db.live_sessions; reports = db.live_reports }) in
    done (record {
      db = record db { live_sessions = live.sessions; live_reports = live.reports };
      accepted = 1;
      duplicates = 0;
      mutated = changed;
    })

-- `switch envelope.Kind`
unfoldable pub apply_payload : IngestEnvelopeV2 → ℕ → Db → PayloadOutcome
apply_payload e received_at db =
    if e.kind == kind_events
    then apply_events e received_at db
    else if e.kind == kind_quotas
    then apply_quotas e db
    else if e.kind == kind_procs
    then apply_procs e.procs db
    else error unsupported_kind

abbrev pub ack_of : IngestEnvelopeV2 → ℕ → Payload → IngestAckV2
ack_of e received_at p = record {
  protocol_version = e.protocol_version;
  device_id = e.device_id;
  batch_id = e.batch_id;
  ack_sequence = e.sequence;
  accepted = p.accepted;
  duplicates = p.duplicates;
  rejected = [];
  server_time = received_at;
}

-- The receipt is written and the transaction commits; an error rolls everything back.
abbrev pub write_receipt : IngestEnvelopeV2 → ℕ → Db → PayloadOutcome → Outcome × Db
write_receipt e received_at db (error err) = (failed err, db)
write_receipt e received_at db (done p) =
    let ack = ack_of e received_at p in
    (
      applied (record { ack = ack; replay = false; mutated = p.mutated }),
      record p.db { receipts = ack ∷ p.db.receipts },
    )

abbrev pub after_lookup : IngestEnvelopeV2 → ℕ → Db → Option IngestAckV2 → Outcome × Db
after_lookup e received_at db none = write_receipt e received_at db (apply_payload e received_at db)
after_lookup e received_at db (some receipt) =
    if not (receipt.device_id == e.device_id)
    then (failed receipt_conflict, db)
    else (applied (record { ack = receipt; replay = true; mutated = false }), db)

unfoldable pub apply_ingest_v2 : IngestEnvelopeV2 → ℕ → Db → Outcome × Db
apply_ingest_v2 e received_at db = after_lookup e received_at db (ingest_receipt_tx e.batch_id db)

-- A sequence of deliveries, each with the time at which it comes.
unfoldable pub apply_all : List (IngestEnvelopeV2 × ℕ) → Db → Db
unfolding apply_ingest_v2
apply_all [] db = db
apply_all ((e, received_at) ∷ later) db = apply_all later (apply_ingest_v2 e received_at db).1

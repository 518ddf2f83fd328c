-- ===== src/Store/Ingest/Growth.antt =====
-- internal/store/ingestv2.go: what applying a batch does to the receipts.
use omni_token.Prelude.{ℕ, Option, none, some, ◌∷◌, ◌≡◌, refl, ap, inl, inr, Bool-cases, ◌==◌}
use omni_token.Model.Envelope.{IngestEnvelopeV2, IngestAckV2, kind_events, kind_quotas, kind_procs}
use omni_token.Model.Snapshot.{ProcReport}
use omni_token.Store.Database.{Db}
use omni_token.Store.Events.{self}
use omni_token.Store.Events.Batch.{State, insert_events_from_tx}
use omni_token.Store.Ingest.{
  ingest_receipt_tx, PayloadOutcome, done, error, events_outcome, apply_events, apply_procs,
  apply_payload, ack_of, write_receipt, after_lookup,
}

-- A payload leaves the receipts.
abbrev Leaves : Db → PayloadOutcome → Type 0
Leaves db (done p) = p.db.receipts ≡ db.receipts
Leaves db (error e) = Unit

events_outcome-Leaves :
    (e : IngestEnvelopeV2) (db : Db) (o : Option State) → Leaves db (events_outcome e db o)
events_outcome-Leaves e db none = tt
events_outcome-Leaves e db (some r) = refl

apply_events-Leaves :
    (e : IngestEnvelopeV2) (received_at : ℕ) (db : Db) → Leaves db (apply_events e received_at db)
apply_events-Leaves e received_at db =
    events_outcome-Leaves e db (insert_events_from_tx db.events e.events received_at self)

apply_procs-Leaves : (o : Option ProcReport) (db : Db) → Leaves db (apply_procs o db)
apply_procs-Leaves none db = tt
apply_procs-Leaves (some report) db = refl

apply_payload-Leaves :
    (e : IngestEnvelopeV2) (received_at : ℕ) (db : Db) → Leaves db (apply_payload e received_at db)
unfolding apply_payload
apply_payload-Leaves e received_at db = elim (Bool-cases (e.kind == kind_events)) [
  | inl k ↦ rw k (apply_events-Leaves e received_at db)
  | inr k ↦ rw k (elim (Bool-cases (e.kind == kind_quotas)) [
    | inl l ↦ rw l refl
    | inr l ↦ rw l (elim (Bool-cases (e.kind == kind_procs)) [
      | inl m ↦ rw m (apply_procs-Leaves e.procs db)
      | inr m ↦ rw m tt
    ])
  ])
]

-- The receipts after a request are those before it, or one more, for a batch that had none.
pub data Grows (e : IngestEnvelopeV2) (db db' : Db) : Type 0 where
  kept : db'.receipts ≡ db.receipts → Grows e db db'
  added :
      (ack : IngestAckV2)
      → ingest_receipt_tx e.batch_id db ≡ none
      → ack.batch_id ≡ e.batch_id
      → db'.receipts ≡ ack ∷ db.receipts
      → Grows e db db'

write_receipt-Grows :
    (e : IngestEnvelopeV2) (received_at : ℕ) (db : Db) (p : PayloadOutcome)
    → Leaves db p
    → ingest_receipt_tx e.batch_id db ≡ none
    → Grows e db (write_receipt e received_at db p).1
write_receipt-Grows e received_at db (error err) k absent = kept refl
write_receipt-Grows e received_at db (done p) k absent =
    added (ack_of e received_at p) absent refl (ap (λ rs. ack_of e received_at p ∷ rs) k)

pub after_lookup-Grows :
    (e : IngestEnvelopeV2) (received_at : ℕ) (db : Db) (o : Option IngestAckV2)
    → ingest_receipt_tx e.batch_id db ≡ o
    → Grows e db (after_lookup e received_at db o).1
after_lookup-Grows e received_at db none looked =
    write_receipt-Grows e received_at db _ (apply_payload-Leaves e received_at db) looked
after_lookup-Grows e received_at db (some receipt) looked =
    elim (Bool-cases (receipt.device_id == e.device_id)) [
      | inl same ↦ rw same (kept refl)
      | inr other ↦ rw other (kept refl)
    ]

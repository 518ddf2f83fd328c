-- ===== src/Store/Ingest/Replay.antt =====
-- internal/store/ingestv2.go: what a further delivery of a batch does, after any others.
use omni_token.Prelude.{
  ℕ, List, [], ◌∷◌, true, false, Option, none, some, ◌≡◌, refl, subst, sym, ◌∙◌, inl, inr, arith,
  Bool-cases, find_where, ◌==◌, eq_iff, eq_refl, if◌then◌else◌,
}
use omni_token.Model.Envelope.{IngestEnvelopeV2, IngestAckV2}
use omni_token.Store.Database.{Db}
use omni_token.Store.Ingest.{
  IngestV2Result, receipt_conflict, Outcome, applied, failed, ingest_receipt_tx, PayloadOutcome,
  done, error, write_receipt, after_lookup, apply_ingest_v2, apply_all,
}
use omni_token.Store.Ingest.Growth.{Grows, kept, added, after_lookup-Grows}

-- The receipt of the batch is there, in the name of its device.
pub record Receipted (e : IngestEnvelopeV2) (ack : IngestAckV2) (db : Db) : Type 0 where
  pub found : ingest_receipt_tx e.batch_id db ≡ some ack
  pub device : ack.device_id ≡ e.device_id

abbrev pub IsReceipted : IngestEnvelopeV2 → Outcome × Db → Type 0
IsReceipted e (applied r, db) = Receipted e r.ack db
IsReceipted e (failed err, db) = Unit

write_receipt-IsReceipted :
    (e : IngestEnvelopeV2) (received_at : ℕ) (db : Db) (p : PayloadOutcome)
    → IsReceipted e (write_receipt e received_at db p)
unfolding ingest_receipt_tx find_where
write_receipt-IsReceipted e received_at db (error err) = tt
write_receipt-IsReceipted e received_at db (done p) = record {
  found = rw (eq_refl e.batch_id);
  device = refl;
}

pub after_lookup-IsReceipted :
    (e : IngestEnvelopeV2) (received_at : ℕ) (db : Db) (o : Option IngestAckV2)
    → ingest_receipt_tx e.batch_id db ≡ o
    → IsReceipted e (after_lookup e received_at db o)
after_lookup-IsReceipted e received_at db none looked = write_receipt-IsReceipted e received_at db _
after_lookup-IsReceipted e received_at db (some receipt) looked =
    elim (Bool-cases (receipt.device_id == e.device_id)) [
      | inl same ↦
          rw same
            (record { found = looked; device = (eq_iff receipt.device_id e.device_id).0 same })
      | inr other ↦ rw other tt
    ]

answer :
    (e e' : IngestEnvelopeV2) (ack : IngestAckV2) (later : ℕ) (db : Db)
    → ack.device_id ≡ e.device_id
    → after_lookup e' later db (some ack) ≡ (
      (if e'.device_id == e.device_id
          then applied (record { ack = ack; replay = true; mutated = false })
          else failed receipt_conflict),
      db,
    )
answer e e' ack later db device = elim (Bool-cases (e'.device_id == e.device_id)) [
  | inl same ↦
      let met : (ack.device_id == e'.device_id) ≡ true =
        (eq_iff ack.device_id e'.device_id).1
          (device ∙ sym ((eq_iff e'.device_id e.device_id).0 same)) in
      rw (met, same)
  | inr other ↦
      let met : (ack.device_id == e'.device_id) ≡ false =
        ground
          (arith, eq_iff ack.device_id e'.device_id, eq_iff e'.device_id e.device_id, device) in
      rw (met, other)
]

-- Another delivery leaves the receipt of a batch as it is.
Receipted-Grows :
    (e e' : IngestEnvelopeV2) (ack : IngestAckV2) (db db' : Db)
    → Grows e' db db'
    → Receipted e ack db
    → Receipted e ack db'
unfolding ingest_receipt_tx find_where
Receipted-Grows e e' ack db db' (kept same) k = record {
  found = rw same k.found;
  device = k.device;
}
Receipted-Grows e e' ack db db' (added new absent named more) k =
    elim (Bool-cases (new.batch_id == e.batch_id)) [
      | inl hit ↦
          let one : e'.batch_id ≡ e.batch_id = sym named ∙ (eq_iff new.batch_id e.batch_id).0 hit in
          cc (one, absent, k.found)
      | inr miss ↦ record { found = rw (more, miss) k.found; device = k.device }
    ]

apply_all-Receipted :
    (e : IngestEnvelopeV2) (ack : IngestAckV2) (others : List (IngestEnvelopeV2 × ℕ)) (db : Db)
    → Receipted e ack db
    → Receipted e ack (apply_all others db)
unfolding apply_all apply_ingest_v2
apply_all-Receipted e ack [] db k = k
apply_all-Receipted e ack ((e', at) ∷ others) db k =
    apply_all-Receipted e ack others _
      (Receipted-Grows e e' ack db _ (after_lookup-Grows e' at db _ refl) k)

-- Once a batch is applied, and whatever other deliveries are applied, replayed or refused after it,
-- every delivery under its batch id, whatever it carries and whenever it comes, changes no table.
-- The applied device gets the acknowledgement of the first time, marked as a replay that mutates
-- nothing; any other device gets a conflict.
pub apply_ingest-replay :
    (e e' : IngestEnvelopeV2) (received_at later : ℕ) (others : List (IngestEnvelopeV2 × ℕ))
    (db : Db) {r : IngestV2Result} {db' : Db}
    → apply_ingest_v2 e received_at db ≡ (applied r, db')
    → e'.batch_id ≡ e.batch_id
    → apply_ingest_v2 e' later (apply_all others db') ≡ (
      (if e'.device_id == e.device_id
          then applied (record { ack = r.ack; replay = true; mutated = false })
          else failed receipt_conflict),
      apply_all others db',
    )
unfolding apply_ingest_v2
apply_ingest-replay e e' received_at later others db {r} {db'} h same =
    let first : Receipted e r.ack db' =
      subst (IsReceipted e) h (after_lookup-IsReceipted e received_at db _ refl) in
    let k = apply_all-Receipted e r.ack others db' first in
    rw (same, k.found) (answer e e' r.ack later (apply_all others db') k.device)

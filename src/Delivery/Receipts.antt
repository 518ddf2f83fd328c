-- ===== src/Delivery/Receipts.antt =====
-- internal/store/ingestv2.go and internal/server/ingestv2.go: what a request does to the receipts.
use omni_token.Prelude.{
  ℕ, String, Bool, true, false, Option, none, some, List, [], ◌∷◌, ◌≡◌, refl, sym, subst, inl, inr,
  Bool-cases, is_some, find_where, find_where-none-All, Pairs, ◌==◌,
}
use omni_token.Model.Envelope.{IngestEnvelopeV2, IngestAckV2, IngestRejection}
use omni_token.Store.Database.{Db}
use omni_token.Store.Ingest.{
  receipt_conflict, Outcome, applied, failed, ingest_receipt_tx, receipt_for, apply_ingest_v2,
}
use omni_token.Store.Ingest.Growth.{Grows, kept, added, after_lookup-Grows}
use omni_token.Store.Ingest.Replay.{IsReceipted, after_lookup-IsReceipted}
use omni_token.Agent.Upload.{succeeded}
use omni_token.Server.Ingest.{
  Response, acknowledged, refused, Handled, answer_outcome, after_auth, after_validation,
  handle_ingest_v2,
}

pub answer_outcome-db : (r : Outcome × Db) → (answer_outcome r).db ≡ r.1
answer_outcome-db (failed err, db) = refl
answer_outcome-db (applied r, db) = refl

after_auth-Grows :
    (e : IngestEnvelopeV2) (received_at : ℕ) (db : Db) (auth : Option Bool)
    → Grows e db (after_auth e received_at db auth).db
unfolding apply_ingest_v2
after_auth-Grows e received_at db none = kept refl
after_auth-Grows e received_at db (some false) = kept refl
after_auth-Grows e received_at db (some true) =
    subst (Grows e db) (sym (answer_outcome-db (apply_ingest_v2 e received_at db)))
      (after_lookup-Grows e received_at db _ refl)

after_validation-Grows :
    (auth : Option Bool) (e : IngestEnvelopeV2) (received_at : ℕ) (db : Db)
    (rs : List IngestRejection)
    → Grows e db (after_validation auth e received_at db rs).db
after_validation-Grows auth e received_at db [] = after_auth-Grows e received_at db auth
after_validation-Grows auth e received_at db (r ∷ rs) = kept refl

-- A request that is answered with success has left a receipt for its batch.
abbrev pub Answers : IngestEnvelopeV2 → Handled → Response → Type 0
Answers e h (acknowledged status ack) =
    succeeded status ≡ true → is_some (ingest_receipt_tx e.batch_id h.db) ≡ true
Answers e h (refused status text) = succeeded status ≡ false

answer_outcome-Answers :
    (e : IngestEnvelopeV2) (r : Outcome × Db)
    → IsReceipted e r
    → Answers e (answer_outcome r) (answer_outcome r).response
answer_outcome-Answers e (failed receipt_conflict, db) k = refl
answer_outcome-Answers e (failed _, db) k = refl
answer_outcome-Answers e (applied r, db) k = λ h. rw k.found refl

after_auth-Answers :
    (e : IngestEnvelopeV2) (received_at : ℕ) (db : Db) (auth : Option Bool)
    → let h = after_auth e received_at db auth in Answers e h h.response
unfolding apply_ingest_v2
after_auth-Answers e received_at db none = refl
after_auth-Answers e received_at db (some false) = refl
after_auth-Answers e received_at db (some true) =
    answer_outcome-Answers e _ (after_lookup-IsReceipted e received_at db _ refl)

after_validation-Answers :
    (auth : Option Bool) (e : IngestEnvelopeV2) (received_at : ℕ) (db : Db)
    (rs : List IngestRejection)
    → let h = after_validation auth e received_at db rs in Answers e h h.response
after_validation-Answers auth e received_at db [] = after_auth-Answers e received_at db auth
after_validation-Answers auth e received_at db (r ∷ rs) = λ h. cc h

module _ (authenticate : IngestEnvelopeV2 → Option Bool) where
  pub handle_ingest_v2-Grows :
      (e : IngestEnvelopeV2) (received_at : ℕ) (db : Db)
      → Grows e db (handle_ingest_v2 authenticate e received_at db).db
  unfolding handle_ingest_v2
  handle_ingest_v2-Grows e received_at db =
      after_validation-Grows (authenticate e) e received_at db _

  pub handle_ingest_v2-Answers :
      (e : IngestEnvelopeV2) (received_at : ℕ) (db : Db)
      → let h = handle_ingest_v2 authenticate e received_at db in Answers e h h.response
  unfolding handle_ingest_v2
  handle_ingest_v2-Answers e received_at db =
      after_validation-Answers (authenticate e) e received_at db _

receipt_ahead :
    (ack : IngestAckV2) (batch : String) (rs : List IngestAckV2)
    → is_some (find_where (receipt_for batch) rs) ≡ true
    → is_some (find_where (receipt_for batch) (ack ∷ rs)) ≡ true
unfolding find_where
receipt_ahead ack batch rs h = elim (Bool-cases (ack.batch_id == batch)) [
  | inl same ↦ rw same refl
  | inr other ↦ rw other h
]

-- The receipt of a batch, once there, stays.
pub Grows-is_some :
    (e : IngestEnvelopeV2) (db db' : Db) (batch : String)
    → Grows e db db'
    → is_some (ingest_receipt_tx batch db) ≡ true
    → is_some (ingest_receipt_tx batch db') ≡ true
unfolding ingest_receipt_tx
Grows-is_some e db db' batch (kept same) h = rw same h
Grows-is_some e db db' batch (added ack absent named more) h =
    rw more (receipt_ahead ack batch db.receipts h)

abbrev pub OtherReceipt : IngestAckV2 → IngestAckV2 → Type 0
OtherReceipt r q = (q.batch_id == r.batch_id) ≡ false

-- `batch_id` is the table's primary key.
pub Grows-distinct :
    (e : IngestEnvelopeV2) (db db' : Db)
    → Grows e db db'
    → Pairs OtherReceipt db.receipts
    → Pairs OtherReceipt db'.receipts
unfolding ingest_receipt_tx
Grows-distinct e db db' (kept same) h = subst (Pairs OtherReceipt) (sym same) h
Grows-distinct e db db' (added ack absent named more) h =
    subst (Pairs OtherReceipt) (sym more)
      (rw named (find_where-none-All (receipt_for e.batch_id) db.receipts absent), h)

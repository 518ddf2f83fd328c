-- ===== src/Delivery/Once.antt =====
-- The hub's receipts over any sequence of requests, and what a request under a receipted batch id
-- does.
use omni_token.Prelude.{
  ℕ, Bool, true, false, Option, none, some, List, [], ◌∷◌, ◌≡◌, refl, ◌∙◌, inl, inr, Bool-cases,
  is_some, Pairs, ◌==◌,
}
use omni_token.Model.Envelope.{
  IngestEnvelopeV2, IngestAckV2, IngestRejection, validate_ingest_envelope,
}
use omni_token.Store.Database.{Db}
use omni_token.Store.Ingest.{ingest_receipt_tx, after_lookup, apply_ingest_v2}
use omni_token.Server.Ingest.{after_auth, after_validation, handle_ingest_v2}
use omni_token.Agent.Outbox.{Bytes, Fallible-cases, peek_batch, enqueue_many_next}
use omni_token.Delivery.{
  System, Network, dropped, unanswered, delivered, Action, send, upload, other_client, served, act,
  act_all,
}
use omni_token.Store.Ingest.Growth.{Grows}
use omni_token.Delivery.Receipts.{
  handle_ingest_v2-Grows, Grows-is_some, OtherReceipt, Grows-distinct, answer_outcome-db,
}

module _ (authenticate : IngestEnvelopeV2 → Option Bool) (marshal : IngestEnvelopeV2 → Bytes)
    (unmarshal : Bytes → Option IngestEnvelopeV2) where
  -- What each action does to the hub: a request served, or nothing.
  act-Grows :
      (P : Db → Type 0) (a : Action) (s : System)
      → ((e : IngestEnvelopeV2) (db db' : Db) → Grows e db db' → P db → P db')
      → P s.db
      → P (act authenticate marshal unmarshal a s).db
  unfolding act
  act-Grows P (send now es) s grow h =
      elim (Fallible-cases (enqueue_many_next marshal now es s.outbox)) [
        | inl (r, made) ↦ rw made h
        | inr (e, made) ↦ rw made h
      ]
  act-Grows P (upload now net) s grow h = elim (Fallible-cases (peek_batch unmarshal s.outbox)) [
    | inr (e, seen) ↦ rw seen h
    | inl (e, seen) ↦
        rw seen (served-P net e (grow e s.db _ (handle_ingest_v2-Grows authenticate e now s.db) h))
  ]
    where
      served-P :
          (net : Network) (e : IngestEnvelopeV2)
          → P (handle_ingest_v2 authenticate e now s.db).db
          → P (served net (handle_ingest_v2 authenticate e now s.db) s.db)
      served-P dropped e k = h
      served-P unanswered e k = k
      served-P delivered e k = k
  act-Grows P (other_client now e) s grow h =
      grow e s.db _ (handle_ingest_v2-Grows authenticate e now s.db) h

  act_all-Grows :
      (P : Db → Type 0) (actions : List Action) (s : System)
      → ((e : IngestEnvelopeV2) (db db' : Db) → Grows e db db' → P db → P db')
      → P s.db
      → P (act_all authenticate marshal unmarshal actions s).db
  unfolding act_all
  act_all-Grows P [] s grow h = h
  act_all-Grows P (a ∷ later) s grow h =
      act_all-Grows P later (act authenticate marshal unmarshal a s) grow (act-Grows P a s grow h)

  after_lookup-unchanged :
      (e : IngestEnvelopeV2) (now : ℕ) (db : Db) (o : Option IngestAckV2)
      → is_some o ≡ true
      → (after_lookup e now db o).1 ≡ db
  after_lookup-unchanged e now db none h = cc h
  after_lookup-unchanged e now db (some r) h = elim (Bool-cases (r.device_id == e.device_id)) [
    | inl same ↦ rw same refl
    | inr other ↦ rw other refl
  ]

  after_auth-unchanged :
      (e : IngestEnvelopeV2) (now : ℕ) (db : Db) (auth : Option Bool)
      → is_some (ingest_receipt_tx e.batch_id db) ≡ true
      → (after_auth e now db auth).db ≡ db
  unfolding apply_ingest_v2
  after_auth-unchanged e now db none h = refl
  after_auth-unchanged e now db (some false) h = refl
  after_auth-unchanged e now db (some true) h =
      answer_outcome-db (apply_ingest_v2 e now db) ∙ after_lookup-unchanged e now db _ h

  handle_ingest_v2-unchanged :
      (e : IngestEnvelopeV2) (now : ℕ) (db : Db)
      → is_some (ingest_receipt_tx e.batch_id db) ≡ true
      → (handle_ingest_v2 authenticate e now db).db ≡ db
  unfolding handle_ingest_v2
  handle_ingest_v2-unchanged e now db h = cases (validate_ingest_envelope e)
    where
      cases : (rs : List IngestRejection) → (after_validation (authenticate e) e now db rs).db ≡ db
      cases [] = after_auth-unchanged e now db (authenticate e) h
      cases (r ∷ rs) = refl

  -- At most once. If batch ids are distinct in the hub's receipts and a batch has its receipt, then
  -- after any sequence of sends, uploads, losses and foreign requests batch ids are still distinct,
  -- and one more request under that batch id, whatever it carries, changes no table of the hub.
  pub act_all_once :
      (actions : List Action) (s : System) (e : IngestEnvelopeV2) (now : ℕ)
      → Pairs OtherReceipt s.db.receipts
      → is_some (ingest_receipt_tx e.batch_id s.db) ≡ true
      → let s' = act_all authenticate marshal unmarshal actions s in
        Pairs OtherReceipt s'.db.receipts × ((handle_ingest_v2 authenticate e now s'.db).db ≡ s'.db)
  act_all_once actions s e now distinct there = (
    act_all-Grows (λ db. Pairs OtherReceipt db.receipts) actions s Grows-distinct distinct,
    handle_ingest_v2-unchanged e now _ (
        act_all-Grows (λ db. is_some (ingest_receipt_tx e.batch_id db) ≡ true) actions s
          (λ e' db db'. Grows-is_some e' db db' e.batch_id) there),
  )

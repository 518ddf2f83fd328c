-- ===== src/Delivery/Loss.antt =====
-- An outbox and the hub over a network that drops requests and answers: what becomes of an
-- envelope that was accepted into the outbox.
use omni_token.Prelude.{
  ℕ, String, Bool, true, Option, some, List, [], ◌∷◌, ◌++◌, ◌≡◌, ◌⊎◌, refl, sym, ap, ◌∙◌, subst,
  inl, inr, Bool-cases, is_some, of_some, All, All-append, All-mono, Any-append_left,
  Any-append_right, All-left, All-right, Any,
}
use omni_token.Model.Envelope.{IngestEnvelopeV2, IngestAckV2}
use omni_token.Store.Database.{Db}
use omni_token.Store.Ingest.{ingest_receipt_tx}
use omni_token.Server.Ingest.{Response, acknowledged, refused, Handled, handle_ingest_v2}
use omni_token.Agent.Outbox.{
  Bytes, Result, ok, err, Fallible-cases, Batch, Outbox, peek_head, peek_batch, acknowledge,
  enqueue_many_next,
}
use omni_token.Agent.Outbox.Order.{sent_rows, enqueue_many_next-sends}
use omni_token.Agent.Upload.{answered, succeeded, of_result, after_reply, upload_oldest, left_after}
use omni_token.Agent.Upload.Drain.{acknowledge-Took, decode-ok}
use omni_token.Delivery.{
  System, Network, dropped, unanswered, delivered, Action, send, upload, other_client, after_send,
  reply_of, served, after_request, act, act_all,
}
use omni_token.Store.Ingest.Growth.{Grows}
use omni_token.Delivery.Receipts.{
  Answers, handle_ingest_v2-Grows, handle_ingest_v2-Answers, Grows-is_some,
}

module _ (authenticate : IngestEnvelopeV2 → Option Bool) (marshal : IngestEnvelopeV2 → Bytes)
    (unmarshal : Bytes → Option IngestEnvelopeV2) where
  abbrev Carries : IngestEnvelopeV2 → Batch → Type 0
  Carries e b = unmarshal b.envelope ≡ some e

  -- The envelope still stands in the outbox, or the hub has its receipt.
  abbrev pub IsKept : Outbox → Db → IngestEnvelopeV2 → Type 0
  IsKept o db e = Any (Carries e) o.batches ⊎ (is_some (ingest_receipt_tx e.batch_id db) ≡ true)

  abbrev pub RoundTrips : IngestEnvelopeV2 → Type 0
  RoundTrips e = unmarshal (marshal e) ≡ some e

  Carries-sent_rows :
      (now : ℕ) (es : List IngestEnvelopeV2)
      → All RoundTrips es
      → All (λ e. Any (Carries e) (sent_rows marshal now es)) es
  unfolding sent_rows
  Carries-sent_rows now [] h = tt
  Carries-sent_rows now (e ∷ es) h =
      (inl h.0, All-mono _ _ es (λ e' k. inr k) (Carries-sent_rows now es h.1))

  IsKept-append :
      (bs cs : List Batch) (db : Db) (e : IngestEnvelopeV2)
      → Any (Carries e) bs ⊎ (is_some (ingest_receipt_tx e.batch_id db) ≡ true)
      → Any (Carries e) (bs ++ cs) ⊎ (is_some (ingest_receipt_tx e.batch_id db) ≡ true)
  IsKept-append bs cs db e (inl h) = inl (Any-append_left _ bs cs h)
  IsKept-append bs cs db e (inr h) = inr h

  abbrev IsSafe : System → Type 0
  IsSafe s = All (IsKept s.outbox s.db) s.sent

  after_send-IsSafe :
      (now : ℕ) (es : List IngestEnvelopeV2) (s : System)
      (r : Result (List IngestEnvelopeV2 × Outbox))
      → enqueue_many_next marshal now es s.outbox ≡ r
      → All RoundTrips (after_send s r).sent
      → IsSafe s
      → IsSafe (after_send s r)
  after_send-IsSafe now es s (err e) made trips h = h
  after_send-IsSafe now es s (ok (out, o)) made trips h =
      let (numbers, rows, counter) = enqueue_many_next-sends marshal now es s.outbox made in
      subst
        (λ bs.
          All (λ e. Any (Carries e) bs ⊎ (is_some (ingest_receipt_tx e.batch_id s.db) ≡ true))
            (s.sent ++ out))
        (sym rows)
        (All-append _ s.sent out
          (All-mono _ _ s.sent
            (λ e. IsKept-append s.outbox.batches (sent_rows marshal now out) s.db e) h)
          (All-mono _ _ out (λ e k. inl (Any-append_right _ s.outbox.batches _ k))
            (Carries-sent_rows now out (All-right _ s.sent out trips))))

  -- What an answered request leaves of the outbox.
  data Left (e : IngestEnvelopeV2) (db' : Db) (o o' : Outbox) : Type 0 where
    same : o' ≡ o → Left e db' o o'
    taken :
        (head : Batch) (rest : List Batch)
        → o.batches ≡ head ∷ rest
        → unmarshal head.envelope ≡ some e
        → o'.batches ≡ rest
        → is_some (ingest_receipt_tx e.batch_id db') ≡ true
        → Left e db' o o'

  peek_head-decodes :
      (bs : List Batch) (head : Batch) (rest : List Batch) (e : IngestEnvelopeV2)
      → bs ≡ head ∷ rest
      → peek_head unmarshal bs ≡ ok e
      → unmarshal head.envelope ≡ some e
  peek_head-decodes bs head rest e queue seen = decode-ok unmarshal head.envelope (rw queue at seen)

  acknowledge-Left :
      (e : IngestEnvelopeV2) (h : Handled) (o : Outbox) (ack : IngestAckV2) (r : Result Outbox)
      → acknowledge unmarshal ack o ≡ r
      → peek_batch unmarshal o ≡ ok e
      → is_some (ingest_receipt_tx e.batch_id h.db) ≡ true
      → Left e h.db o (left_after unmarshal o (of_result r))
  unfolding peek_batch
  acknowledge-Left e h o ack (err x) made seen k = same refl
  acknowledge-Left e h o ack (ok o') made seen k =
      let t = acknowledge-Took unmarshal ack o made in
      taken t.head t.rest t.queue (peek_head-decodes o.batches t.head t.rest e t.queue seen)
        (ap (λ o. o.batches) t.left) k

  after_reply-Left :
      (e : IngestEnvelopeV2) (h : Handled) (o : Outbox) (r : Response)
      → Answers e h r
      → peek_batch unmarshal o ≡ ok e
      → Left e h.db o (left_after unmarshal o (after_reply unmarshal o (answered r)))
  after_reply-Left e h o (refused status text) k seen = rw k (same refl)
  after_reply-Left e h o (acknowledged status ack) k seen = elim (Bool-cases (succeeded status)) [
    | inl good ↦ rw good (acknowledge-Left e h o ack _ refl seen (k good))
    | inr bad ↦ rw bad (same refl)
  ]

  upload-Left :
      (e : IngestEnvelopeV2) (h : Handled) (net : Network) (db : Db) (o : Outbox)
      → Answers e h h.response
      → peek_batch unmarshal o ≡ ok e
      → Left e
          (served net h db)
          o
          (left_after unmarshal o (upload_oldest unmarshal (λ e'. reply_of net h) o))
  unfolding upload_oldest
  upload-Left e h dropped db o k seen = rw seen (same refl)
  upload-Left e h unanswered db o k seen = rw seen (same refl)
  upload-Left e h delivered db o k seen = rw seen (after_reply-Left e h o h.response k seen)

  Left-IsKept :
      (e : IngestEnvelopeV2) (db db' : Db) (o o' : Outbox) (e' : IngestEnvelopeV2)
      → Left e db' o o'
      → (is_some (ingest_receipt_tx e'.batch_id db) ≡ true
          → is_some (ingest_receipt_tx e'.batch_id db') ≡ true)
      → IsKept o db e'
      → IsKept o' db' e'
  Left-IsKept e db db' o o' e' left more (inr h) = inr (more h)
  Left-IsKept e db db' o o' e' (same s) more (inl h) =
      inl (subst (λ o. Any (Carries e') o.batches) (sym s) h)
  Left-IsKept e db db' o o' e' (taken head rest queue seen left receipt) more (inl h) =
      elim (subst (Any (Carries e')) queue h) [
        | inl at_head ↦ inr (
            subst (λ e. is_some (ingest_receipt_tx e.batch_id db') ≡ true)
              (of_some (sym seen ∙ at_head)) receipt)
        | inr later ↦ inl (subst (Any (Carries e')) (sym left) later)
      ]

  served-more :
      (net : Network) (e : IngestEnvelopeV2) (h : Handled) (db : Db) (batch : String)
      → Grows e db h.db
      → is_some (ingest_receipt_tx batch db) ≡ true
      → is_some (ingest_receipt_tx batch (served net h db)) ≡ true
  served-more dropped e h db batch g k = k
  served-more unanswered e h db batch g k = Grows-is_some e db h.db batch g k
  served-more delivered e h db batch g k = Grows-is_some e db h.db batch g k

  after_request-IsSafe :
      (now : ℕ) (net : Network) (s : System) (r : Result IngestEnvelopeV2)
      → peek_batch unmarshal s.outbox ≡ r
      → IsSafe s
      → IsSafe (after_request authenticate marshal unmarshal now net s r)
  after_request-IsSafe now net s (err e) seen h = h
  after_request-IsSafe now net s (ok e) seen h =
      let g = handle_ingest_v2-Grows authenticate e now s.db in
      let a = handle_ingest_v2-Answers authenticate e now s.db in
      let handled = handle_ingest_v2 authenticate e now s.db in
      All-mono _ _ s.sent
        (λ e'.
          Left-IsKept e s.db (served net handled s.db) s.outbox _ e'
            (upload-Left e handled net s.db s.outbox a seen)
            (served-more net e handled s.db e'.batch_id g))
        h

  act-IsSafe :
      (a : Action) (s : System)
      → All RoundTrips (act authenticate marshal unmarshal a s).sent
      → IsSafe s
      → IsSafe (act authenticate marshal unmarshal a s)
  unfolding act
  act-IsSafe (send now es) s trips h =
      after_send-IsSafe now es s (enqueue_many_next marshal now es s.outbox) refl trips h
  act-IsSafe (upload now net) s trips h =
      after_request-IsSafe now net s (peek_batch unmarshal s.outbox) refl h
  act-IsSafe (other_client now e) s trips h =
      let g = handle_ingest_v2-Grows authenticate e now s.db in
      All-mono _ _ s.sent
        (λ e'.
          Left-IsKept e' s.db (handle_ingest_v2 authenticate e now s.db).db s.outbox s.outbox e'
            (same refl) (Grows-is_some e s.db _ e'.batch_id g))
        h

  act-sent :
      (P : IngestEnvelopeV2 → Type 0) (a : Action) (s : System)
      → All P (act authenticate marshal unmarshal a s).sent
      → All P s.sent
  unfolding act
  act-sent P (send now es) s h = elim (Fallible-cases (enqueue_many_next marshal now es s.outbox)) [
    | inl (r, made) ↦ All-left P s.sent r.0 (rw made at h)
    | inr (e, made) ↦ (rw made at h)
  ]
  act-sent P (upload now net) s h = elim (Fallible-cases (peek_batch unmarshal s.outbox)) [
    | inl (e, seen) ↦ (rw seen at h)
    | inr (e, seen) ↦ (rw seen at h)
  ]
  act-sent P (other_client now e) s h = h

  act_all-sent :
      (P : IngestEnvelopeV2 → Type 0) (actions : List Action) (s : System)
      → All P (act_all authenticate marshal unmarshal actions s).sent
      → All P s.sent
  unfolding act_all
  act_all-sent P [] s h = h
  act_all-sent P (a ∷ later) s h =
      act-sent P a s (act_all-sent P later (act authenticate marshal unmarshal a s) h)

  -- Nothing is lost. Whatever the device sends, whichever requests and answers the network drops
  -- and whatever other clients post in between, every envelope that was accepted into the outbox
  -- still stands in it or has its receipt at the hub, if decoding gives back what was encoded for
  -- the envelopes sent.
  pub act_all-IsKept :
      (actions : List Action) (s : System)
      → All RoundTrips (act_all authenticate marshal unmarshal actions s).sent
      → All (IsKept s.outbox s.db) s.sent
      → let s' = act_all authenticate marshal unmarshal actions s in
        All (IsKept s'.outbox s'.db) s'.sent
  unfolding act_all
  act_all-IsKept [] s trips h = h
  act_all-IsKept (a ∷ later) s trips h =
      let s' = act authenticate marshal unmarshal a s in
      act_all-IsKept later s' trips (act-IsSafe a s (act_all-sent RoundTrips later s' trips) h)

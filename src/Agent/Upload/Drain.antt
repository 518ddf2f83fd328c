-- ===== src/Agent/Upload/Drain.antt =====
-- internal/agent/agent.go: what an upload removes, and how the drain ends.
use omni_token.Prelude.{
  ℕ, zero, suc, ◌+◌, ◌<◌, true, Option, some, List, [], ◌∷◌, ◌≡◌, ◌⊎◌, is_some, refl, sym, ap, ◌∙◌,
  inl, inr, arith, Bool-cases, Option-cases, length,
}
use omni_token.Model.Envelope.{IngestEnvelopeV2, IngestAckV2}
use omni_token.Fallible.{of_ok}
use omni_token.Agent.Outbox.{
  Bytes, empty, ok, >>=-eq-ok, Batch, Outbox, decode, peek_head, peek_batch, ack_matches,
  acknowledge, acknowledge_head,
}
use omni_token.Agent.Upload.{
  Reply, Upload, uploaded, stopped, of_outbox, upload_oldest, Drained, after_upload, left_after,
  drain_outbox, after_reply, after_peek, of_result, succeeded, zero_ack, lost, answered,
}
use omni_token.Server.Ingest.{acknowledged, refused}

-- The outbox without its head.
abbrev pub popped : Outbox → List Batch → Outbox
popped o bs = record o { batches = bs }

module _ (unmarshal : Bytes → Option IngestEnvelopeV2) where
  -- An acknowledgement took the head, which it names.
  pub record Took (ack : IngestAckV2) (o o' : Outbox) : Type 0 where
    pub head : Batch
    pub rest : List Batch
    pub queue : o.batches ≡ head ∷ rest
    pub carried : IngestEnvelopeV2
    pub decoded : unmarshal head.envelope ≡ some carried
    pub matched : ack_matches ack carried ≡ true
    pub left : o' ≡ popped o rest

  pub decode-ok :
      (payload : Bytes) {e : IngestEnvelopeV2}
      → decode unmarshal payload ≡ ok e
      → unmarshal payload ≡ some e
  decode-ok payload h = elim (Option-cases (unmarshal payload)) [
    | inl none_there ↦ cc (rw none_there at h)
    | inr (a, there) ↦ there ∙ ap some (of_ok (rw there at h))
  ]

  acknowledge_head-Took :
      (ack : IngestAckV2) (o : Outbox) (bs : List Batch) {o' : Outbox}
      → acknowledge_head unmarshal ack o bs ≡ ok o'
      → o.batches ≡ bs
      → Took ack o o'
  acknowledge_head-Took ack o [] h same = cc
  acknowledge_head-Took ack o (b ∷ bs) h same =
      let (e, seen, rest) = >>=-eq-ok (decode unmarshal b.envelope) _ h in
      elim (Bool-cases (ack_matches ack e)) [
        | inr wrong ↦ cc (rw wrong at rest)
        | inl right ↦ record {
          head = b;
          rest = bs;
          queue = same;
          carried = e;
          decoded = decode-ok b.envelope seen;
          matched = right;
          left = sym (of_ok (rw right at rest));
        }
      ]

  pub acknowledge-Took :
      (ack : IngestAckV2) (o : Outbox) {o' : Outbox}
      → acknowledge unmarshal ack o ≡ ok o'
      → Took ack o o'
  unfolding acknowledge
  acknowledge-Took ack o h = acknowledge_head-Took ack o o.batches h refl

  -- What an upload leaves: the queue without its head, or the outbox as it was.
  abbrev Settles : Outbox → Upload → Type 0
  Settles o (uploaded o') = suc (length o'.batches) ≡ length o.batches
  Settles o (stopped (of_outbox empty)) = o.batches ≡ []
  Settles o (stopped e) = Unit

  acknowledge_head-Settles :
      (ack : IngestAckV2) (o : Outbox) (bs : List Batch)
      → o.batches ≡ bs
      → Settles o (of_result (acknowledge_head unmarshal ack o bs))
  acknowledge_head-Settles ack o [] same = same
  acknowledge_head-Settles ack o (b ∷ bs) same = elim (Option-cases (unmarshal b.envelope)) [
    | inl undecoded ↦ rw undecoded tt
    | inr (e, there) ↦ rw there (elim (Bool-cases (ack_matches ack e)) [
      | inl right ↦ rw (right, same) refl
      | inr wrong ↦ rw wrong tt
    ])
  ]

  acknowledge-Settles :
      (ack : IngestAckV2) (o : Outbox) → Settles o (of_result (acknowledge unmarshal ack o))
  unfolding acknowledge
  acknowledge-Settles ack o = acknowledge_head-Settles ack o o.batches refl

  after_reply-Settles : (o : Outbox) (r : Reply) → Settles o (after_reply unmarshal o r)
  after_reply-Settles o lost = tt
  after_reply-Settles o (answered (refused status text)) = elim (Bool-cases (succeeded status)) [
    | inl two_hundred ↦ rw two_hundred (acknowledge-Settles zero_ack o)
    | inr other ↦ rw other tt
  ]
  after_reply-Settles o (answered (acknowledged status ack)) =
      elim (Bool-cases (succeeded status)) [
        | inl two_hundred ↦ rw two_hundred (acknowledge-Settles ack o)
        | inr other ↦ rw other tt
      ]

  after_peek-Settles :
      (post : IngestEnvelopeV2 → Reply) (o : Outbox) (bs : List Batch)
      → o.batches ≡ bs
      → Settles o (after_peek unmarshal post o (peek_head unmarshal bs))
  after_peek-Settles post o [] same = same
  after_peek-Settles post o (b ∷ bs) same = elim (Option-cases (unmarshal b.envelope)) [
    | inl undecoded ↦ rw undecoded tt
    | inr (e, there) ↦ rw there (after_reply-Settles o (post e))
  ]

  upload_oldest-Settles :
      (post : IngestEnvelopeV2 → Reply) (o : Outbox) → Settles o (upload_oldest unmarshal post o)
  unfolding upload_oldest peek_batch
  upload_oldest-Settles post o = after_peek-Settles post o o.batches refl

  -- How a drain of `o` that had made `n` uploads ends.
  record Ends (n : ℕ) (o : Outbox) (d : Drained) : Type 0 where
    accounted : d.uploads + length d.outbox.batches ≡ n + length o.batches
    emptied : (d.outbox.batches ≡ []) ⊎ (is_some d.error ≡ true)

  after_upload-Ends :
      (n : ℕ) (o : Outbox) (u : Upload) (rest : Option Drained)
      → Settles o u
      → (suc (length (left_after unmarshal o u).batches) ≡ length o.batches
          → (d : Drained) × (rest ≡ some d) × Ends (suc n) (left_after unmarshal o u) d)
      → (d : Drained) × (after_upload unmarshal rest n o u ≡ some d) × Ends n o d
  after_upload-Ends n o (uploaded o') rest k more =
      let (d, made, ends) = more k in
      (d, made, record { accounted = omega (arith, ends.accounted, k); emptied = ends.emptied })
  after_upload-Ends n o (stopped (of_outbox empty)) rest k more =
      (_, refl, record { accounted = refl; emptied = inl k })
  after_upload-Ends n o (stopped _) rest k more =
      (_, refl, record { accounted = refl; emptied = inr refl })

  -- A drain always ends when the fuel exceeds the queue's length: every envelope is counted as
  -- uploaded or still queued, and the drain has emptied the outbox or reports an error.
  pub drain_outbox-ends :
      (fuel : ℕ) (posts : ℕ → IngestEnvelopeV2 → Reply) (n : ℕ) (o : Outbox)
      → length o.batches < fuel
      → (d : Drained) × (drain_outbox unmarshal fuel posts n o ≡ some d)
        × (d.uploads + length d.outbox.batches ≡ n + length o.batches)
        × ((d.outbox.batches ≡ []) ⊎ (is_some d.error ≡ true))
  unfolding drain_outbox
  drain_outbox-ends zero posts n o h =
      let one : ℕ = 1 in let absurd : one ≡ 0 = omega (arith, h) in cc absurd
  drain_outbox-ends (suc fuel) posts n o h =
      let u = upload_oldest unmarshal (posts n) o in
      let o' = left_after unmarshal o u in
      let (d, made, ends) = after_upload-Ends n o u _ (upload_oldest-Settles (posts n) o) (λ k.
        let (d, made, counted, emptied) =
          drain_outbox-ends fuel posts (suc n) o' (omega (arith, h, k)) in
        (d, made, record { accounted = counted; emptied = emptied })) in
      (d, made, ends.accounted, ends.emptied)

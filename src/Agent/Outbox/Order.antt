-- ===== src/Agent/Outbox/Order.antt =====
-- internal/agent/outbox.go: what enqueuing adds to the table, and the order it stands in.
use omni_token.Prelude.{
  ℕ, suc, ◌+◌, String, false, none, List, [], ◌∷◌, ◌++◌, ◌≡◌, refl, sym, ap, ◌∙◌, subst, inl, inr,
  arith, Bool-cases, Option-cases, eqb, ltb, find_where, length,
}
use omni_token.Model.Envelope.{IngestEnvelopeV2, IngestRejection}
use omni_token.Fallible.{of_ok}
use omni_token.Agent.Outbox.{
  Bytes, encoded, max_ingest_envelope_bytes, max_uint64, ok, >>=-eq-ok, Batch, Outbox, queued,
  has_batch_id, insert_new_payload, insert_all, added_bytes, envelopes_of, Assigned, encode, assign,
  room_then_insert, enqueue_many_next,
}

abbrev pub row : ℕ → String → Bytes → Batch
row now id payload = record {
  batch_id = id;
  envelope = payload;
  payload_bytes = length payload;
  enqueued_at = now;
}

pub insert_new_payload-ok :
    (id : String) (payload : Bytes) (now : ℕ) (bs : List Batch) {bs' : List Batch}
    → insert_new_payload id payload now bs ≡ ok bs'
    → (find_where (has_batch_id id) bs ≡ none) × (bs' ≡ bs ++ row now id payload ∷ [])
unfolding insert_new_payload
insert_new_payload-ok id payload now bs h = elim (Option-cases (find_where (has_batch_id id) bs)) [
  | inl absent ↦ (absent, of_ok (sym (rw absent at h)))
  | inr (b, seen) ↦ cc (rw seen at h)
]

-- The rows of envelopes that were given their sequences.
abbrev pub rows : ℕ → Assigned → List Batch
rows now [] = []
rows now ((e, payload) ∷ rest) = row now e.batch_id payload ∷ rows now rest

ap2 {ℓ κ ξ} :
    {A : Type ℓ} {B : Type κ} {C : Type ξ} (f : A → B → C) {a a' : A} {b b' : B}
    → a ≡ a'
    → b ≡ b'
    → f a b ≡ f a' b'
ap2 f h k = cc

append_none : (bs : List Batch) → bs ++ [] ≡ bs
append_none [] = refl
append_none (x ∷ bs) = ap (λ xs. x ∷ xs) (append_none bs)

append_one : (bs : List Batch) (b : Batch) (cs : List Batch) → (bs ++ b ∷ []) ++ cs ≡ bs ++ b ∷ cs
append_one [] b cs = refl
append_one (x ∷ bs) b cs = ap (λ xs. x ∷ xs) (append_one bs b cs)

pub insert_all-ok :
    (now : ℕ) (done : Assigned) (bs : List Batch) {bs' : List Batch}
    → insert_all now done bs ≡ ok bs'
    → bs' ≡ bs ++ rows now done
unfolding insert_all
insert_all-ok now [] bs h = sym (of_ok h) ∙ sym (append_none bs)
insert_all-ok now ((e, payload) ∷ rest) bs {bs'} h =
    let (b, first, more) = >>=-eq-ok (insert_new_payload e.batch_id payload now bs) _ h in
    insert_all-ok now rest b more
    ∙ ap (λ xs. xs ++ rows now rest) (insert_new_payload-ok e.batch_id payload now bs first).1
    ∙ append_one bs (row now e.batch_id payload) (rows now rest)

-- The envelopes in their order, numbered after the last sequence that was given out.
unfoldable pub numbered : ℕ → List IngestEnvelopeV2 → List IngestEnvelopeV2
numbered last [] = []
numbered last (e ∷ es) = record e { sequence = suc last } ∷ numbered (suc last) es

-- Each envelope's row.
unfoldable pub sent_rows : (IngestEnvelopeV2 → Bytes) → ℕ → List IngestEnvelopeV2 → List Batch
sent_rows marshal now [] = []
sent_rows marshal now (e ∷ es) = row now e.batch_id (marshal e) ∷ sent_rows marshal now es

module _ (marshal : IngestEnvelopeV2 → Bytes) where
  encoded-ok :
      (rs : List IngestRejection) (payload : Bytes) {p : Bytes}
      → encoded marshal rs payload ≡ ok p
      → (rs ≡ []) × (ltb max_ingest_envelope_bytes (length payload) ≡ false) × (p ≡ payload)
  encoded-ok (r ∷ rs) payload h = cc
  encoded-ok [] payload h = elim (Bool-cases (ltb max_ingest_envelope_bytes (length payload))) [
    | inl over ↦ cc (rw over at h)
    | inr fits ↦ (refl, fits, of_ok (sym (rw fits at h)))
  ]

  pub encode-ok :
      (e : IngestEnvelopeV2) {payload : Bytes} → encode marshal e ≡ ok payload → payload ≡ marshal e
  unfolding encode
  encode-ok e h = (encoded-ok _ _ h).2

  record IsAssigned (current : ℕ) (es : List IngestEnvelopeV2) (now : ℕ) (done : Assigned)
      (last : ℕ) : Type 0 where
    envelopes : envelopes_of done ≡ numbered current es
    payloads : rows now done ≡ sent_rows marshal now (numbered current es)
    counted : last ≡ current + length es

  assign-IsAssigned :
      (now current : ℕ) (es : List IngestEnvelopeV2) {done : Assigned} {last : ℕ}
      → assign marshal current es ≡ ok (done, last)
      → IsAssigned current es now done last
  unfolding assign numbered sent_rows
  assign-IsAssigned now current [] h =
      subst (λ r. IsAssigned current [] now r.0 r.1) (of_ok h)
        (record { envelopes = refl; payloads = refl; counted = omega arith })
  assign-IsAssigned now current (e ∷ es) h = elim (Bool-cases (eqb current max_uint64)) [
    | inl spent ↦ cc (rw spent at h)
    | inr more ↦
        let e' = record e { sequence = suc current } in
        let (payload, enc, step) = >>=-eq-ok (encode marshal e') _ (rw more at h) in
        let ((later, last'), tail, made) = >>=-eq-ok (assign marshal (suc current) es) _ step in
        let k = assign-IsAssigned now (suc current) es tail in
        subst (λ r. IsAssigned current (e ∷ es) now r.0 r.1) (of_ok made)
          (record {
            envelopes = ap (λ xs. e' ∷ xs) k.envelopes;
            payloads = ap2 (λ x xs. row now e.batch_id x ∷ xs) (encode-ok e' enc) k.payloads;
            counted = omega (arith, k.counted);
          })
  ]

  after_assign :
      (now : ℕ) (es : List IngestEnvelopeV2) (o : Outbox) (done : Assigned) (last : ℕ)
      {r : List IngestEnvelopeV2 × Outbox}
      → IsAssigned o.last_sequence es now done last
      → room_then_insert now o done last ≡ ok r
      → (r.0 ≡ numbered o.last_sequence es)
        × (r.1.batches ≡ o.batches ++ sent_rows marshal now r.0)
        × (r.1.last_sequence ≡ o.last_sequence + length es)
  after_assign now es o done last k h =
      elim (Bool-cases (ltb o.max_bytes (added_bytes done + queued o.batches))) [
        | inl over ↦ cc (rw over at h)
        | inr fits ↦
            let (bs, put, made) = >>=-eq-ok (insert_all now done o.batches) _ (rw fits at h) in
            subst
              (λ r.
                (r.0 ≡ numbered o.last_sequence es)
                × (r.1.batches ≡ o.batches ++ sent_rows marshal now r.0)
                × (r.1.last_sequence ≡ o.last_sequence + length es))
              (of_ok made)
              (
                k.envelopes,
                insert_all-ok now done o.batches put
                    ∙ ap (λ xs. o.batches ++ xs)
                        (k.payloads ∙ ap (λ xs. sent_rows marshal now xs) (sym k.envelopes)),
                k.counted,
              )
      ]

  -- A successful `EnqueueManyNext` numbers the envelopes consecutively after the last sequence
  -- given out, appends exactly their rows to the queue in that order, and moves the counter by
  -- their number.
  pub enqueue_many_next-sends :
      (now : ℕ) (es : List IngestEnvelopeV2) (o : Outbox) {r : List IngestEnvelopeV2 × Outbox}
      → enqueue_many_next marshal now es o ≡ ok r
      → (r.0 ≡ numbered o.last_sequence es)
        × (r.1.batches ≡ o.batches ++ sent_rows marshal now r.0)
        × (r.1.last_sequence ≡ o.last_sequence + length es)
  unfolding enqueue_many_next numbered sent_rows
  enqueue_many_next-sends now [] o h =
      rw (sym (of_ok h)) (refl, sym (append_none o.batches), omega arith)
  enqueue_many_next-sends now (e ∷ es) o h =
      let ((done, last), given, rest) = >>=-eq-ok (assign marshal o.last_sequence (e ∷ es)) _ h in
      after_assign now (e ∷ es) o done last (assign-IsAssigned now o.last_sequence (e ∷ es) given)
        rest

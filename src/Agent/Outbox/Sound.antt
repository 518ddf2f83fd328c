-- ===== src/Agent/Outbox/Sound.antt =====
-- internal/agent/outbox.go: the table stays well formed under every call.
use omni_token.Prelude.{
  ℕ, ◌+◌, ◌≤◌, String, false, not, Option, none, some, List, [], ◌∷◌, ◌++◌, ◌≡◌, refl, sym, ap, ◌∙◌,
  subst, inl, inr, arith, tests, Bool-cases, ◌==◌, ltb, find_where-none-All, length, All,
  All-append, Pairs,
}
use omni_token.Model.Envelope.{IngestEnvelopeV2, IngestAckV2}
use omni_token.Fallible.{of_ok}
use omni_token.Agent.Outbox.{
  Bytes, ok, >>=-eq-ok, Batch, Outbox, queued, has_batch_id, insert_new_payload, insert_all,
  added_bytes, Assigned, encode, assign, room_then_insert, after_duplicate_check, bytes_equal,
  enqueue, enqueue_many_next, acknowledge, acknowledge_head, decode, ack_matches, Call,
  enqueue_call, send_call, acknowledge_call, run, run_all, Fallible-cases,
}
use omni_token.Agent.Outbox.Order.{row, insert_new_payload-ok, rows, insert_all-ok}

abbrev pub OtherBatch : Batch → Batch → Type 0
OtherBatch b c = (b.batch_id == c.batch_id) ≡ false

abbrev pub Measured : Batch → Type 0
Measured b = b.payload_bytes ≡ length b.envelope

-- Batch ids are distinct, the sizes stored are those of the payloads, and they fit the capacity.
pub record IsSound (o : Outbox) : Type 0 where
  pub distinct : Pairs OtherBatch o.batches
  pub measured : All Measured o.batches
  pub room : queued o.batches ≤ o.max_bytes

Pairs-append_one :
    (bs : List Batch) (b : Batch)
    → Pairs OtherBatch bs
    → All (λ c. OtherBatch c b) bs
    → Pairs OtherBatch (bs ++ b ∷ [])
Pairs-append_one [] b h k = (tt, tt)
Pairs-append_one (c ∷ bs) b h k =
    (All-append _ bs (b ∷ []) h.0 (k.0, tt), Pairs-append_one bs b h.1 k.1)

queued-append : (bs cs : List Batch) → queued (bs ++ cs) ≡ queued bs + queued cs
unfolding queued
queued-append [] cs = omega arith
queued-append (b ∷ bs) cs = omega (arith, queued-append bs cs)

queued_one : (b : Batch) → queued (b ∷ []) ≡ b.payload_bytes + 0
unfolding queued
queued_one b = refl

record Formed (bs : List Batch) : Type 0 where
  distinct : Pairs OtherBatch bs
  measured : All Measured bs

insert-Formed :
    (id : String) (payload : Bytes) (now : ℕ) (bs : List Batch) {bs' : List Batch}
    → insert_new_payload id payload now bs ≡ ok bs'
    → Formed bs
    → Formed bs'
insert-Formed id payload now bs h k =
    let (absent, made) = insert_new_payload-ok id payload now bs h in
    subst Formed (sym made) (record {
      distinct =
          Pairs-append_one bs (row now id payload) k.distinct
            (find_where-none-All (has_batch_id id) bs absent);
      measured = All-append _ bs (row now id payload ∷ []) k.measured (refl, tt);
    })

insert_all-Formed :
    (now : ℕ) (done : Assigned) (bs : List Batch) {bs' : List Batch}
    → insert_all now done bs ≡ ok bs'
    → Formed bs
    → Formed bs'
unfolding insert_all
insert_all-Formed now [] bs h k = subst Formed (of_ok h) k
insert_all-Formed now ((e, payload) ∷ rest) bs h k =
    let (b, first, more) = >>=-eq-ok (insert_new_payload e.batch_id payload now bs) _ h in
    insert_all-Formed now rest b more (insert-Formed e.batch_id payload now bs first k)

queued-rows : (now : ℕ) (done : Assigned) → queued (rows now done) ≡ added_bytes done
unfolding queued added_bytes
queued-rows now [] = refl
queued-rows now ((e, payload) ∷ rest) = ap (λ n. length payload + n) (queued-rows now rest)

room_then_insert-IsSound :
    (now : ℕ) (o : Outbox) (done : Assigned) (last : ℕ) {r : List IngestEnvelopeV2 × Outbox}
    → room_then_insert now o done last ≡ ok r
    → IsSound o
    → IsSound r.1
room_then_insert-IsSound now o done last h k =
    elim (Bool-cases (ltb o.max_bytes (added_bytes done + queued o.batches))) [
      | inl over ↦ cc (rw over at h)
      | inr fits ↦
          let (bs, put, made) = >>=-eq-ok (insert_all now done o.batches) _ (rw fits at h) in
          let f : Formed bs =
            insert_all-Formed now done o.batches put
              (record { distinct = k.distinct; measured = k.measured }) in
          let filled : queued bs ≡ queued o.batches + added_bytes done =
            ap queued (insert_all-ok now done o.batches put)
            ∙ queued-append o.batches (rows now done)
            ∙ ap (λ n. queued o.batches + n) (queued-rows now done) in
          subst (λ r. IsSound r.1) (of_ok made)
            (record {
              distinct = f.distinct;
              measured = f.measured;
              room = grind (tests, filled, fits);
            })
    ]

module _ (marshal : IngestEnvelopeV2 → Bytes) where
  enqueue_many_next-IsSound :
      (now : ℕ) (es : List IngestEnvelopeV2) (o : Outbox) {r : List IngestEnvelopeV2 × Outbox}
      → enqueue_many_next marshal now es o ≡ ok r
      → IsSound o
      → IsSound r.1
  unfolding enqueue_many_next
  enqueue_many_next-IsSound now [] o h k = subst (λ r. IsSound r.1) (of_ok h) k
  enqueue_many_next-IsSound now (e ∷ es) o h k =
      let ((done, last), given, rest) = >>=-eq-ok (assign marshal o.last_sequence (e ∷ es)) _ h in
      room_then_insert-IsSound now o done last rest k

  after_duplicate_check-IsSound :
      (now : ℕ) (e : IngestEnvelopeV2) (payload : Bytes) (o : Outbox) (found : Option Batch)
      {o' : Outbox}
      → after_duplicate_check marshal now e payload o found ≡ ok o'
      → IsSound o
      → IsSound o'
  after_duplicate_check-IsSound now e payload o (some b) h k =
      elim (Bool-cases (bytes_equal b.envelope payload)) [
        | inl same ↦ subst IsSound (of_ok (rw same at h)) k
        | inr other ↦ cc (rw other at h)
      ]
  after_duplicate_check-IsSound now e payload o none h k =
      elim (Bool-cases (ltb o.max_bytes (length payload + queued o.batches))) [
        | inl over ↦ cc (rw over at h)
        | inr fits ↦
            let (bs, put, made) =
              >>=-eq-ok (insert_new_payload e.batch_id payload now o.batches) _ (rw fits at h) in
            let f : Formed bs =
              insert-Formed e.batch_id payload now o.batches put
                (record { distinct = k.distinct; measured = k.measured }) in
            let filled : queued bs ≡ queued o.batches + (length payload + 0) =
              ap queued (insert_new_payload-ok e.batch_id payload now o.batches put).1
              ∙ queued-append o.batches (row now e.batch_id payload ∷ [])
              ∙ ap (λ n. queued o.batches + n) (queued_one (row now e.batch_id payload)) in
            subst IsSound (of_ok made) (record {
              distinct = f.distinct;
              measured = f.measured;
              room = grind (tests, filled, fits);
            })
      ]

  enqueue-IsSound :
      (now : ℕ) (e : IngestEnvelopeV2) (o : Outbox) {o' : Outbox}
      → enqueue marshal now e o ≡ ok o'
      → IsSound o
      → IsSound o'
  unfolding enqueue
  enqueue-IsSound now e o h k =
      let (payload, enc, rest) = >>=-eq-ok (encode marshal e) _ h in
      after_duplicate_check-IsSound now e payload o _ rest k

module _ (unmarshal : Bytes → Option IngestEnvelopeV2) where
  acknowledge_head-IsSound :
      (ack : IngestAckV2) (o : Outbox) (bs : List Batch) {o' : Outbox}
      → acknowledge_head unmarshal ack o bs ≡ ok o'
      → bs ≡ o.batches
      → IsSound o
      → IsSound o'
  unfolding queued
  acknowledge_head-IsSound ack o [] h same k = cc
  acknowledge_head-IsSound ack o (b ∷ bs) h same k =
      let (e, seen, rest) = >>=-eq-ok (decode unmarshal b.envelope) _ h in
      elim (Bool-cases (not (ack_matches ack e))) [
        | inl wrong ↦ cc (rw wrong at rest)
        | inr right ↦
            let d : Pairs OtherBatch (b ∷ bs) = subst (Pairs OtherBatch) (sym same) k.distinct in
            let m : All Measured (b ∷ bs) = subst (All Measured) (sym same) k.measured in
            let q : b.payload_bytes + queued bs ≤ o.max_bytes =
              subst (λ bs. queued bs ≤ o.max_bytes) (sym same) k.room in
            subst IsSound (of_ok (rw right at rest))
              (record { distinct = d.1; measured = m.1; room = omega (arith, q) })
      ]

  acknowledge-IsSound :
      (ack : IngestAckV2) (o : Outbox) {o' : Outbox}
      → acknowledge unmarshal ack o ≡ ok o'
      → IsSound o
      → IsSound o'
  unfolding acknowledge
  acknowledge-IsSound ack o h k = acknowledge_head-IsSound ack o o.batches h refl k

module _ (marshal : IngestEnvelopeV2 → Bytes) (unmarshal : Bytes → Option IngestEnvelopeV2) where
  run-IsSound : (c : Call) (o : Outbox) → IsSound o → IsSound (run marshal unmarshal c o)
  unfolding run
  run-IsSound (enqueue_call now e) o k = elim (Fallible-cases (enqueue marshal now e o)) [
    | inl (o', h) ↦ rw h (enqueue-IsSound marshal now e o h k)
    | inr (e', h) ↦ rw h k
  ]
  run-IsSound (send_call now es) o k = elim (Fallible-cases (enqueue_many_next marshal now es o)) [
    | inl (r, h) ↦ rw h (enqueue_many_next-IsSound marshal now es o h k)
    | inr (e', h) ↦ rw h k
  ]
  run-IsSound (acknowledge_call ack) o k = elim (Fallible-cases (acknowledge unmarshal ack o)) [
    | inl (o', h) ↦ rw h (acknowledge-IsSound unmarshal ack o h k)
    | inr (e', h) ↦ rw h k
  ]

  -- Whatever the calls, in whatever order and however each one ends, a well-formed outbox stays
  -- well formed: batch ids are distinct, the stored sizes are the payloads' own, and the queued
  -- bytes never exceed the capacity.
  pub run_all-IsSound :
      (cs : List Call) (o : Outbox) → IsSound o → IsSound (run_all marshal unmarshal cs o)
  unfolding run_all
  run_all-IsSound [] o k = k
  run_all-IsSound (c ∷ cs) o k = run_all-IsSound cs (run marshal unmarshal c o) (run-IsSound c o k)

-- ===== src/Agent/Partition/Refusals.antt =====
-- internal/agent/outbox.go: which refusals `EnqueueManyNext` is left with on acceptable parts.
use omni_token.Prelude.{
  ℕ, suc, ◌+◌, ◌≤◌, String, List, [], ◌∷◌, ◌≡◌, inl, inr, arith, All, Bool-cases, leb→le, ltb, eqb,
  length,
}
use omni_token.Fallible.{Fallible-cases, ok, err, ◌>>=◌}
use omni_token.Model.Envelope.{IngestEnvelopeV2, validate_ingest_envelope}
use omni_token.Model.Envelope.Verdict.{validate-eq-nil_iff}
use omni_token.Agent.Outbox.{
  Bytes, OutboxError, full, exhausted, constraint, Batch, Outbox, Result, Assigned,
  max_ingest_envelope_bytes, max_uint64, encode, assign, insert_new_payload, insert_all,
  added_bytes, queued, room_then_insert, enqueue_many_next,
}
use omni_token.Agent.Partition.{Stamp}
use omni_token.Agent.Partition.Whole.{IsPart}
use omni_token.Agent.Partition.Acceptable.{IsEnrolled, Good, part-IsAcceptable}

-- The refusals of the outbox that are left: no room, no sequence, a batch id that is queued.
abbrev pub IsRoomOrId : OutboxError → Type 0
IsRoomOrId full = Unit
IsRoomOrId exhausted = Unit
IsRoomOrId constraint = Unit
IsRoomOrId _ = ⊥

abbrev pub Queues {ℓ} : {A : Type ℓ} → Result A → Type 0
Queues (ok a) = Unit
Queues (err why) = IsRoomOrId why

-- A longer sequence makes no envelope shorter.
abbrev pub IsWidest : (IngestEnvelopeV2 → Bytes) → Type 0
IsWidest marshal =
    (e : IngestEnvelopeV2) (k : ℕ)
    → k ≤ max_uint64
    → length (marshal (record e { sequence = k }))
      ≤ length (marshal (record e { sequence = max_uint64 }))

module _ (marshal : IngestEnvelopeV2 → Bytes) where
  abbrev pub Sendable : IngestEnvelopeV2 → Type 0
  Sendable e =
      (k : ℕ)
      → k ≤ max_uint64
      → encode marshal (record e { sequence = k }) ≡ ok (marshal (record e { sequence = k }))

  encode-eq-ok :
      (e : IngestEnvelopeV2)
      → validate_ingest_envelope e ≡ []
      → length (marshal e) ≤ max_ingest_envelope_bytes
      → encode marshal e ≡ ok (marshal e)
  unfolding encode
  encode-eq-ok e valid small = rw valid (ground arith)

  pub part-Sendable :
      IsWidest marshal
      → (s : Stamp) → IsEnrolled s
      → (e : IngestEnvelopeV2) → IsPart marshal s e
      → Good s e.events
      → Sendable e
  part-Sendable widest s enrolled e (stamped, fits) good k bound =
      let e' = record e { sequence = k } in
      let small = leb→le _ max_ingest_envelope_bytes fits in
      encode-eq-ok e' ((validate-eq-nil_iff e').1 (part-IsAcceptable s enrolled k e stamped good))
        (omega (arith, widest e k bound, small))

  abbrev with_first : IngestEnvelopeV2 → Assigned × ℕ → Result (Assigned × ℕ)
  with_first e (later, last) = ok ((e, marshal e) ∷ later, last)

  with_first-Queues :
      (e : IngestEnvelopeV2) (r : Result (Assigned × ℕ)) → Queues r → Queues (r >>= with_first e)
  with_first-Queues e (ok q) h = tt
  with_first-Queues e (err why) h = h

  assign-Queues :
      (current : ℕ) (es : List IngestEnvelopeV2)
      → current ≤ max_uint64
      → All Sendable es
      → Queues (assign marshal current es)
  unfolding assign
  assign-Queues current [] bound h = tt
  assign-Queues current (e ∷ es) bound h = elim (Bool-cases (eqb current max_uint64)) [
    | inl spent ↦ rw spent tt
    | inr more ↦
        let next : suc current ≤ max_uint64 = ground arith in
        rw (more, h.0 (suc current) next)
          (with_first-Queues (record e { sequence = suc current }) (assign marshal (suc current) es)
            (assign-Queues (suc current) es next h.1))
  ]

insert_new_payload-Queues :
    (id : String) (payload : Bytes) (now : ℕ) (bs : List Batch)
    → Queues (insert_new_payload id payload now bs)
unfolding insert_new_payload
insert_new_payload-Queues id payload now bs = ground arith

pub of_err :
    {A : Type 0} {why : OutboxError} (r : Result A) → r ≡ err why → Queues r → IsRoomOrId why
of_err r h k = rw h at k

insert_all-Queues : (now : ℕ) (done : Assigned) (bs : List Batch) → Queues (insert_all now done bs)
unfolding insert_all
insert_all-Queues now [] bs = tt
insert_all-Queues now ((e, payload) ∷ rest) bs =
    elim (Fallible-cases (insert_new_payload e.batch_id payload now bs)) [
      | inl (bs', put) ↦ rw put (insert_all-Queues now rest bs')
      | inr (why, failed) ↦
          rw failed (of_err _ failed (insert_new_payload-Queues e.batch_id payload now bs))
    ]

room_then_insert-Queues :
    (now : ℕ) (o : Outbox) (done : Assigned) (last : ℕ) → Queues (room_then_insert now o done last)
room_then_insert-Queues now o done last =
    elim (Bool-cases (ltb o.max_bytes (added_bytes done + queued o.batches))) [
      | inl over ↦ rw over tt
      | inr fits ↦ elim (Fallible-cases (insert_all now done o.batches)) [
        | inl (bs, put) ↦ rw (fits, put) tt
        | inr (why, failed) ↦
            rw (fits, failed) (of_err _ failed (insert_all-Queues now done o.batches))
      ]
    ]

pub enqueue_many_next-Queues :
    (marshal : IngestEnvelopeV2 → Bytes) (now : ℕ) (es : List IngestEnvelopeV2) (o : Outbox)
    → o.last_sequence ≤ max_uint64
    → All (Sendable marshal) es
    → Queues (enqueue_many_next marshal now es o)
unfolding enqueue_many_next
enqueue_many_next-Queues marshal now [] o bound h = tt
enqueue_many_next-Queues marshal now (e ∷ es) o bound h =
    elim (Fallible-cases (assign marshal o.last_sequence (e ∷ es))) [
      | inl ((done, last), given) ↦ rw given (room_then_insert-Queues now o done last)
      | inr (why, failed) ↦
          rw failed (of_err _ failed (assign-Queues marshal o.last_sequence (e ∷ es) bound h))
    ]

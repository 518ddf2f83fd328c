-- ===== src/Agent/Partition/Accepted.antt =====
-- internal/agent/agent.go, internal/agent/outbox.go and internal/model/ingest.go together: what
-- `enqueueEvents` does to the outbox, and which of the outbox's refusals it never meets.
use omni_token.Prelude.{
  ℕ, suc, ◌+◌, ◌≤◌, false, List, [], ◌∷◌, ◌++◌, ◌≡◌, refl, sym, ap, ◌∙◌, inl, inr, arith, subst,
  All, Pairs, length,
}
use omni_token.Fallible.{Fallible-cases, ok, err, ◌>>=◌}
use omni_token.Model.Event.{Event}
use omni_token.Model.Envelope.{IngestEnvelopeV2, max_ingest_batch_events, is_nil}
use omni_token.Model.Envelope.Accept.{OtherEvent}
use omni_token.Agent.Outbox.{
  Bytes, OutboxError, full, exhausted, constraint, conflict, too_large, empty, invalid_ack,
  undecodable, invalid_envelope, Outbox, max_uint64, enqueue_many_next,
}
use omni_token.Agent.Outbox.Order.{numbered, sent_rows, enqueue_many_next-sends}
use omni_token.Agent.Partition.{
  Stamp, Attempt, AgentError, no_random, unfinished, of_queue, of_result,
  collapse_repeated_event_ids, partition_event_envelopes, enqueue_events,
}
use omni_token.Agent.Partition.Whole.{
  carried, IsPart, Reason, Covers, Ended, partition_event_envelopes-Ended,
}
use omni_token.Agent.Partition.Collapse.{collapse-first}
use omni_token.Agent.Partition.Acceptable.{
  All-carried, Pairs-carried, length-carried, IsEnrolled, IsScanned, Good, Named, Owned,
}
use omni_token.Agent.Partition.Refusals.{
  IsRoomOrId, IsWidest, Sendable, part-Sendable, of_err, enqueue_many_next-Queues,
}

numbered-carried : (k : ℕ) (es : List IngestEnvelopeV2) → carried (numbered k es) ≡ carried es
unfolding numbered
numbered-carried k [] = refl
numbered-carried k (e ∷ es) = ap (λ vs. e.events ++ vs) (numbered-carried (suc k) es)

length-numbered : (k : ℕ) (es : List IngestEnvelopeV2) → length (numbered k es) ≡ length es
unfolding numbered
length-numbered k [] = refl
length-numbered k (e ∷ es) = omega (arith, length-numbered (suc k) es)

module _ (marshal : IngestEnvelopeV2 → Bytes) (s : Stamp) where
  all_parts :
      (send : (e : IngestEnvelopeV2) → IsPart marshal s e → Good s e.events → Sendable marshal e)
      (es : List IngestEnvelopeV2)
      → All (IsPart marshal s) es
      → All (λ e. is_nil e.events ≡ false) es
      → All (λ e. length e.events ≤ max_ingest_batch_events) es
      → All (λ e. All Named e.events) es
      → All (λ e. All (Owned s) e.events) es
      → All (λ e. Pairs OtherEvent e.events) es
      → All (Sendable marshal) es
  all_parts send [] parts filled bounded named owned apart = tt
  all_parts send (e ∷ es) parts filled bounded named owned apart =
      let scanned : IsScanned s e.events = record {
        some_event = filled.0;
        bounded = bounded.0;
        named = named.0;
        owned = owned.0;
      } in
      (
        send e parts.0 (scanned, apart.0),
        all_parts send es parts.1 filled.1 bounded.1 named.1 owned.1 apart.1,
      )

  parts-Sendable :
      IsWidest marshal
      → IsEnrolled s
      → (es : List Event) (r : List IngestEnvelopeV2 × ℕ) → Good s es
      → Covers marshal s es r
      → All (Sendable marshal) r.0
  parts-Sendable widest enrolled es r (good, distinct) covers =
      let bounded = length-carried max_ingest_batch_events r.0 (rw covers.whole good.bounded) in
      let named = All-carried Named r.0 (rw covers.whole good.named) in
      let owned = All-carried (Owned s) r.0 (rw covers.whole good.owned) in
      let apart = Pairs-carried r.0 (rw covers.whole distinct) in
      all_parts (part-Sendable marshal widest s enrolled) r.0 covers.parts
        (covers.filled good.some_event) bounded named owned apart

  -- Why an upload of events stops short of the queue.
  abbrev pub Refusal : AgentError → Type 0
  Refusal (of_queue too_large) = Reason marshal s (of_queue too_large)
  Refusal (of_queue why) = IsRoomOrId why
  Refusal why = Reason marshal s why

  abbrev pub Enqueued : ℕ → List Event → Outbox → Attempt (List IngestEnvelopeV2 × Outbox) → Type 0
  Enqueued now es o (err why) = Refusal why
  Enqueued now es o (ok r) =
      (carried r.0 ≡ collapse_repeated_event_ids es)
      × (r.1.batches ≡ o.batches ++ sent_rows marshal now r.0)
      × (r.1.last_sequence ≡ o.last_sequence + length r.0)

  IsRoomOrId-Refusal : (why : OutboxError) → IsRoomOrId why → Refusal (of_queue why)
  IsRoomOrId-Refusal full h = h
  IsRoomOrId-Refusal exhausted h = h
  IsRoomOrId-Refusal constraint h = h
  IsRoomOrId-Refusal empty h = h
  IsRoomOrId-Refusal conflict h = h
  IsRoomOrId-Refusal too_large h = elim h [ ]
  IsRoomOrId-Refusal invalid_ack h = h
  IsRoomOrId-Refusal undecodable h = h
  IsRoomOrId-Refusal (invalid_envelope code) h = h

  queue-Enqueued :
      (now : ℕ) (es : List Event) (o : Outbox) (parts : List IngestEnvelopeV2)
      → o.last_sequence ≤ max_uint64
      → carried parts ≡ collapse_repeated_event_ids es
      → All (Sendable marshal) parts
      → Enqueued now es o (of_result (enqueue_many_next marshal now parts o))
  queue-Enqueued now es o parts bound whole send =
      elim (Fallible-cases (enqueue_many_next marshal now parts o)) [
        | inl (r, done) ↦
            let (envelopes, rows, counted) = enqueue_many_next-sends marshal now parts o done in
            let same = ap length envelopes in
            let many = length-numbered o.last_sequence parts in
            rw done (
              ap carried envelopes ∙ numbered-carried o.last_sequence parts ∙ whole,
              rows,
              omega (arith, counted, same, many),
            )
        | inr (why, failed) ↦
            let left = of_err _ failed (enqueue_many_next-Queues marshal now parts o bound send) in
            rw failed (IsRoomOrId-Refusal why left)
      ]

  after_partition :
      (now : ℕ) (es : List Event) (o : Outbox)
      → o.last_sequence ≤ max_uint64
      → ((r : List IngestEnvelopeV2 × ℕ)
          → Covers marshal s (collapse_repeated_event_ids es) r
          → All (Sendable marshal) r.0)
      → (parts : Attempt (List IngestEnvelopeV2 × ℕ))
      → Ended marshal s (collapse_repeated_event_ids es) parts
      → Enqueued now es o (parts >>= λ r. of_result (enqueue_many_next marshal now r.0 o))
  after_partition now es o bound send (ok r) covers =
      queue-Enqueued now es o r.0 bound covers.whole (send r covers)
  after_partition now es o bound send (err no_random) reason = reason
  after_partition now es o bound send (err unfinished) reason = reason
  after_partition now es o bound send (err (of_queue why)) (large, e) =
      subst (λ w. Refusal (of_queue w)) (sym large) (refl, e)

  -- For an enrolled agent and an encoding that no smaller sequence makes longer, `enqueueEvents` of
  -- events that collapse to 1 to 2000 named events of the device appends envelopes that carry the
  -- collapsed events in order, or it stops because the random source failed, an envelope of at most one event is over
  -- the limit, or the queue has no room, no sequence left, or the batch id already. The hub's
  -- validation, which the outbox runs first, refuses none of the envelopes.
  pub enqueue_events-Enqueued :
      (now n : ℕ) (es : List Event) (o : Outbox)
      → IsWidest marshal
      → IsEnrolled s
      → IsScanned s (collapse_repeated_event_ids es)
      → o.last_sequence ≤ max_uint64
      → Enqueued now es o (enqueue_events marshal s now n es o)
  unfolding enqueue_events
  enqueue_events-Enqueued now n es o widest enrolled scanned bound =
      let kept = collapse_repeated_event_ids es in
      let distinct = (collapse-first es).0 in
      after_partition now es o bound
        (λ r covers. parts-Sendable widest enrolled kept r (scanned, distinct) covers)
        (partition_event_envelopes marshal s (suc (length kept)) n kept)
        (partition_event_envelopes-Ended marshal s (suc (length kept)) n kept (omega arith))

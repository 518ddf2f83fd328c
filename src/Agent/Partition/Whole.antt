-- ===== src/Agent/Partition/Whole.antt =====
-- internal/agent/agent.go: what `partitionEventEnvelopes` makes of a batch, and that it ends.
use omni_token.Prelude.{
  ℕ, zero, suc, ◌/◌, ◌≤◌, ◌<◌, true, false, none, some, List, [], ◌∷◌, ◌++◌, ◌≡◌, refl, sym, ap,
  ◌∙◌, subst, inl, inr, arith, All, All-append, Bool-cases, Option-cases, leb, leb→le, length,
  append-nil, take, drop, append_assoc, append-take-drop, length-take, length-drop,
}
use omni_token.Fallible.{Fallible-cases, ok, err, ◌>>=◌, of_ok}
use omni_token.Model.Event.{Event}
use omni_token.Model.Envelope.{IngestEnvelopeV2, ingest_protocol_v2, is_nil, kind_events}
use omni_token.Agent.Outbox.{Bytes, too_large}
use omni_token.Agent.Partition.{
  Stamp, Attempt, Parts, AgentError, no_random, unfinished, of_queue, events_envelope,
  prepare_envelope, halve, after_probe, probe, partition_event_envelopes,
}

-- The events that envelopes carry, in order.
abbrev pub carried : List IngestEnvelopeV2 → List Event
carried [] = []
carried (e ∷ es) = e.events ++ carried es

is_nil-length : (es : List Event) → 0 < length es → is_nil es ≡ false
is_nil-length [] h = absurd (omega (arith, h))
is_nil-length (e ∷ es) h = refl

carried-append : (xs ys : List IngestEnvelopeV2) → carried (xs ++ ys) ≡ carried xs ++ carried ys
carried-append [] ys = refl
carried-append (x ∷ xs) ys =
    ap (λ es. x.events ++ es) (carried-append xs ys)
    ∙ sym (append_assoc x.events (carried xs) (carried ys))

-- The header is the agent's own, and the payload is events alone.
pub record IsStamped (s : Stamp) (e : IngestEnvelopeV2) : Type 0 where
  pub version : e.protocol_version ≡ ingest_protocol_v2
  pub device : e.device_id ≡ s.device_id
  pub boot : e.boot_id ≡ s.boot_id
  pub random : (k : ℕ) × (s.new_uuid k ≡ some e.batch_id)
  pub clock : (k : ℕ) × (e.captured_at ≡ s.current_milli k)
  pub kind : e.kind ≡ kind_events
  pub no_quotas : e.quotas ≡ []
  pub no_procs : e.procs ≡ none

pub prepare_envelope-IsStamped :
    (s : Stamp) (n : ℕ) (es : List Event) {r : IngestEnvelopeV2 × ℕ}
    → prepare_envelope s n (events_envelope es) ≡ ok r
    → IsStamped s r.0 × (r.0.events ≡ es)
unfolding prepare_envelope
prepare_envelope-IsStamped s n es {r} h = elim (Option-cases (s.new_uuid n)) [
  | inl broken ↦ cc (rw broken at h)
  | inr (id, drawn) ↦
      subst (λ (r : IngestEnvelopeV2 × ℕ). IsStamped s r.0 × (r.0.events ≡ es))
        (of_ok (rw drawn at h))
        (
          record {
            version = refl;
            device = refl;
            boot = refl;
            random = (n, drawn);
            clock = (n, refl);
            kind = refl;
            no_quotas = refl;
            no_procs = refl;
          },
          refl,
        )
]

module _ (marshal : IngestEnvelopeV2 → Bytes) (s : Stamp) where
  abbrev pub IsPart : IngestEnvelopeV2 → Type 0
  IsPart e = IsStamped s e × (probe marshal s e ≡ true)

  pub record Covers (es : List Event) (r : Parts) : Type 0 where
    pub whole : carried r.0 ≡ es
    pub parts : All IsPart r.0
    pub filled : is_nil es ≡ false → All (λ e. is_nil e.events ≡ false) r.0

  -- Why no parts are made: the random source failed, or a single event does not fit.
  abbrev pub Reason : AgentError → Type 0
  Reason no_random = (k : ℕ) × (s.new_uuid k ≡ none)
  Reason unfinished = ⊥
  Reason (of_queue why) =
      (why ≡ too_large)
      × ((e : IngestEnvelopeV2) × IsStamped s e
          × (length e.events ≤ 1)
          × (probe marshal s e ≡ false))

  abbrev pub Ended : List Event → Attempt Parts → Type 0
  Ended es (ok r) = Covers es r
  Ended es (err why) = Reason why

  -- Both parts of a split hold an event.
  abbrev Split : ℕ → List Event → Type 0
  Split n es = (is_nil (take n es) ≡ false) × (is_nil (drop n es) ≡ false)

  Covers-append :
      (n : ℕ) (es : List Event) (l r : Parts)
      → Covers (take n es) l
      → Covers (drop n es) r
      → Split n es
      → Covers es (l.0 ++ r.0, r.1)
  Covers-append n es l r h k (left, right) = record {
    whole = carried-append l.0 r.0 ∙ (rw (h.whole, k.whole) (append-take-drop n es));
    parts = All-append IsPart l.0 r.0 h.parts k.parts;
    filled = λ some_event. All-append _ l.0 r.0 (h.filled left) (k.filled right);
  }

  abbrev Again : Type 0
  Again = ℕ → List Event → Attempt Parts

  second-Ended :
      (n : ℕ) (es : List Event) (l : Parts) (r : Attempt Parts)
      → Split n es
      → Covers (take n es) l
      → Ended (drop n es) r
      → Ended es (r >>= λ q. ok (l.0 ++ q.0, q.1))
  second-Ended n es l (ok r) split h k = Covers-append n es l r h k split
  second-Ended n es l (err why) split h k = k

  halves-Ended :
      (again : Again) (n : ℕ) (es : List Event) (l : Attempt Parts)
      → Split n es
      → Ended (take n es) l
      → ((k : ℕ) → Ended (drop n es) (again k (drop n es)))
      → Ended es (l >>= λ p. again p.1 (drop n es) >>= λ q. ok (p.0 ++ q.0, q.1))
  halves-Ended again n es (ok l) split h k =
      second-Ended n es l (again l.1 (drop n es)) split h (k l.1)
  halves-Ended again n es (err why) split h k = h

  halve-Ended :
      (again : Again) (fuel : ℕ)
      → ((n : ℕ) (es : List Event) → length es < fuel → Ended es (again n es))
      → (n : ℕ) (es : List Event) → leb (length es) 1 ≡ false
      → length es < suc fuel
      → Ended es (halve again n es)
  halve-Ended again fuel ih n es many enough =
      let m = length es / 2 in
      let some_left : m ≤ length es = ground arith in
      let taken = length-take m es some_left in
      let dropped = length-drop m es in
      let left : length (take m es) < fuel = ground (arith, taken) in
      let right : length (drop m es) < fuel = ground (arith, dropped) in
      halves-Ended again m es (again n (take m es))
        (
          is_nil-length (take m es) (ground (arith, taken)),
          is_nil-length (drop m es) (ground (arith, dropped)),
        )
        (ih n (take m es) left) (λ k. ih k (drop m es) right)

  probe-Ended :
      (again : Again) (fuel : ℕ) (e : IngestEnvelopeV2) (es : List Event) (n : ℕ)
      → ((n : ℕ) (es : List Event) → length es < fuel → Ended es (again n es))
      → IsStamped s e × (e.events ≡ es)
      → length es < suc fuel
      → Ended es (after_probe (probe marshal s e) (leb (length es) 1) e again n es)
  probe-Ended again fuel e es n ih (stamped, held) enough = elim (Bool-cases (probe marshal s e)) [
    | inl fits ↦ rw fits (record {
      whole = append-nil e.events ∙ held;
      parts = ((stamped, fits), tt);
      filled = λ some_event. (rw held some_event, tt);
    })
    | inr over ↦ elim (Bool-cases (leb (length es) 1)) [
      | inl single ↦
          rw (over, single) (refl, (e, stamped, rw held (leb→le (length es) 1 single), over))
      | inr many ↦ rw (over, many) (halve-Ended again fuel ih n es many enough)
    ]
  ]

  prepare_envelope-Reason :
      (n : ℕ) (es : List Event) (why : AgentError)
      → prepare_envelope s n (events_envelope es) ≡ err why
      → Reason why
  unfolding prepare_envelope
  prepare_envelope-Reason n es why h = elim (Option-cases (s.new_uuid n)) [
    | inl broken ↦
        let same : no_random ≡ why = (cc (rw broken at h)) in subst Reason (same) (n, broken)
    | inr (id, drawn) ↦ cc (rw drawn at h)
  ]

  prepared-Ended :
      (again : Again) (fuel n : ℕ) (es : List Event)
      → ((n : ℕ) (es : List Event) → length es < fuel → Ended es (again n es))
      → length es < suc fuel
      → Ended es (
          prepare_envelope s n (events_envelope es) >>= λ r.
          after_probe (probe marshal s r.0) (leb (length es) 1) r.0 again r.1 es)
  prepared-Ended again fuel n es ih enough =
      elim (Fallible-cases (prepare_envelope s n (events_envelope es))) [
        | inl ((e, n1), made) ↦
            rw made
              (probe-Ended again fuel e es n1 ih (prepare_envelope-IsStamped s n es made) enough)
        | inr (why, failed) ↦ rw failed (prepare_envelope-Reason n es why failed)
      ]

  -- With more fuel than events the partition always ends: in parts that carry the batch's events,
  -- each once and in order, every part stamped by the agent, within the hub's limit under the widest
  -- sequence and not empty unless the batch is, or because the random source failed, or because an envelope of at most one
  -- event is over the limit.
  pub partition_event_envelopes-Ended :
      (fuel n : ℕ) (es : List Event)
      → length es < fuel
      → Ended es (partition_event_envelopes marshal s fuel n es)
  unfolding partition_event_envelopes
  partition_event_envelopes-Ended zero n es enough = absurd (omega (arith, enough))
  partition_event_envelopes-Ended (suc fuel) n es enough =
      prepared-Ended (partition_event_envelopes marshal s fuel) fuel n es
        (partition_event_envelopes-Ended fuel) enough

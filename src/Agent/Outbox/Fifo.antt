-- ===== src/Agent/Outbox/Fifo.antt =====
-- internal/agent/outbox.go: the order of the queue and the order of the sequences.
use omni_token.Prelude.{
  ℕ, suc, ◌+◌, ◌≤◌, ◌<◌, Option, List, [], ◌∷◌, ◌++◌, ◌≡◌, refl, sym, subst, inl, inr, arith,
  length, All, All-append, All-mono, Pairs,
}
use omni_token.Model.Envelope.{IngestEnvelopeV2, IngestAckV2}
use omni_token.Agent.Outbox.{
  Bytes, ok, Fallible-cases, Batch, Outbox, enqueue_many_next, acknowledge, Call, enqueue_call,
  send_call, acknowledge_call, run, run_all,
}
use omni_token.Agent.Outbox.Order.{numbered, sent_rows, enqueue_many_next-sends}
use omni_token.Agent.Upload.Drain.{acknowledge-Took}

abbrev pub Earlier : IngestEnvelopeV2 → IngestEnvelopeV2 → Type 0
Earlier e f = e.sequence < f.sequence

abbrev pub IsGiven : ℕ → IngestEnvelopeV2 → Type 0
IsGiven last e = e.sequence ≤ last

-- A call that numbers what it sends, as the agent's calls do.
abbrev pub IsNumbering : Call → Type 0
IsNumbering (enqueue_call now e) = ⊥
IsNumbering _ = Unit

numbered-above :
    (last : ℕ) (es : List IngestEnvelopeV2) → All (λ e. last < e.sequence) (numbered last es)
unfolding numbered
numbered-above last [] = tt
numbered-above last (e ∷ es) =
    (omega arith, All-mono _ _ _ (λ f h. omega (arith, h)) (numbered-above (suc last) es))

numbered-IsGiven :
    (last : ℕ) (es : List IngestEnvelopeV2) → All (IsGiven (last + length es)) (numbered last es)
unfolding numbered
numbered-IsGiven last [] = tt
numbered-IsGiven last (e ∷ es) =
    (omega arith, All-mono _ _ _ (λ f h. omega (arith, h)) (numbered-IsGiven (suc last) es))

numbered-Earlier : (last : ℕ) (es : List IngestEnvelopeV2) → Pairs Earlier (numbered last es)
unfolding numbered
numbered-Earlier last [] = tt
numbered-Earlier last (e ∷ es) = (numbered-above (suc last) es, numbered-Earlier (suc last) es)

Pairs-append :
    (last : ℕ) (es fs : List IngestEnvelopeV2)
    → Pairs Earlier es
    → All (IsGiven last) es
    → Pairs Earlier fs
    → All (λ f. last < f.sequence) fs
    → Pairs Earlier (es ++ fs)
Pairs-append last [] fs h g k a = k
Pairs-append last (e ∷ es) fs h g k a = (
  All-append _ es fs h.0 (All-mono _ _ fs (λ f b. omega (arith, b, g.0)) a),
  Pairs-append last es fs h.1 g.1 k a,
)

module _ (marshal : IngestEnvelopeV2 → Bytes) where
  abbrev Carries : List Batch → List IngestEnvelopeV2 → Type 0
  Carries [] [] = Unit
  Carries (b ∷ bs) (e ∷ es) = (b.batch_id ≡ e.batch_id) × (b.envelope ≡ marshal e) × Carries bs es
  Carries _ _ = ⊥

  -- The rows carry envelopes whose sequences rise along the queue, up to the last one given out.
  pub record IsFifo (o : Outbox) : Type 0 where
    pub queue : List IngestEnvelopeV2
    pub carried : Carries o.batches queue
    pub rising : Pairs Earlier queue
    pub given : All (IsGiven o.last_sequence) queue

  Carries-append :
      (now : ℕ) (bs : List Batch) (es fs : List IngestEnvelopeV2)
      → Carries bs es
      → Carries (bs ++ sent_rows marshal now fs) (es ++ fs)
  unfolding sent_rows
  Carries-append now [] [] [] h = tt
  Carries-append now [] [] (f ∷ fs) h = (refl, refl, Carries-append now [] [] fs tt)
  Carries-append now (b ∷ bs) (e ∷ es) fs h = (h.0, h.1, Carries-append now bs es fs h.2)
  Carries-append now [] (e ∷ es) fs h = elim h [ ]
  Carries-append now (b ∷ bs) [] fs h = elim h [ ]

  enqueue_many_next-IsFifo :
      (now : ℕ) (es : List IngestEnvelopeV2) (o : Outbox) {r : List IngestEnvelopeV2 × Outbox}
      → enqueue_many_next marshal now es o ≡ ok r
      → IsFifo o
      → IsFifo r.1
  enqueue_many_next-IsFifo now es o {r} h k =
      let (numbers, rows, counter) = enqueue_many_next-sends marshal now es o h in
      let last = o.last_sequence in
      record {
        queue = k.queue ++ r.0;
        carried =
            subst (λ bs. Carries bs (k.queue ++ r.0)) (sym rows)
              (Carries-append now o.batches k.queue r.0 k.carried);
        rising =
            subst (λ fs. Pairs Earlier (k.queue ++ fs)) (sym numbers)
              (Pairs-append last k.queue (numbered last es) k.rising k.given
                (numbered-Earlier last es) (numbered-above last es));
        given =
            subst (λ fs. All (IsGiven r.1.last_sequence) (k.queue ++ fs)) (sym numbers)
              (subst (λ n. All (IsGiven n) (k.queue ++ numbered last es)) (sym counter)
                (All-append _ k.queue (numbered last es)
                  (All-mono _ _ k.queue (λ e g. omega (arith, g)) k.given)
                  (numbered-IsGiven last es)));
      }

  without_head :
      (o : Outbox) (b : Batch) (bs : List Batch)
      → (k : IsFifo o) → Carries (b ∷ bs) k.queue
      → IsFifo (record o { batches = bs })
  without_head o b bs k h = popped o b bs k.queue h k.rising k.given
    where
      popped :
          (o : Outbox) (b : Batch) (bs : List Batch) (es : List IngestEnvelopeV2)
          → Carries (b ∷ bs) es
          → Pairs Earlier es
          → All (IsGiven o.last_sequence) es
          → IsFifo (record o { batches = bs })
      popped o b bs [] h r g = elim h [ ]
      popped o b bs (e ∷ es) h r g = record { queue = es; carried = h.2; rising = r.1; given = g.1 }

  module _ (unmarshal : Bytes → Option IngestEnvelopeV2) where
    acknowledge-IsFifo :
        (ack : IngestAckV2) (o : Outbox) {o' : Outbox}
        → acknowledge unmarshal ack o ≡ ok o'
        → IsFifo o
        → IsFifo o'
    acknowledge-IsFifo ack o h k =
        let t = acknowledge-Took unmarshal ack o h in
        subst IsFifo (sym t.left)
          (without_head o t.head t.rest k (subst (λ bs. Carries bs k.queue) t.queue k.carried))

    run-IsFifo :
        (c : Call) (o : Outbox) → IsNumbering c → IsFifo o → IsFifo (run marshal unmarshal c o)
    unfolding run
    run-IsFifo (enqueue_call now e) o c k = elim c [ ]
    run-IsFifo (send_call now es) o c k =
        elim (Fallible-cases (enqueue_many_next marshal now es o)) [
          | inl (r, h) ↦ rw h (enqueue_many_next-IsFifo now es o h k)
          | inr (e, h) ↦ rw h k
        ]
    run-IsFifo (acknowledge_call ack) o c k = elim (Fallible-cases (acknowledge unmarshal ack o)) [
      | inl (o', h) ↦ rw h (acknowledge-IsFifo ack o h k)
      | inr (e, h) ↦ rw h k
    ]

    -- Under any calls that number what they send and any acknowledgements, however each one ends,
    -- the queue's rows stay in the order of their sequences, each at most the last one given out.
    pub run_all-IsFifo :
        (cs : List Call) (o : Outbox)
        → All IsNumbering cs
        → IsFifo o
        → IsFifo (run_all marshal unmarshal cs o)
    unfolding run_all
    run_all-IsFifo [] o c k = k
    run_all-IsFifo (x ∷ cs) o c k =
        run_all-IsFifo cs (run marshal unmarshal x o) c.1 (run-IsFifo x o c.0 k)

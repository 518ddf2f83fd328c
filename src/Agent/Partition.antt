-- ===== src/Agent/Partition.antt =====
-- internal/agent/agent.go: how scanned events become envelopes. `prepareEnvelope` fills the
-- header in, `partitionEventEnvelopes` halves a batch until each envelope fits the hub's limit,
-- `collapseRepeatedEventIDs` keeps the first event of each id and `enqueueEvents` composes them.
-- The random ids and the clock are functions of the number of envelopes prepared so far.
pub mod Whole
pub mod Collapse
pub mod Acceptable
pub mod Refusals
pub mod Accepted
use omni_token.Prelude.{
  ℕ, zero, suc, ◌/◌, ◌++◌, String, Bool, true, false, Option, none, some, List, [], ◌∷◌, leb,
  if◌then◌else◌, one_of, length, take, drop,
}
use omni_token.Fallible.{Fallible, ok, err, ◌>>=◌}
use omni_token.Model.Event.{Event}
use omni_token.Model.Envelope.{IngestEnvelopeV2, ingest_protocol_v2, kind_events}
use omni_token.Agent.Outbox.{
  Bytes, OutboxError, too_large, max_ingest_envelope_bytes, max_uint64, Outbox, Result,
  enqueue_many_next, enqueue_next,
}

pub data AgentError : Type 0 where
  no_random unfinished : AgentError
  of_queue : OutboxError → AgentError

abbrev pub Attempt {ℓ} : Type ℓ → Type ℓ
Attempt A = Fallible AgentError A

-- What an agent stamps its envelopes with.
pub record Stamp : Type 0 where
  pub device_id : String
  pub boot_id : String
  pub new_uuid : ℕ → Option String
  pub current_milli : ℕ → ℕ

-- An envelope under construction: the zero values of Go's fields, and a payload.
abbrev pub events_envelope : List Event → IngestEnvelopeV2
events_envelope es = record {
  protocol_version = 0;
  device_id = "";
  boot_id = "";
  batch_id = "";
  sequence = 0;
  captured_at = 0;
  kind = kind_events;
  events = es;
  quotas = [];
  procs = none;
}

abbrev pub with_random :
    Stamp → ℕ → IngestEnvelopeV2 → Option String → Attempt (IngestEnvelopeV2 × ℕ)
with_random s n e none = err no_random
with_random s n e (some batch_id) = ok (
  record e {
    protocol_version = ingest_protocol_v2;
    device_id = s.device_id;
    boot_id = s.boot_id;
    batch_id = batch_id;
    sequence = 0;
    captured_at = s.current_milli n;
  },
  suc n,
)

-- Comes with the number of envelopes prepared.
unfoldable pub prepare_envelope : Stamp → ℕ → IngestEnvelopeV2 → Attempt (IngestEnvelopeV2 × ℕ)
prepare_envelope s n e = with_random s n e (s.new_uuid n)

abbrev pub Parts : Type 0
Parts = List IngestEnvelopeV2 × ℕ

abbrev pub halve : (ℕ → List Event → Attempt Parts) → ℕ → List Event → Attempt Parts
halve again n es = do
  let middle = length es / 2
  (left, n1) ← again n (take middle es)
  (right, n2) ← again n1 (drop middle es)
  ok (left ++ right, n2)

-- `fits` is the size probe's answer, `single` says that there is at most one event.
abbrev pub after_probe :
    Bool
    → Bool
    → IngestEnvelopeV2
    → (ℕ → List Event → Attempt Parts)
    → ℕ
    → List Event
    → Attempt Parts
after_probe true single e again n es = ok (e ∷ [], n)
after_probe false true e again n es = err (of_queue too_large)
after_probe false false e again n es = halve again n es

-- The loop over the events; `seen` holds the ids met so far.
unfoldable pub collapse_from : List String → List Event → List Event
collapse_from seen [] = []
collapse_from seen (e ∷ es) =
    let repeated = one_of e.event_id seen in
    let rest = collapse_from (if repeated then seen else e.event_id ∷ seen) es in
    if repeated then rest else e ∷ rest

unfoldable pub collapse_repeated_event_ids : List Event → List Event
unfolding collapse_from
collapse_repeated_event_ids es = collapse_from [] es

abbrev pub of_result {ℓ} : {A : Type ℓ} → Result A → Attempt A
of_result (ok a) = ok a
of_result (err e) = err (of_queue e)

module _ (marshal : IngestEnvelopeV2 → Bytes) (s : Stamp) where
  -- The envelope's size under the longest sequence.
  abbrev pub probe : IngestEnvelopeV2 → Bool
  probe e = leb (length (marshal (record e { sequence = max_uint64 }))) max_ingest_envelope_bytes

  -- `partitionEventEnvelopes` on fuel: the depth of the halving.
  unfoldable pub partition_event_envelopes : ℕ → ℕ → List Event → Attempt Parts
  unfolding prepare_envelope
  partition_event_envelopes zero n es = err unfinished
  partition_event_envelopes (suc fuel) n es = do
    (e, n1) ← prepare_envelope s n (events_envelope es)
    after_probe (probe e) (leb (length es) 1) e (partition_event_envelopes fuel) n1 es

  unfoldable pub enqueue_envelope :
      ℕ → ℕ → IngestEnvelopeV2 → Outbox → Attempt (IngestEnvelopeV2 × Outbox)
  unfolding prepare_envelope enqueue_next
  enqueue_envelope now n e o = do
    (prepared, n1) ← prepare_envelope s n e
    of_result (enqueue_next marshal now prepared o)

  -- Fuel: one more than the number of events.
  unfoldable pub enqueue_events :
      ℕ → ℕ → List Event → Outbox → Attempt (List IngestEnvelopeV2 × Outbox)
  unfolding partition_event_envelopes collapse_repeated_event_ids enqueue_many_next
  enqueue_events now n es o = do
    let kept = collapse_repeated_event_ids es
    (envelopes, n1) ← partition_event_envelopes (suc (length kept)) n kept
    of_result (enqueue_many_next marshal now envelopes o)

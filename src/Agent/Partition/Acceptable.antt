-- ===== src/Agent/Partition/Acceptable.antt =====
-- internal/agent/agent.go and internal/model/ingest.go: when the validator accepts the parts.
use omni_token.Prelude.{
  ℕ, ◌≤◌, ◌<◌, String, true, false, some, List, [], ◌∷◌, ◌++◌, ◌==◌, ◌≡◌, refl, arith, All,
  All-left, All-right, Pairs, length, length-append,
}
use omni_token.Model.Event.{Event}
use omni_token.Model.Envelope.{
  IngestEnvelopeV2, valid_uuid, max_captured_at_milli, max_ingest_batch_events, is_nil,
}
use omni_token.Model.Envelope.Accept.{OtherEvent, IsAcceptable, of_events}
use omni_token.Agent.Partition.{Stamp}
use omni_token.Agent.Partition.Whole.{carried, IsStamped}

-- What holds of all the events holds of each part's.
pub All-carried :
    (P : Event → Type 0) (parts : List IngestEnvelopeV2)
    → All P (carried parts)
    → All (λ (e : IngestEnvelopeV2). All P e.events) parts
All-carried P [] h = tt
All-carried P (e ∷ parts) h = (
  All-left P e.events (carried parts) h,
  All-carried P parts (All-right P e.events (carried parts) h),
)

Pairs-left : (xs ys : List Event) → Pairs OtherEvent (xs ++ ys) → Pairs OtherEvent xs
Pairs-left [] ys h = tt
Pairs-left (x ∷ xs) ys h = (All-left (OtherEvent x) xs ys h.0, Pairs-left xs ys h.1)

Pairs-right : (xs ys : List Event) → Pairs OtherEvent (xs ++ ys) → Pairs OtherEvent ys
Pairs-right [] ys h = h
Pairs-right (x ∷ xs) ys h = Pairs-right xs ys h.1

pub Pairs-carried :
    (parts : List IngestEnvelopeV2)
    → Pairs OtherEvent (carried parts)
    → All (λ (e : IngestEnvelopeV2). Pairs OtherEvent e.events) parts
Pairs-carried [] h = tt
Pairs-carried (e ∷ parts) h = (
  Pairs-left e.events (carried parts) h,
  Pairs-carried parts (Pairs-right e.events (carried parts) h),
)

pub length-carried :
    (k : ℕ) (parts : List IngestEnvelopeV2)
    → length (carried parts) ≤ k
    → All (λ (e : IngestEnvelopeV2). length e.events ≤ k) parts
length-carried k [] h = tt
length-carried k (e ∷ parts) h =
    let sum = length-append e.events (carried parts) in
    (omega (arith, h, sum), length-carried k parts (omega (arith, h, sum)))

-- The agent is enrolled and its clock is set.
pub record IsEnrolled (s : Stamp) : Type 0 where
  pub device : valid_uuid s.device_id ≡ true
  pub boot : valid_uuid s.boot_id ≡ true
  pub random : (k : ℕ) (id : String) → s.new_uuid k ≡ some id → valid_uuid id ≡ true
  pub after_epoch : (k : ℕ) → 0 < s.current_milli k
  pub before_limit : (k : ℕ) → s.current_milli k ≤ max_captured_at_milli

abbrev pub Named : Event → Type 0
Named v = (v.event_id == "") ≡ false

abbrev pub Owned : Stamp → Event → Type 0
Owned s v = (v.device == s.device_id) ≡ true

-- What a scan hands over: at most 2000 named events of the device.
pub record IsScanned (s : Stamp) (es : List Event) : Type 0 where
  pub some_event : is_nil es ≡ false
  pub bounded : length es ≤ max_ingest_batch_events
  pub named : All Named es
  pub owned : All (Owned s) es

abbrev pub Good : Stamp → List Event → Type 0
Good s es = IsScanned s es × Pairs OtherEvent es

module _ (s : Stamp) (enrolled : IsEnrolled s) where
  stamped-IsAcceptable : (e : IngestEnvelopeV2) → IsStamped s e → Good s e.events → IsAcceptable e
  stamped-IsAcceptable e st (good, distinct) =
      let random = enrolled.random st.random.0 e.batch_id st.random.1 in
      let after = enrolled.after_epoch st.clock.0 in
      let until = enrolled.before_limit st.clock.0 in
      record {
        header = record {
          version = st.version;
          device = rw st.device enrolled.device;
          boot = rw st.boot enrolled.boot;
          batch = random;
          after_epoch = rw st.clock.1 after;
          before_limit = rw st.clock.1 until;
        };
        payload = of_events st.kind (record {
          some_events = good.some_event;
          bounded = good.bounded;
          named = good.named;
          distinct = distinct;
          owned = rw st.device good.owned;
          no_quotas = rw st.no_quotas refl;
          no_procs = rw st.no_procs refl;
        });
      }

  pub part-IsAcceptable :
      (k : ℕ) (e : IngestEnvelopeV2)
      → IsStamped s e
      → Good s e.events
      → IsAcceptable (record e { sequence = k })
  part-IsAcceptable k e st good =
      stamped-IsAcceptable (record e { sequence = k })
        (record {
          version = st.version;
          device = st.device;
          boot = st.boot;
          random = st.random;
          clock = st.clock;
          kind = st.kind;
          no_quotas = st.no_quotas;
          no_procs = st.no_procs;
        })
        good

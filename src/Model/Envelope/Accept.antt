-- ===== src/Model/Envelope/Accept.antt =====
-- internal/model/ingest.go: what an envelope has to be like for `ValidateIngestEnvelope` to reject
-- nothing, stated without the validator.
use omni_token.Prelude.{
  ℕ, suc, ◌≤◌, ◌<◌, String, Bool, true, false, some, List, [], ◌∷◌, ◌++◌, ◌==◌, ◌≡◌, refl, inl, inr,
  arith, All, All-mono, Pairs, one_of, length, is_some, Bool-cases,
}
use omni_token.Model.Event.{Event}
use omni_token.Model.Snapshot.{QuotaSnapshot, ProcReport}
use omni_token.Model.Envelope.{
  IngestEnvelopeV2, RejectionCode, kind_events, kind_quotas, kind_procs, valid_uuid, reject_if,
  record_if, check_events, check_quotas, check_header, max_ingest_batch_events,
  max_captured_at_milli, ingest_protocol_v2, is_nil,
}

pub append-eq-nil {ℓ} : {A : Type ℓ} (xs ys : List A) → xs ++ ys ≡ [] → (xs ≡ []) × (ys ≡ [])
append-eq-nil [] ys h = (refl, h)
append-eq-nil (x ∷ xs) ys h = cc

pub reject_if-eq-nil : (b : Bool) (c : RejectionCode) → reject_if b c ≡ [] → b ≡ false
reject_if-eq-nil true c h = cc
reject_if-eq-nil false c h = refl

record_if-eq-nil :
    (b : Bool) (c : RejectionCode) (i : ℕ) (id : String) → record_if b c i id ≡ [] → b ≡ false
record_if-eq-nil true c i id h = cc
record_if-eq-nil false c i id h = refl

pub record HeaderOk (e : IngestEnvelopeV2) : Type 0 where
  pub version : e.protocol_version ≡ ingest_protocol_v2
  pub device : valid_uuid e.device_id ≡ true
  pub boot : valid_uuid e.boot_id ≡ true
  pub batch : valid_uuid e.batch_id ≡ true
  pub after_epoch : 0 < e.captured_at
  pub before_limit : e.captured_at ≤ max_captured_at_milli

abbrev pub OtherEvent : Event → Event → Type 0
OtherEvent a b = (b.event_id == a.event_id) ≡ false

pub record EventsOk (e : IngestEnvelopeV2) : Type 0 where
  pub some_events : is_nil e.events ≡ false
  pub bounded : length e.events ≤ max_ingest_batch_events
  pub named : All (λ (v : Event). (v.event_id == "") ≡ false) e.events
  pub distinct : Pairs OtherEvent e.events
  pub owned : All (λ (v : Event). (v.device == e.device_id) ≡ true) e.events
  pub no_quotas : is_nil e.quotas ≡ true
  pub no_procs : is_some e.procs ≡ false

pub record QuotasOk (e : IngestEnvelopeV2) : Type 0 where
  pub some_quotas : is_nil e.quotas ≡ false
  pub owned : All (λ (q : QuotaSnapshot). (q.device == e.device_id) ≡ true) e.quotas
  pub no_events : is_nil e.events ≡ true
  pub no_procs : is_some e.procs ≡ false

pub record ProcsOk (e : IngestEnvelopeV2) : Type 0 where
  pub report : ProcReport
  pub present : e.procs ≡ some report
  pub owned : report.device ≡ e.device_id
  pub observed : 0 < report.observed_at
  pub no_events : is_nil e.events ≡ true
  pub no_quotas : is_nil e.quotas ≡ true

-- One kind, and the payload of that kind alone.
pub data PayloadOk (e : IngestEnvelopeV2) : Type 0 where
  of_events : e.kind ≡ kind_events → EventsOk e → PayloadOk e
  of_quotas : e.kind ≡ kind_quotas → QuotasOk e → PayloadOk e
  of_procs : e.kind ≡ kind_procs → ProcsOk e → PayloadOk e

pub record IsAcceptable (e : IngestEnvelopeV2) : Type 0 where
  pub header : HeaderOk e
  pub payload : PayloadOk e

pub check_header-HeaderOk : (e : IngestEnvelopeV2) → check_header e ≡ [] → HeaderOk e
unfolding check_header
check_header-HeaderOk e h = ground arith

pub HeaderOk-check_header : (e : IngestEnvelopeV2) → HeaderOk e → check_header e ≡ []
unfolding check_header
HeaderOk-check_header e h = ground arith

-- What the loop over the events accepts, with the ids that it has met.
abbrev pub LoopOk : String → List String → List Event → Type 0
LoopOk device seen es =
    All (λ (v : Event). (v.event_id == "") ≡ false) es
    × All (λ (v : Event). one_of v.event_id seen ≡ false) es
    × Pairs OtherEvent es
    × All (λ (v : Event). (v.device == device) ≡ true) es

-- The first round of the loop rejects nothing, and neither do the later ones.
record HeadOk (device : String) (seen : List String) (v : Event) : Type 0 where
  named : (v.event_id == "") ≡ false
  fresh : one_of v.event_id seen ≡ false
  owned : (v.device == device) ≡ true

check_events-HeadOk :
    (device : String) (i : ℕ) (seen : List String) (v : Event) (es : List Event)
    → check_events true device i seen (v ∷ es) ≡ []
    → HeadOk device seen v × (check_events true device (suc i) (v.event_id ∷ seen) es ≡ [])
unfolding check_events
check_events-HeadOk device i seen v es h = ground arith

pub check_events-LoopOk :
    (device : String) (i : ℕ) (seen : List String) (es : List Event)
    → check_events true device i seen es ≡ []
    → LoopOk device seen es
check_events-LoopOk device i seen [] h = (tt, tt, tt, tt)
check_events-LoopOk device i seen (v ∷ es) h =
    let (head, rest) = check_events-HeadOk device i seen v es h in
    let (named, fresh, apart, owned) =
      check_events-LoopOk device (suc i) (v.event_id ∷ seen) es rest in
    let Fresh = λ (w : Event). one_of w.event_id (v.event_id ∷ seen) ≡ false in
    (
      (head.named, named),
      (head.fresh, All-mono Fresh _ es (λ w m. ground arith) fresh),
      (All-mono Fresh (OtherEvent v) es (λ w m. ground arith) fresh, apart),
      (head.owned, owned),
    )

pub both_fresh :
    (v : Event) (seen : List String) (es : List Event)
    → All (OtherEvent v) es
    → All (λ (w : Event). one_of w.event_id seen ≡ false) es
    → All (λ (w : Event). one_of w.event_id (v.event_id ∷ seen) ≡ false) es
both_fresh v seen [] a f = tt
both_fresh v seen (w ∷ es) a f = (rw a.0 f.0, both_fresh v seen es a.1 f.1)

pub LoopOk-check_events :
    (device : String) (i : ℕ) (seen : List String) (es : List Event)
    → LoopOk device seen es
    → check_events true device i seen es ≡ []
unfolding check_events
LoopOk-check_events device i seen [] h = refl
LoopOk-check_events device i seen (v ∷ es) ((n, named), (f, fresh), (apart, later), (o, owned)) =
    let rest =
      LoopOk-check_events device (suc i) (v.event_id ∷ seen) es
        (named, both_fresh v seen es apart fresh, later, owned) in
    rw (n, f, o) rest

abbrev pub QuotasOwned : String → List QuotaSnapshot → Type 0
QuotasOwned device = All (λ (q : QuotaSnapshot). (q.device == device) ≡ true)

pub check_quotas-owned :
    (device : String) (i : ℕ) (qs : List QuotaSnapshot)
    → check_quotas device i qs ≡ []
    → QuotasOwned device qs
unfolding check_quotas
check_quotas-owned device i [] h = tt
check_quotas-owned device i (q ∷ qs) h = elim (Bool-cases (q.device == device)) [
  | inl same ↦ (same, check_quotas-owned device (suc i) qs (rw same at h))
  | inr other ↦ cc (rw other at h)
]

pub owned-check_quotas :
    (device : String) (i : ℕ) (qs : List QuotaSnapshot)
    → QuotasOwned device qs
    → check_quotas device i qs ≡ []
unfolding check_quotas
owned-check_quotas device i [] h = refl
owned-check_quotas device i (q ∷ qs) h = rw h.0 (owned-check_quotas device (suc i) qs h.1)

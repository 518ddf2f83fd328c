-- ===== src/Model/Envelope/Verdict.antt =====
-- internal/model/ingest.go: the verdict of `ValidateIngestEnvelope` on a whole envelope.
use omni_token.Prelude.{
  true, false, List, [], ◌∷◌, ◌==◌, ◌≡◌, refl, inl, inr, ◌↔◌, arith, All, one_of, Bool-cases,
  Option-cases, eq_iff, if◌then◌else◌,
}
use omni_token.Model.Event.{Event}
use omni_token.Model.Envelope.{
  IngestEnvelopeV2, IngestRejection, kind_events, kind_quotas, kind_procs, valid_uuid, check_events,
  check_header, check_events_payload, check_quotas_payload, check_procs_payload,
  validate_ingest_envelope, reject_if, invalid_kind,
}
use omni_token.Model.Envelope.Accept.{
  append-eq-nil, EventsOk, QuotasOk, ProcsOk, PayloadOk, of_events, of_quotas, of_procs,
  IsAcceptable, check_header-HeaderOk, HeaderOk-check_header, check_events-LoopOk,
  LoopOk-check_events, check_quotas-owned, owned-check_quotas,
}

module _ (e : IngestEnvelopeV2) (device : valid_uuid e.device_id ≡ true) where
  All-fresh : (es : List Event) → All (λ (v : Event). one_of v.event_id [] ≡ false) es
  All-fresh [] = tt
  All-fresh (v ∷ es) = (refl, All-fresh es)

  check-EventsOk : check_events_payload e ≡ [] → EventsOk e
  unfolding check_events_payload
  check-EventsOk h =
      let (flags, loop) = append-eq-nil _ (check_events (valid_uuid e.device_id) _ _ _ _) h in
      let (named, fresh, distinct, owned) =
        check_events-LoopOk e.device_id 0 [] e.events (rw device at loop) in
      record {
        some_events = ground arith;
        bounded = ground arith;
        named = named;
        distinct = distinct;
        owned = owned;
        no_quotas = ground arith;
        no_procs = ground arith;
      }

  EventsOk-check : EventsOk e → check_events_payload e ≡ []
  unfolding check_events_payload
  EventsOk-check k =
      let loop =
        LoopOk-check_events e.device_id 0 [] e.events
          (k.named, All-fresh e.events, k.distinct, k.owned) in
      rw device (ground arith)

  check-QuotasOk : check_quotas_payload e ≡ [] → QuotasOk e
  unfolding check_quotas_payload
  check-QuotasOk h =
      let (flags, loop) = append-eq-nil _ (if valid_uuid e.device_id then _ else _) h in
      record {
        some_quotas = ground arith;
        owned = check_quotas-owned e.device_id 0 e.quotas (rw device at loop);
        no_events = ground arith;
        no_procs = ground arith;
      }

  QuotasOk-check : QuotasOk e → check_quotas_payload e ≡ []
  unfolding check_quotas_payload
  QuotasOk-check k =
      let loop = owned-check_quotas e.device_id 0 e.quotas k.owned in rw device (ground arith)

  check-ProcsOk : check_procs_payload e ≡ [] → ProcsOk e
  unfolding check_procs_payload
  check-ProcsOk h = elim (Option-cases e.procs) [
    | inl missing ↦ absurd (ground arith)
    | inr (p, present) ↦ record {
      report = p;
      present = present;
      owned = ground (arith, eq_iff p.device e.device_id);
      observed = ground arith;
      no_events = ground arith;
      no_quotas = ground arith;
    }
  ]

  ProcsOk-check : ProcsOk e → check_procs_payload e ≡ []
  unfolding check_procs_payload
  ProcsOk-check k = ground (arith, k.present, k.owned, eq_iff k.report.device e.device_id)

other_kinds :
    (e : IngestEnvelopeV2)
    → (e.kind ≡ kind_events → (e.kind == kind_events) ≡ true)
      × (e.kind ≡ kind_quotas → (e.kind == kind_events) ≡ false)
      × (e.kind ≡ kind_quotas → (e.kind == kind_quotas) ≡ true)
      × (e.kind ≡ kind_procs → (e.kind == kind_events) ≡ false)
      × (e.kind ≡ kind_procs → (e.kind == kind_quotas) ≡ false)
      × (e.kind ≡ kind_procs → (e.kind == kind_procs) ≡ true)
other_kinds e = (λ k. rw k, λ k. rw k, λ k. rw k, λ k. rw k, λ k. rw k, λ k. rw k)

module _ (e : IngestEnvelopeV2) where
  abbrev payload_check : List IngestRejection
  payload_check =
      if e.kind == kind_events
      then check_events_payload e
      else if e.kind == kind_quotas
      then check_quotas_payload e
      else if e.kind == kind_procs
      then check_procs_payload e
      else reject_if true invalid_kind

  check-PayloadOk : valid_uuid e.device_id ≡ true → payload_check ≡ [] → PayloadOk e
  check-PayloadOk device h = elim (Bool-cases (e.kind == kind_events)) [
    | inl events ↦
        of_events ((eq_iff e.kind kind_events).0 events) (check-EventsOk e device (rw events at h))
    | inr not_events ↦ elim (Bool-cases (e.kind == kind_quotas)) [
      | inl quotas ↦
          of_quotas ((eq_iff e.kind kind_quotas).0 quotas)
            (check-QuotasOk e device (rw (not_events, quotas) at h))
      | inr not_quotas ↦ elim (Bool-cases (e.kind == kind_procs)) [
        | inl procs ↦
            of_procs ((eq_iff e.kind kind_procs).0 procs)
              (check-ProcsOk e device (rw (not_events, not_quotas, procs) at h))
        | inr not_procs ↦ cc (rw (not_events, not_quotas, not_procs) at h)
      ]
    ]
  ]

  PayloadOk-check : valid_uuid e.device_id ≡ true → PayloadOk e → payload_check ≡ []
  PayloadOk-check device (of_events k ok) =
      let kinds = other_kinds e in rw (kinds.0 k) (EventsOk-check e device ok)
  PayloadOk-check device (of_quotas k ok) =
      let kinds = other_kinds e in rw (kinds.1 k, kinds.2 k) (QuotasOk-check e device ok)
  PayloadOk-check device (of_procs k ok) =
      let kinds = other_kinds e in rw (kinds.3 k, kinds.4 k, kinds.5 k) (ProcsOk-check e device ok)

pub validate-eq-nil_iff :
    (e : IngestEnvelopeV2) → (validate_ingest_envelope e ≡ []) ↔ IsAcceptable e
unfolding validate_ingest_envelope
validate-eq-nil_iff e = (
  λ h.
      let (header, payload) = append-eq-nil (check_header e) (payload_check e) h in
      let ok = check_header-HeaderOk e header in
      record { header = ok; payload = check-PayloadOk e ok.device payload },
  λ k. rw (HeaderOk-check_header e k.header) (PayloadOk-check e k.header.device k.payload),
)

-- ===== src/Model/Envelope.antt =====
-- internal/model/ingest.go: the v2 ingest envelope, its acknowledgement and its validation. Texts
-- are walked by code points: `validUUID` accepts ASCII alone, so bytes and code points agree on it.
pub mod Accept
pub mod Verdict
use Prim.Native.Char.{code}
use omni_token.Prelude.{
  ℕ, suc, String, Bool, true, false, not, ◌&&◌, ◌||◌, Option, none, some, List, [], ◌∷◌, ◌++◌, ◌==◌,
  one_of, leb, ltb, eqb, length, is_some, if◌then◌else◌,
}
use omni_token.Model.Event.{Event}
use omni_token.Model.Snapshot.{QuotaSnapshot, ProcReport}

abbrev pub ingest_protocol_v2 : ℕ
ingest_protocol_v2 = 2

abbrev pub max_ingest_batch_events : ℕ
max_ingest_batch_events = 2000

abbrev pub max_captured_at_milli : ℕ
max_captured_at_milli = 253402300799999

abbrev pub kind_events : String
kind_events = "events"

abbrev pub kind_quotas : String
kind_quotas = "quotas"

abbrev pub kind_procs : String
kind_procs = "procs"

pub record IngestEnvelopeV2 : Type 0 where
  pub protocol_version : ℕ
  pub device_id : String
  pub boot_id : String
  pub batch_id : String
  pub sequence : ℕ
  pub captured_at : ℕ
  pub kind : String
  pub events : List Event
  pub quotas : List QuotaSnapshot
  pub procs : Option ProcReport

-- The stable validation codes.
pub data RejectionCode : Type 0 where
  invalid_protocol_version invalid_batch_id invalid_device_id invalid_boot_id : RejectionCode
  invalid_captured_at batch_too_large invalid_event_id duplicate_event_id : RejectionCode
  event_device_mismatch invalid_kind missing_events_payload : RejectionCode
  missing_quotas_payload missing_procs_payload unexpected_events_payload : RejectionCode
  unexpected_quotas_payload unexpected_procs_payload quota_device_mismatch : RejectionCode
  proc_device_mismatch invalid_proc_observed_at : RejectionCode

pub record IngestRejection : Type 0 where
  pub code : RejectionCode
  pub index : Option ℕ
  pub event_id : String

pub record IngestAckV2 : Type 0 where
  pub protocol_version : ℕ
  pub device_id : String
  pub batch_id : String
  pub ack_sequence : ℕ
  pub accepted : ℕ
  pub duplicates : ℕ
  pub rejected : List IngestRejection
  pub server_time : ℕ

abbrev pub codes : String → List ℕ
codes String.[] = []
codes (String.◌∷◌ c s) = code c ∷ codes s

abbrev between : ℕ → ℕ → ℕ → Bool
between lo hi c = leb lo c && leb c hi

unfoldable pub uuid_byte : ℕ → ℕ → Bool
uuid_byte i c =
    if eqb i 8 || eqb i 13 || eqb i 18 || eqb i 23
    then eqb c b'-'
    else between b'0' b'9' c || between b'a' b'f' c

unfoldable pub uuid_bytes : ℕ → List ℕ → Bool
unfolding uuid_byte
uuid_bytes i [] = true
uuid_bytes i (c ∷ cs) = uuid_byte i c && uuid_bytes (suc i) cs

unfoldable pub valid_uuid : String → Bool
unfolding uuid_bytes
valid_uuid value =
    eqb (length (codes value)) 36
    && uuid_bytes 0 (codes value)
    && not (value == "00000000-0000-0000-0000-000000000000")

-- A rejection of the whole envelope, if its test holds.
abbrev pub reject_if : Bool → RejectionCode → List IngestRejection
reject_if b code = if b then record { code = code; index = none; event_id = "" } ∷ [] else []

-- `recordRejection`, if its test holds.
abbrev pub record_if : Bool → RejectionCode → ℕ → String → List IngestRejection
record_if b code i id = if b then record { code = code; index = some i; event_id = id } ∷ [] else []

-- The loop over the events; `seen` holds the ids met so far.
unfoldable pub check_events : Bool → String → ℕ → List String → List Event → List IngestRejection
check_events device_valid device i seen [] = []
check_events device_valid device i seen (e ∷ es) =
    record_if (e.event_id == "") invalid_event_id i ""
    ++ record_if (not (e.event_id == "") && one_of e.event_id seen) duplicate_event_id i e.event_id
    ++ record_if (device_valid && not (e.device == device)) event_device_mismatch i e.event_id
    ++ check_events device_valid device (suc i)
        (if e.event_id == "" then seen else e.event_id ∷ seen) es

unfoldable pub check_quotas : String → ℕ → List QuotaSnapshot → List IngestRejection
check_quotas device i [] = []
check_quotas device i (q ∷ qs) =
    record_if (not (q.device == device)) quota_device_mismatch i ""
    ++ check_quotas device (suc i) qs

abbrev pub is_nil {ℓ} : {A : Type ℓ} → List A → Bool
is_nil [] = true
is_nil (x ∷ xs) = false

unfoldable pub check_header : IngestEnvelopeV2 → List IngestRejection
check_header e =
    reject_if (not (eqb e.protocol_version ingest_protocol_v2)) invalid_protocol_version
    ++ reject_if (not (valid_uuid e.device_id)) invalid_device_id
    ++ reject_if (not (valid_uuid e.boot_id)) invalid_boot_id
    ++ reject_if (not (valid_uuid e.batch_id)) invalid_batch_id
    ++ reject_if (leb e.captured_at 0 || ltb max_captured_at_milli e.captured_at)
        invalid_captured_at

unfoldable pub check_events_payload : IngestEnvelopeV2 → List IngestRejection
check_events_payload e =
    reject_if (is_nil e.events) missing_events_payload
    ++ reject_if (not (is_nil e.quotas)) unexpected_quotas_payload
    ++ reject_if (is_some e.procs) unexpected_procs_payload
    ++ reject_if (ltb max_ingest_batch_events (length e.events)) batch_too_large
    ++ check_events (valid_uuid e.device_id) e.device_id 0 [] e.events

unfoldable pub check_quotas_payload : IngestEnvelopeV2 → List IngestRejection
check_quotas_payload e =
    reject_if (is_nil e.quotas) missing_quotas_payload
    ++ reject_if (not (is_nil e.events)) unexpected_events_payload
    ++ reject_if (is_some e.procs) unexpected_procs_payload
    ++ (if valid_uuid e.device_id then check_quotas e.device_id 0 e.quotas else [])

-- `procs != nil && test procs`
abbrev pub procs_with : (ProcReport → Bool) → Option ProcReport → Bool
procs_with test none = false
procs_with test (some p) = test p

unfoldable pub check_procs_payload : IngestEnvelopeV2 → List IngestRejection
check_procs_payload e =
    reject_if (not (is_some e.procs)) missing_procs_payload
    ++ reject_if (not (is_nil e.events)) unexpected_events_payload
    ++ reject_if (not (is_nil e.quotas)) unexpected_quotas_payload
    ++ reject_if (valid_uuid e.device_id && procs_with (λ p. not (p.device == e.device_id)) e.procs)
        proc_device_mismatch
    ++ reject_if (procs_with (λ p. leb p.observed_at 0) e.procs) invalid_proc_observed_at

unfoldable pub validate_ingest_envelope : IngestEnvelopeV2 → List IngestRejection
validate_ingest_envelope e =
    check_header e
    ++ (if e.kind == kind_events
        then check_events_payload e
        else if e.kind == kind_quotas
        then check_quotas_payload e
        else if e.kind == kind_procs
        then check_procs_payload e
        else reject_if true invalid_kind)

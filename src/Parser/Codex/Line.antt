-- ===== src/Parser/Codex/Line.antt =====
-- internal/parser/codex/parser.go: a decoded line, and the helpers of the parser's loop.
use omni_token.Prelude.{
  ℕ, ◌-◌, ◌*◌, String, Bool, true, false, not, ◌&&◌, ◌||◌, Option, none, some, List, [], ◌∷◌, ◌++◌,
  map, ◌==◌, leb, eqb, if◌then◌else◌, length, one_of, trim_space,
}
use omni_token.Model.Event.{Event}
use omni_token.Model.Snapshot.{QuotaSnapshot}
use omni_token.Model.Envelope.{codes, uuid_bytes}
use omni_token.Model.Provider.{provider_unknown, provider_openai_chatgpt}

abbrev pub source_codex : String
source_codex = "codex"

abbrev pub max_span_ms : ℕ
max_span_ms = 30 * 60 * 1000

pub record Usage : Type 0 where
  pub input_tokens : ℕ
  pub cached_input : ℕ
  pub cache_write_input : ℕ
  pub output_tokens : ℕ
  pub reasoning_tokens : ℕ
  pub total_tokens : ℕ

pub record LimitState : Type 0 where
  pub used_percent : ℕ
  pub window_minutes : ℕ
  pub resets_at : ℕ

-- Of the credits only their presence matters.
pub record RateLimits : Type 0 where
  pub limit_id : String
  pub primary : Option LimitState
  pub secondary : Option LimitState
  pub plan_type : String
  pub has_credits : Bool

pub record Info : Type 0 where
  pub model : String
  pub last_usage : Option Usage
  pub total_usage : Option Usage

pub record Payload : Type 0 where
  pub rollout_id : String
  pub session_id : String
  pub cwd : String
  pub cli_version : String
  pub model_provider : String
  pub model : String
  pub payload_type : String
  pub info : Option Info
  pub turn_id : String
  pub completed_at : ℕ
  pub duration_ms : ℕ
  pub ttft_ms : ℕ
  pub rate_limits : Option RateLimits

pub record Entry : Type 0 where
  pub timestamp : String
  pub entry_type : String
  pub payload : Payload

-- The cases of the two `switch`es.
pub data LineKind : Type 0 where
  session_meta turn_context task_started task_closed token_count other_line : LineKind

unfoldable pub message_kind : String → LineKind
message_kind t =
    if t == "task_started"
    then task_started
    else if one_of t ("task_complete" ∷ "turn_aborted" ∷ [])
    then task_closed
    else if t == "token_count"
    then token_count
    else other_line

unfoldable pub kind_of : Entry → LineKind
unfolding message_kind
kind_of e =
    if e.entry_type == "session_meta"
    then session_meta
    else if e.entry_type == "turn_context"
    then turn_context
    else if e.entry_type == "event_msg"
    then message_kind e.payload.payload_type
    else other_line

unfoldable pub same_usage : Usage → Usage → Bool
same_usage a b =
    eqb a.input_tokens b.input_tokens
    && eqb a.cached_input b.cached_input
    && eqb a.cache_write_input b.cache_write_input
    && eqb a.output_tokens b.output_tokens
    && eqb a.reasoning_tokens b.reasoning_tokens
    && eqb a.total_tokens b.total_tokens

-- max(total - previous, 0), field by field.
unfoldable pub usage_since : Usage → Usage → Usage
usage_since previous total = record {
  input_tokens = total.input_tokens - previous.input_tokens;
  cached_input = total.cached_input - previous.cached_input;
  cache_write_input = total.cache_write_input - previous.cache_write_input;
  output_tokens = total.output_tokens - previous.output_tokens;
  reasoning_tokens = total.reasoning_tokens - previous.reasoning_tokens;
  total_tokens = total.total_tokens - previous.total_tokens;
}

-- `total == nil || prevTotal == nil || *total != *prevTotal`
unfoldable pub has_advanced : Option Usage → Option Usage → Bool
unfolding same_usage
has_advanced none previous = true
has_advanced (some u) none = true
has_advanced (some u) (some p) = not (same_usage u p)

abbrev pub from_totals : Option Usage → Option Usage → Option Usage
from_totals none previous = none
from_totals (some u) none = some u
from_totals (some u) (some p) = some (usage_since p u)

abbrev pub prefer_last : Option Usage → Option Usage → Option Usage → Option Usage
prefer_last (some u) total previous = some u
prefer_last none total previous = from_totals total previous

-- The request's usage; the second result of the code is `total` itself.
unfoldable pub delta_usage : Option Usage → Option Usage → Option Usage → Option Usage
unfolding has_advanced usage_since
delta_usage last total previous =
    if has_advanced total previous then prefer_last last total previous else none

unfoldable pub is_uuid : String → Bool
unfolding uuid_bytes
is_uuid s = eqb (length (codes s)) 36 && uuid_bytes 0 (codes s)

unfoldable pub provider_label : String → String
unfolding trim_space
provider_label p = let name = trim_space p in if name == "" then provider_unknown else name

unfoldable pub plan_evidence : RateLimits → Bool
plan_evidence q = not (q.plan_type == "") || q.has_credits

abbrev pub quota_of : RateLimits → String → ℕ → String → Option LimitState → List QuotaSnapshot
quota_of q device observed scope none = []
quota_of q device observed scope (some st) =
    if leb st.window_minutes 0
    then []
    else record {
      device = device;
      source = source_codex;
      limit_id = q.limit_id;
      scope = scope;
      window_minutes = st.window_minutes;
      used_percent = st.used_percent;
      resets_at = st.resets_at * 1000;
      observed_at = observed;
      plan_type = q.plan_type;
    }
      ∷ []

unfoldable pub quota_snapshots : RateLimits → String → ℕ → List QuotaSnapshot
quota_snapshots q device observed =
    quota_of q device observed "primary" q.primary
    ++ quota_of q device observed "secondary" q.secondary

abbrev pub builtin_openai_provider : String
builtin_openai_provider = "openai"

-- `trusted` is `none` for the code's nil function.
abbrev pub is_trusted : Option (String → Bool) → String → Bool
is_trusted none p = false
is_trusted (some f) p = f p

abbrev pub with_provider : String → Event → Event
with_provider p e = record e { provider = p }

unfoldable pub in_channel : Option (String → Bool) → String → Bool → Bool
unfolding trim_space
in_channel trusted provider subscription =
    let p = trim_space provider in
    subscription && (p == builtin_openai_provider || is_trusted trusted p)

unfoldable pub apply_session_channel :
    Option (String → Bool) → String → Bool → List Event → List Event
unfolding in_channel
apply_session_channel trusted provider subscription es =
    if in_channel trusted provider subscription
    then map (with_provider provider_openai_chatgpt) es
    else es

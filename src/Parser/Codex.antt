-- ===== src/Parser/Codex.antt =====
-- internal/parser/codex/parser.go: Codex rollout files. Decoding a line, reading its timestamp and
-- the SHA-1 digest are parameters; a final partial line is no line of the list.
pub mod Turn
pub mod Line
pub mod Shares
pub mod Growth
pub mod Fork
pub mod Totals
pub mod Running
pub mod Copy
use omni_token.Prelude.{
  ℕ, zero, suc, ◌+◌, ◌-◌, ◌*◌, ◌<◌, min, String, Bool, true, false, not, ◌&&◌, ◌||◌, Option, none,
  some, List, [], ◌∷◌, ◌++◌, map, ◌==◌, ltb, leb, eqb, is_some, if◌then◌else◌, length, one_of,
  trim_space, barred,
}
use Prim.Native.String.{◌++◌ as append}
use omni_token.Model.Event.{Event}
use omni_token.Model.Snapshot.{QuotaSnapshot}
use omni_token.Model.Envelope.{valid_uuid, codes, uuid_bytes}
use omni_token.Model.Provider.{provider_unknown, provider_openai_chatgpt}
use omni_token.Parser.Codex.Turn.{OpenTurn, close_turn}
use omni_token.Parser.Codex.Line.{
  source_codex, max_span_ms, Usage, LimitState, RateLimits, Info, Payload, Entry, LineKind,
  message_kind, kind_of, same_usage, usage_since, has_advanced, from_totals, prefer_last,
  delta_usage, is_uuid, provider_label, plan_evidence, quota_of, quota_snapshots,
  builtin_openai_provider, is_trusted, with_provider, apply_session_channel, session_meta,
  turn_context, task_started, task_closed, token_count, other_line,
}

-- The parser's variables, and its result so far.
pub record Scan : Type 0 where
  pub rollout_id : String
  pub session_id : String
  pub cwd : String
  pub version : String
  pub provider : String
  pub model : String
  pub prev_total : Option Usage
  pub prev_ms : ℕ
  pub turn : Option OpenTurn
  pub subscription_seen : Bool
  pub seq : ℕ
  pub events : List Event
  pub quotas : List QuotaSnapshot
  pub consumed : ℕ

abbrev pub start : Scan
start = record {
  rollout_id = "";
  session_id = "";
  cwd = "";
  version = "";
  provider = "";
  model = "";
  prev_total = none;
  prev_ms = 0;
  turn = none;
  subscription_seen = false;
  seq = 0;
  events = [];
  quotas = [];
  consumed = 0;
}

-- What a line's own clock says; `none` when its timestamp does not parse.
abbrev pub tick : Option ℕ → Scan → Scan
tick none s = s
tick (some t) s = record s { prev_ms = t }

abbrev pub ms_or_zero : Option ℕ → ℕ
ms_or_zero none = 0
ms_or_zero (some t) = t

abbrev pub or_else : String → String → String
or_else s other = if s == "" then other else s

abbrev pub is_empty_usage : Usage → Bool
is_empty_usage u =
    eqb u.input_tokens 0
    && eqb u.cached_input 0
    && eqb u.output_tokens 0
    && eqb u.reasoning_tokens 0

abbrev pub or_previous : Option Usage → Option Usage → Option Usage
or_previous none previous = previous
or_previous (some u) previous = some u

abbrev pub joined : Option OpenTurn → ℕ → ℕ → Option OpenTurn
joined none i ts = none
joined (some t) i ts = some (record t { idx = t.idx ++ i ∷ []; ts = t.ts ++ ts ∷ [] })

abbrev pub turn_id_of : Option OpenTurn → String
turn_id_of none = ""
turn_id_of (some t) = t.turn_id

-- `min(ts - prevTick, maxSpanMS)` where the clock has moved on.
abbrev pub span_since : ℕ → ℕ → ℕ
span_since before ts = if ltb 0 before && ltb before ts then min (ts - before) max_span_ms else 0

abbrev pub add_limits : String → Option RateLimits → Scan → Scan
add_limits device none s = s
add_limits device (some q) s = record s {
  subscription_seen = plan_evidence q || s.subscription_seen;
  quotas = if ltb 0 s.prev_ms then s.quotas ++ quota_snapshots q device s.prev_ms else s.quotas;
}

-- The first 12 bytes of the SHA-1 digest, in hexadecimal.
module _ (sha1_hex : String → String) where
  unfoldable pub event_id : String → String → ℕ → Usage → String
  unfolding barred
  event_id rollout_id ts seq u = append "cx:" (
      sha1_hex (
        append rollout_id (
          append "|" (
            append ts (
              barred
                (seq ∷ u.input_tokens ∷ u.cached_input ∷ u.output_tokens ∷ u.total_tokens ∷ []))))))

  abbrev pub key_of : Bool → String → Usage → String
  key_of false turn_id u = ""
  key_of true turn_id u = append "cxg:" (
      sha1_hex (
        append turn_id (
          barred (
            u.input_tokens ∷ u.cached_input ∷ u.cache_write_input ∷ u.output_tokens
            ∷ u.reasoning_tokens ∷ u.total_tokens ∷ []))))

  unfoldable pub dedup_key : String → Option Usage → String
  unfolding is_uuid barred
  dedup_key turn_id none = ""
  dedup_key turn_id (some u) = key_of (is_uuid turn_id) turn_id u

  module _ (unmarshal : List ℕ → Option Entry) (clock : String → Option ℕ) (device : String) where
    abbrev pub event_of : Entry → String → ℕ → ℕ → Usage → Option Usage → Scan → Event
    event_of e model before ts u total s =
        let cached = min u.cached_input u.input_tokens in
        record {
          event_id = event_id s.rollout_id e.timestamp s.seq u;
          dedup_key = dedup_key (turn_id_of s.turn) total;
          ts = ts;
          device = device;
          source = source_codex;
          model = or_else model s.model;
          provider = provider_label s.provider;
          account_label = "";
          input_tokens = u.input_tokens - cached;
          output_tokens = u.output_tokens;
          cache_read_tokens = cached;
          cache_creation_tokens = u.cache_write_input;
          cache_1h_tokens = 0;
          cache_5m_tokens = 0;
          duration_ms = span_since before ts;
          gen_ms = 0;
          ttft_ms = 0;
          session_id = s.session_id;
          cwd = s.cwd;
          git_branch = "";
          repo = "";
          app_version = s.version;
        }

    -- The event of a usage, at the line's time; `before` is the clock before the line.
    abbrev pub emit : Entry → String → ℕ → Usage → Option Usage → Scan → Option ℕ → Scan
    emit e model before u total s none = s
    emit e model before u total s (some ts) =
        let s' = record s { seq = suc s.seq } in
        record s' {
          turn = joined s'.turn (length s'.events) ts;
          events = s'.events ++ event_of e model before ts u total s' ∷ [];
        }

    abbrev pub add_usage : Entry → String → ℕ → Option Usage → Scan → Option Usage → Scan
    add_usage e model before total s none = s
    add_usage e model before total s (some u) =
        if is_empty_usage u then s else emit e model before u total s (clock e.timestamp)

    abbrev pub add_info : Entry → ℕ → Option Info → Scan → Scan
    add_info e before none s = s
    add_info e before (some info) s =
        add_usage e info.model before info.total_usage
          (record s { prev_total = or_previous info.total_usage s.prev_total })
          (delta_usage info.last_usage info.total_usage s.prev_total)

    abbrev pub by_kind : LineKind → Entry → ℕ → Scan → Scan
    by_kind session_meta e before s = record s {
      rollout_id = e.payload.rollout_id;
      session_id = e.payload.session_id;
      cwd = e.payload.cwd;
      version = e.payload.cli_version;
      provider = e.payload.model_provider;
      prev_total = none;
    }
    by_kind turn_context e before s = record s {
      model = or_else e.payload.model s.model;
      cwd = or_else e.payload.cwd s.cwd;
    }
    by_kind task_started e before s = record s {
      turn = some (record { turn_id = e.payload.turn_id; idx = []; ts = [] });
    }
    by_kind task_closed e before s =
        let p = e.payload in
        record s {
          turn = none;
          events =
              close_turn (ms_or_zero (clock e.timestamp)) p.completed_at p.duration_ms p.ttft_ms
                s.turn s.events;
        }
    by_kind token_count e before s =
        add_info e before e.payload.info (add_limits device e.payload.rate_limits s)
    by_kind other_line e before s = s

    abbrev pub after_unmarshal : Option Entry → Scan → Scan
    after_unmarshal none s = s
    after_unmarshal (some e) s = by_kind (kind_of e) e s.prev_ms (tick (clock e.timestamp) s)

    unfoldable pub step : List ℕ → Scan → Scan
    unfolding kind_of close_turn delta_usage event_id dedup_key provider_label plan_evidence
        quota_snapshots
    step line s =
        after_unmarshal (unmarshal line) (record s { consumed = s.consumed + length line })

    unfoldable pub scan_lines : List (List ℕ) → Scan → Scan
    unfolding step
    scan_lines [] s = s
    scan_lines (line ∷ lines) s = scan_lines lines (step line s)

    unfoldable pub parse : Option (String → Bool) → List (List ℕ) → Scan
    unfolding scan_lines apply_session_channel
    parse trusted lines =
        let s = scan_lines lines start in
        record s { events = apply_session_channel trusted s.provider s.subscription_seen s.events }

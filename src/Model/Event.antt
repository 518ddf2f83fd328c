-- ===== src/Model/Event.antt =====
-- internal/model/event.go: the unified usage event. Times (unix milliseconds) and counts are
-- natural numbers.
use omni_token.Prelude.{ℕ, ◌+◌, String}

pub record Event : Type 0 where
  pub event_id : String
  pub dedup_key : String
  pub ts : ℕ
  pub device : String
  pub source : String
  pub model : String
  pub provider : String
  pub account_label : String
  pub input_tokens : ℕ
  pub output_tokens : ℕ
  pub cache_read_tokens : ℕ
  pub cache_creation_tokens : ℕ
  pub cache_1h_tokens : ℕ
  pub cache_5m_tokens : ℕ
  pub duration_ms : ℕ
  pub gen_ms : ℕ
  pub ttft_ms : ℕ
  pub session_id : String
  pub cwd : String
  pub git_branch : String
  pub repo : String
  pub app_version : String

unfoldable pub total_tokens : Event → ℕ
total_tokens e = e.input_tokens + e.output_tokens + e.cache_read_tokens + e.cache_creation_tokens

-- ===== src/Model/Snapshot.antt =====
-- internal/model/quota.go and procs.go: quota snapshots and process reports. A percentage is a
-- natural number of millionths of a percent.
use omni_token.Prelude.{ℕ, String, List}

pub record QuotaSnapshot : Type 0 where
  pub device : String
  pub source : String
  pub limit_id : String
  pub scope : String
  pub window_minutes : ℕ
  pub used_percent : ℕ
  pub resets_at : ℕ
  pub observed_at : ℕ
  pub plan_type : String

pub record ProcSession : Type 0 where
  pub pid : ℕ
  pub source : String
  pub started_at : ℕ

pub record ProcReport : Type 0 where
  pub device : String
  pub observed_at : ℕ
  pub sessions : List ProcSession

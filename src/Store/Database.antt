-- ===== src/Store/Database.antt =====
-- internal/store: the tables that a transaction reads and writes, and the JSON documents of
-- `app_settings`.
use omni_token.Prelude.{ℕ, String, List, []}
use omni_token.Model.Snapshot.{QuotaSnapshot}
use omni_token.Model.Envelope.{IngestAckV2}
use omni_token.Store.Events.{Table}

-- A row of `live_sessions`.
pub record LiveSession : Type 0 where
  pub device : String
  pub pid : ℕ
  pub source : String
  pub started_at : ℕ
  pub observed_at : ℕ

-- A row of `live_reports`.
pub record LiveReport : Type 0 where
  pub device : String
  pub observed_at : ℕ

-- A document of `app_settings`: no row or an empty text, a text that does not decode, or a value.
pub data Document {ℓ} (A : Type ℓ) : Type ℓ where
  absent : Document A
  unreadable : Document A
  decoded : A → Document A

pub record DeviceMergeRecord : Type 0 where
  pub from : String
  pub to : String
  pub at : ℕ
  pub actor : String
  pub events : ℕ
  pub quota_snapshots : ℕ
  pub quota_dropped : ℕ
  pub live_rows_dropped : ℕ

pub record Db : Type 0 where
  pub events : Table
  pub quotas : List QuotaSnapshot
  pub live_sessions : List LiveSession
  pub live_reports : List LiveReport
  pub receipts : List IngestAckV2
  pub device_labels : Document (List (String × String))
  pub device_merges : Document (List DeviceMergeRecord)

abbrev pub empty_db : Db
empty_db = record {
  events = [];
  quotas = [];
  live_sessions = [];
  live_reports = [];
  receipts = [];
  device_labels = absent;
  device_merges = absent;
}

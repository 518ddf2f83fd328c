-- ===== src/Store/Merge.antt =====
-- internal/store/devicemerge.go: the preview and the execution of a device identity merge. A
-- failure rolls the transaction back.
pub mod Plan
pub mod Effect
pub mod Report
pub use omni_token.Fallible.{Fallible, ok, err, ◌>>=◌, >>=-eq-ok, Fallible-cases}
use omni_token.Prelude.{
  ℕ, ◌+◌, ◌-◌, String, Bool, true, false, not, ◌&&◌, ◌||◌, Option, none, some, List, [], ◌∷◌, ◌++◌,
  ◌≡◌, refl, ◌==◌, eqb, ltb, is_some, if◌then◌else◌, find_where, count_where, update_where,
  delete_where, select_where, sum_where, length,
}
use omni_token.Model.Event.{Event, total_tokens}
use omni_token.Model.Snapshot.{QuotaSnapshot}
use omni_token.Store.Events.{Row, Table}
use omni_token.Store.Quotas.{same_look}
use omni_token.Store.Database.{
  LiveSession, LiveReport, Document, absent, unreadable, decoded, DeviceMergeRecord, Db,
}

pub data MergeError : Type 0 where
  unknown_identity same_identity unreadable_document constraint aborted : MergeError

abbrev pub Result {ℓ} : Type ℓ → Type ℓ
Result A = Fallible MergeError A

pub record DeviceIdentityStats : Type 0 where
  pub device : String
  pub events : ℕ
  pub total_tokens : ℕ
  pub first_ts : ℕ
  pub last_ts : ℕ
  pub quota_snapshots : ℕ
  pub live_rows : ℕ

pub record DeviceMergePlan : Type 0 where
  pub from : DeviceIdentityStats
  pub to : DeviceIdentityStats
  pub events_moved : ℕ
  pub quota_moved : ℕ
  pub quota_dropped : ℕ
  pub live_rows_dropped : ℕ
  pub label_moved : Bool

abbrev pub event_of : String → Row → Bool
event_of device r = r.device == device

abbrev pub quota_of : String → QuotaSnapshot → Bool
quota_of device q = q.device == device

abbrev pub session_of : String → LiveSession → Bool
session_of device s = s.device == device

abbrev pub report_of : String → LiveReport → Bool
report_of device r = r.device == device

abbrev pub exists_where {ℓ} : {A : Type ℓ} → (A → Bool) → List A → Bool
exists_where p t = is_some (find_where p t)

unfoldable pub device_identity_exists : String → Db → Bool
device_identity_exists device db =
    exists_where (event_of device) db.events
    || exists_where (quota_of device) db.quotas
    || exists_where (session_of device) db.live_sessions
    || exists_where (report_of device) db.live_reports

-- MIN(ts) and MAX(ts) over the rows of a device, 0 without any.
min_ts : List Row → ℕ
min_ts [] = 0
min_ts (r ∷ []) = r.ts
min_ts (r ∷ (q ∷ t)) = let m = min_ts (q ∷ t) in if ltb r.ts m then r.ts else m

max_ts : List Row → ℕ
max_ts [] = 0
max_ts (r ∷ t) = let m = max_ts t in if ltb m r.ts then r.ts else m

unfoldable pub device_identity_stats : String → Db → DeviceIdentityStats
unfolding min_ts max_ts
device_identity_stats device db = record {
  device = device;
  events = count_where (event_of device) db.events;
  total_tokens = sum_where (event_of device) (λ r. total_tokens r.event) db.events;
  first_ts = min_ts (select_where (event_of device) db.events);
  last_ts = max_ts (select_where (event_of device) db.events);
  quota_snapshots = count_where (quota_of device) db.quotas;
  live_rows =
      count_where (session_of device) db.live_sessions
      + count_where (report_of device) db.live_reports;
}

-- A snapshot of `from` whose whole key exists under `to`.
abbrev pub collides : String → String → List QuotaSnapshot → QuotaSnapshot → Bool
collides from to t s = quota_of from s && exists_where (λ q. quota_of to q && same_look s q) t

abbrev pub Labels : Type 0
Labels = List (String × String)

unfoldable pub label_for : String → Labels → Option String
label_for k [] = none
label_for k ((j, v) ∷ m) = if j == k then some v else label_for k m

unfoldable pub delete_label : String → Labels → Labels
delete_label k [] = []
delete_label k ((j, v) ∷ m) = let rest = delete_label k m in if j == k then rest else (j, v) ∷ rest

unfoldable pub set_label : String → String → Labels → Labels
set_label k v [] = (k, v) ∷ []
set_label k v ((j, w) ∷ m) = if j == k then (k, v) ∷ m else (j, w) ∷ set_label k v m

unfoldable pub device_labels : Db → Result Labels
device_labels db = elim db.device_labels [
  | absent ↦ ok []
  | unreadable ↦ err unreadable_document
  | decoded m ↦ ok m
]

unfoldable pub device_merge_history : Db → Result (List DeviceMergeRecord)
device_merge_history db = elim db.device_merges [
  | absent ↦ ok []
  | unreadable ↦ err unreadable_document
  | decoded h ↦ ok h
]

abbrev pub plan_with : String → String → Db → Labels → DeviceMergePlan
plan_with from to db labels =
    let stats = device_identity_stats from db in
    let dropped = count_where (collides from to db.quotas) db.quotas in
    record {
      from = stats;
      to = device_identity_stats to db;
      events_moved = stats.events;
      quota_dropped = dropped;
      quota_moved = stats.quota_snapshots - dropped;
      live_rows_dropped = stats.live_rows;
      label_moved = is_some (label_for from labels) && not (is_some (label_for to labels));
    }

unfoldable pub plan_device_merge : String → String → Db → Result DeviceMergePlan
plan_device_merge from to db =
    if from == "" || to == ""
    then err unknown_identity
    else if from == to
    then err same_identity
    else if not (device_identity_exists from db)
    then err unknown_identity
    else if not (device_identity_exists to db)
    then err unknown_identity
    else do labels ← device_labels db; ok (plan_with from to db labels)

-- `mergeDeviceLabel` on the decoded labels.
unfoldable pub merge_device_label : String → String → Labels → Labels
merge_device_label from to labels = elim (label_for from labels) [
  | none ↦ labels
  | some label ↦
      let rest = delete_label from labels in
      if is_some (label_for to rest) then rest else set_label to label rest
]

abbrev pub to_event : String → Row → Row
to_event to r = record r { event = record r.event { device = to } }

abbrev pub to_quota : String → QuotaSnapshot → QuotaSnapshot
to_quota to q = record q { device = to }

unfoldable pub moved_events : String → String → Table → Table
moved_events from to = update_where (event_of from) (to_event to)

unfoldable pub kept_quotas : String → String → List QuotaSnapshot → List QuotaSnapshot
kept_quotas from to t = delete_where (collides from to t) t

-- The UPDATE is refused if a moved snapshot meets the key of a stored one.
unfoldable pub moved_quotas : String → String → List QuotaSnapshot → Result (List QuotaSnapshot × ℕ)
moved_quotas from to t =
    if exists_where (collides from to t) t
    then err constraint
    else ok (update_where (quota_of from) (to_quota to) t, count_where (quota_of from) t)

abbrev pub agrees : DeviceMergePlan → ℕ → ℕ → ℕ → ℕ → Bool
agrees plan events quotas dropped live =
    eqb events plan.events_moved
    && eqb quotas plan.quota_moved
    && eqb dropped plan.quota_dropped
    && eqb live plan.live_rows_dropped

abbrev pub record_of : String → String → String → ℕ → DeviceMergePlan → DeviceMergeRecord
record_of from to actor at plan = record {
  from = from;
  to = to;
  at = at;
  actor = actor;
  events = plan.events_moved;
  quota_snapshots = plan.quota_moved;
  quota_dropped = plan.quota_dropped;
  live_rows_dropped = plan.live_rows_dropped;
}

-- The state that the statements leave.
abbrev pub merged_db :
    String
    → String
    → DeviceMergeRecord
    → Db
    → List QuotaSnapshot
    → Labels
    → List DeviceMergeRecord
    → Db
merged_db from to entry db quotas labels history = record db {
  events = moved_events from to db.events;
  quotas = quotas;
  live_sessions = delete_where (session_of from) db.live_sessions;
  live_reports = delete_where (report_of from) db.live_reports;
  device_labels =
      (if is_some (label_for from labels)
        then decoded (merge_device_label from to labels)
        else db.device_labels);
  device_merges = decoded (history ++ entry ∷ []);
}

abbrev pub touched_as_planned : String → String → Db → DeviceMergePlan → ℕ → Bool
touched_as_planned from to db plan moved =
    agrees plan (count_where (event_of from) db.events) moved
      (count_where (collides from to db.quotas) db.quotas)
      (count_where (session_of from) db.live_sessions
        + count_where (report_of from) db.live_reports)

-- The comparison of the plan with what the statements touched, and the two documents.
abbrev pub finish_merge :
    String
    → String
    → String
    → ℕ
    → Db
    → DeviceMergePlan
    → List QuotaSnapshot × ℕ
    → Result (DeviceMergePlan × Db)
finish_merge from to actor at db plan (quotas, moved) =
    if not (touched_as_planned from to db plan moved) then err aborted else (do
      labels ← device_labels db
      history ← device_merge_history db
      ok (plan, merged_db from to (record_of from to actor at plan) db quotas labels history))

unfoldable pub merge_device_identity :
    String → String → String → ℕ → Db → Result (DeviceMergePlan × Db)
merge_device_identity from to actor at db = do
  plan ← plan_device_merge from to db
  touched ← moved_quotas from to (kept_quotas from to db.quotas)
  finish_merge from to actor at db plan touched

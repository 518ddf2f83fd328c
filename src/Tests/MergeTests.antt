-- ===== src/Tests/MergeTests.antt =====
-- Tests of Store/Merge.
use omni_token.Prelude.{
  ℕ, ◌+◌, String, Bool, true, false, ◌≡◌, refl, none, some, [], ◌∷◌, length, count_where, sum_where,
  select_where, update_where,
}
use omni_token.Model.Snapshot.{QuotaSnapshot}
use omni_token.Store.Events.{self}
use omni_token.Store.Database.{Db, empty_db}
use omni_token.Store.Merge.{
  Result, ok, DeviceMergePlan, Labels, event_of, quota_of, session_of, report_of, plan_device_merge,
  device_merge_history, merge_device_identity, merged_db, record_of, to_quota, kept_quotas,
}
use omni_token.Store.Merge.Plan.{preview-merge}
use omni_token.Store.Merge.Effect.{tokens_of}
use omni_token.Store.Merge.Report.{merge_events, merge_others}
use omni_token.Tests.Data.{usage, stored}

abbrev look : String → ℕ → QuotaSnapshot
look device at = record {
  device = device;
  source = "codex";
  limit_id = "l";
  scope = "s";
  window_minutes = 300;
  used_percent = 1;
  resets_at = 9;
  observed_at = at;
  plan_type = "";
}

-- The laptop was called "old"; one of its two snapshots collides with the laptop's.
abbrev two_names : Db
two_names = record empty_db {
  events =
      stored self (record (usage "a" "" 3) { device = "old" })
      ∷ stored self (usage "b" "" 5)
      ∷ stored self (record (usage "c" "" 6) { device = "phone" })
      ∷ [];
  quotas = look "old" 1 ∷ look "old" 2 ∷ look "laptop" 2 ∷ [];
}

abbrev plan : DeviceMergePlan
plan = record {
  from = record {
    device = "old";
    events = 1;
    total_tokens = 30;
    first_ts = 3;
    last_ts = 3;
    quota_snapshots = 2;
    live_rows = 0;
  };
  to = record {
    device = "laptop";
    events = 1;
    total_tokens = 30;
    first_ts = 5;
    last_ts = 5;
    quota_snapshots = 1;
    live_rows = 0;
  };
  events_moved = 1;
  quota_moved = 1;
  quota_dropped = 1;
  live_rows_dropped = 0;
  label_moved = false;
}

abbrev one_name : Db
one_name =
    merged_db "old" "laptop" (record_of "old" "laptop" "admin" 50 plan) two_names
      (look "laptop" 1 ∷ look "laptop" 2 ∷ []) [] []

planned : plan_device_merge "old" "laptop" two_names ≡ ok plan
unfolding plan_device_merge omni_token.Store.Merge.device_identity_exists
    omni_token.Prelude.find_where omni_token.Store.Merge.device_labels
    omni_token.Store.Merge.device_identity_stats count_where omni_token.Store.Merge.label_for
    sum_where select_where omni_token.Model.Event.total_tokens
planned = refl

merged : merge_device_identity "old" "laptop" "admin" 50 two_names ≡ ok (plan, one_name)
unfolding merge_device_identity plan_device_merge omni_token.Store.Merge.device_identity_exists
    omni_token.Prelude.find_where omni_token.Store.Merge.device_labels
    omni_token.Store.Merge.moved_quotas kept_quotas omni_token.Prelude.delete_where count_where
    omni_token.Store.Merge.device_identity_stats device_merge_history sum_where select_where
    omni_token.Store.Merge.label_for update_where omni_token.Model.Event.total_tokens
merged = refl

no_history : device_merge_history two_names ≡ ok []
unfolding device_merge_history
no_history = refl

preview-merge_example :
    (labels : Labels) × (merge_device_identity "old" "laptop" "admin" 50 two_names
      ≡ ok (
        plan,
        merged_db "old" "laptop"
            (record_of "old" "laptop" "admin" 50 plan)
            two_names
            (update_where
              (quota_of "old")
              (to_quota "laptop")
              (kept_quotas "old" "laptop" two_names.quotas))
            labels
            [],
      ))
preview-merge_example = preview-merge "old" "laptop" two_names "admin" 50 planned no_history

merge_events_example :
    (length one_name.events ≡ length two_names.events)
    × (count_where (event_of "old") one_name.events ≡ 0)
    × (count_where (event_of "laptop") one_name.events
        ≡ count_where (event_of "laptop") two_names.events
          + count_where (event_of "old") two_names.events)
    × (sum_where (event_of "laptop") tokens_of one_name.events
        ≡ sum_where (event_of "laptop") tokens_of two_names.events
          + sum_where (event_of "old") tokens_of two_names.events)
    × (count_where (session_of "old") one_name.live_sessions ≡ 0)
    × (count_where (report_of "old") one_name.live_reports ≡ 0)
    × (one_name.receipts ≡ two_names.receipts)
merge_events_example = merge_events "old" "laptop" "admin" 50 two_names merged

merge_others_example :
    select_where (event_of "phone") one_name.events
    ≡ select_where (event_of "phone") two_names.events
merge_others_example = merge_others "old" "laptop" "admin" 50 two_names "phone" merged refl refl

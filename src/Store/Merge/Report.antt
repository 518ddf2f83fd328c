-- ===== src/Store/Merge/Report.antt =====
-- internal/store/devicemerge.go: what a merge that returned has done to each table.
use omni_token.Prelude.{
  ℕ, ◌+◌, String, false, List, ◌≡◌, refl, inl, inr, Bool-cases, ◌==◌, count_where,
  count_where-All-false, All-delete_where_self, update_where, select_where, sum_where, length,
  length-update_where,
}
use omni_token.Model.Snapshot.{QuotaSnapshot}
use omni_token.Model.Event.{total_tokens}
use omni_token.Store.Database.{Db, DeviceMergeRecord}
use omni_token.Store.Merge.{
  ok, >>=-eq-ok, DeviceMergePlan, event_of, quota_of, session_of, report_of, to_event, to_quota,
  Labels, device_labels, device_merge_history, plan_device_merge, kept_quotas, moved_quotas,
  moved_events, merge_device_identity, finish_merge, touched_as_planned, merged_db, record_of,
}
use omni_token.Store.Merge.Plan.{plan-Planned, preview-merge}
use omni_token.Store.Merge.Effect.{
  tokens_of, count-moved_from, sum-moved_to, count-moved_to, select-moved_other,
}

-- How a returned state was made.
record Executed (from to : String) (db db' : Db) : Type 0 where
  distinct : (from == to) ≡ false
  labels : Labels
  history : List DeviceMergeRecord
  entry : DeviceMergeRecord
  made :
      merged_db from to entry db
        (update_where (quota_of from) (to_quota to) (kept_quotas from to db.quotas))
        labels
        history
      ≡ db'

module _ (from to actor : String) (at : ℕ) (db : Db) where
  finish-history :
      (plan : DeviceMergePlan) (touched : List QuotaSnapshot × ℕ) {r : DeviceMergePlan × Db}
      → finish_merge from to actor at db plan touched ≡ ok r
      → (history : List DeviceMergeRecord) × (device_merge_history db ≡ ok history)
  finish-history plan (quotas, moved) h =
      elim (Bool-cases (touched_as_planned from to db plan moved)) [
        | inr differs ↦ cc (rw differs at h)
        | inl same ↦
            let (labels, readable, h') = >>=-eq-ok (device_labels db) _ (rw same at h) in
            let (history, past, h'') = >>=-eq-ok (device_merge_history db) _ h' in (history, past)
      ]

  merge-Executed :
      {plan : DeviceMergePlan} {db' : Db}
      → merge_device_identity from to actor at db ≡ ok (plan, db')
      → Executed from to db db'
  unfolding merge_device_identity
  merge-Executed {plan} {db'} h =
      let (plan', planned, touch) = >>=-eq-ok (plan_device_merge from to db) _ h in
      let (touched, moved, finished) = >>=-eq-ok (moved_quotas from to _) _ touch in
      let (history, past) = finish-history plan' touched finished in
      let (labels, result) = preview-merge from to db actor at planned past in
      record {
        distinct = (plan-Planned from to db planned).distinct;
        labels = labels;
        history = history;
        entry = record_of from to actor at plan';
        made = cc (h, result);
      }

module _ (from to actor : String) (at : ℕ) (db : Db) {db' : Db} {plan : DeviceMergePlan} where
  -- A merge that returns has lost no event: `from` has none left, and `to` has the events and the
  -- tokens of both. The process rows of `from` are gone, and no receipt is touched.
  pub merge_events :
      merge_device_identity from to actor at db ≡ ok (plan, db')
      → (length db'.events ≡ length db.events)
        × (count_where (event_of from) db'.events ≡ 0)
        × (count_where (event_of to) db'.events
            ≡ count_where (event_of to) db.events + count_where (event_of from) db.events)
        × (sum_where (event_of to) tokens_of db'.events
            ≡ sum_where (event_of to) tokens_of db.events
              + sum_where (event_of from) tokens_of db.events)
        × (count_where (session_of from) db'.live_sessions ≡ 0)
        × (count_where (report_of from) db'.live_reports ≡ 0)
        × (db'.receipts ≡ db.receipts)
  unfolding moved_events total_tokens
  merge_events h =
      let x = merge-Executed from to actor at db h in
      rw (← x.made) (
        length-update_where (event_of from) (to_event to) db.events,
        count-moved_from from to x.distinct db.events,
        count-moved_to from to x.distinct db.events,
        sum-moved_to from to x.distinct tokens_of db.events (λ r. refl),
        count_where-All-false (session_of from) _ (All-delete_where_self _ db.live_sessions),
        count_where-All-false (report_of from) _ (All-delete_where_self _ db.live_reports),
        refl,
      )

  -- A merge that returns leaves the events of every third device as they were, in order.
  pub merge_others :
      (device : String)
      → merge_device_identity from to actor at db ≡ ok (plan, db')
      → (device == from) ≡ false
      → (device == to) ≡ false
      → select_where (event_of device) db'.events ≡ select_where (event_of device) db.events
  merge_others device h j k =
      let x = merge-Executed from to actor at db h in
      rw (← x.made) (select-moved_other from to x.distinct device db.events j k)

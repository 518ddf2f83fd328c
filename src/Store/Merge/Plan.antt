-- ===== src/Store/Merge/Plan.antt =====
-- internal/store/devicemerge.go: the preview of a merge against its execution.
use omni_token.Prelude.{
  ℕ, ◌+◌, ◌-◌, String, Bool, true, false, ◌&&◌, ◌||◌, none, List, [], ◌∷◌, ◌≡◌, refl, ap, inl, inr,
  arith, All-mono, Bool-cases, eqb_refl, Option-cases, ◌==◌, find_where, count_where, update_where,
  delete_where, find_where-All-false, find_where-none-All, All-delete_where, All-delete_where_self,
}
use omni_token.Model.Snapshot.{QuotaSnapshot}
use omni_token.Store.Quotas.{same_look}
use omni_token.Store.Database.{Db, DeviceMergeRecord}
use omni_token.Store.Merge.{
  ok, >>=-eq-ok, DeviceMergePlan, quota_of, to_quota, collides, exists_where, Labels, device_labels,
  device_merge_history, plan_with, plan_device_merge, kept_quotas, moved_quotas,
  merge_device_identity, device_identity_exists, device_identity_stats, finish_merge, merged_db,
  record_of,
}

-- A row that no longer has a partner in a part of the table had none in the table.
pub find_where-delete_where {ℓ} :
    {A : Type ℓ} (p q : A → Bool) (t : List A)
    → find_where q t ≡ none
    → find_where q (delete_where p t) ≡ none
find_where-delete_where p q t h =
    find_where-All-false q _ (All-delete_where (λ r. q r ≡ false) p t (find_where-none-All q t h))

count_where-delete_where {ℓ} :
    {A : Type ℓ} (p q : A → Bool) (t : List A)
    → ((r : A) → p r ≡ true → q r ≡ true)
    → count_where q (delete_where p t) + count_where p t ≡ count_where q t
unfolding count_where delete_where
count_where-delete_where p q [] k = refl
count_where-delete_where p q (r ∷ t) k = ground (arith, k r, count_where-delete_where p q t k)

kept_count : (k c n : ℕ) → k + c ≡ n → k ≡ n - c
kept_count k c n h = omega arith

module _ (from to : String) where
  pub collides-delete_where :
      (p : QuotaSnapshot → Bool) (t : List QuotaSnapshot) (s : QuotaSnapshot)
      → collides from to t s ≡ false
      → collides from to (delete_where p t) s ≡ false
  collides-delete_where p t s h = elim (Bool-cases (quota_of from s)) [
    | inr other ↦ rw other
    | inl mine ↦ elim (Option-cases (find_where (λ q. quota_of to q && same_look s q) t)) [
      | inl alone ↦ rw (mine, find_where-delete_where p _ t alone)
      | inr (q, met) ↦ cc (rw (mine, met) at h)
    ]
  ]

  -- Once the collisions are deleted, no snapshot collides.
  pub kept-no_collision :
      (t : List QuotaSnapshot)
      → exists_where (collides from to (kept_quotas from to t)) (kept_quotas from to t) ≡ false
  unfolding kept_quotas
  kept-no_collision t = rw (
      find_where-All-false (collides from to (delete_where (collides from to t) t)) _ (
        All-mono (λ s. collides from to t s ≡ false) _ _ (λ s m. collides-delete_where _ t s m)
          (All-delete_where_self (collides from to t) t)))

  pub moved-kept :
      (t : List QuotaSnapshot)
      → moved_quotas from to (kept_quotas from to t)
        ≡ ok (
          update_where (quota_of from) (to_quota to) (kept_quotas from to t),
          count_where (quota_of from) t - count_where (collides from to t) t,
        )
  unfolding moved_quotas kept_quotas
  moved-kept t =
      let both =
        count_where-delete_where (collides from to t) (quota_of from) t
          (λ s (h : collides from to t s ≡ true). ground arith) in
      rw (kept-no_collision t) (
        ap (λ (n : ℕ). ok (update_where (quota_of from) (to_quota to) (kept_quotas from to t), n))
          (kept_count (count_where (quota_of from) (kept_quotas from to t)) _ _ both))

module _ (from to : String) (db : Db) where
  -- What a preview that succeeds has found.
  pub record Planned (plan : DeviceMergePlan) : Type 0 where
    pub labels : Labels
    pub readable : device_labels db ≡ ok labels
    pub numbers : plan_with from to db labels ≡ plan
    pub distinct : (from == to) ≡ false

  pub plan-Planned :
      {plan : DeviceMergePlan} → plan_device_merge from to db ≡ ok plan → Planned plan
  unfolding plan_device_merge
  plan-Planned {plan} h = elim (Bool-cases (from == "" || to == "")) [
    | inl blank ↦ cc (rw blank at h)
    | inr named ↦ elim (Bool-cases (from == to)) [
      | inl same ↦ cc (rw (named, same) at h)
      | inr distinct ↦ elim (Bool-cases (device_identity_exists from db)) [
        | inr unknown ↦ cc (rw (named, distinct, unknown) at h)
        | inl source ↦ elim (Bool-cases (device_identity_exists to db)) [
          | inr unknown ↦ cc (rw (named, distinct, source, unknown) at h)
          | inl target ↦
              let (labels, readable, numbers) =
                >>=-eq-ok (device_labels db) _ (rw (named, distinct, source, target) at h) in
              record { labels = labels; readable = readable; numbers = cc; distinct = distinct }
        ]
      ]
    ]
  ]

  -- The statements touch exactly the rows that the preview counted.
  finish-Planned :
      (actor : String) (at : ℕ) (quotas : List QuotaSnapshot) (labels : Labels)
      (history : List DeviceMergeRecord)
      → device_labels db ≡ ok labels
      → device_merge_history db ≡ ok history
      → let plan = plan_with from to db labels in
        finish_merge from to actor at db plan (
          quotas,
          count_where (quota_of from) db.quotas
              - count_where (collides from to db.quotas) db.quotas,
        )
        ≡ ok (plan, merged_db from to (record_of from to actor at plan) db quotas labels history)
  unfolding device_identity_stats
  finish-Planned actor at quotas labels history readable past = simp eqb_refl (rw (readable, past))

  -- A merge whose preview succeeds and whose audit log decodes is never aborted and never violates
  -- the key of the snapshots: it returns the previewed plan, and the statements' state.
  pub preview-merge :
      (actor : String) (at : ℕ) {plan : DeviceMergePlan} {history : List DeviceMergeRecord}
      → plan_device_merge from to db ≡ ok plan
      → device_merge_history db ≡ ok history
      → (labels : Labels) × (merge_device_identity from to actor at db
          ≡ ok (
            plan,
            merged_db from to
                (record_of from to actor at plan)
                db
                (update_where (quota_of from) (to_quota to) (kept_quotas from to db.quotas))
                labels
                history,
          ))
  unfolding merge_device_identity
  preview-merge actor at {plan} {history} planned past =
      let k = plan-Planned planned in
      (
        k.labels,
        rw (planned, moved-kept from to db.quotas, ← k.numbers)
            (finish-Planned actor at _ k.labels history k.readable past),
      )

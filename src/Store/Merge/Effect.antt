-- ===== src/Store/Merge/Effect.antt =====
-- internal/store/devicemerge.go: the tables after a merge.
use omni_token.Prelude.{
  ℕ, ◌+◌, String, Bool, true, false, ◌&&◌, List, [], ◌∷◌, ◌≡◌, refl, inl, inr, arith, All, All-mono,
  Pairs, Bool-cases, Option-cases, ◌==◌, eq_iff, eq_refl, find_where, count_where, update_where,
  delete_where, select_where, sum_where, All-delete_where_self, count_where-sum,
  find_where-none-All, updated, BothWays, Pairs-updated, Pairs-both_of, Pairs-All,
  Pairs-delete_where, eqb_sym,
}
use omni_token.Model.Event.{total_tokens}
use omni_token.Model.Snapshot.{QuotaSnapshot}
use omni_token.Store.Events.{Row, Table}
use omni_token.Store.Quotas.{same_look, same_key}
use omni_token.Store.Merge.{
  event_of, quota_of, to_event, to_quota, collides, kept_quotas, moved_events,
}
use omni_token.Store.Merge.Plan.{collides-delete_where}

abbrev pub tokens_of : Row → ℕ
tokens_of r = total_tokens r.event

module _ (from to : String) (distinct : (from == to) ≡ false) where
  to_from : (to == from) ≡ false
  to_from = ground (arith, eq_iff from to, eq_iff to from)

  -- No event is left under `from`.
  pub count-moved_from : (t : Table) → count_where (event_of from) (moved_events from to t) ≡ 0
  unfolding moved_events count_where update_where
  count-moved_from [] = refl
  count-moved_from (r ∷ t) = ground (arith, to_from, count-moved_from t)

  -- Any sum over the events of `to` gains the sum over those of `from`.
  pub sum-moved_to :
      (f : Row → ℕ) (t : Table)
      → ((r : Row) → f (to_event to r) ≡ f r)
      → sum_where (event_of to) f (moved_events from to t)
        ≡ sum_where (event_of to) f t + sum_where (event_of from) f t
  unfolding moved_events sum_where update_where
  sum-moved_to f [] k = omega arith
  sum-moved_to f (r ∷ t) k = ground (
    arith,
    eq_refl to,
    k r,
    sum-moved_to f t k,
    eq_iff r.device from,
    eq_iff r.device to,
    distinct,
    eq_iff from to,
  )

  pub count-moved_to :
      (t : Table)
      → count_where (event_of to) (moved_events from to t)
        ≡ count_where (event_of to) t + count_where (event_of from) t
  count-moved_to t =
      rw (count_where-sum (event_of to), count_where-sum (event_of from))
        (rw (count_where-sum (event_of to)) (sum-moved_to (λ r. 1) t (λ r. refl)))

  -- A third device keeps its rows.
  pub select-moved_other :
      (device : String) (t : Table)
      → (device == from) ≡ false
      → (device == to) ≡ false
      → select_where (event_of device) (moved_events from to t) ≡ select_where (event_of device) t
  unfolding moved_events select_where update_where
  select-moved_other device [] h k = refl
  select-moved_other device (r ∷ t) h k = ground (
    arith,
    select-moved_other device t h k,
    eq_iff r.device from,
    eq_iff r.device device,
    eq_iff device from,
    eq_iff to device,
    eq_iff device to,
  )

string_eq_sym : (a b : String) → (a == b) ≡ (b == a)
string_eq_sym a b = ground (arith, eq_iff a b, eq_iff b a)

same_look_sym : (q r : QuotaSnapshot) → same_look q r ≡ same_look r q
same_look_sym q r = simp (
  string_eq_sym r.source q.source,
  string_eq_sym r.limit_id q.limit_id,
  string_eq_sym r.scope q.scope,
  eqb_sym r.window_minutes q.window_minutes,
  eqb_sym r.observed_at q.observed_at,
)

-- The primary key of `quota_snapshots`.
abbrev pub OtherKey : QuotaSnapshot → QuotaSnapshot → Type 0
OtherKey q r = same_key q r ≡ false

module _ (from to : String) (distinct : (from == to) ≡ false) where
  -- A snapshot of `from` meets no snapshot of `to`.
  abbrev Apart : QuotaSnapshot → QuotaSnapshot → Type 0
  Apart s q = (quota_of from s && (quota_of to q && same_look s q)) ≡ false

  abbrev met_by : QuotaSnapshot → QuotaSnapshot → Bool
  met_by s q = quota_of to q && same_look s q

  others-Apart :
      (s : QuotaSnapshot) (u : List QuotaSnapshot) → quota_of from s ≡ false → All (Apart s) u
  others-Apart s [] h = tt
  others-Apart s (q ∷ u) h = (rw h, others-Apart s u h)

  no_collision-Apart :
      (s : QuotaSnapshot) (u : List QuotaSnapshot) → collides from to u s ≡ false → All (Apart s) u
  no_collision-Apart s u h = elim (Bool-cases (quota_of from s)) [
    | inr other ↦ others-Apart s u other
    | inl mine ↦ elim (Option-cases (find_where (met_by s) u)) [
      | inl alone ↦
          All-mono (λ q. met_by s q ≡ false) (Apart s) u (λ q m. rw mine m)
            (find_where-none-All (met_by s) u alone)
      | inr (q, met) ↦ cc (rw (mine, met) at h)
    ]
  ]

  move : QuotaSnapshot → QuotaSnapshot
  move = updated OtherKey OtherKey (quota_of from) (to_quota to)

  moved-OtherKey :
      (r q : QuotaSnapshot) → OtherKey r q × BothWays Apart r q → OtherKey (move r) (move q)
  unfolding move
  moved-OtherKey r q (other, (a, b)) = elim (Bool-cases (quota_of from r)) [
    | inl r_from ↦ elim (Bool-cases (quota_of from q)) [
      | inl q_from ↦
          let together : (q.device == r.device) ≡ true =
            ground (arith, eq_iff r.device from, eq_iff q.device from, eq_iff q.device r.device) in
          rw (r_from, q_from, eq_refl to) (rw together at other)
      | inr q_other ↦ rw (r_from, q_other) (rw r_from at a)
    ]
    | inr r_other ↦ elim (Bool-cases (quota_of from q)) [
      | inl q_from ↦
          rw (r_other, q_from, string_eq_sym to r.device, same_look_sym r q) (rw q_from at b)
      | inr q_other ↦ rw (r_other, q_other) other
    ]
  ]

  -- The UPDATE keeps the primary key: no two snapshots have one key afterwards.
  pub Pairs-moved :
      (t : List QuotaSnapshot)
      → Pairs OtherKey t
      → Pairs OtherKey (update_where (quota_of from) (to_quota to) (kept_quotas from to t))
  unfolding kept_quotas move
  Pairs-moved t h =
      let kept = delete_where (collides from to t) t in
      let clear =
        All-mono (λ s. collides from to t s ≡ false) (λ s. All (Apart s) kept) kept
          (λ s m. no_collision-Apart s kept (collides-delete_where from to _ t s m))
          (All-delete_where_self (collides from to t) t) in
      Pairs-updated (λ r q. OtherKey r q × BothWays Apart r q) OtherKey (quota_of from)
        (to_quota to) kept moved-OtherKey
        (Pairs-both_of OtherKey (BothWays Apart) kept
          (Pairs-delete_where OtherKey (collides from to t) t h) (Pairs-All Apart kept clear))

-- ===== src/Store/Quotas/Again.antt =====
-- internal/store/ingestv2.go: `insertQuotasTx` counts what it inserts, and a second delivery of the
-- same snapshots.
use omni_token.Prelude.{
  ◌+◌, ◌≤◌, true, List, [], ◌∷◌, ◌≡◌, refl, inl, inr, arith, Bool-cases, is_some, eqb_refl, eq_refl,
  find_where, length, All,
}
use omni_token.Model.Snapshot.{QuotaSnapshot}
use omni_token.Store.Quotas.{same_key, insert_quota, insert_quotas_tx}

-- The snapshot's key is taken.
abbrev IsTaken : List QuotaSnapshot → QuotaSnapshot → Type 0
IsTaken t q = is_some (find_where (same_key q) t) ≡ true

same_key_refl : (q : QuotaSnapshot) → same_key q q ≡ true
same_key_refl q =
    rw
      (
        eq_refl q.device,
        eq_refl q.source,
        eq_refl q.limit_id,
        eq_refl q.scope,
        eqb_refl q.window_minutes,
        eqb_refl q.observed_at,
      )
      refl

IsTaken-cons : (q r : QuotaSnapshot) (t : List QuotaSnapshot) → IsTaken t q → IsTaken (r ∷ t) q
unfolding find_where
IsTaken-cons q r t h = elim (Bool-cases (same_key q r)) [
  | inl same ↦ rw same refl
  | inr other ↦ rw other h
]

insert_quota-IsTaken :
    (q r : QuotaSnapshot) (t : List QuotaSnapshot) → IsTaken t q → IsTaken (insert_quota r t).0 q
unfolding insert_quota
insert_quota-IsTaken q r t h = elim (Bool-cases (is_some (find_where (same_key r) t))) [
  | inl taken ↦ rw taken h
  | inr fresh ↦ rw fresh (IsTaken-cons q r t h)
]

insert_quota-IsTaken_self :
    (q : QuotaSnapshot) (t : List QuotaSnapshot) → IsTaken (insert_quota q t).0 q
unfolding insert_quota find_where
insert_quota-IsTaken_self q t = elim (Bool-cases (is_some (find_where (same_key q) t))) [
  | inl taken ↦ rw taken taken
  | inr fresh ↦ rw (fresh, same_key_refl q) refl
]

insert_quotas-IsTaken :
    (q : QuotaSnapshot) (qs t : List QuotaSnapshot)
    → IsTaken t q
    → IsTaken (insert_quotas_tx qs t).0 q
unfolding insert_quotas_tx
insert_quotas-IsTaken q [] t h = h
insert_quotas-IsTaken q (r ∷ qs) t h =
    insert_quotas-IsTaken q qs (insert_quota r t).0 (insert_quota-IsTaken q r t h)

insert_quotas-All-IsTaken : (qs t : List QuotaSnapshot) → All (IsTaken (insert_quotas_tx qs t).0) qs
unfolding insert_quotas_tx
insert_quotas-All-IsTaken [] t = tt
insert_quotas-All-IsTaken (q ∷ qs) t = (
  insert_quotas-IsTaken q qs (insert_quota q t).0 (insert_quota-IsTaken_self q t),
  insert_quotas-All-IsTaken qs (insert_quota q t).0,
)

insert_quotas_none :
    (qs t : List QuotaSnapshot) → All (IsTaken t) qs → insert_quotas_tx qs t ≡ (t, 0)
unfolding insert_quotas_tx insert_quota
insert_quotas_none [] t h = refl
insert_quotas_none (q ∷ qs) t h =
    let rest : insert_quotas_tx qs t ≡ (t, 0) = insert_quotas_none qs t h.1 in rw (h.0, rest) refl

insert_quota-counts :
    (q : QuotaSnapshot) (t : List QuotaSnapshot)
    → (length (insert_quota q t).0 ≡ length t + (insert_quota q t).1) × ((insert_quota q t).1 ≤ 1)
unfolding insert_quota
insert_quota-counts q t = elim (Bool-cases (is_some (find_where (same_key q) t))) [
  | inl taken ↦ rw taken (omega arith, omega arith)
  | inr fresh ↦ rw fresh (omega arith, omega arith)
]

insert_quotas-counts :
    (qs t : List QuotaSnapshot)
    → (length (insert_quotas_tx qs t).0 ≡ length t + (insert_quotas_tx qs t).1)
      × ((insert_quotas_tx qs t).1 ≤ length qs)
unfolding insert_quotas_tx
insert_quotas-counts [] t = (omega arith, omega arith)
insert_quotas-counts (q ∷ qs) t =
    let (one, small) = insert_quota-counts q t in
    let (more, bound) = insert_quotas-counts qs (insert_quota q t).0 in
    (omega (arith, one, more), omega (arith, small, bound))

-- Each snapshot that is counted as inserted is one more row, no more are counted than were sent,
-- and a second delivery of the same snapshots inserts none and leaves the table as it is.
insert_quotas_again :
    (qs t : List QuotaSnapshot)
    → let (t', n) = insert_quotas_tx qs t in
      (length t' ≡ length t + n) × (n ≤ length qs) × (insert_quotas_tx qs t' ≡ (t', 0))
insert_quotas_again qs t = (
  (insert_quotas-counts qs t).0,
  (insert_quotas-counts qs t).1,
  insert_quotas_none qs _ (insert_quotas-All-IsTaken qs t),
)

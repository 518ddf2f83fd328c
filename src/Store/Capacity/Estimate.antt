-- ===== src/Store/Capacity/Estimate.antt =====
-- internal/store/capacity.go: where the estimate stands among the capacities it is drawn from.
use omni_token.Prelude.{
  ℕ, zero, suc, ◌+◌, ◌/◌, ◌≤◌, ◌<◌, String, Bool, some, List, [], ◌∷◌, ◌≡◌, refl, ap, ◌∙◌, inl, inr,
  arith, All, All-mono, Bool-cases, ltb, leb, ltb→lt, if◌then◌else◌, length, count_where, of_some,
}
use omni_token.Store.Capacity.{
  Samples, capacity_min_peak, capacity_window_memory, capacity_min_samples, capacity_samples,
  insert_sorted, sort_caps, cap_at, positive_caps, estimate_from, capacity_estimate,
}

abbrev pub below : ℕ → ℕ → Bool
below v n = ltb n v

abbrev pub not_above : ℕ → ℕ → Bool
not_above v n = leb n v

count_insert_sorted :
    (p : ℕ → Bool) (n : ℕ) (ms : List ℕ)
    → count_where p (insert_sorted n ms) ≡ count_where p (n ∷ ms)
unfolding insert_sorted count_where
count_insert_sorted p n [] = refl
count_insert_sorted p n (m ∷ ms) = ground (arith, count_insert_sorted p n ms)

count_where-sort_caps :
    (p : ℕ → Bool) (ns : List ℕ) → count_where p (sort_caps ns) ≡ count_where p ns
unfolding sort_caps count_where
count_where-sort_caps p [] = refl
count_where-sort_caps p (n ∷ ns) =
    count_insert_sorted p n (sort_caps ns)
    ∙ ap (λ k. (if p n then 1 else 0) + k) (count_where-sort_caps p ns)

abbrev IsSorted : List ℕ → Type 0
IsSorted [] = Unit
IsSorted (n ∷ ns) = All (λ m. n ≤ m) ns × IsSorted ns

All-insert_sorted :
    (k n : ℕ) (ms : List ℕ) → k ≤ n → All (λ m. k ≤ m) ms → All (λ m. k ≤ m) (insert_sorted n ms)
unfolding insert_sorted
All-insert_sorted k n [] h all = (h, tt)
All-insert_sorted k n (m ∷ ms) h all = elim (Bool-cases (ltb m n)) [
  | inl less ↦ rw less (all.0, All-insert_sorted k n ms h all.1)
  | inr more ↦ rw more (h, all)
]

insert_sorted-IsSorted : (n : ℕ) (ms : List ℕ) → IsSorted ms → IsSorted (insert_sorted n ms)
unfolding insert_sorted
insert_sorted-IsSorted n [] h = (tt, tt)
insert_sorted-IsSorted n (m ∷ ms) h = elim (Bool-cases (ltb m n)) [
  | inl less ↦
      let low = ltb→lt m n less in
      rw less (All-insert_sorted m n ms (omega (arith, low)) h.0, insert_sorted-IsSorted n ms h.1)
  | inr more ↦
      let high : n ≤ m = ground arith in
      rw more ((high, All-mono _ _ ms (λ k low. omega (arith, low, high)) h.0), h)
]

sort_caps-IsSorted : (ns : List ℕ) → IsSorted (sort_caps ns)
unfolding sort_caps
sort_caps-IsSorted [] = tt
sort_caps-IsSorted (n ∷ ns) = insert_sorted-IsSorted n (sort_caps ns) (sort_caps-IsSorted ns)

length-insert_sorted : (n : ℕ) (ms : List ℕ) → length (insert_sorted n ms) ≡ suc (length ms)
unfolding insert_sorted
length-insert_sorted n [] = refl
length-insert_sorted n (m ∷ ms) = ground (arith, length-insert_sorted n ms)

length-sort_caps : (ns : List ℕ) → length (sort_caps ns) ≡ length ns
unfolding sort_caps
length-sort_caps [] = refl
length-sort_caps (n ∷ ns) =
    omega (arith, length-insert_sorted n (sort_caps ns), length-sort_caps ns)

none_below : (v : ℕ) (ns : List ℕ) → All (λ n. v ≤ n) ns → count_where (below v) ns ≡ 0
unfolding count_where
none_below v [] h = refl
none_below v (n ∷ ns) h = ground (arith, none_below v ns)

above_all : (v : ℕ) (ns : List ℕ) → All (λ m. v ≤ m) ns → (i : ℕ) → i < length ns → v ≤ cap_at i ns
above_all v [] h i bound = omega (arith, bound)
above_all v (n ∷ ns) h zero bound = h.0
above_all v (n ∷ ns) h (suc i) bound = above_all v ns h.1 i (omega (arith, bound))

-- The element at a place of a sorted list: at most that many are below it, and more are not above it.
rank :
    (ns : List ℕ) (i : ℕ)
    → IsSorted ns
    → i < length ns
    → (count_where (below (cap_at i ns)) ns ≤ i)
      × (suc i ≤ count_where (not_above (cap_at i ns)) ns)
unfolding count_where
rank [] i h bound = absurd (omega (arith, bound))
rank (n ∷ ns) zero h bound =
    let none_less = none_below n ns h.0 in (ground (arith, none_less), ground arith)
rank (n ∷ ns) (suc i) h bound =
    let (low, high) = rank ns i h.1 (omega (arith, bound)) in
    let above = above_all n ns h.0 i (omega (arith, bound)) in
    (ground (arith, low), ground (arith, high, above))

module _ (quotient : ℕ → ℕ → ℕ) where
  -- What the estimate is drawn from: the capacities of the recent windows that got far enough.
  abbrev pub recent_caps : String → String → ℕ → Samples → List ℕ
  recent_caps source scope minutes t =
      positive_caps quotient
        (capacity_samples source scope minutes capacity_min_peak capacity_window_memory t)

  estimate_from-rank :
      (caps : List ℕ) (v : ℕ)
      → estimate_from quotient caps ≡ some v
      → (capacity_min_samples ≤ length caps)
        × (count_where (below v) caps ≤ length caps / 4)
        × (length caps / 4 < count_where (not_above v) caps)
  estimate_from-rank caps v h = elim (Bool-cases (ltb (length caps) capacity_min_samples)) [
    | inl few ↦ absurd (cc (rw few at h))
    | inr many ↦
        let enough : 3 ≤ length caps = ground arith in
        let same : cap_at (length caps / 4) (sort_caps caps) ≡ v = of_some (rw many at h) in
        let (low, high) =
          rank (sort_caps caps) (length caps / 4) (sort_caps-IsSorted caps)
            (omega (arith, length-sort_caps caps, enough)) in
        (
          enough,
          rw same at (
              rw (count_where-sort_caps (below (cap_at (length caps / 4) (sort_caps caps))) caps) at
                low),
          rw same at (
              rw
                (count_where-sort_caps (not_above (cap_at (length caps / 4) (sort_caps caps))) caps)
                at high),
        )
  ]

  -- An estimate is offered only from three capacities or more. It is one of them, at their first
  -- quarter: at most a quarter of them are below it, and more than a quarter are not above it.
  pub capacity_estimate-rank :
      (source scope : String) (minutes : ℕ) (t : Samples) (v : ℕ)
      → capacity_estimate quotient source scope minutes t ≡ some v
      → (capacity_min_samples ≤ length (recent_caps source scope minutes t))
        × (count_where (below v) (recent_caps source scope minutes t)
            ≤ length (recent_caps source scope minutes t) / 4)
        × (length (recent_caps source scope minutes t) / 4
            < count_where (not_above v) (recent_caps source scope minutes t))
  unfolding capacity_estimate
  capacity_estimate-rank source scope minutes t v h =
      let samples =
        capacity_samples source scope minutes capacity_min_peak capacity_window_memory t in
      elim (Bool-cases (ltb (length samples) capacity_min_samples)) [
        | inl few ↦ absurd (cc (rw few at h))
        | inr many ↦ estimate_from-rank (recent_caps source scope minutes t) v (rw many at h)
      ]

-- ===== src/Store/Capacity/Peaks.antt =====
-- internal/store/capacity.go: a window's sample is the first of its readings at the highest
-- percentage, by whichever way they came.
use omni_token.Prelude.{
  ℕ, Bool, true, false, ◌&&◌, ◌||◌, Option, none, some, List, [], ◌∷◌, ◌==◌, ◌≡◌, refl, sym, ap,
  ◌∙◌, inl, inr, arith, Bool-cases, Option-cases, eq_iff, eq_refl, ltb, eqb, is_some, if◌then◌else◌,
  find_where, update_where,
}
use omni_token.Model.Snapshot.{QuotaSnapshot}
use omni_token.Store.Events.{Table}
use omni_token.Store.Capacity.{
  CapacityObservation, CapacityRow, Samples, WindowKey, window_key, is_window, row_of, raised,
  is_raised, upsert, is_unusable, observe_capacity, observation_of, is_covered,
  observe_capacity_from_quota,
}

unfoldable pub same_key : WindowKey → WindowKey → Bool
same_key k l =
    k.source == l.source
    && k.scope == l.scope
    && eqb k.window_minutes l.window_minutes
    && eqb k.window_id l.window_id

-- The better of a sample and a reading: the reading, if its percentage is higher.
abbrev pub better : ℕ → CapacityObservation → Option CapacityRow → Option CapacityRow
better now o none = some (row_of now o)
better now o (some r) = some (if ltb r.peak_percent o.used_percent then raised now o r else r)

-- Two different windows have no row in common.
apart :
    (k l : WindowKey) (r : CapacityRow)
    → same_key k l ≡ false
    → is_window l r ≡ true
    → is_window k r ≡ false
unfolding is_window same_key
apart k l r h here = ground (
  arith,
  eq_iff r.source k.source,
  eq_iff r.scope k.scope,
  eq_iff r.source l.source,
  eq_iff r.scope l.scope,
  eq_iff k.source l.source,
  eq_iff k.scope l.scope,
)

both : (a b : Bool) → (a && b) ≡ true → a ≡ true
both true b h = refl
both false b h = cc

is_window-raised :
    (now : ℕ) (o : CapacityObservation) (k : WindowKey) (r : CapacityRow)
    → is_window k (raised now o r) ≡ is_window k r
unfolding is_window
is_window-raised now o k r = refl

find_where-raised :
    (now : ℕ) (o : CapacityObservation) (t : Samples)
    → is_some (find_where (is_window (window_key o)) t) ≡ true
    → find_where (is_window (window_key o)) (update_where (is_raised o) (raised now o) t)
      ≡ better now o (find_where (is_window (window_key o)) t)
unfolding find_where update_where is_window
find_where-raised now o [] h = cc
find_where-raised now o (r ∷ t) h = ground (arith, find_where-raised now o t)

find_where-other :
    (now : ℕ) (o : CapacityObservation) (k : WindowKey) (t : Samples)
    → same_key k (window_key o) ≡ false
    → find_where (is_window k) (update_where (is_raised o) (raised now o) t)
      ≡ find_where (is_window k) t
unfolding find_where update_where
find_where-other now o k [] h = refl
find_where-other now o k (r ∷ t) h = elim (Bool-cases (is_raised o r)) [
  | inl up ↦
      let here : is_window (window_key o) r ≡ true = both (is_window (window_key o) r) _ up in
      let other = apart k (window_key o) r h here in
      rw (up, is_window-raised now o k r, other) (find_where-other now o k t h)
  | inr down ↦
      rw down (ap (λ x. if is_window k r then some r else x) (find_where-other now o k t h))
]

same_key-eq : (k l : WindowKey) → same_key k l ≡ true → k ≡ l
unfolding same_key
same_key-eq k l h =
    let source : k.source ≡ l.source = ground (arith, eq_iff k.source l.source) in
    let scope : k.scope ≡ l.scope = ground (arith, eq_iff k.scope l.scope) in
    let minutes : k.window_minutes ≡ l.window_minutes = ground arith in
    let id : k.window_id ≡ l.window_id = ground arith in
    λ i. record { source = source i; scope = scope i; window_minutes = minutes i; window_id = id i }

is_window-row_of :
    (now : ℕ) (o : CapacityObservation) → is_window (window_key o) (row_of now o) ≡ true
unfolding is_window
is_window-row_of now o = ground (arith, eq_refl o.source, eq_refl o.scope)

upsert_same :
    (now : ℕ) (o : CapacityObservation) (t : Samples)
    → find_where (is_window (window_key o)) (upsert now o t)
      ≡ better now o (find_where (is_window (window_key o)) t)
unfolding upsert find_where
upsert_same now o t = elim (Option-cases (find_where (is_window (window_key o)) t)) [
  | inl absent ↦ rw (absent, is_window-row_of now o) refl
  | inr (r, present) ↦
      let held : is_some (find_where (is_window (window_key o)) t) ≡ true = rw present refl in
      rw held (find_where-raised now o t held)
]

upsert_other :
    (now : ℕ) (o : CapacityObservation) (k : WindowKey) (t : Samples)
    → same_key k (window_key o) ≡ false
    → find_where (is_window k) (upsert now o t) ≡ find_where (is_window k) t
unfolding upsert find_where
upsert_other now o k t other =
    elim (Bool-cases (is_some (find_where (is_window (window_key o)) t))) [
      | inl present ↦ rw present (find_where-other now o k t other)
      | inr absent ↦
          rw (absent, apart k (window_key o) (row_of now o) other (is_window-row_of now o)) refl
    ]

-- What a window's sample becomes at a reading.
abbrev pub next_sample :
    WindowKey → ℕ → CapacityObservation → Option CapacityRow → Option CapacityRow
next_sample k now o sample =
    if is_unusable o
    then sample
    else if same_key k (window_key o)
    then better now o sample
    else sample

upsert-next :
    (now : ℕ) (o : CapacityObservation) (k : WindowKey) (t : Samples)
    → find_where (is_window k) (upsert now o t) ≡ (
        if same_key k (window_key o)
        then better now o (find_where (is_window k) t)
        else find_where (is_window k) t)
unfolding upsert
upsert-next now o k t = elim (Bool-cases (same_key k (window_key o))) [
  | inl same ↦ rw (same, same_key-eq k (window_key o) same) (upsert_same now o t)
  | inr other ↦ rw other (upsert_other now o k t other)
]

observe_capacity-next :
    (now : ℕ) (o : CapacityObservation) (k : WindowKey) (t : Samples)
    → find_where (is_window k) (observe_capacity now o t)
      ≡ next_sample k now o (find_where (is_window k) t)
unfolding observe_capacity
observe_capacity-next now o k t = elim (Bool-cases (is_unusable o)) [
  | inl blank ↦ rw blank refl
  | inr usable ↦ rw usable (upsert-next now o k t)
]

covered-better :
    (now : ℕ) (q : QuotaSnapshot) (o : CapacityObservation) (sample : Option CapacityRow)
    → o.used_percent ≡ q.used_percent
    → is_covered q sample ≡ true
    → better now o sample ≡ sample
covered-better now q o none same h = cc
covered-better now q o (some r) same h =
    let low : ltb r.peak_percent o.used_percent ≡ false = ground arith in rw low refl

-- A reading that the stored peak covers would have changed nothing.
covered-next :
    (now : ℕ) (q : QuotaSnapshot) (o : CapacityObservation) (k : WindowKey) (t : Samples)
    → o.used_percent ≡ q.used_percent
    → is_covered q (find_where (is_window (window_key o)) t) ≡ true
    → next_sample k now o (find_where (is_window k) t) ≡ find_where (is_window k) t
covered-next now q o k t same h = elim (Bool-cases (is_unusable o)) [
  | inl blank ↦ rw blank refl
  | inr usable ↦ elim (Bool-cases (same_key k (window_key o))) [
    | inl here ↦
        rw (usable, here, same_key-eq k (window_key o) here)
          (covered-better now q o (find_where (is_window (window_key o)) t) same h)
    | inr there ↦ rw (usable, there) refl
  ]
]

unusable-next :
    (now : ℕ) (o : CapacityObservation) (k : WindowKey) (sample : Option CapacityRow)
    → (eqb o.resets_at 0 || eqb o.used_percent 0 || eqb o.window_minutes 0) ≡ true
    → next_sample k now o sample ≡ sample
unusable-next now o k sample h = let blank : is_unusable o ≡ true = ground arith in rw blank refl

from_quota-next :
    (clock now : ℕ) (events : Table) (q : QuotaSnapshot) (k : WindowKey) (t : Samples)
    → find_where (is_window k) (observe_capacity_from_quota clock now events q t)
      ≡ next_sample k clock (observation_of q now events) (find_where (is_window k) t)
unfolding observe_capacity_from_quota
from_quota-next clock now events q k t =
    let o = observation_of q now events in
    elim (Bool-cases (eqb q.resets_at 0 || eqb q.used_percent 0 || eqb q.window_minutes 0)) [
      | inl blank ↦ rw blank (sym (unusable-next clock o k (find_where (is_window k) t) blank))
      | inr usable ↦ elim (Bool-cases (is_covered q (find_where (is_window (window_key o)) t))) [
        | inl covered ↦ rw (usable, covered) (sym (covered-next clock q o k t refl covered))
        | inr higher ↦ rw (usable, higher) (observe_capacity-next clock o k t)
      ]
    ]

-- A reading of a window, direct or through a quota snapshot, with the clock of its write.
pub data Reading : Type 0 where
  live_reading : ℕ → CapacityObservation → Reading
  quota_reading : ℕ → ℕ → Table → QuotaSnapshot → Reading

unfoldable pub read : Reading → Samples → Samples
unfolding observe_capacity observe_capacity_from_quota
read (live_reading now o) t = observe_capacity now o t
read (quota_reading clock now events q) t = observe_capacity_from_quota clock now events q t

unfoldable pub read_all : List Reading → Samples → Samples
unfolding read
read_all [] t = t
read_all (r ∷ rs) t = read_all rs (read r t)

-- The same readings, seen by one window alone.
abbrev pub best_of : WindowKey → List Reading → Option CapacityRow → Option CapacityRow
best_of k [] sample = sample
best_of k (live_reading now o ∷ rs) sample = best_of k rs (next_sample k now o sample)
best_of k (quota_reading clock now events q ∷ rs) sample =
    best_of k rs (next_sample k clock (observation_of q now events) sample)

-- Whatever the readings, direct or through quota snapshots, each window's sample is the one that the
-- readings of that window alone leave, where a reading counts if it is usable and its percentage is
-- higher than all before it: peaks never fall, windows do not disturb each other, and leaving out the
-- sum of events at a covered percentage changes nothing.
pub read_all-best_of :
    (k : WindowKey) (rs : List Reading) (t : Samples)
    → find_where (is_window k) (read_all rs t) ≡ best_of k rs (find_where (is_window k) t)
unfolding read_all
read_all-best_of k [] t = refl
read_all-best_of k (live_reading now o ∷ rs) t =
    read_all-best_of k rs (observe_capacity now o t)
    ∙ ap (λ s. best_of k rs s) (observe_capacity-next now o k t)
read_all-best_of k (quota_reading clock now events q ∷ rs) t =
    read_all-best_of k rs (observe_capacity_from_quota clock now events q t)
    ∙ ap (λ s. best_of k rs s) (from_quota-next clock now events q k t)

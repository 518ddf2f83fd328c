-- ===== src/SiteAuth/Attempts.antt =====
-- internal/siteauth/auth.go: what allowAttempt lets through.
use omni_token.Prelude.{
  count_where, min, ℕ, suc, ◌+◌, ◌-◌, ◌<◌, String, Bool, false, Option, none, some, List, [], ◌∷◌,
  ◌≡◌, refl, ◌==◌, eq_refl, eq_iff, leb, ◌&&◌, inl, inr, arith, Bool-cases, length, find_where,
  update_where, delete_where, if◌then◌else◌, All, ap, ◌∙◌, sym, of_some, subst,
}
use omni_token.SiteAuth.{Attempt, is_old, is_key, attempted, at_attempt, allow_attempt, minute_ns}

-- How many of the calls for a key are let through.
unfoldable pub allowed : String → List (String × ℕ) → List Attempt → ℕ
unfolding allow_attempt
allowed key [] attempts = 0
allowed key ((k, now) ∷ calls) attempts =
    (if k == key && (allow_attempt k now attempts).1 then 1 else 0)
    + allowed key calls (allow_attempt k now attempts).0

found_updated :
    (key : String) (t : List Attempt) (v : Attempt)
    → find_where (is_key key) t ≡ some v
    → find_where (is_key key) (update_where (is_key key) attempted t) ≡ some (attempted v)
unfolding find_where update_where
found_updated key [] v h = cc
found_updated key (r ∷ t) v h = elim (Bool-cases (r.key == key)) [
  | inl hit ↦ rw (hit, hit) (ap (λ w. some (attempted w)) (of_some (rw hit at h)))
  | inr miss ↦ rw (miss, miss) (found_updated key t v (rw miss at h))
]

found_other :
    (key k : String) (t : List Attempt)
    → (k == key) ≡ false
    → find_where (is_key key) (update_where (is_key k) attempted t) ≡ find_where (is_key key) t
unfolding find_where update_where
found_other key k [] other = refl
found_other key k (r ∷ t) other = elim (Bool-cases (r.key == k)) [
  | inl hit ↦
      let miss : (r.key == key) ≡ false = rw ((eq_iff r.key k).0 hit) other in
      rw (hit, miss) (found_other key k t other)
  | inr miss ↦ elim (Bool-cases (r.key == key)) [
    | inl here ↦ rw (miss, here) refl
    | inr there ↦ rw (miss, there) (found_other key k t other)
  ]
]

-- Attempts that are live stay; the key's own is one of them while its minute lasts.
found_live :
    (key : String) (now : ℕ) (t : List Attempt) (v : Attempt)
    → find_where (is_key key) t ≡ some v
    → is_old now v ≡ false
    → find_where (is_key key) (delete_where (is_old now) t) ≡ some v
unfolding find_where delete_where
found_live key now [] v h young = cc
found_live key now (r ∷ t) v h young = elim (Bool-cases (r.key == key)) [
  | inl hit ↦
      let same : r ≡ v = of_some (rw hit at h) in
      let live : is_old now r ≡ false = subst (λ w. is_old now w ≡ false) (sym same) young in
      rw (live, hit) (ap some same)
  | inr miss ↦ elim (Bool-cases (is_old now r)) [
    | inl old ↦ rw old (found_live key now t v (rw miss at h) young)
    | inr live ↦ rw (live, miss) (found_live key now t v (rw miss at h) young)
  ]
]

-- Another key's attempt leaves the key's own as it is.
other-kept :
    (key k : String) (now : ℕ) (o : Option Attempt) (live : List Attempt) (v : Attempt)
    → (k == key) ≡ false
    → find_where (is_key key) live ≡ some v
    → find_where (is_key key) (at_attempt k now o live).0 ≡ some v
unfolding find_where
other-kept key k now none live v other h = elim (Bool-cases (leb 4096 (length live))) [
  | inl full ↦ rw full h
  | inr room ↦ rw (room, other) h
]
other-kept key k now (some w) live v other h = found_other key k live other ∙ h

abbrev pub is_for : String → String × ℕ → Bool
is_for key call = call.0 == key

allowed-live :
    (key : String) (calls : List (String × ℕ)) (attempts : List Attempt) (v : Attempt)
    → find_where (is_key key) attempts ≡ some v
    → All (λ call. call.1 < v.start + minute_ns) calls
    → allowed key calls attempts ≡ min (20 - v.count) (count_where (is_for key) calls)
unfolding allowed allow_attempt count_where
allowed-live key [] attempts v h soon = omega arith
allowed-live key ((k, now) ∷ calls) attempts v h (first, later) =
    let young : is_old now v ≡ false = ground arith in
    let there = found_live key now attempts v h young in
    elim (Bool-cases (k == key)) [
      | inl same ↦
          let named = (eq_iff k key).0 same in
          let next =
            allowed-live key calls
              (update_where (is_key key) attempted (delete_where (is_old now) attempts))
              (attempted v) (found_updated key (delete_where (is_old now) attempts) v there)
              later in
          rw (named, there, eq_refl key) (ground (arith, next))
      | inr other ↦
          let live = delete_where (is_old now) attempts in
          let next =
            allowed-live key calls (at_attempt k now (find_where (is_key k) live) live).0 v
              (other-kept key k now (find_where (is_key k) live) live v other there) later in
          rw other (omega (arith, next))
    ]

-- A minute that begins with a call for a key without a live entry, while fewer than 4096 keys have
-- one: of the key's calls in that minute exactly the first twenty are let through, whatever other
-- keys' calls come between them.
pub allowed-minute :
    (key : String) (start : ℕ) (calls : List (String × ℕ)) (attempts : List Attempt)
    → find_where (is_key key) (delete_where (is_old start) attempts) ≡ none
    → length (delete_where (is_old start) attempts) < 4096
    → All (λ call. call.1 < start + minute_ns) calls
    → allowed key ((key, start) ∷ calls) attempts ≡ min 20 (suc (count_where (is_for key) calls))
unfolding allowed allow_attempt find_where
allowed-minute key start calls attempts absent room soon =
    let live = delete_where (is_old start) attempts in
    let v : Attempt = record { key = key; start = start; count = 1 } in
    let few : leb 4096 (length live) ≡ false = ground arith in
    let next = allowed-live key calls (v ∷ live) v (rw (eq_refl key) refl) soon in
    rw (eq_refl key, absent, few) (ground (arith, next))

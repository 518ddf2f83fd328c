-- ===== src/Agent/Backoff/Cap.antt =====
-- internal/agent/agent.go: the cap of a retry's delay against plain doubling.
use omni_token.Prelude.{
  ℕ, zero, suc, ◌*◌, ◌/◌, ◌≤◌, ◌≡◌, inl, inr, refl, sym, ◌∙◌, arith, Bool-cases, ltb,
}
use omni_token.Agent.Backoff.{RetryBackoff, raise_for, clip, next_cap, reset}

-- The base doubled once per attempt, with no bound.
unfoldable pub doubled : ℕ → ℕ → ℕ
doubled zero n = n
doubled (suc k) n = doubled k (n * 2)

le-doubled : (k n : ℕ) → n ≤ doubled k n
unfolding doubled
le-doubled zero n = omega arith
le-doubled (suc k) n = omega (arith, le-doubled k (n * 2))

clip_over : (m n : ℕ) → m ≤ n → clip m n ≡ m
clip_over m n h = ground (arith, h)

clip_le : (m n : ℕ) → clip m n ≤ m
clip_le m n = ground arith

raise_for-clip : (m k n : ℕ) → clip m (raise_for m k n) ≡ clip m (doubled k n)
unfolding raise_for doubled
raise_for-clip m zero n = refl
raise_for-clip m (suc k) n = elim (Bool-cases (ltb n m)) [
  | inr over ↦
      let big : m ≤ n = ground (arith, over) in
      rw over (
        clip_over m n big
        ∙ sym (clip_over m (doubled k (n * 2)) (omega (arith, big, le-doubled k (n * 2)))))
  | inl under ↦ rw under (elim (Bool-cases (ltb (m / 2) n)) [
    | inr half ↦ rw half (raise_for-clip m k (n * 2))
    | inl more ↦
        let past : m ≤ n * 2 = ground (arith, more) in
        rw more (
          raise_for-clip m k m
          ∙ clip_over m (doubled k m) (le-doubled k m)
          ∙ sym (clip_over m (doubled k (n * 2)) (omega (arith, past, le-doubled k (n * 2)))))
  ])
]

-- The cap of a retry's delay is the base doubled once per attempt, clipped at the maximum, and it
-- never exceeds the maximum; after a reset it is the base, clipped.
pub next_cap-doubled :
    (b : RetryBackoff)
    → ((next_cap b).0 ≡ clip b.max_delay (doubled b.attempt b.base))
      × ((next_cap b).0 ≤ b.max_delay)
      × ((next_cap (reset b)).0 ≡ clip b.max_delay b.base)
unfolding next_cap reset raise_for
next_cap-doubled b = (raise_for-clip b.max_delay b.attempt b.base, clip_le b.max_delay _, refl)

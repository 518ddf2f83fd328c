-- ===== src/Agent/Backoff.antt =====
-- internal/agent/agent.go: `retryBackoff`. Durations are numbers of nanoseconds. The random factor
-- between 0 and 1 that scales the cap is left out: the cap is what is modelled.
pub mod Cap
use omni_token.Prelude.{ℕ, zero, suc, ◌*◌, ◌/◌, ◌%◌, ◌^◌, Bool, ltb, if◌then◌else◌}

pub record RetryBackoff : Type 0 where
  pub base : ℕ
  pub max_delay : ℕ
  pub attempt : ℕ

-- One turn of the loop.
abbrev pub raise : ℕ → ℕ → ℕ
raise max_delay cap = if ltb (max_delay / 2) cap then max_delay else cap * 2

-- The loop, `n` turns before it reaches `attempt`.
unfoldable pub raise_for : ℕ → ℕ → ℕ → ℕ
raise_for max_delay zero cap = cap
raise_for max_delay (suc n) cap =
    let rest = raise_for max_delay n (raise max_delay cap) in
    if ltb cap max_delay then rest else cap

abbrev pub clip : ℕ → ℕ → ℕ
clip max_delay cap = if ltb max_delay cap then max_delay else cap

-- `Next`: the cap of the delay, and the counter.
unfoldable pub next_cap : RetryBackoff → ℕ × RetryBackoff
unfolding raise_for
next_cap b = (
  clip b.max_delay (raise_for b.max_delay b.attempt b.base),
  record b { attempt = suc b.attempt % 2 ^ 64 },
)

unfoldable pub reset : RetryBackoff → RetryBackoff
reset b = record b { attempt = 0 }

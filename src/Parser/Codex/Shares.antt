-- ===== src/Parser/Codex/Shares.antt =====
-- internal/parser/codex/parser.go: how `closeTurn` divides a turn's generation time.
use omni_token.Prelude.{
  ℕ, suc, ◌+◌, ◌-◌, ◌*◌, ◌/◌, ◌≤◌, ◌<◌, List, [], ◌∷◌, ◌≡◌, refl, inl, inr, arith, All, Bool-cases,
  leb, leb→le, length,
}
use native.Mathlib.Nat.{div-mul-le_self, add-mul, mul_comm, mul-le-mul_left, le_of_mul-le-mul_right}
use omni_token.Parser.Codex.Turn.{sum, gaps, last_of, scaled, raw_shares, at_least_one, shares}

-- Each time is at least the one before it.
abbrev pub IsRising : ℕ → List ℕ → Type 0
IsRising before [] = Unit
IsRising before (t ∷ ts) = (before ≤ t) × IsRising t ts

last_of-above : (t : ℕ) (ts : List ℕ) → IsRising t ts → t ≤ last_of t ts
unfolding last_of
last_of-above t [] h = omega arith
last_of-above t (u ∷ us) h = omega (arith, h.0, last_of-above u us h.1)

sum-gaps : (t : ℕ) (ts : List ℕ) → IsRising t ts → sum (gaps t ts) ≡ last_of t ts - t
unfolding gaps last_of
sum-gaps t [] h = omega arith
sum-gaps t (u ∷ us) h = omega (arith, h.0, sum-gaps u us h.1, last_of-above u us h.1)

-- Rounding down loses time only: the scaled gaps take no more than the whole.
sum-scaled : (gen spread : ℕ) (ds : List ℕ) → sum (scaled gen spread ds) * spread ≤ sum ds * gen
unfolding scaled
sum-scaled gen spread [] = omega arith
sum-scaled gen spread (d ∷ ds) =
    let rest = sum-scaled gen spread ds in
    let one = div-mul-le_self (d * gen) spread in
    rw (add-mul (d * gen / spread) (sum (scaled gen spread ds)) spread, add-mul d (sum ds) gen)
      (omega (arith, rest, one))

-- As many shares as gaps, and none longer than its gap.
abbrev pub Within : List ℕ → List ℕ → Type 0
Within [] [] = Unit
Within [] (d ∷ ds) = ⊥
Within (n ∷ ns) [] = ⊥
Within (n ∷ ns) (d ∷ ds) = (n ≤ d) × Within ns ds

Within-self : (ds : List ℕ) → Within ds ds
Within-self [] = tt
Within-self (d ∷ ds) = (omega arith, Within-self ds)

scaled-le : (gen spread d : ℕ) → gen < spread → d * gen / spread ≤ d
scaled-le gen spread d over =
    let down = div-mul-le_self (d * gen) spread in
    let up : d * gen ≤ d * spread = mul-le-mul_left d (omega (arith, over)) in
    let both : d * gen / spread * spread ≤ d * spread = omega (arith, down, up) in
    le_of_mul-le-mul_right both (omega (arith, over))

scaled-Within : (gen spread : ℕ) (ds : List ℕ) → gen < spread → Within (scaled gen spread ds) ds
unfolding scaled
scaled-Within gen spread [] over = tt
scaled-Within gen spread (d ∷ ds) over =
    (scaled-le gen spread d over, scaled-Within gen spread ds over)

sum-scaled-le :
    (gen spread : ℕ) (ds : List ℕ)
    → gen < spread
    → sum ds ≡ spread
    → sum (scaled gen spread ds) ≤ gen
sum-scaled-le gen spread ds over whole =
    let bound = sum-scaled gen spread ds in
    let goal : sum (scaled gen spread ds) * spread ≤ gen * spread =
      omega (arith, rw whole at bound, mul_comm spread gen) in
    le_of_mul-le-mul_right goal (omega (arith, over))

abbrev pub tail : List ℕ → List ℕ
tail [] = []
tail (n ∷ ns) = ns

-- The shares of a turn whose times are in order, before empty ones are corrected: they add up to the
-- generation time, and none but the first reaches back past the event before it.
record IsDivided (gen first : ℕ) (rest : List ℕ) (raw : List ℕ) : Type 0 where
  whole : sum raw ≡ gen
  apart : Within (tail raw) (gaps first rest)
  counted : length raw ≡ suc (length rest)

Within-length : (ns ds : List ℕ) → Within ns ds → length ns ≡ length ds
Within-length [] [] h = refl
Within-length [] (d ∷ ds) h = elim h [ ]
Within-length (n ∷ ns) [] h = elim h [ ]
Within-length (n ∷ ns) (d ∷ ds) h = omega (arith, Within-length ns ds h.1)

length-gaps : (t : ℕ) (ts : List ℕ) → length (gaps t ts) ≡ length ts
unfolding gaps
length-gaps t [] = refl
length-gaps t (u ∷ us) = omega (arith, length-gaps u us)

raw_shares-IsDivided :
    (gen first : ℕ) (rest : List ℕ)
    → IsRising first rest
    → IsDivided gen first rest (raw_shares gen first rest)
unfolding raw_shares
raw_shares-IsDivided gen first rest rising =
    let spread = last_of first rest - first in
    let whole : sum (gaps first rest) ≡ spread = sum-gaps first rest rising in
    let many = length-gaps first rest in
    elim (Bool-cases (leb spread gen)) [
      | inl within ↦
          let room = leb→le spread gen within in
          rw within (record {
            whole = omega (arith, whole, room);
            apart = Within-self (gaps first rest);
            counted = omega (arith, many);
          })
      | inr over ↦
          let past : gen < spread = ground arith in
          let apart = scaled-Within gen spread (gaps first rest) past in
          let bound = sum-scaled-le gen spread (gaps first rest) past whole in
          rw over (record {
            whole = omega (arith, bound);
            apart = apart;
            counted = omega (arith, many, Within-length _ (gaps first rest) apart);
          })
    ]

at_least_one-sum :
    (ns : List ℕ)
    → (sum ns ≤ sum (at_least_one ns))
      × (sum (at_least_one ns) ≤ sum ns + length ns)
      × All (λ n. 0 < n) (at_least_one ns)
unfolding at_least_one
at_least_one-sum [] = (omega arith, omega arith, tt)
at_least_one-sum (n ∷ ns) =
    let (low, high, more) = at_least_one-sum ns in
    (omega (arith, low), omega (arith, high), (omega arith, more))

-- A turn of events in the order of their times and of a positive generation time gives every event
-- a positive share. The shares add up to the generation time, to which each event at most adds one
-- millisecond; before that correction they add up to it exactly, and no share but the first is longer
-- than the time since the event before it.
pub shares-IsDivided :
    (gen first : ℕ) (rest : List ℕ)
    → IsRising first rest
    → 0 < gen
    → All (λ n. 0 < n) (shares gen (first ∷ rest))
      × (gen ≤ sum (shares gen (first ∷ rest)))
      × (sum (shares gen (first ∷ rest)) ≤ gen + length (first ∷ rest))
      × (sum (raw_shares gen first rest) ≡ gen)
      × Within (tail (raw_shares gen first rest)) (gaps first rest)
unfolding shares
shares-IsDivided gen first [] rising some_time =
    let raw = raw_shares-IsDivided gen first [] rising in
    ((some_time, tt), omega arith, omega arith, raw.whole, raw.apart)
shares-IsDivided gen first (u ∷ us) rising some_time =
    let raw = raw_shares-IsDivided gen first (u ∷ us) rising in
    let (low, high, more) = at_least_one-sum (raw_shares gen first (u ∷ us)) in
    (
      more,
      omega (arith, low, raw.whole),
      omega (arith, high, raw.whole, raw.counted),
      raw.whole,
      raw.apart,
    )

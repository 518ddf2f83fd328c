-- ===== src/Parser/Codex/Turn.antt =====
-- internal/parser/codex/parser.go: `openTurn` and `closeTurn`, which spreads a turn's generation
-- time over its events. Where the code takes the maximum of a signed difference and 0 or 1, the
-- difference stops at 0 here.
use omni_token.Prelude.{
  ℕ, zero, suc, ◌+◌, ◌-◌, ◌*◌, ◌/◌, max, String, Bool, false, ◌||◌, Option, none, some, List, [],
  ◌∷◌, ltb, leb, eqb, if◌then◌else◌,
}
use omni_token.Model.Event.{Event}

abbrev pub replay_tolerance_ms : ℕ
replay_tolerance_ms = 60 * 1000

-- `idx` holds positions among the events, `ts` the events' times.
pub record OpenTurn : Type 0 where
  pub turn_id : String
  pub idx : List ℕ
  pub ts : List ℕ

abbrev pub sum : List ℕ → ℕ
sum [] = 0
sum (n ∷ ns) = n + sum ns

-- Each time's distance from the time before it.
unfoldable pub gaps : ℕ → List ℕ → List ℕ
gaps before [] = []
gaps before (t ∷ ts) = (t - before) ∷ gaps t ts

unfoldable pub last_of : ℕ → List ℕ → ℕ
last_of t [] = t
last_of t (u ∷ us) = last_of u us

-- max(gap, 0) * genMS / spread
unfoldable pub scaled : ℕ → ℕ → List ℕ → List ℕ
scaled gen spread [] = []
scaled gen spread (d ∷ ds) = d * gen / spread ∷ scaled gen spread ds

-- The shares before the correction of the empty ones, for a turn of two events or more.
unfoldable pub raw_shares : ℕ → ℕ → List ℕ → List ℕ
unfolding gaps last_of scaled
raw_shares gen first rest =
    let spread = last_of first rest - first in
    let later = if leb spread gen then gaps first rest else scaled gen spread (gaps first rest) in
    (if leb spread gen then gen - spread else gen - sum later) ∷ later

unfoldable pub at_least_one : List ℕ → List ℕ
at_least_one [] = []
at_least_one (n ∷ ns) = max n 1 ∷ at_least_one ns

unfoldable pub shares : ℕ → List ℕ → List ℕ
unfolding raw_shares at_least_one
shares gen [] = []
shares gen (t ∷ []) = gen ∷ []
shares gen (t ∷ (u ∷ us)) = at_least_one (raw_shares gen t (u ∷ us))

-- `events[i].GenMS = n`, for each position and share.
unfoldable pub set_at : (Event → Event) → ℕ → List Event → List Event
set_at f n [] = []
set_at f zero (e ∷ es) = f e ∷ es
set_at f (suc n) (e ∷ es) = e ∷ set_at f n es

abbrev pub with_gen : ℕ → Event → Event
with_gen n e = record e { gen_ms = n }

abbrev pub with_ttft : ℕ → Event → Event
with_ttft n e = record e { ttft_ms = n }

unfoldable pub write_shares : List ℕ → List ℕ → List Event → List Event
unfolding set_at
write_shares (i ∷ is) (n ∷ ns) es = write_shares is ns (set_at (with_gen n) i es)
write_shares _ _ es = es

-- Some event's time lies outside the window.
abbrev pub strays : ℕ → ℕ → List ℕ → Bool
strays lo hi [] = false
strays lo hi (ms ∷ ts) = ltb ms lo || ltb hi ms || strays lo hi ts

-- `duration`, `ttft` and `completed` (in seconds) as the closing record has them.
unfoldable pub is_unmeasured : ℕ → ℕ → ℕ → Bool
is_unmeasured completed duration ttft =
    eqb duration 0 || eqb ttft 0 || leb duration ttft || eqb completed 0

unfoldable pub is_replayed : ℕ → ℕ → ℕ → List ℕ → Bool
is_replayed close completed duration ts =
    ltb replay_tolerance_ms (close - completed * 1000)
    || ltb replay_tolerance_ms (completed * 1000 - close)
    || strays (close - duration - replay_tolerance_ms) (close + replay_tolerance_ms) ts

abbrev pub measure : ℕ → ℕ → OpenTurn → List ℕ → List Event → List Event
measure duration ttft t [] es = es
measure duration ttft t (i ∷ is) es =
    write_shares t.idx (shares (duration - ttft) t.ts) (set_at (with_ttft ttft) i es)

abbrev pub close_open : ℕ → ℕ → ℕ → ℕ → Option OpenTurn → List Event → List Event
close_open close completed duration ttft none es = es
close_open close completed duration ttft (some t) es =
    if is_unmeasured completed duration ttft || is_replayed close completed duration t.ts
    then es
    else measure duration ttft t t.idx es

unfoldable pub close_turn : ℕ → ℕ → ℕ → ℕ → Option OpenTurn → List Event → List Event
unfolding is_unmeasured is_replayed write_shares
close_turn close completed duration ttft t es = close_open close completed duration ttft t es

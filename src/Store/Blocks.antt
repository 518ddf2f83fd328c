-- ===== src/Store/Blocks.antt =====
-- internal/store/blocks.go: `floorToHourMS` and `identifyBlocks`. The prices that the server fills in
-- later are left out. A signed difference that the code compares is written as a sum.
pub mod Windows
use omni_token.Prelude.{
  ℕ, suc, ◌+◌, ◌-◌, ◌*◌, ◌%◌, Bool, true, false, ◌&&◌, ◌||◌, List, [], ◌∷◌, ltb, leb, if◌then◌else◌,
}

-- `time.Hour / time.Millisecond`
abbrev pub hour : ℕ
hour = 3600000

-- `BlockDuration` in milliseconds
abbrev pub block_duration : ℕ
block_duration = 5 * hour

pub record Block : Type 0 where
  pub start_ms : ℕ
  pub end_ms : ℕ
  pub last_ms : ℕ
  pub tokens : ℕ
  pub out_tokens : ℕ
  pub events : ℕ
  pub active : Bool

pub record BlockEntry : Type 0 where
  pub ts : ℕ
  pub tokens : ℕ
  pub out : ℕ

unfoldable pub floor_to_hour_ms : ℕ → ℕ
floor_to_hour_ms ms = ms - ms % 3600000

-- The entry is counted in the current block.
abbrev pub absorb : BlockEntry → Block → Block
absorb e cur = record cur {
  last_ms = e.ts;
  tokens = cur.tokens + e.tokens;
  out_tokens = cur.out_tokens + e.out;
  events = suc cur.events;
}

-- The block that an entry opens, before the entry is counted.
abbrev pub opened : ℕ → BlockEntry → Block
opened dur_ms e = record {
  start_ms = floor_to_hour_ms e.ts;
  end_ms = floor_to_hour_ms e.ts + dur_ms;
  last_ms = 0;
  tokens = 0;
  out_tokens = 0;
  events = 0;
  active = false;
}

-- The window is over, or the idle gap since the last entry is too long.
abbrev pub is_past : ℕ → Block → BlockEntry → Bool
is_past dur_ms cur e = ltb (dur_ms + cur.start_ms) e.ts || ltb (dur_ms + cur.last_ms) e.ts

abbrev pub is_active : ℕ → ℕ → Block → Bool
is_active dur_ms now_ms cur = ltb now_ms cur.end_ms && leb now_ms (dur_ms + cur.last_ms)

-- The loop, from the current block on; blocks before it are settled.
unfoldable pub blocks_from : ℕ → ℕ → Block → List BlockEntry → List Block
unfolding floor_to_hour_ms
blocks_from dur_ms now_ms cur [] =
    (if is_active dur_ms now_ms cur then record cur { active = true } else cur) ∷ []
blocks_from dur_ms now_ms cur (e ∷ es) =
    let past = is_past dur_ms cur e in
    let rest = blocks_from dur_ms now_ms (absorb e (if past then opened dur_ms e else cur)) es in
    if past then cur ∷ rest else rest

unfoldable pub identify_blocks : List BlockEntry → ℕ → ℕ → List Block
unfolding floor_to_hour_ms blocks_from
identify_blocks [] dur_ms now_ms = []
identify_blocks (e ∷ es) dur_ms now_ms = blocks_from dur_ms now_ms (absorb e (opened dur_ms e)) es

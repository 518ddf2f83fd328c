-- ===== src/Store/Blocks/Windows.antt =====
-- internal/store/blocks.go: what the blocks account for, and how their windows lie.
use omni_token.Prelude.{
  ℕ, ◌+◌, ◌%◌, ◌≤◌, true, false, List, [], ◌∷◌, ◌≡◌, refl, inl, inr, arith, Bool-cases, All,
  All-mono, Pairs, length,
}
use omni_token.Store.Blocks.{
  Block, BlockEntry, floor_to_hour_ms, absorb, opened, is_past, is_active, blocks_from,
  identify_blocks,
}

-- The sum of a number over a list.
unfoldable pub total {ℓ} : {A : Type ℓ} → (A → ℕ) → List A → ℕ
total f [] = 0
total f (x ∷ xs) = f x + total f xs

record Counted (n m k : ℕ) (bs : List Block) : Type 0 where
  tokens : total (λ b. b.tokens) bs ≡ n
  out : total (λ b. b.out_tokens) bs ≡ m
  events : total (λ b. b.events) bs ≡ k

blocks_from-Counted :
    (dur_ms now_ms : ℕ) (cur : Block) (es : List BlockEntry)
    → Counted
        (cur.tokens + total (λ e. e.tokens) es)
        (cur.out_tokens + total (λ e. e.out) es)
        (cur.events + length es)
        (blocks_from dur_ms now_ms cur es)
unfolding blocks_from total
blocks_from-Counted dur_ms now_ms cur [] = elim (Bool-cases (is_active dur_ms now_ms cur)) [
  | inl now ↦ rw now (record { tokens = refl; out = refl; events = refl })
  | inr past ↦ rw past (record { tokens = refl; out = refl; events = refl })
]
blocks_from-Counted dur_ms now_ms cur (e ∷ es) = elim (Bool-cases (is_past dur_ms cur e)) [
  | inl past ↦
      let k = blocks_from-Counted dur_ms now_ms (absorb e (opened dur_ms e)) es in
      rw past (record {
        tokens = omega (arith, k.tokens);
        out = omega (arith, k.out);
        events = omega (arith, k.events);
      })
  | inr within ↦
      let k = blocks_from-Counted dur_ms now_ms (absorb e cur) es in
      rw within (record {
        tokens = omega (arith, k.tokens);
        out = omega (arith, k.out);
        events = omega (arith, k.events);
      })
]

-- The blocks account for every entry once: their tokens, output tokens and event counts add up to
-- those of the entries.
pub identify_blocks-total :
    (es : List BlockEntry) (dur_ms now_ms : ℕ)
    → let bs = identify_blocks es dur_ms now_ms in
      (total (λ b. b.tokens) bs ≡ total (λ e. e.tokens) es)
      × (total (λ b. b.out_tokens) bs ≡ total (λ e. e.out) es)
      × (total (λ b. b.events) bs ≡ length es)
unfolding identify_blocks total
identify_blocks-total [] dur_ms now_ms = (refl, refl, refl)
identify_blocks-total (e ∷ es) dur_ms now_ms =
    let k = blocks_from-Counted dur_ms now_ms (absorb e (opened dur_ms e)) es in
    (omega (arith, k.tokens), omega (arith, k.out), omega (arith, k.events))

-- Times do not decrease, from `t` on.
abbrev pub Chronological : ℕ → List BlockEntry → Type 0
Chronological t [] = Unit
Chronological t (e ∷ es) = (t ≤ e.ts) × Chronological e.ts es

-- A window starts on the hour, lasts the duration, and holds its last entry.
pub record IsWindow (dur_ms : ℕ) (b : Block) : Type 0 where
  pub on_hour : b.start_ms % 3600000 ≡ 0
  pub lasts : b.end_ms ≡ b.start_ms + dur_ms
  pub begun : b.start_ms ≤ b.last_ms
  pub within : b.last_ms ≤ b.end_ms
  pub counted : 1 ≤ b.events

abbrev pub Before : Block → Block → Type 0
Before b c = b.end_ms ≤ c.start_ms

opened-IsWindow :
    (dur_ms : ℕ) (e : BlockEntry) → 3600000 ≤ dur_ms → IsWindow dur_ms (absorb e (opened dur_ms e))
unfolding floor_to_hour_ms
opened-IsWindow dur_ms e long = record {
  on_hour = omega arith;
  lasts = refl;
  begun = omega arith;
  within = omega arith;
  counted = omega arith;
}

absorb-IsWindow :
    (dur_ms : ℕ) (cur : Block) (e : BlockEntry)
    → IsWindow dur_ms cur
    → is_past dur_ms cur e ≡ false
    → cur.last_ms ≤ e.ts
    → IsWindow dur_ms (absorb e cur)
absorb-IsWindow dur_ms cur e w within later = record {
  on_hour = w.on_hour;
  lasts = w.lasts;
  begun = omega (arith, w.begun, later);
  within = ground (arith, w.lasts, within);
  counted = omega arith;
}

-- A new block starts no earlier than the window of the block it follows ends.
opened_after :
    (dur_ms : ℕ) (cur : Block) (e : BlockEntry)
    → IsWindow dur_ms cur
    → dur_ms % 3600000 ≡ 0
    → is_past dur_ms cur e ≡ true
    → cur.end_ms ≤ (opened dur_ms e).start_ms
unfolding floor_to_hour_ms
opened_after dur_ms cur e w whole past =
    let after : cur.end_ms ≤ e.ts = ground (arith, w.lasts, w.begun, past) in
    omega (arith, w.on_hour, w.lasts, whole, after)

-- The blocks from the current one on: windows, in order, none before the current one.
record Laid (dur_ms start : ℕ) (bs : List Block) : Type 0 where
  windows : All (IsWindow dur_ms) bs
  ordered : Pairs Before bs
  from : All (λ b. start ≤ b.start_ms) bs

settled-Laid :
    (dur_ms : ℕ) (cur : Block) → IsWindow dur_ms cur → Laid dur_ms cur.start_ms (cur ∷ [])
settled-Laid dur_ms cur w = record {
  windows = (w, tt);
  ordered = (tt, tt);
  from = (omega arith, tt);
}

blocks_from-Laid :
    (dur_ms now_ms : ℕ) (cur : Block) (es : List BlockEntry)
    → 3600000 ≤ dur_ms
    → dur_ms % 3600000 ≡ 0
    → IsWindow dur_ms cur
    → Chronological cur.last_ms es
    → Laid dur_ms cur.start_ms (blocks_from dur_ms now_ms cur es)
unfolding blocks_from
blocks_from-Laid dur_ms now_ms cur [] long whole w times =
    elim (Bool-cases (is_active dur_ms now_ms cur)) [
      | inl now ↦ rw now (
          settled-Laid dur_ms (record cur { active = true })
            (record {
              on_hour = w.on_hour;
              lasts = w.lasts;
              begun = w.begun;
              within = w.within;
              counted = w.counted;
            }))
      | inr past ↦ rw past (settled-Laid dur_ms cur w)
    ]
blocks_from-Laid dur_ms now_ms cur (e ∷ es) long whole w times =
    elim (Bool-cases (is_past dur_ms cur e)) [
      | inr within ↦ rw within (
          blocks_from-Laid dur_ms now_ms (absorb e cur) es long whole
            (absorb-IsWindow dur_ms cur e w within times.0) times.1)
      | inl past ↦
          let next = absorb e (opened dur_ms e) in
          let k =
            blocks_from-Laid dur_ms now_ms next es long whole (opened-IsWindow dur_ms e long)
              times.1 in
          let after = opened_after dur_ms cur e w whole past in
          rw past (record {
            windows = (w, k.windows);
            ordered = (All-mono _ _ _ (λ b h. omega (arith, h, after)) k.from, k.ordered);
            from = (
              omega arith,
              All-mono _ _ _ (λ b h. omega (arith, h, after, w.begun, w.within)) k.from,
            );
          })
    ]

-- For entries in chronological order and a window of whole hours, every block starts on the hour,
-- lasts the window, holds its last entry and counts at least one, and a block starts no earlier
-- than the windows of all blocks before it end: no two windows overlap.
pub identify_blocks-IsWindow :
    (es : List BlockEntry) (dur_ms now_ms : ℕ)
    → 3600000 ≤ dur_ms
    → dur_ms % 3600000 ≡ 0
    → Chronological 0 es
    → let bs = identify_blocks es dur_ms now_ms in All (IsWindow dur_ms) bs × Pairs Before bs
unfolding identify_blocks
identify_blocks-IsWindow [] dur_ms now_ms long whole times = (tt, tt)
identify_blocks-IsWindow (e ∷ es) dur_ms now_ms long whole times =
    let k =
      blocks_from-Laid dur_ms now_ms (absorb e (opened dur_ms e)) es long whole
        (opened-IsWindow dur_ms e long) times.1 in
    (k.windows, k.ordered)

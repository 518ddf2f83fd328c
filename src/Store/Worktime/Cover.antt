-- ===== src/Store/Worktime/Cover.antt =====
-- internal/store/worktime.go: what the merged spans cover, how they lie, and their total.
use omni_token.Prelude.{
  ℕ, ◌+◌, ◌-◌, ◌≤◌, ◌<◌, false, List, [], ◌∷◌, ◌≡◌, ◌⊎◌, ◌↔◌, inl, inr, refl, sym, ◌∙◌, subst,
  arith, Bool-cases, ltb, All, All-mono, Any, Pairs,
}
use omni_token.Store.Worktime.{
  Span, extend, insert_span, sort_spans, merge_from, merge_sorted, merge_spans, sum_ms, union_ms,
}

abbrev pub Covers : ℕ → Span → Type 0
Covers t s = (s.start ≤ t) × (t < s.end)

abbrev pub IsSpan : Span → Type 0
IsSpan s = s.start ≤ s.end

abbrev pub Apart : Span → Span → Type 0
Apart a b = a.end < b.start

-- Starts do not decrease, from `a` on.
abbrev Ordered : ℕ → List Span → Type 0
Ordered a [] = Unit
Ordered a (s ∷ ss) = (a ≤ s.start) × Ordered s.start ss

insert_span-Ordered :
    (a : ℕ) (s : Span) (rs : List Span) → a ≤ s.start → Ordered a rs → Ordered a (insert_span s rs)
unfolding insert_span
insert_span-Ordered a s [] h k = (h, tt)
insert_span-Ordered a s (r ∷ rs) h k = elim (Bool-cases (ltb r.start s.start)) [
  | inl before ↦ rw before (k.0, insert_span-Ordered r.start s rs (ground (arith, before)) k.1)
  | inr after ↦ rw after (h, (ground (arith, after), k.1))
]

sort_spans-Ordered : (ss : List Span) → Ordered 0 (sort_spans ss)
unfolding sort_spans
sort_spans-Ordered [] = tt
sort_spans-Ordered (s ∷ ss) =
    insert_span-Ordered 0 s (sort_spans ss) (omega arith) (sort_spans-Ordered ss)

module _ {A B C : Type 0} where
  iff_trans : A ↔ B → B ↔ C → A ↔ C
  iff_trans f g = (λ a. g.0 (f.0 a), λ c. f.1 (g.1 c))

  or_map : B ↔ C → (A ⊎ B) ↔ (A ⊎ C)
  or_map f = ground (arith, f)

  or_map_left : A ↔ B → (A ⊎ C) ↔ (B ⊎ C)
  or_map_left f = ground (arith, f)

  or_assoc : ((A ⊎ B) ⊎ C) ↔ (A ⊎ (B ⊎ C))
  or_assoc = ground arith

  or_swap : (A ⊎ (B ⊎ C)) ↔ (B ⊎ (A ⊎ C))
  or_swap = ground arith

or_behind : {A B C D : Type 0} → A ↔ (B ⊎ C) → (D ⊎ A) ↔ (B ⊎ (D ⊎ C))
or_behind f = iff_trans (or_map f) or_swap

module _ (P : Span → Type 0) where
  insert_span-Any : (s : Span) (rs : List Span) → Any P (insert_span s rs) ↔ (P s ⊎ Any P rs)
  unfolding insert_span
  insert_span-Any s [] = (λ h. h, λ h. h)
  insert_span-Any s (r ∷ rs) = elim (Bool-cases (ltb r.start s.start)) [
    | inr after ↦ rw after (λ h. h, λ h. h)
    | inl before ↦ rw before (or_behind (insert_span-Any s rs))
  ]

  sort_spans-Any : (ss : List Span) → Any P (sort_spans ss) ↔ Any P ss
  unfolding sort_spans
  sort_spans-Any [] = (λ h. h, λ h. h)
  sort_spans-Any (s ∷ ss) =
      iff_trans (insert_span-Any s (sort_spans ss)) (or_map (sort_spans-Any ss))

  insert_span-All : (s : Span) (rs : List Span) → P s → All P rs → All P (insert_span s rs)
  unfolding insert_span
  insert_span-All s [] h k = (h, tt)
  insert_span-All s (r ∷ rs) h k = elim (Bool-cases (ltb r.start s.start)) [
    | inl before ↦ rw before (k.0, insert_span-All s rs h k.1)
    | inr after ↦ rw after (h, k)
  ]

  sort_spans-All : (ss : List Span) → All P ss → All P (sort_spans ss)
  unfolding sort_spans
  sort_spans-All [] h = tt
  sort_spans-All (s ∷ ss) h = insert_span-All s (sort_spans ss) h.0 (sort_spans-All ss h.1)

insert_span-sum : (s : Span) (rs : List Span) → sum_ms (insert_span s rs) ≡ sum_ms (s ∷ rs)
unfolding insert_span sum_ms
insert_span-sum s [] = refl
insert_span-sum s (r ∷ rs) = elim (Bool-cases (ltb r.start s.start)) [
  | inl before ↦ rw before (omega (arith, insert_span-sum s rs))
  | inr after ↦ rw after refl
]

sort_spans-sum : (ss : List Span) → sum_ms (sort_spans ss) ≡ sum_ms ss
unfolding sort_spans sum_ms
sort_spans-sum [] = refl
sort_spans-sum (s ∷ ss) = insert_span-sum s (sort_spans ss) ∙ omega (arith, sort_spans-sum ss)

-- Some span up to the last of two overlapping ones covers the time exactly if their extension does.
extend-Covers :
    (t : ℕ) (last s : Span)
    → last.start ≤ s.start
    → ltb last.end s.start ≡ false
    → Covers t (extend last s.end) ↔ (Covers t last ⊎ Covers t s)
extend-Covers t last s h k = ground (arith, h, k)

pub extend-start : (last : Span) (end : ℕ) → (extend last end).start ≡ last.start
extend-start last end = elim (Bool-cases (ltb last.end end)) [
  | inl later ↦ rw later refl
  | inr not_later ↦ rw not_later refl
]

Ordered-weaken : (a b : ℕ) (ss : List Span) → a ≤ b → Ordered b ss → Ordered a ss
Ordered-weaken a b [] h k = tt
Ordered-weaken a b (s ∷ ss) h k = (omega (arith, h, k.0), k.1)

Ordered-extend :
    (last s : Span) (ss : List Span)
    → Ordered last.start (s ∷ ss)
    → Ordered (extend last s.end).start ss
Ordered-extend last s ss k =
    subst (λ a. Ordered a ss) (sym (extend-start last s.end))
      (Ordered-weaken last.start s.start ss k.0 k.1)

merge_from-Any :
    (t : ℕ) (last : Span) (ss : List Span)
    → Ordered last.start ss
    → Any (Covers t) (merge_from last ss) ↔ (Covers t last ⊎ Any (Covers t) ss)
unfolding merge_from
merge_from-Any t last [] k = (λ h. h, λ h. h)
merge_from-Any t last (s ∷ ss) k = elim (Bool-cases (ltb last.end s.start)) [
  | inl apart ↦ rw apart (or_map (merge_from-Any t s ss k.1))
  | inr joined ↦ rw joined (
      iff_trans (merge_from-Any t (extend last s.end) ss (Ordered-extend last s ss k))
        (iff_trans (or_map_left (extend-Covers t last s k.0 joined)) or_assoc))
]

record Disjoint (a : ℕ) (ss : List Span) : Type 0 where
  apart : Pairs Apart ss
  from : All (λ (s : Span). a ≤ s.start) ss

merge_from-Disjoint :
    (last : Span) (ss : List Span)
    → Ordered last.start ss
    → Disjoint last.start (merge_from last ss)
unfolding merge_from
merge_from-Disjoint last [] k = record { apart = (tt, tt); from = (omega arith, tt) }
merge_from-Disjoint last (s ∷ ss) k = elim (Bool-cases (ltb last.end s.start)) [
  | inl apart ↦
      let d = merge_from-Disjoint s ss k.1 in
      rw apart (record {
        apart = (All-mono _ _ _ (λ r h. ground (arith, h, apart)) d.from, d.apart);
        from = (omega arith, All-mono _ _ _ (λ r h. omega (arith, h, k.0)) d.from);
      })
  | inr joined ↦
      let d = merge_from-Disjoint (extend last s.end) ss (Ordered-extend last s ss k) in
      rw joined (record {
        apart = d.apart;
        from =
            subst (λ a. All (λ (r : Span). a ≤ r.start) (merge_from (extend last s.end) ss))
              (extend-start last s.end) d.from;
      })
]

pub extend-IsSpan : (last : Span) (end : ℕ) → IsSpan last → IsSpan (extend last end)
extend-IsSpan last end h = ground (arith, h)

extend-length :
    (last s : Span)
    → IsSpan last
    → IsSpan s
    → ltb last.end s.start ≡ false
    → (extend last s.end).end - (extend last s.end).start
      ≤ (last.end - last.start) + (s.end - s.start)
extend-length last s h k joined = ground (arith, h, k, joined)

merge_from-sum :
    (last : Span) (ss : List Span)
    → IsSpan last
    → All IsSpan ss
    → sum_ms (merge_from last ss) ≤ sum_ms (last ∷ ss)
unfolding merge_from sum_ms
merge_from-sum last [] h k = omega arith
merge_from-sum last (s ∷ ss) h k = elim (Bool-cases (ltb last.end s.start)) [
  | inl apart ↦ rw apart (omega (arith, merge_from-sum s ss k.0 k.1))
  | inr joined ↦
      let shorter = extend-length last s h k.0 joined in
      let rest = merge_from-sum (extend last s.end) ss (extend-IsSpan last s.end h) k.1 in
      rw joined (omega (arith, shorter, rest))
]

merge_sorted-Any :
    (t : ℕ) (ss : List Span) → Ordered 0 ss → Any (Covers t) (merge_sorted ss) ↔ Any (Covers t) ss
merge_sorted-Any t [] k = (λ h. h, λ h. h)
merge_sorted-Any t (s ∷ ss) k = merge_from-Any t s ss k.1

merge_sorted-Apart : (ss : List Span) → Ordered 0 ss → Pairs Apart (merge_sorted ss)
merge_sorted-Apart [] k = tt
merge_sorted-Apart (s ∷ ss) k = (merge_from-Disjoint s ss k.1).apart

merge_sorted-sum : (ss : List Span) → All IsSpan ss → sum_ms (merge_sorted ss) ≤ sum_ms ss
unfolding sum_ms
merge_sorted-sum [] h = omega arith
merge_sorted-sum (s ∷ ss) h = merge_from-sum s ss h.0 h.1

-- The merged spans are apart from each other, in order, and cover a time exactly if some span of
-- the input does.
pub merge_spans_cover :
    (ss : List Span)
    → Pairs Apart (merge_spans ss) × ((t : ℕ) → Any (Covers t) (merge_spans ss) ↔ Any (Covers t) ss)
unfolding merge_spans
merge_spans_cover ss = (
  merge_sorted-Apart (sort_spans ss) (sort_spans-Ordered ss),
  λ t.
      iff_trans (merge_sorted-Any t (sort_spans ss) (sort_spans-Ordered ss))
        (sort_spans-Any (Covers t) ss),
)

-- The wall-clock union of spans that do not end before they start is at most their sum.
pub union_ms-le-sum_ms : (ss : List Span) → All IsSpan ss → union_ms ss ≤ sum_ms ss
unfolding union_ms merge_spans
union_ms-le-sum_ms ss h =
    subst (λ n. sum_ms (merge_sorted (sort_spans ss)) ≤ n) (sort_spans-sum ss)
      (merge_sorted-sum (sort_spans ss) (sort_spans-All IsSpan ss h))

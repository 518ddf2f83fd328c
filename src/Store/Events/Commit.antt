-- ===== src/Store/Events/Commit.antt =====
-- `insertEventsFromTx` against the constraints of the table: the INSERTs, the deletion of copies
-- and the backfill of keys.
use omni_token.Prelude.{
  ℕ, String, Bool, true, false, Option, none, some, ◌≡◌, refl, inl, inr, arith, Bool-cases,
  Option-cases, All-mono, find_where-none-All, find_where, count_where, update_where-count_zero,
  Pairs-update_where,
}
use omni_token.Model.Event.{Event}
use omni_token.Store.Events.{
  DeviceOrigin, Row, Table, owns_key, conflicts, insert, update_row, key_fill_set, num_fill_set,
  text_fill_set, dur_fill_set, promote_set, reattribute_set, reclassify_set,
}
use omni_token.Store.Events.Insert.{
  PriorEventState, EventApplyResult, Verdict, dropped, stays, run_if, run_key_fill, key_fill_gate,
  key_fill_clashes, key_fill, reclassify, reattribute, num_fill, text_fill, promote, dur_fill,
}
use omni_token.Store.Events.Batch.{State, contribute}
use omni_token.Store.Events.Keys.{OtherId, OtherKey, IsWellKeyed, fill_hit, Pairs-OtherKey-fill}

pub insert-IsWellKeyed :
    (received_at : ℕ) (origin : DeviceOrigin) (e : Event) (t : Table)
    → IsWellKeyed t
    → IsWellKeyed (insert received_at origin e t).0
unfolding insert
insert-IsWellKeyed received_at origin e t w = elim (Option-cases (find_where (conflicts e) t)) [
  | inl free ↦
      let apart = find_where-none-All (conflicts e) t free in
      rw free (record {
        ids = (
          All-mono (λ (q : Row). conflicts e q ≡ false) _ t
              (λ q (m : conflicts e q ≡ false). ground arith) apart,
          w.ids,
        );
        keys = (
          All-mono (λ (q : Row). conflicts e q ≡ false) _ t
              (λ q (m : conflicts e q ≡ false). ground arith) apart,
          w.keys,
        );
      })
  | inr (o, taken) ↦ rw taken w
]

-- An assignment that writes neither key.
abbrev KeepsKeys : (Row → Row) → Type 0
KeepsKeys f = (r : Row) → ((f r).event_id ≡ r.event_id) × ((f r).dedup_key ≡ r.dedup_key)

run_if-IsWellKeyed :
    (gate : Bool) (id : String) (guard : Row → Bool) (f : Row → Row) (t : Table)
    → KeepsKeys f
    → IsWellKeyed t
    → IsWellKeyed (run_if gate id guard f t).0
unfolding run_if update_row
run_if-IsWellKeyed true id guard f t k w = record {
  ids = Pairs-update_where OtherId _ f t (λ r q x. rw (k r).0 x) (λ r q x. rw (k q).0 x) w.ids;
  keys = Pairs-update_where OtherKey _ f t (λ r q x. rw (k r).1 x) (λ r q x. rw (k q).1 x) w.keys;
}
run_if-IsWellKeyed false id guard f t k w = w

module _ (known : Option PriorEventState) (e : Event) (t : Table) (w : IsWellKeyed t) where
  key_fill-IsWellKeyed : key_fill_clashes known e t ≡ false → IsWellKeyed (run_key_fill known e t).0
  unfolding run_key_fill run_if update_row
  key_fill-IsWellKeyed free = elim (Bool-cases (key_fill_gate known e)) [
    | inr shut ↦ rw shut w
    | inl opened ↦ elim (Option-cases (find_where (owns_key e.dedup_key) t)) [
      | inl unowned ↦ rw opened (record {
        ids =
            Pairs-update_where OtherId (fill_hit e) (key_fill_set e) t (λ r q x. x) (λ r q x. x)
              w.ids;
        keys =
            Pairs-OtherKey-fill e t (ground arith) w.ids w.keys (find_where-none-All _ t unowned);
      })
      | inr (o, owned) ↦
          let none_hit : count_where (fill_hit e) t ≡ 0 = ground arith in
          rw opened (rw (update_where-count_zero (fill_hit e) (key_fill_set e) t none_hit) w)
    ]
  ]

abbrev pub Commits : Option State → Type 0
Commits none = ⊥
Commits (some s) = IsWellKeyed s.0

module _ (known : Option PriorEventState) (e : Event) (t : Table) (w : IsWellKeyed t) where
  reclassify-IsWellKeyed : IsWellKeyed (reclassify known e t).0
  unfolding reclassify
  reclassify-IsWellKeyed = run_if-IsWellKeyed _ _ _ (reclassify_set e) t (λ r. (refl, refl)) w

  reattribute-IsWellKeyed : (origin : DeviceOrigin) → IsWellKeyed (reattribute origin known e t).0
  unfolding reattribute
  reattribute-IsWellKeyed origin =
      run_if-IsWellKeyed _ _ _ (reattribute_set e) t (λ r. (refl, refl)) w

  num_fill-IsWellKeyed : IsWellKeyed (num_fill known e t).0
  unfolding num_fill
  num_fill-IsWellKeyed = run_if-IsWellKeyed _ _ _ (num_fill_set e) t (λ r. (refl, refl)) w

  text_fill-IsWellKeyed : IsWellKeyed (text_fill known e t).0
  unfolding text_fill
  text_fill-IsWellKeyed = run_if-IsWellKeyed _ _ _ (text_fill_set e) t (λ r. (refl, refl)) w

  promote-IsWellKeyed : IsWellKeyed (promote known e t).0
  unfolding promote
  promote-IsWellKeyed = run_if-IsWellKeyed _ _ _ (promote_set e) t (λ r. (refl, refl)) w

  dur_fill-IsWellKeyed : IsWellKeyed (dur_fill known e t).0
  unfolding dur_fill
  dur_fill-IsWellKeyed = run_if-IsWellKeyed _ _ _ (dur_fill_set e) t (λ r. (refl, refl)) w

module _ (known : Option PriorEventState) (e : Event) where
  -- The backfill that would follow cannot hit the unique index.
  abbrev pub IsSafe : Table → Type 0
  IsSafe t = IsWellKeyed t × (key_fill_clashes known e t ≡ false)

  abbrev pub Verdict-IsSafe : Verdict → Type 0
  Verdict-IsSafe (dropped t n) = IsWellKeyed t
  Verdict-IsSafe (stays t true n) = IsWellKeyed t
  Verdict-IsSafe (stays t false n) = IsSafe t

  pub contribute-Commits :
      (origin : DeviceOrigin) (t : Table) (res : EventApplyResult)
      → IsSafe t
      → Commits (contribute origin known e t res)
  unfolding contribute key_fill
  contribute-Commits origin t res (w, free) = rw free (
      dur_fill-IsWellKeyed known e _ (
        promote-IsWellKeyed known e _ (
          text_fill-IsWellKeyed known e _ (
            num_fill-IsWellKeyed known e _ (
              reattribute-IsWellKeyed known e _
                (reclassify-IsWellKeyed known e _ (key_fill-IsWellKeyed known e t w free))
                origin)))))

-- ===== src/Store/Events/Committed.antt =====
-- `insertEventsFromTx` against the constraints of the table: the decision on a fork, and the loop.
use omni_token.Prelude.{
  ℕ, String, Bool, true, false, not, ◌&&◌, Option, none, some, List, [], ◌∷◌, ◌≡◌, refl, subst, inl,
  inr, arith, Bool-cases, Option-cases, find_where-none-All, find_where-All-false, find_where,
  Pairs-delete_where, ◌==◌, eq_iff,
}
use omni_token.Model.Event.{Event}
use omni_token.Store.Events.{
  DeviceOrigin, Row, Table, has_id, owns_key, insert, update_row, drop_copy, key_owner,
}
use omni_token.Store.Events.Insert.{
  PriorEventState, EventApplyResult, known_state, Verdict, self_owns_key, is_copy, dropped, stays,
  against_owner, settle_fork, run_if, run_key_fill, key_fill_gate,
}
use omni_token.Store.Events.Batch.{
  State, after_verdict, try_insert, observe, observe_all, insert_events_from_tx,
}
use omni_token.Store.Events.Keys.{
  OtherId, OtherKey, IsWellKeyed, Unowned, Unowned-delete_owner, fill_hit-owner,
}
use omni_token.Store.Events.Commit.{
  insert-IsWellKeyed, Commits, IsSafe, Verdict-IsSafe, contribute-Commits,
}

drop_copy-IsWellKeyed : (id : String) (t : Table) → IsWellKeyed t → IsWellKeyed (drop_copy id t).0
unfolding drop_copy
drop_copy-IsWellKeyed id t w = record {
  ids = Pairs-delete_where OtherId _ t w.ids;
  keys = Pairs-delete_where OtherKey _ t w.keys;
}

-- A key that is not looked up is not written either.
settled-shut :
    (known : Option PriorEventState) (e : Event)
    → (not (e.dedup_key == "") && not (self_owns_key e known)) ≡ false
    → key_fill_gate known e ≡ false
settled-shut none e h = ground arith
settled-shut (some st) e h =
    ground (arith, eq_iff st.dedup_key e.dedup_key, eq_iff st.dedup_key "", eq_iff e.dedup_key "")

insert-refused :
    (received_at : ℕ) (origin : DeviceOrigin) (e : Event) (t : Table)
    → (insert received_at origin e t).1 ≡ false
    → (insert received_at origin e t).0 ≡ t
unfolding insert
insert-refused received_at origin e t h = ground arith

module _ (known : Option PriorEventState) (e : Event) where
  -- A gate that is shut writes nothing.
  shut-IsSafe : (t : Table) → key_fill_gate known e ≡ false → IsWellKeyed t → IsSafe known e t
  unfolding run_key_fill run_if
  shut-IsSafe t shut w = (w, rw shut)

  Unowned-IsSafe : (t : Table) → Unowned e.dedup_key t → IsWellKeyed t → IsSafe known e t
  Unowned-IsSafe t free w =
      let unowned = find_where-All-false (owns_key e.dedup_key) t free in (w, ground arith)

  owner-IsSafe :
      (t : Table) (o : Row)
      → find_where (owns_key e.dedup_key) t ≡ some o
      → has_id e.event_id o ≡ true
      → IsWellKeyed t
      → IsSafe known e t
  unfolding run_key_fill run_if update_row
  owner-IsSafe t o found same w =
      let none_hit = fill_hit-owner e e.dedup_key t o w.ids found same in
      elim (Bool-cases (key_fill_gate known e)) [
        | inl opened ↦ (w, rw (opened, none_hit))
        | inr shut ↦ shut-IsSafe t shut w
      ]

  module _ (received_at : ℕ) (origin : DeviceOrigin) where
    -- The owner is deleted, and the original takes its place.
    reinsert-IsSafe :
        (t : Table) (o : Row)
        → find_where (owns_key e.dedup_key) t ≡ some o
        → IsWellKeyed t
        → Verdict-IsSafe known e (
            let (t', stored) = insert received_at origin e (drop_copy o.event_id t).0 in
            stays t' stored 1)
    reinsert-IsSafe t o found w =
        let rest = (drop_copy o.event_id t).0 in
        let kept = insert-IsWellKeyed received_at origin e rest (drop_copy-IsWellKeyed _ t w) in
        elim (Bool-cases (insert received_at origin e rest).1) [
          | inl stored ↦ rw stored kept
          | inr refused ↦ rw refused (
              Unowned-IsSafe (insert received_at origin e rest).0
                (rw (insert-refused received_at origin e rest refused)
                  (unfold drop_copy in Unowned-delete_owner e.dedup_key t o w.keys found))
                kept)
        ]

    against_owner-IsSafe :
        (t : Table)
        → IsWellKeyed t
        → Verdict-IsSafe known e (against_owner received_at origin e t (key_owner e.dedup_key t))
    unfolding key_owner
    against_owner-IsSafe t w = elim (Option-cases (find_where (owns_key e.dedup_key) t)) [
      | inl unowned ↦ rw unowned (Unowned-IsSafe t (find_where-none-All _ t unowned) w)
      | inr (o, found) ↦ rw found (elim (Bool-cases (o.event_id == e.event_id)) [
        | inl same ↦ rw same (owner-IsSafe t o found same w)
        | inr other ↦ rw other (elim (Bool-cases (is_copy e o)) [
          | inl copy ↦ rw copy (drop_copy-IsWellKeyed e.event_id t w)
          | inr original ↦ rw original (reinsert-IsSafe t o found w)
        ])
      ])
    ]

    settle_fork-IsSafe :
        (t : Table) (stored : Bool)
        → IsWellKeyed t
        → Verdict-IsSafe known e (settle_fork received_at origin known e t stored)
    unfolding settle_fork
    settle_fork-IsSafe t true w = w
    settle_fork-IsSafe t false w =
        elim (Bool-cases (not (e.dedup_key == "") && not (self_owns_key e known))) [
          | inl contested ↦ rw contested (against_owner-IsSafe t w)
          | inr settled ↦ rw settled (shut-IsSafe t (settled-shut known e settled) w)
        ]

  after_verdict-Commits :
      (origin : DeviceOrigin) (res : EventApplyResult) (v : Verdict)
      → Verdict-IsSafe known e v
      → Commits (after_verdict origin known e res v)
  after_verdict-Commits origin res (dropped t n) h = h
  after_verdict-Commits origin res (stays t true n) h = h
  after_verdict-Commits origin res (stays t false n) h = contribute-Commits known e origin t _ h

module _ (received_at : ℕ) (origin : DeviceOrigin) where
  pub try_insert-IsWellKeyed :
      (known : Option PriorEventState) (e : Event) (t : Table)
      → IsWellKeyed t
      → IsWellKeyed (try_insert received_at origin known e t).0
  try_insert-IsWellKeyed none e t w = insert-IsWellKeyed received_at origin e t w
  try_insert-IsWellKeyed (some st) e t w = w

  pub observe-Commits :
      (known : Option PriorEventState) (e : Event) (s : State)
      → IsWellKeyed s.0
      → Commits (observe received_at origin known e s)
  unfolding observe
  observe-Commits known e s w = elim (Bool-cases (e.event_id == "")) [
    | inl blank ↦ rw blank w
    | inr named ↦ rw named (
        after_verdict-Commits known e origin s.1 _ (
          settle_fork-IsSafe known e received_at origin _ _ (try_insert-IsWellKeyed known e s.0 w)))
  ]

  observe_all-Commits :
      (prior : List (String × PriorEventState)) (es : List Event) (s : State)
      → IsWellKeyed s.0
      → Commits (observe_all received_at origin prior es s)
  unfolding observe_all
  observe_all-Commits prior [] s w = w
  observe_all-Commits prior (e ∷ es) s w =
      let known = known_state e.event_id prior in
      let first = observe-Commits known e s w in
      elim (Option-cases (observe received_at origin known e s)) [
        | inl failed ↦ absurd (subst Commits failed first)
        | inr (s', done) ↦ rw done (observe_all-Commits prior es s' (subst Commits done first))
      ]

Commits-some : (o : Option State) → Commits o → (s : State) × (o ≡ some s) × IsWellKeyed s.0
Commits-some none h = absurd h
Commits-some (some s) h = (s, refl, h)

-- On a table whose event ids and non-empty dedup keys are pairwise distinct, every batch commits:
-- no statement violates the unique index, the backfill of keys included, and the ids and the
-- non-empty keys of the resulting table are again pairwise distinct.
pub insert_events-IsWellKeyed :
    (t : Table) (es : List Event) (received_at : ℕ) (origin : DeviceOrigin)
    → IsWellKeyed t
    → (s : State) × (insert_events_from_tx t es received_at origin ≡ some s) × IsWellKeyed s.0
unfolding insert_events_from_tx
insert_events-IsWellKeyed t es received_at origin w =
    Commits-some _ (observe_all-Commits received_at origin _ es _ w)

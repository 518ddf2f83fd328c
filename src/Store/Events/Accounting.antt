-- ===== src/Store/Events/Accounting.antt =====
-- The counters of `eventApplyResult` against the rows of the table.
mod Steps
use omni_token.Prelude.{
  ℕ, suc, ◌+◌, ◌≤◌, String, Bool, true, false, not, ◌&&◌, Option, none, some, List, [], ◌∷◌, ◌≡◌,
  refl, ◌∙◌, subst, inl, inr, arith, Pairs, Bool-cases, Option-cases, find_where, count_where,
  length, length-update_where, length-delete_where, count_where-All-false, All-find_where, ◌==◌,
  eq_iff, eq_refl, of_some, if◌then◌else◌,
}
use omni_token.Model.Event.{Event}
use omni_token.Store.Events.{
  reclassify_set, reattribute_set, num_fill_set, text_fill_set, promote_set, dur_fill_set,
  key_fill_set, DeviceOrigin, Row, Table, has_id, owns_key, insert, update_row, drop_copy,
  key_owner,
}
use omni_token.Store.Events.Insert.{
  PriorEventState, EventApplyResult, known_state, no_result, Verdict, self_owns_key, is_copy,
  dropped, stays, against_owner, settle_fork, run_if, run_key_fill, key_fill, key_fill_clashes,
  reclassify, reattribute, num_fill, text_fill, promote, dur_fill,
}
use omni_token.Store.Events.Batch.{
  State, contribute, after_verdict, try_insert, observe, observe_all, insert_events_from_tx,
}
use omni_token.Store.Events.Keys.{OtherId, IsWellKeyed}
use omni_token.Store.Events.Commit.{Commits}
use omni_token.Store.Events.Committed.{observe-Commits, try_insert-IsWellKeyed}
use omni_token.Store.Events.Accounting.Steps.{
  length-run_if, length-insert, count-has_id, Verdict-Accounts, against_owner-Accounts,
  settle_fork-Accounts, length-key_fill,
}

-- The counters that the guarded updates leave alone.
abbrev Keeps-rows : Table → EventApplyResult → Option State → Type 0
Keeps-rows t res none = Unit
Keeps-rows t res (some s) =
    (length s.0 ≡ length t) × (s.1.inserted ≡ res.inserted) × (s.1.deduped ≡ res.deduped)

module _ (known : Option PriorEventState) (e : Event) (t : Table) where
  length-reclassify : length (reclassify known e t).0 ≡ length t
  unfolding reclassify
  length-reclassify = length-run_if _ _ _ (reclassify_set e) t

  length-reattribute : (origin : DeviceOrigin) → length (reattribute origin known e t).0 ≡ length t
  unfolding reattribute
  length-reattribute origin = length-run_if _ _ _ (reattribute_set e) t

  length-num_fill : length (num_fill known e t).0 ≡ length t
  unfolding num_fill
  length-num_fill = length-run_if _ _ _ (num_fill_set e) t

  length-text_fill : length (text_fill known e t).0 ≡ length t
  unfolding text_fill
  length-text_fill = length-run_if _ _ _ (text_fill_set e) t

  length-promote : length (promote known e t).0 ≡ length t
  unfolding promote
  length-promote = length-run_if _ _ _ (promote_set e) t

  length-dur_fill : length (dur_fill known e t).0 ≡ length t
  unfolding dur_fill
  length-dur_fill = length-run_if _ _ _ (dur_fill_set e) t

contribute-Keeps-rows :
    (origin : DeviceOrigin) (known : Option PriorEventState) (e : Event) (t : Table)
    (res : EventApplyResult)
    → Keeps-rows t res (contribute origin known e t res)
unfolding contribute
contribute-Keeps-rows origin known e t res = elim (Option-cases (key_fill known e t)) [
  | inl failed ↦ rw failed tt
  | inr (s, done) ↦ rw done (
    length-dur_fill known e _
        ∙ length-promote known e _
        ∙ length-text_fill known e _
        ∙ length-num_fill known e _
        ∙ length-reattribute known e _ origin
        ∙ length-reclassify known e _
        ∙ length-key_fill known e t done,
    refl,
    refl,
  )
]

-- How an action's state follows from `L` rows with `i` inserted and `d` deleted, by `n` events.
abbrev Follows : ℕ → ℕ → ℕ → ℕ → Option State → Type 0
Follows L i d n none = Unit
Follows L i d n (some s) =
    (length s.0 + s.1.deduped + i ≡ L + d + s.1.inserted) × (s.1.inserted ≤ i + n)

Keeps-rows-Follows :
    (t : Table) (res : EventApplyResult) (o : Option State) (L d : ℕ)
    → Keeps-rows t res o
    → length t + res.deduped ≡ L + d
    → Follows L res.inserted d 1 o
Keeps-rows-Follows t res none L d k h = tt
Keeps-rows-Follows t res (some s) L d k h = omega arith

after_verdict-Follows :
    (origin : DeviceOrigin) (known : Option PriorEventState) (e : Event) (res : EventApplyResult)
    (L : ℕ) (v : Verdict)
    → Verdict-Accounts L v
    → Follows L res.inserted res.deduped 1 (after_verdict origin known e res v)
after_verdict-Follows origin known e res L (dropped t n) h = omega arith
after_verdict-Follows origin known e res L (stays t true n) h = omega arith
after_verdict-Follows origin known e res L (stays t false n) h =
    let res' = record res { deduped = res.deduped + n } in
    Keeps-rows-Follows t res' _ L res.deduped (contribute-Keeps-rows origin known e t res')
      (omega arith)

length-try_insert :
    (received_at : ℕ) (origin : DeviceOrigin) (known : Option PriorEventState) (e : Event)
    (t : Table)
    → length (try_insert received_at origin known e t).0
      ≡ length t + (if (try_insert received_at origin known e t).1 then 1 else 0)
length-try_insert received_at origin none e t = length-insert received_at origin e t
length-try_insert received_at origin (some st) e t = omega arith

module _ (received_at : ℕ) (origin : DeviceOrigin) where
  observe-Follows :
      (known : Option PriorEventState) (e : Event) (s : State)
      → IsWellKeyed s.0
      → Follows (length s.0) s.1.inserted s.1.deduped 1 (observe received_at origin known e s)
  unfolding observe
  observe-Follows known e s w = elim (Bool-cases (e.event_id == "")) [
    | inl blank ↦ rw blank (omega arith)
    | inr named ↦ rw named (
        after_verdict-Follows origin known e s.1 (length s.0) _ (
          settle_fork-Accounts received_at origin e known _ _ (length s.0)
            (length-try_insert received_at origin known e s.0)
            (try_insert-IsWellKeyed received_at origin known e s.0 w).ids))
  ]

  Follows-trans :
      (L i d n : ℕ) (s' : State) (o : Option State)
      → Follows L i d 1 (some s')
      → Follows (length s'.0) s'.1.inserted s'.1.deduped n o
      → Follows L i d (suc n) o
  Follows-trans L i d n s' none h k = tt
  Follows-trans L i d n s' (some s) h k = omega arith

  observe_all-Follows :
      (prior : List (String × PriorEventState)) (es : List Event) (s : State)
      → IsWellKeyed s.0
      → Follows
          (length s.0)
          s.1.inserted
          s.1.deduped
          (length es)
          (observe_all received_at origin prior es s)
  unfolding observe_all
  observe_all-Follows prior [] s w = omega arith
  observe_all-Follows prior (e ∷ es) s w =
      let known = known_state e.event_id prior in
      let first = observe-Follows known e s w in
      let keyed = observe-Commits received_at origin known e s w in
      elim (Option-cases (observe received_at origin known e s)) [
        | inl failed ↦ rw failed tt
        | inr (s', done) ↦ rw done (
            Follows-trans (length s.0) s.1.inserted s.1.deduped (length es) s' _
              (subst (Follows (length s.0) s.1.inserted s.1.deduped 1) done first)
              (observe_all-Follows prior es s' (subst Commits done keyed)))
      ]

-- On a well-keyed table, a batch that commits accounts for every row: rows after plus rows deleted
-- as copies is rows before plus rows inserted, and no more rows are inserted than it has events.
pub insert_events_rows :
    (t : Table) (es : List Event) (received_at : ℕ) (origin : DeviceOrigin) {s : State}
    → IsWellKeyed t
    → insert_events_from_tx t es received_at origin ≡ some s
    → (length s.0 + s.1.deduped ≡ length t + s.1.inserted) × (s.1.inserted ≤ length es)
unfolding insert_events_from_tx
insert_events_rows t es received_at origin w done =
    let (rows, bound) =
      subst (Follows (length t) 0 0 (length es)) done
        (observe_all-Follows received_at origin _ es (t, no_result) w) in
    (omega arith, omega arith)

-- ===== src/Store/Events/Counts.antt =====
-- Which columns a merge may write. The counts, the time and the identity of a row are never among
-- them: every row after a batch has the counts of a stored row, or of an event of the batch.
pub mod Steps
use omni_token.Prelude.{
  not, ◌&&◌, ℕ, String, Bool, true, false, Option, none, some, List, [], ◌∷◌, ◌≡◌, refl, subst, ◌⊎◌,
  inl, inr, All, Any, Bool-cases, Option-cases, All-update_where, All-delete_where, All-mono,
  is_some, find_where, ◌==◌,
}
use omni_token.Model.Event.{Event}
use omni_token.Store.Events.{
  DeviceOrigin, Row, Table, conflicts, insert, update_row, drop_copy, key_fill_set, num_fill_set,
  text_fill_set, dur_fill_set, promote_set, reattribute_set, reclassify_set,
}
use omni_token.Store.Events.Insert.{
  PriorEventState, EventApplyResult, known_state, Verdict, self_owns_key, is_copy, dropped, stays,
  against_owner, settle_fork, run_if, key_fill_clashes, key_fill, reclassify, reattribute, num_fill,
  text_fill, promote, dur_fill,
}
use omni_token.Store.Events.Batch.{
  State, contribute, after_verdict, try_insert, observe, observe_all, insert_events_from_tx,
}
use omni_token.Store.Events.Counts.Steps.{
  Counts, counts, Ensures, Holds, run_if-Holds, insert-Holds, drop_copy-Holds, Verdict-Holds,
  Fill-Holds, key_fill-Holds, reclassify-Holds, reattribute-Holds, num_fill-Holds, text_fill-Holds,
  promote-Holds, dur_fill-Holds,
}

module _ (P : Counts → Type 0) where
  contribute-Holds :
      (origin : DeviceOrigin) (known : Option PriorEventState) (e : Event) (t : Table)
      (res : EventApplyResult)
      → Holds P t
      → Ensures (Holds P) (contribute origin known e t res)
  unfolding contribute
  contribute-Holds origin known e t res h = elim (Option-cases (key_fill known e t)) [
    | inl failed ↦ rw failed tt
    | inr (s, done) ↦ rw done (
        dur_fill-Holds P known e _ (
          promote-Holds P known e _ (
            text_fill-Holds P known e _ (
              num_fill-Holds P known e _ (
                reattribute-Holds P known e _
                  (reclassify-Holds P known e _ (key_fill-Holds P known e t done h)) origin)))))
  ]

  against_owner-Holds :
      (received_at : ℕ) (origin : DeviceOrigin) (e : Event) (t : Table) (owner : Option Row)
      → P (counts e)
      → Holds P t
      → Verdict-Holds P (against_owner received_at origin e t owner)
  against_owner-Holds received_at origin e t none p h = h
  against_owner-Holds received_at origin e t (some o) p h =
      elim (Bool-cases (not (o.event_id == e.event_id))) [
        | inr same ↦ rw same h
        | inl other ↦ rw other (elim (Bool-cases (is_copy e o)) [
          | inl copy ↦ rw copy (drop_copy-Holds P e.event_id t h)
          | inr original ↦
              rw original
                (insert-Holds P received_at origin e _ p (drop_copy-Holds P o.event_id t h))
        ])
      ]

  settle_fork-Holds :
      (received_at : ℕ) (origin : DeviceOrigin) (known : Option PriorEventState) (e : Event)
      (t : Table) (stored : Bool)
      → P (counts e)
      → Holds P t
      → Verdict-Holds P (settle_fork received_at origin known e t stored)
  unfolding settle_fork
  settle_fork-Holds received_at origin known e t stored p h =
      elim (Bool-cases (not stored && not (e.dedup_key == "") && not (self_owns_key e known))) [
        | inl refused ↦ rw refused (against_owner-Holds received_at origin e t _ p h)
        | inr settled ↦ rw settled h
      ]

  after_verdict-Holds :
      (origin : DeviceOrigin) (known : Option PriorEventState) (e : Event) (res : EventApplyResult)
      (v : Verdict)
      → Verdict-Holds P v
      → Ensures (Holds P) (after_verdict origin known e res v)
  after_verdict-Holds origin known e res (dropped t n) h = h
  after_verdict-Holds origin known e res (stays t true n) h = h
  after_verdict-Holds origin known e res (stays t false n) h = contribute-Holds origin known e t _ h

  try_insert-Holds :
      (received_at : ℕ) (origin : DeviceOrigin) (known : Option PriorEventState) (e : Event)
      (t : Table)
      → P (counts e)
      → Holds P t
      → Holds P (try_insert received_at origin known e t).0
  try_insert-Holds received_at origin none e t p h = insert-Holds P received_at origin e t p h
  try_insert-Holds received_at origin (some st) e t p h = h

  observe-Holds :
      (received_at : ℕ) (origin : DeviceOrigin) (known : Option PriorEventState) (e : Event)
      (s : State)
      → P (counts e)
      → Holds P s.0
      → Ensures (Holds P) (observe received_at origin known e s)
  unfolding observe
  observe-Holds received_at origin known e s p h = elim (Bool-cases (e.event_id == "")) [
    | inl blank ↦ rw blank h
    | inr named ↦ rw named (
        after_verdict-Holds origin known e s.1 _ (
          settle_fork-Holds received_at origin known e _ _ p
            (try_insert-Holds received_at origin known e s.0 p h)))
  ]

  -- A property of the counted columns that the table and every event of the batch have, the
  -- table has after the batch.
  pub observe_all-Holds :
      (received_at : ℕ) (origin : DeviceOrigin) (prior : List (String × PriorEventState))
      (es : List Event) (s : State)
      → All (λ e. P (counts e)) es
      → Holds P s.0
      → Ensures (Holds P) (observe_all received_at origin prior es s)
  unfolding observe_all
  observe_all-Holds received_at origin prior [] s p h = h
  observe_all-Holds received_at origin prior (e ∷ es) s p h =
      let first = observe-Holds received_at origin (known_state e.event_id prior) e s p.0 h in
      elim (Option-cases (observe received_at origin (known_state e.event_id prior) e s)) [
        | inl failed ↦ rw failed tt
        | inr (s', done) ↦ rw done (
            observe_all-Holds received_at origin prior es s' p.1
              (subst (Ensures (Holds P)) done first))
      ]

-- The counts `c` are those of a row of the table or of an event of the batch.
abbrev pub Recorded : Table → List Event → Counts → Type 0
Recorded t es c = Any (λ (r : Row). counts r.event ≡ c) t ⊎ Any (λ e. counts e ≡ c) es

All-self-Any {ℓ} :
    {A : Type ℓ} (f : A → Counts) (xs : List A) → All (λ x. Any (λ y. f y ≡ f x) xs) xs
All-self-Any f [] = tt
All-self-Any f (x ∷ xs) =
    (inl refl, All-mono (λ y. Any (λ z. f z ≡ f y) xs) _ xs (λ y m. inr m) (All-self-Any f xs))

insert_events-Ensures :
    (t : Table) (es : List Event) (received_at : ℕ) (origin : DeviceOrigin)
    → Ensures (Holds (Recorded t es)) (insert_events_from_tx t es received_at origin)
unfolding insert_events_from_tx
insert_events-Ensures t es received_at origin =
    observe_all-Holds (Recorded t es) received_at origin _ es _
      (All-mono (λ e. Any (λ f. counts f ≡ counts e) es) _ es (λ e m. inr m)
        (All-self-Any counts es))
      (All-mono (λ (r : Row). Any (λ (q : Row). counts q.event ≡ counts r.event) t) _ t
        (λ r m. inl m) (All-self-Any (λ (r : Row). counts r.event) t))

-- When a batch commits, whatever it holds and whatever the table was, every row has exactly the
-- id, time, model, account and token counts of a row that was stored before or of an event of the
-- batch: a merge fills and re-attributes, and never writes a counted column.
pub insert_events-Recorded :
    (t : Table) (es : List Event) (received_at : ℕ) (origin : DeviceOrigin) {s : State}
    → insert_events_from_tx t es received_at origin ≡ some s
    → Holds (Recorded t es) s.0
insert_events-Recorded t es received_at origin done =
    subst (Ensures (Holds (Recorded t es))) done (insert_events-Ensures t es received_at origin)

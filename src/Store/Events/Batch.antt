-- ===== src/Store/Events/Batch.antt =====
-- internal/store/store.go: the loop of `insertEventsFromTx` over a batch, and its callers
-- `InsertEventsFrom` and `InsertEvents`.
use omni_token.Prelude.{
  ℕ, ◌+◌, String, Bool, true, false, ◌||◌, Option, none, some, List, [], ◌∷◌, ◌==◌, ltb,
  if◌then◌else◌, ◌>>=◌,
}
use omni_token.Model.Event.{Event}
use omni_token.Store.Events.{DeviceOrigin, self, Table, insert}
use omni_token.Store.Events.Insert.{
  EventApplyResult, no_result, PriorEventState, load_prior_event_state, known_state, Verdict,
  dropped, stays, settle_fork, key_fill, reclassify, reattribute, num_fill, text_fill, promote,
  dur_fill,
}

-- `m[key] += n`
pub add_count : String → ℕ → List (String × ℕ) → List (String × ℕ)
add_count key n [] = (key, n) ∷ []
add_count key n ((k, v) ∷ m) = if k == key then (k, v + n) ∷ m else (k, v) ∷ add_count key n m

abbrev pub State : Type 0
State = Table × EventApplyResult

-- What an observation of a stored event contributes: every guarded update, in the code's order.
unfoldable pub contribute :
    DeviceOrigin → Option PriorEventState → Event → Table → EventApplyResult → Option State
unfolding add_count
contribute origin known e t res = do
  (t1, keyed) ← key_fill known e t
  let (t2, reclassed) = reclassify known e t1
  let (t3, moved) = reattribute origin known e t2
  let (t4, timed) = num_fill known e t3
  let (t5, texted) = text_fill known e t4
  let (t6, promoted) = promote known e t5
  let (t7, lasted) = dur_fill known e t6
  let changed = ltb 0 keyed || ltb 0 timed || ltb 0 texted || ltb 0 promoted || ltb 0 lasted
  some (
    t7,
    record res {
      filled = res.filled + (if changed then 1 else 0);
      reattributed = res.reattributed + (if ltb 0 moved then 1 else 0);
      reclassified =
          (if ltb 0 reclassed
            then add_count e.provider reclassed res.reclassified
            else res.reclassified);
    },
  )

abbrev pub after_verdict :
    DeviceOrigin → Option PriorEventState → Event → EventApplyResult → Verdict → Option State
after_verdict origin known e res (dropped t n) = some (t, record res { deduped = res.deduped + n })
after_verdict origin known e res (stays t true n) =
    some (t, record res { deduped = res.deduped + n; inserted = res.inserted + 1 })
after_verdict origin known e res (stays t false n) =
    contribute origin known e t (record res { deduped = res.deduped + n })

-- The first attempt at an INSERT is made only for an id that the load did not find.
abbrev pub try_insert : ℕ → DeviceOrigin → Option PriorEventState → Event → Table → Table × Bool
try_insert received_at origin none e t = insert received_at origin e t
try_insert received_at origin (some st) e t = (t, false)

-- One round of the loop, for an event whose loaded state is `known`.
unfoldable pub observe : ℕ → DeviceOrigin → Option PriorEventState → Event → State → Option State
observe received_at origin known e (t, res) =
    if e.event_id == ""
    then some (t, res)
    else (let (t', stored) = try_insert received_at origin known e t in
        after_verdict origin known e res (settle_fork received_at origin known e t' stored))

unfoldable pub observe_all :
    ℕ → DeviceOrigin → List (String × PriorEventState) → List Event → State → Option State
unfolding known_state
observe_all received_at origin prior [] s = some s
observe_all received_at origin prior (e ∷ es) s =
    observe received_at origin (known_state e.event_id prior) e s >>= λ s'.
    observe_all received_at origin prior es s'

unfoldable pub insert_events_from_tx : Table → List Event → ℕ → DeviceOrigin → Option State
unfolding load_prior_event_state
insert_events_from_tx t events received_at origin =
    observe_all received_at origin (load_prior_event_state t events) events (t, no_result)

-- A failed transaction leaves the table as it was; the count is the one reached before the error
-- in the code and is not modelled there.
abbrev commit_or : Table → Option State → Table × Option ℕ
commit_or t none = (t, none)
commit_or t (some (t', res)) = (t', some res.inserted)

unfoldable pub insert_events_from : Table → List Event → ℕ → DeviceOrigin → Table × Option ℕ
insert_events_from t [] received_at origin = (t, some 0)
insert_events_from t (e ∷ es) received_at origin =
    commit_or t (insert_events_from_tx t (e ∷ es) received_at origin)

unfoldable pub insert_events : Table → List Event → ℕ → Table × Option ℕ
insert_events t events received_at = insert_events_from t events received_at self

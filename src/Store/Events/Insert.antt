-- ===== src/Store/Events/Insert.antt =====
-- internal/store/store.go: `insertEventsFromTx`, the loop that merges a batch of observations into
-- the table, with the state that it loads once for the batch. `none` is a violated constraint of
-- the unique index, which rolls the transaction back.
use Prim.Native.Nat.{Ordering}
use Prim.Native.String.{compare}
use omni_token.Prelude.{
  ℕ, String, Bool, true, false, not, ◌&&◌, ◌||◌, Option, none, some, List, [], ◌∷◌, ◌==◌, ltb, eqb,
  if◌then◌else◌, is_some, find_where,
}
use omni_token.Model.Event.{Event}
use omni_token.Model.Provider.{provider_rank}
use omni_token.Store.Events.{
  DeviceOrigin, Row, Table, owns_key, is_observed, insert, key_owner, update_row, drop_copy,
  key_fill_guard, key_fill_set, num_fill_guard, num_fill_set, text_fill_guard, text_fill_set,
  dur_fill_guard, dur_fill_set, promote_guard, promote_set, reattribute_guard, reattribute_set,
  reclassify_guard, reclassify_set,
}

pub record EventApplyResult : Type 0 where
  pub inserted : ℕ
  pub filled : ℕ
  pub reattributed : ℕ
  pub deduped : ℕ
  pub reclassified : List (String × ℕ)

abbrev pub no_result : EventApplyResult
no_result = record { inserted = 0; filled = 0; reattributed = 0; deduped = 0; reclassified = [] }

abbrev is_empty {ℓ} : {A : Type ℓ} → List A → Bool
is_empty [] = true
is_empty (x ∷ xs) = false

unfoldable pub mutated : EventApplyResult → Bool
mutated r =
    ltb 0 r.inserted
    || ltb 0 r.filled
    || ltb 0 r.reattributed
    || ltb 0 r.deduped
    || not (is_empty r.reclassified)

-- The columns that the guarded updates read.
pub record PriorEventState : Type 0 where
  pub gen_ms : ℕ
  pub ttft_ms : ℕ
  pub duration_ms : ℕ
  pub session_id : String
  pub cwd : String
  pub repo : String
  pub git_branch : String
  pub app_version : String
  pub source : String
  pub device_origin : DeviceOrigin
  pub provider : String
  pub dedup_key : String

abbrev pub state_of : Row → PriorEventState
state_of r = record {
  gen_ms = r.gen_ms;
  ttft_ms = r.ttft_ms;
  duration_ms = r.duration_ms;
  session_id = r.session_id;
  cwd = r.cwd;
  repo = r.repo;
  git_branch = r.git_branch;
  app_version = r.app_version;
  source = r.source;
  device_origin = r.device_origin;
  provider = r.provider;
  dedup_key = r.dedup_key;
}

abbrev pub mentions : String → List Event → Bool
mentions id [] = false
mentions id (e ∷ es) = (not (e.event_id == "") && e.event_id == id) || mentions id es

-- SELECT … WHERE event_id IN (the ids of the batch)
unfoldable pub load_prior_event_state : Table → List Event → List (String × PriorEventState)
load_prior_event_state [] es = []
load_prior_event_state (r ∷ t) es =
    let rest = load_prior_event_state t es in
    if mentions r.event_id es then (r.event_id, state_of r) ∷ rest else rest

unfoldable pub known_state : String → List (String × PriorEventState) → Option PriorEventState
known_state id [] = none
known_state id ((k, st) ∷ m) = if k == id then some st else known_state id m

-- `known == nil || test known`
abbrev pub unless_known : (PriorEventState → Bool) → Option PriorEventState → Bool
unless_known test none = true
unless_known test (some st) = test st

abbrev pub self_owns_key : Event → Option PriorEventState → Bool
self_owns_key e none = false
self_owns_key e (some st) = not (e.dedup_key == "") && st.dedup_key == e.dedup_key

abbrev pub text_lt : String → String → Bool
text_lt s t = elim (compare s t) [ Ordering.lt ↦ true | _ ↦ false ]

-- The verdict on a refused observation: it is the copy and is dropped, or it stays.
pub data Verdict : Type 0 where
  dropped : Table → ℕ → Verdict
  stays : Table → Bool → ℕ → Verdict

-- `e` is the copy of the row `o` that owns its key: the later one, on a tie the larger id.
abbrev pub is_copy : Event → Row → Bool
is_copy e o = ltb o.ts e.ts || (eqb e.ts o.ts && text_lt o.event_id e.event_id)

abbrev pub against_owner : ℕ → DeviceOrigin → Event → Table → Option Row → Verdict
against_owner received_at origin e t none = stays t false 0
against_owner received_at origin e t (some o) =
    if not (o.event_id == e.event_id) && is_copy e o
    then (let (t', n) = drop_copy e.event_id t in dropped t' n)
    else if not (o.event_id == e.event_id)
    then (let (t', n) = drop_copy o.event_id t in
        let (t'', stored) = insert received_at origin e t' in stays t'' stored 1)
    else stays t false 0

unfoldable pub settle_fork :
    ℕ → DeviceOrigin → Option PriorEventState → Event → Table → Bool → Verdict
settle_fork received_at origin known e t stored =
    if not stored && not (e.dedup_key == "") && not (self_owns_key e known)
    then against_owner received_at origin e t (key_owner e.dedup_key t)
    else stays t stored 0

-- A statement that runs only if its gate is open.
unfoldable pub run_if : Bool → String → (Row → Bool) → (Row → Row) → Table → Table × ℕ
run_if gate id guard f t = if gate then update_row id guard f t else (t, 0)

abbrev pub key_fill_gate : Option PriorEventState → Event → Bool
key_fill_gate known e = not (e.dedup_key == "") && unless_known (λ st. st.dedup_key == "") known

unfoldable pub run_key_fill : Option PriorEventState → Event → Table → Table × ℕ
run_key_fill known e = run_if (key_fill_gate known e) e.event_id key_fill_guard (key_fill_set e)

-- The unique index refuses the write if another row owns the key.
abbrev pub key_fill_clashes : Option PriorEventState → Event → Table → Bool
key_fill_clashes known e t =
    ltb 0 (run_key_fill known e t).1 && is_some (find_where (owns_key e.dedup_key) t)

-- The backfill of the key.
unfoldable pub key_fill : Option PriorEventState → Event → Table → Option (Table × ℕ)
unfolding run_key_fill
key_fill known e t = if key_fill_clashes known e t then none else some (run_key_fill known e t)

unfoldable pub reclassify : Option PriorEventState → Event → Table → Table × ℕ
reclassify known e =
    run_if
      (not (e.provider == "")
        && unless_known (λ st. ltb (provider_rank st.provider) (provider_rank e.provider)) known)
      e.event_id (reclassify_guard e) (reclassify_set e)

unfoldable pub reattribute : DeviceOrigin → Option PriorEventState → Event → Table → Table × ℕ
reattribute origin known e =
    run_if
      (not (is_observed origin)
        && not (e.device == "")
        && unless_known (λ st. is_observed st.device_origin) known)
      e.event_id (reattribute_guard e) (reattribute_set e)

unfoldable pub num_fill : Option PriorEventState → Event → Table → Table × ℕ
num_fill known e =
    run_if
      ((ltb 0 e.gen_ms || ltb 0 e.ttft_ms)
        && unless_known
            (λ st. (eqb st.gen_ms 0 && ltb 0 e.gen_ms) || (eqb st.ttft_ms 0 && ltb 0 e.ttft_ms))
            known)
      e.event_id (num_fill_guard e) (num_fill_set e)

abbrev pub text_fill_needed : Event → PriorEventState → Bool
text_fill_needed e p =
    (p.session_id == "" && not (e.session_id == ""))
    || (p.cwd == "" && not (e.cwd == ""))
    || (p.repo == "" && not (e.repo == ""))
    || (p.git_branch == "" && not (e.git_branch == ""))
    || (p.app_version == "" && not (e.app_version == ""))

unfoldable pub text_fill : Option PriorEventState → Event → Table → Table × ℕ
text_fill known e =
    run_if
      ((not (e.session_id == "")
          || not (e.cwd == "")
          || not (e.repo == "")
          || not (e.git_branch == "")
          || not (e.app_version == ""))
        && unless_known (text_fill_needed e) known)
      e.event_id (text_fill_guard e) (text_fill_set e)

-- `e.Source != "" && e.Source != "proxy"`
abbrev pub from_tool : Event → Bool
from_tool e = not (e.source == "") && not (e.source == "proxy")

unfoldable pub promote : Option PriorEventState → Event → Table → Table × ℕ
promote known e =
    run_if (from_tool e && unless_known (λ st. st.source == "proxy") known) e.event_id
      (promote_guard e) (promote_set e)

unfoldable pub dur_fill : Option PriorEventState → Event → Table → Table × ℕ
dur_fill known e =
    run_if (from_tool e && ltb 0 e.duration_ms && unless_known (λ st. eqb st.duration_ms 0) known)
      e.event_id (dur_fill_guard e) (dur_fill_set e)

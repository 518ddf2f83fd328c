-- ===== src/Collect/Scan.antt =====
-- internal/collect/scan.go: scanning one log file into the sinks. The file, its parser, the digest of
-- a batch and the repository of a directory are parameters; a sink or a save may fail at any call.
pub mod File
pub mod Sound
pub mod Delivered
pub mod Commit
pub mod Runs
pub mod Names
pub mod Grows
pub mod Onward
pub mod Kept
use Prim.Native.String.{◌++◌ as append}
use omni_token.Prelude.{
  ℕ, zero, suc, ◌+◌, ◌-◌, String, Bool, true, false, not, ◌&&◌, ◌||◌, Option, none, some, List, [],
  ◌∷◌, ◌++◌, ◌==◌, eqb, ltb, leb, is_some, if◌then◌else◌, length, take, drop, decimal, select_where,
}
use omni_token.Fallible.{Fallible, ok, err}
use omni_token.Model.Event.{Event}
use omni_token.Model.Snapshot.{QuotaSnapshot}
use omni_token.Collect.State.{
  InFlightScan, State, Process, offset_of, chunk_delivered, delivery_done, begin_scan,
  mark_delivery_done, discard_scan, commit, repo_for,
}

abbrev pub sink_batch : ℕ
sink_batch = 2000

pub record ParseResult : Type 0 where
  pub events : List Event
  pub quotas : List QuotaSnapshot
  pub consumed : ℕ
  pub turn_start_ms : ℕ

pub data ScanError : Type 0 where
  discard_failed begin_failed resume_mismatch unidentified sink_failed mark_failed : ScanError
  quota_sink_failed commit_failed : ScanError

-- The process, what the sinks have accepted, and the number of calls to them.
pub record World : Type 0 where
  pub process : Process
  pub accepted : List (List Event)
  pub accepted_quotas : List (List QuotaSnapshot)
  pub sends : ℕ

abbrev pub Outcome : Type 0 → Type 0
Outcome A = World × Fallible ScanError A

-- Goes on only after a success; the world is kept either way.
abbrev pub and_then : {A B : Type 0} → Outcome A → (A → World → Outcome B) → Outcome B
and_then (w, ok a) next = next a w
and_then (w, err why) next = (w, err why)

abbrev pub with_process : World → Process → World
with_process w p = record w { process = p }

-- A call on the state that the scan stops at if it fails.
abbrev pub checked : ScanError → World → Process × Bool → Outcome (Unit {0})
checked why w (p, true) = (with_process w p, ok tt)
checked why w (p, false) = (with_process w p, err why)

abbrev pub from_time : ℕ → Event → Bool
from_time cutoff e = leb cutoff e.ts

unfoldable pub drop_before : Option ℕ → List Event → List Event
unfolding select_where
drop_before none es = es
drop_before (some cutoff) es = select_where (from_time cutoff) es

-- The batches of `sinkBatch` events, on fuel: the number of events.
unfoldable pub batches : ℕ → List Event → List (List Event)
batches fuel [] = []
batches zero (e ∷ es) = []
batches (suc fuel) (e ∷ es) = take sink_batch (e ∷ es) ∷ batches fuel (drop sink_batch (e ∷ es))

-- "%s:%d:%x"
unfoldable pub logical_delivery_key : String → ℕ → String → String
unfolding decimal
logical_delivery_key kind ordinal digest =
    append kind (append ":" (append (decimal ordinal) (append ":" digest)))

abbrev pub keyed : String → ℕ → Option String → Option String
keyed kind ordinal none = none
keyed kind ordinal (some digest) = some (logical_delivery_key kind ordinal digest)

-- `nextChunks`: the key of each ordinal.
abbrev pub chunk_map : List String → ℕ → Option String
chunk_map [] i = none
chunk_map (k ∷ ks) zero = some k
chunk_map (k ∷ ks) (suc i) = chunk_map ks i

abbrev pub turn_start_of : Option InFlightScan → ℕ
turn_start_of none = 0
turn_start_of (some scan) = scan.turn_start_ms

module _ (save_ok : ℕ → Bool) where
  abbrev pub resolved : String → Option (String → String) → Event → World → World × Event
  resolved device none e w = (w, e)
  resolved device (some resolve) e w =
      let (p, repo) = repo_for save_ok device e.cwd resolve w.process in
      if e.cwd == "" then (w, e) else (with_process w p, record e { repo = repo })

  unfoldable pub resolve_repos :
      String → Option (String → String) → List Event → World → World × List Event
  unfolding repo_for
  resolve_repos device resolve [] w = (w, [])
  resolve_repos device resolve (e ∷ es) w =
      let (w1, e') = resolved device resolve e w in
      let (w2, es') = resolve_repos device resolve es w1 in (w2, e' ∷ es')

module _ (save_ok sink_ok : ℕ → Bool) (events_digest : List Event → Option String)
    (quotas_digest : List QuotaSnapshot → Option String) where
  abbrev pub events_key : ℕ → List Event → Option String
  events_key ordinal es = keyed "events" ordinal (events_digest es)

  abbrev pub quotas_key : List QuotaSnapshot → Option String
  quotas_key qs = keyed "quotas" 0 (quotas_digest qs)

  abbrev pub sent_events : String → String → List Event → World → Bool → Outcome String
  sent_events path key es w false = (record w { sends = suc w.sends }, err sink_failed)
  sent_events path key es w true =
      let w' = record w { accepted = es ∷ w.accepted; sends = suc w.sends } in
      and_then (checked mark_failed w' (mark_delivery_done save_ok path key w'.process))
        (λ u w''. (w'', ok key))

  -- One round of the loop, with the key that it leaves for the next committed chunks.
  abbrev pub deliver_keyed : String → Bool → ℕ → List Event → Option String → World → Outcome String
  deliver_keyed path cross ordinal es none w = (w, err unidentified)
  deliver_keyed path cross ordinal es (some key) w =
      if (cross && chunk_delivered path ordinal key w.process.memory)
        || delivery_done path key w.process.memory
      then (w, ok key)
      else sent_events path key es w (sink_ok w.sends)

  unfoldable pub deliver_events :
      String → Bool → ℕ → List (List Event) → World → Outcome (List String)
  unfolding chunk_delivered delivery_done mark_delivery_done
  deliver_events path cross ordinal [] w = (w, ok [])
  deliver_events path cross ordinal (es ∷ more) w =
      and_then (deliver_keyed path cross ordinal es (events_key ordinal es) w) (λ key w'.
        and_then (deliver_events path cross (suc ordinal) more w')
          (λ keys w''. (w'', ok (key ∷ keys))))

  abbrev pub sent_quotas : String → String → List QuotaSnapshot → World → Bool → Outcome (Unit {0})
  sent_quotas path key qs w false = (record w { sends = suc w.sends }, err quota_sink_failed)
  sent_quotas path key qs w true =
      let w' = record w { accepted_quotas = qs ∷ w.accepted_quotas; sends = suc w.sends } in
      checked mark_failed w' (mark_delivery_done save_ok path key w'.process)

  abbrev pub deliver_quotas_keyed :
      String → List QuotaSnapshot → Option String → World → Outcome (Unit {0})
  deliver_quotas_keyed path qs none w = (w, err unidentified)
  deliver_quotas_keyed path qs (some key) w =
      if delivery_done path key w.process.memory
      then (w, ok tt)
      else sent_quotas path key qs w (sink_ok w.sends)

  -- `wanted` says that there is a quota sink.
  unfoldable pub deliver_quotas : String → Bool → List QuotaSnapshot → World → Outcome (Unit {0})
  unfolding delivery_done mark_delivery_done
  deliver_quotas path false qs w = (w, ok tt)
  deliver_quotas path true [] w = (w, ok tt)
  deliver_quotas path true (q ∷ qs) w = deliver_quotas_keyed path (q ∷ qs) (quotas_key (q ∷ qs)) w

  -- After the events' repositories: the deliveries and the commit. `cross` is `crossScan`.
  unfoldable pub deliver_all :
      String → Bool → Bool → ℕ → ℕ → List QuotaSnapshot → List Event → World → Outcome ℕ
  unfolding batches deliver_events deliver_quotas commit
  deliver_all path cross wanted end turn_start quotas events w =
      and_then (deliver_events path cross 0 (batches (length events) events) w) (λ keys w1.
        and_then (deliver_quotas path wanted quotas w1) (λ u w2.
          and_then
            (checked commit_failed w2 (
              commit save_ok path end turn_start (if cross then some (chunk_map keys) else none)
                w2.process))
            (λ u w3. (w3, ok (length events)))))

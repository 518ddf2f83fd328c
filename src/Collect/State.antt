-- ===== src/Collect/State.antt =====
-- internal/collect/state.go: what the collector remembers of each log file, in memory and on disk. A
-- map is a function; the number of files that ResetOffsets returns is left out.
pub mod Rollback
use omni_token.Prelude.{
  ℕ, suc, String, Bool, true, false, not, ◌||◌, Option, none, some, ◌==◌, ltb, eqb, is_some,
  if◌then◌else◌,
}
use Prim.Native.String.{◌++◌ as append}

abbrev pub Map : Type 0 → Type 0
Map V = String → Option V

abbrev pub put : {V : Type 0} → String → V → Map V → Map V
put key v m k = if k == key then some v else m k

abbrev pub remove : {V : Type 0} → String → Map V → Map V
remove key m k = if k == key then none else m k

abbrev pub no_entries : {V : Type 0} → Map V
no_entries k = none

pub record InFlightScan : Type 0 where
  pub scan_start : ℕ
  pub scan_end : ℕ
  pub turn_start_ms : ℕ
  pub delivered : String → Bool

pub record State : Type 0 where
  pub files : Map ℕ
  pub repo_by_cwd : Map String
  pub turn_start : Map ℕ
  pub in_flight : Map InFlightScan
  pub chunks : Map (ℕ → Option String)

abbrev pub new_state : State
new_state = record {
  files = no_entries;
  repo_by_cwd = no_entries;
  turn_start = no_entries;
  in_flight = no_entries;
  chunks = no_entries;
}

-- The state file, as it reads.
pub data Disk : Type 0 where
  missing unreadable corrupt : Disk
  holds : State → Disk

unfoldable pub usable_scan : String → Option InFlightScan → Option InFlightScan
usable_scan file none = none
usable_scan file (some scan) =
    if file == "" || ltb scan.scan_end scan.scan_start then none else some scan

unfoldable pub load_state : Disk → Option State
unfolding usable_scan
load_state missing = some new_state
load_state unreadable = none
load_state corrupt = some new_state
load_state (holds s) = some (record s { in_flight = λ file. usable_scan file (s.in_flight file) })

-- The process: its memory, the file, and the number of saves it has tried.
pub record Process : Type 0 where
  pub memory : State
  pub disk : Disk
  pub saves : ℕ

-- Whether a save succeeds; the file is replaced as a whole or not at all.
abbrev pub saved : Bool → State → State → Process → Process × Bool
saved true new old p = (record p { memory = new; disk = holds new; saves = suc p.saves }, true)
saved false new old p = (record p { memory = old; saves = suc p.saves }, false)

abbrev pub restored : {V : Type 0} → String → Option V → Map V → Map V
restored file none m = remove file m
restored file (some v) m = put file v m

abbrev pub offset_of : Option ℕ → ℕ
offset_of none = 0
offset_of (some n) = n

abbrev pub with_delivered : String → InFlightScan → InFlightScan
with_delivered key scan = record scan {
  delivered = λ k. if k == key then true else scan.delivered k;
}

abbrev pub is_delivered : String → Option InFlightScan → Bool
is_delivered key none = false
is_delivered key (some scan) = scan.delivered key

abbrev pub chunk_at : ℕ → Option (ℕ → Option String) → String
chunk_at i none = ""
chunk_at i (some m) = elim (m i) [ none ↦ "" | some key ↦ key ]

-- `s.Chunks[file][ordinal] == key`
unfoldable pub chunk_delivered : String → ℕ → String → State → Bool
chunk_delivered file ordinal key s = chunk_at ordinal (s.chunks file) == key

unfoldable pub delivery_done : String → String → State → Bool
delivery_done file key s = is_delivered key (s.in_flight file)

-- A call that may change the state.
pub data StateCall : Type 0 where
  reset_call : StateCall
  begin_call : String → ℕ → ℕ → ℕ → StateCall
  mark_call : String → String → StateCall
  discard_call : String → StateCall
  commit_call : String → ℕ → ℕ → Option (ℕ → Option String) → StateCall
  repo_call : String → String → (String → String) → StateCall

abbrev pub put_back : {V : Type 0} → String → Option V → Map V → Map V
put_back file none m = m
put_back file (some v) m = put file v m

abbrev pub put_chunks :
    String → Option (ℕ → Option String) → Map (ℕ → Option String) → Map (ℕ → Option String)
put_chunks file none m = m
put_chunks file (some c) m = put file c m

abbrev pub restored_chunks :
    String
    → Option (ℕ → Option String)
    → Option (ℕ → Option String)
    → Map (ℕ → Option String)
    → Map (ℕ → Option String)
restored_chunks file none old m = m
restored_chunks file (some c) old m = restored file old m

module _ (save_ok : ℕ → Bool) where
  abbrev pub save : State → State → Process → Process × Bool
  save new old p = saved (save_ok p.saves) new old p

  unfoldable pub reset_offsets : Process → Process × Bool
  reset_offsets p =
      let s = p.memory in
      let new = record s {
        files = no_entries;
        turn_start = no_entries;
        in_flight = no_entries;
        chunks = no_entries;
      } in
      save new
        (record new {
          files = s.files;
          turn_start = s.turn_start;
          in_flight = s.in_flight;
          chunks = s.chunks;
        })
        p

  unfoldable pub begin_scan : String → ℕ → ℕ → ℕ → Process → Process × Bool
  begin_scan file start end turn_start p =
      let scan : InFlightScan = record {
        scan_start = start;
        scan_end = end;
        turn_start_ms = turn_start;
        delivered = λ k. false;
      } in
      let new = record p.memory { in_flight = put file scan p.memory.in_flight } in
      let tried = save new (record new { in_flight = remove file new.in_flight }) p in
      if is_some (p.memory.in_flight file) then (p, true) else tried

  abbrev pub mark_scan : String → String → Option InFlightScan → Process → Process × Bool
  mark_scan file key none p = (p, false)
  mark_scan file key (some scan) p =
      let new = record p.memory {
        in_flight = put file (with_delivered key scan) p.memory.in_flight;
      } in
      let tried = save new (record new { in_flight = put file scan new.in_flight }) p in
      if scan.delivered key then (p, true) else tried

  unfoldable pub mark_delivery_done : String → String → Process → Process × Bool
  mark_delivery_done file key p = mark_scan file key (p.memory.in_flight file) p

  unfoldable pub discard_scan : String → Process → Process × Bool
  discard_scan file p =
      let s = p.memory in
      let new = record s { in_flight = remove file s.in_flight; chunks = remove file s.chunks } in
      let tried =
        save new
          (record new {
            in_flight = put_back file (s.in_flight file) new.in_flight;
            chunks = put_back file (s.chunks file) new.chunks;
          })
          p in
      if is_some (s.in_flight file) || is_some (s.chunks file) then tried else (p, true)

  unfoldable pub commit : String → ℕ → ℕ → Option (ℕ → Option String) → Process → Process × Bool
  commit file offset turn_start chunks p =
      let s = p.memory in
      let new = record s {
        files = put file offset s.files;
        turn_start = if ltb 0 turn_start then put file turn_start s.turn_start else s.turn_start;
        in_flight = remove file s.in_flight;
        chunks = put_chunks file chunks s.chunks;
      } in
      save new
        (record new {
          files = restored file (s.files file) new.files;
          turn_start = restored file (s.turn_start file) new.turn_start;
          in_flight = put_back file (s.in_flight file) new.in_flight;
          chunks = restored_chunks file chunks (s.chunks file) new.chunks;
        })
        p

  abbrev pub cached_repo :
      Option String → String → (String → String) → String → Process → Process × String
  cached_repo (some repo) key resolve cwd p = (p, repo)
  cached_repo none key resolve cwd p =
      let repo = resolve cwd in
      let new = record p.memory { repo_by_cwd = put key repo p.memory.repo_by_cwd } in
      ((save new new p).0, repo)

  -- The save's result is ignored.
  unfoldable pub repo_for : String → String → (String → String) → Process → Process × String
  repo_for device cwd resolve p =
      let key = append device (append "|" cwd) in
      cached_repo (p.memory.repo_by_cwd key) key resolve cwd p

  -- The process after a call, and false if the call returned an error, which RepoFor cannot.
  unfoldable pub run_call : StateCall → Process → Process × Bool
  unfolding reset_offsets begin_scan mark_delivery_done discard_scan commit repo_for
  run_call reset_call p = reset_offsets p
  run_call (begin_call file start end turn_start) p = begin_scan file start end turn_start p
  run_call (mark_call file key) p = mark_delivery_done file key p
  run_call (discard_call file) p = discard_scan file p
  run_call (commit_call file offset turn_start chunks) p = commit file offset turn_start chunks p
  run_call (repo_call device cwd resolve) p = ((repo_for device cwd resolve p).0, true)

-- ===== src/Collect/State/Rollback.antt =====
-- internal/collect/state.go: what a failed save leaves, and what a successful one writes.
use mathlib.Core.Path.{fun_ext}
use Prim.Native.String.{◌++◌ as append}
use omni_token.Prelude.{
  ℕ, String, Bool, true, false, Option, none, some, ◌≡◌, ◌⊎◌, refl, ap, inl, inr, arith,
  Option-cases, Bool-cases, eq_iff, ltb, is_some, if◌then◌else◌,
}
use omni_token.Collect.State.{
  Map, put, remove, InFlightScan, State, holds, Process, saved, restored, put_back, put_chunks,
  restored_chunks, reset_offsets, begin_scan, mark_scan, mark_delivery_done, discard_scan, commit,
  StateCall, reset_call, begin_call, mark_call, discard_call, commit_call, repo_call, run_call,
  repo_for,
}

module _ {V : Type 0} (file : String) (m : Map V) where
  restored-put : (v : V) → restored file (m file) (put file v m) ≡ m
  restored-put v = elim (Option-cases (m file)) [
    | inl absent ↦ rw absent (fun_ext λ k. ground (arith, eq_iff k file, absent))
    | inr (old, present) ↦ rw present (fun_ext λ k. ground (arith, eq_iff k file, present))
  ]

  put_back-remove : put_back file (m file) (remove file m) ≡ m
  put_back-remove = elim (Option-cases (m file)) [
    | inl absent ↦ rw absent (fun_ext λ k. ground (arith, eq_iff k file, absent))
    | inr (old, present) ↦ rw present (fun_ext λ k. ground (arith, eq_iff k file, present))
  ]

  remove-put : (v : V) → m file ≡ none → remove file (put file v m) ≡ m
  remove-put v absent = fun_ext λ k. ground (arith, eq_iff k file, absent)

  put-put : (v w : V) → m file ≡ some v → put file v (put file w m) ≡ m
  put-put v w present = fun_ext λ k. ground (arith, eq_iff k file, present)

restored_chunks-put :
    (file : String) (c : Option (ℕ → Option String)) (m : Map (ℕ → Option String))
    → restored_chunks file c (m file) (put_chunks file c m) ≡ m
restored_chunks-put file none m = refl
restored_chunks-put file (some c) m = restored-put file m c

restored-if :
    (b : Bool) (file : String) (n : ℕ) (m : Map ℕ)
    → restored file (m file) (if b then put file n m else m) ≡ m
restored-if true file n m = restored-put file m n
restored-if false file n m = elim (Option-cases (m file)) [
  | inl absent ↦ rw absent (fun_ext λ k. ground (arith, eq_iff k file, absent))
  | inr (old, present) ↦ rw present (fun_ext λ k. ground (arith, eq_iff k file, present))
]

-- A call that fails has changed neither the memory nor the file. One that succeeds has changed
-- nothing, or the file holds what is in the memory.
abbrev pub Rolled : Process → Process × Bool → Type 0
Rolled p (p', false) = (p'.memory ≡ p.memory) × (p'.disk ≡ p.disk)
Rolled p (p', true) = (p' ≡ p) ⊎ (p'.disk ≡ holds p'.memory)

saved-Rolled :
    (b : Bool) (new old : State) (p : Process) → old ≡ p.memory → Rolled p (saved b new old p)
saved-Rolled true new old p h = inr refl
saved-Rolled false new old p h = (h, refl)

if-Rolled :
    (b : Bool) (p : Process) (tried : Process × Bool)
    → (b ≡ false → Rolled p tried)
    → Rolled p (if b then (p, true) else tried)
if-Rolled true p tried h = inl refl
if-Rolled false p tried h = h refl

unless-Rolled :
    (b : Bool) (p : Process) (tried : Process × Bool)
    → Rolled p tried
    → Rolled p (if b then tried else (p, true))
unless-Rolled true p tried h = h
unless-Rolled false p tried h = inl refl

is_some-none : {V : Type 0} (o : Option V) → is_some o ≡ false → o ≡ none
is_some-none none h = refl
is_some-none (some v) h = cc

module _ (save_ok : ℕ → Bool) where
  pub reset_offsets-Rolled : (p : Process) → Rolled p (reset_offsets save_ok p)
  unfolding reset_offsets
  reset_offsets-Rolled p = saved-Rolled (save_ok p.saves) _ _ p refl

  pub begin_scan-Rolled :
      (file : String) (start end turn_start : ℕ) (p : Process)
      → Rolled p (begin_scan save_ok file start end turn_start p)
  unfolding begin_scan
  begin_scan-Rolled file start end turn_start p =
      if-Rolled (is_some (p.memory.in_flight file)) p _ (λ absent.
        saved-Rolled (save_ok p.saves) _ _ p (
          ap (λ m. record p.memory { in_flight = m })
            (remove-put file p.memory.in_flight _ (is_some-none _ absent))))

  pub mark_delivery_done-Rolled :
      (file key : String) (p : Process) → Rolled p (mark_delivery_done save_ok file key p)
  unfolding mark_delivery_done
  mark_delivery_done-Rolled file key p = marked (p.memory.in_flight file) refl
    where
      marked :
          (scan : Option InFlightScan)
          → p.memory.in_flight file ≡ scan
          → Rolled p (mark_scan save_ok file key scan p)
      marked none absent = (refl, refl)
      marked (some scan) present = if-Rolled (scan.delivered key) p _ (λ fresh.
          saved-Rolled (save_ok p.saves) _ _ p (
            ap (λ m. record p.memory { in_flight = m })
              (put-put file p.memory.in_flight scan _ present)))

  pub discard_scan-Rolled : (file : String) (p : Process) → Rolled p (discard_scan save_ok file p)
  unfolding discard_scan
  discard_scan-Rolled file p = unless-Rolled _ p _ (
      saved-Rolled (save_ok p.saves) _ _ p (λ i. record p.memory {
        in_flight = put_back-remove file p.memory.in_flight i;
        chunks = put_back-remove file p.memory.chunks i;
      }))

  pub commit-Rolled :
      (file : String) (offset turn_start : ℕ) (chunks : Option (ℕ → Option String)) (p : Process)
      → Rolled p (commit save_ok file offset turn_start chunks p)
  unfolding commit
  commit-Rolled file offset turn_start chunks p = saved-Rolled (save_ok p.saves) _ _ p (λ i.
      record p.memory {
        files = restored-put file p.memory.files offset i;
        turn_start = restored-if (ltb 0 turn_start) file turn_start p.memory.turn_start i;
        in_flight = put_back-remove file p.memory.in_flight i;
        chunks = restored_chunks-put file chunks p.memory.chunks i;
      })

  -- The call for a repository ends with the one answer cached, whether or not it could be saved:
  -- nothing else of the memory has changed, and the file holds the memory or is as it was.
  abbrev pub CachesAlone : String → String → (String → String) → Process → Process → Type 0
  CachesAlone device cwd resolve p p' =
      let key = append device (append "|" cwd) in
      ((p' ≡ p) × (is_some (p.memory.repo_by_cwd key) ≡ true))
      ⊎ ((p.memory.repo_by_cwd key ≡ none)
          × (p'.memory
              ≡ record p.memory { repo_by_cwd = put key (resolve cwd) p.memory.repo_by_cwd })
          × (if save_ok p.saves then p'.disk ≡ holds p'.memory else p'.disk ≡ p.disk))

  repo_for-CachesAlone :
      (device cwd : String) (resolve : String → String) (p : Process)
      → CachesAlone device cwd resolve p (repo_for save_ok device cwd resolve p).0
  unfolding repo_for
  repo_for-CachesAlone device cwd resolve p =
      elim (Option-cases (p.memory.repo_by_cwd (append device (append "|" cwd)))) [
        | inl absent ↦ elim (Bool-cases (save_ok p.saves)) [
          | inl saves ↦ rw (absent, saves) (inr (refl, refl, refl))
          | inr fails ↦ rw (absent, fails) (inr (refl, refl, refl))
        ]
        | inr (repo, cached) ↦ rw cached (inl (refl, refl))
      ]

  abbrev pub Settled : StateCall → Process → Process × Bool → Type 0
  Settled (repo_call device cwd resolve) p (p', no_error) = CachesAlone device cwd resolve p p'
  Settled _ p r = Rolled p r

  -- If a call returns an error, neither the memory nor the file has changed. If one that can return
  -- an error does not, it has changed nothing at all, or the file holds exactly what is in the
  -- memory. RepoFor, which ignores a failed save, changes nothing if it has the repository cached;
  -- else it adds the resolved one to the memory and nothing more, and the file holds the memory if
  -- the save succeeds and is as it was if not.
  pub run_call-Settled : (c : StateCall) (p : Process) → Settled c p (run_call save_ok c p)
  unfolding run_call
  run_call-Settled reset_call p = reset_offsets-Rolled p
  run_call-Settled (begin_call file start end turn_start) p =
      begin_scan-Rolled file start end turn_start p
  run_call-Settled (mark_call file key) p = mark_delivery_done-Rolled file key p
  run_call-Settled (discard_call file) p = discard_scan-Rolled file p
  run_call-Settled (commit_call file offset turn_start chunks) p =
      commit-Rolled file offset turn_start chunks p
  run_call-Settled (repo_call device cwd resolve) p = repo_for-CachesAlone device cwd resolve p

-- ===== src/Collect/Scan/Sound.antt =====
-- internal/collect/scan.go and state.go: what the ledger of deliveries is good for. Every key in it
-- names a batch that a sink has accepted, in the memory and in the file.
use Prim.Native.String.{◌++◌ as append}
use omni_token.Prelude.{
  ℕ, String, Bool, true, false, Option, none, some, List, ◌≡◌, ◌⊎◌, refl, sym, subst, inl, inr,
  ◌==◌, ◌||◌, Bool-cases, eq_iff, ltb, is_some, of_some,
}
use omni_token.Model.Event.{Event}
use omni_token.Model.Snapshot.{QuotaSnapshot}
use omni_token.Collect.State.{
  put, new_state, InFlightScan, State, Disk, missing, unreadable, corrupt, holds, usable_scan,
  load_state, Process, saved, with_delivered, put_chunks, reset_offsets, begin_scan, mark_scan,
  mark_delivery_done, discard_scan, commit, cached_repo, repo_for,
}
use omni_token.Collect.State.Rollback.{
  Rolled, reset_offsets-Rolled, begin_scan-Rolled, mark_delivery_done-Rolled, discard_scan-Rolled,
  commit-Rolled,
}
use omni_token.Collect.Scan.Names.{EventNamed, QuotaNamed}

usable_scan-some :
    (file : String) (o : Option InFlightScan) (scan : InFlightScan)
    → usable_scan file o ≡ some scan
    → o ≡ some scan
unfolding usable_scan
usable_scan-some file none scan h = cc
usable_scan-some file (some v) scan h =
    elim (Bool-cases (file == "" || ltb v.scan_end v.scan_start)) [
      | inl bad ↦ cc (rw bad at h)
      | inr good ↦ rw good at h
    ]

module _ (events_digest : List Event → Option String)
    (quotas_digest : List QuotaSnapshot → Option String) where
  module _ (events : List (List Event)) (quotas : List (List QuotaSnapshot)) where
    pub record SoundState (s : State) : Type 0 where
      pub delivered :
          (file : String) (scan : InFlightScan) (key : String)
          → s.in_flight file ≡ some scan
          → scan.delivered key ≡ true
          → EventNamed events_digest quotas_digest events key
            ⊎ QuotaNamed events_digest quotas_digest quotas key
      pub chunks :
          (file : String) (m : ℕ → Option String) (i : ℕ) (key : String)
          → s.chunks file ≡ some m
          → m i ≡ some key
          → EventNamed events_digest quotas_digest events key

    abbrev pub SoundDisk : Disk → Type 0
    SoundDisk (holds s) = SoundState s
    SoundDisk _ = Unit

    pub record SoundProcess (p : Process) : Type 0 where
      pub memory : SoundState p.memory
      pub disk : SoundDisk p.disk

    saved-Sound :
        (b : Bool) (new old : State) (p : Process)
        → SoundState new
        → Rolled p (saved b new old p)
        → SoundProcess p
        → SoundProcess (saved b new old p).0
    saved-Sound true new old p fresh rolled k = record { memory = fresh; disk = fresh }
    saved-Sound false new old p fresh rolled k = record {
      memory = subst SoundState (sym rolled.0) k.memory;
      disk = k.disk;
    }

    new_state-Sound : SoundState new_state
    new_state-Sound = record {
      delivered = λ file scan key held told. absurd (cc held);
      chunks = λ file m i key held told. absurd (cc held);
    }

    put-delivered :
        (s : State) (file : String) (scan : InFlightScan)
        → SoundState s
        → ((key : String)
            → scan.delivered key ≡ true
            → EventNamed events_digest quotas_digest events key
              ⊎ QuotaNamed events_digest quotas_digest quotas key)
        → (file' : String) (scan' : InFlightScan) (key : String)
        → put file scan s.in_flight file' ≡ some scan'
        → scan'.delivered key ≡ true
        → EventNamed events_digest quotas_digest events key
          ⊎ QuotaNamed events_digest quotas_digest quotas key
    put-delivered s file scan k named file' scan' key held told =
        elim (Bool-cases (file' == file)) [
          | inl same ↦ named key (
              subst (λ (v : InFlightScan). v.delivered key ≡ true) (sym (of_some (rw same at held)))
                (told))
          | inr other ↦ k.delivered file' scan' key (rw other at held) told
        ]

    pub begin_scan-Sound :
        (save_ok : ℕ → Bool) (file : String) (start end turn_start : ℕ) (p : Process)
        → SoundProcess p
        → SoundProcess (begin_scan save_ok file start end turn_start p).0
    unfolding begin_scan
    begin_scan-Sound save_ok file start end turn_start p k =
        let scan : InFlightScan = record {
          scan_start = start;
          scan_end = end;
          turn_start_ms = turn_start;
          delivered = λ key. false;
        } in
        let rolled = begin_scan-Rolled save_ok file start end turn_start p in
        elim (Bool-cases (is_some (p.memory.in_flight file))) [
          | inl begun ↦ rw begun k
          | inr fresh ↦ rw fresh (
              saved-Sound (save_ok p.saves) _ _ p
                (record {
                  delivered =
                      put-delivered p.memory file scan k.memory (λ key told. absurd (cc told));
                  chunks = k.memory.chunks;
                })
                (rw fresh at rolled) k)
        ]

    pub mark_delivery_done-Sound :
        (save_ok : ℕ → Bool) (file key : String) (p : Process)
        → EventNamed events_digest quotas_digest events key
          ⊎ QuotaNamed events_digest quotas_digest quotas key
        → SoundProcess p
        → SoundProcess (mark_delivery_done save_ok file key p).0
    unfolding mark_delivery_done
    mark_delivery_done-Sound save_ok file key p named k =
        marked (p.memory.in_flight file) refl (mark_delivery_done-Rolled save_ok file key p)
      where
        marked :
            (scan : Option InFlightScan)
            → p.memory.in_flight file ≡ scan
            → Rolled p (mark_scan save_ok file key scan p)
            → SoundProcess (mark_scan save_ok file key scan p).0
        marked none absent rolled = k
        marked (some scan) present rolled = elim (Bool-cases (scan.delivered key)) [
          | inl old ↦ rw old k
          | inr fresh ↦ rw fresh (
              saved-Sound (save_ok p.saves) _ _ p
                (record {
                  delivered =
                      put-delivered p.memory file (with_delivered key scan) k.memory (λ key' told.
                        elim (Bool-cases (key' == key)) [
                          | inl same ↦ rw ((eq_iff key' key).0 same) named
                          | inr other ↦ k.memory.delivered file scan key' present (rw other at told)
                        ]);
                  chunks = k.memory.chunks;
                })
                (rw fresh at rolled) k)
        ]

    pub discard_scan-Sound :
        (save_ok : ℕ → Bool) (file : String) (p : Process)
        → SoundProcess p
        → SoundProcess (discard_scan save_ok file p).0
    unfolding discard_scan
    discard_scan-Sound save_ok file p k =
        let rolled = discard_scan-Rolled save_ok file p in
        elim (Bool-cases (is_some (p.memory.in_flight file) || is_some (p.memory.chunks file))) [
          | inl some_entry ↦ rw some_entry (
              saved-Sound (save_ok p.saves) _ _ p
                (record {
                  delivered = λ file' scan' key held told. elim (Bool-cases (file' == file)) [
                    | inl same ↦ absurd (cc (rw same at held))
                    | inr other ↦ k.memory.delivered file' scan' key (rw other at held) told
                  ];
                  chunks = λ file' m i key held told. elim (Bool-cases (file' == file)) [
                    | inl same ↦ absurd (cc (rw same at held))
                    | inr other ↦ k.memory.chunks file' m i key (rw other at held) told
                  ];
                })
                (rw some_entry at rolled) k)
          | inr no_entry ↦ rw no_entry k
        ]

    put_chunks-Sound :
        (s : State) (file : String) (c : Option (ℕ → Option String))
        → SoundState s
        → ((m : ℕ → Option String) (i : ℕ) (key : String)
            → c ≡ some m
            → m i ≡ some key
            → EventNamed events_digest quotas_digest events key)
        → (file' : String) (m : ℕ → Option String) (i : ℕ) (key : String)
        → put_chunks file c s.chunks file' ≡ some m
        → m i ≡ some key
        → EventNamed events_digest quotas_digest events key
    put_chunks-Sound s file none k named file' m i key held told = k.chunks file' m i key held told
    put_chunks-Sound s file (some c) k named file' m i key held told =
        elim (Bool-cases (file' == file)) [
          | inl same ↦ named m i key (rw same at held) told
          | inr other ↦ k.chunks file' m i key (rw other at held) told
        ]

    pub commit-Sound :
        (save_ok : ℕ → Bool) (file : String) (offset turn_start : ℕ)
        (c : Option (ℕ → Option String)) (p : Process)
        → ((m : ℕ → Option String) (i : ℕ) (key : String)
            → c ≡ some m
            → m i ≡ some key
            → EventNamed events_digest quotas_digest events key)
        → SoundProcess p
        → SoundProcess (commit save_ok file offset turn_start c p).0
    unfolding commit
    commit-Sound save_ok file offset turn_start c p named k =
        saved-Sound (save_ok p.saves) _ _ p
          (record {
            delivered = λ file' scan' key held told. elim (Bool-cases (file' == file)) [
              | inl same ↦ absurd (cc (rw same at held))
              | inr other ↦ k.memory.delivered file' scan' key (rw other at held) told
            ];
            chunks = put_chunks-Sound p.memory file c k.memory named;
          })
          (commit-Rolled save_ok file offset turn_start c p) k

    pub reset_offsets-Sound :
        (save_ok : ℕ → Bool) (p : Process)
        → SoundProcess p
        → SoundProcess (reset_offsets save_ok p).0
    unfolding reset_offsets
    reset_offsets-Sound save_ok p k =
        saved-Sound (save_ok p.saves) _ _ p
          (record {
            delivered = λ file scan key held told. absurd (cc held);
            chunks = λ file m i key held told. absurd (cc held);
          })
          (reset_offsets-Rolled save_ok p) k

    pub repo_for-Sound :
        (save_ok : ℕ → Bool) (device cwd : String) (resolve : String → String) (p : Process)
        → SoundProcess p
        → SoundProcess (repo_for save_ok device cwd resolve p).0
    unfolding repo_for
    repo_for-Sound save_ok device cwd resolve p k =
        cached (p.memory.repo_by_cwd (append device (append "|" cwd)))
      where
        both : (b : Bool) (new : State) → SoundState new → SoundProcess (saved b new new p).0
        both true new h = record { memory = h; disk = h }
        both false new h = record { memory = h; disk = k.disk }

        cached :
            (o : Option String)
            → SoundProcess (cached_repo save_ok o (append device (append "|" cwd)) resolve cwd p).0
        cached (some repo) = k
        cached none =
            both (save_ok p.saves) _
              (record { delivered = k.memory.delivered; chunks = k.memory.chunks })

    pub load_state-Sound :
        (d : Disk) (s : State) → SoundDisk d → load_state d ≡ some s → SoundState s
    unfolding load_state
    load_state-Sound missing s k h = subst SoundState (of_some h) new_state-Sound
    load_state-Sound unreadable s k h = absurd (cc h)
    load_state-Sound corrupt s k h = subst SoundState (of_some h) new_state-Sound
    load_state-Sound (holds t) s k h = subst SoundState (of_some h) (record {
      delivered = λ file scan key held told.
          k.delivered file scan key (usable_scan-some file (t.in_flight file) scan held) told;
      chunks = k.chunks;
    })

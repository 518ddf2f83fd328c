-- ===== src/Collect/Scan/Commit.antt =====
-- internal/collect/scan.go: the deliveries of one scan and its commit, as a whole.
use omni_token.Prelude.{
  ℕ, zero, suc, ◌≤◌, String, Bool, true, false, Option, none, some, List, [], ◌∷◌, ◌++◌, ◌≡◌, refl,
  sym, ap, ◌∙◌, subst, inl, inr, arith, Bool-cases, eq_refl, if◌then◌else◌, of_some, length, take,
  drop, append-take-drop, length-drop,
}
use omni_token.Fallible.{ok, err}
use omni_token.Model.Event.{Event}
use omni_token.Model.Snapshot.{QuotaSnapshot}
use omni_token.Collect.State.{State, holds, Process, delivery_done, commit}
use omni_token.Collect.State.Rollback.{Rolled, commit-Rolled}
use omni_token.Collect.Scan.{
  sink_batch, World, Outcome, commit_failed, mark_failed, and_then, checked, batches, keyed,
  chunk_map, sent_quotas, deliver_quotas_keyed, deliver_quotas, deliver_events, deliver_all,
}
use omni_token.Collect.Scan.Sound.{SoundProcess, commit-Sound}
use omni_token.Collect.Scan.Names.{EventNamed}
use omni_token.Collect.Scan.Grows.{SoundProcess-grows}
use omni_token.Collect.Scan.Onward.{SoundWorld, Onward, Onward-refl, Onward-trans, After}
use omni_token.Collect.Scan.Delivered.{AllNamed, AllNamed-Onward, mark-After, deliver_events-After}

abbrev pub joined : List (List Event) → List Event
joined [] = []
joined (es ∷ more) = es ++ joined more

pub joined-batches : (fuel : ℕ) (es : List Event) → length es ≤ fuel → joined (batches fuel es) ≡ es
unfolding batches
joined-batches fuel [] h = refl
joined-batches zero (e ∷ es) h = absurd (omega (arith, h))
joined-batches (suc fuel) (e ∷ es) h =
    let fewer = length-drop sink_batch (e ∷ es) in
    ap (λ xs. take sink_batch (e ∷ es) ++ xs)
      (joined-batches fuel (drop sink_batch (e ∷ es)) (omega (arith, h, fewer)))
    ∙ append-take-drop sink_batch (e ∷ es)

module _ (save_ok sink_ok : ℕ → Bool) (events_digest : List Event → Option String)
    (quotas_digest : List QuotaSnapshot → Option String) where
  abbrev Go : {A : Type 0} → World → (World → A → Type 0) → Outcome A → Type 0
  Go w P o = After events_digest quotas_digest w P o

  abbrev Named : World → ℕ → List (List Event) → List String → Type 0
  Named w i parts keys = AllNamed save_ok sink_ok events_digest quotas_digest w i parts keys

  chunk_map-Named :
      (w : World) (i : ℕ) (parts : List (List Event)) (keys : List String) (j : ℕ) (key : String)
      → Named w i parts keys
      → chunk_map keys j ≡ some key
      → EventNamed events_digest quotas_digest w.accepted key
  chunk_map-Named w i parts [] j key h held = absurd (cc held)
  chunk_map-Named w i [] (k ∷ keys) j key h held = elim h [ ]
  chunk_map-Named w i (es ∷ parts) (k ∷ keys) zero key h held =
      subst (λ x. EventNamed events_digest quotas_digest w.accepted x) (of_some held) (h.0.1)
  chunk_map-Named w i (es ∷ parts) (k ∷ keys) (suc j) key h held =
      chunk_map-Named w (suc i) parts keys j key h.1 held

  sent_quotas-After :
      (path key : String) (qs : List QuotaSnapshot) (w : World) (b : Bool)
      → keyed "quotas" 0 (quotas_digest qs) ≡ some key
      → SoundWorld events_digest quotas_digest w
      → Go w
          (λ w' u. Unit)
          (sent_quotas save_ok sink_ok events_digest quotas_digest path key qs w b)
  sent_quotas-After path key qs w false named k = record {
    sound = k;
    grown = ([], refl);
    files = refl;
  }
  sent_quotas-After path key qs w true named k =
      let w' = record w { accepted_quotas = qs ∷ w.accepted_quotas; sends = suc w.sends } in
      let sound : SoundWorld events_digest quotas_digest w' =
        SoundProcess-grows events_digest quotas_digest w.accepted w.accepted w.accepted_quotas
          (qs ∷ w.accepted_quotas) w.process (λ key n. n) (λ key n. inr n) k in
      widen w' (record { sound = sound; grown = ([], refl); files = refl }) _
        (mark-After save_ok sink_ok events_digest quotas_digest path key mark_failed w'
          (inr (inl named)) sound)
    where
      widen :
          (w' : World)
          → Onward events_digest quotas_digest w w'
          → (o : Outcome (Unit {0})) → Go w' (λ w'' u. w''.accepted ≡ w'.accepted) o
          → Go w (λ w'' u. Unit) o
      widen w' h (w'', ok u) l = (Onward-trans events_digest quotas_digest w w' w'' h l.0, tt)
      widen w' h (w'', err why) l = Onward-trans events_digest quotas_digest w w' w'' h l

  deliver_quotas_keyed-After :
      (path : String) (qs : List QuotaSnapshot) (key : Option String) (w : World)
      → keyed "quotas" 0 (quotas_digest qs) ≡ key
      → SoundWorld events_digest quotas_digest w
      → Go w
          (λ w' u. Unit)
          (deliver_quotas_keyed save_ok sink_ok events_digest quotas_digest path qs key w)
  deliver_quotas_keyed-After path qs none w named k = Onward-refl events_digest quotas_digest w k
  deliver_quotas_keyed-After path qs (some key) w named k =
      elim (Bool-cases (delivery_done path key w.process.memory)) [
        | inl skip ↦ rw skip (Onward-refl events_digest quotas_digest w k, tt)
        | inr send ↦ rw send (sent_quotas-After path key qs w (sink_ok w.sends) named k)
      ]

  deliver_quotas-After :
      (path : String) (wanted : Bool) (qs : List QuotaSnapshot) (w : World)
      → SoundWorld events_digest quotas_digest w
      → Go w
          (λ w' u. Unit)
          (deliver_quotas save_ok sink_ok events_digest quotas_digest path wanted qs w)
  unfolding deliver_quotas
  deliver_quotas-After path false qs w k = (Onward-refl events_digest quotas_digest w k, tt)
  deliver_quotas-After path true [] w k = (Onward-refl events_digest quotas_digest w k, tt)
  deliver_quotas-After path true (q ∷ qs) w k =
      deliver_quotas_keyed-After path (q ∷ qs) (keyed "quotas" 0 (quotas_digest (q ∷ qs))) w refl k

  -- A committed scan: its offset is in the memory and in the file, and each batch of its events has a
  -- key under which a sink has accepted a batch.
  pub record IsCommitted (path : String) (end : ℕ) (events : List Event) (w : World) (n : ℕ)
      : Type 0 where
    pub sound : SoundWorld events_digest quotas_digest w
    pub counted : n ≡ length events
    pub offset : w.process.memory.files path ≡ some end
    pub saved_state : w.process.disk ≡ holds w.process.memory
    pub parts : List (List Event)
    pub whole : joined parts ≡ events
    pub keys : List String
    pub named : AllNamed save_ok sink_ok events_digest quotas_digest w 0 parts keys

  abbrev pub Ended : String → ℕ → List Event → World → Outcome ℕ → Type 0
  Ended path end events w (w', ok n) = IsCommitted path end events w' n
  Ended path end events w (w', err why) = Onward events_digest quotas_digest w w'

  Ended-and_then :
      {A : Type 0} (path : String) (end : ℕ) (events : List Event) (w : World)
      (P : World → A → Type 0) (o : Outcome A) (next : A → World → Outcome ℕ)
      → Go w P o
      → ((a : A) (w' : World)
          → Onward events_digest quotas_digest w w'
          → P w' a
          → Ended path end events w' (next a w'))
      → Ended path end events w (and_then o next)
  Ended-and_then path end events w P (w', ok a) next h k = later (next a w') (k a w' h.0 h.1)
    where
      later : (o : Outcome ℕ) → Ended path end events w' o → Ended path end events w o
      later (w'', ok n) l = l
      later (w'', err why) l = Onward-trans events_digest quotas_digest w w' w'' h.0 l
  Ended-and_then path end events w P (w', err why) next h k = h

  commit-files :
      (path : String) (end turn_start : ℕ) (c : Option (ℕ → Option String)) (p : Process)
      → (commit save_ok path end turn_start c p).1 ≡ true
      → ((commit save_ok path end turn_start c p).0.memory.files path ≡ some end)
        × ((commit save_ok path end turn_start c p).0.disk
            ≡ holds (commit save_ok path end turn_start c p).0.memory)
  unfolding commit
  commit-files path end turn_start c p h = elim (Bool-cases (save_ok p.saves)) [
    | inl done ↦ rw done (rw (eq_refl path) refl, refl)
    | inr failed ↦ absurd (cc (rw failed at h))
  ]

  AllNamed_moved :
      (w w' : World) (i : ℕ) (parts : List (List Event)) (keys : List String)
      → w'.accepted ≡ w.accepted
      → Named w i parts keys
      → Named w' i parts keys
  AllNamed_moved w w' i [] [] same h = tt
  AllNamed_moved w w' i [] (k ∷ keys) same h = h
  AllNamed_moved w w' i (es ∷ parts) [] same h = h
  AllNamed_moved w w' i (es ∷ parts) (k ∷ keys) same h = (
    (h.0.0, subst (λ acc. EventNamed events_digest quotas_digest acc k) (sym same) (h.0.1)),
    AllNamed_moved w w' (suc i) parts keys same h.1,
  )

  commit-Ended :
      (path : String) (end turn_start : ℕ) (c : Option (ℕ → Option String)) (events : List Event)
      (parts : List (List Event)) (keys : List String) (w : World)
      → SoundWorld events_digest quotas_digest w
      → ((m : ℕ → Option String) (i : ℕ) (key : String)
          → c ≡ some m
          → m i ≡ some key
          → EventNamed events_digest quotas_digest w.accepted key)
      → joined parts ≡ events
      → Named w 0 parts keys
      → Ended path end events w (
          and_then
            (checked commit_failed w (commit save_ok path end turn_start c w.process))
            (λ u w'. (w', ok (length events))))
  commit-Ended path end turn_start c events parts keys w k chunks whole named =
      told (commit save_ok path end turn_start c w.process)
        (commit-Sound events_digest quotas_digest w.accepted w.accepted_quotas save_ok path end
          turn_start c w.process chunks k)
        (commit-files path end turn_start c w.process)
        (commit-Rolled save_ok path end turn_start c w.process)
    where
      told :
          (r : Process × Bool)
          → SoundProcess events_digest quotas_digest w.accepted w.accepted_quotas r.0
          → (r.1 ≡ true → (r.0.memory.files path ≡ some end) × (r.0.disk ≡ holds r.0.memory))
          → Rolled w.process r
          → Ended path end events w
              (and_then (checked commit_failed w r) (λ u w'. (w', ok (length events))))
      told (p, true) h f rolled = record {
        sound = h;
        counted = refl;
        offset = (f refl).0;
        saved_state = (f refl).1;
        parts = parts;
        whole = whole;
        keys = keys;
        named = AllNamed_moved w (record w { process = p }) 0 parts keys refl named;
      }
      told (p, false) h f rolled = record {
        sound = h;
        grown = ([], refl);
        files = ap (λ (s : State). s.files) rolled.0;
      }

  chunks-Named :
      (cross : Bool) (w : World) (parts : List (List Event)) (keys : List String)
      → Named w 0 parts keys
      → (m : ℕ → Option String) (i : ℕ) (key : String)
      → ◌≡◌ {A = Option (ℕ → Option String)}
          (if cross then some (chunk_map keys) else none)
          (some m)
      → m i ≡ some key
      → EventNamed events_digest quotas_digest w.accepted key
  chunks-Named true w parts keys h m i key same held =
      chunk_map-Named w 0 parts keys i key h
        (ap (λ (f : ℕ → Option String). f i) (of_some same) ∙ held)
  chunks-Named false w parts keys h m i key same held = absurd (cc same)

  -- If every key in the ledger names an accepted batch, then so it is after the deliveries and the
  -- commit of a scan, however they end. If they succeed, the offset stands in the memory and in the
  -- file, and the batches of the events, which make up all of them, each have a key under which the
  -- sink has accepted a batch. If they fail, no file's offset has moved.
  pub deliver_all-Ended :
      (path : String) (cross wanted : Bool) (end turn_start : ℕ) (quotas : List QuotaSnapshot)
      (events : List Event) (w : World)
      → SoundWorld events_digest quotas_digest w
      → Ended path end events w (
          deliver_all save_ok sink_ok events_digest quotas_digest path cross wanted end turn_start
            quotas events w)
  unfolding deliver_all
  deliver_all-Ended path cross wanted end turn_start quotas events w k =
      let parts = batches (length events) events in
      Ended-and_then path end events w (λ w' keys. Named w' 0 parts keys)
        (deliver_events save_ok sink_ok events_digest quotas_digest path cross 0 parts w) _
        (deliver_events-After save_ok sink_ok events_digest quotas_digest path cross 0 parts w k)
        (λ keys w1 h1 named.
          Ended-and_then path end events w1 (λ w' u. Unit)
            (deliver_quotas save_ok sink_ok events_digest quotas_digest path wanted quotas w1) _
            (deliver_quotas-After path wanted quotas w1 h1.sound)
            (λ u w2 h2 none_more.
              let named' =
                AllNamed-Onward save_ok sink_ok events_digest quotas_digest w1 w2 0 parts keys h2
                  named in
              commit-Ended path end turn_start _ events parts keys w2 h2.sound
                (chunks-Named cross w2 parts keys named')
                (joined-batches (length events) events (omega arith)) named'))

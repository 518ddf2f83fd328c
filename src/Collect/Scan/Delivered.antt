-- ===== src/Collect/Scan/Delivered.antt =====
-- internal/collect/scan.go: when a file's offset is committed, a sink has accepted all of its events.
use omni_token.Prelude.{
  ℕ, suc, String, Bool, true, false, ◌&&◌, ◌||◌, Option, none, some, List, [], ◌∷◌, ◌≡◌, ◌≢◌, ◌⊎◌,
  refl, sym, ap, ◌∙◌, subst, inl, inr, arith, ◌==◌, Bool-cases, Option-cases, eq_iff,
}
use omni_token.Fallible.{ok, err}
use omni_token.Model.Event.{Event}
use omni_token.Model.Snapshot.{QuotaSnapshot}
use omni_token.Collect.State.{
  InFlightScan, State, Process, saved, is_delivered, chunk_at, chunk_delivered, delivery_done,
  mark_scan, mark_delivery_done,
}
use omni_token.Collect.Scan.{
  World, Outcome, ScanError, mark_failed, checked, keyed, sent_events, deliver_keyed,
  deliver_events,
}
use omni_token.Collect.Scan.Sound.{SoundProcess, mark_delivery_done-Sound}
use omni_token.Collect.Scan.Names.{
  first, keyed-events_first, keyed-quotas_first, EventNamed, QuotaNamed,
}
use omni_token.Collect.Scan.Grows.{SoundProcess-grows}
use omni_token.Collect.Scan.Onward.{
  SoundWorld, Onward, Onward-refl, Onward-trans, Named-Onward, After, After-and_then,
}

saved-files :
    (b : Bool) (new old : State) (p : Process)
    → new.files ≡ p.memory.files
    → old.files ≡ p.memory.files
    → (saved b new old p).0.memory.files ≡ p.memory.files
saved-files true new old p h k = h
saved-files false new old p h k = k

mark_delivery_done-files :
    (save_ok : ℕ → Bool) (file key : String) (p : Process)
    → (mark_delivery_done save_ok file key p).0.memory.files ≡ p.memory.files
unfolding mark_delivery_done
mark_delivery_done-files save_ok file key p = marked (p.memory.in_flight file)
  where
    marked :
        (scan : Option InFlightScan)
        → (mark_scan save_ok file key scan p).0.memory.files ≡ p.memory.files
    marked none = refl
    marked (some scan) = elim (Bool-cases (scan.delivered key)) [
      | inl old ↦ rw old refl
      | inr fresh ↦ rw fresh (saved-files (save_ok p.saves) _ _ p refl refl)
    ]

-- A key that is there is a key of the map.
chunk_at-some :
    (i : ℕ) (o : Option (ℕ → Option String)) (key : String)
    → chunk_at i o ≡ key
    → key ≢ ""
    → (m : ℕ → Option String) × (o ≡ some m) × (m i ≡ some key)
chunk_at-some i none key h full = absurd (full (sym h))
chunk_at-some i (some m) key h full = elim (Option-cases (m i)) [
  | inl absent ↦ absurd (full (sym (rw absent at h)))
  | inr (k, present) ↦ (m, refl, present ∙ ap some (rw present at h))
]

is_delivered-some :
    (key : String) (o : Option InFlightScan)
    → is_delivered key o ≡ true
    → (scan : InFlightScan) × (o ≡ some scan) × (scan.delivered key ≡ true)
is_delivered-some key none h = cc
is_delivered-some key (some scan) h = (scan, refl, h)

module _ (save_ok sink_ok : ℕ → Bool) (events_digest : List Event → Option String)
    (quotas_digest : List QuotaSnapshot → Option String) where
  abbrev pub IsNamed : World → ℕ → List Event → String → Type 0
  IsNamed w i es key =
      (keyed "events" i (events_digest es) ≡ some key)
      × EventNamed events_digest quotas_digest w.accepted key

  abbrev Go : {A : Type 0} → World → (World → A → Type 0) → Outcome A → Type 0
  Go w P o = After events_digest quotas_digest w P o

  pub mark-After :
      (path key : String) (why : ScanError) (w : World)
      → EventNamed events_digest quotas_digest w.accepted key
        ⊎ QuotaNamed events_digest quotas_digest w.accepted_quotas key
      → SoundWorld events_digest quotas_digest w
      → Go w
          (λ w' u. w'.accepted ≡ w.accepted)
          (checked why w (mark_delivery_done save_ok path key w.process))
  mark-After path key why w named k =
      told (mark_delivery_done save_ok path key w.process)
        (mark_delivery_done-Sound events_digest quotas_digest w.accepted w.accepted_quotas save_ok
          path key w.process named k)
        (mark_delivery_done-files save_ok path key w.process)
    where
      told :
          (r : Process × Bool)
          → SoundProcess events_digest quotas_digest w.accepted w.accepted_quotas r.0
          → r.0.memory.files ≡ w.process.memory.files
          → Go w (λ w' u. w'.accepted ≡ w.accepted) (checked why w r)
      told (p, true) h f = (record { sound = h; grown = ([], refl); files = f }, refl)
      told (p, false) h f = record { sound = h; grown = ([], refl); files = f }

  sent_events-After :
      (path key : String) (i : ℕ) (es : List Event) (w : World) (b : Bool)
      → keyed "events" i (events_digest es) ≡ some key
      → SoundWorld events_digest quotas_digest w
      → Go w
          (λ w' key'. IsNamed w' i es key')
          (sent_events save_ok sink_ok events_digest quotas_digest path key es w b)
  sent_events-After path key i es w false named k = record {
    sound = k;
    grown = ([], refl);
    files = refl;
  }
  sent_events-After path key i es w true named k =
      let w' = record w { accepted = es ∷ w.accepted; sends = suc w.sends } in
      let sound : SoundWorld events_digest quotas_digest w' =
        SoundProcess-grows events_digest quotas_digest w.accepted (es ∷ w.accepted)
          w.accepted_quotas w.accepted_quotas w.process (λ key n. inr n) (λ key n. n) k in
      let onward : Onward events_digest quotas_digest w w' = record {
        sound = sound;
        grown = (es ∷ [], refl);
        files = refl;
      } in
      After-and_then events_digest quotas_digest w (λ w'' u. w''.accepted ≡ es ∷ w.accepted)
        (λ w'' key'. IsNamed w'' i es key')
        (checked mark_failed w' (mark_delivery_done save_ok path key w'.process))
        (λ u w''. (w'', ok key))
        (widen w' onward _ (mark-After path key mark_failed w' (inl (inl (i, named))) sound))
        (λ u w'' h same. (
          Onward-refl events_digest quotas_digest w'' h.sound,
          (
            named,
            subst (λ acc. EventNamed events_digest quotas_digest acc key) (sym same)
                (inl (i, named)),
          ),
        ))
    where
      widen :
          (w' : World)
          → Onward events_digest quotas_digest w w'
          → (o : Outcome (Unit {0})) → Go w' (λ w'' u. w''.accepted ≡ w'.accepted) o
          → Go w (λ w'' u. w''.accepted ≡ w'.accepted) o
      widen w' h (w'', ok u) l = (Onward-trans events_digest quotas_digest w w' w'' h l.0, l.1)
      widen w' h (w'', err why) l = Onward-trans events_digest quotas_digest w w' w'' h l

  no_clash :
      (i : ℕ) (es : List Event) (key : String) (qs : List (List QuotaSnapshot))
      → keyed "events" i (events_digest es) ≡ some key
      → QuotaNamed events_digest quotas_digest qs key
      → ⊥
  no_clash i es key [] named q = q
  no_clash i es key (q ∷ qs) named (inl here) =
      let a = keyed-events_first i (events_digest es) key named in
      let b = keyed-quotas_first 0 (quotas_digest q) key here in absurd (omega (arith, a, b))
  no_clash i es key (q ∷ qs) named (inr there) = no_clash i es key qs named there

  key-some :
      (i : ℕ) (es : List Event) (key : String)
      → keyed "events" i (events_digest es) ≡ some key
      → key ≢ ""
  key-some i es key named blank =
      let a = keyed-events_first i (events_digest es) key named in
      let b = ap first blank in absurd (omega (arith, a, b))

  skip-Named :
      (path : String) (cross : Bool) (i : ℕ) (es : List Event) (key : String) (w : World)
      → keyed "events" i (events_digest es) ≡ some key
      → SoundWorld events_digest quotas_digest w
      → (cross && chunk_delivered path i key w.process.memory
          || delivery_done path key w.process.memory)
        ≡ true
      → EventNamed events_digest quotas_digest w.accepted key
  unfolding chunk_delivered delivery_done
  skip-Named path cross i es key w named k skip =
      elim (Bool-cases (is_delivered key (w.process.memory.in_flight path))) [
        | inl done ↦
            let (scan, held, told) = is_delivered-some key _ done in
            only_events (k.memory.delivered path scan key held told)
        | inr fresh ↦
            let same : (chunk_at i (w.process.memory.chunks path) == key) ≡ true = ground arith in
            let (m, held, told) =
              chunk_at-some i (w.process.memory.chunks path) key ((eq_iff _ key).0 same)
                (key-some i es key named) in
            k.memory.chunks path m i key held told
      ]
    where
      only_events :
          EventNamed events_digest quotas_digest w.accepted key
            ⊎ QuotaNamed events_digest quotas_digest w.accepted_quotas key
          → EventNamed events_digest quotas_digest w.accepted key
      only_events (inl e) = e
      only_events (inr q) = absurd (no_clash i es key w.accepted_quotas named q)

  deliver_keyed-After :
      (path : String) (cross : Bool) (i : ℕ) (es : List Event) (key : Option String) (w : World)
      → keyed "events" i (events_digest es) ≡ key
      → SoundWorld events_digest quotas_digest w
      → Go w
          (λ w' key'. IsNamed w' i es key')
          (deliver_keyed save_ok sink_ok events_digest quotas_digest path cross i es key w)
  deliver_keyed-After path cross i es none w named k = Onward-refl events_digest quotas_digest w k
  deliver_keyed-After path cross i es (some key) w named k =
      elim (Bool-cases (
        cross && chunk_delivered path i key w.process.memory
        || delivery_done path key w.process.memory)) [
          | inl skip ↦ rw skip (
            Onward-refl events_digest quotas_digest w k,
            (named, skip-Named path cross i es key w named k skip),
          )
          | inr send ↦ rw send (sent_events-After path key i es w (sink_ok w.sends) named k)
        ]

  -- Each batch has its key, and a batch of that key has been accepted.
  abbrev pub AllNamed : World → ℕ → List (List Event) → List String → Type 0
  AllNamed w i [] [] = Unit
  AllNamed w i [] (key ∷ keys) = ⊥
  AllNamed w i (es ∷ more) [] = ⊥
  AllNamed w i (es ∷ more) (key ∷ keys) = IsNamed w i es key × AllNamed w (suc i) more keys

  IsNamed-Onward :
      (w w' : World) (i : ℕ) (es : List Event) (key : String)
      → Onward events_digest quotas_digest w w'
      → IsNamed w i es key
      → IsNamed w' i es key
  IsNamed-Onward w w' i es key h (named, here) =
      (named, Named-Onward events_digest quotas_digest w w' key h here)

  pub AllNamed-Onward :
      (w w' : World) (i : ℕ) (more : List (List Event)) (keys : List String)
      → Onward events_digest quotas_digest w w'
      → AllNamed w i more keys
      → AllNamed w' i more keys
  AllNamed-Onward w w' i [] [] h k = tt
  AllNamed-Onward w w' i [] (key ∷ keys) h k = k
  AllNamed-Onward w w' i (es ∷ more) [] h k = k
  AllNamed-Onward w w' i (es ∷ more) (key ∷ keys) h k =
      (IsNamed-Onward w w' i es key h k.0, AllNamed-Onward w w' (suc i) more keys h k.1)

  pub deliver_events-After :
      (path : String) (cross : Bool) (i : ℕ) (more : List (List Event)) (w : World)
      → SoundWorld events_digest quotas_digest w
      → Go w
          (λ w' keys. AllNamed w' i more keys)
          (deliver_events save_ok sink_ok events_digest quotas_digest path cross i more w)
  unfolding deliver_events
  deliver_events-After path cross i [] w k = (Onward-refl events_digest quotas_digest w k, tt)
  deliver_events-After path cross i (es ∷ more) w k =
      After-and_then events_digest quotas_digest w (λ w' key. IsNamed w' i es key)
        (λ w' keys. AllNamed w' i (es ∷ more) keys)
        (deliver_keyed save_ok sink_ok events_digest quotas_digest path cross i es
          (keyed "events" i (events_digest es)) w)
        _ (deliver_keyed-After path cross i es (keyed "events" i (events_digest es)) w refl k)
        (λ key w' h named.
          After-and_then events_digest quotas_digest w' (λ w'' keys. AllNamed w'' (suc i) more keys)
            (λ w'' keys. AllNamed w'' i (es ∷ more) keys)
            (deliver_events save_ok sink_ok events_digest quotas_digest path cross (suc i) more w')
            _ (deliver_events-After path cross (suc i) more w' h.sound)
            (λ keys w'' h' all. (
              Onward-refl events_digest quotas_digest w'' h'.sound,
              (IsNamed-Onward w' w'' i es key h' named, all),
            )))

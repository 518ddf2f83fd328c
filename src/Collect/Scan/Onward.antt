-- ===== src/Collect/Scan/Onward.antt =====
-- internal/collect/scan.go: how a scan moves on between its deliveries, whether or not one fails.
use omni_token.Prelude.{
  String, Option, List, [], ◌++◌, ◌≡◌, refl, sym, ap, ◌∙◌, subst, Any-append_right, append_assoc,
}
use omni_token.Fallible.{ok, err}
use omni_token.Model.Event.{Event}
use omni_token.Model.Snapshot.{QuotaSnapshot}
use omni_token.Collect.Scan.{World, Outcome, and_then}
use omni_token.Collect.Scan.Sound.{SoundProcess}
use omni_token.Collect.Scan.Names.{EventNamed}

module _ (events_digest : List Event → Option String)
    (quotas_digest : List QuotaSnapshot → Option String) where
  abbrev pub SoundWorld : World → Type 0
  SoundWorld w = SoundProcess events_digest quotas_digest w.accepted w.accepted_quotas w.process

  -- A later world: the ledger is sound, more is accepted, and no offset has moved.
  pub record Onward (w w' : World) : Type 0 where
    pub sound : SoundWorld w'
    pub grown : (more : List (List Event)) × (w'.accepted ≡ more ++ w.accepted)
    pub files : w'.process.memory.files ≡ w.process.memory.files

  pub Onward-refl : (w : World) → SoundWorld w → Onward w w
  Onward-refl w k = record { sound = k; grown = ([], refl); files = refl }

  pub Onward-trans : (a b c : World) → Onward a b → Onward b c → Onward a c
  Onward-trans a b c h k = record {
    sound = k.sound;
    grown = (
      k.grown.0 ++ h.grown.0,
      k.grown.1
          ∙ ap (λ xs. k.grown.0 ++ xs) h.grown.1
          ∙ sym (append_assoc k.grown.0 h.grown.0 a.accepted),
    );
    files = k.files ∙ h.files;
  }

  pub Named-Onward :
      (w w' : World) (key : String)
      → Onward w w'
      → EventNamed events_digest quotas_digest w.accepted key
      → EventNamed events_digest quotas_digest w'.accepted key
  Named-Onward w w' key h k =
      subst (λ acc. EventNamed events_digest quotas_digest acc key) (sym h.grown.1)
        (Any-append_right _ h.grown.0 w.accepted k)

  abbrev pub After : {A : Type 0} → World → (World → A → Type 0) → Outcome A → Type 0
  After w P (w', ok a) = Onward w w' × P w' a
  After w P (w', err why) = Onward w w'

  pub After-and_then :
      {A B : Type 0} (w : World) (P : World → A → Type 0) (Q : World → B → Type 0) (o : Outcome A)
      (next : A → World → Outcome B)
      → After w P o
      → ((a : A) (w' : World) → Onward w w' → P w' a → After w' Q (next a w'))
      → After w Q (and_then o next)
  After-and_then {A} {B} w P Q (w', ok a) next h k = later (next a w') (k a w' h.0 h.1)
    where
      later : (o : Outcome B) → After w' Q o → After w Q o
      later (w'', ok b) l = (Onward-trans w w' w'' h.0 l.0, l.1)
      later (w'', err why) l = Onward-trans w w' w'' h.0 l
  After-and_then {A} {B} w P Q (w', err why) next h k = h

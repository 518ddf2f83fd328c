-- ===== src/Collect/Scan/Names.antt =====
-- internal/collect/scan.go: the keys of deliveries, by the batches they name.
use Prim.Native.Char.{code}
use Prim.Native.String.{◌++◌ as append, char_at}
use Prim.Native.String.append.{cons}
use omni_token.Prelude.{
  ℕ, String, Option, none, some, List, ◌≡◌, sym, ap, ◌∙◌, Any, of_some, decimal,
}
use omni_token.Model.Event.{Event}
use omni_token.Model.Snapshot.{QuotaSnapshot}
use omni_token.Collect.Scan.{logical_delivery_key, keyed}

abbrev pub first : String → ℕ
first String.[] = 0
first (String.◌∷◌ c s) = code c

-- Keys of events and keys of quotas start differently.
first_events : (s : String) → first (append "events" s) ≡ b'e'
first_events s = λ j. first (cons (char_at "events" 0) "vents" s j)

first_quotas : (s : String) → first (append "quotas" s) ≡ b'q'
first_quotas s = λ j. first (cons (char_at "quotas" 0) "uotas" s j)

first-events : (i : ℕ) (d : String) → first (logical_delivery_key "events" i d) ≡ b'e'
unfolding logical_delivery_key
first-events i d = first_events (append ":" (append (decimal i) (append ":" d)))

first-quotas : (i : ℕ) (d : String) → first (logical_delivery_key "quotas" i d) ≡ b'q'
unfolding logical_delivery_key
first-quotas i d = first_quotas (append ":" (append (decimal i) (append ":" d)))

pub keyed-events_first :
    (i : ℕ) (o : Option String) (key : String) → keyed "events" i o ≡ some key → first key ≡ b'e'
keyed-events_first i none key h = cc
keyed-events_first i (some d) key h = ap first (sym (of_some h)) ∙ first-events i d

pub keyed-quotas_first :
    (i : ℕ) (o : Option String) (key : String) → keyed "quotas" i o ≡ some key → first key ≡ b'q'
keyed-quotas_first i none key h = cc
keyed-quotas_first i (some d) key h = ap first (sym (of_some h)) ∙ first-quotas i d

module _ (events_digest : List Event → Option String)
    (quotas_digest : List QuotaSnapshot → Option String) where
  -- Some accepted batch has the key.
  abbrev pub EventNamed : List (List Event) → String → Type 0
  EventNamed accepted key =
      Any (λ es. (i : ℕ) × (keyed "events" i (events_digest es) ≡ some key)) accepted

  abbrev pub QuotaNamed : List (List QuotaSnapshot) → String → Type 0
  QuotaNamed accepted key = Any (λ qs. keyed "quotas" 0 (quotas_digest qs) ≡ some key) accepted

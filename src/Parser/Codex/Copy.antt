-- ===== src/Parser/Codex/Copy.antt =====
-- internal/parser/codex/parser.go: what a copied file shares with the one it was copied from.
use omni_token.Prelude.{
  ℕ, String, Option, none, some, List, [], ◌∷◌, ◌++◌, map, ◌≡◌, ◌⊎◌, refl, sym, ap, ◌∙◌, is_some,
}
use omni_token.Model.Event.{Event}
use omni_token.Parser.Codex.Turn.{OpenTurn}
use omni_token.Parser.Codex.Line.{Entry, session_meta, kind_of}
use omni_token.Parser.Codex.{Scan, turn_id_of, joined}
use omni_token.Parser.Codex.Growth.{settled}

-- What an event says of the generation itself: its key, model and tokens. When, where and in which
-- file it was written is left out.
abbrev pub generation : Event → Event
generation e = record e {
  event_id = "";
  ts = 0;
  provider = "";
  duration_ms = 0;
  gen_ms = 0;
  ttft_ms = 0;
  session_id = "";
  cwd = "";
  app_version = "";
}

generation-settled : (es : List Event) → map generation (map settled es) ≡ map generation es
generation-settled [] = refl
generation-settled (e ∷ es) = ap (λ xs. generation e ∷ xs) (generation-settled es)

-- What leaves the events settled leaves the generations as they are.
pub of_settled :
    (es es' : List Event)
    → map settled es ≡ map settled es'
    → map generation es ≡ map generation es'
of_settled es es' h =
    sym (generation-settled es) ∙ ap (λ xs. map generation xs) h ∙ generation-settled es'

pub map-append :
    (es es' : List Event) → map generation (es ++ es') ≡ map generation es ++ map generation es'
map-append [] es' = refl
map-append (e ∷ es) es' = ap (λ xs. generation e ∷ xs) (map-append es es')

-- Two states of the parser that differ in session and clock alone.
pub record Twin (s s' : Scan) : Type 0 where
  pub total : s.prev_total ≡ s'.prev_total
  pub turn : turn_id_of s.turn ≡ turn_id_of s'.turn
  pub model : s.model ≡ s'.model
  pub events : map generation s.events ≡ map generation s'.events

module _ (clock : String → Option ℕ) where
  -- A copy of a line: only a session's own line may have another payload.
  pub record CopyOf (e e' : Entry) : Type 0 where
    pub kind : kind_of e ≡ kind_of e'
    pub timed : is_some (clock e.timestamp) ≡ is_some (clock e'.timestamp)
    pub payload : (kind_of e ≡ session_meta) ⊎ (e.payload ≡ e'.payload)

  module _ (unmarshal : List ℕ → Option Entry) where
    abbrev pub CopyLine : List ℕ → List ℕ → Type 0
    CopyLine line line' =
        ((unmarshal line ≡ none) × (unmarshal line' ≡ none))
        ⊎ ((e : Entry) × (e' : Entry) × (unmarshal line ≡ some e)
            × (unmarshal line' ≡ some e')
            × CopyOf e e')

    abbrev pub Copies : List (List ℕ) → List (List ℕ) → Type 0
    Copies [] [] = Unit
    Copies [] (l ∷ ls) = ⊥
    Copies (l ∷ ls) [] = ⊥
    Copies (l ∷ ls) (m ∷ ms) = CopyLine l m × Copies ls ms

pub joined-id : (t : Option OpenTurn) (i ts : ℕ) → turn_id_of (joined t i ts) ≡ turn_id_of t
joined-id none i ts = refl
joined-id (some t) i ts = refl

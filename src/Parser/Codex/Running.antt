-- ===== src/Parser/Codex/Running.antt =====
-- internal/parser/codex/parser.go: the running totals of a file and the usage a line adds to them.
use omni_token.Prelude.{
  ℕ, ◌+◌, ◌-◌, ◌≤◌, String, true, Option, none, some, List, [], ◌∷◌, ◌++◌, map, ◌≡◌, ◌⊎◌, refl, sym,
  ap, ◌∙◌, subst, inl, inr, arith, Bool-cases, is_some,
}
use omni_token.Model.Event.{Event}
use omni_token.Parser.Codex.Line.{
  Usage, Info, Entry, LineKind, session_meta, token_count, kind_of, delta_usage, same_usage,
  prefer_last, usage_since,
}
use omni_token.Parser.Codex.{Scan}
use omni_token.Parser.Codex.Growth.{settled}

-- What was read: OpenAI counts the cached tokens among the input.
abbrev pub read_tokens : Event → ℕ
read_tokens e = e.input_tokens + e.cache_read_tokens

abbrev pub written_tokens : Event → ℕ
written_tokens e = e.output_tokens

abbrev pub total_of : (Event → ℕ) → List Event → ℕ
total_of f [] = 0
total_of f (e ∷ es) = f e + total_of f es

pub total_of-append :
    (f : Event → ℕ) (es es' : List Event) → total_of f (es ++ es') ≡ total_of f es + total_of f es'
total_of-append f [] es' = omega arith
total_of-append f (e ∷ es) es' = omega (arith, total_of-append f es es')

total_of-settled :
    (f : Event → ℕ) (es : List Event)
    → ((e : Event) → f (settled e) ≡ f e)
    → total_of f (map settled es) ≡ total_of f es
total_of-settled f [] h = refl
total_of-settled f (e ∷ es) h = omega (arith, h e, total_of-settled f es h)

pub of_settled :
    (f : Event → ℕ) (es es' : List Event)
    → ((e : Event) → f (settled e) ≡ f e)
    → map settled es ≡ map settled es'
    → total_of f es ≡ total_of f es'
of_settled f es es' h same =
    sym (total_of-settled f es h) ∙ ap (λ xs. total_of f xs) same ∙ total_of-settled f es' h

abbrev pub or_zero : (Usage → ℕ) → Option Usage → ℕ
or_zero f none = 0
or_zero f (some u) = f u

-- A request's own usage, where it is given, is what the totals say since the last ones.
abbrev pub AgreesWith : Option Usage → Usage → Option Usage → Type 0
AgreesWith before u none = Unit
AgreesWith before u (some v) =
    (v.input_tokens ≡ u.input_tokens - or_zero (λ (p : Usage). p.input_tokens) before)
    × (v.output_tokens ≡ u.output_tokens - or_zero (λ (p : Usage). p.output_tokens) before)

abbrev pub IsGrown : Option Usage → Usage → Type 0
IsGrown before u =
    (or_zero (λ (p : Usage). p.input_tokens) before ≤ u.input_tokens)
    × (or_zero (λ (p : Usage). p.output_tokens) before ≤ u.output_tokens)

-- A stale repetition of the totals, under any last usage, or totals that have grown.
abbrev pub IsNext : Option Usage → Usage → Option Usage → Type 0
IsNext before u last = (before ≡ some u) ⊎ (IsGrown before u × AgreesWith before u last)

-- What a request's usage must be for the sums to follow the totals.
abbrev pub IsDelta : Option Usage → Usage → Option Usage → Type 0
IsDelta before u none =
    (u.input_tokens ≡ or_zero (λ (p : Usage). p.input_tokens) before)
    × (u.output_tokens ≡ or_zero (λ (p : Usage). p.output_tokens) before)
IsDelta before u (some d) = AgreesWith before u (some d)

same_usage_refl : (u : Usage) → same_usage u u ≡ true
unfolding same_usage
same_usage_refl u = ground arith

same_usage-fields :
    (u p : Usage)
    → same_usage u p ≡ true
    → (u.input_tokens ≡ p.input_tokens) × (u.output_tokens ≡ p.output_tokens)
unfolding same_usage
same_usage-fields u p h = (ground arith, ground arith)

grown-IsDelta :
    (before : Option Usage) (u : Usage) (last : Option Usage)
    → IsGrown before u
    → AgreesWith before u last
    → IsDelta before u (delta_usage last (some u) before)
unfolding delta_usage usage_since
grown-IsDelta none u none grown agrees = (omega arith, omega arith)
grown-IsDelta none u (some v) grown agrees = agrees
grown-IsDelta (some p) u last grown agrees = elim (Bool-cases (same_usage u p)) [
  | inl stale ↦ rw stale (same_usage-fields u p stale)
  | inr fresh ↦ rw fresh (since p u last agrees)
]
  where
    since :
        (p u : Usage) (last : Option Usage)
        → AgreesWith (some p) u last
        → IsDelta (some p) u (prefer_last last (some u) (some p))
    since p u none h = (refl, refl)
    since p u (some v) h = h

pub delta_usage-IsDelta :
    (before : Option Usage) (u : Usage) (last : Option Usage)
    → IsNext before u last
    → IsDelta before u (delta_usage last (some u) before)
delta_usage-IsDelta before u last (inr (grown, agrees)) = grown-IsDelta before u last grown agrees
delta_usage-IsDelta before u last (inl repeated) =
    subst (λ o. IsDelta o u (delta_usage last (some u) o)) (sym repeated) (stale u last)
  where
    stale :
        (u : Usage) (last : Option Usage) → IsDelta (some u) u (delta_usage last (some u) (some u))
    stale u last = unfold delta_usage in rw (same_usage_refl u) (refl, refl)

module _ (clock : String → Option ℕ) where
  abbrev pub InfoOk : Entry → Option Info → Option Usage → Option Usage → Type 0
  InfoOk e none before after = after ≡ before
  InfoOk e (some info) before after =
      (u : Usage) × (info.total_usage ≡ some u)
      × IsNext before u info.last_usage
      × (is_some (clock e.timestamp) ≡ true)
      × (after ≡ some u)

  -- A session starts before any total, and a line with usage has a time and the next total.
  abbrev pub EntryOk : LineKind → Entry → Option Usage → Option Usage → Type 0
  EntryOk session_meta e before after = (before ≡ none) × (after ≡ none)
  EntryOk token_count e before after = InfoOk e e.payload.info before after
  EntryOk _ e before after = after ≡ before

  module _ (unmarshal : List ℕ → Option Entry) where
    abbrev pub LineOk : List ℕ → Option Usage → Option Usage → Type 0
    LineOk line before after =
        ((unmarshal line ≡ none) × (after ≡ before))
        ⊎ ((e : Entry) × (unmarshal line ≡ some e) × EntryOk (kind_of e) e before after)

    -- Each line is in order, from the total before the first to the total after the last.
    abbrev pub IsCumulative : Option Usage → List (List ℕ) → Option Usage → Type 0
    IsCumulative before [] after = after ≡ before
    IsCumulative before (line ∷ lines) after =
        (next : Option Usage) × LineOk line before next × IsCumulative next lines after

-- The events so far add up to the total so far.
pub record Ledger (s : Scan) : Type 0 where
  pub read : total_of read_tokens s.events ≡ or_zero (λ (p : Usage). p.input_tokens) s.prev_total
  pub written :
      total_of written_tokens s.events ≡ or_zero (λ (p : Usage). p.output_tokens) s.prev_total

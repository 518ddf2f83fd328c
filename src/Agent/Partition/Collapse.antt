-- ===== src/Agent/Partition/Collapse.antt =====
-- internal/agent/agent.go: what `collapseRepeatedEventIDs` keeps.
use omni_token.Prelude.{
  String, Bool, false, none, List, [], ◌∷◌, ◌==◌, ◌≡◌, refl, ap, inl, inr, arith, All, All-mono,
  Pairs, one_of, Bool-cases, eq_iff, if◌then◌else◌, find_where,
}
use omni_token.Model.Event.{Event}
use omni_token.Model.Envelope.Accept.{OtherEvent, both_fresh}
use omni_token.Agent.Partition.{collapse_from, collapse_repeated_event_ids}

abbrev pub has_event_id : String → Event → Bool
has_event_id id e = e.event_id == id

abbrev Fresh : List String → Event → Type 0
Fresh seen v = one_of v.event_id seen ≡ false

find_where-collapse_from :
    (id : String) (seen : List String) (es : List Event)
    → find_where (has_event_id id) (collapse_from seen es)
      ≡ (if one_of id seen then none else find_where (has_event_id id) es)
unfolding find_where collapse_from
find_where-collapse_from id seen [] = ground arith
find_where-collapse_from id seen (e ∷ es) = ground (
  arith,
  find_where-collapse_from id seen es,
  find_where-collapse_from id (e.event_id ∷ seen) es,
  eq_iff e.event_id id,
  eq_iff id e.event_id,
)

collapse_from-Fresh :
    (seen : List String) (es : List Event) → All (Fresh seen) (collapse_from seen es)
unfolding collapse_from
collapse_from-Fresh seen [] = tt
collapse_from-Fresh seen (e ∷ es) = elim (Bool-cases (one_of e.event_id seen)) [
  | inl again ↦ rw again (collapse_from-Fresh seen es)
  | inr first ↦ rw first (
    first,
    All-mono _ _ (collapse_from (e.event_id ∷ seen) es) (λ v k. ground arith)
        (collapse_from-Fresh (e.event_id ∷ seen) es),
  )
]

pub collapse_from-Pairs :
    (seen : List String) (es : List Event) → Pairs OtherEvent (collapse_from seen es)
unfolding collapse_from
collapse_from-Pairs seen [] = tt
collapse_from-Pairs seen (e ∷ es) = elim (Bool-cases (one_of e.event_id seen)) [
  | inl again ↦ rw again (collapse_from-Pairs seen es)
  | inr first ↦ rw first (
    All-mono _ _ (collapse_from (e.event_id ∷ seen) es) (λ v k. ground arith)
        (collapse_from-Fresh (e.event_id ∷ seen) es),
    collapse_from-Pairs (e.event_id ∷ seen) es,
  )
]

collapse_from-fixed :
    (seen : List String) (es : List Event)
    → All (Fresh seen) es
    → Pairs OtherEvent es
    → collapse_from seen es ≡ es
unfolding collapse_from
collapse_from-fixed seen [] h k = refl
collapse_from-fixed seen (e ∷ es) h k = rw h.0 (
    ap (λ xs. e ∷ xs)
      (collapse_from-fixed (e.event_id ∷ seen) es (both_fresh e seen es k.0 h.1) k.1))

All-Fresh : (es : List Event) → All (Fresh []) es
All-Fresh [] = tt
All-Fresh (e ∷ es) = (refl, All-Fresh es)

-- After collapsing, the event ids are pairwise distinct, every id still has the event that bore it
-- first (and no other id has any), and collapsing again changes nothing.
pub collapse-first :
    (es : List Event)
    → Pairs OtherEvent (collapse_repeated_event_ids es)
      × ((id : String)
          → find_where (has_event_id id) (collapse_repeated_event_ids es)
            ≡ find_where (has_event_id id) es)
      × (collapse_repeated_event_ids (collapse_repeated_event_ids es)
          ≡ collapse_repeated_event_ids es)
unfolding collapse_repeated_event_ids
collapse-first es =
    let distinct = collapse_from-Pairs [] es in
    (
      distinct,
      λ id. find_where-collapse_from id [] es,
      collapse_from-fixed [] (collapse_from [] es) (All-Fresh (collapse_from [] es)) distinct,
    )

-- ===== src/Store/Worktime.antt =====
-- internal/store/worktime.go: the spans of activity and their lengths. `sort.Slice` is a sort by
-- insertion, which keeps the order of spans with the same start. An event's interval starts at its
-- time less its duration; a duration longer than the time since the epoch is outside the model.
pub mod Cover
pub mod Bridge
use omni_token.Prelude.{
  ℕ, ◌+◌, ◌-◌, ◌/◌, Bool, List, [], ◌∷◌, ◌++◌, length, ltb, leb, if◌then◌else◌,
}

pub record Span : Type 0 where
  pub start : ℕ
  pub end : ℕ

pub record EvPoint : Type 0 where
  pub ts : ℕ
  pub dur : ℕ

abbrev pub span_of : EvPoint → Span
span_of p = record { start = p.ts - p.dur; end = p.ts }

-- The span up to a later end, if it is later.
abbrev pub extend : Span → ℕ → Span
extend last end = if ltb last.end end then record last { end = end } else last

abbrev pub is_bridged : ℕ → Span → EvPoint → Bool
is_bridged idle_ms last p = leb (p.ts - p.dur) (idle_ms + last.end)

-- The loop of `bridgeSpans` from the last span on.
unfoldable pub bridge_from : ℕ → Span → List EvPoint → List Span
bridge_from idle_ms last [] = last ∷ []
bridge_from idle_ms last (p ∷ ps) =
    let bridged = is_bridged idle_ms last p in
    let rest = bridge_from idle_ms (if bridged then extend last p.ts else span_of p) ps in
    if bridged then rest else last ∷ rest

unfoldable pub bridge_spans : List EvPoint → ℕ → List Span
unfolding bridge_from
bridge_spans [] idle_ms = []
bridge_spans (p ∷ ps) idle_ms = bridge_from idle_ms (span_of p) ps

unfoldable pub insert_span : Span → List Span → List Span
insert_span s [] = s ∷ []
insert_span s (r ∷ rs) =
    let rest = insert_span s rs in if ltb r.start s.start then r ∷ rest else s ∷ r ∷ rs

unfoldable pub sort_spans : List Span → List Span
unfolding insert_span
sort_spans [] = []
sort_spans (s ∷ ss) = insert_span s (sort_spans ss)

-- The loop of `mergeSpans` from the last span on.
unfoldable pub merge_from : Span → List Span → List Span
merge_from last [] = last ∷ []
merge_from last (s ∷ ss) =
    let apart = ltb last.end s.start in
    let rest = merge_from (if apart then s else extend last s.end) ss in
    if apart then last ∷ rest else rest

abbrev pub merge_sorted : List Span → List Span
merge_sorted [] = []
merge_sorted (s ∷ ss) = merge_from s ss

unfoldable pub merge_spans : List Span → List Span
unfolding sort_spans merge_from
merge_spans ss = merge_sorted (sort_spans ss)

unfoldable pub sum_ms : List Span → ℕ
sum_ms [] = 0
sum_ms (s ∷ ss) = s.end - s.start + sum_ms ss

unfoldable pub union_ms : List Span → ℕ
unfolding merge_spans sum_ms
union_ms ss = sum_ms (merge_spans ss)

pub record RepoWork : Type 0 where
  pub union_seconds : ℕ
  pub sum_seconds : ℕ
  pub sessions : ℕ

-- What `flush` adds for each session of one repository: its bridged spans and their sum.
unfoldable pub repo_spans : ℕ → List (List EvPoint) → List Span
unfolding bridge_spans
repo_spans idle_ms [] = []
repo_spans idle_ms (points ∷ rest) = bridge_spans points idle_ms ++ repo_spans idle_ms rest

unfoldable pub repo_sum : ℕ → List (List EvPoint) → ℕ
unfolding bridge_spans sum_ms
repo_sum idle_ms [] = 0
repo_sum idle_ms (points ∷ rest) = sum_ms (bridge_spans points idle_ms) + repo_sum idle_ms rest

-- The row of one repository in `WorkTime`; its sessions are non-empty lists of points.
unfoldable pub repo_work : ℕ → List (List EvPoint) → RepoWork
unfolding repo_spans repo_sum union_ms
repo_work idle_ms sessions = record {
  union_seconds = union_ms (repo_spans idle_ms sessions) / 1000;
  sum_seconds = repo_sum idle_ms sessions / 1000;
  sessions = length sessions;
}

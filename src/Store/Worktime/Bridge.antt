-- ===== src/Store/Worktime/Bridge.antt =====
-- internal/store/worktime.go: how bridged spans lie, and the two metrics of a repository.
use omni_token.Prelude.{ℕ, ◌+◌, ◌≤◌, ◌<◌, List, All, Pairs}
use omni_token.Store.Worktime.{Span}
use omni_token.Store.Worktime.Cover.{IsSpan}

-- The clock stopped between the two.
abbrev Stopped : ℕ → Span → Span → Type 0
Stopped idle_ms a b = idle_ms + a.end < b.start

record Bridged (idle_ms start : ℕ) (ss : List Span) : Type 0 where
  spans : All IsSpan ss
  stopped : Pairs (Stopped idle_ms) ss
  from : All (λ (s : Span). start ≤ s.start) ss

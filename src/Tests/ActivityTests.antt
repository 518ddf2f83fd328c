-- ===== src/Tests/ActivityTests.antt =====
-- Tests of Store/Blocks, Store/Worktime, Store/Procs and Store/Quotas.
use omni_token.Prelude.{
  ℕ, ◌+◌, ◌≤◌, String, Bool, true, false, ◌≡◌, ◌↔◌, inl, inr, refl, none, some, List, [], ◌∷◌,
  length, arith, All, Any, Pairs, select_where, ltb, eqb, ◌==◌,
}
use omni_token.Model.Snapshot.{ProcReport}
use omni_token.Store.Database.{LiveSession}
use omni_token.Store.Procs.{Live, apply_proc_report_tx, previous_report}
use omni_token.Store.Procs.Replace.{IsReported, Has, is_other, apply_proc_report-replaces}
use omni_token.Store.Blocks.{BlockEntry, identify_blocks, block_duration}
use omni_token.Store.Blocks.Windows.{
  total, IsWindow, Before, identify_blocks-total, identify_blocks-IsWindow,
}
use omni_token.Store.Worktime.{Span, EvPoint, merge_spans, sum_ms, union_ms}
use omni_token.Store.Worktime.Cover.{Covers, Apart, merge_spans_cover, union_ms-le-sum_ms}

abbrev session : String → ℕ → ℕ → LiveSession
session device pid at = record {
  device = device;
  pid = pid;
  source = "codex";
  started_at = 1;
  observed_at = at;
}

abbrev running : Live
running = record {
  sessions = session "laptop" 7 10 ∷ session "desktop" 7 99 ∷ [];
  reports = record { device = "laptop"; observed_at = 10 } ∷ [];
}

-- Process 7 has ended and process 8 runs.
abbrev report : ProcReport
report = record {
  device = "laptop";
  observed_at = 20;
  sessions = record { pid = 8; source = "codex"; started_at = 15 } ∷ [];
}

not_older : ltb report.observed_at (previous_report report.device running.reports) ≡ false
unfolding previous_report omni_token.Prelude.find_where
not_older = refl

apply_proc_report-replaces_example :
    let after = (apply_proc_report_tx report running).0.sessions in
    All (IsReported report) after
    × All (λ s. Any (Has report s) after) report.sessions
    × (select_where (is_other report) after ≡ select_where (is_other report) running.sessions)
apply_proc_report-replaces_example =
    apply_proc_report-replaces report running refl refl not_older
      (inr (omega arith), (inl refl, tt))

abbrev entry : ℕ → BlockEntry
entry ts = record { ts = ts; tokens = 30; out = 20 }

-- The third entry is past the window of the first two.
abbrev entries : List BlockEntry
entries = entry 4000000 ∷ entry 5000000 ∷ entry 40000000 ∷ []

identify_blocks-total_example :
    let bs = identify_blocks entries block_duration 40000001 in
    (total (λ b. b.tokens) bs ≡ total (λ e. e.tokens) entries)
    × (total (λ b. b.out_tokens) bs ≡ total (λ e. e.out) entries)
    × (total (λ b. b.events) bs ≡ 3)
identify_blocks-total_example = identify_blocks-total entries block_duration 40000001

identify_blocks-IsWindow_example :
    let bs = identify_blocks entries block_duration 40000001 in
    All (IsWindow block_duration) bs × Pairs Before bs
identify_blocks-IsWindow_example =
    identify_blocks-IsWindow entries block_duration 40000001 (omega arith) refl
      (omega arith, (omega arith, (omega arith, tt)))

abbrev span : ℕ → ℕ → Span
span a b = record { start = a; end = b }

abbrev spans : List Span
spans = span 5 9 ∷ span 1 6 ∷ span 20 30 ∷ []

merge_spans_cover_example :
    Pairs Apart (merge_spans spans)
    × ((t : ℕ) → Any (Covers t) (merge_spans spans) ↔ Any (Covers t) spans)
merge_spans_cover_example = merge_spans_cover spans

union_ms-le-sum_ms_example : union_ms spans ≤ sum_ms spans
union_ms-le-sum_ms_example =
    union_ms-le-sum_ms spans (omega arith, (omega arith, (omega arith, tt)))

abbrev points : List EvPoint
points =
    record { ts = 10; dur = 2 } ∷ record { ts = 14; dur = 1 } ∷ record { ts = 90; dur = 3 } ∷ []

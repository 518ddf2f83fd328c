-- ===== src/Store/Procs.antt =====
-- internal/store/ingestv2.go: `applyProcReportTx` over `live_sessions` and `live_reports`.
pub mod Replace
use omni_token.Prelude.{
  ℕ, String, Bool, false, not, ◌&&◌, ◌||◌, none, some, List, [], ◌∷◌, ◌==◌, eqb, ltb, is_some,
  if◌then◌else◌, find_where, count_where, delete_where, length,
}
use omni_token.Model.Snapshot.{ProcSession, ProcReport}
use omni_token.Store.Database.{LiveSession, LiveReport}

abbrev pub of_device : String → LiveSession → Bool
of_device device r = r.device == device

abbrev pub of_process : String → ℕ → LiveSession → Bool
of_process device pid r = r.device == device && eqb r.pid pid

-- INSERT OR REPLACE on the key (device, pid)
unfoldable pub replace_session : LiveSession → List LiveSession → List LiveSession
replace_session s t = s ∷ delete_where (of_process s.device s.pid) t

abbrev pub live_session : ProcReport → ProcSession → LiveSession
live_session report s = record {
  device = report.device;
  pid = s.pid;
  source = s.source;
  started_at = s.started_at;
  observed_at = report.observed_at;
}

-- The loop over the sessions; `known` is the table before it.
unfoldable pub apply_sessions :
    ProcReport → List LiveSession → List ProcSession → List LiveSession → List LiveSession × Bool
unfolding replace_session
apply_sessions report known [] t = (t, false)
apply_sessions report known (s ∷ ss) t =
    let (t', changed) =
      apply_sessions report known ss (replace_session (live_session report s) t) in
    (t', not (is_some (find_where (of_process report.device s.pid) known)) || changed)

abbrev pub before : String → ℕ → LiveSession → Bool
before device observed_at r = r.device == device && ltb r.observed_at observed_at

abbrev pub report_of : String → LiveReport → Bool
report_of device r = r.device == device

unfoldable pub replace_report : LiveReport → List LiveReport → List LiveReport
replace_report r t = r ∷ delete_where (report_of r.device) t

-- The last report of the device; 0 if there is none.
unfoldable pub previous_report : String → List LiveReport → ℕ
previous_report device t = elim (find_where (report_of device) t) [
  | none ↦ 0
  | some r ↦ r.observed_at
]

pub record Live : Type 0 where
  pub sessions : List LiveSession
  pub reports : List LiveReport

unfoldable pub apply_proc_report_tx : ProcReport → Live → Live × Bool
unfolding apply_sessions replace_report previous_report
apply_proc_report_tx report live =
    if report.device == "" || eqb report.observed_at 0
    then (live, false)
    else if ltb report.observed_at (previous_report report.device live.reports)
    then (live, false)
    else (let (sessions, added) =
          apply_sessions report live.sessions report.sessions live.sessions in
        let changed =
          not
            (eqb (count_where (of_device report.device) live.sessions) (length report.sessions)) in
        (
          record {
            sessions = delete_where (before report.device report.observed_at) sessions;
            reports =
                replace_report (record { device = report.device; observed_at = report.observed_at })
                  live.reports;
          },
          changed || added,
        ))

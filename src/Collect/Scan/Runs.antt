-- ===== src/Collect/Scan/Runs.antt =====
-- internal/collect/scan.go and state.go: any sequence of scans, offset resets and restarts of the
-- collector, from a fresh start.
use omni_token.Prelude.{ℕ, String, Bool, Option, none, some, List, [], ◌∷◌, inl, inr, Option-cases}
use omni_token.Model.Event.{Event}
use omni_token.Model.Snapshot.{QuotaSnapshot}
use omni_token.Collect.State.{State, new_state, missing, load_state, Process, reset_offsets}
use omni_token.Collect.Scan.{World, with_process}
use omni_token.Collect.Scan.File.{SourceSpec, FileView, Pass, scan_file}
use omni_token.Collect.Scan.Sound.{reset_offsets-Sound, load_state-Sound}
use omni_token.Collect.Scan.Kept.{Sound, scan_content-Sound}

-- What the collector does next. A restart reads the state file again; it stops if that is unreadable.
pub data Action : Type 0 where
  scan_action : String → SourceSpec → Pass → FileView → Action
  reset_action restart_action : Action

abbrev pub started : Option State → Process → Process
started none p = p
started (some s) p = record p { memory = s }

abbrev pub fresh_world : World
fresh_world = record {
  process = record { memory = new_state; disk = missing; saves = 0 };
  accepted = [];
  accepted_quotas = [];
  sends = 0;
}

module _ (save_ok sink_ok : ℕ → Bool) (events_digest : List Event → Option String)
    (quotas_digest : List QuotaSnapshot → Option String) where
  unfoldable pub act : Action → World → World
  unfolding scan_file load_state reset_offsets
  act (scan_action path spec pass file) w =
      (scan_file save_ok sink_ok events_digest quotas_digest path spec pass file w).0
  act reset_action w = with_process w (reset_offsets save_ok w.process).0
  act restart_action w = with_process w (started (load_state w.process.disk) w.process)

  unfoldable pub act_all : List Action → World → World
  unfolding act
  act_all [] w = w
  act_all (a ∷ actions) w = act_all actions (act a w)

  act-Sound :
      (a : Action) (w : World)
      → Sound events_digest quotas_digest w
      → Sound events_digest quotas_digest (act a w)
  unfolding act
  act-Sound (scan_action path spec pass file) w k =
      scan_content-Sound save_ok sink_ok events_digest quotas_digest path spec pass file.content
        file.opens w k
  act-Sound reset_action w k = record {
    ledger =
        reset_offsets-Sound events_digest quotas_digest w.accepted w.accepted_quotas save_ok
          w.process k.ledger;
  }
  act-Sound restart_action w k = elim (Option-cases (load_state w.process.disk)) [
    | inl stopped ↦ rw stopped k
    | inr (s, read) ↦ rw read (record {
      ledger = record {
        memory =
            load_state-Sound events_digest quotas_digest w.accepted w.accepted_quotas w.process.disk
              s k.ledger.disk read;
        disk = k.ledger.disk;
      };
    })
  ]

  -- Whatever the files, whichever sends and saves fail, and wherever the collector restarts: every
  -- delivery key and chunk key in the memory or the state file names a batch that a sink has accepted,
  -- if it did before, as it does at a fresh start.
  pub act_all-Sound :
      (actions : List Action) (w : World)
      → Sound events_digest quotas_digest w
      → Sound events_digest quotas_digest (act_all actions w)
  unfolding act_all
  act_all-Sound [] w k = k
  act_all-Sound (a ∷ actions) w k = act_all-Sound actions (act a w) (act-Sound a w k)

  pub fresh_world-Sound : Sound events_digest quotas_digest fresh_world
  fresh_world-Sound = record {
    ledger = record {
      memory = record {
        delivered = λ file scan key held told. absurd (cc held);
        chunks = λ file m i key held told. absurd (cc held);
      };
      disk = tt;
    };
  }

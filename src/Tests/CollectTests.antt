-- ===== src/Tests/CollectTests.antt =====
-- Tests of Collect.
use omni_token.Prelude.{
  ℕ, String, Bool, true, Option, none, some, List, [], ◌∷◌, ◌≡◌, refl, eqb, length, not,
}
use omni_token.Model.Event.{Event}
use omni_token.Model.Snapshot.{QuotaSnapshot}
use omni_token.Collect.State.{new_state, Process, missing, commit_call, run_call}
use omni_token.Collect.State.Rollback.{Settled, run_call-Settled}
use omni_token.Collect.Scan.{ParseResult, World, deliver_all}
use omni_token.Collect.Scan.File.{Bytes, SourceSpec, FileView, Pass}
use omni_token.Collect.Scan.Commit.{Ended, deliver_all-Ended}
use omni_token.Collect.Scan.Kept.{Sound}
use omni_token.Collect.Scan.Runs.{
  Action, scan_action, reset_action, restart_action, act_all, fresh_world, act_all-Sound,
  fresh_world-Sound,
}
use omni_token.Tests.Data.{usage}

-- The second save fails.
abbrev save_ok : ℕ → Bool
save_ok n = not (eqb n 1)

abbrev always : ℕ → Bool
always n = true

abbrev events_digest : List Event → Option String
events_digest [] = none
events_digest (e ∷ es) = some e.event_id

abbrev quotas_digest : List QuotaSnapshot → Option String
quotas_digest qs = some "q"

abbrev after_one_save : Process
after_one_save = record { memory = new_state; disk = missing; saves = 1 }

run_call-Settled_example :
    Settled save_ok
      (commit_call "log" 10 5 none)
      after_one_save
      (run_call save_ok (commit_call "log" 10 5 none) after_one_save)
run_call-Settled_example = run_call-Settled save_ok (commit_call "log" 10 5 none) after_one_save

abbrev two_events : List Event
two_events = usage "a" "" 1 ∷ usage "b" "" 2 ∷ []

deliver_all-Ended_example :
    Ended always always events_digest quotas_digest "log" 10 two_events fresh_world (
      deliver_all always always events_digest quotas_digest "log" true true 10 5 [] two_events
        fresh_world)
deliver_all-Ended_example =
    deliver_all-Ended always always events_digest quotas_digest "log" true true 10 5 [] two_events
      fresh_world (fresh_world-Sound always always events_digest quotas_digest).ledger

-- Whatever the file holds, it is one event.
abbrev one_event : Bytes → String → ℕ → ParseResult
one_event content device turn_start = record {
  events = usage "a" "" 1 ∷ [];
  quotas = [];
  consumed = length content;
  turn_start_ms = 0;
}

abbrev spec : SourceSpec
spec = record { parse = one_event; full_reparse = true }

abbrev pass : Pass
pass = record { device = "laptop"; resolve = none; not_before = none; wants_quotas = true }

abbrev grown_file : ℕ → FileView
grown_file n = record { content = some (1 ∷ n ∷ []); opens = true }

abbrev actions : List Action
actions =
    scan_action "log" spec pass (grown_file 1)
    ∷ restart_action
    ∷ scan_action "log" spec pass (grown_file 2)
    ∷ reset_action
    ∷ []

-- The second scan finds the file unchanged.
accepted_once :
    length (act_all always always events_digest quotas_digest actions fresh_world).accepted ≡ 1
unfolding act_all omni_token.Collect.Scan.logical_delivery_key
accepted_once = refl

act_all-Sound_example :
    Sound events_digest quotas_digest
      (act_all save_ok always events_digest quotas_digest actions fresh_world)
act_all-Sound_example =
    act_all-Sound save_ok always events_digest quotas_digest actions fresh_world
      (fresh_world-Sound save_ok always events_digest quotas_digest)

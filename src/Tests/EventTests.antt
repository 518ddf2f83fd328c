-- ===== src/Tests/EventTests.antt =====
-- Tests of Store/Events.
use omni_token.Prelude.{ℕ, ◌+◌, ◌≤◌, String, ◌≡◌, refl, none, some, [], length}
use omni_token.Store.Events.{self}
use omni_token.Store.Events.Insert.{EventApplyResult}
use omni_token.Store.Events.Batch.{State, insert_events_from_tx}
use omni_token.Store.Events.Counts.{Recorded, insert_events-Recorded}
use omni_token.Store.Events.Counts.Steps.{Holds}
use omni_token.Store.Events.Keys.{IsWellKeyed}
use omni_token.Store.Events.Committed.{insert_events-IsWellKeyed}
use omni_token.Store.Events.Accounting.{insert_events_rows}
use omni_token.Tests.Data.{copy_rows, original_batch, original_rows}

-- One row inserted in place of the copy, one more, and one row lost.
abbrev state : State
state = (
  original_rows,
  record { inserted = 2; filled = 0; reattributed = 0; deduped = 1; reclassified = [] },
)

committed : insert_events_from_tx copy_rows original_batch 7 self ≡ some state
unfolding insert_events_from_tx omni_token.Store.Events.Batch.observe_all
    omni_token.Store.Events.Batch.observe omni_token.Store.Events.Insert.settle_fork
    omni_token.Store.Events.insert omni_token.Prelude.find_where omni_token.Store.Events.key_owner
    omni_token.Store.Events.drop_copy omni_token.Prelude.delete_where
committed = refl

copy_rows-IsWellKeyed : IsWellKeyed copy_rows
copy_rows-IsWellKeyed = record { ids = (tt, tt); keys = (tt, tt) }

insert_events-Recorded_example : Holds (Recorded copy_rows original_batch) original_rows
insert_events-Recorded_example = insert_events-Recorded copy_rows original_batch 7 self committed

insert_events-IsWellKeyed_example :
    (s : State) × (insert_events_from_tx copy_rows original_batch 7 self ≡ some s) × IsWellKeyed s.0
insert_events-IsWellKeyed_example =
    insert_events-IsWellKeyed copy_rows original_batch 7 self copy_rows-IsWellKeyed

insert_events_rows_example :
    (length original_rows + 1 ≡ length copy_rows + 2) × (2 ≤ length original_batch)
insert_events_rows_example =
    insert_events_rows copy_rows original_batch 7 self copy_rows-IsWellKeyed committed

-- ===== src/Tests/PartitionTests.antt =====
-- Tests of Agent/Partition.
use omni_token.Prelude.{ℕ, String, Option, some, List, [], ◌∷◌, ◌≡◌, refl, arith, find_where, Pairs}
use omni_token.Model.Event.{Event}
use omni_token.Model.Envelope.{IngestEnvelopeV2}
use omni_token.Model.Envelope.Accept.{OtherEvent}
use omni_token.Agent.Partition.{
  Stamp, partition_event_envelopes, collapse_repeated_event_ids, enqueue_events,
}
use omni_token.Agent.Partition.Whole.{Ended, partition_event_envelopes-Ended}
use omni_token.Agent.Partition.Collapse.{has_event_id, collapse-first}
use omni_token.Agent.Partition.Acceptable.{IsEnrolled, IsScanned}
use omni_token.Agent.Partition.Accepted.{Enqueued, enqueue_events-Enqueued}
use omni_token.Tests.Data.{usage, encode, empty_outbox}

abbrev on_laptop : String → ℕ → Event
on_laptop id ts = record (usage id "" ts) { device = "aaaaaaaa-aaaa-4aaa-8aaa-aaaaaaaaaaaa" }

-- Three blocks of one generation repeat its id.
abbrev scanned : List Event
scanned = on_laptop "a" 1 ∷ on_laptop "a" 2 ∷ on_laptop "b" 3 ∷ on_laptop "a" 4 ∷ []

abbrev stamp : Stamp
stamp = record {
  device_id = "aaaaaaaa-aaaa-4aaa-8aaa-aaaaaaaaaaaa";
  boot_id = "bbbbbbbb-bbbb-4bbb-8bbb-bbbbbbbbbbbb";
  new_uuid = λ k. some "cccccccc-cccc-4ccc-8ccc-cccccccccccc";
  current_milli = λ k. 100;
}

collapsed : collapse_repeated_event_ids scanned ≡ on_laptop "a" 1 ∷ on_laptop "b" 3 ∷ []
unfolding collapse_repeated_event_ids
collapsed = refl

collapse-first_example :
    Pairs OtherEvent (collapse_repeated_event_ids scanned)
    × ((id : String)
        → find_where (has_event_id id) (collapse_repeated_event_ids scanned)
          ≡ find_where (has_event_id id) scanned)
    × (collapse_repeated_event_ids (collapse_repeated_event_ids scanned)
        ≡ collapse_repeated_event_ids scanned)
collapse-first_example = collapse-first scanned

partition_event_envelopes-Ended_example :
    Ended encode stamp scanned (partition_event_envelopes encode stamp 5 0 scanned)
partition_event_envelopes-Ended_example =
    partition_event_envelopes-Ended encode stamp 5 0 scanned (omega arith)

stamp-IsEnrolled : IsEnrolled stamp
unfolding omni_token.Model.Envelope.valid_uuid
stamp-IsEnrolled = record {
  device = refl;
  boot = refl;
  random = λ k id drawn. rw (id_of id drawn) refl;
  after_epoch = λ k. omega arith;
  before_limit = λ k. omega arith;
}
  where
    id_of :
        (id : String)
        → ◌≡◌ {A = Option String} (some "cccccccc-cccc-4ccc-8ccc-cccccccccccc") (some id)
        → id ≡ "cccccccc-cccc-4ccc-8ccc-cccccccccccc"
    id_of id h = cc

scanned-IsScanned : IsScanned stamp (collapse_repeated_event_ids scanned)
unfolding collapse_repeated_event_ids
scanned-IsScanned = record {
  some_event = refl;
  bounded = omega arith;
  named = (refl, (refl, tt));
  owned = (refl, (refl, tt));
}

enqueue_events-Enqueued_example :
    Enqueued encode stamp 9 scanned empty_outbox
      (enqueue_events encode stamp 9 0 scanned empty_outbox)
enqueue_events-Enqueued_example =
    enqueue_events-Enqueued encode stamp 9 0 scanned empty_outbox (λ e k bound. omega arith)
      stamp-IsEnrolled scanned-IsScanned (omega arith)

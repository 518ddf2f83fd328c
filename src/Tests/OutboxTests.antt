-- ===== src/Tests/OutboxTests.antt =====
-- Tests of Agent.
use omni_token.Prelude.{
  ℕ, ◌+◌, ◌≤◌, ◌<◌, String, Bool, true, false, ◌≡◌, ◌⊎◌, is_some, refl, Option, none, some, List,
  [], ◌∷◌, ◌++◌, length, arith,
}
use omni_token.Model.Envelope.{IngestEnvelopeV2}
use omni_token.Agent.Outbox.{
  Bytes, Result, ok, Batch, Outbox, enqueue_many_next, Call, enqueue_call, send_call,
  acknowledge_call, run_all,
}
use omni_token.Agent.Outbox.Order.{numbered, sent_rows, enqueue_many_next-sends}
use omni_token.Agent.Backoff.{RetryBackoff, clip, next_cap, reset}
use omni_token.Agent.Backoff.Cap.{doubled, next_cap-doubled}
use omni_token.Agent.Outbox.Fifo.{IsFifo, run_all-IsFifo}
use omni_token.Agent.Outbox.Sound.{IsSound, run_all-IsSound}
use omni_token.Agent.Upload.{Reply, answered, Drained, drain_outbox}
use omni_token.Agent.Upload.Drain.{drain_outbox-ends}
use omni_token.Server.Ingest.{acknowledged}
use omni_token.Tests.Data.{envelope, ingest_ack, encode, decode, empty_outbox, full_outbox}

sent : enqueue_many_next encode 9 (envelope ∷ []) empty_outbox ≡ ok (envelope ∷ [], full_outbox)
unfolding enqueue_many_next omni_token.Model.Envelope.validate_ingest_envelope
    omni_token.Model.Envelope.check_header omni_token.Model.Envelope.valid_uuid
    omni_token.Model.Envelope.check_events_payload omni_token.Model.Envelope.check_events
    omni_token.Prelude.find_where
sent = refl

enqueue_many_next-sends_example :
    (envelope ∷ [] ≡ numbered 0 (envelope ∷ []))
    × (full_outbox.batches ≡ [] ++ sent_rows encode 9 (envelope ∷ []))
    × (full_outbox.last_sequence ≡ 0 + 1)
enqueue_many_next-sends_example = enqueue_many_next-sends encode 9 (envelope ∷ []) empty_outbox sent

abbrev calls : List Call
calls = send_call 9 (envelope ∷ []) ∷ enqueue_call 10 envelope ∷ acknowledge_call ingest_ack ∷ []

empty_outbox-IsSound : IsSound empty_outbox
unfolding omni_token.Agent.Outbox.queued
empty_outbox-IsSound = record { distinct = tt; measured = tt; room = omega arith }

run_all-IsSound_example : IsSound (run_all encode decode calls empty_outbox)
run_all-IsSound_example = run_all-IsSound encode decode calls empty_outbox empty_outbox-IsSound

abbrev hub : ℕ → IngestEnvelopeV2 → Reply
hub n e = answered (acknowledged 200 ingest_ack)

drain_outbox-ends_example :
    (d : Drained) × (drain_outbox decode 2 hub 0 full_outbox ≡ some d)
    × (d.uploads + length d.outbox.batches ≡ 1)
    × ((d.outbox.batches ≡ []) ⊎ (is_some d.error ≡ true))
drain_outbox-ends_example = drain_outbox-ends decode 2 hub 0 full_outbox (omega arith)

abbrev numbering_calls : List Call
numbering_calls =
    send_call 9 (envelope ∷ []) ∷ send_call 10 (envelope ∷ []) ∷ acknowledge_call ingest_ack ∷ []

empty_outbox-IsFifo : IsFifo encode empty_outbox
empty_outbox-IsFifo = record { queue = []; carried = tt; rising = tt; given = tt }

run_all-IsFifo_example : IsFifo encode (run_all encode decode numbering_calls empty_outbox)
run_all-IsFifo_example =
    run_all-IsFifo encode decode numbering_calls empty_outbox (tt, (tt, (tt, tt)))
      empty_outbox-IsFifo

-- One second, doubled at most to 30 seconds, at the sixth attempt.
abbrev backoff : RetryBackoff
backoff = record { base = 1000; max_delay = 30000; attempt = 5 }

next_cap-doubled_example :
    ((next_cap backoff).0 ≡ clip 30000 (doubled 5 1000))
    × ((next_cap backoff).0 ≤ 30000)
    × ((next_cap (reset backoff)).0 ≡ clip 30000 1000)
next_cap-doubled_example = next_cap-doubled backoff

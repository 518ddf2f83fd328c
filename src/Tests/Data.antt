-- ===== src/Tests/Data.antt =====
-- The concrete events, envelopes and tables of the tests.
use omni_token.Prelude.{ℕ, String, Option, none, some, List, [], ◌∷◌}
use omni_token.Model.Event.{Event}
use omni_token.Model.Envelope.{IngestEnvelopeV2, IngestAckV2, kind_events}
use omni_token.Store.Events.{Row, Table, DeviceOrigin, self, observed}
use omni_token.Agent.Outbox.{Bytes, Outbox}
use omni_token.Store.Database.{Db, empty_db}

-- An event of 30 tokens, by its id, its key and its time.
abbrev pub usage : String → String → ℕ → Event
usage id key ts = record {
  event_id = id;
  dedup_key = key;
  ts = ts;
  device = "laptop";
  source = "codex";
  model = "m";
  provider = "openai-api";
  account_label = "";
  input_tokens = 10;
  output_tokens = 20;
  cache_read_tokens = 0;
  cache_creation_tokens = 0;
  cache_1h_tokens = 0;
  cache_5m_tokens = 0;
  duration_ms = 0;
  gen_ms = 5;
  ttft_ms = 0;
  session_id = "s";
  cwd = "";
  git_branch = "";
  repo = "";
  app_version = "";
}

abbrev pub stored : DeviceOrigin → Event → Row
stored origin e = record { event = e; device_origin = origin; received_at = 1 }

-- A fork's copy under a later time, as an earlier scan stored it.
abbrev pub copy_rows : Table
copy_rows = stored observed (usage "copy" "k" 20) ∷ []

-- The original, which displaces the copy, and a new event.
abbrev pub original_batch : List Event
original_batch = usage "original" "k" 10 ∷ usage "fresh" "" 30 ∷ []

abbrev pub original_rows : Table
original_rows =
    record { event = usage "fresh" "" 30; device_origin = self; received_at = 7 }
    ∷ record { event = usage "original" "k" 10; device_origin = self; received_at = 7 }
    ∷ []

abbrev pub envelope : IngestEnvelopeV2
envelope = record {
  protocol_version = 2;
  device_id = "aaaaaaaa-aaaa-4aaa-8aaa-aaaaaaaaaaaa";
  boot_id = "bbbbbbbb-bbbb-4bbb-8bbb-bbbbbbbbbbbb";
  batch_id = "cccccccc-cccc-4ccc-8ccc-cccccccccccc";
  sequence = 1;
  captured_at = 100;
  kind = kind_events;
  events = record (usage "e" "" 5) { device = "aaaaaaaa-aaaa-4aaa-8aaa-aaaaaaaaaaaa" } ∷ [];
  quotas = [];
  procs = none;
}

abbrev pub ingest_ack : IngestAckV2
ingest_ack = record {
  protocol_version = 2;
  device_id = "aaaaaaaa-aaaa-4aaa-8aaa-aaaaaaaaaaaa";
  batch_id = "cccccccc-cccc-4ccc-8ccc-cccccccccccc";
  ack_sequence = 1;
  accepted = 1;
  duplicates = 0;
  rejected = [];
  server_time = 100;
}

abbrev pub ingested_db : Db
ingested_db = record empty_db {
  events =
      record {
        event = record (usage "e" "" 5) { device = "aaaaaaaa-aaaa-4aaa-8aaa-aaaaaaaaaaaa" };
        device_origin = self;
        received_at = 100;
      }
      ∷ [];
  receipts = ingest_ack ∷ [];
}

-- Every envelope is written as one byte, and that byte is read as `envelope`.
abbrev pub encode : IngestEnvelopeV2 → Bytes
encode e = 1 ∷ []

abbrev pub decode : Bytes → Option IngestEnvelopeV2
decode [] = none
decode (b ∷ bs) = some envelope

abbrev pub empty_outbox : Outbox
empty_outbox = record { batches = []; last_sequence = 0; max_bytes = 100 }

abbrev pub full_outbox : Outbox
full_outbox = record {
  batches =
      record {
        batch_id = "cccccccc-cccc-4ccc-8ccc-cccccccccccc";
        envelope = 1 ∷ [];
        payload_bytes = 1;
        enqueued_at = 9;
      }
      ∷ [];
  last_sequence = 1;
  max_bytes = 100;
}

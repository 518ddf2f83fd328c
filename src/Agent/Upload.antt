-- ===== src/Agent/Upload.antt =====
-- internal/agent/agent.go: `uploadOldest` and `drainOutbox`. The exchange with the server is an
-- argument: what it answers to an envelope, if an answer comes.
pub mod Drain
use omni_token.Prelude.{
  ℕ, zero, suc, ◌+◌, Bool, true, false, not, ◌&&◌, Option, none, some, List, [], ◌∷◌, ◌≡◌, refl,
  leb, ltb, if◌then◌else◌, length,
}
use omni_token.Model.Envelope.{IngestEnvelopeV2, IngestAckV2}
use omni_token.Agent.Outbox.{
  Bytes, OutboxError, empty, Result, ok, err, Outbox, peek_batch, acknowledge,
}
use omni_token.Server.Ingest.{Response, acknowledged, refused}

pub data Reply : Type 0 where
  lost : Reply
  answered : Response → Reply

pub data UploadError : Type 0 where
  of_outbox : OutboxError → UploadError
  of_network : UploadError
  of_server : ℕ → UploadError

pub data Upload : Type 0 where
  uploaded : Outbox → Upload
  stopped : UploadError → Upload

-- How a drain ends: the uploads made, the error that stopped it, and the outbox.
pub record Drained : Type 0 where
  pub uploads : ℕ
  pub error : Option UploadError
  pub outbox : Outbox

-- `resp.StatusCode < 200 || resp.StatusCode >= 300` is an error.
abbrev pub succeeded : ℕ → Bool
succeeded status = leb 200 status && ltb status 300

abbrev pub of_result : Result Outbox → Upload
of_result (ok o) = uploaded o
of_result (err e) = stopped (of_outbox e)

-- What decoding an error's body leaves in the acknowledgement: Go's zero values.
abbrev pub zero_ack : IngestAckV2
zero_ack = record {
  protocol_version = 0;
  device_id = "";
  batch_id = "";
  ack_sequence = 0;
  accepted = 0;
  duplicates = 0;
  rejected = [];
  server_time = 0;
}

module _ (unmarshal : Bytes → Option IngestEnvelopeV2) where
  abbrev pub after_reply : Outbox → Reply → Upload
  after_reply o lost = stopped of_network
  after_reply o (answered (refused status text)) =
      if succeeded status
      then of_result (acknowledge unmarshal zero_ack o)
      else stopped (of_server status)
  after_reply o (answered (acknowledged status ack)) =
      if succeeded status
      then of_result (acknowledge unmarshal ack o)
      else stopped (of_server status)

  abbrev pub after_peek : (IngestEnvelopeV2 → Reply) → Outbox → Result IngestEnvelopeV2 → Upload
  after_peek post o (err e) = stopped (of_outbox e)
  after_peek post o (ok e) = after_reply o (post e)

  unfoldable pub upload_oldest : (IngestEnvelopeV2 → Reply) → Outbox → Upload
  unfolding peek_batch acknowledge
  upload_oldest post o = after_peek post o (peek_batch unmarshal o)

  -- The loop of `drainOutbox` after an upload: an empty outbox ends it without an error.
  abbrev pub after_upload : Option Drained → ℕ → Outbox → Upload → Option Drained
  after_upload rest n o (uploaded o') = rest
  after_upload rest n o (stopped (of_outbox empty)) =
      some (record { uploads = n; error = none; outbox = o })
  after_upload rest n o (stopped e) = some (record { uploads = n; error = some e; outbox = o })

  abbrev pub left_after : Outbox → Upload → Outbox
  left_after o (uploaded o') = o'
  left_after o (stopped e) = o

  -- `drainOutbox` on fuel: `posts n` is the exchange after n uploads.
  unfoldable pub drain_outbox : ℕ → (ℕ → IngestEnvelopeV2 → Reply) → ℕ → Outbox → Option Drained
  unfolding upload_oldest
  drain_outbox zero posts n o = none
  drain_outbox (suc fuel) posts n o =
      let u = upload_oldest (posts n) o in
      let rest = drain_outbox fuel posts (suc n) (left_after o u) in after_upload rest n o u

-- ===== src/Delivery.antt =====
-- One device's outbox (internal/agent/outbox.go, internal/agent/agent.go) and the hub
-- (internal/server/ingestv2.go, internal/store/ingestv2.go) with the network between them. A
-- request may be dropped, or served without its answer arriving; other clients' requests come in
-- between.
pub mod Receipts
pub mod Loss
pub mod Once
use omni_token.Prelude.{ℕ, Bool, true, false, Option, none, some, List, [], ◌∷◌, ◌++◌}
use omni_token.Model.Envelope.{IngestEnvelopeV2}
use omni_token.Store.Database.{Db}
use omni_token.Server.Ingest.{Handled, handle_ingest_v2}
use omni_token.Agent.Outbox.{Bytes, Result, ok, err, Outbox, peek_batch, enqueue_many_next}
use omni_token.Agent.Upload.{
  Reply, lost, answered, Upload, uploaded, stopped, upload_oldest, left_after,
}

-- `sent` is the journal of the envelopes that were accepted into the outbox.
pub record System : Type 0 where
  pub outbox : Outbox
  pub db : Db
  pub sent : List IngestEnvelopeV2

-- What the network does with a request and its answer.
pub data Network : Type 0 where
  dropped unanswered delivered : Network

pub data Action : Type 0 where
  send : ℕ → List IngestEnvelopeV2 → Action
  upload : ℕ → Network → Action
  other_client : ℕ → IngestEnvelopeV2 → Action

abbrev pub after_send : System → Result (List IngestEnvelopeV2 × Outbox) → System
after_send s (ok (es, o)) = record s { outbox = o; sent = s.sent ++ es }
after_send s (err e) = s

abbrev pub reply_of : Network → Handled → Reply
reply_of delivered h = answered h.response
reply_of _ h = lost

abbrev pub served : Network → Handled → Db → Db
served dropped h db = db
served _ h db = h.db

module _ (authenticate : IngestEnvelopeV2 → Option Bool) (marshal : IngestEnvelopeV2 → Bytes)
    (unmarshal : Bytes → Option IngestEnvelopeV2) where
  abbrev pub after_request : ℕ → Network → System → Result IngestEnvelopeV2 → System
  after_request now net s (err e) = s
  after_request now net s (ok e) =
      let h = handle_ingest_v2 authenticate e now s.db in
      let post : IngestEnvelopeV2 → Reply = λ e'. reply_of net h in
      record s {
        outbox = left_after unmarshal s.outbox (upload_oldest unmarshal post s.outbox);
        db = served net h s.db;
      }

  unfoldable pub act : Action → System → System
  unfolding enqueue_many_next handle_ingest_v2 upload_oldest peek_batch
  act (send now es) s = after_send s (enqueue_many_next marshal now es s.outbox)
  act (upload now net) s = after_request now net s (peek_batch unmarshal s.outbox)
  act (other_client now e) s = record s { db = (handle_ingest_v2 authenticate e now s.db).db }

  unfoldable pub act_all : List Action → System → System
  unfolding act
  act_all [] s = s
  act_all (a ∷ later) s = act_all later (act a s)

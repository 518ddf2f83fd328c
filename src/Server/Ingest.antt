-- ===== src/Server/Ingest.antt =====
-- internal/server/ingestv2.go: `handleIngestV2` after the body is decoded. Authentication is a
-- parameter: it fails, or it says whether the request's credential is the device's.
use omni_token.Prelude.{ℕ, String, Bool, true, false, Option, none, some, List, [], ◌∷◌}
use omni_token.Model.Envelope.{
  IngestEnvelopeV2, IngestAckV2, IngestRejection, ingest_protocol_v2, validate_ingest_envelope,
}
use omni_token.Store.Database.{Db}
use omni_token.Store.Ingest.{
  IngestError, receipt_conflict, Outcome, applied, failed, apply_ingest_v2,
}

-- A response: an acknowledgement or an error, with its status.
pub data Response : Type 0 where
  acknowledged : ℕ → IngestAckV2 → Response
  refused : ℕ → String → Response

-- What a request does: its response, whether the UI is notified, and the tables after it.
pub record Handled : Type 0 where
  pub response : Response
  pub notified : Bool
  pub db : Db

abbrev status_unprocessable : ℕ
status_unprocessable = 422

abbrev answer_error : IngestError → Response
answer_error receipt_conflict = refused 409 "batch_id_conflict"
answer_error _ = refused 500 "store_error"

abbrev pub answer_outcome : Outcome × Db → Handled
answer_outcome (failed err, db) = record { response = answer_error err; notified = false; db = db }
answer_outcome (applied r, db) = record {
  response = acknowledged 200 r.ack;
  notified = r.mutated;
  db = db;
}

abbrev pub after_auth : IngestEnvelopeV2 → ℕ → Db → Option Bool → Handled
after_auth e received_at db none = record {
  response = refused 500 "authentication_error";
  notified = false;
  db = db;
}
after_auth e received_at db (some false) = record {
  response = refused 401 "unauthorized";
  notified = false;
  db = db;
}
after_auth e received_at db (some true) = answer_outcome (apply_ingest_v2 e received_at db)

abbrev rejection_ack : IngestEnvelopeV2 → ℕ → List IngestRejection → IngestAckV2
rejection_ack e received_at rejected = record {
  protocol_version = ingest_protocol_v2;
  device_id = e.device_id;
  batch_id = e.batch_id;
  ack_sequence = e.sequence;
  accepted = 0;
  duplicates = 0;
  rejected = rejected;
  server_time = received_at;
}

abbrev pub after_validation :
    Option Bool → IngestEnvelopeV2 → ℕ → Db → List IngestRejection → Handled
after_validation auth e received_at db [] = after_auth e received_at db auth
after_validation auth e received_at db (r ∷ rs) = record {
  response = acknowledged status_unprocessable (rejection_ack e received_at (r ∷ rs));
  notified = false;
  db = db;
}

unfoldable pub handle_ingest_v2 :
    (IngestEnvelopeV2 → Option Bool) → IngestEnvelopeV2 → ℕ → Db → Handled
handle_ingest_v2 authenticate e received_at db =
    after_validation (authenticate e) e received_at db (validate_ingest_envelope e)

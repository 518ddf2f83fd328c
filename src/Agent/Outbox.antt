-- ===== src/Agent/Outbox.antt =====
-- internal/agent/outbox.go: the durable queue of envelopes. The rows stand in the order of their
-- AUTOINCREMENT ids, so a SELECT … ORDER BY id LIMIT 1 reads the head. JSON encoding and decoding
-- are parameters.
pub mod Order
pub mod Sound
pub mod Fifo
pub use omni_token.Fallible.{Fallible, ok, err, ◌>>=◌, >>=-eq-ok, Fallible-cases}
use omni_token.Prelude.{
  ℕ, zero, suc, ◌+◌, ◌-◌, ◌*◌, ◌^◌, String, Bool, true, false, not, ◌&&◌, ◌||◌, Option, none, some,
  List, [], ◌∷◌, ◌++◌, ◌≡◌, ◌⊎◌, inl, inr, refl, ◌==◌, eqb, ltb, leb, is_some, if◌then◌else◌,
  find_where, length,
}
use omni_token.Model.Envelope.{
  IngestEnvelopeV2, IngestAckV2, IngestRejection, RejectionCode, validate_ingest_envelope,
}

abbrev pub Bytes : Type 0
Bytes = List ℕ

abbrev pub max_ingest_envelope_bytes : ℕ
max_ingest_envelope_bytes = 16 * 2 ^ 20

abbrev pub max_uint64 : ℕ
max_uint64 = 2 ^ 64 - 1

pub data OutboxError : Type 0 where
  empty full conflict too_large invalid_ack exhausted constraint undecodable : OutboxError
  invalid_envelope : RejectionCode → OutboxError

abbrev pub Result {ℓ} : Type ℓ → Type ℓ
Result A = Fallible OutboxError A

-- A row of `outbox_batches`, without its id.
pub record Batch : Type 0 where
  pub batch_id : String
  pub envelope : Bytes
  pub payload_bytes : ℕ
  pub enqueued_at : ℕ

pub record Outbox : Type 0 where
  pub batches : List Batch
  pub last_sequence : ℕ
  pub max_bytes : ℕ

pub record OutboxStats : Type 0 where
  pub queued_batches : ℕ
  pub queued_bytes : ℕ
  pub oldest_queued_at : ℕ
  pub max_bytes : ℕ

-- COALESCE(SUM(payload_bytes), 0)
unfoldable pub queued : List Batch → ℕ
queued [] = 0
queued (b ∷ bs) = b.payload_bytes + queued bs

abbrev pub has_batch_id : String → Batch → Bool
has_batch_id id b = b.batch_id == id

unfoldable pub min_enqueued : List Batch → ℕ
min_enqueued [] = 0
min_enqueued (b ∷ []) = b.enqueued_at
min_enqueued (b ∷ (c ∷ bs)) =
    let m = min_enqueued (c ∷ bs) in if ltb b.enqueued_at m then b.enqueued_at else m

unfoldable pub stats : Outbox → OutboxStats
unfolding queued min_enqueued
stats o = record {
  queued_batches = length o.batches;
  queued_bytes = queued o.batches;
  oldest_queued_at = min_enqueued o.batches;
  max_bytes = o.max_bytes;
}

-- The INSERT of a payload; the batch id is UNIQUE.
unfoldable pub insert_new_payload : String → Bytes → ℕ → List Batch → Result (List Batch)
insert_new_payload id payload now bs =
    if is_some (find_where (has_batch_id id) bs)
    then err constraint
    else ok (
        bs
        ++ record {
          batch_id = id;
          envelope = payload;
          payload_bytes = length payload;
          enqueued_at = now;
        }
          ∷ [])

-- `bytes.Equal`
unfoldable pub bytes_equal : Bytes → Bytes → Bool
bytes_equal [] [] = true
bytes_equal (x ∷ xs) (y ∷ ys) = eqb x y && bytes_equal xs ys
bytes_equal _ _ = false

abbrev pub Assigned : Type 0
Assigned = List (IngestEnvelopeV2 × Bytes)

-- The second loop: every payload is inserted.
unfoldable pub insert_all : ℕ → Assigned → List Batch → Result (List Batch)
unfolding insert_new_payload
insert_all now [] bs = ok bs
insert_all now ((e, payload) ∷ rest) bs =
    insert_new_payload e.batch_id payload now bs >>= λ bs'. insert_all now rest bs'

unfoldable pub added_bytes : Assigned → ℕ
added_bytes [] = 0
added_bytes ((e, payload) ∷ rest) = length payload + added_bytes rest

abbrev pub envelopes_of : Assigned → List IngestEnvelopeV2
envelopes_of [] = []
envelopes_of ((e, payload) ∷ rest) = e ∷ envelopes_of rest

-- The rest of the transaction: the capacity, the rows and the counter.
abbrev pub room_then_insert : ℕ → Outbox → Assigned → ℕ → Result (List IngestEnvelopeV2 × Outbox)
room_then_insert now o assigned last =
    if ltb o.max_bytes (added_bytes assigned + queued o.batches) then err full else (do
      bs ← insert_all now assigned o.batches
      ok (envelopes_of assigned, record o { batches = bs; last_sequence = last }))

module _ (marshal : IngestEnvelopeV2 → Bytes) where
  abbrev pub encoded : List IngestRejection → Bytes → Result Bytes
  encoded (r ∷ rs) payload = err (invalid_envelope r.code)
  encoded [] payload =
      if ltb max_ingest_envelope_bytes (length payload) then err too_large else ok payload

  unfoldable pub encode : IngestEnvelopeV2 → Result Bytes
  encode e = encoded (validate_ingest_envelope e) (marshal e)

  abbrev pub after_duplicate_check :
      ℕ → IngestEnvelopeV2 → Bytes → Outbox → Option Batch → Result Outbox
  after_duplicate_check now e payload o (some b) =
      if bytes_equal b.envelope payload then ok o else err conflict
  -- `len > max - queued` over signed integers
  after_duplicate_check now e payload o none =
      if ltb o.max_bytes (length payload + queued o.batches) then err full else (do
        bs ← insert_new_payload e.batch_id payload now o.batches
        ok (record o { batches = bs }))

  unfoldable pub enqueue : ℕ → IngestEnvelopeV2 → Outbox → Result Outbox
  unfolding queued insert_new_payload bytes_equal encode
  enqueue now e o = do
    payload ← encode e
    after_duplicate_check now e payload o (find_where (has_batch_id e.batch_id) o.batches)

  -- The first loop of `EnqueueManyNext`: sequences are assigned and payloads encoded.
  unfoldable pub assign : ℕ → List IngestEnvelopeV2 → Result (Assigned × ℕ)
  unfolding encode
  assign current [] = ok ([], current)
  assign current (e ∷ es) =
      let e' = record e { sequence = suc current } in
      let rest = assign (suc current) es in
      if eqb current max_uint64
      then err exhausted
      else (do payload ← encode e'; (later, last) ← rest; ok ((e', payload) ∷ later, last))

  unfoldable pub enqueue_many_next :
      ℕ → List IngestEnvelopeV2 → Outbox → Result (List IngestEnvelopeV2 × Outbox)
  unfolding queued assign insert_all added_bytes
  enqueue_many_next now [] o = ok ([], o)
  enqueue_many_next now (e ∷ es) o = do
    (assigned, last) ← assign o.last_sequence (e ∷ es)
    room_then_insert now o assigned last

  abbrev first_of_assigned : List IngestEnvelopeV2 × Outbox → Result (IngestEnvelopeV2 × Outbox)
  first_of_assigned ([], o) = err empty
  first_of_assigned (e ∷ es, o) = ok (e, o)

  unfoldable pub enqueue_next : ℕ → IngestEnvelopeV2 → Outbox → Result (IngestEnvelopeV2 × Outbox)
  unfolding enqueue_many_next
  enqueue_next now e o = enqueue_many_next now (e ∷ []) o >>= first_of_assigned

abbrev pub ack_matches : IngestAckV2 → IngestEnvelopeV2 → Bool
ack_matches ack e =
    eqb ack.protocol_version e.protocol_version
    && ack.device_id == e.device_id
    && ack.batch_id == e.batch_id
    && eqb ack.ack_sequence e.sequence

abbrev decoded_or_error : Option IngestEnvelopeV2 → Result IngestEnvelopeV2
decoded_or_error none = err undecodable
decoded_or_error (some e) = ok e

module _ (unmarshal : Bytes → Option IngestEnvelopeV2) where
  abbrev pub decode : Bytes → Result IngestEnvelopeV2
  decode payload = decoded_or_error (unmarshal payload)

  abbrev pub peek_head : List Batch → Result IngestEnvelopeV2
  peek_head [] = err empty
  peek_head (b ∷ bs) = decode b.envelope

  unfoldable pub peek_batch : Outbox → Result IngestEnvelopeV2
  peek_batch o = peek_head o.batches

  abbrev pub acknowledge_head : IngestAckV2 → Outbox → List Batch → Result Outbox
  acknowledge_head ack o [] = err empty
  acknowledge_head ack o (b ∷ bs) = do
    e ← decode b.envelope
    if not (ack_matches ack e) then err invalid_ack else ok (record o { batches = bs })

  unfoldable pub acknowledge : IngestAckV2 → Outbox → Result Outbox
  acknowledge ack o = acknowledge_head ack o o.batches

-- A call on the outbox. The process clock is an argument.
pub data Call : Type 0 where
  enqueue_call : ℕ → IngestEnvelopeV2 → Call
  send_call : ℕ → List IngestEnvelopeV2 → Call
  acknowledge_call : IngestAckV2 → Call

-- The database after a call: an error rolls the transaction back.
abbrev pub committed {ℓ} : {A : Type ℓ} → (A → Outbox) → Outbox → Result A → Outbox
committed f o (ok a) = f a
committed f o (err e) = o

module _ (marshal : IngestEnvelopeV2 → Bytes) (unmarshal : Bytes → Option IngestEnvelopeV2) where
  unfoldable pub run : Call → Outbox → Outbox
  unfolding enqueue enqueue_many_next acknowledge
  run (enqueue_call now e) o = committed (λ o'. o') o (enqueue marshal now e o)
  run (send_call now es) o = committed (λ r. r.1) o (enqueue_many_next marshal now es o)
  run (acknowledge_call ack) o = committed (λ o'. o') o (acknowledge unmarshal ack o)

  unfoldable pub run_all : List Call → Outbox → Outbox
  unfolding run
  run_all [] o = o
  run_all (c ∷ cs) o = run_all cs (run c o)

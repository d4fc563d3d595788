-- ===== src/BaseConsumer.antt =====
-- src/consumers/base-consumer.ts: the handling of one Kafka message by any consumer. `process_event`,
-- which the concrete consumers implement, is a parameter. Logging is left out, and the fields of the
-- handler's `payload` that it does not read.
pub mod Duplicates
pub mod DeadLetters
pub mod GivenUp
pub mod Unpublished
pub mod Retries
pub mod RoundTrip
pub mod Lifecycle
pub mod Handled
use event_driven_kafka.Base.{
  ℕ, zero, suc, ◌+◌, ◌-◌, ◌*◌, ◌^◌, min, String, ◌<>◌, not, ◌&&◌, List, [], ◌∷◌, Option, none, some,
  if◌then◌else◌,
}
use event_driven_kafka.Json.{
  Json, undefined, num, str, obj, Fields, get, set, omit, truthy, ◌or◌, wire,
}
use event_driven_kafka.Contracts.{EventEnvelope, envelope_fields, text_or}
use event_driven_kafka.Contracts.Topics
use event_driven_kafka.Contracts.Schema.{validate_event_envelope}
use event_driven_kafka.Database.Outbox.{insert_dlq_outbox_event, mark_dlq_outbox_published}
use event_driven_kafka.Database.Processed.{
  processed, failed, is_event_processed, mark_event_processed,
}
use event_driven_kafka.Database.Dlq.{DlqMessage, record_dlq_message}
use event_driven_kafka.World.{
  World, Env, Error, Value, json, text, Message, Consumer, healthy, degraded,
}
use event_driven_kafka.Exec.{
  Result, ok, err, Exec, pure, throw, gets, ◌>>=◌, ◌>>◌, query, statement, with_transaction, send,
  random_below, short_id, now_iso, sleep, try_catch,
}
use event_driven_kafka.Emit.{object}

-- What eachMessage is given.
pub record Delivery : Type 0 where
  pub topic : String
  pub partition : ℕ
  pub offset : String
  pub value : Value

-- A change of the consumer's fields; `now` is the current time as text.
unfoldable pub update : (String → Consumer → Consumer) → Exec (Unit {0})
update f w = (ok tt, record w { consumer = f (w.env.iso w.clock) w.consumer })

-- `if (!parsed.k && v) parsed.k = v`, and `if (!parsed.k) parsed.k = v`
abbrev pub fill_from : String → Json → Fields → Fields
fill_from k v parsed = if not (truthy (get k parsed)) && truthy v then set k v parsed else parsed

abbrev pub fill : String → Json → Fields → Fields
fill k v parsed = if truthy (get k parsed) then parsed else set k v parsed

abbrev pub named : Fields → Fields
named parsed =
    let a = fill_from "event_id" (get "id" parsed) parsed in
    let b = fill_from "event_type" (get "type" a) a in
    let c = fill_from "aggregate_id" (get "order_id" b) b in
    let d = fill "aggregate_type" (str "Order") c in
    fill_from "correlation_id" (get "aggregate_id" d) d

abbrev pub standard_names : List String
standard_names =
    "event_id" ∷ "event_type" ∷ "aggregate_id" ∷ "aggregate_type" ∷ "correlation_id"
    ∷ "causation_id" ∷ "occurred_at" ∷ "producer" ∷ []

abbrev pub stamped : String → Fields → Fields
stamped now parsed =
    let a = fill "occurred_at" (str now) parsed in
    let b = fill "producer" (str "legacy-producer") a in
    fill "payload" (obj (omit standard_names b)) b

-- A UUID is drawn only where there is neither a causation id nor an event id.
unfoldable pub caused : Fields → Exec Fields
caused parsed =
    if truthy (get "causation_id" parsed)
    then pure parsed
    else if truthy (get "event_id" parsed)
    then pure (set "causation_id" (get "event_id" parsed) parsed)
    else do id ← short_id "cmd_"; pure (set "causation_id" (str id) parsed)

abbrev pub accept : Json → Option EventEnvelope → Exec EventEnvelope
accept raw none = gets (λ w. w.env.schema_error raw) >>= λ e. throw e
accept raw (some envelope) = pure envelope

-- 1. Parsing, the support of legacy envelopes, and the schema. A write to a value that is no object
-- throws, or the schema rejects it.
unfoldable pub read_envelope : Value → Exec EventEnvelope
read_envelope (text s) = gets (λ w. w.env.parse_error s) >>= λ e. throw e
read_envelope (json (obj parsed)) = do
  linked ← caused (named parsed)
  now ← now_iso
  let raw = stamped now linked
  is_datetime ← gets (λ w. w.env.is_datetime)
  accept (obj raw) (validate_event_envelope is_datetime raw)
read_envelope (json v) = gets (λ w. w.env.schema_error v) >>= λ e. throw e

abbrev pub raw_text : Env → Value → String
raw_text env (text s) = s
raw_text env (json v) = env.stringify v

abbrev optional_text : Option String → Json
optional_text none = undefined
optional_text (some s) = str s

abbrev pub dead_letter :
    String → String → String → Error → Delivery → Option String → Fields → DlqMessage
dead_letter id event_id name error d correlation_id payload = record {
  id = id;
  event_id = event_id;
  topic = d.topic;
  partition = d.partition;
  offset = d.offset;
  consumer_name = name;
  error_message = error.message;
  stack_trace = error.stack;
  payload = payload;
  correlation_id = correlation_id;
}

abbrev pub insert_dead_letter : DlqMessage → Exec (Unit {0})
insert_dead_letter m =
    statement λ now db. (tt, record db { dlq_messages = record_dlq_message m now db.dlq_messages })

abbrev pub insert_dead_letter_outbox : DlqMessage → Exec (Unit {0})
insert_dead_letter_outbox m = statement λ now db. (
  tt,
  record db {
    dlq_outbox =
        insert_dlq_outbox_event ("outbox_" <> m.id)
          (record { dlq_id = m.id; topic = Topics.dlq; payload = m.payload }) now db.dlq_outbox;
  },
)

abbrev pub mark_event : EventEnvelope → String → Option Error → Exec (Unit {0})
mark_event e name none = statement λ now db. (
  tt,
  record db {
    processed_events = mark_event_processed e.event_id name processed none now db.processed_events;
  },
)
mark_event e name (some x) = statement λ now db. (
  tt,
  record db {
    processed_events =
        mark_event_processed e.event_id name failed (some x.message) now db.processed_events;
  },
)

abbrev pub mark_dead_letter_published : DlqMessage → String → Exec (Unit {0})
mark_dead_letter_published m name = statement λ now db.
    let (held, rows) =
      mark_dlq_outbox_published ("outbox_" <> m.id) (some name) now db.dlq_outbox in
    (tt, record db { dlq_outbox = rows })

-- After the transaction: the message to the DLQ topic, and the outbox row's mark.
abbrev pub announce : DlqMessage → String → Message → Exec (Unit {0})
announce m name message = do send message; mark_dead_letter_published m name

abbrev ignore : Error → Exec (Unit {0})
ignore e = pure tt

abbrev pub non_retryable_payload : String → String → String → String → Error → Delivery → Fields
non_retryable_payload id raw name now error d = object (
    ("dlq_id", str id)
    ∷ ("original_topic", str d.topic)
    ∷ ("original_partition", num d.partition)
    ∷ ("original_offset", str d.offset)
    ∷ ("consumer_name", str name)
    ∷ ("error_message", str error.message)
    ∷ ("stack_trace", optional_text error.stack)
    ∷ ("raw_message", str raw)
    ∷ ("failed_at", str now)
    ∷ ("reason", str "MALFORMED_OR_NON_RETRYABLE")
    ∷ [])

unfoldable pub store_non_retryable : DlqMessage → Exec (Unit {0})
store_non_retryable m = with_transaction do insert_dead_letter m; insert_dead_letter_outbox m

unfoldable pub handle_non_retryable_dlq : Delivery → Error → Exec (Unit {0})
handle_non_retryable_dlq d error = do
  id ← short_id "dlq_"
  now ← now_iso
  name ← gets (λ w. w.consumer.consumer_name)
  raw ← gets (λ w. raw_text w.env d.value)
  let payload = non_retryable_payload id raw name now error d
  let m = dead_letter id "malformed_event" name error d none payload
  let message : Message = record {
    topic = Topics.dlq;
    key = id;
    value = json (wire (obj payload));
    headers = [];
  }
  try_catch (store_non_retryable m >> announce m name message) ignore

abbrev pub exhausted_payload :
    String → EventEnvelope → ℕ → String → String → Error → Delivery → Fields
exhausted_payload id e attempts name now error d = object (
    ("dlq_id", str id)
    ∷ ("original_event", obj (envelope_fields e))
    ∷ ("original_topic", str d.topic)
    ∷ ("original_partition", num d.partition)
    ∷ ("original_offset", str d.offset)
    ∷ ("consumer_name", str name)
    ∷ ("error_message", str error.message)
    ∷ ("stack_trace", optional_text error.stack)
    ∷ ("attempts", num attempts)
    ∷ ("failed_at", str now)
    ∷ ("correlation_id", str e.correlation_id)
    ∷ [])

unfoldable pub store_exhausted : EventEnvelope → String → Error → DlqMessage → Exec (Unit {0})
store_exhausted e name error m =
    with_transaction
      do insert_dead_letter m; mark_event e name (some error); insert_dead_letter_outbox m

unfoldable pub handle_exhausted_retries_dlq : Delivery → EventEnvelope → Error → ℕ → Exec (Unit {0})
handle_exhausted_retries_dlq d e error attempts = do
  id ← short_id "dlq_"
  now ← now_iso
  name ← gets (λ w. w.consumer.consumer_name)
  let payload = exhausted_payload id e attempts name now error d
  let m = dead_letter id e.event_id name error d (some e.correlation_id) payload
  let message : Message = record {
    topic = Topics.dlq;
    key = text_or (some e.aggregate_id) id;
    value = json (wire (obj payload));
    headers =
        ("dlq-id", id)
        ∷ ("original-topic", d.topic)
        ∷ ("correlation-id", e.correlation_id)
        ∷ ("source-service", name)
        ∷ [];
  }
  try_catch (store_exhausted e name error m >> announce m name message) ignore

-- How the retry loop ends: at a `return`, or past its last attempt.
pub data Verdict : Type 0 where
  returned : Verdict
  exhausted : ℕ → Option Error → Verdict

-- Math.min(10000, baseBackoffMs * Math.pow(2, attempt - 1)) + Math.floor(Math.random() * jitterMs)
unfoldable pub backoff : ℕ → Exec (Unit {0})
backoff attempt = do
  c ← gets (λ w. w.consumer)
  jitter ← random_below c.jitter_ms
  sleep (min 10000 (c.base_backoff_ms * 2 ^ (attempt - 1)) + jitter)

-- `if (attempt < this.maxRetries)`: `left` attempts remain.
abbrev pub backoff_if_left : ℕ → ℕ → Exec (Unit {0})
backoff_if_left attempt zero = pure tt
backoff_if_left attempt (suc left) = backoff attempt

abbrev pub succeed : String → Consumer → Consumer
succeed now c = record c {
  processed_count = c.processed_count + 1;
  status = healthy;
  last_processed_timestamp = some now;
}

abbrev pub give_up : String → Consumer → Consumer
give_up now c = record c { failure_count = c.failure_count + 1; status = degraded }

abbrev pub or_unknown : Option Error → Error
or_unknown none = record { message = "Unknown processing error"; stack = none }
or_unknown (some e) = e

module _ (process_event : EventEnvelope → Exec (Unit {0})) where
  -- One run of the `try` block.
  unfoldable pub attempt_once : EventEnvelope → Exec (Unit {0})
  attempt_once e = do
    process_event e
    name ← gets (λ w. w.consumer.consumer_name)
    mark_event e name none
    update succeed

  -- One turn of the loop: `none` where it returns, or the error that it caught.
  unfoldable pub turn : EventEnvelope → ℕ → ℕ → Exec (Option Error)
  turn e attempt left =
      try_catch (attempt_once e >>= λ u. pure none)
        (λ x. backoff_if_left attempt left >>= λ u. pure (some x))

  -- The loop; `left` is maxRetries less the attempts made.
  unfoldable pub retry : EventEnvelope → ℕ → ℕ → Option Error → Exec Verdict
  retry e attempt zero last = pure (exhausted attempt last)
  retry e attempt (suc left) last = turn e (attempt + 1) left >>= λ o. elim o [
    | none ↦ pure returned
    | some x ↦ retry e (attempt + 1) left (some x)
  ]

  abbrev pub conclude : Delivery → EventEnvelope → Verdict → Exec (Unit {0})
  conclude d e returned = pure tt
  conclude d e (exhausted attempts last) = do
    update give_up
    handle_exhausted_retries_dlq d e (or_unknown last) attempts

  -- 2. The idempotency check. 3. The retry loop. 4. The DLQ.
  unfoldable pub handle_envelope : Delivery → EventEnvelope → Exec (Unit {0})
  handle_envelope d e = do
    name ← gets (λ w. w.consumer.consumer_name)
    duplicate ← query (λ db. is_event_processed e.event_id name db.processed_events)
    if duplicate then pure tt else do
      max_retries ← gets (λ w. w.consumer.max_retries)
      verdict ← retry e 0 max_retries none
      conclude d e verdict

  abbrev pub after_reading : Delivery → Result EventEnvelope → Exec (Unit {0})
  after_reading d (ok e) = handle_envelope d e
  after_reading d (err x) = handle_non_retryable_dlq d x

  unfoldable pub handle_message : Delivery → Exec (Unit {0})
  handle_message d w =
      let w₁ : World = record w {
        consumer = record w.consumer { last_event_timestamp = some (w.env.iso w.clock) };
      } in
      let (r, w₂) = read_envelope d.value w₁ in after_reading d r w₂

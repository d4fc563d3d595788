-- ===== src/Relay.antt =====
-- src/infrastructure/outbox/outbox-relay.ts: one sweep of the outbox. Logging and the poll timer are
-- left out.
pub mod Safety
pub mod Delivery
pub mod Lifecycle
use event_driven_kafka.Base.{ℕ, ◌+◌, String, ◌<>◌, Bool, List, [], ◌∷◌, none, some, if◌then◌else◌}
use event_driven_kafka.Json.{obj, wire}
use event_driven_kafka.Contracts.{EventEnvelope, event_type_name, envelope_fields}
use event_driven_kafka.Database.Outbox.{
  OutboxRow, get_pending_outbox_events, mark_outbox_event_published, mark_outbox_event_failed,
}
use event_driven_kafka.World.{World, Env, Error, Message, json}
use event_driven_kafka.Exec.{Exec, pure, gets, ◌>>=◌, ◌>>◌, statement, send, try_catch}

-- The fields of OutboxRelay that a sweep reads.
pub record Relay : Type 0 where
  pub worker_id : String
  pub batch_size : ℕ
  pub lease_duration_seconds : ℕ
  pub is_processing : Bool

abbrev pub relay_envelope : Relay → Env → OutboxRow → EventEnvelope
relay_envelope relay env row = record {
  event_id = row.id;
  event_type = row.content.event_type;
  event_version = row.content.event_version;
  sequence_number = none;
  aggregate_id = row.content.aggregate_id;
  aggregate_type = row.content.aggregate_type;
  occurred_at = env.iso row.created_at;
  producer = "outbox-relay-" <> relay.worker_id;
  correlation_id = row.content.correlation_id;
  causation_id = row.content.causation_id;
  schema_version = 1;
  payload = row.content.payload;
}

unfoldable pub relay_message : Relay → World → OutboxRow → Message
relay_message relay w row = record {
  topic = row.content.topic;
  key = row.content.aggregate_id;
  value = json (wire (obj (envelope_fields (relay_envelope relay w.env row))));
  headers =
      ("correlation-id", row.content.correlation_id)
      ∷ ("causation-id", row.content.causation_id)
      ∷ ("event-id", row.id)
      ∷ ("event-type", event_type_name row.content.event_type)
      ∷ ("source-service", "outbox-relay")
      ∷ ("worker-id", relay.worker_id)
      ∷ ("timestamp", w.env.iso w.clock)
      ∷ [];
}

abbrev pub claim_batch : Relay → Exec (List OutboxRow)
claim_batch relay = statement λ now db.
    let (claimed, rows) =
      get_pending_outbox_events relay.batch_size relay.worker_id relay.lease_duration_seconds now
        db.outbox_events in
    (claimed, record db { outbox_events = rows })

-- Both marks return whether the row was still this worker's; that is only logged.
abbrev pub record_published : Relay → OutboxRow → Exec (Unit {0})
record_published relay row = statement λ now db.
    let (held, rows) =
      mark_outbox_event_published row.id (some relay.worker_id) now db.outbox_events in
    (tt, record db { outbox_events = rows })

abbrev pub record_failed : Relay → OutboxRow → Error → Exec (Unit {0})
record_failed relay row e = statement λ now db.
    let (held, rows) =
      mark_outbox_event_failed row.id e.message (some relay.worker_id) db.outbox_events in
    (tt, record db { outbox_events = rows })

unfoldable pub publish_event : Relay → OutboxRow → Exec (Unit {0})
publish_event relay row =
    try_catch (gets (λ w. relay_message relay w row) >>= λ m. send m >> record_published relay row)
      (record_failed relay row)

-- The loop over the claimed rows; its result is how many it has published.
unfoldable pub publish_all : Relay → List OutboxRow → ℕ → Exec ℕ
publish_all relay [] count = pure count
publish_all relay (row ∷ rows) count = publish_event relay row >> publish_all relay rows (count + 1)

-- The flag `is_processing` keeps a sweep that starts during another from doing anything; it is reset
-- on every way out.
unfoldable pub process_batch : Relay → Exec ℕ
process_batch relay =
    if relay.is_processing then pure 0 else (claim_batch relay >>= λ rows. publish_all relay rows 0)

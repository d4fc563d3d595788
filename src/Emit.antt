-- ===== src/Emit.antt =====
-- src/consumers/base-consumer.ts, `emit`: an event in its envelope, sent to Kafka. Logging is left out.
use event_driven_kafka.Base.{String, ◌<>◌, List, [], ◌∷◌, Option, none, some, ◌==◌, if◌then◌else◌}
use event_driven_kafka.Json.{Json, obj, Fields, end, field, wire}
use event_driven_kafka.Contracts.{
  EventType, event_type_name, EventEnvelope, create_event_envelope, envelope_fields,
}
use event_driven_kafka.World.{Message, json}
use event_driven_kafka.Exec.{Exec, pure, gets, ◌>>=◌, ◌>>◌, send, fresh_uuid, now_iso}

pub record EmitParams : Type 0 where
  pub topic : String
  pub event_type : EventType
  pub aggregate_id : String
  pub aggregate_type : String
  pub payload : Fields
  pub correlation_id : String
  pub causation_id : String
  pub event_id : Option String

-- An object literal.
abbrev pub object : List (String × Json) → Fields
object [] = end
object ((k, v) ∷ rest) = field k v (object rest)

unfoldable pub drawn_event_id : Exec String
drawn_event_id = do uuid ← fresh_uuid; pure ("evt_" <> uuid)

-- A UUID is drawn only where no event id is given.
unfoldable pub draw_event_id : Option String → Exec String
draw_event_id none = drawn_event_id
draw_event_id (some s) = if s == "" then drawn_event_id else pure s

abbrev pub envelope_of : EmitParams → String → String → String → EventEnvelope
envelope_of p name id now = create_event_envelope id now (record {
  event_id = p.event_id;
  event_type = p.event_type;
  event_version = none;
  sequence_number = none;
  aggregate_id = p.aggregate_id;
  aggregate_type = p.aggregate_type;
  occurred_at = none;
  producer = name;
  correlation_id = p.correlation_id;
  causation_id = p.causation_id;
  schema_version = none;
  payload = p.payload;
})

unfoldable pub message_of : EmitParams → String → EventEnvelope → Message
message_of p name envelope = record {
  topic = p.topic;
  key = p.aggregate_id;
  value = json (wire (obj (envelope_fields envelope)));
  headers =
      ("correlation-id", p.correlation_id)
      ∷ ("causation-id", p.causation_id)
      ∷ ("event-id", envelope.event_id)
      ∷ ("event-type", event_type_name p.event_type)
      ∷ ("source-service", name)
      ∷ ("timestamp", envelope.occurred_at)
      ∷ [];
}

unfoldable pub emit : EmitParams → Exec EventEnvelope
emit p = do
  id ← draw_event_id p.event_id
  now ← now_iso
  name ← gets (λ w. w.consumer.consumer_name)
  let envelope = envelope_of p name id now
  send (message_of p name envelope)
  pure envelope

-- ===== src/Tests/Fixtures.antt =====
-- Events, sagas and rows that the concrete runs share.
use event_driven_kafka.Base.{ℕ, String, false, List, [], none, some, ◌≡◌, ◌≢◌, ◌==◌, eq_iff, arith}
use event_driven_kafka.Json.{num, str, end, field}
use event_driven_kafka.Contracts.{EventType, EventEnvelope, order_created}
use event_driven_kafka.Database.{empty_db}
use event_driven_kafka.Database.Leases.{Leased, processing}
use event_driven_kafka.Database.Outbox.{OutboxEvent}
use event_driven_kafka.Database.Sagas.{SagaState, SagaRow, empty_context}
use event_driven_kafka.World.{World, Error, plain_world, text}
use event_driven_kafka.BaseConsumer.{Delivery}
use event_driven_kafka.Relay.{Relay}

abbrev pub event_of : EventType → EventEnvelope
event_of t = record {
  event_id = "evt_1";
  event_type = t;
  event_version = 1;
  sequence_number = none;
  aggregate_id = "ord_1";
  aggregate_type = "Order";
  occurred_at = "2026-01-01T00:00:00.000Z";
  producer = "order-service";
  correlation_id = "corr_1";
  causation_id = "cmd_1";
  schema_version = 1;
  payload = field "user_id" (str "u1") (field "total_amount" (num 40) end);
}

abbrev pub saga_in : SagaState → SagaRow
saga_in state = record {
  saga_id = "saga_ord_1";
  aggregate_id = "ord_1";
  saga_type = "ORDER_FULFILLMENT";
  state = state;
  current_step = "PAYMENT";
  correlation_id = "corr_1";
  context = empty_context;
  failure_reason = none;
  created_at = 500;
  updated_at = 500;
}

abbrev pub world_with : List SagaRow → World
world_with rows = record (plain_world "saga-orchestrator" []) {
  db = record empty_db { saga_instances = rows };
}

abbrev pub no_broker : Error
no_broker = record { message = "no broker"; stack = none }

abbrev pub outbox_event : OutboxEvent
outbox_event = record {
  aggregate_id = "ord_1";
  aggregate_type = "Order";
  event_type = order_created;
  event_version = 1;
  payload = end;
  correlation_id = "corr_1";
  causation_id = "cmd_1";
  topic = "orders.events";
}

-- A row that worker w1 holds until 40000, in its given attempt.
abbrev pub held_row : ℕ → Leased OutboxEvent
held_row attempts = record {
  id = "out_1";
  content = outbox_event;
  status = processing;
  attempts = attempts;
  last_error = none;
  lease_owner = some "w1";
  leased_at = some 10000;
  lease_expires_at = some 40000;
  created_at = 500;
  published_at = none;
}

abbrev pub delivery : Delivery
delivery = record {
  topic = "payments.events";
  partition = 0;
  offset = "7";
  value = text "not json";
}

abbrev pub relay : Relay
relay = record {
  worker_id = "w1";
  batch_size = 50;
  lease_duration_seconds = 30;
  is_processing = false;
}

pub apart : (s t : String) → (s == t) ≡ false → s ≢ t
apart s t h p = ground (arith, eq_iff s t, h, p)

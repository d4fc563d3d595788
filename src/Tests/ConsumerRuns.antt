-- ===== src/Tests/ConsumerRuns.antt =====
-- The handling of a message by consumers, and the relay, on concrete worlds.
use event_driven_kafka.Base.{sym, subst, [], ◌∷◌, none, ◌≡◌, refl, ◌⊎◌}
use event_driven_kafka.Json.{end}
use event_driven_kafka.Contracts.{EventEnvelope, event_type_name, event_type_of, payment_requested}
use event_driven_kafka.Database.{empty_db}
use event_driven_kafka.Database.Leases.{new_row}
use event_driven_kafka.Database.Processed.{processed}
use event_driven_kafka.World.{World, done, refused, unacknowledged, plain_world, plain_env}
use event_driven_kafka.Exec.{Exec, ok, err}
use event_driven_kafka.BaseConsumer.{
  Delivery, read_envelope, handle_message, handle_exhausted_retries_dlq, handle_non_retryable_dlq,
}
use event_driven_kafka.BaseConsumer.Duplicates.{delivered_twice}
use event_driven_kafka.BaseConsumer.Handled.{seen, settled}
use event_driven_kafka.BaseConsumer.RoundTrip.{IsValid, carried, read_emitted}
use event_driven_kafka.Emit.{message_of}
use event_driven_kafka.Contracts.Schema.{is_timestamp}
use event_driven_kafka.Json.{wire}
use event_driven_kafka.BaseConsumer.DeadLetters.{Routed, dead_letter_atomic}
use event_driven_kafka.BaseConsumer.GivenUp.{IsGivenUp, handle_exhausted_retries_dlq-IsGivenUp}
use event_driven_kafka.BaseConsumer.Unpublished.{AllPending, dlq_outbox_stays_pending}
use event_driven_kafka.Relay.{process_batch}
use event_driven_kafka.Relay.Safety.{AllSent, published_after_send}
use event_driven_kafka.Relay.Delivery.{Delivered, sweep_delivers}
use event_driven_kafka.Tests.Fixtures.{
  apart, event_of, no_broker, delivery, relay, held_row, outbox_event,
}

abbrev request : EventEnvelope
request = event_of payment_requested

-- A consumer's method that always throws.
abbrev broken : EventEnvelope → Exec (Unit {0})
broken e w = (err no_broker, w)

abbrev worker_world : World
worker_world = plain_world "payment-service" []

abbrev seen_world : World
seen_world = record worker_world {
  db = record empty_db {
    processed_events =
        record {
          event_id = "evt_1";
          consumer_name = "fraud-service";
          status = processed;
          error = none;
          processed_at = 900;
        }
        ∷ [];
  };
}

-- A consumer's method that succeeds and changes nothing.
abbrev idle_method : EventEnvelope → Exec (Unit {0})
idle_method e w = (ok tt, w)

abbrev twice : Delivery
twice = record delivery {
  value =
      (message_of
        (record {
          topic = "payments.events";
          event_type = payment_requested;
          aggregate_id = "ord_1";
          aggregate_type = "Order";
          payload = end;
          correlation_id = "corr_1";
          causation_id = "cmd_1";
          event_id = none;
        })
        "order-service" request).value;
}

request-IsValid : IsValid plain_env.is_datetime request
unfolding event_type_name event_type_of is_timestamp
request-IsValid = record {
  event_id = refl;
  event_type = refl;
  known = refl;
  version = (0, refl);
  numbered = refl;
  aggregate_id = refl;
  aggregate_type = refl;
  occurred_at = refl;
  dated = refl;
  producer = refl;
  correlation_id = refl;
  causation_id = refl;
  schema_version = (0, refl);
}

read_twice :
    (w : World) → w.env ≡ plain_env → read_envelope twice.value w ≡ (ok (carried request), w)
read_twice w p =
    read_emitted _ "order-service" request w
      (subst (λ env. IsValid env.is_datetime request) (sym p) request-IsValid)

-- The event is marked for another consumer only.
delivered_twice_example :
    let u : World = record seen_world { consumer = (seen seen_world).consumer } in
    (handle_message idle_method twice seen_world ≡ (ok tt, settled (carried request) u))
    × (handle_message idle_method twice (settled (carried request) u)
        ≡ (ok tt, seen (settled (carried request) u)))
unfolding wire
delivered_twice_example =
    delivered_twice idle_method twice (carried request) seen_world
      (record seen_world { consumer = (seen seen_world).consumer }) 2 refl (read_twice _ refl)
      (read_twice _ refl) refl ((λ p. apart "fraud-service" "payment-service" refl p.1), tt)

-- The transaction succeeds and the message to the DLQ is refused.
abbrev silent_world : World
silent_world = record worker_world {
  outcomes = done ∷ done ∷ done ∷ done ∷ done ∷ done ∷ refused no_broker ∷ [];
}

dead_letter_atomic_example :
    let r = handle_exhausted_retries_dlq delivery request no_broker 3 silent_world in
    ((r.1.db ≡ empty_db) × (r.1.kafka ≡ []))
    ⊎ Routed request "payment-service" no_broker empty_db r.1.db
dead_letter_atomic_example = dead_letter_atomic delivery request no_broker 3 silent_world

abbrev queued_world : World
queued_world = record worker_world {
  db = record empty_db {
    dlq_outbox =
        new_row "outbox_dlq_0" (record { dlq_id = "dlq_0"; topic = "platform.dlq"; payload = end })
          500
        ∷ [];
  };
}

dlq_outbox_stays_pending_example :
    AllPending
      (handle_exhausted_retries_dlq delivery request no_broker 3 queued_world).1.db.dlq_outbox
    × AllPending (handle_non_retryable_dlq delivery no_broker queued_world).1.db.dlq_outbox
dlq_outbox_stays_pending_example =
    dlq_outbox_stays_pending delivery request no_broker 3 queued_world (refl, tt)

abbrev pending_world : World
pending_world = record worker_world {
  db = record empty_db { outbox_events = new_row "out_1" outbox_event 500 ∷ held_row 2 ∷ [] };
  outcomes = done ∷ unacknowledged no_broker ∷ [];
}

published_after_send_example :
    let r = process_batch relay pending_world in AllSent r.1.db.outbox_events r.1.kafka
published_after_send_example = published_after_send relay pending_world (λ e. cc, (λ e. cc, tt))

abbrev calm_world : World
calm_world = record pending_world { outcomes = [] }

sweep_delivers_example : Delivered relay calm_world (process_batch relay calm_world)
sweep_delivers_example = sweep_delivers relay calm_world refl refl

handle_exhausted_retries_dlq-IsGivenUp_example :
    IsGivenUp request no_broker worker_world
      (handle_exhausted_retries_dlq delivery request no_broker 3 worker_world)
handle_exhausted_retries_dlq-IsGivenUp_example =
    handle_exhausted_retries_dlq-IsGivenUp delivery request no_broker 3 worker_world refl

-- ===== src/Tests/MessageRuns.antt =====
-- Orders, round trips, live projection and replay on concrete inputs.
use event_driven_kafka.Base.{◌⊎◌, [], ◌∷◌, none, ◌≡◌, refl}
use event_driven_kafka.Json.{Json, Items, str, num, arr, obj, cons, nil, end, field}
use event_driven_kafka.Contracts.{
  EventEnvelope, fraud_check_requested, fraud_rejected, fraud_approved, order_created,
  event_type_name, event_type_of,
}
use event_driven_kafka.Contracts.Schema.{is_timestamp}
use event_driven_kafka.Database.{empty_db}
use event_driven_kafka.World.{World, plain_world, refused, done}
use event_driven_kafka.Exec.{ok}
use event_driven_kafka.Exec.Worlds.{calm}
use event_driven_kafka.Emit.{EmitParams, message_of}
use event_driven_kafka.BaseConsumer.{read_envelope}
use event_driven_kafka.BaseConsumer.RoundTrip.{
  IsSendable, Tells, IsValid, carried, read_emitted, read_relayed,
}
use event_driven_kafka.Relay.{relay_message}
use event_driven_kafka.OrderService.{OrderOptions, NewOrder, create_order}
use event_driven_kafka.Http.{Response, Answer, valid, check_items, check_order, post_orders}
use event_driven_kafka.Http.Validity.{IsOrder, IsTaken, IsRefused, post_orders_decides}
use event_driven_kafka.OrderService.Atomic.{IsAccepted, create_order_atomic}
use event_driven_kafka.Screening.{fraud_process}
use event_driven_kafka.Screening.Replies.{IsRisky, IsHarmless, fraud_process-IsAnswered}
use event_driven_kafka.Workers.Replies.{IsAnswered}
use event_driven_kafka.Tests.Fixtures.{event_of, no_broker, held_row, relay}

abbrev items : Items
items =
    cons
      (obj (
        field "sku" (str "SKU_1")
          (field "name" (str "Lamp") (field "price" (num 20) (field "quantity" (num 2) end)))))
      nil

abbrev options : OrderOptions
options = record { correlation_id = none; causation_id = none; currency = str "EUR" }

-- The outbox INSERT is refused.
abbrev refusing : World
refusing = plain_world "order-service" (done ∷ done ∷ done ∷ refused no_broker ∷ [])

create_order_atomic_example :
    IsAccepted
      (str "u1")
      items
      options
      (calm refusing)
      (create_order (str "u1") items options refusing).0
      (calm (create_order (str "u1") items options refusing).1)
create_order_atomic_example = create_order_atomic (str "u1") items options refusing

abbrev request : Json
request = obj (field "user_id" (str "u1") (field "items" (arr items) end))

post_orders_decides_example :
    (res : Response (Answer NewOrder)) × ((post_orders request refusing).0 ≡ ok res)
    × (IsOrder request
        → IsTaken request (calm refusing) res (calm (post_orders request refusing).1))
    × (¬ (IsOrder request) → IsRefused (calm refusing) res (calm (post_orders request refusing).1))
post_orders_decides_example = post_orders_decides request refusing

-- The request is an order.
request-IsOrder : IsOrder request
request-IsOrder = (refl, _, _, refl, ((refl, refl, (20, refl), (2, refl)), tt))

-- The request is one that createOrder is called for.
request_valid : check_order request ≡ valid
unfolding check_order check_items
request_valid = refl

abbrev plain : World
plain = plain_world "worker" []

fraud_process-IsAnswered_example :
    let e : EventEnvelope = event_of fraud_check_requested in
    (IsRisky plain e × IsAnswered e fraud_rejected empty_db [] (fraud_process e plain))
    ⊎ (IsHarmless plain e × IsAnswered e fraud_approved empty_db [] (fraud_process e plain))
fraud_process-IsAnswered_example =
    fraud_process-IsAnswered (event_of fraud_check_requested) plain refl refl

abbrev params : EmitParams
params = record {
  topic = "orders.events";
  event_type = order_created;
  aggregate_id = "ord_1";
  aggregate_type = "Order";
  payload = end;
  correlation_id = "corr_1";
  causation_id = "cmd_1";
  event_id = none;
}

created-IsValid : IsValid plain.env.is_datetime (event_of order_created)
unfolding event_type_name event_type_of is_timestamp
created-IsValid = record {
  event_id = refl;
  event_type = refl;
  known = refl;
  version = (0, refl);
  numbered = refl;
  aggregate_id = refl;
  aggregate_type = refl;
  occurred_at = refl;
  dated = refl;
  producer = refl;
  correlation_id = refl;
  causation_id = refl;
  schema_version = (0, refl);
}

read_emitted_example :
    read_envelope (message_of params "order-service" (event_of order_created)).value plain
    ≡ (ok (carried (event_of order_created)), plain)
read_emitted_example =
    read_emitted params "order-service" (event_of order_created) plain created-IsValid

held-IsSendable : IsSendable plain.env (held_row 1)
unfolding event_type_name event_type_of is_timestamp
held-IsSendable = record {
  id = refl;
  event_type = refl;
  known = refl;
  version = (0, refl);
  aggregate_id = refl;
  aggregate_type = refl;
  created = refl;
  dated = refl;
  correlation_id = refl;
  causation_id = refl;
}

read_relayed_example :
    (e : EventEnvelope) × (read_envelope (relay_message relay plain (held_row 1)).value plain
      ≡ (ok e, plain))
    × Tells (held_row 1) plain.env e
read_relayed_example = read_relayed relay (held_row 1) plain plain refl held-IsSendable

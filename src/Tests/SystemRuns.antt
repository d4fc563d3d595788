-- ===== src/Tests/SystemRuns.antt =====
-- Runs of the whole process.
use event_driven_kafka.Base.{◌++◌, ◌≡◌, refl, true, none, some, List, [], ◌∷◌}
use event_driven_kafka.Json.{Json, Items, num, str, arr, obj, cons, nil, end, field}
use event_driven_kafka.Database.{empty_db}
use event_driven_kafka.World.{Message, Outcome, done, refused, unacknowledged, plain_world}
use event_driven_kafka.System.{
  System, name_of, Action, order, sweep, deliver, wait, replay, saga, system_on, run,
}
use event_driven_kafka.BaseConsumer.{Delivery}
use event_driven_kafka.Contracts.Schema.{is_timestamp}
use event_driven_kafka.Database.Processed.{is_event_processed}
use event_driven_kafka.Database.Sagas.{get_saga_by_aggregate_id, saga_row}
use event_driven_kafka.Saga.{started_saga}
use event_driven_kafka.System.Journey.{idle, Requests}
use event_driven_kafka.System.Posted.{order_id, event_id, order_message, arrived}
use event_driven_kafka.System.Arrival.{order_reaches_payment}
use event_driven_kafka.System.Invariants.{IsSafe, Continues, run-IsSafe}
use event_driven_kafka.Tests.Fixtures.{no_broker, delivery, relay}

abbrev items : Items
items =
    cons
      (obj (
        field "sku" (str "SKU_1")
          (field "name" (str "Lamp") (field "price" (num 20) (field "quantity" (num 2) end)))))
      nil

abbrev request : Json
request = obj (field "user_id" (str "u1") (field "items" (arr items) end))

abbrev at_start : System
at_start = system_on (plain_world "api" [])

-- An order whose COMMIT is not acknowledged, a sweep whose first send is refused, a message that is no
-- event, and a replay.
abbrev actions : List (Action × List Outcome)
actions =
    (order request, done ∷ done ∷ done ∷ done ∷ unacknowledged no_broker ∷ [])
    ∷ (sweep relay, done ∷ refused no_broker ∷ [])
    ∷ (wait 60000, [])
    ∷ (deliver saga delivery, [])
    ∷ (replay (obj (field "aggregate_id" (str "ord_1") end)), [])
    ∷ []

empty_db-IsSafe : IsSafe empty_db []
empty_db-IsSafe = record {
  sagas = record { keyed = tt; named = tt };
  settled = tt;
  log = record { keyed = tt; numbered = tt };
  sent = tt;
}

run-IsSafe_example :
    IsSafe (run actions at_start).world.db (run actions at_start).world.kafka
    × Continues at_start.world.db (run actions at_start).world.db
run-IsSafe_example = run-IsSafe actions at_start empty_db-IsSafe

-- The orchestrator gets the message that the relay makes of the order.
abbrev arriving : Delivery
arriving = record delivery { value = (order_message relay request at_start).value }

order_reaches_payment_example :
    (c : Message) × ((run
        ((order request, []) ∷ (sweep (idle relay 49), []) ∷ (deliver saga arriving, []) ∷ [])
        at_start).world.kafka
      ≡ ([] ++ order_message relay request at_start ∷ []) ++ c ∷ [])
    × Requests (order_id at_start) c
    × (get_saga_by_aggregate_id
          (order_id at_start)
          (run
            ((order request, []) ∷ (sweep (idle relay 49), []) ∷ (deliver saga arriving, []) ∷ [])
            at_start).world.db.saga_instances
        ≡ some (saga_row 1000 (started_saga none (arrived relay request at_start))))
    × (is_event_processed
          (event_id at_start)
          "saga-orchestrator"
          (run
            ((order request, []) ∷ (sweep (idle relay 49), []) ∷ (deliver saga arriving, []) ∷ [])
            at_start).world.db.processed_events
        ≡ true)
unfolding name_of is_timestamp get_saga_by_aggregate_id is_event_processed
order_reaches_payment_example =
    order_reaches_payment relay request at_start 2 _ arriving (refl, refl)
      (record { keyed = tt; named = tt }) refl refl refl refl 49
      (refl, _, nil, refl, ((refl, refl, (20, refl), (2, refl)), tt)) refl refl

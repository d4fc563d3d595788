-- ===== src/Tests/SagaRuns.antt =====
-- The orchestrator on concrete events.
use event_driven_kafka.Contracts.{inventory_reservation_requested}
use event_driven_kafka.Contracts.{
  EventEnvelope, payment_requested, inventory_reserved, fraud_check_requested, fraud_approved,
  shipment_requested, shipment_created, order_completed, notification_requested,
}
use event_driven_kafka.Base.{List, [], ◌∷◌, ◌≡◌, refl, none, some, All}
use event_driven_kafka.Contracts.{
  order_created, payment_authorized, payment_rejected, inventory_reservation_requested,
}
use event_driven_kafka.Database.Sagas.{
  SagaState, payment_pending, completed, saga_row, get_saga_by_aggregate_id,
}
use event_driven_kafka.Database.Sagas.{SagaContext, SagaRow, empty_context, compensating, cancelled}
use event_driven_kafka.Contracts.{inventory_released, payment_refunded, order_cancelled}
use event_driven_kafka.Base.{inl, inr}
use event_driven_kafka.World.{World, refused, done}
use event_driven_kafka.Exec.{ok, err}
use event_driven_kafka.Saga.{started_saga, process_event}
use event_driven_kafka.Saga.Rows.{IsSagaTable}
use event_driven_kafka.Saga.Steps.{IsSettled, Reached}
use event_driven_kafka.Saga.Progress.{process_event-Reached}
use event_driven_kafka.Saga.Faults.{
  terminal_absorbs, at_completed, lost_command, first_try, later_tries,
}
use event_driven_kafka.Saga.Order.{compensations_cancel}
use event_driven_kafka.Saga.Moves.{IsMoved, Move}
use event_driven_kafka.Saga.Routes.{arrived, via, process_all, process_all-IsMoved}
use event_driven_kafka.Tests.Fixtures.{apart, event_of, saga_in, world_with, no_broker}

one_saga-IsSagaTable : (s : SagaState) → IsSagaTable (saga_in s ∷ [])
one_saga-IsSagaTable s = record { keyed = (tt, tt); named = (refl, tt) }

waiting-IsSettled : All IsSettled (saga_in payment_pending ∷ [])
waiting-IsSettled = (λ e. cc, tt)

abbrev faulty : World
faulty = record (world_with (saga_in payment_pending ∷ [])) {
  outcomes = done ∷ done ∷ refused no_broker ∷ [];
}

process_event-Reached_example :
    Reached "ord_1"
      (saga_in payment_pending ∷ [])
      (process_event (event_of payment_authorized) faulty).1.db.saga_instances
process_event-Reached_example =
    process_event-Reached (event_of payment_authorized) faulty (apart "ord_1" "" refl)
      (one_saga-IsSagaTable payment_pending) waiting-IsSettled

lost_command_example :
    ((first_try (event_of order_created) no_broker (world_with [])).0 ≡ err no_broker)
    × ((later_tries 2 (event_of order_created) no_broker (world_with [])).0 ≡ ok tt)
    × ((later_tries 2 (event_of order_created) no_broker (world_with [])).1.kafka ≡ [])
    × (get_saga_by_aggregate_id "ord_1"
          (later_tries 2 (event_of order_created) no_broker (world_with [])).1.db.saga_instances
        ≡ some (saga_row 1000 (started_saga none (event_of order_created))))
unfolding get_saga_by_aggregate_id
lost_command_example =
    lost_command 2 (event_of order_created) no_broker (world_with [])
      (record { keyed = tt; named = tt }) refl refl

terminal_absorbs_example :
    let w = world_with (saga_in completed ∷ []) in
    ((process_event (event_of payment_rejected) w).1.db ≡ w.db)
    × ((process_event (event_of payment_rejected) w).1.kafka ≡ [])
unfolding get_saga_by_aggregate_id
terminal_absorbs_example =
    terminal_absorbs (event_of payment_rejected) (world_with (saga_in completed ∷ []))
      (saga_in completed) refl at_completed

-- The events of an order that nothing stops.
abbrev fulfilment : List EventEnvelope
fulfilment =
    event_of order_created
    ∷ event_of payment_authorized
    ∷ event_of inventory_reserved
    ∷ event_of fraud_approved
    ∷ event_of shipment_created
    ∷ []

process_all-IsMoved_example :
    IsMoved "ord_1"
      (some completed)
      (payment_requested ∷ inventory_reservation_requested ∷ fraud_check_requested
        ∷ shipment_requested ∷ order_completed ∷ notification_requested ∷ [])
      (world_with [])
      (process_all fulfilment (world_with []))
unfolding get_saga_by_aggregate_id
process_all-IsMoved_example =
    process_all-IsMoved "ord_1" fulfilment (some completed) _ (world_with [])
      (refl, (refl, (refl, (refl, (refl, tt))))) refl (record { keyed = tt; named = tt })
      (via Move.start
        (via Move.reserve (via Move.check (via Move.ship (via Move.complete arrived)))))

abbrev both_pending : SagaContext
both_pending = record empty_context {
  compensations_pending = some ("INVENTORY_RELEASE" ∷ "PAYMENT_REFUND" ∷ []);
  compensations_completed = some [];
}

abbrev undone : SagaRow
undone = record (saga_in compensating) { context = both_pending }

abbrev released : EventEnvelope
released = event_of inventory_released

abbrev refunded : EventEnvelope
refunded = event_of payment_refunded

compensations_cancel_example :
    let w : World = world_with (undone ∷ []) in
    let once : World = (process_event released w).1 in
    let twice : World = (process_event released once).1 in
    IsMoved "ord_1" (some compensating) [] w (process_event released w)
    × IsMoved "ord_1" (some compensating) [] once (process_event released once)
    × IsMoved "ord_1" (some cancelled) (order_cancelled ∷ []) once (process_event refunded once)
    × IsMoved "ord_1" (some cancelled) (order_cancelled ∷ []) twice (process_event refunded twice)
unfolding get_saga_by_aggregate_id
compensations_cancel_example =
    compensations_cancel "ord_1" released refunded undone (world_with (undone ∷ [])) refl refl refl
      (inr refl) (inl refl) (λ p. cc) refl (record { keyed = (tt, tt); named = (refl, tt) }) refl
      refl (refl, refl)

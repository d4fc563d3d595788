-- ===== src/Saga/Progress.antt =====
-- src/saga/saga-orchestrator.ts: the saga table before and after any event.
use event_driven_kafka.Base.{List, Option, none, some, ◌≡◌, refl, ◌≢◌, sym, ap, All}
use event_driven_kafka.Base.Table.{All-upsert}
use event_driven_kafka.Contracts.{
  EventType, order_created, payment_authorized, payment_rejected, payment_refunded,
  inventory_reserved, inventory_reservation_failed, inventory_released, fraud_approved,
  fraud_rejected, shipment_created, shipment_failed, EventEnvelope,
}
use event_driven_kafka.Database.Sagas.{
  SagaRow, saga_row, same_saga, merge_saga, save_saga_instance, get_saga_by_aggregate_id,
}
use event_driven_kafka.World.{World}
use event_driven_kafka.Exec.{Result, ok, err, pure}
use event_driven_kafka.Exec.Rules.{Cond, Ensures-pure, Ensures-bind, Ensures-query, Ensures-fact}
use event_driven_kafka.Saga.{started_saga, on_order_created, react, process_event}
use event_driven_kafka.Saga.Rows.{IsSagaTable, start-Evolves, save-IsSagaTable}
use event_driven_kafka.Saga.Steps.{IsSettled, Reached, Given, Reached-refl, At, save-Ensures}
use event_driven_kafka.Saga.Transitions.{
  Goal, Handled, command_for-Keeps, payment_authorized-Handled, payment_rejected-Handled,
  inventory_reserved-Handled, inventory_failed-Handled, fraud_approved-Handled,
  fraud_rejected-Handled, shipment_created-Handled, shipment_failed-Handled, order_created-Handled,
}
use event_driven_kafka.Saga.Compensation.{on_compensated-Handled}

module _ (e : EventEnvelope) (rows : List SagaRow) (v : IsSagaTable rows)
    (s : All IsSettled rows) where
  idle : Handled e rows (pure {A = Unit {0}} tt)
  idle = Ensures-pure tt (λ d k at. rw at (Reached-refl e.aggregate_id rows v s))

  -- There is no saga of the order yet.
  first-Handled :
      get_saga_by_aggregate_id e.aggregate_id rows ≡ none → Handled e rows (on_order_created none e)
  unfolding on_order_created
  first-Handled absent =
      save-Ensures (Goal e rows) rows _ _ (Reached-refl e.aggregate_id rows v s)
        (λ now. record {
          evolves =
              start-Evolves e.aggregate_id (started_saga none e) now rows v absent refl refl refl;
          table = save-IsSagaTable (started_saga none e) now rows refl v;
          settled =
              unfold save_saga_instance in
              All-upsert IsSettled same_saga merge_saga (saga_row now (started_saga none e))
                (λ r x h c. cc) (λ c. cc) rows s;
        })
        (command_for-Keeps e rows _ _ _ _)

  absent-Handled :
      (t : EventType)
      → get_saga_by_aggregate_id e.aggregate_id rows ≡ none
      → Handled e rows (react t none e)
  unfolding react
  absent-Handled order_created absent = first-Handled absent
  absent-Handled _ absent = idle

  present-Handled :
      (t : EventType) (saga : SagaRow)
      → e.aggregate_id ≢ ""
      → get_saga_by_aggregate_id e.aggregate_id rows ≡ some saga
      → Handled e rows (react t (some saga) e)
  unfolding react
  present-Handled t saga n found = go t
    where
      g : Given e.aggregate_id rows saga
      g = record { table = v; settled = s; found = found }

      go : (t : EventType) → Handled e rows (react t (some saga) e)
      go order_created = order_created-Handled e rows saga g
      go payment_authorized = payment_authorized-Handled e rows saga g
      go payment_rejected = payment_rejected-Handled e rows saga g
      go inventory_reserved = inventory_reserved-Handled e rows saga g
      go inventory_reservation_failed = inventory_failed-Handled e rows saga g
      go fraud_approved = fraud_approved-Handled e rows saga g
      go fraud_rejected = fraud_rejected-Handled e rows saga g
      go shipment_created = shipment_created-Handled e rows saga g
      go shipment_failed = shipment_failed-Handled e rows saga g
      go payment_refunded = on_compensated-Handled e rows saga g "PAYMENT_REFUND" n
      go inventory_released = on_compensated-Handled e rows saga g "INVENTORY_RELEASE" n
      go _ = idle

  found-Handled :
      (o : Option SagaRow)
      → e.aggregate_id ≢ ""
      → get_saga_by_aggregate_id e.aggregate_id rows ≡ o
      → Handled e rows (react e.event_type o e)
  found-Handled none n f = absent-Handled e.event_type f
  found-Handled (some saga) n f = present-Handled e.event_type saga n f

  abbrev Read : Result (Option SagaRow) → Cond
  Read (ok o) d k = At rows d k × (get_saga_by_aggregate_id e.aggregate_id rows ≡ o)
  Read (err x) d k = At rows d k

  process_event-Handled : e.aggregate_id ≢ "" → Handled e rows (process_event e)
  unfolding process_event
  process_event-Handled n =
      Ensures-bind _ _ Read
        (Ensures-query _ (λ d k at. (at, ap (get_saga_by_aggregate_id e.aggregate_id) (sym at)))
          (λ x d k at. at))
        (λ o. Ensures-fact _ _ (λ f. found-Handled o n f))
        (λ x d k at. rw at (Reached-refl e.aggregate_id rows v s))

-- From a table whose saga ids are distinct and made from their orders' ids, and whose cancelled sagas
-- have completed their compensations, an event for a named order leads to such a table, whatever
-- database and Kafka calls fail on the way: every row is as it was, but that the order's saga may
-- have moved along one edge of the diagram, and a row that is new waits for its payment.
pub process_event-Reached :
    (e : EventEnvelope) (w : World)
    → e.aggregate_id ≢ ""
    → IsSagaTable w.db.saga_instances
    → All IsSettled w.db.saga_instances
    → Reached e.aggregate_id w.db.saga_instances (process_event e w).1.db.saga_instances
process_event-Reached e w n v s = (process_event-Handled e w.db.saga_instances v s n).at w refl

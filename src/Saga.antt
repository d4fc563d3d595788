-- ===== src/Saga.antt =====
-- src/saga/saga-orchestrator.ts: the orchestrator's reaction to each event. `saga` and `context` are
-- what processEvent reads before its switch; an early return is `pure tt`. Logging is left out.
pub mod Barrier
pub mod Rows
pub mod Found
pub mod Steps
pub mod Transitions
pub mod Compensation
pub mod Progress
pub mod Faults
pub mod Cancelling
pub mod Order
pub mod Moves
pub mod Routes
use event_driven_kafka.Base.{
  String, ◌<>◌, Bool, true, false, not, List, [], ◌∷◌, Option, none, some, if◌then◌else◌,
}
use event_driven_kafka.Json.{Json, num, str, arr, obj, nil, end, get, ◌or◌, text_of}
use event_driven_kafka.Contracts.{
  EventType, order_created, payment_requested, payment_authorized, payment_rejected,
  payment_refund_requested, payment_refunded, inventory_reservation_requested, inventory_reserved,
  inventory_reservation_failed, inventory_released, fraud_check_requested, fraud_approved,
  fraud_rejected, shipment_requested, shipment_created, shipment_failed, notification_requested,
  order_completed, order_failed, EventEnvelope, text_or,
}
use event_driven_kafka.Contracts.Topics
use event_driven_kafka.Database.Sagas.{
  SagaState, SagaContext, SagaRow, SagaInstance, empty_context, get_saga_by_aggregate_id,
}
use event_driven_kafka.World.{World}
use event_driven_kafka.Exec.{Exec, pure, ◌>>=◌, ◌>>◌, query, now_iso}
use event_driven_kafka.Emit.{object}
use event_driven_kafka.Saga.Barrier.{save, command, handle_compensation_completion}

abbrev pub is_created : SagaState → Bool
is_created SagaState.created = true
is_created _ = false

abbrev pub is_payment_pending : SagaState → Bool
is_payment_pending SagaState.payment_pending = true
is_payment_pending _ = false

abbrev pub is_inventory_pending : SagaState → Bool
is_inventory_pending SagaState.inventory_pending = true
is_inventory_pending _ = false

abbrev pub is_fraud_pending : SagaState → Bool
is_fraud_pending SagaState.fraud_pending = true
is_fraud_pending _ = false

abbrev pub is_shipping_pending : SagaState → Bool
is_shipping_pending SagaState.shipping_pending = true
is_shipping_pending _ = false

abbrev pub is_compensating : SagaState → Bool
is_compensating SagaState.compensating = true
is_compensating _ = false

abbrev pub saga_id_of : Option SagaRow → Option String
saga_id_of none = none
saga_id_of (some s) = some s.saga_id

-- `saga && saga.state !== 'CREATED'`
abbrev pub already_started : Option SagaRow → Bool
already_started none = false
already_started (some s) = if is_created s.state then false else true

-- saveSagaInstance for a saga that exists, with the event's correlation id.
unfoldable pub move_saga :
    SagaRow → EventEnvelope → SagaState → String → SagaContext → Option String → Exec (Unit {0})
move_saga saga e state step context reason = save (record {
  saga_id = saga.saga_id;
  aggregate_id = e.aggregate_id;
  saga_type = saga.saga_type;
  state = state;
  current_step = step;
  correlation_id = e.correlation_id;
  context = context;
  failure_reason = reason;
})

unfoldable pub command_for :
    EventEnvelope → String → EventType → String → List (String × Json) → Exec (Unit {0})
command_for e topic event_type aggregate_type payload =
    command topic event_type e.aggregate_id aggregate_type e.correlation_id e.event_id
      (object payload)

abbrev pub started_saga : Option SagaRow → EventEnvelope → SagaInstance
started_saga saga e = record {
  saga_id = text_or (saga_id_of saga) ("saga_" <> e.aggregate_id);
  aggregate_id = e.aggregate_id;
  saga_type = "ORDER_FULFILLMENT";
  state = SagaState.payment_pending;
  current_step = "PAYMENT";
  correlation_id = e.correlation_id;
  context = record empty_context {
    order_id = str e.aggregate_id;
    user_id = get "user_id" e.payload;
    total_amount = get "total_amount" e.payload;
    items = get "items" e.payload;
    currency = get "currency" e.payload or str "USD";
    shipping_address = get "shipping_address" e.payload or obj end;
    created_at = str e.occurred_at;
  };
  failure_reason = none;
}

-- 1. OrderCreated: start the saga and request the payment.
unfoldable pub on_order_created : Option SagaRow → EventEnvelope → Exec (Unit {0})
on_order_created saga e = if already_started saga then pure tt else do
  save (started_saga saga e)
  command_for e Topics.payments payment_requested "Payment" (
      ("order_id", str e.aggregate_id)
      ∷ ("user_id", get "user_id" e.payload)
      ∷ ("amount", get "total_amount" e.payload)
      ∷ ("currency", get "currency" e.payload or str "USD")
      ∷ ("payment_method", str "credit_card")
      ∷ [])

-- 2. PaymentAuthorized: reserve the inventory.
unfoldable pub on_payment_authorized : SagaRow → EventEnvelope → Exec (Unit {0})
on_payment_authorized saga e = if not (is_payment_pending saga.state) then pure tt else do
  let updated = record saga.context {
    payment_id = get "payment_id" e.payload;
    payment_authorized_at = get "authorized_at" e.payload;
  }
  move_saga saga e SagaState.inventory_pending "INVENTORY" updated none
  command_for e Topics.inventory inventory_reservation_requested "Inventory"
      (("order_id", str e.aggregate_id) ∷ ("items", updated.items or arr nil) ∷ [])

-- PaymentRejected: the order has failed.
unfoldable pub on_payment_rejected : SagaRow → EventEnvelope → Exec (Unit {0})
on_payment_rejected saga e = if not (is_payment_pending saga.state) then pure tt else do
  let reason = "Payment declined: " <> text_of (get "reason" e.payload)
  let updated = record saga.context { payment_rejection_reason = get "reason" e.payload }
  move_saga saga e SagaState.failed "TERMINAL" updated (some reason)
  now ← now_iso
  command_for e Topics.orders order_failed "Order" (
      ("order_id", str e.aggregate_id)
      ∷ ("user_id", saga.context.user_id or str "unknown")
      ∷ ("reason", str reason)
      ∷ ("failed_at", str now)
      ∷ ("failed_step", str "PAYMENT")
      ∷ ("compensation_status", str "NO_COMPENSATION_NEEDED")
      ∷ [])

-- 3. InventoryReserved: request the fraud check.
unfoldable pub on_inventory_reserved : SagaRow → EventEnvelope → Exec (Unit {0})
on_inventory_reserved saga e = if not (is_inventory_pending saga.state) then pure tt else do
  let updated = record saga.context {
    reservation_id = get "reservation_id" e.payload;
    inventory_reserved_at = get "reserved_at" e.payload;
  }
  move_saga saga e SagaState.fraud_pending "FRAUD_CHECK" updated none
  command_for e Topics.fraud fraud_check_requested "Fraud" (
      ("order_id", str e.aggregate_id)
      ∷ ("user_id", updated.user_id or str "unknown")
      ∷ ("amount", updated.total_amount or num 0)
      ∷ ("payment_id", updated.payment_id or str "pay_unknown")
      ∷ [])

-- InventoryReservationFailed: refund the payment.
unfoldable pub on_inventory_failed : SagaRow → EventEnvelope → Exec (Unit {0})
on_inventory_failed saga e = if not (is_inventory_pending saga.state) then pure tt else do
  let reason = text_of (get "reason" e.payload)
  let updated = record saga.context {
    inventory_failure_reason = get "reason" e.payload;
    compensations_pending = some ("PAYMENT_REFUND" ∷ []);
    compensations_completed = some [];
  }
  move_saga saga e SagaState.compensating "COMPENSATING_PAYMENT" updated
      (some ("Inventory out of stock: " <> reason))
  command_for e Topics.payments payment_refund_requested "Payment" (
      ("order_id", str e.aggregate_id)
      ∷ ("payment_id", updated.payment_id)
      ∷ ("amount", updated.total_amount or num 0)
      ∷ ("reason", str ("Inventory reservation failed: " <> reason))
      ∷ [])

-- 4. FraudApproved: request the shipment.
unfoldable pub on_fraud_approved : SagaRow → EventEnvelope → Exec (Unit {0})
on_fraud_approved saga e = if not (is_fraud_pending saga.state) then pure tt else do
  let updated = record saga.context {
    fraud_check_id = get "fraud_check_id" e.payload;
    risk_score = get "risk_score" e.payload;
  }
  move_saga saga e SagaState.shipping_pending "SHIPPING" updated none
  command_for e Topics.shipping shipment_requested "Shipment" (
      ("order_id", str e.aggregate_id)
      ∷ ("user_id", updated.user_id or str "unknown")
      ∷ ("items", updated.items or arr nil)
      ∷ ("shipping_address", updated.shipping_address or obj end)
      ∷ [])

-- The two compensations that FraudRejected and ShipmentFailed request.
unfoldable pub release_and_refund : EventEnvelope → SagaContext → String → Exec (Unit {0})
release_and_refund e context reason = do
  now ← now_iso
  command_for e Topics.inventory inventory_released "Inventory" (
      ("order_id", str e.aggregate_id)
      ∷ ("reservation_id", context.reservation_id)
      ∷ ("items", context.items or arr nil)
      ∷ ("released_at", str now)
      ∷ ("reason", str reason)
      ∷ [])
  command_for e Topics.payments payment_refund_requested "Payment" (
      ("order_id", str e.aggregate_id)
      ∷ ("payment_id", context.payment_id)
      ∷ ("amount", context.total_amount or num 0)
      ∷ ("reason", str reason)
      ∷ [])

-- FraudRejected: release the inventory and refund the payment.
unfoldable pub on_fraud_rejected : SagaRow → EventEnvelope → Exec (Unit {0})
on_fraud_rejected saga e = if not (is_fraud_pending saga.state) then pure tt else do
  let reason = text_of (get "reason" e.payload)
  let updated = record saga.context {
    fraud_rejection_reason = get "reason" e.payload;
    compensations_pending = some ("INVENTORY_RELEASE" ∷ "PAYMENT_REFUND" ∷ []);
    compensations_completed = some [];
  }
  move_saga saga e SagaState.compensating "COMPENSATING_FRAUD" updated
      (some ("Fraud risk check rejected: " <> reason))
  release_and_refund e updated ("Fraud rejection: " <> reason)

-- 5. ShipmentCreated: the order is complete, and the customer is notified.
unfoldable pub on_shipment_created : SagaRow → EventEnvelope → Exec (Unit {0})
on_shipment_created saga e = if not (is_shipping_pending saga.state) then pure tt else do
  now ← now_iso
  let updated = record saga.context {
    shipment_id = get "shipment_id" e.payload;
    tracking_number = get "tracking_number" e.payload;
    completed_at = str now;
  }
  move_saga saga e SagaState.completed "TERMINAL_SUCCESS" updated none
  command_for e Topics.orders order_completed "Order" (
      ("order_id", str e.aggregate_id)
      ∷ ("user_id", updated.user_id or str "unknown")
      ∷ ("completed_at", updated.completed_at or str now)
      ∷ ("total_amount", updated.total_amount or num 0)
      ∷ ("payment_id", updated.payment_id)
      ∷ ("shipment_id", get "shipment_id" e.payload)
      ∷ ("tracking_number", get "tracking_number" e.payload)
      ∷ [])
  command_for e Topics.notifications notification_requested "Notification" (
      ("order_id", str e.aggregate_id)
      ∷ ("user_id", updated.user_id or str "unknown")
      ∷ ("channel", str "EMAIL")
      ∷ ("template", str "ORDER_CONFIRMATION_SHIPPED")
      ∷ ("recipient", str (text_of (updated.user_id or str "customer") <> "@example.com"))
      ∷ (
        "data",
        obj (
            object (
              ("tracking_number", get "tracking_number" e.payload)
              ∷ ("total_amount", updated.total_amount)
              ∷ [])),
      )
      ∷ [])

-- ShipmentFailed: release the inventory and refund the payment.
unfoldable pub on_shipment_failed : SagaRow → EventEnvelope → Exec (Unit {0})
on_shipment_failed saga e = if not (is_shipping_pending saga.state) then pure tt else do
  let reason = text_of (get "reason" e.payload)
  let updated = record saga.context {
    shipment_failure_reason = get "reason" e.payload;
    compensations_pending = some ("INVENTORY_RELEASE" ∷ "PAYMENT_REFUND" ∷ []);
    compensations_completed = some [];
  }
  move_saga saga e SagaState.compensating "COMPENSATING_SHIPPING" updated
      (some ("Shipment dispatch failed: " <> reason))
  release_and_refund e updated ("Shipment failed: " <> reason)

-- PaymentRefunded and InventoryReleased: one compensation has completed.
unfoldable pub on_compensated : String → SagaRow → EventEnvelope → Exec (Unit {0})
on_compensated action saga e =
    if not (is_compensating saga.state)
    then pure tt
    else handle_compensation_completion saga saga.context action e.event_id e.correlation_id

-- `!saga`: return early.
abbrev pub for_saga :
    (SagaRow → EventEnvelope → Exec (Unit {0})) → Option SagaRow → EventEnvelope → Exec (Unit {0})
for_saga handler none e = pure tt
for_saga handler (some saga) e = handler saga e

-- The switch of processEvent.
unfoldable pub react : EventType → Option SagaRow → EventEnvelope → Exec (Unit {0})
react order_created = on_order_created
react payment_authorized = for_saga on_payment_authorized
react payment_rejected = for_saga on_payment_rejected
react inventory_reserved = for_saga on_inventory_reserved
react inventory_reservation_failed = for_saga on_inventory_failed
react fraud_approved = for_saga on_fraud_approved
react fraud_rejected = for_saga on_fraud_rejected
react shipment_created = for_saga on_shipment_created
react shipment_failed = for_saga on_shipment_failed
react payment_refunded = for_saga (on_compensated "PAYMENT_REFUND")
react inventory_released = for_saga (on_compensated "INVENTORY_RELEASE")
react _ = λ saga e. pure tt

unfoldable pub process_event : EventEnvelope → Exec (Unit {0})
process_event e = do
  saga ← query (λ db. get_saga_by_aggregate_id e.aggregate_id db.saga_instances)
  react e.event_type saga e

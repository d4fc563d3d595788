-- ===== src/Projection/Notifications.antt =====
-- src/application/projections/projection-consumer.ts, emitLiveNotifications, and the messages that
-- src/realtime/realtime-gateway.ts makes of them.
use event_driven_kafka.Base.{String, ◌<>◌, List, [], ◌∷◌, ◌++◌, Option, none, some}
use event_driven_kafka.Json.{str, obj, get}
use event_driven_kafka.Contracts.{
  EventType, event_type_name, order_created, order_cancelled, payment_requested, payment_authorized,
  payment_rejected, inventory_reservation_requested, inventory_reserved,
  inventory_reservation_failed, fraud_check_requested, fraud_approved, fraud_rejected,
  shipment_requested, shipment_created, order_completed, order_failed, EventEnvelope, text_or,
}
use event_driven_kafka.World.{Broadcast}
use event_driven_kafka.Exec.{Exec, ok}
use event_driven_kafka.Emit.{object}

abbrev order_updated : EventEnvelope → String → Option String → List Broadcast
order_updated e status none =
    record {
      event = "order:updated";
      room = none;
      content = obj (object (("order_id", str e.aggregate_id) ∷ ("status", str status) ∷ []));
    }
    ∷ []
order_updated e status (some step) =
    record {
      event = "order:updated";
      room = none;
      content = obj (
          object
            (("order_id", str e.aggregate_id) ∷ ("status", str status) ∷ ("step", str step) ∷ []));
    }
    ∷ []

abbrev order_created_broadcast : EventEnvelope → Broadcast
order_created_broadcast e = record {
  event = "order:created";
  room = none;
  content = obj (
      object (
        ("order_id", str e.aggregate_id)
        ∷ ("user_id", get "user_id" e.payload)
        ∷ ("status", str "pending")
        ∷ ("total_amount", get "total_amount" e.payload)
        ∷ ("created_at", str e.occurred_at)
        ∷ []));
}

-- The switch of emitLiveNotifications.
unfoldable pub updates_for : EventType → EventEnvelope → List Broadcast
updates_for order_created e = order_created_broadcast e ∷ []
updates_for payment_requested e = order_updated e "payment_pending" (some "PAYMENT")
updates_for payment_authorized e = order_updated e "payment_approved" (some "PAYMENT")
updates_for payment_rejected e = order_updated e "payment_rejected" (some "PAYMENT")
updates_for inventory_reservation_requested e =
    order_updated e "inventory_pending" (some "INVENTORY")
updates_for inventory_reserved e = order_updated e "inventory_reserved" (some "INVENTORY")
updates_for inventory_reservation_failed e = order_updated e "inventory_failed" (some "INVENTORY")
updates_for fraud_check_requested e = order_updated e "fraud_pending" (some "FRAUD")
updates_for fraud_approved e = order_updated e "fraud_approved" (some "FRAUD")
updates_for fraud_rejected e = order_updated e "fraud_rejected" (some "FRAUD")
updates_for shipment_requested e = order_updated e "shipping_pending" (some "SHIPPING")
updates_for shipment_created e = order_updated e "shipping_created" (some "SHIPPING")
updates_for order_completed e = order_updated e "completed" none
updates_for order_cancelled e = order_updated e "cancelled" none
updates_for order_failed e = order_updated e "failed" none
updates_for _ e = []

abbrev order_event_broadcast : EventEnvelope → Broadcast
order_event_broadcast e = record {
  event = "order:event";
  room = some ("order:" <> e.aggregate_id);
  content = obj (
      object (
        ("order_id", str e.aggregate_id)
        ∷ ("event_type", str (event_type_name e.event_type))
        ∷ ("topic", str (text_or (some e.producer) "unknown"))
        ∷ ("timestamp", str e.occurred_at)
        ∷ ("correlation_id", str e.correlation_id)
        ∷ ("causation_id", str e.causation_id)
        ∷ ("payload", obj e.payload)
        ∷ []));
}

unfoldable pub emit_live_notifications : EventEnvelope → Exec (Unit {0})
emit_live_notifications e w = (
  ok tt,
  record w { broadcasts = w.broadcasts ++ order_event_broadcast e ∷ updates_for e.event_type e },
)

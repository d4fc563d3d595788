-- ===== src/Contracts.antt =====
-- src/contracts: event types, the event envelope, its construction and its schema; the topic names
-- of src/config.ts.
pub mod Topics
pub mod Schema
use event_driven_kafka.Base.{
  ℕ, zero, suc, String, Bool, true, false, not, ◌&&◌, ◌||◌, List, [], ◌∷◌, Option, none, some, ◌==◌,
  ◌=?◌, leb, find?, if◌then◌else◌,
}
use event_driven_kafka.Json.{Json, undefined, null, num, str, obj, Fields, end, field, get}
use Prim.Native.Char.{code}

-- EventTypes; any other text that stands in `event_type` is `other`.
pub data EventType : Type 0 where
  order_created order_cancelled : EventType
  payment_requested payment_authorized payment_rejected : EventType
  payment_refund_requested payment_refunded : EventType
  inventory_reservation_requested inventory_reserved : EventType
  inventory_reservation_failed inventory_released : EventType
  fraud_check_requested fraud_approved fraud_rejected : EventType
  shipment_requested shipment_created shipment_failed : EventType
  notification_requested notification_sent : EventType
  order_completed order_failed : EventType
  other : String → EventType

unfoldable pub event_type_name : EventType → String
event_type_name order_created = "OrderCreated"
event_type_name order_cancelled = "OrderCancelled"
event_type_name payment_requested = "PaymentRequested"
event_type_name payment_authorized = "PaymentAuthorized"
event_type_name payment_rejected = "PaymentRejected"
event_type_name payment_refund_requested = "PaymentRefundRequested"
event_type_name payment_refunded = "PaymentRefunded"
event_type_name inventory_reservation_requested = "InventoryReservationRequested"
event_type_name inventory_reserved = "InventoryReserved"
event_type_name inventory_reservation_failed = "InventoryReservationFailed"
event_type_name inventory_released = "InventoryReleased"
event_type_name fraud_check_requested = "FraudCheckRequested"
event_type_name fraud_approved = "FraudApproved"
event_type_name fraud_rejected = "FraudRejected"
event_type_name shipment_requested = "ShipmentRequested"
event_type_name shipment_created = "ShipmentCreated"
event_type_name shipment_failed = "ShipmentFailed"
event_type_name notification_requested = "NotificationRequested"
event_type_name notification_sent = "NotificationSent"
event_type_name order_completed = "OrderCompleted"
event_type_name order_failed = "OrderFailed"
event_type_name (other s) = s

abbrev event_types : List EventType
event_types =
    order_created ∷ order_cancelled ∷ payment_requested ∷ payment_authorized ∷ payment_rejected
    ∷ payment_refund_requested ∷ payment_refunded ∷ inventory_reservation_requested
    ∷ inventory_reserved ∷ inventory_reservation_failed ∷ inventory_released ∷ fraud_check_requested
    ∷ fraud_approved ∷ fraud_rejected ∷ shipment_requested ∷ shipment_created ∷ shipment_failed
    ∷ notification_requested ∷ notification_sent ∷ order_completed ∷ order_failed ∷ []

abbrev or_other : String → Option EventType → EventType
or_other s none = other s
or_other s (some t) = t

unfoldable pub event_type_of : String → EventType
unfolding event_type_name
event_type_of s = or_other s (find? (λ t. event_type_name t == s) event_types)

pub record EventEnvelope : Type 0 where
  pub event_id : String
  pub event_type : EventType
  pub event_version : ℕ
  pub sequence_number : Option ℕ
  pub aggregate_id : String
  pub aggregate_type : String
  pub occurred_at : String
  pub producer : String
  pub correlation_id : String
  pub causation_id : String
  pub schema_version : ℕ
  pub payload : Fields

-- `a || b` on an optional text, and on an optional number.
abbrev pub text_or : Option String → String → String
text_or none d = d
text_or (some s) d = if s == "" then d else s

abbrev pub number_or : Option ℕ → ℕ → ℕ
number_or none d = d
number_or (some n) d = if n =? 0 then d else n

pub record EnvelopeParams : Type 0 where
  pub event_id : Option String
  pub event_type : EventType
  pub event_version : Option ℕ
  pub sequence_number : Option ℕ
  pub aggregate_id : String
  pub aggregate_type : String
  pub occurred_at : Option String
  pub producer : String
  pub correlation_id : String
  pub causation_id : String
  pub schema_version : Option ℕ
  pub payload : Fields

-- createEventEnvelope; the generated id and the current time come from the caller.
unfoldable pub create_event_envelope : String → String → EnvelopeParams → EventEnvelope
create_event_envelope fresh_id now p = record {
  event_id = text_or p.event_id fresh_id;
  event_type = p.event_type;
  event_version = number_or p.event_version 1;
  sequence_number = p.sequence_number;
  aggregate_id = p.aggregate_id;
  aggregate_type = p.aggregate_type;
  occurred_at = text_or p.occurred_at now;
  producer = p.producer;
  correlation_id = p.correlation_id;
  causation_id = p.causation_id;
  schema_version = number_or p.schema_version 1;
  payload = p.payload;
}

abbrev optional_num : Option ℕ → Json
optional_num none = undefined
optional_num (some n) = num n

-- The envelope as the object that JSON.stringify is given.
unfoldable pub envelope_fields : EventEnvelope → Fields
unfolding event_type_name
envelope_fields e = field "event_id" (str e.event_id) (
    field "event_type" (str (event_type_name e.event_type)) (
      field "event_version" (num e.event_version) (
        field "sequence_number" (optional_num e.sequence_number) (
          field "aggregate_id" (str e.aggregate_id) (
            field "aggregate_type" (str e.aggregate_type) (
              field "occurred_at" (str e.occurred_at) (
                field "producer" (str e.producer) (
                  field "correlation_id" (str e.correlation_id) (
                    field "causation_id" (str e.causation_id) (
                      field "schema_version" (num e.schema_version)
                        (field "payload" (obj e.payload) end)))))))))))

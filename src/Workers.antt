-- ===== src/Workers.antt =====
-- src/consumers/payment-consumer.ts, inventory-consumer.ts and
-- shipping-consumer.ts: the method processEvent of each. Logging is left out.
pub mod Replies
use event_driven_kafka.Base.{
  ℕ, ◌+◌, ◌*◌, String, ◌<>◌, Bool, true, false, ◌||◌, List, [], ◌∷◌, none, some, ◌==◌, ltb,
  if◌then◌else◌,
}
use event_driven_kafka.Json.{
  Json, undefined, null, num, str, arr, nil, Items, cons, get, prop, ◌or◌, text_of,
}
use event_driven_kafka.Contracts.{
  EventType, payment_requested, payment_authorized, payment_rejected, payment_refund_requested,
  payment_refunded, inventory_reservation_requested, inventory_reserved,
  inventory_reservation_failed, shipment_requested, shipment_created, shipment_failed,
  EventEnvelope,
}
use event_driven_kafka.Contracts.Topics
use event_driven_kafka.Chaos.{Service, payment, inventory, shipping, latency_ms, should_fail}
use event_driven_kafka.World.{Env, Error}
use event_driven_kafka.Exec.{
  Result, ok, err, Exec, pure, throw, gets, ◌>>=◌, ◌>>◌, short_id, random_below, now_iso, sleep,
}
use event_driven_kafka.Emit.{object, emit}

-- await checkLatency(service): a delay of 0 is no wait.
abbrev pub check_latency : Service → Exec (Unit {0})
check_latency s = gets (λ w. latency_ms s w.chaos) >>= λ ms. sleep ms

abbrev pub fails : Service → Exec Bool
fails s = gets (λ w. should_fail s w.chaos)

-- `emit` of an event for the order of `e`, caused by `e`.
unfoldable pub answer :
    EventEnvelope → String → EventType → String → List (String × Json) → Exec (Unit {0})
answer e topic event_type aggregate_type payload =
    emit (record {
      topic = topic;
      event_type = event_type;
      aggregate_id = e.aggregate_id;
      aggregate_type = aggregate_type;
      payload = object payload;
      correlation_id = e.correlation_id;
      causation_id = e.event_id;
      event_id = none;
    })
    >>= λ sent. pure tt

-- PaymentRequested
unfoldable pub authorize : EventEnvelope → Bool → Exec (Unit {0})
authorize e true = do
  now ← now_iso
  answer e Topics.payments payment_rejected "Payment" (
      ("order_id", str e.aggregate_id)
      ∷ ("user_id", get "user_id" e.payload)
      ∷ ("amount", get "amount" e.payload)
      ∷ ("reason", str "Card authorization failed (Chaos Injection)")
      ∷ ("rejected_at", str now)
      ∷ [])
authorize e false = do
  id ← short_id "pay_"
  code ← random_below 900000
  now ← now_iso
  answer e Topics.payments payment_authorized "Payment" (
      ("payment_id", str id)
      ∷ ("order_id", str e.aggregate_id)
      ∷ ("user_id", get "user_id" e.payload)
      ∷ ("amount", get "amount" e.payload)
      ∷ ("authorization_code", str ("AUTH_" <> text_of (num (100000 + code))))
      ∷ ("authorized_at", str now)
      ∷ [])

-- PaymentRefundRequested
unfoldable pub refund : EventEnvelope → Exec (Unit {0})
refund e = do
  id ← short_id "ref_"
  now ← now_iso
  answer e Topics.payments payment_refunded "Payment" (
      ("refund_id", str id)
      ∷ ("payment_id", get "payment_id" e.payload or str "pay_unknown")
      ∷ ("order_id", str e.aggregate_id)
      ∷ ("amount", get "amount" e.payload)
      ∷ ("refunded_at", str now)
      ∷ [])

-- The tests of the event's type.
unfoldable pub payment_react : EventType → EventEnvelope → Bool → Exec (Unit {0})
payment_react payment_requested e fault = authorize e fault
payment_react payment_refund_requested e fault = refund e
payment_react _ e fault = pure tt

unfoldable pub payment_process : EventEnvelope → Exec (Unit {0})
payment_process e = do
  check_latency payment
  fault ← fails payment
  payment_react e.event_type e fault

-- i.sku === 'OUT_OF_STOCK_ITEM'
abbrev pub is_text : String → Json → Bool
is_text s (str t) = t == s
is_text s _ = false

-- Number(v), where NaN, which is above nothing, counts as 0.
abbrev pub amount_of : Env → Json → ℕ
amount_of env (num n) = n
amount_of env v = env.number v

abbrev pub is_short : Env → Json → Bool
is_short env i =
    is_text "OUT_OF_STOCK_ITEM" (prop "sku" i) || ltb 500 (amount_of env (prop "quantity" i))

-- The TypeError of `i.sku`; its stack is left out.
abbrev pub no_item : String → Error
no_item value = record {
  message = "Cannot read properties of " <> value <> " (reading 'sku')";
  stack = none;
}

-- items.some(…), which stops at the first item that is short.
unfoldable pub has_out_of_stock : Env → Items → Result Bool
has_out_of_stock env nil = ok false
has_out_of_stock env (cons undefined items) = err (no_item "undefined")
has_out_of_stock env (cons null items) = err (no_item "null")
has_out_of_stock env (cons i items) =
    let rest = has_out_of_stock env items in if is_short env i then ok true else rest

-- The TypeError of `items.some` on a value that is no array; its stack is left out.
abbrev pub no_array : Error
no_array = record { message = "items.some is not a function"; stack = none }

-- The answer to InventoryReservationRequested, by the fault and by what items.some says.
unfoldable pub decide_items : EventEnvelope → Bool → Items → Bool → Exec (Unit {0})
decide_items e fault items short =
    if fault || short
    then (now_iso >>= λ now. answer e Topics.inventory inventory_reservation_failed "Inventory" (
        ("order_id", str e.aggregate_id)
        ∷ ("items", arr items)
        ∷ ("reason", str (if fault then "Chaos forced inventory failure" else "SKU out of stock"))
        ∷ ("failed_at", str now)
        ∷ []))
    else (short_id "res_" >>= λ id. now_iso >>= λ now.
        answer e Topics.inventory inventory_reserved "Inventory" (
          ("reservation_id", str id)
          ∷ ("order_id", str e.aggregate_id)
          ∷ ("items", arr items)
          ∷ ("reserved_at", str now)
          ∷ []))

abbrev pub or_throw : Result Bool → Exec Bool
or_throw (ok b) = pure b
or_throw (err x) = throw x

-- InventoryReservationRequested; the items are looked through under a fault too.
unfoldable pub reserve_items : EventEnvelope → Bool → Items → Exec (Unit {0})
reserve_items e fault items = do
  env ← gets (λ w. w.env)
  short ← or_throw (has_out_of_stock env items)
  decide_items e fault items short

unfoldable pub reserve_value : EventEnvelope → Bool → Json → Exec (Unit {0})
reserve_value e fault (arr items) = reserve_items e fault items
reserve_value e fault _ = throw no_array

unfoldable pub reserve : EventEnvelope → Bool → Exec (Unit {0})
reserve e fault = reserve_value e fault (get "items" e.payload or arr nil)

-- The tests of the event's type.
unfoldable pub inventory_react : EventType → EventEnvelope → Bool → Exec (Unit {0})
inventory_react inventory_reservation_requested e fault = reserve e fault
inventory_react _ e fault = pure tt

unfoldable pub inventory_process : EventEnvelope → Exec (Unit {0})
inventory_process e = do
  check_latency inventory
  fault ← fails inventory
  inventory_react e.event_type e fault

-- ShipmentRequested
unfoldable pub ship : EventEnvelope → Bool → Exec (Unit {0})
ship e true = do
  now ← now_iso
  answer e Topics.shipping shipment_failed "Shipment" (
      ("order_id", str e.aggregate_id)
      ∷ ("reason", str "Carrier API unreachable (Chaos Injection)")
      ∷ ("failed_at", str now)
      ∷ [])
ship e false = do
  id ← short_id "ship_"
  number ← random_below 90000000
  estimated ← gets (λ w. w.env.iso (w.clock + 3 * 24 * 60 * 60 * 1000))
  now ← now_iso
  answer e Topics.shipping shipment_created "Shipment" (
      ("shipment_id", str id)
      ∷ ("order_id", str e.aggregate_id)
      ∷ ("tracking_number", str ("TRK-" <> text_of (num (10000000 + number))))
      ∷ ("carrier", str "FEDEX")
      ∷ ("estimated_delivery", str estimated)
      ∷ ("created_at", str now)
      ∷ [])

-- The tests of the event's type.
unfoldable pub shipping_react : EventType → EventEnvelope → Bool → Exec (Unit {0})
shipping_react shipment_requested e fault = ship e fault
shipping_react _ e fault = pure tt

unfoldable pub shipping_process : EventEnvelope → Exec (Unit {0})
shipping_process e = do fault ← fails shipping; shipping_react e.event_type e fault

-- ===== src/Projection/Statements.antt =====
-- src/application/projections/projection-consumer.ts: the SQL statements of applyHistoricalEvent, which change
-- the read models.
use event_driven_kafka.Base.{ℕ, String, ◌<>◌, List, [], ◌∷◌, Option, none, some, ◌==◌}
use event_driven_kafka.Base.Table.{update_where, upsert}
use event_driven_kafka.Json.{
  Json, undefined, null, num, str, arr, nil, Items, cons, get, prop, ◌or◌, wire,
}
use event_driven_kafka.Contracts.{
  EventType, order_created, order_cancelled, payment_requested, payment_authorized,
  payment_rejected, payment_refunded, inventory_reservation_requested, inventory_reserved,
  inventory_reservation_failed, inventory_released, fraud_check_requested, fraud_approved,
  fraud_rejected, shipment_requested, shipment_created, order_completed, order_failed,
  EventEnvelope,
}
use event_driven_kafka.Database.{Db}
use event_driven_kafka.Database.ReadModels.{
  OrderView, PaymentView, InventoryView, ShipmentView, same_order, same_payment, same_shipment,
  reserve_stock, release_stock,
}
use event_driven_kafka.World.{Env, Error}
use event_driven_kafka.Exec.{Sql}

-- A payload's value as the parameter of a text column.
abbrev pub column : Env → String → EventEnvelope → Option String
column env k e = env.pg_text (get k e.payload)

-- UPDATE order_read_model SET … WHERE order_id = $1
abbrev pub update_order : EventEnvelope → (Env → OrderView → OrderView) → Sql
update_order e change env now db = some (record db {
  order_read_model =
      update_where (λ r. r.order_id == e.aggregate_id) (change env) db.order_read_model;
})

abbrev pub set_status : EventEnvelope → String → OrderView → OrderView
set_status e status r = record r { status = status; updated_at = e.occurred_at }

abbrev pub fail_order : EventEnvelope → String → Sql
fail_order e status =
    update_order e
      λ env r. record (set_status e status r) { failure_reason = column env "reason" e }

abbrev pub replace_view : OrderView → OrderView → OrderView
replace_view r new = record r {
  status = "pending";
  total_amount = new.total_amount;
  items = new.items;
  updated_at = new.updated_at;
}

-- The row of an OrderCreated event; `none` where a column that is NOT NULL has no value.
abbrev pub view_of :
    EventEnvelope → Option String → Option String → Option String → Option OrderView
view_of e (some user_id) (some total_amount) (some currency) = some (record {
  order_id = e.aggregate_id;
  user_id = user_id;
  status = "pending";
  total_amount = total_amount;
  currency = currency;
  items = wire (get "items" e.payload or arr nil);
  payment_id = none;
  reservation_id = none;
  fraud_check_id = none;
  shipment_id = none;
  tracking_number = none;
  failure_reason = none;
  created_at = e.occurred_at;
  updated_at = e.occurred_at;
  version = 1;
})
view_of e _ _ _ = none

unfoldable pub new_view : Env → EventEnvelope → Option OrderView
new_view env e =
    view_of e (column env "user_id" e) (column env "total_amount" e)
      (env.pg_text (get "currency" e.payload or str "USD"))

abbrev pub upsert_view : Db → Option OrderView → Option Db
upsert_view db none = none
upsert_view db (some view) =
    some (record db { order_read_model = upsert same_order replace_view view db.order_read_model })

abbrev pub insert_view : EventEnvelope → Sql
insert_view e env now db = upsert_view db (new_view env e)

abbrev pub payment_of :
    Env → EventEnvelope → Option String → Option String → Option String → Option PaymentView
payment_of env e (some payment_id) (some user_id) (some amount) = some (record {
  payment_id = payment_id;
  order_id = e.aggregate_id;
  user_id = user_id;
  amount = amount;
  status = "AUTHORIZED";
  authorization_code = column env "authorization_code" e;
  refund_id = none;
  created_at = e.occurred_at;
  updated_at = e.occurred_at;
})
payment_of env e _ _ _ = none

abbrev pub authorize_again : PaymentView → PaymentView → PaymentView
authorize_again r new = record r { status = "AUTHORIZED"; updated_at = new.updated_at }

abbrev pub upsert_payment : Db → Option PaymentView → Option Db
upsert_payment db none = none
upsert_payment db (some payment) = some (record db {
  payment_read_model = upsert same_payment authorize_again payment db.payment_read_model;
})

abbrev pub insert_payment : EventEnvelope → Sql
insert_payment e env now db = upsert_payment db (
    payment_of env e (column env "payment_id" e)
      (env.pg_text (get "user_id" e.payload or str "usr_anonymous")) (column env "amount" e))

abbrev pub refund_payment : EventEnvelope → Sql
refund_payment e env now db = some (record db {
  payment_read_model =
      update_where (λ r. r.order_id == e.aggregate_id)
        (λ r. record r {
          status = "REFUNDED";
          refund_id = env.pg_text (get "refund_id" e.payload or str ("ref_" <> e.aggregate_id));
          updated_at = e.occurred_at;
        })
        db.payment_read_model;
})

abbrev pub shipment_of :
    Env → EventEnvelope → Option String → Option String → Option String → Option ShipmentView
shipment_of env e (some shipment_id) (some tracking_number) (some carrier) = some (record {
  shipment_id = shipment_id;
  order_id = e.aggregate_id;
  tracking_number = tracking_number;
  carrier = carrier;
  status = "CREATED";
  estimated_delivery = column env "estimated_delivery" e;
  created_at = e.occurred_at;
  updated_at = e.occurred_at;
})
shipment_of env e _ _ _ = none

abbrev pub create_again : ShipmentView → ShipmentView → ShipmentView
create_again r new = record r { status = "CREATED"; updated_at = new.updated_at }

abbrev pub upsert_shipment : Db → Option ShipmentView → Option Db
upsert_shipment db none = none
upsert_shipment db (some shipment) = some (record db {
  shipment_read_model = upsert same_shipment create_again shipment db.shipment_read_model;
})

abbrev pub insert_shipment : EventEnvelope → Sql
insert_shipment e env now db = upsert_shipment db (
    shipment_of env e (column env "shipment_id" e) (column env "tracking_number" e)
      (env.pg_text (get "carrier" e.payload or str "FEDEX")))

abbrev pub set_inventory : Db → Option (List InventoryView) → Option Db
set_inventory db none = none
set_inventory db (some rows) = some (record db { inventory_read_model = rows })

-- The statement of one item; `item.quantity || 1` that is no INT is an error.
abbrev pub stock_change :
    (Option String → ℕ → String → List InventoryView → Option (List InventoryView))
    → EventEnvelope
    → Option String
    → Option ℕ
    → Db
    → Option Db
stock_change change e sku none db = none
stock_change change e sku (some quantity) db =
    set_inventory db (change sku quantity e.occurred_at db.inventory_read_model)

abbrev pub change_stock :
    (Option String → ℕ → String → List InventoryView → Option (List InventoryView))
    → EventEnvelope
    → Json
    → Sql
change_stock change e item env now db =
    stock_change change e (env.pg_text (prop "sku" item))
      (env.pg_int (prop "quantity" item or num 1)) db

-- One step of the method: a statement, or a read that throws before its statement is sent.
pub data Step : Type 0 where
  sql : Sql → Step
  throws : Error → Step

-- What a step makes of the database.
abbrev pub effect_of : Step → Sql
effect_of (sql s) = s
effect_of (throws x) = λ env now db. none

-- The TypeError of `item.quantity`; its stack is left out.
abbrev cannot_read : String → Error
cannot_read value = record {
  message = "Cannot read properties of " <> value <> " (reading 'quantity')";
  stack = none;
}

abbrev pub item_fault : Json → Option Error
item_fault undefined = some (cannot_read "undefined")
item_fault null = some (cannot_read "null")
item_fault _ = none

abbrev pub unless_fault : Option Error → Sql → Step
unless_fault none s = sql s
unless_fault (some x) s = throws x

-- `for (const item of payload.items)`, where `items` is an array.
abbrev pub each_item : (Json → Sql) → Items → List Step
each_item f nil = []
each_item f (cons i items) = unless_fault (item_fault i) (f i) ∷ each_item f items

abbrev pub for_items : (Json → Sql) → Json → List Step
for_items f (arr items) = each_item f items
for_items f _ = []

-- The statements of each case of the switch.
unfoldable pub statements_of : EventType → EventEnvelope → List Step
statements_of order_created e = sql (insert_view e) ∷ []
statements_of payment_requested e =
    sql (update_order e (λ env r. set_status e "payment_pending" r)) ∷ []
statements_of payment_authorized e =
    sql (
      update_order e (λ env r. record (set_status e "payment_approved" r) {
        payment_id = column env "payment_id" e;
      }))
    ∷ sql (insert_payment e)
    ∷ []
statements_of payment_rejected e = sql (fail_order e "payment_rejected") ∷ []
statements_of payment_refunded e = sql (refund_payment e) ∷ []
statements_of inventory_reservation_requested e =
    sql (update_order e (λ env r. set_status e "inventory_pending" r)) ∷ []
statements_of inventory_reserved e =
    sql (
      update_order e (λ env r. record (set_status e "inventory_reserved" r) {
        reservation_id = column env "reservation_id" e;
      }))
    ∷ for_items (change_stock reserve_stock e) (get "items" e.payload)
statements_of inventory_released e =
    for_items (change_stock release_stock e) (get "items" e.payload)
statements_of inventory_reservation_failed e = sql (fail_order e "inventory_failed") ∷ []
statements_of fraud_check_requested e =
    sql (update_order e (λ env r. set_status e "fraud_pending" r)) ∷ []
statements_of fraud_approved e =
    sql (
      update_order e (λ env r. record (set_status e "fraud_approved" r) {
        fraud_check_id = column env "fraud_check_id" e;
      }))
    ∷ []
statements_of fraud_rejected e = sql (fail_order e "fraud_rejected") ∷ []
statements_of shipment_requested e =
    sql (update_order e (λ env r. set_status e "shipping_pending" r)) ∷ []
statements_of shipment_created e =
    sql (
      update_order e (λ env r. record (set_status e "shipping_created" r) {
        shipment_id = column env "shipment_id" e;
        tracking_number = column env "tracking_number" e;
      }))
    ∷ sql (insert_shipment e)
    ∷ []
statements_of order_completed e = sql (update_order e (λ env r. set_status e "completed" r)) ∷ []
statements_of order_cancelled e = sql (fail_order e "cancelled") ∷ []
statements_of order_failed e = sql (fail_order e "failed") ∷ []
statements_of _ e = []

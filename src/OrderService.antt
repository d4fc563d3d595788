-- ===== src/OrderService.antt =====
-- src/services/order-service.ts; the user id and the items are what the caller gives. The sweep of the relay that
-- createOrder starts and does not wait for is a later step of the relay; logging is left out.
pub mod Atomic
use event_driven_kafka.Base.{ℕ, ◌+◌, ◌*◌, String, ◌<>◌, [], ◌∷◌, Option, none, some}
use event_driven_kafka.Json.{
  Json, num, str, arr, obj, nil, Items, cons, end, field, prop, text_of, ◌or◌, wire_fields,
}
use event_driven_kafka.Contracts.{order_created, text_or}
use event_driven_kafka.Contracts.Topics
use event_driven_kafka.Database.{Db}
use event_driven_kafka.Database.Orders.{OrderRow, insert_order}
use event_driven_kafka.Database.Outbox.{OutboxEvent, insert_outbox_event}
use event_driven_kafka.Exec.{
  Exec, pure, gets, ◌>>◌, statement, attempt, with_transaction, short_id, ◌>>=◌,
}
use event_driven_kafka.Emit.{object}

pub record OrderOptions : Type 0 where
  pub correlation_id : Option String
  pub causation_id : Option String
  pub currency : Json

abbrev amount : Json → ℕ
amount (num n) = n
amount _ = 0

-- items.reduce((sum, item) => sum + item.price * item.quantity, sum), where prices and quantities are
-- numbers, as the type OrderItem says.
unfoldable pub add_prices : ℕ → Items → ℕ
add_prices sum nil = sum
add_prices sum (cons i items) =
    add_prices (sum + amount (prop "price" i) * amount (prop "quantity" i)) items

-- `order`
pub record NewOrder : Type 0 where
  pub id : String
  pub user_id : Json
  pub items : Items
  pub status : String
  pub total_amount : ℕ
  pub created_at : ℕ
  pub updated_at : ℕ

abbrev pub new_order : String → Json → Items → ℕ → NewOrder
new_order id user items now = record {
  id = id;
  user_id = user;
  items = items;
  status = "pending";
  total_amount = add_prices 0 items;
  created_at = now;
  updated_at = now;
}

-- The argument of insertOutboxEvent, without its id.
abbrev pub order_created_event : String → Json → Items → OrderOptions → OutboxEvent
order_created_event id user items options = record {
  aggregate_id = id;
  aggregate_type = "Order";
  event_type = order_created;
  event_version = 1;
  payload = object (
      ("order_id", str id)
      ∷ ("user_id", user)
      ∷ ("items", arr items)
      ∷ ("total_amount", num (add_prices 0 items))
      ∷ ("currency", options.currency or str "USD")
      ∷ ("shipping_address", obj (field "country" (str "US") end))
      ∷ []);
  correlation_id = text_or options.correlation_id ("corr_" <> id);
  causation_id = text_or options.causation_id ("cmd_" <> id);
  topic = Topics.orders;
}

-- The row that insertOrder inserts; `none` where there is no user id, which is NOT NULL.
abbrev pub row_of : NewOrder → Option String → Option OrderRow
row_of order none = none
row_of order (some user) = some (record {
  id = order.id;
  user_id = user;
  status = order.status;
  total_amount = text_of (num order.total_amount);
  metadata = wire_fields (field "items" (arr order.items) end);
  created_at = order.created_at;
  updated_at = order.updated_at;
})

abbrev pub set_order : Db → Option OrderRow → Option Db
set_order db none = none
set_order db (some row) = some (record db { orders = insert_order row db.orders })

abbrev pub store_order : NewOrder → Exec (Unit {0})
store_order order = attempt λ env now db. set_order db (row_of order (env.pg_text order.user_id))

abbrev pub store_event : String → OutboxEvent → Exec (Unit {0})
store_event id event = statement λ now db.
    (tt, record db { outbox_events = insert_outbox_event id event (some 1) now db.outbox_events })

unfoldable pub create_order : Json → Items → OrderOptions → Exec NewOrder
create_order user items options = do
  id ← short_id "ord_"
  event_id ← short_id "evt_"
  now ← gets (λ w. w.clock)
  with_transaction (
      store_order (new_order id user items now)
      >> store_event event_id (order_created_event id user items options))
  pure (new_order id user items now)

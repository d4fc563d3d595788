-- ===== src/Queries.antt =====
-- src/services/database.ts: the methods that make several queries, or change several tables.
use event_driven_kafka.Base.{
  ℕ, String, Bool, List, [], ◌∷◌, map, Option, none, some, ◌==◌, take, where_rows,
}
use event_driven_kafka.Base.Sorted.{sort_rows}
use event_driven_kafka.Contracts.{EventEnvelope}
use event_driven_kafka.Database.EventStore.{
  OrderEvent, get_events_by_aggregate_id, timeline_of_store, timeline_of_events, recorded_earlier,
  of_aggregate, earlier,
}
use event_driven_kafka.Database.Orders.{
  Order, OrderRow, order_of_view, map_order_row, find_order_row, newest_views, newest_rows,
}
use event_driven_kafka.Database.ReadModels.{
  OrderView, find_order, delete_order_views, delete_payment_views, delete_shipment_views,
  delete_applied_events,
}
use event_driven_kafka.World.{Env}
use event_driven_kafka.Exec.{Exec, pure, gets, query, statement, ◌>>=◌, ◌>>◌}

unfoldable pub get_events : String → Exec (List EventEnvelope)
get_events a = do
  env ← gets (λ w. w.env)
  query (λ db. get_events_by_aggregate_id env.stored_time a db.event_store)

-- resetReadModelForAggregate: four statements, in no transaction.
unfoldable pub reset_read_model_for_aggregate : String → Exec (Unit {0})
reset_read_model_for_aggregate a = do
  statement
      (λ now db. (tt, record db { order_read_model = delete_order_views a db.order_read_model }))
  statement (λ now db.
      (tt, record db { payment_read_model = delete_payment_views a db.payment_read_model }))
  statement (λ now db.
      (tt, record db { shipment_read_model = delete_shipment_views a db.shipment_read_model }))
  statement (λ now db. (
    tt,
    record db { projection_applied_events = delete_applied_events a db.projection_applied_events },
  ))

abbrev pub option_map : (OrderRow → Order) → Option OrderRow → Option Order
option_map f none = none
option_map f (some r) = some (f r)

abbrev pub legacy_order : String → Env → Option OrderView → Exec (Option Order)
legacy_order id env (some r) = pure (some (order_of_view env.stored_time r))
legacy_order id env none = do
  row ← query (λ db. find_order_row id db.orders)
  pure (option_map (map_order_row env.iso) row)

-- getOrder: the read model first, and orders where it has no row.
unfoldable pub get_order : String → Exec (Option Order)
get_order id = do
  env ← gets (λ w. w.env)
  view ← query (λ db. find_order id db.order_read_model)
  legacy_order id env view

abbrev legacy_events : String → Env → List OrderEvent → Exec (List OrderEvent)
legacy_events a env (e ∷ es) = pure (e ∷ es)
legacy_events a env [] = query λ db.
    timeline_of_events env.iso
      (sort_rows recorded_earlier (where_rows (λ r. r.order_id == a) db.order_events))

-- getOrderEvents: the event store first, and order_events where it has no event.
unfoldable pub get_order_events : String → Exec (List OrderEvent)
get_order_events a = do
  env ← gets (λ w. w.env)
  events ←
      query (λ db.
        timeline_of_store env.stored_time (sort_rows earlier (of_aggregate a db.event_store)))
  legacy_events a env events

module _ (later : String → String → Bool) where
  abbrev legacy_orders : ℕ → Env → List Order → Exec (List Order)
  legacy_orders limit env (o ∷ os) = pure (o ∷ os)
  legacy_orders limit env [] =
      query (λ db. map (map_order_row env.iso) (take limit (newest_rows db.orders)))

  -- listOrders: the read model first, and orders where it is empty. `later` compares TIMESTAMPs.
  unfoldable pub list_orders : ℕ → Exec (List Order)
  list_orders limit = do
    env ← gets (λ w. w.env)
    orders ← query (λ db.
        map (order_of_view env.stored_time) (take limit (newest_views later db.order_read_model)))
    legacy_orders limit env orders

-- ===== src/Http/Queries.antt =====
-- src/app.ts, the routes that read: orders, sagas and dead letters. `limit` and `status` are what the query
-- string gives. Where a row is missing the answer is 404, where a query fails it is 500.
use event_driven_kafka.Base.{
  ℕ, String, Bool, List, [], map, Option, none, some, ◌||◌, ◌==◌, ◌=?◌, length, if◌then◌else◌,
}
use event_driven_kafka.Json.{Json}
use event_driven_kafka.Contracts.{EventEnvelope}
use event_driven_kafka.Database.Dlq.{
  DlqStatus, unresolved, replaying, replayed, discarded, DlqRow, list_dlq_messages, get_dlq_message,
}
use event_driven_kafka.Database.EventStore.{OrderEvent}
use event_driven_kafka.Database.Orders.{Order}
use event_driven_kafka.Database.Sagas.{
  SagaState, SagaRow, list_sagas, get_saga_instance, get_saga_by_aggregate_id,
}
use event_driven_kafka.Exec.{Exec, pure, gets, ◌>>=◌, query, try_catch}
use event_driven_kafka.Http.{Response, Answer, value, fails_with}
use event_driven_kafka.Queries.{get_events, get_order, get_order_events, list_orders}

abbrev pub answers {ℓ} : {A : Type ℓ} → A → Response (Answer A)
answers a = record { status = 200; body = value a }

-- A route's `try` block, and its `catch` block.
abbrev pub guarded {ℓ} :
    {A : Type ℓ} → String → Exec (Response (Answer A)) → Exec (Response (Answer A))
guarded message m = try_catch m (λ e. pure (fails_with 500 message))

-- Number(req.query.limit) || 50
abbrev pub limit_in : Json → Exec ℕ
limit_in limit = gets λ w. let n = w.env.number limit in if n =? 0 then 50 else n

-- What GET /orders shows of an order.
pub record OrderSummary : Type 0 where
  pub order_id : String
  pub user_id : String
  pub status : String
  pub total_amount : String
  pub items : Json
  pub created_at : String

abbrev pub summary_of : Order → OrderSummary
summary_of o = record {
  order_id = o.id;
  user_id = o.user_id;
  status = o.status;
  total_amount = o.total_amount;
  items = o.items;
  created_at = o.created_at;
}

pub record Listing {ℓ} (A : Type ℓ) : Type ℓ where
  pub total : ℕ
  pub rows : List A

abbrev pub listing {ℓ} : {A : Type ℓ} → List A → Listing A
listing rows = record { total = length rows; rows = rows }

module _ (later : String → String → Bool) where
  unfoldable pub get_orders : Json → Exec (Response (Answer (Listing OrderSummary)))
  get_orders limit = guarded "Failed to list orders" do
    n ← limit_in limit
    orders ← list_orders later n
    pure (answers (record { total = length orders; rows = map summary_of orders }))

-- What GET /orders/:order_id shows.
pub record OrderDetails : Type 0 where
  pub order : Order
  pub saga_state : Option SagaState
  pub events : List OrderEvent

abbrev pub state_of : Option SagaRow → Option SagaState
state_of none = none
state_of (some s) = some s.state

abbrev pub show_order : Option Order → Exec (Response (Answer OrderDetails))
show_order none = pure (fails_with 404 "Order not found")
show_order (some order) = do
  events ← get_order_events order.id
  saga ← query (λ db. get_saga_by_aggregate_id order.id db.saga_instances)
  pure (answers (record { order = order; saga_state = state_of saga; events = events }))

unfoldable pub get_order_details : String → Exec (Response (Answer OrderDetails))
get_order_details id = guarded "Failed to fetch order" (get_order id >>= show_order)

-- GET /orders/:order_id/events and GET /orders/:order_id/timeline
unfoldable pub get_order_log : String → Exec (Response (Answer (Listing EventEnvelope)))
get_order_log id =
    guarded "Failed to fetch order events"
      (get_events id >>= λ events. pure (answers (listing events)))

unfoldable pub get_order_timeline : String → Exec (Response (Answer (List OrderEvent)))
get_order_timeline id =
    guarded "Failed to fetch timeline" (get_order_events id >>= λ events. pure (answers events))

unfoldable pub get_sagas : Json → Exec (Response (Answer (Listing SagaRow)))
get_sagas limit = guarded "Failed to list sagas" do
  n ← limit_in limit
  sagas ← query (λ db. list_sagas n db.saga_instances)
  pure (answers (listing sagas))

abbrev pub or_missing {ℓ} : {A : Type ℓ} → String → Option A → Response (Answer A)
or_missing message none = fails_with 404 message
or_missing message (some a) = answers a

unfoldable pub get_saga : String → Exec (Response (Answer SagaRow))
get_saga id = guarded "Failed to fetch saga" (
    query (λ db. get_saga_instance id db.saga_instances) >>= λ saga.
    pure (or_missing "Saga not found" saga))

-- req.query.status || 'UNRESOLVED'; no row has another status than the four.
abbrev pub status_named : String → Option DlqStatus
status_named s =
    if s == "" || s == "UNRESOLVED"
    then some unresolved
    else if s == "REPLAYING"
    then some replaying
    else if s == "REPLAYED"
    then some replayed
    else if s == "DISCARDED"
    then some discarded
    else none

abbrev pub status_in : Option String → Option DlqStatus
status_in none = some unresolved
status_in (some s) = status_named s

abbrev pub rows_with : ℕ → Option DlqStatus → List DlqRow → List DlqRow
rows_with n none rows = []
rows_with n (some status) rows = list_dlq_messages n status rows

unfoldable pub get_dlq : Json → Option String → Exec (Response (Answer (Listing DlqRow)))
get_dlq limit status = guarded "Failed to fetch DLQ messages" do
  n ← limit_in limit
  messages ← query (λ db. rows_with n (status_in status) db.dlq_messages)
  pure (answers (listing messages))

unfoldable pub get_dlq_entry : String → Exec (Response (Answer DlqRow))
get_dlq_entry id = guarded "Failed to fetch DLQ message" (
    query (λ db. get_dlq_message id db.dlq_messages) >>= λ m.
    pure (or_missing "DLQ message not found" m))

-- ===== src/System/Requests.antt =====
-- The routes that store orders and start replays: they keep a condition that a new row of the outbox
-- and more messages do not break, and that does not look at the other tables.
use event_driven_kafka.Base.{ℕ, String, List, [], ◌∷◌, Option, none, some, subst}
use event_driven_kafka.Json.{Json, undefined, null, Items, prop, truthy}
use event_driven_kafka.Contracts.{EventEnvelope}
use event_driven_kafka.Database.{Db}
use event_driven_kafka.Database.Dlq.{DlqStatus, unresolved, replaying, replayed, discarded, DlqRow}
use event_driven_kafka.Database.Orders.{OrderRow}
use event_driven_kafka.Database.Outbox.{OutboxEvent, insert_outbox_event}
use event_driven_kafka.Database.ReadModels.{OrderView}
use event_driven_kafka.World.{Env, Error, Message}
use event_driven_kafka.Exec.{◌>>◌}
use event_driven_kafka.Exec.Rules.{Cond}
use event_driven_kafka.Http.{
  Check, valid, crash, malformed, check_order, answer_check, post_orders, post_dlq_replay,
  post_replay,
}
use event_driven_kafka.OrderService.{
  OrderOptions, NewOrder, row_of, set_order, store_order, store_event, create_order,
}
use event_driven_kafka.Queries.{get_events, reset_read_model_for_aggregate, legacy_order, get_order}
use event_driven_kafka.Replay.{
  apply_events, rebuild, replay_aggregate, set_status, send_original, resend, give_back, replay_row,
  replay_found, replay_dlq,
}
use event_driven_kafka.System.Frame.{
  Keeps, Grows, Fixed, IsBlind, Fixed-IsBlind, pure-Keeps, throw-Keeps, gets-Keeps, query-Keeps,
  statement-Keeps, if-Keeps, then-Keeps, try-Keeps, short_id-Keeps, send-Keeps, attempt-Keeps,
  transaction-Keeps,
}
use event_driven_kafka.System.Projections.{apply-Keeps}

-- An event may be added to the outbox.
abbrev pub Insertable : Cond → Type 0
Insertable C =
    (id : String) (event : OutboxEvent) (v : Option ℕ) (now : ℕ) (d : Db) (k : List Message)
    → C d k
    → C (record d { outbox_events = insert_outbox_event id event v now d.outbox_events }) k

module _ (C : Cond) (b : IsBlind C) where
  store_order-Keeps : (order : NewOrder) → Keeps C (store_order order)
  store_order-Keeps order = attempt-Keeps C _ λ env now d d' k e c.
      subst (λ o. Kept k o) e (stored d k (row_of order (env.pg_text order.user_id)) c)
    where
      Kept : List Message → Option Db → Type 0
      Kept k none = Unit
      Kept k (some d) = C d k

      stored : (d : Db) (k : List Message) (o : Option OrderRow) → C d k → Kept k (set_order d o)
      stored d k none c = tt
      stored d k (some r) c = b.orders d k _ c

module _ (C : Cond) (b : IsBlind C) where
  get_order-Keeps : (a : String) → Keeps C (get_order a)
  unfolding get_order
  get_order-Keeps a =
      then-Keeps C _ _ (gets-Keeps C _)
        (λ env. then-Keeps C _ _ (query-Keeps C _) (λ o. legacy env o))
    where
      legacy : (env : Env) (o : Option OrderView) → Keeps C (legacy_order a env o)
      legacy env (some r) = pure-Keeps C _
      legacy env none = then-Keeps C _ _ (query-Keeps C _) (λ row. pure-Keeps C _)

  get_events-Keeps : (a : String) → Keeps C (get_events a)
  unfolding get_events
  get_events-Keeps a = then-Keeps C _ _ (gets-Keeps C _) (λ env. query-Keeps C _)

  reset-Keeps : (a : String) → Keeps C (reset_read_model_for_aggregate a)
  unfolding reset_read_model_for_aggregate
  reset-Keeps a =
      then-Keeps C _ _ (statement-Keeps C _ (λ now d k c. b.order_read_model d k _ c)) (λ u.
        then-Keeps C _ _ (statement-Keeps C _ (λ now d k c. b.payment_read_model d k _ c)) (λ u.
          then-Keeps C _ _ (statement-Keeps C _ (λ now d k c. b.shipment_read_model d k _ c))
            (λ u. statement-Keeps C _ (λ now d k c. b.projection_applied_events d k _ c))))

  apply_events-Keeps : (es : List EventEnvelope) → Keeps C (apply_events es)
  unfolding apply_events
  apply_events-Keeps [] = pure-Keeps C tt
  apply_events-Keeps (e ∷ es) = then-Keeps C _ _ (apply-Keeps C b e) (λ u. apply_events-Keeps es)

  pub replay_aggregate-Keeps : (a : String) → Keeps C (replay_aggregate a)
  unfolding replay_aggregate rebuild
  replay_aggregate-Keeps a = then-Keeps C _ _ (gets-Keeps C _) (λ started.
      try-Keeps C _ _
        (then-Keeps C _ _ (get_events-Keeps a) (λ events. then-Keeps C _ _ (reset-Keeps a) (λ u.
          then-Keeps C _ _ (apply_events-Keeps events) (λ u.
            then-Keeps C _ _ (get_order-Keeps a)
              (λ state. then-Keeps C _ _ (gets-Keeps C _) (λ now. pure-Keeps C _))))))
        (λ x. gets-Keeps C _))

  pub post_replay-Keeps : (body : Json) → Keeps C (post_replay body)
  unfolding post_replay
  post_replay-Keeps body =
      if-Keeps C (truthy (prop "aggregate_id" body)) _ _
        (try-Keeps C _ _ (then-Keeps C _ _ (replay_aggregate-Keeps _) (λ r. pure-Keeps C _))
          (λ x. pure-Keeps C _))
        (pure-Keeps C _)

  set_status-Keeps : (id : String) (status : DlqStatus) → Keeps C (set_status id status)
  set_status-Keeps id status = statement-Keeps C _ (λ now d k c. b.dlq_messages d k _ c)

module _ (C : Cond) (b : IsBlind C) (ins : Insertable C) where
  create_order-Keeps :
      (user : Json) (items : Items) (options : OrderOptions)
      → Keeps C (create_order user items options)
  unfolding create_order
  create_order-Keeps user items options = then-Keeps C _ _ (short_id-Keeps C _) (λ id.
      then-Keeps C _ _ (short_id-Keeps C _) (λ event_id. then-Keeps C _ _ (gets-Keeps C _) (λ now.
        then-Keeps C _ _ (transaction-Keeps C _ (λ k₀. stored k₀ _ event_id _))
          (λ u. pure-Keeps C _))))
    where
      stored :
          (k₀ : List Message) (order : NewOrder) (event_id : String) (event : OutboxEvent)
          → Keeps (Fixed C k₀) (store_order order >> store_event event_id event)
      stored k₀ order event_id event =
          then-Keeps (Fixed C k₀) _ _ (store_order-Keeps (Fixed C k₀) (Fixed-IsBlind C k₀ b) order)
            (λ u.
              statement-Keeps (Fixed C k₀) _
                (λ now d k c. (ins event_id event (some 1) now d k c.0, c.1)))

  answer_check-Keeps : (c : Check) (body : Json) → Keeps C (answer_check c body)
  answer_check-Keeps (malformed message) body = pure-Keeps C _
  answer_check-Keeps crash body = pure-Keeps C _
  answer_check-Keeps valid body =
      try-Keeps C _ _ (then-Keeps C _ _ (create_order-Keeps _ _ _) (λ order. pure-Keeps C _))
        (λ x. pure-Keeps C _)

  pub post_orders-Keeps : (body : Json) → Keeps C (post_orders body)
  unfolding post_orders
  post_orders-Keeps body = answer_check-Keeps (check_order body) body

module _ (C : Cond) (b : IsBlind C) (grows : Grows C) where
  send_original-Keeps : (id : String) (row : DlqRow) (v : Json) → Keeps C (send_original id row v)
  send_original-Keeps id row undefined = throw-Keeps C _
  send_original-Keeps id row null = throw-Keeps C _
  send_original-Keeps id row _ = then-Keeps C _ _ (gets-Keeps C _) (λ now. send-Keeps C grows _)

  resend-Keeps : (id : String) (row : DlqRow) (t : ℕ) → Keeps C (resend id row t)
  unfolding resend
  resend-Keeps id row t = then-Keeps C _ _ (set_status-Keeps C b id replaying) (λ u.
      then-Keeps C _ _ (statement-Keeps C _ (λ now d k c. b.processed_events d k _ c)) (λ u.
        then-Keeps C _ _ (send_original-Keeps id row _)
          (λ u. then-Keeps C _ _ (set_status-Keeps C b id replayed) (λ u. gets-Keeps C _))))

  give_back-Keeps :
      (id : String) (row : DlqRow) (t : ℕ) (x : Error) → Keeps C (give_back id row t x)
  give_back-Keeps id row t x =
      then-Keeps C _ _ (try-Keeps C _ _ (set_status-Keeps C b id unresolved) (λ y. pure-Keeps C tt))
        (λ u. gets-Keeps C _)

  replay_row-Keeps :
      (id : String) (t : ℕ) (s : DlqStatus) (row : DlqRow) → Keeps C (replay_row id t s row)
  replay_row-Keeps id t discarded row = throw-Keeps C _
  replay_row-Keeps id t _ row =
      try-Keeps C _ _ (resend-Keeps id row t) (λ x. give_back-Keeps id row t x)

  replay_found-Keeps : (id : String) (t : ℕ) (o : Option DlqRow) → Keeps C (replay_found id t o)
  replay_found-Keeps id t none = throw-Keeps C _
  replay_found-Keeps id t (some row) = replay_row-Keeps id t row.status row

  pub post_dlq_replay-Keeps : (id : String) → Keeps C (post_dlq_replay id)
  unfolding post_dlq_replay replay_dlq
  post_dlq_replay-Keeps id =
      try-Keeps C _ _
        (then-Keeps C _ _
          (then-Keeps C _ _ (gets-Keeps C _)
            (λ started. then-Keeps C _ _ (query-Keeps C _) (λ o. replay_found-Keeps id started o)))
          (λ r. pure-Keeps C _))
        (λ x. pure-Keeps C _)

-- ===== src/System/Posted.antt =====
-- src/app.ts, POST /orders, and a sweep of src/infrastructure/outbox/outbox-relay.ts, when no call
-- fails: what the client's order has become.
use event_driven_kafka.Base.{
  ◌||◌, ℕ, ◌+◌, String, true, false, [], ◌∷◌, ◌++◌, some, ◌≡◌, refl, ap, ◌∙◌, ◌==◌,
}
use event_driven_kafka.Json.{Json, prop}
use event_driven_kafka.Contracts.Schema.{is_timestamp}
use event_driven_kafka.Contracts.{EventEnvelope, event_type_name, event_type_of}
use event_driven_kafka.Database.Leases.{same_id, keep_old, new_row, insert_pending}
use event_driven_kafka.Database.Outbox.{OutboxEvent, OutboxRow, insert_outbox_event}
use event_driven_kafka.Database.Orders.{OrderRow, insert_order}
use event_driven_kafka.World.{World, Env, Message}
use event_driven_kafka.Exec.{pure, handled, continue, ◌>>=◌, try_catch}
use event_driven_kafka.OrderService.{order_created_event, row_of}
use event_driven_kafka.OrderService.Atomic.{next_id, order_of_next}
use event_driven_kafka.Http.{value, options_in, items_in, answer_check, post_orders, refuse_order}
use event_driven_kafka.Http.Validity.{IsOrder, IsOrder-check_order}
use event_driven_kafka.Relay.{process_batch, Relay, relay_envelope, relay_message}
use event_driven_kafka.BaseConsumer.RoundTrip.{prefixed, IsValid, carried}
use event_driven_kafka.Base.Table.{upsert}
use event_driven_kafka.System.{System, order, sweep, act, run}
use event_driven_kafka.System.Journey.{calm, leased, marked, waiting, created, swept, idle}

-- The ids of the next order and of its event.
abbrev pub order_id : System → String
order_id s = next_id "ord_" s.world.drawn s.world

abbrev pub event_id : System → String
event_id s = next_id "evt_" (s.world.drawn + 1) s.world

abbrev pub event_of : Json → System → OutboxEvent
event_of body s =
    order_created_event (order_id s) (prop "user_id" body) (items_in (prop "items" body))
      (options_in body)

-- The world with the order's row, but for its event.
abbrev pub stored : System → OrderRow → World
stored s row = record s.world {
  drawn = s.world.drawn + 1 + 1;
  db = record s.world.db { orders = insert_order row s.world.db.orders };
}

-- The event's row, as the relay finds it, and the message it sends.
abbrev pub event_row : Json → System → OutboxRow
event_row body s = new_row (event_id s) (event_of body s) s.world.clock

abbrev pub order_message : Relay → Json → System → Message
order_message relay body s =
    relay_message relay s.world (leased relay s.world.clock (event_row body s))

-- The envelope that the orchestrator reads from it.
abbrev pub arrived : Relay → Json → System → EventEnvelope
arrived relay body s =
    carried (relay_envelope relay s.world.env (leased relay s.world.clock (event_row body s)))

-- A time that the program writes is one that the schema takes.
abbrev pub IsDated : Env → ℕ → Type 0
IsDated env t =
    ((env.is_datetime (env.iso t) || is_timestamp (env.iso t)) ≡ true) × ((env.iso t == "") ≡ false)

pub arrived-IsValid :
    (relay : Relay) (body : Json) (s : System)
    → IsDated s.world.env s.world.clock
    → IsValid s.world.env.is_datetime
        (relay_envelope relay s.world.env (leased relay s.world.clock (event_row body s)))
unfolding event_type_name event_type_of
arrived-IsValid relay body s dated = record {
  event_id = prefixed "evt_" _ refl;
  event_type = refl;
  known = refl;
  version = (0, refl);
  numbered = refl;
  aggregate_id = prefixed "ord_" _ refl;
  aggregate_type = refl;
  occurred_at = dated.0;
  dated = dated.1;
  producer = prefixed "outbox-relay-" _ refl;
  correlation_id = prefixed "corr_" _ refl;
  causation_id = prefixed "cmd_" _ refl;
  schema_version = (0, refl);
}

-- The world after the sweep.
abbrev pub sent : Relay → Json → OrderRow → System → World
sent relay body row s = record (calm (stored s row)) {
  db = record (stored s row).db { outbox_events = marked relay s.world.clock (event_row body s) };
  kafka = s.world.kafka ++ order_message relay body s ∷ [];
}

module _ (relay : Relay) (n : ℕ) (body : Json) (s : System) (row : OrderRow)
    (request : IsOrder body)
    (taken : row_of
        (order_of_next (prop "user_id" body) (items_in (prop "items" body)) s.world)
        (s.world.env.pg_text (prop "user_id" body))
      ≡ some row)
    (empty : s.world.db.outbox_events ≡ []) where
  ordered : (post_orders body (calm s.world)).1 ≡ waiting (stored s row) (event_row body s)
  unfolding post_orders try_catch ◌>>=◌ insert_outbox_event insert_pending
  ordered =
      ap (λ c. (answer_check c body (calm s.world)).1) (IsOrder-check_order body request)
      ∙ ap
          (λ r.
            (handled refuse_order
              (continue r.0 (λ order. pure (record { status = 202; body = value order })) r.1)).1)
          (created _ _ (options_in body) s.world row taken)
      ∙ ap
          (λ rows. record (calm (stored s row)) {
            db = record (stored s row).db {
              outbox_events = upsert same_id keep_old (event_row body s) rows;
            };
          })
          empty

  pub relayed :
      run ((order body, []) ∷ (sweep (idle relay n), []) ∷ []) s
      ≡ record s { world = sent relay body row s }
  unfolding run act relay_message
  relayed =
      ap (λ w. record s { world = (process_batch (idle relay n) (calm w)).1 }) ordered
      ∙ ap (λ w. record s { world = w }) (swept relay (stored s row) n _ _ _)

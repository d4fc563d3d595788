-- ===== src/System/Arrival.antt =====
-- src/index.ts: an order that a client posts, until src/saga/saga-orchestrator.ts asks for its
-- payment.
use event_driven_kafka.Base.{ℕ, suc, true, false, [], ◌∷◌, ◌++◌, none, some, ◌≡◌, refl, ap, ◌∙◌}
use event_driven_kafka.Json.{Json, prop}
use event_driven_kafka.Contracts.{EventEnvelope}
use event_driven_kafka.Database.Orders.{OrderRow}
use event_driven_kafka.Database.Sagas.{saga_row, get_saga_by_aggregate_id}
use event_driven_kafka.Database.Processed.{is_event_processed}
use event_driven_kafka.World.{World, Message}
use event_driven_kafka.Exec.{ok}
use event_driven_kafka.OrderService.{row_of}
use event_driven_kafka.OrderService.Atomic.{order_of_next}
use event_driven_kafka.Http.{items_in}
use event_driven_kafka.Http.Validity.{IsOrder}
use event_driven_kafka.Relay.{Relay}
use event_driven_kafka.BaseConsumer.{Delivery, handle_message, read_envelope}
use event_driven_kafka.BaseConsumer.RoundTrip.{read_relayed_envelope}
use event_driven_kafka.BaseConsumer.Handled.{
  marked_processed, handle_message-settled, seen, settled,
}
use event_driven_kafka.Saga.{process_event, started_saga}
use event_driven_kafka.Saga.Rows.{IsSagaTable}
use event_driven_kafka.Saga.Faults.{started_found}
use event_driven_kafka.System.{
  System, order, sweep, deliver, saga, act, facing, run, consume, handler,
}
use event_driven_kafka.System.Journey.{begun, calm, leased, first_step, idle, Requests}
use event_driven_kafka.System.Posted.{
  order_id, event_id, event_row, order_message, arrived, IsDated, arrived-IsValid, sent, relayed,
}

-- The orchestrator's consumer takes the message.
module _ (relay : Relay) (body : Json) (s : System) (k : ℕ) (row : OrderRow) (d : Delivery)
    (dated : IsDated s.world.env s.world.clock) (sagas : IsSagaTable s.world.db.saga_instances)
    (unstarted : get_saga_by_aggregate_id (order_id s) s.world.db.saga_instances ≡ none)
    (unhandled : is_event_processed
        (event_id s)
        (s.consumers saga).consumer_name
        s.world.db.processed_events
      ≡ false)
    (retries : (s.consumers saga).max_retries ≡ suc k)
    (value : d.value ≡ (order_message relay body s).value) where
  abbrev before : World
  before = record (sent relay body row s) { consumer = s.consumers saga }

  abbrev e : EventEnvelope
  e = arrived relay body s

  read : read_envelope d.value (seen before) ≡ (ok e, seen before)
  read =
      ap (λ v. read_envelope v (seen before)) value
      ∙ read_relayed_envelope relay (leased relay s.world.clock (event_row body s)) s.world
          (seen before) (arrived-IsValid relay body s dated)

  taken_up :
      (c : Message) × Requests (order_id s) c
      × (handle_message process_event d (calm before)
          ≡ (ok tt, settled e (begun e (seen before) c)))
  taken_up =
      let (c, done, asks) = first_step e (seen before) refl unstarted in
      (
        c,
        asks,
        handle_message-settled process_event d e before (begun e (seen before) c) done k read
            retries unhandled,
      )

  -- Take a process whose outbox is empty, whose saga ids are distinct and made from the orders' ids, whose
  -- orchestrator makes one attempt or more, and whose clock shows a time that the schema of
  -- envelopes takes; and a request with a user, whose id the table of orders takes, and a list of
  -- one or more items, each with a sku, a name, a numeric price and a numeric quantity. The next
  -- order's id has no saga, and the orchestrator has not marked the next event's id as processed.
  -- When the request, a sweep of an idle relay and the orchestrator's handling of a message with
  -- the value that the relay sends run one after the other and no call fails, Kafka gets the
  -- relay's message and one more, a PaymentRequested command on the payments topic with the
  -- order's id as its key; the order's saga is found as OrderCreated starts it, in
  -- PAYMENT_PENDING; and the orchestrator has marked the event as processed.
  pub order_reaches_payment :
      (n : ℕ)
      → IsOrder body
      → row_of
          (order_of_next (prop "user_id" body) (items_in (prop "items" body)) s.world)
          (s.world.env.pg_text (prop "user_id" body))
        ≡ some row
      → s.world.db.outbox_events ≡ []
      → let after : System =
          run ((order body, []) ∷ (sweep (idle relay n), []) ∷ (deliver saga d, []) ∷ []) s in
        (c : Message) × (after.world.kafka
          ≡ (s.world.kafka ++ order_message relay body s ∷ []) ++ c ∷ [])
        × Requests (order_id s) c
        × (get_saga_by_aggregate_id (order_id s) after.world.db.saga_instances
            ≡ some (saga_row s.world.clock (started_saga none (arrived relay body s))))
        × (is_event_processed
              (event_id s)
              (s.consumers saga).consumer_name
              after.world.db.processed_events
            ≡ true)
  unfolding run act consume handler
  order_reaches_payment n request taken empty =
      let (c, asks, done) = taken_up in
      let ran : (run ((order body, []) ∷ (sweep (idle relay n), []) ∷ (deliver saga d, []) ∷ [])
            s).world
          ≡ settled e (begun e (seen before) c) =
        ap (λ s. (consume saga d (facing [] s)).world)
          (relayed relay n body s row request taken empty)
        ∙ ap (λ r. r.1) done in
      (
        c,
        ap (λ w. w.kafka) ran,
        asks,
        ap (λ w. get_saga_by_aggregate_id (order_id s) w.db.saga_instances) ran
            ∙ started_found e s.world.clock s.world.db.saga_instances sagas unstarted,
        ap
              (λ w.
                is_event_processed (event_id s) (s.consumers saga).consumer_name
                  w.db.processed_events)
              ran
            ∙ marked_processed _ _ _ _,
      )

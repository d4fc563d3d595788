-- ===== src/System/Journey.antt =====
-- An order on its way through the process when no call fails: the request, the sweep of the relay, and
-- the orchestrator's handling of the message that the relay sends.
use event_driven_kafka.Base.{
  ℕ, zero, suc, ◌+◌, String, true, false, List, [], ◌∷◌, ◌++◌, none, some, ◌≡◌, refl, ap, ◌∙◌,
  arith, ◌==◌, ◌&&◌, eq_refl, any,
}
use event_driven_kafka.Json.{Json, Items}
use event_driven_kafka.Contracts.{EventEnvelope, event_type_name, payment_requested, order_created}
use event_driven_kafka.Contracts.Topics
use event_driven_kafka.Database.Leases.{new_row, lease, claim, claimed_ids}
use event_driven_kafka.Database.Outbox.{
  OutboxEvent, OutboxRow, get_pending_outbox_events, mark_outbox_event_published,
}
use event_driven_kafka.Database.Orders.{OrderRow}
use event_driven_kafka.Database.Sagas.{save_saga_instance, get_saga_by_aggregate_id}
use event_driven_kafka.World.{World, Message}
use event_driven_kafka.Exec.{
  ok, ◌>>=◌, call, query, statement, attempt, with_transaction, send, fresh_uuid, short_id,
  try_catch,
}
use event_driven_kafka.Emit.{emit, draw_event_id, drawn_event_id, message_of}
use event_driven_kafka.OrderService.{OrderOptions, row_of, create_order}
use event_driven_kafka.OrderService.Atomic.{order_of_next, accepted}
use event_driven_kafka.Relay.{Relay, relay_message, process_batch, publish_all, publish_event}
use event_driven_kafka.Saga.{started_saga, command_for, on_order_created, react, process_event}
use event_driven_kafka.Saga.Barrier.{save, command}

abbrev pub calm : World → World
calm w = record w { outcomes = [] }

-- createOrder, for a user id that the table takes.
pub created :
    (user : Json) (items : Items) (options : OrderOptions) (w : World) (row : OrderRow)
    → row_of (order_of_next user items w) (w.env.pg_text user) ≡ some row
    → create_order user items options (calm w) ≡ (
      ok (order_of_next user items w),
      record (calm w) { drawn = w.drawn + 1 + 1; db = accepted user items options w row },
    )
unfolding create_order short_id with_transaction attempt statement call ◌>>=◌
created user items options w row h = rw h refl

-- A relay that is not sweeping, with a batch size of one or more.
abbrev pub idle : Relay → ℕ → Relay
idle relay n = record relay { is_processing = false; batch_size = suc n }

abbrev pub leased : Relay → ℕ → OutboxRow → OutboxRow
leased relay now row = lease relay.worker_id relay.lease_duration_seconds now row

abbrev pub marked : Relay → ℕ → OutboxRow → List OutboxRow
marked relay now row =
    (mark_outbox_event_published row.id (some relay.worker_id) now (leased relay now row ∷ [])).1

abbrev pub waiting : World → OutboxRow → World
waiting w row = record (calm w) { db = record w.db { outbox_events = row ∷ [] } }

claimed_one :
    (worker : String) (seconds now n : ℕ) (id : String) (event : OutboxEvent) (t : ℕ)
    → let row : OutboxRow = lease worker seconds now (new_row id event t) in
      get_pending_outbox_events (suc n) worker seconds now (new_row id event t ∷ [])
      ≡ (row ∷ [], row ∷ [])
unfolding get_pending_outbox_events claim claimed_ids
claimed_one worker seconds now zero id event t = ground (arith, eq_refl id)
claimed_one worker seconds now (suc n) id event t = ground (arith, eq_refl id)

-- A sweep over one waiting row.
pub swept :
    (relay : Relay) (w : World) (n : ℕ) (id : String) (event : OutboxEvent) (t : ℕ)
    → let row : OutboxRow = new_row id event t in
      (process_batch (idle relay n) (waiting w row)).1 ≡ record (calm w) {
        db = record w.db { outbox_events = marked relay w.clock row };
        kafka = w.kafka ++ relay_message relay w (leased relay w.clock row) ∷ [];
      }
unfolding process_batch publish_all publish_event statement call send try_catch ◌>>=◌ relay_message
swept relay w n id event t =
    rw (claimed_one relay.worker_id relay.lease_duration_seconds w.clock n id event t) refl

-- What the orchestrator makes of OrderCreated for an order that has no saga.
abbrev pub begun : EventEnvelope → World → Message → World
begun e w c = record (calm w) {
  db = record w.db {
    saga_instances = save_saga_instance (started_saga none e) w.clock w.db.saga_instances;
  };
  kafka = w.kafka ++ c ∷ [];
  drawn = w.drawn + 1;
}

abbrev pub Requests : String → Message → Type 0
Requests order c =
    (c.topic ≡ Topics.payments)
    × (c.key ≡ order)
    × (any (λ h. h.0 == "event-type" && h.1 == event_type_name payment_requested) c.headers ≡ true)

first_react :
    (e : EventEnvelope) (w : World)
    → (c : Message) × (react order_created none e (calm w) ≡ (ok tt, begun e w c))
      × Requests e.aggregate_id c
unfolding react on_order_created command_for save command statement call send emit draw_event_id
    drawn_event_id fresh_uuid message_of ◌>>=◌
first_react e w = (_, refl, (refl, refl, rw (eq_refl (event_type_name payment_requested)) refl))

pub first_step :
    (e : EventEnvelope) (w : World)
    → e.event_type ≡ order_created
    → get_saga_by_aggregate_id e.aggregate_id w.db.saga_instances ≡ none
    → (c : Message) × (process_event e (calm w) ≡ (ok tt, begun e w c)) × Requests e.aggregate_id c
unfolding process_event query call ◌>>=◌
first_step e w t absent =
    let (c, done, asks) = first_react e w in
    (
      c,
      ap (λ o. react e.event_type o e (calm w)) absent ∙ ap (λ t. react t none e (calm w)) t ∙ done,
      asks,
    )

-- ===== src/System/Invariants.antt =====
-- src/index.ts, the whole process: what every run leaves true of the sagas, the event store and the
-- outbox.
use event_driven_kafka.Base.{
  append_assoc, ℕ, Option, String, true, List, [], ◌∷◌, ◌++◌, some, ◌≡◌, refl, sym, subst, ap, ◌∙◌,
  inl, inr, arith, any, Bool-cases, All,
}
use event_driven_kafka.Base.Distinct.{All-weaken}
use event_driven_kafka.Base.Table.{All-upsert}
use event_driven_kafka.Contracts.{EventEnvelope}
use event_driven_kafka.Database.{Db}
use event_driven_kafka.Database.EventStore.{
  EventRow, has_event, event_row, sequence_for, same_sequence, insert_event,
}
use event_driven_kafka.Database.EventStore.Log.{IsLog, insert_event-IsLog}
use event_driven_kafka.Database.Leases.{published, same_id, keep_old, insert_pending}
use event_driven_kafka.Database.Outbox.{OutboxEvent, OutboxRow, insert_outbox_event}
use event_driven_kafka.Database.Sagas.{SagaState, payment_pending, SagaRow}
use event_driven_kafka.World.{Outcome, Message}
use event_driven_kafka.Exec.Rules.{Cond}
use event_driven_kafka.Relay.Safety.{AllSent, is_sent, append-AllSent, process_batch-Sound}
use event_driven_kafka.Saga.Progress.{process_event-Reached}
use event_driven_kafka.Saga.Rows.{IsSagaTable, Edge, RowStep, Evolves}
use event_driven_kafka.Saga.Steps.{IsSettled}
use event_driven_kafka.System.{Action, System, run}
use event_driven_kafka.System.Frame.{IsBlind}
use event_driven_kafka.System.Orchestrator.{process_event-Keeps}
use event_driven_kafka.System.Runs.{IsStable, run-Now}
use event_driven_kafka.System.Sweeps.{process_batch-Keeps}

-- Any number of moves along the diagram.
pub data Moves : SagaState → SagaState → Type 0 where
  stay : {s : SagaState} → Moves s s
  move : {s t u : SagaState} → Moves s t → Edge t u → Moves s u

-- No saga is lost, each moves along the diagram, and a new one has begun with its payment.
abbrev pub Onward : List SagaRow → List SagaRow → Type 0
Onward [] rows = All (λ s. Moves payment_pending s.state) rows
Onward (r ∷ rows) [] = ⊥
Onward (r ∷ rows) (s ∷ rows') =
    ((s.saga_id ≡ r.saga_id) × (s.aggregate_id ≡ r.aggregate_id) × Moves r.state s.state)
    × Onward rows rows'

Onward-refl : (rows : List SagaRow) → Onward rows rows
Onward-refl [] = tt
Onward-refl (r ∷ rows) = ((refl, refl, stay), Onward-refl rows)

moved_on :
    (a : String) (p : SagaState) (r s : SagaRow) → Moves p r.state → RowStep a r s → Moves p s.state
moved_on a p r s m (inl e) = subst (λ r. Moves p r.state) e m
moved_on a p r s m (inr e) = move m e.4

new-Onward :
    (a : String) (rows rows' : List SagaRow)
    → Onward [] rows
    → Evolves a rows rows'
    → Onward [] rows'
new-Onward a [] rows' o e =
    All-weaken (λ s. (s.aggregate_id ≡ a) × (s.state ≡ payment_pending))
      (λ s. Moves payment_pending s.state)
      (λ s h. subst (λ t. Moves payment_pending t) (sym h.1) stay) rows' e
new-Onward a (r ∷ rows) [] o e = absurd e
new-Onward a (r ∷ rows) (s ∷ rows') o e =
    (moved_on a payment_pending r s o.0 e.0, new-Onward a rows rows' o.1 e.1)

same_order :
    (a : String) (r s : SagaRow)
    → RowStep a r s
    → (s.saga_id ≡ r.saga_id) × (s.aggregate_id ≡ r.aggregate_id)
same_order a r s (inl e) = (ap (λ x. x.saga_id) (sym e), ap (λ x. x.aggregate_id) (sym e))
same_order a r s (inr e) = (e.2, e.1 ∙ sym e.0)

Onward-Evolves :
    (a : String) (before rows rows' : List SagaRow)
    → Onward before rows
    → Evolves a rows rows'
    → Onward before rows'
Onward-Evolves a [] rows rows' o e = new-Onward a rows rows' o e
Onward-Evolves a (q ∷ before) [] rows' o e = absurd o
Onward-Evolves a (q ∷ before) (r ∷ rows) [] o e = absurd e
Onward-Evolves a (q ∷ before) (r ∷ rows) (s ∷ rows') o e =
    let (i, g) = same_order a r s e.0 in
    (
      (i ∙ o.0.0, g ∙ o.0.1, moved_on a q.state r s o.0.2 e.0),
      Onward-Evolves a before rows rows' o.1 e.1,
    )

-- Conditions on the sagas alone, on the event store alone, and on the outbox and Kafka.
pub record SagasFrom (before rows : List SagaRow) : Type 0 where
  pub table : IsSagaTable rows
  pub settled : All IsSettled rows
  pub onward : Onward before rows

pub record LogFrom (before rows : List EventRow) : Type 0 where
  pub log : IsLog rows
  pub added : List EventRow
  pub prefix : rows ≡ before ++ added

append-nil : (rows : List EventRow) → rows ++ [] ≡ rows
append-nil [] = refl
append-nil (r ∷ rows) = ap (λ rows. r ∷ rows) (append-nil rows)

append_added :
    (e : EventEnvelope) (rows after : List EventRow)
    → insert_event e rows ≡ some after
    → (added : List EventRow) × (after ≡ rows ++ added)
unfolding insert_event
append_added e rows after p = elim (Bool-cases (has_event e.event_id rows)) [
  | inl known ↦ ([], ground (arith, p, known) ∙ sym (append-nil rows))
  | inr fresh ↦ elim (Bool-cases (any (same_sequence new) rows)) [
    | inl clash ↦ absurd (ground (arith, fresh, clash, p))
    | inr free ↦ (new ∷ [], ground (arith, fresh, free, p))
  ]
]
  where
    new : EventRow
    new = event_row e (sequence_for e.sequence_number e.aggregate_id rows)

append-LogFrom :
    (before : List EventRow) (e : EventEnvelope) (rows after : List EventRow)
    → insert_event e rows ≡ some after
    → LogFrom before rows
    → LogFrom before after
append-LogFrom before e rows after p l =
    let (more, q) = append_added e rows after p in
    record {
      log = insert_event-IsLog e rows after l.log p;
      added = l.added ++ more;
      prefix = q ∙ ap (λ r. r ++ more) l.prefix ∙ append_assoc before l.added more;
    }

insert-AllSent :
    (id : String) (event : OutboxEvent) (v : Option ℕ) (now : ℕ) (rows : List OutboxRow)
    (k : List Message)
    → AllSent rows k
    → AllSent (insert_outbox_event id event v now rows) k
unfolding insert_outbox_event insert_pending
insert-AllSent id event v now rows k h =
    All-upsert (λ r. r.status ≡ published → is_sent r.id k ≡ true) same_id keep_old _ (λ r e f. f)
      (λ p. absurd (ground (arith, p))) rows h

abbrev SagaCond : List SagaRow → Cond
SagaCond before d k = SagasFrom before d.saga_instances

abbrev LogCond : List EventRow → Cond
LogCond before d k = LogFrom before d.event_store

abbrev SentCond : Cond
SentCond d k = AllSent d.outbox_events k

frame-IsBlind :
    (G : List SagaRow → List EventRow → List OutboxRow → List Message → Type 0)
    → IsBlind (λ d k. G d.saga_instances d.event_store d.outbox_events k)
frame-IsBlind G = record {
  processed_events = λ d k x c. c;
  dlq_messages = λ d k x c. c;
  dlq_outbox = λ d k x c. c;
  orders = λ d k x c. c;
  order_events = λ d k x c. c;
  order_read_model = λ d k x c. c;
  payment_read_model = λ d k x c. c;
  inventory_read_model = λ d k x c. c;
  shipment_read_model = λ d k x c. c;
  projection_applied_events = λ d k x c. c;
}

SagaCond-IsStable : (before : List SagaRow) → IsStable (SagaCond before)
SagaCond-IsStable before = record {
  blind = frame-IsBlind (λ sagas events outbox k. SagasFrom before sagas);
  grows = λ d k m c. c;
  appendable = λ e d k rows p c. c;
  insertable = λ id event v now d k c. c;
  swept = process_batch-Keeps (SagaCond before) (λ d k m c. c) (λ d k x c. c);
  orchestrated = λ e n. record {
    at = λ w c.
        let r = process_event-Reached e w n c.table c.settled in
        record {
          table = r.table;
          settled = r.settled;
          onward = Onward-Evolves e.aggregate_id before w.db.saga_instances _ c.onward r.evolves;
        };
  };
}

LogCond-IsStable : (before : List EventRow) → IsStable (LogCond before)
LogCond-IsStable before = record {
  blind = frame-IsBlind (λ sagas events outbox k. LogFrom before events);
  grows = λ d k m c. c;
  appendable = λ e d k rows p c. append-LogFrom before e d.event_store rows p c;
  insertable = λ id event v now d k c. c;
  swept = process_batch-Keeps (LogCond before) (λ d k m c. c) (λ d k x c. c);
  orchestrated = λ e n. process_event-Keeps (LogCond before) (λ d k x c. c) (λ d k m c. c) e;
}

SentCond-IsStable : IsStable SentCond
SentCond-IsStable = record {
  blind = frame-IsBlind (λ sagas events outbox k. AllSent outbox k);
  grows = λ d k m c. append-AllSent d.outbox_events k m c;
  appendable = λ e d k rows p c. c;
  insertable = λ id event v now d k c. insert-AllSent id event v now d.outbox_events k c;
  swept = process_batch-Sound;
  orchestrated = λ e n.
      process_event-Keeps SentCond (λ d k x c. c) (λ d k m c. append-AllSent d.outbox_events k m c)
        e;
}

-- The saga ids are distinct and made from the orders' ids, every saga that is cancelled has completed
-- its compensations, event ids and sequence numbers are unique, and every event that the outbox
-- has as published was sent.
pub record IsSafe (d : Db) (k : List Message) : Type 0 where
  pub sagas : IsSagaTable d.saga_instances
  pub settled : All IsSettled d.saga_instances
  pub log : IsLog d.event_store
  pub sent : AllSent d.outbox_events k

-- No saga is lost, and no event is lost or changed.
pub record Continues (before after : Db) : Type 0 where
  pub onward : Onward before.saga_instances after.saga_instances
  pub added : List EventRow
  pub prefix : after.event_store ≡ before.event_store ++ added

-- From a safe state, every run of the whole process leaves a safe state: whatever requests come, in
-- whatever order, however often and to whichever consumer messages are delivered, be they the
-- system's own or not, whichever relays sweep, and whatever calls of the database and of Kafka are
-- refused or lose their acknowledgement. Over the run every saga moves only along the diagram, a
-- saga that is new began with its payment pending, and the event store only grows at its end.
pub run-IsSafe :
    (actions : List (Action × List Outcome)) (t : System)
    → IsSafe t.world.db t.world.kafka
    → let u = run actions t in IsSafe u.world.db u.world.kafka × Continues t.world.db u.world.db
run-IsSafe actions t s =
    let sagas =
      run-Now (SagaCond t.world.db.saga_instances) (SagaCond-IsStable t.world.db.saga_instances)
        actions t
        (record {
          table = s.sagas;
          settled = s.settled;
          onward = Onward-refl t.world.db.saga_instances;
        }) in
    let events =
      run-Now (LogCond t.world.db.event_store) (LogCond-IsStable t.world.db.event_store) actions t
        (record { log = s.log; added = []; prefix = sym (append-nil t.world.db.event_store) }) in
    (
      record {
        sagas = sagas.table;
        settled = sagas.settled;
        log = events.log;
        sent = run-Now SentCond SentCond-IsStable actions t s.sent;
      },
      record { onward = sagas.onward; added = events.added; prefix = events.prefix },
    )

-- ===== src/Saga/Faults.antt =====
-- src/saga/saga-orchestrator.ts: events for sagas that have ended, and a send that Kafka refuses.
use event_driven_kafka.Base.{
  zero, suc, ℕ, String, false, List, [], ◌∷◌, Option, none, some, ◌≡◌, refl, ◌≢◌, sym, ap, ◌∙◌,
  subst, arith, eq_iff, All,
}
use event_driven_kafka.Base.Table.{upsert}
use event_driven_kafka.Contracts.{
  EventType, order_created, payment_authorized, payment_rejected, payment_refunded,
  inventory_reserved, inventory_reservation_failed, inventory_released, fraud_approved,
  fraud_rejected, shipment_created, shipment_failed, EventEnvelope,
}
use event_driven_kafka.Database.{Db}
use event_driven_kafka.Database.Sagas.{
  SagaState, completed, cancelled, failed, SagaRow, saga_row, same_saga, merge_saga,
  save_saga_instance, get_saga_by_aggregate_id,
}
use event_driven_kafka.World.{World, Error, Message, Outcome, done, refused}
use event_driven_kafka.Exec.{
  Result, ok, err, Exec, pure, ◌>>=◌, call, query, statement, send, fresh_uuid,
}
use event_driven_kafka.Exec.Rules.{Cond, Ensures, Ensures-bind, Ensures-query}
use event_driven_kafka.Emit.{drawn_event_id, draw_event_id, emit}
use event_driven_kafka.Saga.{
  is_created, is_payment_pending, is_inventory_pending, is_fraud_pending, is_shipping_pending,
  is_compensating, started_saga, command_for, on_order_created, on_payment_authorized,
  on_payment_rejected, on_inventory_reserved, on_inventory_failed, on_fraud_approved,
  on_fraud_rejected, on_shipment_created, on_shipment_failed, on_compensated, react, process_event,
}
use event_driven_kafka.Saga.Barrier.{save, command}
use event_driven_kafka.Saga.Rows.{IsSagaTable, found_none, no_conflict}

pub data IsTerminal : SagaState → Type 0 where
  at_completed : IsTerminal completed
  at_cancelled : IsTerminal cancelled
  at_failed : IsTerminal failed

-- No handler's guard lets the state pass.
record IsQuiet (s : SagaState) : Type 0 where
  no_start : is_created s ≡ false
  no_payment : is_payment_pending s ≡ false
  no_inventory : is_inventory_pending s ≡ false
  no_fraud : is_fraud_pending s ≡ false
  no_shipping : is_shipping_pending s ≡ false
  no_compensation : is_compensating s ≡ false

terminal-IsQuiet : (s : SagaState) → IsTerminal s → IsQuiet s
terminal-IsQuiet s at_completed = (ground arith)
terminal-IsQuiet s at_cancelled = (ground arith)
terminal-IsQuiet s at_failed = (ground arith)

react_quiet :
    (t : EventType) (saga : SagaRow) (e : EventEnvelope)
    → IsQuiet saga.state
    → react t (some saga) e ≡ pure tt
unfolding react
react_quiet order_created saga e q = unfold on_order_created in rw q.no_start
react_quiet payment_authorized saga e q = unfold on_payment_authorized in rw q.no_payment
react_quiet payment_rejected saga e q = unfold on_payment_rejected in rw q.no_payment
react_quiet inventory_reserved saga e q = unfold on_inventory_reserved in rw q.no_inventory
react_quiet inventory_reservation_failed saga e q = unfold on_inventory_failed in rw q.no_inventory
react_quiet fraud_approved saga e q = unfold on_fraud_approved in rw q.no_fraud
react_quiet fraud_rejected saga e q = unfold on_fraud_rejected in rw q.no_fraud
react_quiet shipment_created saga e q = unfold on_shipment_created in rw q.no_shipping
react_quiet shipment_failed saga e q = unfold on_shipment_failed in rw q.no_shipping
react_quiet payment_refunded saga e q = unfold on_compensated in rw q.no_compensation
react_quiet inventory_released saga e q = unfold on_compensated in rw q.no_compensation
react_quiet _ saga e q = refl

abbrev Still : Db → List Message → Cond
Still db kafka d k = (d ≡ db) × (k ≡ kafka)

terminal-Ensures :
    (e : EventEnvelope) (w : World) (saga : SagaRow)
    → get_saga_by_aggregate_id e.aggregate_id w.db.saga_instances ≡ some saga
    → IsTerminal saga.state
    → Ensures (Still w.db w.kafka) (process_event e) (λ r. Still w.db w.kafka)
unfolding process_event
terminal-Ensures e w saga found t =
    Ensures-bind _ _ Read
      (Ensures-query _
        (λ d k s. (
          s.0,
          s.1,
          ap (λ (x : Db). get_saga_by_aggregate_id e.aggregate_id x.saga_instances) s.0 ∙ found,
        ))
        (λ x d k s. s))
      (λ o. record {
        at = λ w' p.
            subst (λ o. let r = react e.event_type o e w' in Still w.db w.kafka r.1.db r.1.kafka)
              (sym p.2)
              (subst (λ (m : Exec (Unit {0})). Still w.db w.kafka (m w').1.db (m w').1.kafka)
                (sym (react_quiet e.event_type saga e (terminal-IsQuiet saga.state t))) (p.0, p.1));
      })
      (λ x d k s. s)
  where
    Read : Result (Option SagaRow) → Cond
    Read (ok o) d k = (d ≡ w.db) × (k ≡ w.kafka) × (o ≡ some saga)
    Read (err x) d k = Still w.db w.kafka d k

-- Once an order's saga is completed, cancelled or failed, no event for that order changes the
-- database or sends a message, whatever calls fail.
pub terminal_absorbs :
    (e : EventEnvelope) (w : World) (saga : SagaRow)
    → get_saga_by_aggregate_id e.aggregate_id w.db.saga_instances ≡ some saga
    → IsTerminal saga.state
    → ((process_event e w).1.db ≡ w.db) × ((process_event e w).1.kafka ≡ w.kafka)
terminal_absorbs e w saga found t = (terminal-Ensures e w saga found t).at w (refl, refl)

-- The saga that was inserted is the one that is found.
found-insert :
    (a : String) (new : SagaRow) (rows : List SagaRow)
    → new.aggregate_id ≡ a
    → All (λ r. r.aggregate_id ≢ a) rows
    → All (λ r. r.saga_id ≢ new.saga_id) rows
    → get_saga_by_aggregate_id a (upsert same_saga merge_saga new rows) ≡ some new
unfolding get_saga_by_aggregate_id
found-insert a new [] g n m = rw ((eq_iff new.aggregate_id a).1 g)
found-insert a new (r ∷ rows) g n m = ground (
  arith,
  eq_iff r.saga_id new.saga_id,
  eq_iff r.aggregate_id a,
  n.0,
  m.0,
  found-insert a new rows g n.1 m.1,
)

-- The saga that OrderCreated starts, where the order has none.
pub started_found :
    (e : EventEnvelope) (now : ℕ) (rows : List SagaRow)
    → IsSagaTable rows
    → get_saga_by_aggregate_id e.aggregate_id rows ≡ none
    → get_saga_by_aggregate_id e.aggregate_id (save_saga_instance (started_saga none e) now rows)
      ≡ some (saga_row now (started_saga none e))
unfolding save_saga_instance
started_found e now rows v n =
    found-insert e.aggregate_id (saga_row now (started_saga none e)) rows refl
      (found_none e.aggregate_id rows n) (no_conflict e.aggregate_id rows v n)

-- A world in which the next calls end in these outcomes.
abbrev pub facing : List Outcome → World → World
facing os w = record w { outcomes = os }

-- The event is handled once with its read and its save done and its send refused, and then
-- again and again with no failure.
abbrev pub first_try : EventEnvelope → Error → World → Result (Unit {0}) × World
first_try e x w = process_event e (facing (done ∷ done ∷ refused x ∷ []) w)

-- The event is handled `n` times.
abbrev pub handled_times : ℕ → EventEnvelope → World → World
handled_times zero e w = w
handled_times (suc n) e w = handled_times n e (process_event e w).1

abbrev pub later_tries : ℕ → EventEnvelope → Error → World → Result (Unit {0}) × World
later_tries n e x w = process_event e (handled_times n e (first_try e x w).1)

first_try_lem :
    (e : EventEnvelope) (x : Error) (w : World)
    → e.event_type ≡ order_created
    → get_saga_by_aggregate_id e.aggregate_id w.db.saga_instances ≡ none
    → ((first_try e x w).0 ≡ err x)
      × ((first_try e x w).1.kafka ≡ w.kafka)
      × ((first_try e x w).1.outcomes ≡ [])
      × ((first_try e x w).1.db.saga_instances
          ≡ save_saga_instance (started_saga none e) w.clock w.db.saga_instances)
unfolding process_event query call statement save command_for command emit draw_event_id
    drawn_event_id send fresh_uuid react on_order_created ◌>>=◌
first_try_lem e x w t n = ground (arith, t, n)

settled : (os : List Outcome) (w : World) → w.outcomes ≡ os → w ≡ facing os w
settled os w o = ap (λ os. facing os w) o

second_try_lem :
    (e : EventEnvelope) (now : ℕ) (w : World)
    → e.event_type ≡ order_created
    → get_saga_by_aggregate_id e.aggregate_id w.db.saga_instances
      ≡ some (saga_row now (started_saga none e))
    → process_event e (facing [] w) ≡ (ok tt, facing [] w)
unfolding process_event query call react on_order_created ◌>>=◌
second_try_lem e now w t g =
    subst (λ o. react e.event_type o e (facing [] w) ≡ (ok tt, facing [] w)) (sym g)
      (subst
        (λ t.
          react t (some (saga_row now (started_saga none e))) e (facing [] w)
          ≡ (ok tt, facing [] w))
        (sym t) refl)

steady :
    (n : ℕ) (e : EventEnvelope) (w : World)
    → process_event e w ≡ (ok tt, w)
    → handled_times n e w ≡ w
steady zero e w p = refl
steady (suc n) e w p = ap (λ r. handled_times n e r.1) p ∙ steady n e w p

-- The saga ids are distinct and made from the orders' ids, and the order has no saga yet. When its
-- OrderCreated event is handled, and the saga is saved but Kafka refuses the payment command, the
-- method throws and sends nothing. However often the same event is then handled with no failure,
-- the method succeeds and sends nothing, while the saga stays in PAYMENT_PENDING.
pub lost_command :
    (n : ℕ) (e : EventEnvelope) (x : Error) (w : World)
    → IsSagaTable w.db.saga_instances
    → e.event_type ≡ order_created
    → get_saga_by_aggregate_id e.aggregate_id w.db.saga_instances ≡ none
    → ((first_try e x w).0 ≡ err x)
      × ((later_tries n e x w).0 ≡ ok tt)
      × ((later_tries n e x w).1.kafka ≡ w.kafka)
      × (get_saga_by_aggregate_id e.aggregate_id (later_tries n e x w).1.db.saga_instances
          ≡ some (saga_row w.clock (started_saga none e)))
lost_command n e x w v t absent =
    let (thrown, silent, calm, rows) = first_try_lem e x w t absent in
    let w₁ : World = (first_try e x w).1 in
    let row : SagaRow = saga_row w.clock (started_saga none e) in
    let found : get_saga_by_aggregate_id e.aggregate_id w₁.db.saga_instances ≡ some row =
      ap (get_saga_by_aggregate_id e.aggregate_id) rows
      ∙ started_found e w.clock w.db.saga_instances v absent in
    let again : process_event e w₁ ≡ (ok tt, w₁) =
      subst (λ w. process_event e w ≡ (ok tt, w)) (sym (settled [] w₁ calm))
        (second_try_lem e w.clock w₁ t found) in
    let all : later_tries n e x w ≡ (ok tt, w₁) =
      ap (process_event e) (steady n e w₁ again) ∙ again in
    (
      thrown,
      ap (λ r. r.0) all,
      ap (λ r. r.1.kafka) all ∙ silent,
      ap (λ r. get_saga_by_aggregate_id e.aggregate_id r.1.db.saga_instances) all ∙ found,
    )

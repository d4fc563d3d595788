-- ===== src/System/Orchestrator.antt =====
-- The saga orchestrator changes no table but saga_instances: it keeps a condition that neither that
-- table nor more messages break.
use event_driven_kafka.Base.{
  String, Bool, true, false, List, Option, none, some, not, if◌then◌else◌,
}
use event_driven_kafka.Json.{Json, Fields}
use event_driven_kafka.Contracts.{
  EventType, order_created, payment_authorized, payment_rejected, payment_refunded,
  inventory_reserved, inventory_reservation_failed, inventory_released, fraud_approved,
  fraud_rejected, shipment_created, shipment_failed, EventEnvelope,
}
use event_driven_kafka.Database.{Db}
use event_driven_kafka.Database.Sagas.{SagaState, compensating, SagaContext, SagaRow, SagaInstance}
use event_driven_kafka.World.{Message}
use event_driven_kafka.Exec.{Exec, pure, ◌>>◌}
use event_driven_kafka.Exec.Rules.{Cond}
use event_driven_kafka.Saga.{
  already_started, move_saga, command_for, on_order_created, on_payment_authorized,
  on_payment_rejected, on_inventory_reserved, on_inventory_failed, on_fraud_approved,
  release_and_refund, on_fraud_rejected, on_shipment_created, on_shipment_failed, on_compensated,
  react, process_event,
}
use event_driven_kafka.Saga.Barrier.{
  save, command, pass_barrier, guarded_barrier, execute_barrier_update, Cancellation,
  emit_cancelled, handle_compensation_completion,
}
use event_driven_kafka.System.Frame.{
  Keeps, Grows, Fixed, pure-Keeps, gets-Keeps, query-Keeps, statement-Keeps, if-Keeps, then-Keeps,
  emit-Keeps, transaction-Keeps,
}

abbrev pub SagasFree : Cond → Type 0
SagasFree C =
    (d : Db) (k : List Message) (x : List SagaRow) → C d k → C (record d { saga_instances = x }) k

module _ (C : Cond) (free : SagasFree C) where
  save-Keeps : (s : SagaInstance) → Keeps C (save s)
  unfolding save
  save-Keeps s = statement-Keeps C _ (λ now d k c. free d k _ c)

  pass_barrier-Keeps :
      (saga : SagaRow) (order action correlation : String)
      → Keeps C (pass_barrier saga order action correlation)
  unfolding pass_barrier
  pass_barrier-Keeps saga order action correlation =
      then-Keeps C _ _ (save-Keeps _) (λ u. pure-Keeps C _)

  guarded_barrier-Keeps :
      (state : SagaState) (saga : SagaRow) (order action correlation : String)
      → Keeps C (guarded_barrier state saga order action correlation)
  guarded_barrier-Keeps compensating saga order action correlation = pass_barrier-Keeps _ _ _ _
  guarded_barrier-Keeps _ saga order action correlation = pure-Keeps C _

  barrier_update-Keeps :
      (saga : SagaRow) (order action correlation : String)
      → Keeps C (execute_barrier_update saga order action correlation)
  unfolding execute_barrier_update
  barrier_update-Keeps saga order action correlation =
      then-Keeps C _ _ (query-Keeps C _) (λ locked. guarded_barrier-Keeps _ _ _ _ _)

module _ (C : Cond) (free : SagasFree C) (grows : Grows C) where
  command-Keeps :
      (topic : String) (t : EventType) (order kind correlation cause : String) (payload : Fields)
      → Keeps C (command topic t order kind correlation cause payload)
  unfolding command
  command-Keeps topic t order kind correlation cause payload =
      then-Keeps C _ _ (emit-Keeps C grows _) (λ e. pure-Keeps C tt)

  cancelled-Keeps :
      (order event correlation : String) (o : Option Cancellation)
      → Keeps C (emit_cancelled order event correlation o)
  unfolding emit_cancelled
  cancelled-Keeps order event correlation none = pure-Keeps C tt
  cancelled-Keeps order event correlation (some c) =
      then-Keeps C _ _ (gets-Keeps C _) (λ now. command-Keeps _ _ _ _ _ _ _)

  completion-Keeps :
      (saga : SagaRow) (ctx : SagaContext) (action event correlation : String)
      → Keeps C (handle_compensation_completion saga ctx action event correlation)
  unfolding handle_compensation_completion
  completion-Keeps saga ctx action event correlation =
      then-Keeps C _ _
        (transaction-Keeps C _ (λ k₀.
          barrier_update-Keeps (Fixed C k₀) (λ d k x c. (free d k x c.0, c.1)) saga _ action _))
        (λ o. cancelled-Keeps _ _ _ o)

  module _ (e : EventEnvelope) where
    asked :
        (t : EventType) (topic kind : String) (payload : List (String × Json))
        → Keeps C (command_for e topic t kind payload)
    unfolding command_for
    asked t topic kind payload = command-Keeps _ _ _ _ _ _ _

    release_and_refund-Keeps :
        (ctx : SagaContext) (reason : String) → Keeps C (release_and_refund e ctx reason)
    unfolding release_and_refund
    release_and_refund-Keeps ctx reason =
        then-Keeps C _ _ (gets-Keeps C _)
          (λ now. then-Keeps C _ _ (asked _ _ _ _) (λ u. asked _ _ _ _))

    -- A handler that returns where its guard fails, and else saves and goes on.
    guarded :
        (guard : Bool) (m : Exec (Unit {0}))
        → Keeps C m
        → Keeps C (if not guard then pure tt else m)
    guarded true m h = h
    guarded false m h = pure-Keeps C tt

    moved :
        (saga : SagaRow) (state : SagaState) (step : String) (ctx : SagaContext)
        (reason : Option String) (rest : Exec (Unit {0}))
        → Keeps C rest
        → Keeps C (move_saga saga e state step ctx reason >> rest)
    unfolding move_saga
    moved saga state step ctx reason rest h = then-Keeps C _ _ (save-Keeps C free _) (λ u. h)

    order_created-Keeps : (o : Option SagaRow) → Keeps C (on_order_created o e)
    unfolding on_order_created
    order_created-Keeps o =
        if-Keeps C (already_started o) _ _ (pure-Keeps C tt)
          (then-Keeps C _ _ (save-Keeps C free _) (λ u. asked _ _ _ _))

    present-Keeps : (t : EventType) (saga : SagaRow) → Keeps C (react t (some saga) e)
    unfolding react on_payment_authorized on_payment_rejected on_inventory_reserved
        on_inventory_failed on_fraud_approved on_fraud_rejected on_shipment_created
        on_shipment_failed on_compensated
    present-Keeps order_created saga = order_created-Keeps (some saga)
    present-Keeps payment_authorized saga = guarded _ _ (moved saga _ _ _ _ _ (asked _ _ _ _))
    present-Keeps payment_rejected saga =
        guarded _ _
          (moved saga _ _ _ _ _ (then-Keeps C _ _ (gets-Keeps C _) (λ now. asked _ _ _ _)))
    present-Keeps inventory_reserved saga = guarded _ _ (moved saga _ _ _ _ _ (asked _ _ _ _))
    present-Keeps inventory_reservation_failed saga =
        guarded _ _ (moved saga _ _ _ _ _ (asked _ _ _ _))
    present-Keeps fraud_approved saga = guarded _ _ (moved saga _ _ _ _ _ (asked _ _ _ _))
    present-Keeps fraud_rejected saga =
        guarded _ _ (moved saga _ _ _ _ _ (release_and_refund-Keeps _ _))
    present-Keeps shipment_created saga = guarded _ _ (
        then-Keeps C _ _ (gets-Keeps C _)
          (λ now. moved saga _ _ _ _ _ (then-Keeps C _ _ (asked _ _ _ _) (λ u. asked _ _ _ _))))
    present-Keeps shipment_failed saga =
        guarded _ _ (moved saga _ _ _ _ _ (release_and_refund-Keeps _ _))
    present-Keeps payment_refunded saga = guarded _ _ (completion-Keeps _ _ _ _ _)
    present-Keeps inventory_released saga = guarded _ _ (completion-Keeps _ _ _ _ _)
    present-Keeps _ saga = pure-Keeps C tt

    absent-Keeps : (t : EventType) → Keeps C (react t none e)
    unfolding react
    absent-Keeps order_created = order_created-Keeps none
    absent-Keeps payment_authorized = pure-Keeps C tt
    absent-Keeps _ = pure-Keeps C tt

    react-Keeps : (t : EventType) (o : Option SagaRow) → Keeps C (react t o e)
    react-Keeps t (some saga) = present-Keeps t saga
    react-Keeps t none = absent-Keeps t

    pub process_event-Keeps : Keeps C (process_event e)
    unfolding process_event
    process_event-Keeps = then-Keeps C _ _ (query-Keeps C _) (λ o. react-Keeps e.event_type o)

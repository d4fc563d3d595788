-- ===== src/Saga/Barrier.antt =====
-- src/saga/saga-orchestrator.ts: how the orchestrator saves an instance and emits a command, and
-- handleCompensationCompletion, the barrier where a saga waits for its compensations. The database service has withTransaction and the locking read, so
-- the fallbacks for a service that lacks them are left out.
use event_driven_kafka.Base.{
  String, ◌<>◌, Bool, true, false, List, [], ◌∷◌, ◌++◌, Option, none, some, ◌==◌, any, all,
  if◌then◌else◌,
}
use event_driven_kafka.Json.{Json, str, arr, Fields, ◌or◌, text_of, strings}
use event_driven_kafka.Contracts.{EventType, order_cancelled, text_or}
use event_driven_kafka.Contracts.Topics
use event_driven_kafka.Chaos.{given}
use event_driven_kafka.Database.Processed.{or_null}
use event_driven_kafka.Database.Sagas.{
  SagaState, compensating, cancelled, SagaContext, SagaRow, SagaInstance, save_saga_instance,
  get_saga_by_aggregate_id,
}
use event_driven_kafka.Exec.{Exec, pure, ◌>>=◌, ◌>>◌, query, statement, with_transaction, now_iso}
use event_driven_kafka.Emit.{emit, object}

unfoldable pub save : SagaInstance → Exec (Unit {0})
save s =
    statement
      λ now db. (tt, record db { saga_instances = save_saga_instance s now db.saga_instances })

-- `emit` for an order, caused by an event; the envelope that it returns is not used.
unfoldable pub command :
    String → EventType → String → String → String → String → Fields → Exec (Unit {0})
command topic event_type order_id aggregate_type correlation_id causation_id payload = do
  envelope ← emit (record {
    topic = topic;
    event_type = event_type;
    aggregate_id = order_id;
    aggregate_type = aggregate_type;
    payload = payload;
    correlation_id = correlation_id;
    causation_id = causation_id;
    event_id = none;
  })
  pure tt

abbrev pub includes : List String → String → Bool
includes xs x = any (λ y. y == x) xs

-- `if (!completedList.includes(action)) completedList.push(action)`
abbrev pub completed_with : SagaContext → String → List String
completed_with ctx action =
    let list = given ctx.compensations_completed [] in
    if includes list action then list else list ++ action ∷ []

abbrev pub pending_list : SagaContext → List String
pending_list ctx = given ctx.compensations_pending ("PAYMENT_REFUND" ∷ [])

-- The context with the action recorded, and whether nothing is pending any more.
unfoldable pub complete_action : SagaContext → String → SagaContext × Bool
complete_action ctx action =
    let completed = completed_with ctx action in
    (
      record ctx { compensations_completed = some completed },
      all (includes completed) (pending_list ctx),
    )

-- What the barrier update leaves for the emission after the transaction.
pub record Cancellation : Type 0 where
  pub completed_list : List String
  pub failure_reason : String
  pub user_id : Json

abbrev pub barrier_instance : SagaRow → String → String → String → SagaContext × Bool → SagaInstance
barrier_instance current order_id action correlation_id (ctx, finished) = record {
  saga_id = text_or (some current.saga_id) ("saga_" <> order_id);
  aggregate_id = order_id;
  saga_type = text_or (some current.saga_type) "ORDER_FULFILLMENT";
  state = if finished then cancelled else compensating;
  current_step = if finished then "TERMINAL_CANCELLED" else "COMPENSATING_WAITING_" <> action;
  correlation_id = correlation_id;
  context = ctx;
  failure_reason = or_null current.failure_reason;
}

abbrev pub cancellation_of : SagaRow → String → Bool → Option Cancellation
cancellation_of current action false = none
cancellation_of current action true = some (record {
  completed_list = completed_with current.context action;
  failure_reason =
      text_or (or_null current.failure_reason) "Order cancelled after full compensation";
  user_id = current.context.user_id or str "unknown";
})

-- The part of executeBarrierUpdate below the two guards.
unfoldable pub pass_barrier : SagaRow → String → String → String → Exec (Option Cancellation)
pass_barrier current order_id action correlation_id =
    let (ctx, finished) = complete_action current.context action in
    do
      save (barrier_instance current order_id action correlation_id (ctx, finished))
      pure (cancellation_of current action finished)

-- The guards: only a saga that is compensating is updated.
abbrev pub guarded_barrier :
    SagaState → SagaRow → String → String → String → Exec (Option Cancellation)
guarded_barrier compensating current order_id action correlation_id =
    pass_barrier current order_id action correlation_id
guarded_barrier _ current order_id action correlation_id = pure none

-- executeBarrierUpdate: the row is read again under lock, and the row that was read before is used
-- only where there is none.
unfoldable pub execute_barrier_update :
    SagaRow → String → String → String → Exec (Option Cancellation)
execute_barrier_update saga order_id action correlation_id = do
  locked ← query (λ db. get_saga_by_aggregate_id order_id db.saga_instances)
  let current = given locked saga
  guarded_barrier current.state current order_id action correlation_id

unfoldable pub emit_cancelled : String → String → String → Option Cancellation → Exec (Unit {0})
emit_cancelled order_id event_id correlation_id none = pure tt
emit_cancelled order_id event_id correlation_id (some c) = do
  now ← now_iso
  command Topics.orders order_cancelled order_id "Order" correlation_id event_id (
      object (
        ("order_id", str order_id)
        ∷ ("user_id", c.user_id)
        ∷ ("reason", str c.failure_reason)
        ∷ ("cancelled_at", str now)
        ∷ ("compensated_steps", arr (strings c.completed_list))
        ∷ []))

unfoldable pub handle_compensation_completion :
    SagaRow → SagaContext → String → String → String → Exec (Unit {0})
handle_compensation_completion saga context action event_id correlation_id =
    let order_id =
      if saga.aggregate_id == "" then text_of context.order_id else saga.aggregate_id in
    do
      cancellation ← with_transaction (execute_barrier_update saga order_id action correlation_id)
      emit_cancelled order_id event_id correlation_id cancellation

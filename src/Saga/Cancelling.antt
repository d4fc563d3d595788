-- ===== src/Saga/Cancelling.antt =====
-- src/saga/saga-orchestrator.ts, handleCompensationCompletion: what it leaves when no call fails.
use event_driven_kafka.Base.{
  ◌+◌, String, ◌<>◌, Bool, true, false, List, [], ◌∷◌, ◌++◌, some, ◌≡◌, refl, sym, ◌∙◌, subst, ◌==◌,
  ◌&&◌, eq_refl, any,
}
use event_driven_kafka.Contracts.{
  text_or, EventEnvelope, EventType, event_type_name, order_cancelled,
}
use event_driven_kafka.Database.Sagas.{
  SagaState, compensating, cancelled, SagaRow, SagaInstance, SagaContext, save_saga_instance,
  saga_row, merge_saga, get_saga_by_aggregate_id,
}
use event_driven_kafka.Database.Processed.{or_null}
use event_driven_kafka.Json.{str, ◌or◌}
use event_driven_kafka.World.{World, Message}
use event_driven_kafka.Exec.{
  Result, ok, ◌>>=◌, call, query, statement, send, fresh_uuid, with_transaction,
}
use event_driven_kafka.Emit.{emit, draw_event_id, drawn_event_id, message_of}
use event_driven_kafka.BaseConsumer.RoundTrip.{prefixed}
use event_driven_kafka.Saga.{on_compensated}
use event_driven_kafka.Saga.Barrier.{
  Cancellation, completed_with, save, command, complete_action, barrier_instance, pass_barrier,
  execute_barrier_update, emit_cancelled, handle_compensation_completion,
}
use event_driven_kafka.Saga.Found.{found_save}
use event_driven_kafka.Saga.Moves.{Commands}
use mathlib.Core.List.{append-nil}
use event_driven_kafka.Saga.Rows.{IsSagaTable, save-IsSagaTable}

-- The saga of the order has this state and this context, and these events were sent.
pub record Has (a : String) (s : SagaState) (ctx : SagaContext) (ts : List EventType) (w : World)
    (r : Result (Unit {0}) × World) : Type 0 where
  pub row : SagaRow
  pub messages : List Message
  pub succeeded : r.0 ≡ ok tt
  pub calm : r.1.outcomes ≡ []
  pub table : IsSagaTable r.1.db.saga_instances
  pub found : get_saga_by_aggregate_id a r.1.db.saga_instances ≡ some row
  pub state : row.state ≡ s
  pub context : row.context ≡ ctx
  pub sent : r.1.kafka ≡ w.kafka ++ messages
  pub commands : Commands a ts messages

abbrev pub calmed : World → World
calmed w = record w { outcomes = [] }

abbrev Cancels : String → Message → Type 0
Cancels a m =
    (m.key ≡ a)
    × (any (λ h. h.0 == "event-type" && h.1 == event_type_name order_cancelled) m.headers ≡ true)

-- What the barrier leaves for OrderCancelled.
abbrev the_cancellation : SagaRow → String → Cancellation
the_cancellation saga action = record {
  completed_list = completed_with saga.context action;
  failure_reason = text_or (or_null saga.failure_reason) "Order cancelled after full compensation";
  user_id = saga.context.user_id or str "unknown";
}

announced :
    (order cause correlation : String) (c : Cancellation) (v : World)
    → (m : Message) × (emit_cancelled order cause correlation (some c) (calmed v)
        ≡ (ok tt, record (calmed v) { kafka = v.kafka ++ m ∷ []; drawn = v.drawn + 1 }))
      × Cancels order m
unfolding emit_cancelled command call emit draw_event_id drawn_event_id fresh_uuid send message_of
    ◌>>=◌
announced order cause correlation c v =
    (_, refl, (refl, rw (eq_refl (event_type_name order_cancelled)) refl))

module _ (a : String) (e : EventEnvelope) (saga : SagaRow) (action : String) (w : World)
    (named : (a == "") ≡ false) (of_order : saga.aggregate_id ≡ a)
    (own : saga.saga_id ≡ "saga_" <> a) (waiting : saga.state ≡ compensating)
    (table : IsSagaTable w.db.saga_instances)
    (found : get_saga_by_aggregate_id a w.db.saga_instances ≡ some saga) where
  abbrev saved : Bool → SagaContext → SagaInstance
  saved b ctx = barrier_instance saga a action e.correlation_id (ctx, b)

  same_id : (b : Bool) (ctx : SagaContext) → (saved b ctx).saga_id ≡ saga.saga_id
  same_id b ctx = rw own (rw (prefixed "saga_" a refl) refl)

  abbrev stored : Bool → SagaContext → World
  stored b ctx = record (calmed w) {
    db = record w.db {
      saga_instances = save_saga_instance (saved b ctx) w.clock w.db.saga_instances;
    };
  }

  open_barrier :
      (ctx : SagaContext)
      → complete_action saga.context action ≡ (ctx, false)
      → on_compensated action saga e (calmed w) ≡ (ok tt, stored false ctx)
  unfolding on_compensated handle_compensation_completion execute_barrier_update pass_barrier
      with_transaction query call statement save emit_cancelled ◌>>=◌
  open_barrier ctx q = rw (waiting, of_order) (rw named (rw found (rw waiting (rw q refl))))

  pub stays :
      (ctx : SagaContext)
      → complete_action saga.context action ≡ (ctx, false)
      → Has a compensating ctx [] w (on_compensated action saga e (calmed w))
  stays ctx q = subst (Has a compensating ctx [] w) (sym (open_barrier ctx q)) (record {
    row = merge_saga saga (saga_row w.clock (saved false ctx));
    messages = [];
    succeeded = refl;
    calm = refl;
    table =
        save-IsSagaTable (saved false ctx) w.clock w.db.saga_instances (same_id false ctx ∙ own)
          table;
    found =
        found_save a saga (saved false ctx) w.clock w.db.saga_instances table found
          (same_id false ctx);
    state = refl;
    context = refl;
    sent = sym (append-nil w.kafka);
    commands = tt;
  })

  closes :
      (ctx : SagaContext)
      → complete_action saga.context action ≡ (ctx, true)
      → (m : Message) × (on_compensated action saga e (calmed w)
          ≡ (ok tt, record (stored true ctx) { kafka = w.kafka ++ m ∷ []; drawn = w.drawn + 1 }))
        × Cancels a m
  unfolding on_compensated handle_compensation_completion execute_barrier_update pass_barrier
      with_transaction query call statement save ◌>>=◌
  closes ctx q =
      let (m, done, told) =
        announced a e.event_id e.correlation_id (the_cancellation saga action) (stored true ctx) in
      (m, rw (waiting, of_order) (rw named (rw found (rw waiting (rw q done)))), told)

  pub cancels :
      (ctx : SagaContext)
      → complete_action saga.context action ≡ (ctx, true)
      → Has a cancelled ctx (order_cancelled ∷ []) w (on_compensated action saga e (calmed w))
  cancels ctx q =
      let (m, done, told) = closes ctx q in
      subst (Has a cancelled ctx (order_cancelled ∷ []) w) (sym done) (record {
        row = merge_saga saga (saga_row w.clock (saved true ctx));
        messages = m ∷ [];
        succeeded = refl;
        calm = refl;
        table =
            save-IsSagaTable (saved true ctx) w.clock w.db.saga_instances (same_id true ctx ∙ own)
              table;
        found =
            found_save a saga (saved true ctx) w.clock w.db.saga_instances table found
              (same_id true ctx);
        state = refl;
        context = refl;
        sent = refl;
        commands = (told, tt);
      })

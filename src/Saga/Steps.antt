-- ===== src/Saga/Steps.antt =====
-- One condition on the saga table that every handler of the orchestrator ends in, whatever calls fail,
-- and the rules that establish it.
use event_driven_kafka.Base.{
  ℕ, String, ◌<>◌, true, List, [], Option, none, some, ◌≡◌, sym, ap, ◌∙◌, ◌==◌, all, All,
}
use event_driven_kafka.Base.Table.{All-upsert}
use event_driven_kafka.Json.{Fields}
use event_driven_kafka.Chaos.{given}
use event_driven_kafka.Contracts.{EventType}
use event_driven_kafka.Database.Sagas.{
  cancelled, SagaContext, SagaRow, SagaInstance, saga_row, same_saga, merge_saga,
  save_saga_instance, get_saga_by_aggregate_id,
}
use event_driven_kafka.Exec.{Exec, ◌>>=◌, ◌>>◌}
use event_driven_kafka.Exec.Rules.{
  Cond, Ensures, Ensures-pure, Ensures-gets, Ensures-bind, Ensures-send, Ensures-statement,
  Ensures-fresh_uuid, Ensures-if,
}
use event_driven_kafka.Emit.{EmitParams, drawn_event_id, draw_event_id, emit}
use event_driven_kafka.Saga.Barrier.{save, command, includes, pending_list}
use event_driven_kafka.Saga.Rows.{
  IsSagaTable, Edge, Evolves, Evolves-refl, found_row, save-Evolves, save-IsSagaTable,
}

-- Every compensation that is pending has completed.
abbrev pub Compensated : SagaContext → Type 0
Compensated ctx = all (includes (given ctx.compensations_completed [])) (pending_list ctx) ≡ true

abbrev pub IsSettled : SagaRow → Type 0
IsSettled r = r.state ≡ cancelled → Compensated r.context

pub record Reached (a : String) (before after : List SagaRow) : Type 0 where
  pub evolves : Evolves a before after
  pub table : IsSagaTable after
  pub settled : All IsSettled after

-- What a handler is given: the table, and the order's saga in it.
pub record Given (a : String) (rows : List SagaRow) (saga : SagaRow) : Type 0 where
  pub table : IsSagaTable rows
  pub settled : All IsSettled rows
  pub found : get_saga_by_aggregate_id a rows ≡ some saga

pub Reached-refl :
    (a : String) (rows : List SagaRow) → IsSagaTable rows → All IsSettled rows → Reached a rows rows
Reached-refl a rows v s = record { evolves = Evolves-refl a rows; table = v; settled = s }

pub saga_id_named :
    (a : String) (rows : List SagaRow) (saga : SagaRow)
    → Given a rows saga
    → saga.saga_id ≡ "saga_" <> a
saga_id_named a rows saga g =
    let (named, same) =
      found_row (λ r. r.saga_id ≡ "saga_" <> r.aggregate_id) a rows saga g.found g.table.named in
    named ∙ ap (λ x. "saga_" <> x) same

pub save-Reached :
    (a : String) (rows : List SagaRow) (saga : SagaRow) (s : SagaInstance) (now : ℕ)
    → Given a rows saga
    → s.saga_id ≡ saga.saga_id
    → s.aggregate_id ≡ a
    → Edge saga.state s.state
    → (s.state ≡ cancelled → Compensated s.context)
    → Reached a rows (save_saga_instance s now rows)
save-Reached a rows saga s now g i j edge c = record {
  evolves = save-Evolves a saga s now rows g.table g.found i edge;
  table =
      save-IsSagaTable s now rows (i ∙ saga_id_named a rows saga g ∙ ap (λ x. "saga_" <> x) (sym j))
        g.table;
  settled =
      unfold save_saga_instance in
      All-upsert IsSettled same_saga merge_saga (saga_row now s) (λ r e h. c) c rows g.settled;
}

-- The table is as it was read.
abbrev pub At : List SagaRow → Cond
At rows d k = d.saga_instances ≡ rows

abbrev pub Sagas : (List SagaRow → Type 0) → Cond
Sagas G d k = G d.saga_instances

abbrev pub Keeps {ℓ} : {A : Type ℓ} → (List SagaRow → Type 0) → Exec A → Type 0
Keeps G m = Ensures (Sagas G) m (λ r. Sagas G)

module _ (G : List SagaRow → Type 0) where
  drawn_event_id-Keeps : Keeps G drawn_event_id
  unfolding drawn_event_id
  drawn_event_id-Keeps =
      Ensures-bind _ _ (λ r. Sagas G) (Ensures-fresh_uuid (λ s d k h. h))
        (λ s. Ensures-pure _ (λ d k h. h)) (λ e d k h. h)

  draw_event_id-Keeps : (o : Option String) → Keeps G (draw_event_id o)
  unfolding draw_event_id
  draw_event_id-Keeps none = drawn_event_id-Keeps
  draw_event_id-Keeps (some s) =
      Ensures-if (s == "") _ _ (λ e. drawn_event_id-Keeps) (λ e. Ensures-pure s (λ d k h. h))

  pub emit-Keeps : (p : EmitParams) → Keeps G (emit p)
  unfolding emit
  emit-Keeps p =
      Ensures-bind _ _ (λ r. Sagas G) (draw_event_id-Keeps p.event_id)
        (λ id.
          Ensures-bind _ _ (λ r. Sagas G) (Ensures-gets _ (λ a d k h. h))
            (λ now.
              Ensures-bind _ _ (λ r. Sagas G) (Ensures-gets _ (λ a d k h. h))
                (λ name.
                  Ensures-bind _ _ (λ r. Sagas G)
                    (Ensures-send _ (λ d k h. h) (λ e d k h. h) (λ e d k h. h))
                    (λ u. Ensures-pure _ (λ d k h. h)) (λ e d k h. h))
                (λ e d k h. h))
            (λ e d k h. h))
        (λ e d k h. h)

  pub command-Keeps :
      (topic : String) (t : EventType) (order kind correlation cause : String) (payload : Fields)
      → Keeps G (command topic t order kind correlation cause payload)
  unfolding command
  command-Keeps topic t order kind correlation cause payload =
      Ensures-bind _ _ (λ r. Sagas G) (emit-Keeps _) (λ e. Ensures-pure tt (λ d k h. h))
        (λ e d k h. h)

  -- A sequence of steps that each keep the condition keeps it.
  pub then-Keeps {ℓ κ} :
      {A : Type ℓ} {B : Type κ} (m : Exec A) (f : A → Exec B)
      → Keeps G m
      → ((a : A) → Keeps G (f a))
      → Keeps G (m >>= f)
  then-Keeps m f hm hf = Ensures-bind m f (λ r. Sagas G) hm hf (λ e d k h. h)

  -- A save, and then steps that leave the sagas alone.
  pub save-Ensures {ℓ} :
      {A : Type ℓ} (rows : List SagaRow) (s : SagaInstance) (rest : Exec A)
      → G rows
      → ((now : ℕ) → G (save_saga_instance s now rows))
      → Keeps G rest
      → Ensures (At rows) (save s >> rest) (λ r. Sagas G)
  unfolding save
  save-Ensures rows s rest same saved hr =
      Ensures-bind _ _ (λ r. Sagas G)
        (Ensures-statement _ (λ now d k e. rw e (saved now)) (λ x d k e. rw e same)
          (λ x now d k e. rw e (saved now)))
        (λ u. hr) (λ e d k h. h)

-- ===== src/Saga/Compensation.antt =====
-- What the compensation barrier does to the saga table, whatever database or Kafka calls fail.
use event_driven_kafka.Base.{
  String, Bool, true, false, List, Option, none, some, ◌≡◌, refl, ◌≢◌, inl, inr, sym, ap, ◌∙◌,
  subst, ◌==◌, eq_iff, if◌then◌else◌, Bool-cases,
}
use event_driven_kafka.Base.Distinct.{All-total}
use event_driven_kafka.Json.{text_of}
use event_driven_kafka.Chaos.{given}
use event_driven_kafka.Contracts.{EventEnvelope}
use event_driven_kafka.Database.Sagas.{
  SagaState, compensating, cancelled, SagaContext, SagaRow, get_saga_by_aggregate_id,
}
use event_driven_kafka.Exec.{Result, ok, err}
use event_driven_kafka.Exec.Rules.{
  Cond, Ensures-pure, Ensures-bind, Ensures-query, Ensures-transaction, Ensures-fact,
}
use event_driven_kafka.Saga.{is_compensating, on_compensated}
use event_driven_kafka.Saga.Barrier.{
  complete_action, Cancellation, pass_barrier, guarded_barrier, execute_barrier_update,
  emit_cancelled, handle_compensation_completion,
}
use event_driven_kafka.Saga.Rows.{Edge, wait, cancel, found_row}
use event_driven_kafka.Saga.Steps.{
  Compensated, Given, save-Reached, At, Sagas, Keeps, command-Keeps, save-Ensures,
}
use event_driven_kafka.Saga.Transitions.{Goal, Handled, now-Keeps, unchanged, guarded, kept_saga_id}

-- What the barrier saves leaves `compensating` only with every compensation completed.
complete_action-Compensated :
    (ctx : SagaContext) (action : String)
    → (complete_action ctx action).1 ≡ true
    → Compensated (complete_action ctx action).0
unfolding complete_action
complete_action-Compensated ctx action h = h

barrier_edge :
    (s : SagaState) (b : Bool) → s ≡ compensating → Edge s (if b then cancelled else compensating)
barrier_edge compensating true e = cancel
barrier_edge compensating false e = wait
barrier_edge _ b e = cc

barrier_settled :
    (b : Bool) (P : Type 0)
    → (b ≡ true → P)
    → (if b then cancelled else compensating) ≡ cancelled
    → P
barrier_settled true P h e = h refl
barrier_settled false P h e = cc

is_compensating_eq : (s : SagaState) → is_compensating s ≡ true → s ≡ compensating
is_compensating_eq compensating h = refl
is_compensating_eq _ h = cc

module _ (e : EventEnvelope) (rows : List SagaRow) (saga : SagaRow)
    (g : Given e.aggregate_id rows saga) where
  abbrev G : List SagaRow → Type 0
  G = Goal e rows

  emit_cancelled-Keeps :
      (cause correlation : String) (c : Option Cancellation)
      → Keeps G (emit_cancelled e.aggregate_id cause correlation c)
  unfolding emit_cancelled
  emit_cancelled-Keeps cause correlation none = Ensures-pure tt (λ d k h. h)
  emit_cancelled-Keeps cause correlation (some c) =
      now-Keeps e rows _ _ (λ now. command-Keeps G _ _ _ _ _ _ _)

  pass_barrier-Handled :
      (action correlation : String)
      → saga.state ≡ compensating
      → Handled e rows (pass_barrier saga e.aggregate_id action correlation)
  unfolding pass_barrier
  pass_barrier-Handled action correlation at =
      let done = complete_action saga.context action in
      save-Ensures G rows _ _ (unchanged e rows saga g)
        (λ now.
          save-Reached e.aggregate_id rows saga _ now g (kept_saga_id e rows saga g) refl
            (barrier_edge saga.state done.1 at)
            (barrier_settled done.1 (Compensated done.0)
              (complete_action-Compensated saga.context action)))
        (Ensures-pure _ (λ d k h. h))

  guarded_barrier-Handled :
      (action correlation : String)
      → saga.state ≡ compensating
      → Handled e rows (guarded_barrier saga.state saga e.aggregate_id action correlation)
  guarded_barrier-Handled action correlation at =
      subst (λ s. Handled e rows (guarded_barrier s saga e.aggregate_id action correlation))
        (sym at) (pass_barrier-Handled action correlation at)

  -- The order's row, read under lock, is the one that the handler was given.
  abbrev Locked : Result (Option SagaRow) → Cond
  Locked (ok o) d k = At rows d k × (o ≡ some saga)
  Locked (err x) d k = At rows d k

  execute_barrier_update-Handled :
      (action correlation : String)
      → saga.state ≡ compensating
      → Handled e rows (execute_barrier_update saga e.aggregate_id action correlation)
  unfolding execute_barrier_update
  execute_barrier_update-Handled action correlation at =
      Ensures-bind _ _ Locked
        (Ensures-query _ (λ d k a. (a, ap (get_saga_by_aggregate_id e.aggregate_id) a ∙ g.found))
          (λ x d k a. a))
        (λ o. Ensures-fact (o ≡ some saga) _ λ same.
          subst
            (λ p. Handled e rows (
              guarded_barrier (given p saga).state (given p saga) e.aggregate_id action
                correlation))
            (sym same) (guarded_barrier-Handled action correlation at))
        (λ x d k a. rw a (unchanged e rows saga g))

  order_id_kept :
      (fallback : String)
      → e.aggregate_id ≢ ""
      → (if saga.aggregate_id == "" then fallback else saga.aggregate_id) ≡ e.aggregate_id
  order_id_kept fallback n =
      let same =
        (found_row (λ r. Unit {0}) e.aggregate_id rows saga g.found
          (All-total _ (λ r. tt) rows)).1 in
      elim (Bool-cases (saga.aggregate_id == "")) [
        | inl empty ↦ absurd (n (sym same ∙ (eq_iff saga.aggregate_id "").0 empty))
        | inr there ↦ rw there same
      ]

  handle_compensation_completion-Handled :
      (action cause correlation : String)
      → e.aggregate_id ≢ ""
      → saga.state ≡ compensating
      → Handled e rows (handle_compensation_completion saga saga.context action cause correlation)
  unfolding handle_compensation_completion
  handle_compensation_completion-Handled action cause correlation n at =
      rw (order_id_kept (text_of saga.context.order_id) n) (
        Ensures-bind _ _ (λ r. Sagas G)
          (Ensures-transaction _ (λ r. Sagas G)
            (execute_barrier_update-Handled action correlation at) (λ a d k h. h) (λ x a d k h. h)
            (λ x d k a. rw a (unchanged e rows saga g))
            (λ x r d d' k k' a h. rw a (unchanged e rows saga g)))
          (emit_cancelled-Keeps cause correlation) (λ x d k h. h))

  pub on_compensated-Handled :
      (action : String) → e.aggregate_id ≢ "" → Handled e rows (on_compensated action saga e)
  unfolding on_compensated
  on_compensated-Handled action n = guarded e rows saga g _ _ λ h.
      handle_compensation_completion-Handled action e.event_id e.correlation_id n
        (is_compensating_eq saga.state h)

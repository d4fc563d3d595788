-- ===== src/Saga/Transitions.antt =====
-- What each handler of the orchestrator does to the saga table, whatever database or Kafka calls
-- fail; the handlers of completed compensations are in Compensation.antt.
use event_driven_kafka.Base.{
  String, ◌<>◌, Bool, true, false, not, List, Option, some, ◌≡◌, refl, ◌≢◌, inl, inr, sym, arith,
  ◌==◌, if◌then◌else◌, Bool-cases,
}
use event_driven_kafka.Json.{Json}
use event_driven_kafka.Contracts.{EventType, EventEnvelope, text_or}
use event_driven_kafka.Database.Sagas.{SagaState, cancelled, SagaContext, SagaRow}
use event_driven_kafka.World.{World}
use event_driven_kafka.Exec.{Exec, pure, gets, ◌>>=◌, ◌>>◌}
use event_driven_kafka.Exec.Rules.{Ensures, Ensures-pure, Ensures-gets, Ensures-bind}
use event_driven_kafka.Saga.{
  is_created, is_payment_pending, is_inventory_pending, is_fraud_pending, is_shipping_pending,
  move_saga, command_for, on_order_created, on_payment_authorized, on_payment_rejected,
  on_inventory_reserved, on_inventory_failed, on_fraud_approved, release_and_refund,
  on_fraud_rejected, on_shipment_created, on_shipment_failed,
}
use event_driven_kafka.Saga.Rows.{
  Edge, start, authorize, decline, reserve, run_out, approve, reject, ship, miss_shipment,
}
use event_driven_kafka.Saga.Steps.{
  Reached, Given, Reached-refl, saga_id_named, save-Reached, At, Sagas, Keeps, command-Keeps,
  then-Keeps, save-Ensures,
}

authorize_edge : (s : SagaState) → is_payment_pending s ≡ true → Edge s SagaState.inventory_pending
authorize_edge SagaState.payment_pending h = authorize
authorize_edge _ h = cc

decline_edge : (s : SagaState) → is_payment_pending s ≡ true → Edge s SagaState.failed
decline_edge SagaState.payment_pending h = decline
decline_edge _ h = cc

reserve_edge : (s : SagaState) → is_inventory_pending s ≡ true → Edge s SagaState.fraud_pending
reserve_edge SagaState.inventory_pending h = reserve
reserve_edge _ h = cc

run_out_edge : (s : SagaState) → is_inventory_pending s ≡ true → Edge s SagaState.compensating
run_out_edge SagaState.inventory_pending h = run_out
run_out_edge _ h = cc

approve_edge : (s : SagaState) → is_fraud_pending s ≡ true → Edge s SagaState.shipping_pending
approve_edge SagaState.fraud_pending h = approve
approve_edge _ h = cc

reject_edge : (s : SagaState) → is_fraud_pending s ≡ true → Edge s SagaState.compensating
reject_edge SagaState.fraud_pending h = reject
reject_edge _ h = cc

miss_shipment_edge : (s : SagaState) → is_shipping_pending s ≡ true → Edge s SagaState.compensating
miss_shipment_edge SagaState.shipping_pending h = miss_shipment
miss_shipment_edge _ h = cc

ship_edge : (s : SagaState) → is_shipping_pending s ≡ true → Edge s SagaState.completed
ship_edge SagaState.shipping_pending h = ship
ship_edge _ h = cc

module _ (e : EventEnvelope) (rows : List SagaRow) where
  abbrev pub Goal : List SagaRow → Type 0
  Goal = Reached e.aggregate_id rows

  abbrev pub Handled {ℓ} : {A : Type ℓ} → Exec A → Type 0
  Handled m = Ensures (At rows) m (λ r. Sagas Goal)

  pub command_for-Keeps :
      (topic : String) (t : EventType) (kind : String) (payload : List (String × Json))
      → Keeps Goal (command_for e topic t kind payload)
  unfolding command_for
  command_for-Keeps topic t kind payload = command-Keeps Goal topic t _ kind _ _ _

  pub now-Keeps {ℓ κ} :
      {A : Type ℓ} {B : Type κ} (f : World → A) (m : A → Exec B)
      → ((a : A) → Keeps Goal (m a))
      → Keeps Goal (gets f >>= m)
  now-Keeps f m h = then-Keeps Goal _ m (Ensures-gets f (λ a d k g. g)) h

  release_and_refund-Keeps :
      (ctx : SagaContext) (reason : String) → Keeps Goal (release_and_refund e ctx reason)
  unfolding release_and_refund
  release_and_refund-Keeps ctx reason =
      now-Keeps _ _
        (λ now. then-Keeps Goal _ _ (command_for-Keeps _ _ _ _) (λ u. command_for-Keeps _ _ _ _))

  module _ (saga : SagaRow) (g : Given e.aggregate_id rows saga) where
    pub unchanged : Goal rows
    unchanged = Reached-refl e.aggregate_id rows g.table g.settled

    moved :
        (state : SagaState) (step : String) (ctx : SagaContext) (reason : Option String)
        (rest : Exec (Unit {0}))
        → Edge saga.state state
        → state ≢ cancelled
        → Keeps Goal rest
        → Handled (move_saga saga e state step ctx reason >> rest)
    unfolding move_saga
    moved state step ctx reason rest edge live hr =
        save-Ensures Goal rows _ rest unchanged
          (λ now.
            save-Reached e.aggregate_id rows saga _ now g refl refl edge (λ c. absurd (live c)))
          hr

    -- A handler whose guard fails returns early.
    pub guarded :
        (guard : Bool) (m : Exec (Unit {0}))
        → (guard ≡ true → Handled m)
        → Handled (if not guard then pure tt else m)
    guarded true m h = h refl
    guarded false m h = Ensures-pure tt (λ d k at. rw at unchanged)

    pub payment_authorized-Handled : Handled (on_payment_authorized saga e)
    unfolding on_payment_authorized
    payment_authorized-Handled = guarded _ _ λ h.
        moved SagaState.inventory_pending _ _ _ _ (authorize_edge saga.state h) (λ c. cc)
          (command_for-Keeps _ _ _ _)

    pub payment_rejected-Handled : Handled (on_payment_rejected saga e)
    unfolding on_payment_rejected
    payment_rejected-Handled = guarded _ _ λ h.
        moved SagaState.failed _ _ _ _ (decline_edge saga.state h) (λ c. cc)
          (now-Keeps _ _ (λ now. command_for-Keeps _ _ _ _))

    pub inventory_reserved-Handled : Handled (on_inventory_reserved saga e)
    unfolding on_inventory_reserved
    inventory_reserved-Handled = guarded _ _ λ h.
        moved SagaState.fraud_pending _ _ _ _ (reserve_edge saga.state h) (λ c. cc)
          (command_for-Keeps _ _ _ _)

    pub inventory_failed-Handled : Handled (on_inventory_failed saga e)
    unfolding on_inventory_failed
    inventory_failed-Handled = guarded _ _ λ h.
        moved SagaState.compensating _ _ _ _ (run_out_edge saga.state h) (λ c. cc)
          (command_for-Keeps _ _ _ _)

    pub fraud_approved-Handled : Handled (on_fraud_approved saga e)
    unfolding on_fraud_approved
    fraud_approved-Handled = guarded _ _ λ h.
        moved SagaState.shipping_pending _ _ _ _ (approve_edge saga.state h) (λ c. cc)
          (command_for-Keeps _ _ _ _)

    pub fraud_rejected-Handled : Handled (on_fraud_rejected saga e)
    unfolding on_fraud_rejected
    fraud_rejected-Handled = guarded _ _ λ h.
        moved SagaState.compensating _ _ _ _ (reject_edge saga.state h) (λ c. cc)
          (release_and_refund-Keeps _ _)

    pub shipment_failed-Handled : Handled (on_shipment_failed saga e)
    unfolding on_shipment_failed
    shipment_failed-Handled = guarded _ _ λ h.
        moved SagaState.compensating _ _ _ _ (miss_shipment_edge saga.state h) (λ c. cc)
          (release_and_refund-Keeps _ _)

    pub shipment_created-Handled : Handled (on_shipment_created saga e)
    unfolding on_shipment_created
    shipment_created-Handled = guarded _ _ λ h.
        Ensures-bind _ _ (λ r. At rows) (Ensures-gets _ (λ a d k at. at))
          (λ now.
            moved SagaState.completed _ _ _ _ (ship_edge saga.state h) (λ c. cc)
              (then-Keeps Goal _ _ (command_for-Keeps _ _ _ _) (λ u. command_for-Keeps _ _ _ _)))
          (λ x d k at. rw at unchanged)

    pub kept_saga_id : text_or (some saga.saga_id) ("saga_" <> e.aggregate_id) ≡ saga.saga_id
    kept_saga_id = elim (Bool-cases (saga.saga_id == "")) [
      | inl empty ↦ rw empty (sym (saga_id_named e.aggregate_id rows saga g))
      | inr there ↦ rw there
    ]

    pub order_created-Handled : Handled (on_order_created (some saga) e)
    unfolding on_order_created
    order_created-Handled = elim (Bool-cases (is_created saga.state)) [
      | inl fresh ↦ rw fresh (
          save-Ensures Goal rows _ _ unchanged
            (λ now.
              save-Reached e.aggregate_id rows saga _ now g kept_saga_id refl (grind (arith, start))
                (λ c. cc))
            (command_for-Keeps _ _ _ _))
      | inr late ↦ rw late (Ensures-pure tt (λ d k at. rw at unchanged))
    ]

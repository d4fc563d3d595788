-- ===== src/Saga/Order.antt =====
-- src/saga/saga-orchestrator.ts, PaymentRefunded and InventoryReleased: the order in which the two
-- compensations of a rejected or unshipped order complete, when no call fails.
use event_driven_kafka.Base.{
  String, ◌<>◌, Bool, true, false, List, [], ◌∷◌, some, ◌≡◌, ◌≢◌, refl, sym, ap, ◌∙◌, subst, ◌==◌,
  if◌then◌else◌, inl, inr, ◌⊎◌,
}
use event_driven_kafka.Contracts.{
  EventEnvelope, EventType, order_cancelled, payment_refunded, inventory_released,
}
use event_driven_kafka.Database.Sagas.{
  SagaState, compensating, cancelled, SagaRow, SagaContext, get_saga_by_aggregate_id,
}
use event_driven_kafka.World.{World}
use event_driven_kafka.Exec.{Result, ◌>>=◌, call, query}
use event_driven_kafka.Saga.{on_compensated, react, process_event}
use event_driven_kafka.Saga.Barrier.{complete_action}
use event_driven_kafka.Saga.Moves.{IsMoved, state_of}
use event_driven_kafka.Saga.Rows.{IsSagaTable, found_row}
use event_driven_kafka.Saga.Cancelling.{Has, calmed, stays, cancels}

-- The event that completes a compensation.
data Completes : EventType → String → Type 0 where
  refund : Completes payment_refunded "PAYMENT_REFUND"
  release : Completes inventory_released "INVENTORY_RELEASE"

reacts :
    (t : EventType) (action : String) (saga : SagaRow) (e : EventEnvelope)
    → Completes t action
    → react t (some saga) e ≡ on_compensated action saga e
unfolding react
reacts t action saga e refund = refl
reacts t action saga e release = refl

processed :
    (e : EventEnvelope) (saga : SagaRow) (action : String) (w : World)
    → w.outcomes ≡ []
    → get_saga_by_aggregate_id e.aggregate_id w.db.saga_instances ≡ some saga
    → Completes e.event_type action
    → process_event e w ≡ on_compensated action saga e (calmed w)
unfolding process_event query call ◌>>=◌
processed e saga action w calm found c =
    ap (λ os. process_event e (record w { outcomes = os })) calm
    ∙ ap (λ o. react e.event_type o e (calmed w)) found
    ∙ ap (λ m. m (calmed w)) (reacts e.event_type action saga e c)

abbrev reached : Bool → SagaState
reached b = if b then cancelled else compensating

abbrev told : Bool → List EventType
told b = if b then order_cancelled ∷ [] else []

step :
    (a : String) (e : EventEnvelope) (saga : SagaRow) (action : String) (ctx : SagaContext)
    (b : Bool) (w : World)
    → (a == "") ≡ false
    → e.aggregate_id ≡ a
    → w.outcomes ≡ []
    → IsSagaTable w.db.saga_instances
    → get_saga_by_aggregate_id a w.db.saga_instances ≡ some saga
    → saga.state ≡ compensating
    → Completes e.event_type action
    → complete_action saga.context action ≡ (ctx, b)
    → Has a (reached b) ctx (told b) w (process_event e w)
step a e saga action ctx b w named of_a calm table found waiting c done =
    let (id, of_order) =
      found_row (λ x. x.saga_id ≡ "saga_" <> x.aggregate_id) a w.db.saga_instances saga found
        table.named in
    let own : saga.saga_id ≡ "saga_" <> a = id ∙ ap (λ x. "saga_" <> x) of_order in
    subst (Has a (reached b) ctx (told b) w)
      (sym (
        processed e saga action w calm
          (ap (λ a. get_saga_by_aggregate_id a w.db.saga_instances) of_a ∙ found) c))
      (go b done own of_order)
  where
    go :
        (b : Bool)
        → complete_action saga.context action ≡ (ctx, b)
        → saga.saga_id ≡ "saga_" <> a
        → saga.aggregate_id ≡ a
        → Has a (reached b) ctx (told b) w (on_compensated action saga e (calmed w))
    go true done own of_order =
        cancels a e saga action w named of_order own waiting table found ctx done
    go false done own of_order =
        stays a e saga action w named of_order own waiting table found ctx done

Has-IsMoved :
    (a : String) (s : SagaState) (ctx : SagaContext) (ts : List EventType) (w : World)
    (r : Result (Unit {0}) × World)
    → Has a s ctx ts w r
    → IsMoved a (some s) ts w r
Has-IsMoved a s ctx ts w r h = record {
  messages = h.messages;
  succeeded = h.succeeded;
  calm = h.calm;
  table = h.table;
  staged = ap state_of h.found ∙ ap some h.state;
  sent = h.sent;
  commands = h.commands;
}

-- The saga waits for both compensations.
abbrev pub AwaitsBoth : SagaContext → Type 0
AwaitsBoth ctx =
    (ctx.compensations_pending ≡ some ("INVENTORY_RELEASE" ∷ "PAYMENT_REFUND" ∷ []))
    × (ctx.compensations_completed ≡ some [])

abbrev recorded : SagaContext → List String → SagaContext
recorded ctx done = record ctx { compensations_completed = some done }

first_done :
    (ctx : SagaContext) (t : EventType) (action : String)
    → AwaitsBoth ctx
    → Completes t action
    → complete_action ctx action ≡ (recorded ctx (action ∷ []), false)
unfolding complete_action
first_done ctx t action (p, c) refund = simp (p, c) refl
first_done ctx t action (p, c) release = simp (p, c) refl

again_done :
    (ctx : SagaContext) (t : EventType) (action : String)
    → AwaitsBoth ctx
    → Completes t action
    → complete_action (recorded ctx (action ∷ [])) action ≡ (recorded ctx (action ∷ []), false)
unfolding complete_action
again_done ctx t action (p, c) refund = simp (p) refl
again_done ctx t action (p, c) release = simp (p) refl

second_done :
    (ctx : SagaContext) (t t' : EventType) (x y : String)
    → AwaitsBoth ctx
    → Completes t x
    → Completes t' y
    → t ≢ t'
    → complete_action (recorded ctx (x ∷ [])) y ≡ (recorded ctx (x ∷ y ∷ []), true)
unfolding complete_action
second_done ctx t t' x y (p, c) refund release n = simp (p) refl
second_done ctx t t' x y (p, c) release refund n = simp (p) refl
second_done ctx t t' x y (p, c) refund refund n = absurd (n refl)
second_done ctx t t' x y (p, c) release release n = absurd (n refl)

-- PaymentRefunded or InventoryReleased.
abbrev pub IsCompensation : EventEnvelope → Type 0
IsCompensation e = (e.event_type ≡ payment_refunded) ⊎ (e.event_type ≡ inventory_released)

completes : (e : EventEnvelope) → IsCompensation e → (x : String) × Completes e.event_type x
completes e (inl p) = ("PAYMENT_REFUND", subst (λ t. Completes t "PAYMENT_REFUND") (sym p) refund)
completes e (inr p) =
    ("INVENTORY_RELEASE", subst (λ t. Completes t "INVENTORY_RELEASE") (sym p) release)

-- An order's saga is compensating and waits for a release and a refund, of which none has completed; no call
-- fails, the saga ids are distinct and made from the orders' ids, and the order's id is not empty.
-- One of InventoryReleased and PaymentRefunded, handled once or twice, leaves the saga compensating
-- and sends nothing. The other one then cancels the saga, and sends exactly OrderCancelled with the
-- order's id as its key. So it is in either order.
pub compensations_cancel :
    (a : String) (e e' : EventEnvelope) (saga : SagaRow) (w : World)
    → (a == "") ≡ false
    → e.aggregate_id ≡ a
    → e'.aggregate_id ≡ a
    → IsCompensation e
    → IsCompensation e'
    → e.event_type ≢ e'.event_type
    → w.outcomes ≡ []
    → IsSagaTable w.db.saga_instances
    → get_saga_by_aggregate_id a w.db.saga_instances ≡ some saga
    → saga.state ≡ compensating
    → AwaitsBoth saga.context
    → let once : World = (process_event e w).1 in
      let twice : World = (process_event e once).1 in
      IsMoved a (some compensating) [] w (process_event e w)
      × IsMoved a (some compensating) [] once (process_event e once)
      × IsMoved a (some cancelled) (order_cancelled ∷ []) once (process_event e' once)
      × IsMoved a (some cancelled) (order_cancelled ∷ []) twice (process_event e' twice)
compensations_cancel a e e' saga w named of_a of_a' i i' differ calm table found waiting both =
    let (x, c) = completes e i in
    let (y, c') = completes e' i' in
    let ctx : SagaContext = recorded saga.context (x ∷ []) in
    let end_ : SagaContext = recorded saga.context (x ∷ y ∷ []) in
    let again : complete_action ctx x ≡ (ctx, false) =
      again_done saga.context e.event_type x both c in
    let last : complete_action ctx y ≡ (end_, true) =
      second_done saga.context e.event_type e'.event_type x y both c c' differ in
    let h : Has a compensating ctx [] w (process_event e w) =
      step a e saga x ctx false w named of_a calm table found waiting c
        (first_done saga.context e.event_type x both c) in
    let once : World = (process_event e w).1 in
    let k : Has a compensating ctx [] once (process_event e once) =
      step a e h.row x ctx false once named of_a h.calm h.table h.found h.state c
        (ap (λ ctx. complete_action ctx x) h.context ∙ again) in
    let twice : World = (process_event e once).1 in
    (
      Has-IsMoved a compensating ctx [] w (process_event e w) h,
      Has-IsMoved a compensating ctx [] once (process_event e once) k,
      Has-IsMoved a cancelled end_ (order_cancelled ∷ []) once (process_event e' once) (
          step a e' h.row y end_ true once named of_a' h.calm h.table h.found h.state c'
            (ap (λ ctx. complete_action ctx y) h.context ∙ last)),
      Has-IsMoved a cancelled end_ (order_cancelled ∷ []) twice (process_event e' twice) (
          step a e' k.row y end_ true twice named of_a' k.calm k.table k.found k.state c'
            (ap (λ ctx. complete_action ctx y) k.context ∙ last)),
    )

-- ===== src/Saga/Moves.antt =====
-- src/saga/saga-orchestrator.ts: what each event makes of a saga when no call fails.
use event_driven_kafka.Base.{
  append_assoc, some-injective, String, ◌<>◌, true, List, [], ◌∷◌, ◌++◌, Option, none, some, ◌≡◌,
  refl, sym, ap, ◌∙◌, subst, ◌==◌, ◌&&◌, eq_refl, any,
}
use event_driven_kafka.Json.{Json}
use event_driven_kafka.Contracts.{
  EventType, event_type_name, order_created, payment_requested, payment_authorized,
  payment_rejected, inventory_reserved, inventory_reservation_failed, inventory_released,
  fraud_approved, fraud_rejected, inventory_reservation_requested, order_failed,
  fraud_check_requested, payment_refund_requested, shipment_requested, shipment_created,
  shipment_failed, order_completed, notification_requested, EventEnvelope,
}
use event_driven_kafka.Database.Sagas.{
  SagaState, payment_pending, inventory_pending, fraud_pending, shipping_pending, failed, completed,
  compensating, SagaRow, SagaInstance, SagaContext, save_saga_instance, get_saga_by_aggregate_id,
}
use event_driven_kafka.World.{World, Message}
use event_driven_kafka.Exec.{Result, ok, ◌>>=◌, ◌>>◌, call, query, statement, send, fresh_uuid}
use event_driven_kafka.Emit.{emit, draw_event_id, drawn_event_id, message_of}
use event_driven_kafka.Saga.{
  on_order_created, on_payment_authorized, on_payment_rejected, on_inventory_reserved,
  on_inventory_failed, on_fraud_approved, on_fraud_rejected, on_shipment_created,
  on_shipment_failed, release_and_refund, move_saga, command_for, react, process_event,
  started_saga,
}
use event_driven_kafka.Saga.Barrier.{save, command}
use event_driven_kafka.Saga.Faults.{started_found}
use event_driven_kafka.Saga.Found.{found_save}
use event_driven_kafka.Saga.Rows.{IsSagaTable, found_row, save-IsSagaTable}

-- On this event, an order with no saga or with a saga in this state gets to the next state, and these
-- events are sent.
pub data Move : EventType → Option SagaState → SagaState → List EventType → Type 0 where
  start : Move order_created none payment_pending (payment_requested ∷ [])
  reserve :
      Move payment_authorized
        (some payment_pending)
        inventory_pending
        (inventory_reservation_requested ∷ [])
  decline : Move payment_rejected (some payment_pending) failed (order_failed ∷ [])
  check :
      Move inventory_reserved (some inventory_pending) fraud_pending (fraud_check_requested ∷ [])
  refund :
      Move inventory_reservation_failed
        (some inventory_pending)
        compensating
        (payment_refund_requested ∷ [])
  ship : Move fraud_approved (some fraud_pending) shipping_pending (shipment_requested ∷ [])
  reject :
      Move fraud_rejected
        (some fraud_pending)
        compensating
        (inventory_released ∷ payment_refund_requested ∷ [])
  complete :
      Move shipment_created
        (some shipping_pending)
        completed
        (order_completed ∷ notification_requested ∷ [])
  miss :
      Move shipment_failed
        (some shipping_pending)
        compensating
        (inventory_released ∷ payment_refund_requested ∷ [])

abbrev pub state_of : Option SagaRow → Option SagaState
state_of none = none
state_of (some saga) = some saga.state

abbrev pub stage : String → World → Option SagaState
stage a w = state_of (get_saga_by_aggregate_id a w.db.saga_instances)

-- One message for each of these events, in this order, with the order's id as its key.
abbrev pub Commands : String → List EventType → List Message → Type 0
Commands a [] [] = Unit
Commands a (t ∷ ts) (m ∷ ms) =
    ((m.key ≡ a) × (any (λ h. h.0 == "event-type" && h.1 == event_type_name t) m.headers ≡ true))
    × Commands a ts ms
Commands a _ _ = ⊥

pub record IsMoved (a : String) (s : Option SagaState) (ts : List EventType) (w : World)
    (r : Result (Unit {0}) × World) : Type 0 where
  pub messages : List Message
  pub succeeded : r.0 ≡ ok tt
  pub calm : r.1.outcomes ≡ []
  pub table : IsSagaTable r.1.db.saga_instances
  pub staged : stage a r.1 ≡ s
  pub sent : r.1.kafka ≡ w.kafka ++ messages
  pub commands : Commands a ts messages

abbrev calmed : World → World
calmed w = record w { outcomes = [] }

-- A saga that is saved, and what is sent.
moved :
    (e : EventEnvelope) (saga : SagaRow) (i : SagaInstance) (ts : List EventType)
    (ms : List Message) (w : World) (r : Result (Unit {0}) × World)
    → IsSagaTable w.db.saga_instances
    → get_saga_by_aggregate_id e.aggregate_id w.db.saga_instances ≡ some saga
    → i.saga_id ≡ saga.saga_id
    → i.aggregate_id ≡ e.aggregate_id
    → r.0 ≡ ok tt
    → r.1.outcomes ≡ []
    → r.1.db.saga_instances ≡ save_saga_instance i w.clock w.db.saga_instances
    → r.1.kafka ≡ w.kafka ++ ms
    → Commands e.aggregate_id ts ms
    → IsMoved e.aggregate_id (some i.state) ts w r
moved e saga i ts ms w r table found id of_order done calm saved sent commands =
    let own : (saga.saga_id ≡ "saga_" <> saga.aggregate_id) × (saga.aggregate_id ≡ e.aggregate_id) =
      found_row (λ x. x.saga_id ≡ "saga_" <> x.aggregate_id) e.aggregate_id w.db.saga_instances saga
        found table.named in
    record {
      messages = ms;
      succeeded = done;
      calm = calm;
      table = subst IsSagaTable (sym saved) (
          save-IsSagaTable i w.clock w.db.saga_instances
            (id ∙ own.0 ∙ ap (λ x. "saga_" <> x) (own.1 ∙ sym of_order)) table);
      staged =
          ap (λ rows. state_of (get_saga_by_aggregate_id e.aggregate_id rows)) saved
          ∙ ap state_of
              (found_save e.aggregate_id saga i w.clock w.db.saga_instances table found id);
      sent = sent;
      commands = commands;
    }

module _ (e : EventEnvelope) (saga : SagaRow) (s : SagaState) (step : String)
    (context : SagaContext) (reason : Option String) (w : World)
    (table : IsSagaTable w.db.saga_instances)
    (found : get_saga_by_aggregate_id e.aggregate_id w.db.saga_instances ≡ some saga) where
  one_command :
      (topic : String) (t : EventType) (kind : String) (payload : List (String × Json))
      → IsMoved e.aggregate_id (some s) (t ∷ []) w (
          (move_saga saga e s step context reason >> command_for e topic t kind payload) (calmed w))
  unfolding move_saga command_for save command statement call send emit draw_event_id drawn_event_id
      fresh_uuid message_of ◌>>=◌
  one_command topic t kind payload =
      moved e saga _ _ (_ ∷ []) w _ table found refl refl refl refl refl refl
        ((refl, rw (eq_refl (event_type_name t)) refl), tt)

  two_commands :
      (topic : String) (t : EventType) (kind : String) (payload : List (String × Json))
      (topic' : String) (t' : EventType) (kind' : String) (payload' : List (String × Json))
      → IsMoved e.aggregate_id (some s) (t ∷ t' ∷ []) w (
          (move_saga saga e s step context reason
              >> (command_for e topic t kind payload >> command_for e topic' t' kind' payload'))
            (calmed w))
  unfolding move_saga command_for save command statement call send emit draw_event_id drawn_event_id
      fresh_uuid message_of ◌>>=◌
  two_commands topic t kind payload topic' t' kind' payload' =
      moved e saga _ _ (_ ∷ _ ∷ []) w _ table found refl refl refl refl refl
        (append_assoc w.kafka _ _)
        (
          (refl, rw (eq_refl (event_type_name t)) refl),
          ((refl, rw (eq_refl (event_type_name t')) refl), tt),
        )

started-IsMoved :
    (e : EventEnvelope) (w : World)
    → IsSagaTable w.db.saga_instances
    → get_saga_by_aggregate_id e.aggregate_id w.db.saga_instances ≡ none
    → IsMoved e.aggregate_id
        (some payment_pending)
        (payment_requested ∷ [])
        w
        (react order_created none e (calmed w))
unfolding react on_order_created command_for save command statement call send emit draw_event_id
    drawn_event_id fresh_uuid message_of ◌>>=◌
started-IsMoved e w table found = record {
  messages = _ ∷ [];
  succeeded = refl;
  calm = refl;
  table = save-IsSagaTable (started_saga none e) w.clock w.db.saga_instances refl table;
  staged = ap state_of (started_found e w.clock w.db.saga_instances table found);
  sent = refl;
  commands = ((refl, rw (eq_refl (event_type_name payment_requested)) refl), tt);
}

react-IsMoved :
    (e : EventEnvelope) (o : Option SagaRow) (t : EventType) (s' : Option SagaState) (s : SagaState)
    (ts : List EventType) (w : World)
    → IsSagaTable w.db.saga_instances
    → get_saga_by_aggregate_id e.aggregate_id w.db.saga_instances ≡ o
    → state_of o ≡ s'
    → Move t s' s ts
    → IsMoved e.aggregate_id (some s) ts w (react t o e (calmed w))
unfolding react on_payment_authorized on_payment_rejected on_inventory_reserved on_inventory_failed
    on_fraud_approved on_fraud_rejected on_shipment_created on_shipment_failed release_and_refund
    ◌>>=◌ move_saga save statement
react-IsMoved e none t s' s ts w table found p start = started-IsMoved e w table found
react-IsMoved e (some saga) t s' s ts w table found p start = cc
react-IsMoved e (some saga) t s' s ts w table found p reserve =
    simp (some-injective _ _ p) (one_command e saga _ _ _ _ w table found _ _ _ _)
react-IsMoved e (some saga) t s' s ts w table found p decline =
    simp (some-injective _ _ p) (one_command e saga _ _ _ _ w table found _ _ _ _)
react-IsMoved e (some saga) t s' s ts w table found p check =
    simp (some-injective _ _ p) (one_command e saga _ _ _ _ w table found _ _ _ _)
react-IsMoved e (some saga) t s' s ts w table found p refund =
    simp (some-injective _ _ p) (one_command e saga _ _ _ _ w table found _ _ _ _)
react-IsMoved e (some saga) t s' s ts w table found p ship =
    simp (some-injective _ _ p) (one_command e saga _ _ _ _ w table found _ _ _ _)
react-IsMoved e (some saga) t s' s ts w table found p reject =
    simp (some-injective _ _ p) (two_commands e saga _ _ _ _ w table found _ _ _ _ _ _ _ _)
react-IsMoved e (some saga) t s' s ts w table found p complete =
    simp (some-injective _ _ p) (two_commands e saga _ _ _ _ w table found _ _ _ _ _ _ _ _)
react-IsMoved e (some saga) t s' s ts w table found p miss =
    simp (some-injective _ _ p) (two_commands e saga _ _ _ _ w table found _ _ _ _ _ _ _ _)
react-IsMoved e none t s' s ts w table found p _ = cc

pub process_event-IsMoved :
    (e : EventEnvelope) (s : SagaState) (ts : List EventType) (w : World)
    → w.outcomes ≡ []
    → IsSagaTable w.db.saga_instances
    → Move e.event_type (stage e.aggregate_id w) s ts
    → IsMoved e.aggregate_id (some s) ts w (process_event e w)
unfolding process_event query call ◌>>=◌
process_event-IsMoved e s ts w calm table move =
    subst
      (λ os. IsMoved e.aggregate_id (some s) ts w (process_event e (record w { outcomes = os })))
      (sym calm)
      (react-IsMoved e (get_saga_by_aggregate_id e.aggregate_id w.db.saga_instances) e.event_type _
        s ts w table refl refl move)

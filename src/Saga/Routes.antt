-- ===== src/Saga/Routes.antt =====
-- src/saga/saga-orchestrator.ts: a saga's route through its states when no call fails.
use event_driven_kafka.Base.{
  append_assoc, String, List, [], ◌∷◌, ◌++◌, Option, some, ◌≡◌, refl, sym, ap, ◌∙◌, subst, All, map,
}
use event_driven_kafka.Contracts.{EventType, EventEnvelope}
use event_driven_kafka.Database.Sagas.{SagaState}
use event_driven_kafka.World.{World, Message}
use event_driven_kafka.Exec.{continue, Result, Exec, pure, ◌>>=◌, ◌>>◌}
use event_driven_kafka.Saga.{process_event}
use event_driven_kafka.Saga.Rows.{IsSagaTable}
use mathlib.Core.List.{append-nil, head-eq_of_cons-eq, tail-eq_of_cons-eq}
use event_driven_kafka.Saga.Moves.{Move, stage, Commands, IsMoved, process_event-IsMoved}

-- A sequence of events, and all that they make the orchestrator send.
pub data Route
    : Option SagaState → List EventType → Option SagaState → List EventType → Type 0 where
  arrived : {s : Option SagaState} → Route s [] s []
  via :
      {t : EventType} {s : Option SagaState} {s₁ : SagaState} {s₂ : Option SagaState}
      {ts cs ds : List EventType}
      → Move t s s₁ cs
      → Route (some s₁) ts s₂ ds
      → Route s (t ∷ ts) s₂ (cs ++ ds)

-- The orchestrator takes the events one after the other, until one fails.
abbrev pub process_all : List EventEnvelope → Exec (Unit {0})
process_all [] = pure tt
process_all (e ∷ es) = process_event e >> process_all es

Commands-append :
    (a : String) (ts us : List EventType) (ms ns : List Message)
    → Commands a ts ms
    → Commands a us ns
    → Commands a (ts ++ us) (ms ++ ns)
Commands-append a [] us [] ns h k = k
Commands-append a (t ∷ ts) us (m ∷ ms) ns h k = (h.0, Commands-append a ts us ms ns h.1 k)
Commands-append a [] us (m ∷ ms) ns h k = absurd h
Commands-append a (t ∷ ts) us [] ns h k = absurd h

then-IsMoved :
    (a : String) (s₁ : SagaState) (s₂ : Option SagaState) (cs ds : List EventType) (w : World)
    (r : Result (Unit {0}) × World) (rest : Exec (Unit {0}))
    → IsMoved a (some s₁) cs w r
    → IsMoved a s₂ ds r.1 (rest r.1)
    → IsMoved a s₂ (cs ++ ds) w (continue r.0 (λ u. rest) r.1)
then-IsMoved a s₁ s₂ cs ds w r rest h k =
    subst (λ x. IsMoved a s₂ (cs ++ ds) w (continue x (λ u. rest) r.1)) (sym h.succeeded)
      (record {
        messages = h.messages ++ k.messages;
        succeeded = k.succeeded;
        calm = k.calm;
        table = k.table;
        staged = k.staged;
        sent =
            k.sent ∙ ap (λ x. x ++ k.messages) h.sent ∙ append_assoc w.kafka h.messages k.messages;
        commands = Commands-append a cs ds h.messages k.messages h.commands k.commands;
      })

along :
    (a : String) (es : List EventEnvelope) (s' : Option SagaState) (ts' : List EventType)
    (s : Option SagaState) (ts : List EventType) (w : World)
    → All (λ e. e.aggregate_id ≡ a) es
    → w.outcomes ≡ []
    → IsSagaTable w.db.saga_instances
    → stage a w ≡ s'
    → map (λ e. e.event_type) es ≡ ts'
    → Route s' ts' s ts
    → IsMoved a s ts w (process_all es w)
unfolding ◌>>=◌
along a [] s' ts' s ts w same calm table p q arrived = record {
  messages = [];
  succeeded = refl;
  calm = calm;
  table = table;
  staged = p;
  sent = sym (append-nil w.kafka);
  commands = tt;
}
along a (e ∷ es) s' ts' s ts w same calm table p q
      (via {t} {s₁ = s₁} {ts = types} {cs} {ds} move path) =
    let typed : t ≡ e.event_type = sym (head-eq_of_cons-eq q) in
    let staged : s' ≡ stage e.aggregate_id w = sym p ∙ ap (λ a. stage a w) (sym same.0) in
    let first : IsMoved a (some s₁) cs w (process_event e w) =
      subst (λ a. IsMoved a (some s₁) cs w (process_event e w)) same.0
        (process_event-IsMoved e s₁ cs w calm table (
          subst (λ t. Move t (stage e.aggregate_id w) s₁ cs) typed
            (subst (λ s. Move t s s₁ cs) staged move))) in
    then-IsMoved a s₁ s cs ds w (process_event e w) (process_all es) first (
      along a es (some s₁) types s ds (process_event e w).1 same.1 first.calm first.table
        first.staged (tail-eq_of_cons-eq q) path)
along a [] s' ts' s ts w same calm table p q (via move path) = cc
along a (e ∷ es) s' ts' s ts w same calm table p q arrived = cc

-- A run of the orchestrator over events of one order, one after the other and with no call failing, where
-- the saga ids are distinct and made from the orders' ids. When the events lead from the state
-- of the order's saga, or from there being none, along the table of moves to a state, every event
-- is handled without an error; the order's saga is found in that state; and Kafka gets exactly the
-- messages that the moves list, of these types and in this order, each with the order's id as its
-- key. The saga ids are still distinct and made from the orders' ids.
pub process_all-IsMoved :
    (a : String) (es : List EventEnvelope) (s : Option SagaState) (ts : List EventType) (w : World)
    → All (λ e. e.aggregate_id ≡ a) es
    → w.outcomes ≡ []
    → IsSagaTable w.db.saga_instances
    → Route (stage a w) (map (λ e. e.event_type) es) s ts
    → IsMoved a s ts w (process_all es w)
process_all-IsMoved a es s ts w same calm table path =
    along a es _ _ s ts w same calm table refl refl path

-- ===== src/System/Runs.antt =====
-- Any run of the system: a condition that each part keeps is kept by every sequence of actions.
use event_driven_kafka.Base.{List, [], ◌∷◌}
use event_driven_kafka.Contracts.{EventEnvelope}
use event_driven_kafka.World.{Outcome}
use event_driven_kafka.Exec.Rules.{Cond}
use event_driven_kafka.Http.Switches.{post_switch, post_fraud_latency, post_reset}
use event_driven_kafka.Relay.{Relay, process_batch}
use event_driven_kafka.Saga.{process_event}
use event_driven_kafka.System.{
  Group, payment, inventory, fraud, shipping, notification, saga, projection, handler, System,
  Action, order, replay, resend, switch, fraud_latency, reset_chaos, sweep, deliver, wait, consume,
  act, facing, run, given_to,
}
use event_driven_kafka.System.Messages.{IsNamed, handle_message-Keeps}
use event_driven_kafka.System.Frame.{Keeps, IsBlind, Grows, sleep-Keeps}
use event_driven_kafka.System.Projections.{Appendable, project_event-Keeps}
use event_driven_kafka.System.Requests.{
  Insertable, post_orders-Keeps, post_replay-Keeps, post_dlq_replay-Keeps,
}
use event_driven_kafka.System.Services.{
  payment_process-Keeps, inventory_process-Keeps, fraud_process-Keeps, shipping_process-Keeps,
  notification_process-Keeps,
}

-- What a condition needs so that no part of the system breaks it.
pub record IsStable (C : Cond) : Type 0 where
  pub blind : IsBlind C
  pub grows : Grows C
  pub appendable : Appendable C
  pub insertable : Insertable C
  pub swept : (relay : Relay) → Keeps C (process_batch relay)
  pub orchestrated : (e : EventEnvelope) → IsNamed e → Keeps C (process_event e)

module _ (C : Cond) (s : IsStable C) where
  abbrev Now : System → Type 0
  Now t = C t.world.db t.world.kafka

  handler-Keeps : (g : Group) (e : EventEnvelope) → IsNamed e → Keeps C (handler g e)
  unfolding handler
  handler-Keeps payment e n = payment_process-Keeps C s.grows e
  handler-Keeps inventory e n = inventory_process-Keeps C s.grows e
  handler-Keeps fraud e n = fraud_process-Keeps C s.grows e
  handler-Keeps shipping e n = shipping_process-Keeps C s.grows e
  handler-Keeps notification e n = notification_process-Keeps C s.grows e
  handler-Keeps saga e n = s.orchestrated e n
  handler-Keeps projection e n = project_event-Keeps C s.blind s.appendable e

  act-Now : (a : Action) (t : System) → Now t → Now (act a t)
  unfolding act consume post_switch post_fraud_latency post_reset
  act-Now (order body) t c = (post_orders-Keeps C s.blind s.insertable body).at t.world c
  act-Now (replay body) t c = (post_replay-Keeps C s.blind body).at t.world c
  act-Now (resend id) t c = (post_dlq_replay-Keeps C s.blind s.grows id).at t.world c
  act-Now (switch f body) t c = c
  act-Now (fraud_latency body) t c = c
  act-Now reset_chaos t c = c
  act-Now (sweep relay) t c = (s.swept relay).at t.world c
  act-Now (deliver g d) t c =
      (handle_message-Keeps C s.blind s.grows (handler g) (handler-Keeps g) d).at (given_to g t) c
  act-Now (wait ms) t c = (sleep-Keeps C ms).at t.world c

  pub run-Now : (actions : List (Action × List Outcome)) (t : System) → Now t → Now (run actions t)
  unfolding run
  run-Now [] t c = c
  run-Now ((a, os) ∷ actions) t c = run-Now actions _ (act-Now a (facing os t) c)

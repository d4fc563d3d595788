-- ===== src/System.antt =====
-- src/index.ts: the parts of the process as it wires them, over one database and one Kafka cluster. An
-- action is one handler that runs from its start to its end; between two actions anything may run.
-- A crash in the middle of a handler is left out.
pub mod Frame
pub mod Services
pub mod Orchestrator
pub mod Projections
pub mod Requests
pub mod Sweeps
pub mod Runs
pub mod Invariants
pub mod Journey
pub mod Posted
pub mod Arrival
pub mod Messages
use event_driven_kafka.Base.{ℕ, String, List, [], ◌∷◌}
use event_driven_kafka.Json.{Json}
use event_driven_kafka.Contracts.{EventEnvelope}
use event_driven_kafka.Contracts.Topics
use event_driven_kafka.World.{World, Outcome, Consumer, new_consumer}
use event_driven_kafka.Exec.{Exec, sleep}
use event_driven_kafka.BaseConsumer.{Delivery, handle_message}
use event_driven_kafka.Http.{post_orders, post_dlq_replay, post_replay}
use event_driven_kafka.Http.Switches.{Switch, post_switch, post_fraud_latency, post_reset}
use event_driven_kafka.Projection.{project_event}
use event_driven_kafka.Relay.{Relay, process_batch}
use event_driven_kafka.Saga.{process_event}
use event_driven_kafka.Screening.{fraud_process, notification_process}
use event_driven_kafka.Workers.{payment_process, inventory_process, shipping_process}
use mathlib.Core.Logic.{ite}

-- The consumers that the process starts.
pub data Group : Type 0 where
  payment inventory fraud shipping notification saga projection : Group

-- super(topicName, …) of each consumer.
unfoldable pub topics_of : Group → List String
topics_of payment = Topics.payments ∷ []
topics_of inventory = Topics.inventory ∷ []
topics_of fraud = Topics.fraud ∷ []
topics_of shipping = Topics.shipping ∷ []
topics_of notification = Topics.notifications ∷ []
topics_of saga =
    Topics.orders ∷ Topics.payments ∷ Topics.inventory ∷ Topics.fraud ∷ Topics.shipping ∷ []
topics_of projection =
    Topics.orders ∷ Topics.payments ∷ Topics.inventory ∷ Topics.fraud ∷ Topics.shipping
    ∷ Topics.notifications ∷ []

unfoldable pub name_of : Group → String
name_of payment = "payment-service"
name_of inventory = "inventory-service"
name_of fraud = "fraud-service"
name_of shipping = "shipping-service"
name_of notification = "notification-service"
name_of saga = "saga-orchestrator"
name_of projection = "projection-consumer"

-- The method processEvent of each class.
unfoldable pub handler : Group → EventEnvelope → Exec (Unit {0})
handler payment = payment_process
handler inventory = inventory_process
handler fraud = fraud_process
handler shipping = shipping_process
handler notification = notification_process
handler saga = process_event
handler projection = project_event

-- The field `consumer` of `world` is that of the consumer that ran last.
pub record System : Type 0 where
  pub world : World
  pub consumers : Group → Consumer

pub Group-discrete : Discrete Group
Group-discrete = hlevel

-- A request, a sweep of a relay, a message given to a consumer, or a wait.
pub data Action : Type 0 where
  order : Json → Action
  replay : Json → Action
  resend : String → Action
  switch : Switch → Json → Action
  fraud_latency : Json → Action
  reset_chaos : Action
  sweep : Relay → Action
  deliver : Group → Delivery → Action
  wait : ℕ → Action

abbrev pub serve {ℓ} : {A : Type ℓ} → Exec A → System → System
serve m s = record s { world = (m s.world).1 }

abbrev pub replaced : Group → Consumer → (Group → Consumer) → Group → Consumer
replaced g c cs h = ite (Group-discrete h g) c (cs h)

abbrev pub given_to : Group → System → World
given_to g s = record s.world { consumer = s.consumers g }

unfoldable pub consume : Group → Delivery → System → System
consume g d s =
    let w = (handle_message (handler g) d (given_to g s)).1 in
    record { world = w; consumers = replaced g w.consumer s.consumers }

unfoldable pub act : Action → System → System
act (order body) = serve (post_orders body)
act (replay body) = serve (post_replay body)
act (resend id) = serve (post_dlq_replay id)
act (switch f body) = serve (post_switch f body)
act (fraud_latency body) = serve (post_fraud_latency body)
act reset_chaos = serve post_reset
act (sweep relay) = serve (process_batch relay)
act (deliver g d) = consume g d
act (wait ms) = serve (sleep ms)

abbrev pub facing : List Outcome → System → System
facing os s = record s { world = record s.world { outcomes = os } }

-- The actions, each with what becomes of its calls.
unfoldable pub run : List (Action × List Outcome) → System → System
run [] s = s
run ((a, os) ∷ rest) s = run rest (act a (facing os s))

-- The consumers as the process makes them.
abbrev pub system_on : World → System
system_on w = record { world = w; consumers = λ g. new_consumer (name_of g) }

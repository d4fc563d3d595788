-- ===== src/BaseConsumer/Lifecycle.antt =====
-- src/consumers/base-consumer.ts, start and stop. A call of the Kafka client only succeeds or fails here.
use event_driven_kafka.Base.{String, List, [], ◌∷◌}
use event_driven_kafka.World.{Consumer, healthy, down}
use event_driven_kafka.Exec.{Exec, pure, throw, ◌>>◌, call, try_catch}
use event_driven_kafka.BaseConsumer.{update}

abbrev pub kafka_call : Exec (Unit {0})
kafka_call = call (pure tt)

-- The loop over the topics.
unfoldable pub subscribe_all : List String → Exec (Unit {0})
subscribe_all [] = pure tt
subscribe_all (t ∷ ts) = kafka_call >> subscribe_all ts

abbrev pub set_healthy : String → Consumer → Consumer
set_healthy now c = record c { status = healthy }

abbrev pub set_down : String → Consumer → Consumer
set_down now c = record c { status = down }

-- The two clients connect, the topics are subscribed to, and the consumer runs.
unfoldable pub start : List String → Exec (Unit {0})
start topics =
    try_catch (do kafka_call; kafka_call; subscribe_all topics; kafka_call; update set_healthy)
      (λ e. update set_down >> throw e)

unfoldable pub stop : Exec (Unit {0})
stop = update set_down >> try_catch (kafka_call >> kafka_call) (λ e. pure tt)

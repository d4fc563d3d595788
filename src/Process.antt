-- ===== src/Process.antt =====
-- src/index.ts: the start of the process and its end, with initialize of src/services/database.ts. What the
-- Kafka admin client lists and creates, and createTables, are given. The timer of the metrics is in
-- Http/Dashboard.antt; the HTTP server only listens and closes.
pub mod Startup
use event_driven_kafka.Base.{
  ℕ, zero, suc, String, Bool, true, false, not, List, [], ◌∷◌, map, Option, none, some, ◌==◌, any,
  where_rows,
}
use event_driven_kafka.BaseConsumer.Lifecycle.{kafka_call}
use event_driven_kafka.BaseConsumer.Lifecycle
use event_driven_kafka.Config.{Topic, topics}
use event_driven_kafka.World.{Consumer}
use event_driven_kafka.Exec.{
  Result, ok, err, Exec, pure, throw, ◌>>=◌, ◌>>◌, call, query, sleep, try_catch,
}
use event_driven_kafka.System.{
  Group, payment, inventory, fraud, shipping, notification, saga, projection, topics_of, System,
  replaced, given_to,
}

-- getConsumersStatus
abbrev pub all_groups : List Group
all_groups = payment ∷ inventory ∷ fraud ∷ shipping ∷ notification ∷ saga ∷ projection ∷ []

unfoldable pub consumers_status : System → List Consumer
consumers_status s = map s.consumers all_groups

-- The topics that the cluster lacks.
unfoldable pub topics_to_create : List String → List Topic
topics_to_create existing = where_rows (λ t. not (any (λ n. n == t.name) existing)) topics

abbrev create_missing : (List Topic → Exec (Unit {0})) → List Topic → Exec (Unit {0})
create_missing create [] = pure tt
create_missing create (t ∷ ts) = create (t ∷ ts)

-- A `finally` block that makes a call: its error takes the place of the outcome.
abbrev finally : Exec (Unit {0}) → Exec (Unit {0}) → Exec (Unit {0})
finally m last = try_catch m (λ e. last >> throw e) >> last

module _ (list_topics : Exec (List String)) (create : List Topic → Exec (Unit {0}))
    (create_tables : Exec (Unit {0})) where
  unfoldable pub create_topics : Exec (Unit {0})
  create_topics = do
    kafka_call
    finally (list_topics >>= λ existing. create_missing create (topics_to_create existing))
        kafka_call

  abbrev connect_once : Exec (Unit {0})
  connect_once = do call {A = Unit {0}} (pure tt); query {A = Unit {0}} (λ db. tt); create_tables

  -- The loop of initialize; `left` counts the attempts after this one.
  unfoldable pub initialize : ℕ → Exec (Unit {0})
  initialize zero = connect_once
  initialize (suc left) = try_catch connect_once (λ e. sleep 2000 >> initialize left)

  abbrev replay_connect : Exec (Unit {0})
  replay_connect = kafka_call

  abbrev relay_connect : Exec (Unit {0})
  relay_connect = kafka_call

  abbrev pub connect_services : Exec (Unit {0})
  connect_services = do initialize 9; create_topics; replay_connect; relay_connect

abbrev serve_as : Group → Exec (Unit {0}) → System → Result (Unit {0}) × System
serve_as g m s =
    let (r, w) = m (given_to g s) in
    (r, record { world = w; consumers = replaced g w.consumer s.consumers })

abbrev both : Result (Unit {0}) → Result (Unit {0}) → Result (Unit {0})
both (ok u) r = r
both (err e) r = err e

-- Promise.all of the starts: all of them run, and the first error is the outcome, with which
-- `start_process` ends the process.
unfoldable pub start_consumers : List Group → System → Result (Unit {0}) × System
start_consumers [] s = (ok tt, s)
start_consumers (g ∷ gs) s =
    let (r, s₁) = serve_as g (Lifecycle.start (topics_of g)) s in
    let (q, s₂) = start_consumers gs s₁ in (both r q, s₂)

-- Promise.allSettled of the stops.
unfoldable pub stop_consumers : List Group → System → System
stop_consumers [] s = s
stop_consumers (g ∷ gs) s = stop_consumers gs (serve_as g Lifecycle.stop s).1

module _ (list_topics : Exec (List String)) (create : List Topic → Exec (Unit {0}))
    (create_tables : Exec (Unit {0})) where
  abbrev pub exit_code : Result (Unit {0}) → Option ℕ
  exit_code (ok u) = none
  exit_code (err e) = some 1

  abbrev pub start_after : Result (Unit {0}) → System → Option ℕ × System
  start_after (err e) s = (some 1, s)
  start_after (ok u) s = let (r, s') = start_consumers all_groups s in (exit_code r, s')

  -- start: the code that the process exits with, where it does.
  unfoldable pub start_process : System → Option ℕ × System
  start_process s =
      let (r, w) = connect_services list_topics create create_tables s.world in
      start_after r (record s { world = w })

abbrev settle_call : System → System
settle_call s = record s { world = (kafka_call s.world).1 }

-- shutdown, given whether it has begun before: the relay, the consumers and the replay service stop,
-- then the database disconnects, and the process exits.
unfoldable pub shutdown : Bool → System → Option ℕ × System
shutdown true s = (none, s)
shutdown false s = (some 0, settle_call (settle_call (stop_consumers all_groups (settle_call s))))

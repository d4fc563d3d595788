-- ===== src/Tests/ProcessRuns.antt =====
-- The start of the process, its probes and metrics, and the relay's timers, on concrete inputs.
use event_driven_kafka.Base.{◌⊎◌, String, arith, List, [], ◌∷◌, true, none, ◌≡◌, refl, length}
use event_driven_kafka.Json.{Json, num}
use event_driven_kafka.Contracts.Topics
use event_driven_kafka.BaseConsumer.{update}
use event_driven_kafka.BaseConsumer.Lifecycle
use event_driven_kafka.Config.{topics}
use event_driven_kafka.World.{World, done, refused, plain_world}
use event_driven_kafka.Exec.{Exec, pure, ok, err, call, try_catch, ◌>>=◌}
use event_driven_kafka.Exec.Worlds.{calm}
use event_driven_kafka.Http.{Response, Answer}
use event_driven_kafka.Http.Dashboard.{Requests, Dashboard, percentile, get_dashboard}
use event_driven_kafka.Http.Dashboard.Counts.{IsShown, metrics_are_bounded}
use event_driven_kafka.Process.{
  all_groups, topics_to_create, start_consumers, start_process, shutdown,
}
use event_driven_kafka.Process.Startup.{HasExited, Serves, start_then_health}
use event_driven_kafka.Relay.Lifecycle.{
  Event, new_relay, start_called, connect_done, stop_called, timer_fires, step, run, IsSteady,
  run-IsSteady,
}
use event_driven_kafka.Config.{Topic}
use event_driven_kafka.System.{System, system_on, topics_of}
use event_driven_kafka.Tests.Fixtures.{no_broker}

-- The sixth call is refused: the inventory consumer cannot connect.
abbrev at_start : System
at_start =
    system_on
      (plain_world "main" (done ∷ done ∷ done ∷ done ∷ done ∷ done ∷ refused no_broker ∷ []))

abbrev later : World
later = plain_world "main" []

abbrev no_topics : Exec (List String)
no_topics = pure []

abbrev created : List Topic → Exec (Unit {0})
created ts = pure tt

start_then_health_example :
    HasExited no_topics created
      (pure tt)
      at_start
      (start_process no_topics created (pure tt) at_start)
    ⊎ Serves no_topics created (pure tt) later (start_process no_topics created (pure tt) at_start)
start_then_health_example = start_then_health no_topics created (pure tt) at_start later

started_fails : (start_consumers all_groups at_start).0 ≡ err no_broker
unfolding start_consumers Lifecycle.start try_catch ◌>>=◌ call Lifecycle.subscribe_all topics_of
    update
started_fails = refl

abbrev requests : Requests
requests = record { total = 3; durations = 30 ∷ 10 ∷ 20 ∷ [] }

median : percentile 50 requests.durations ≡ 20
unfolding percentile
median = refl

abbrev no_average : List String → Json
no_average amounts = num 0

metrics_are_bounded_example :
    (res : Response (Answer Dashboard)) × ((get_dashboard no_average requests [] later).0 ≡ ok res)
    × (calm (get_dashboard no_average requests [] later).1 ≡ calm later)
    × IsShown no_average requests [] later.db res
metrics_are_bounded_example = metrics_are_bounded no_average requests [] later

-- Two calls of start overlap, and stop clears only the timer that was set last: the other one fires
-- afterwards, and a sweep begins in a relay that is stopped.
abbrev overlapping : List Event
overlapping =
    start_called ∷ start_called ∷ connect_done ∷ connect_done ∷ stop_called ∷ timer_fires 0 ∷ []

sweep_after_stop : length (run overlapping new_relay).sweeps ≡ 1
unfolding run step
sweep_after_stop = refl

run-IsSteady_example : IsSteady (run overlapping new_relay)
run-IsSteady_example =
    run-IsSteady overlapping new_relay
      (record { single = omega arith; flagged = refl; polls = λ p. cc })

created_once : length (topics_to_create (Topics.orders ∷ Topics.dlq ∷ [])) ≡ 12
unfolding topics_to_create topics
created_once = refl

stopped : (shutdown true at_start).0 ≡ none
unfolding shutdown
stopped = refl

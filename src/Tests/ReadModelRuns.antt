-- ===== src/Tests/ReadModelRuns.antt =====
-- The event store, the projections and the replay on concrete events.
use event_driven_kafka.Base.{
  String, ◌==◌, List, [], ◌∷◌, ◌++◌, Option, none, some, ◌≡◌, refl, if◌then◌else◌,
}
use event_driven_kafka.Json.{str, end, field, obj}
use event_driven_kafka.Contracts.{EventEnvelope, order_created, payment_rejected}
use event_driven_kafka.Database.{Db, empty_db}
use event_driven_kafka.Database.EventStore.{
  EventRow, event_row, append_to_event_store, get_events_by_aggregate_id,
}
use event_driven_kafka.Database.EventStore.Log.{IsLog, added, append_extends_log}
use event_driven_kafka.Database.Dlq.{DlqRow, unresolved}
use event_driven_kafka.Database.ReadModels.{find_order, is_projection_event_applied}
use event_driven_kafka.World.{World, plain_env, plain_world, refused}
use event_driven_kafka.Exec.{ok, with_transaction, query, attempt}
use event_driven_kafka.Exec.Worlds.{calm}
use event_driven_kafka.Exec.Changes.{with_db}
use event_driven_kafka.Projection.{apply_historical_event, execute_in_tx, run_statements}
use event_driven_kafka.Projection.Statements.{statements_of, new_view}
use event_driven_kafka.Projection.Effects.{projected, run_all, Applied, apply_atomic, apply_once}
use event_driven_kafka.Projection.Views.{view_step, projected_view}
use event_driven_kafka.Replay.{ReplayResult, success, replay_aggregate, replay_dlq}
use event_driven_kafka.Replay.Rebuild.{IsRebuilt, replay_rebuilds}
use event_driven_kafka.Replay.DeadLetters.{DlqReplayed, replay_dlq_once}
use event_driven_kafka.Tests.Fixtures.{apart, event_of, no_broker}

abbrev pub created : EventEnvelope
created = record (event_of order_created) {
  payload = field "user_id" (str "u1") (field "total_amount" (str "40.00") end);
}

abbrev rejected : EventEnvelope
rejected = record (event_of payment_rejected) {
  event_id = "evt_2";
  payload = field "reason" (str "no funds") end;
}

abbrev log : List EventRow
log = event_row created 1 ∷ []

log-IsLog : IsLog log
log-IsLog = record { keyed = (tt, tt); numbered = (tt, tt) }

pub two_events-IsLog : IsLog (log ++ event_row rejected 2 ∷ [])
two_events-IsLog = record {
  keyed = ((apart "evt_2" "evt_1" refl, tt), (tt, tt));
  numbered = ((refl, tt), (tt, tt));
}

append_extends_log_example :
    (after : List EventRow) × (append_to_event_store plain_env.fits_columns rejected log
      ≡ some after)
    × ((a : String)
        → get_events_by_aggregate_id plain_env.stored_time a after
          ≡ get_events_by_aggregate_id plain_env.stored_time a log
            ++ added plain_env.stored_time rejected a log)
append_extends_log_example =
    append_extends_log plain_env.fits_columns plain_env.stored_time rejected log refl refl

abbrev pub world_at : Db → World
world_at db = record (plain_world "projection-consumer" []) { db = db }

abbrev failing : World
failing = record (world_at empty_db) { outcomes = refused no_broker ∷ [] }

apply_atomic_example :
    Applied created
      (calm failing)
      (apply_historical_event created failing).0
      (calm (apply_historical_event created failing).1)
apply_atomic_example = apply_atomic created failing

apply_once_example :
    let first = (apply_historical_event created (world_at empty_db)).1 in
    calm (apply_historical_event created first).1 ≡ calm first
unfolding apply_historical_event with_transaction execute_in_tx query is_projection_event_applied
    run_statements statements_of attempt new_view
apply_once_example = apply_once created (world_at empty_db) refl

abbrev pub or_empty : Option Db → Db
or_empty none = empty_db
or_empty (some db) = db

abbrev projected_db : Db
projected_db = or_empty (projected created plain_env 1000 empty_db)

projected_view_example : find_order "ord_1" projected_db.order_read_model ≡ (
    if created.aggregate_id == "ord_1"
    then view_step order_created plain_env created (find_order "ord_1" [])
    else find_order "ord_1" [])
unfolding projected run_all statements_of new_view
projected_view_example = projected_view "ord_1" plain_env 1000 created empty_db projected_db refl

abbrev pub stored : World
stored = world_at (record empty_db { event_store = log ++ event_row rejected 2 ∷ [] })

replay_rebuilds_example :
    (r : ReplayResult) × (db : Db) × ((replay_aggregate "ord_1" stored).0 ≡ ok r)
    × (calm (replay_aggregate "ord_1" stored).1 ≡ with_db (calm stored) db)
    × (r.status ≡ success → IsRebuilt "ord_1" (calm stored) r db)
replay_rebuilds_example = replay_rebuilds "ord_1" stored two_events-IsLog tt

abbrev dead_letter : DlqRow
dead_letter = record {
  message = record {
    id = "dlq_1";
    event_id = "evt_1";
    topic = "payments.events";
    partition = 0;
    offset = "7";
    consumer_name = "payment-consumer";
    error_message = "no broker";
    stack_trace = none;
    payload = field "original_event" (obj (field "aggregate_id" (str "ord_1") end)) end;
    correlation_id = none;
  };
  attempts = 1;
  status = unresolved;
  failed_at = 900;
  resolved_at = none;
}

abbrev with_dead_letter : World
with_dead_letter = world_at (record empty_db { dlq_messages = dead_letter ∷ [] })

replay_dlq_once_example :
    DlqReplayed "dlq_1"
      (calm with_dead_letter)
      (replay_dlq "dlq_1" with_dead_letter).0
      (calm (replay_dlq "dlq_1" with_dead_letter).1)
replay_dlq_once_example = replay_dlq_once "dlq_1" with_dead_letter

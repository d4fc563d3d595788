-- ===== src/Replay.antt =====
-- src/replay/event-replay-service.ts, with the projection consumer that the program gives it. Logging is
-- left out.
pub mod Loop
pub mod Reset
pub mod Rebuild
pub mod Live
pub mod Synced
pub mod Success
pub mod Stock
pub mod Resend
pub mod DeadLetters
use event_driven_kafka.Base.{ℕ, ◌-◌, String, ◌<>◌, List, [], ◌∷◌, Option, none, some, length}
use event_driven_kafka.Json.{Json, undefined, null, num, str, get, prop, ◌or◌, wire, text_of}
use event_driven_kafka.Contracts.{EventEnvelope}
use event_driven_kafka.Database.Orders.{Order}
use event_driven_kafka.Database.Dlq.{
  DlqStatus, unresolved, replaying, replayed, discarded, DlqRow, set_dlq_status, get_dlq_message,
}
use event_driven_kafka.Database.Processed.{reset_processed_event_for_replay}
use event_driven_kafka.World.{Error, Message, json}
use event_driven_kafka.Exec.{
  Exec, pure, throw, gets, ◌>>=◌, ◌>>◌, query, statement, send, now_iso, try_catch,
}
use event_driven_kafka.Projection.{apply_historical_event}
use event_driven_kafka.Queries.{get_events, reset_read_model_for_aggregate, get_order}

pub data ReplayStatus : Type 0 where
  success failure : ReplayStatus

-- `reconstructed_state` is absent, or what getOrder returned.
pub record ReplayResult : Type 0 where
  pub replay_id : String
  pub target : String
  pub events_processed : ℕ
  pub duration_ms : ℕ
  pub status : ReplayStatus
  pub reconstructed_state : Option (Option Order)
  pub error : Option String

unfoldable pub apply_events : List EventEnvelope → Exec (Unit {0})
apply_events [] = pure tt
apply_events (e ∷ es) = apply_historical_event e >> apply_events es

abbrev pub failed_result : String → String → ℕ → Error → Exec ReplayResult
failed_result id target started x = gets λ w. record {
  replay_id = id;
  target = target;
  events_processed = 0;
  duration_ms = w.clock - started;
  status = failure;
  reconstructed_state = none;
  error = some x.message;
}

-- The `try` block of replayAggregate.
unfoldable pub rebuild : String → String → ℕ → Exec ReplayResult
rebuild a id started = do
  events ← get_events a
  reset_read_model_for_aggregate a
  apply_events events
  state ← get_order a
  now ← gets (λ w. w.clock)
  pure (record {
    replay_id = id;
    target = a;
    events_processed = length events;
    duration_ms = now - started;
    status = success;
    reconstructed_state = some state;
    error = none;
  })

unfoldable pub replay_aggregate : String → Exec ReplayResult
replay_aggregate a = do
  started ← gets (λ w. w.clock)
  let id = "rpl_" <> text_of (num started)
  try_catch (rebuild a id started) (failed_result id a started)

abbrev pub set_status : String → DlqStatus → Exec (Unit {0})
set_status id status =
    statement
      λ now db. (tt, record db { dlq_messages = set_dlq_status id status now db.dlq_messages })

abbrev pub reset_processed : DlqRow → Exec (Unit {0})
reset_processed row = statement λ now db. (
  tt,
  record db {
    processed_events =
        reset_processed_event_for_replay row.message.event_id (some row.message.consumer_name)
          db.processed_events;
  },
)

-- The TypeError of a read of a property of undefined or null; its stack is left out.
abbrev pub no_event : Error
no_event = record {
  message = "Cannot read properties of undefined (reading 'aggregate_id')";
  stack = none;
}

abbrev pub replayed_message : String → DlqRow → Json → String → Message
replayed_message id row event now = record {
  topic = row.message.topic;
  key = text_of (prop "aggregate_id" event or str row.message.event_id);
  value = json (wire event);
  headers = ("replayed-from-dlq", id) ∷ ("replayed-at", now) ∷ ("source-dlq-id", id) ∷ [];
}

abbrev pub send_original : String → DlqRow → Json → Exec (Unit {0})
send_original id row undefined = throw no_event
send_original id row null = throw no_event
send_original id row event = now_iso >>= λ now. send (replayed_message id row event now)

abbrev pub redelivered : String → DlqRow → ℕ → Exec ReplayResult
redelivered id row started = gets λ w. record {
  replay_id = id;
  target = row.message.topic;
  events_processed = 1;
  duration_ms = w.clock - started;
  status = success;
  reconstructed_state = none;
  error = none;
}

-- The `try` block of replayDLQ.
unfoldable pub resend : String → DlqRow → ℕ → Exec ReplayResult
resend id row started = do
  set_status id replaying
  reset_processed row
  send_original id row (get "original_event" row.message.payload)
  set_status id replayed
  redelivered id row started

-- Its `catch` block, where the failure to reset the status is ignored.
abbrev pub give_back : String → DlqRow → ℕ → Error → Exec ReplayResult
give_back id row started x = try_catch (set_status id unresolved) (λ y. pure tt) >>= λ u.
    failed_result id row.message.topic started x

abbrev pub plain_error : String → Error
plain_error m = record { message = m; stack = none }

abbrev pub replay_row : String → ℕ → DlqStatus → DlqRow → Exec ReplayResult
replay_row id started discarded row =
    throw (plain_error ("Cannot replay discarded DLQ message " <> id))
replay_row id started _ row = try_catch (resend id row started) (give_back id row started)

abbrev pub replay_found : String → ℕ → Option DlqRow → Exec ReplayResult
replay_found id started none = throw (plain_error ("DLQ message " <> id <> " not found"))
replay_found id started (some row) = replay_row id started row.status row

unfoldable pub replay_dlq : String → Exec ReplayResult
replay_dlq id = do
  started ← gets (λ w. w.clock)
  row ← query (λ db. get_dlq_message id db.dlq_messages)
  replay_found id started row

-- ===== src/Projection.antt =====
-- src/application/projections/projection-consumer.ts: the read models and the live notifications. The
-- gateway is there, as where the program starts this consumer. Logging is left out.
pub mod Statements
pub mod Notifications
pub mod Effects
pub mod Views
pub mod Marks
use event_driven_kafka.Base.{String, Bool, List, [], ◌∷◌, Option, none, some, if◌then◌else◌}
use event_driven_kafka.Json.{◌or◌}
use event_driven_kafka.Contracts.{EventEnvelope, text_or}
use event_driven_kafka.Database.{Db}
use event_driven_kafka.Database.EventStore.{EventRow, append_to_event_store, record_event}
use event_driven_kafka.Database.ReadModels.{
  is_projection_event_applied, mark_projection_event_applied,
}
use event_driven_kafka.Exec.{
  Exec, pure, throw, ◌>>◌, query, Sql, attempt, statement, with_transaction, try_catch, ◌>>=◌,
}
use event_driven_kafka.Projection.Statements.{Step, sql, throws, statements_of}
use event_driven_kafka.Projection.Notifications.{emit_live_notifications}

abbrev pub perform : Step → Exec (Unit {0})
perform (sql s) = attempt s
perform (throws x) = throw x

unfoldable pub run_statements : List Step → Exec (Unit {0})
run_statements [] = pure tt
run_statements (s ∷ rest) = perform s >> run_statements rest

abbrev pub projection : String
projection = "order-fulfillment-projection"

abbrev pub mark_applied : EventEnvelope → Sql
mark_applied e env now db = some (record db {
  projection_applied_events =
      mark_projection_event_applied projection e.event_id e.aggregate_id now
        db.projection_applied_events;
})

abbrev pub is_applied : EventEnvelope → Db → Bool
is_applied e db = is_projection_event_applied projection e.event_id db.projection_applied_events

-- executeInTx
unfoldable pub execute_in_tx : EventEnvelope → Exec (Unit {0})
execute_in_tx e = do
  applied ← query (is_applied e)
  if applied
      then pure tt
      else do run_statements (statements_of e.event_type e); attempt (mark_applied e)

-- applyHistoricalEvent without a client of its caller; no caller gives one.
unfoldable pub apply_historical_event : EventEnvelope → Exec (Unit {0})
apply_historical_event e = with_transaction (execute_in_tx e)

abbrev pub set_events : Db → Option (List EventRow) → Option Db
set_events db none = none
set_events db (some rows) = some (record db { event_store = rows })

-- appendToEventStore: the advisory lock, whose failure is caught, and the INSERT, in a transaction.
unfoldable pub store_event : EventEnvelope → Exec (Unit {0})
store_event e = with_transaction do
  try_catch (query λ db. tt) (λ x. pure tt)
  attempt (λ env now db. set_events db (append_to_event_store env.fits_columns e db.event_store))

abbrev pub record_in_timeline : EventEnvelope → Exec (Unit {0})
record_in_timeline e = statement λ now db. (
  tt,
  record db {
    order_events =
        record_event e.aggregate_id e.event_type (text_or (some e.producer) "system") now
          db.order_events;
  },
)

-- processEvent
unfoldable pub project_event : EventEnvelope → Exec (Unit {0})
project_event e = do
  store_event e
  record_in_timeline e
  apply_historical_event e
  emit_live_notifications e

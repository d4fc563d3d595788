-- ===== src/Tests/ReplayRuns.antt =====
-- The live projection and the replay on concrete events.
use event_driven_kafka.Base.{[], ◌∷◌, ◌≡◌, refl}
use event_driven_kafka.Json.{str, num, arr, obj, cons, nil, end, field, wire_fields}
use event_driven_kafka.Contracts.{EventEnvelope, inventory_reserved}
use event_driven_kafka.Database.{Db, empty_db}
use event_driven_kafka.Database.EventStore.{
  last_sequence, get_events_by_aggregate_id, append_to_event_store, insert_event,
}
use event_driven_kafka.Database.EventStore.Log.{IsLog}
use event_driven_kafka.Database.ReadModels.{
  delete_applied_events, find_order, reserve_stock, is_projection_event_applied,
  mark_projection_event_applied,
}
use event_driven_kafka.World.{plain_world, World, World, plain_env}
use event_driven_kafka.Exec.{with_transaction, query, statement, attempt, ◌>>=◌, try_catch}
use event_driven_kafka.Projection.{
  project_event, store_event, apply_historical_event, execute_in_tx, run_statements,
}
use event_driven_kafka.Projection.Notifications.{emit_live_notifications}
use event_driven_kafka.Projection.Statements.{statements_of, new_view}
use event_driven_kafka.Replay.Loop.{view_after}
use event_driven_kafka.Replay.Live.{InSync, IsPlain}
use event_driven_kafka.Replay.Synced.{project_event-InSync}
use event_driven_kafka.Queries.{reset_read_model_for_aggregate}
use event_driven_kafka.Replay.Stock.{
  reset_after, IsReservation, reserved_in, plus, stock_reserved_twice,
}
use event_driven_kafka.Tests.Fixtures.{event_of}
use event_driven_kafka.Tests.ReadModelRuns.{created, world_at}

empty-InSync : InSync plain_env empty_db
unfolding view_after get_events_by_aggregate_id find_order
empty-InSync a = refl

created-IsPlain : IsPlain plain_env.stored_time created
unfolding wire_fields
created-IsPlain = record { unnumbered = refl; dated = refl; payload = refl }

project_event-InSync_example : InSync plain_env (project_event created (world_at empty_db)).1.db
unfolding is_projection_event_applied project_event ◌>>=◌ store_event with_transaction try_catch
    query attempt append_to_event_store insert_event statement apply_historical_event execute_in_tx
    run_statements statements_of new_view emit_live_notifications
project_event-InSync_example =
    project_event-InSync created (world_at empty_db) empty-InSync created-IsPlain refl refl refl

abbrev live : World
live = (project_event created (world_at empty_db)).1

live-IsLog : IsLog live.db.event_store
unfolding is_projection_event_applied project_event ◌>>=◌ store_event with_transaction try_catch
    query attempt append_to_event_store insert_event statement apply_historical_event execute_in_tx
    run_statements statements_of new_view emit_live_notifications last_sequence
live-IsLog = record { keyed = (tt, tt); numbered = (tt, tt) }

abbrev reservation : EventEnvelope
reservation = record (event_of inventory_reserved) {
  payload =
      field "items"
        (arr (cons (obj (field "sku" (str "SKU_1") (field "quantity" (num 3) end))) nil)) end;
}

reservation-IsReservation : IsReservation plain_env reservation "SKU_1" 3
reservation-IsReservation = record {
  item = field "sku" (str "SKU_1") (field "quantity" (num 3) end);
  event_type = refl;
  items = refl;
  article = refl;
  amount = refl;
}

abbrev in_stock : Db
in_stock = record empty_db {
  inventory_read_model =
      record {
        sku = "SKU_1";
        name = "Lamp";
        total_stock = 100;
        reserved_stock = 0;
        available_stock = 100;
        updated_at = "2026-01-01T00:00:00.000Z";
      }
      ∷ [];
}

abbrev stocked : World
stocked = record (plain_world "projection-consumer" []) { db = in_stock }

stock_reserved_twice_example :
    reserved_in "SKU_1"
      (apply_historical_event reservation (reset_after reservation stocked).1).1.db
    ≡ plus 6 (reserved_in "SKU_1" in_stock)
unfolding apply_historical_event execute_in_tx with_transaction query attempt statement ◌>>=◌
    run_statements statements_of reserve_stock reset_read_model_for_aggregate
    is_projection_event_applied mark_projection_event_applied delete_applied_events
stock_reserved_twice_example =
    stock_reserved_twice reservation "SKU_1" 3 stocked reservation-IsReservation refl refl refl refl

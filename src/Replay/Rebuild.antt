-- ===== src/Replay/Rebuild.antt =====
-- src/replay/event-replay-service.ts, replayAggregate: the read model of an order is rebuilt from its log.
use event_driven_kafka.Base.{
  ℕ, ◌-◌, String, ◌<>◌, List, Option, none, some, ◌≡◌, refl, ap, ◌∙◌, length,
}
use event_driven_kafka.Json.{num, text_of}
use event_driven_kafka.Contracts.{EventEnvelope}
use event_driven_kafka.Database.{Db}
use event_driven_kafka.Database.EventStore.{of_aggregate, get_events_by_aggregate_id}
use event_driven_kafka.Database.EventStore.Log.{IsLog}
use event_driven_kafka.Database.Orders.{Order, order_of_view, map_order_row, find_order_row}
use event_driven_kafka.Database.ReadModels.{OrderView, find_order}
use event_driven_kafka.World.{World, Env}
use event_driven_kafka.Exec.{Result, ok, err, Exec, pure, gets, ◌>>=◌, ◌>>◌, try_catch}
use event_driven_kafka.Exec.Worlds.{
  calm, Condition, Upholds, Upholds-pure, Upholds-gets, Upholds-bind, Upholds-try_catch,
}
use event_driven_kafka.Exec.Changes.{with_db, Ran, Told, query-Told, asked_Upholds}
use event_driven_kafka.Queries.{get_events, get_order, option_map, legacy_order}
use event_driven_kafka.Replay.{
  ReplayResult, success, failure, apply_events, failed_result, rebuild, replay_aggregate,
}
use event_driven_kafka.Replay.Loop.{view_after, Fresh, Rebuilt, apply_events-Rebuilt}
use event_driven_kafka.Replay.Reset.{reset_db, reset-Ran, find_order-delete, OwnMarks, log-Fresh}

-- What getOrder returns, given the rows of the order in the two tables.
abbrev pub shown : Env → Option OrderView → Option Order → Option Order
shown env none old = old
shown env (some r) old = some (order_of_view env.stored_time r)

abbrev pub order_in : String → World → Option Order
order_in a w =
    shown w.env (find_order a w.db.order_read_model)
      (option_map (map_order_row w.env.iso) (find_order_row a w.db.orders))

get_order-Told : (a : String) (v : World) → Upholds (λ w. w ≡ v) (get_order a) (Told (order_in a) v)
unfolding get_order
get_order-Told a v =
    asked_Upholds (gets λ w. w.env) _ (λ w. w.env) v
      (Upholds-gets _ λ w p. (p, ap (λ (w : World). w.env) p))
      (asked_Upholds _ (legacy_order a v.env) (λ v. find_order a v.db.order_read_model) v
        (query-Told (λ db. find_order a db.order_read_model) v)
        (view (find_order a v.db.order_read_model) refl) (λ x. refl))
      (λ x. refl)
  where
    view :
        (o : Option OrderView)
        → find_order a v.db.order_read_model ≡ o
        → Upholds (λ w. w ≡ v) (legacy_order a v.env o) (Told (order_in a) v)
    view (some r) q = Upholds-pure _ λ w p. (p, rw q refl)
    view none q =
        asked_Upholds _ (λ row. pure (option_map (map_order_row v.env.iso) row))
          (λ v. find_order_row a v.db.orders) v (query-Told (λ db. find_order_row a db.orders) v)
          (Upholds-pure _ λ w p. (p, rw q refl)) (λ x. refl)

abbrev pub log_of : String → World → List EventEnvelope
log_of a w = get_events_by_aggregate_id w.env.stored_time a w.db.event_store

get_events-Told : (a : String) (v : World) → Upholds (λ w. w ≡ v) (get_events a) (Told (log_of a) v)
unfolding get_events
get_events-Told a v =
    asked_Upholds (gets λ w. w.env) _ (λ w. w.env) v
      (Upholds-gets _ λ w p. (p, ap (λ (w : World). w.env) p))
      (query-Told (λ db. get_events_by_aggregate_id v.env.stored_time a db.event_store) v)
      (λ x. refl)

-- What a successful replay reports and leaves behind.
pub record IsRebuilt (a : String) (v : World) (r : ReplayResult) (db : Db) : Type 0 where
  pub count : r.events_processed ≡ length (log_of a v)
  pub view : find_order a db.order_read_model ≡ view_after v.env (log_of a v) none
  pub state : r.reconstructed_state ≡ some (order_in a (with_db v db))

-- The result of replayAggregate, or of its `try` block.
abbrev Replayed : String → World → Result ReplayResult → Condition
Replayed a v (ok r) w = (db : Db) × (w ≡ with_db v db) × (r.status ≡ success → IsRebuilt a v r db)
Replayed a v (err x) w = (db : Db) × (w ≡ with_db v db)

report : String → String → ℕ → List EventEnvelope → Option Order → Exec ReplayResult
report a id started events state = gets (λ w. w.clock) >>= λ now. pure (record {
  replay_id = id;
  target = a;
  events_processed = length events;
  duration_ms = now - started;
  status = success;
  reconstructed_state = some state;
  error = none;
})

-- What is left of the `try` block when the read model is reset: the events, the query, the report.
apply_and_report-Replayed :
    (a id : String) (started : ℕ) (v u : World)
    → find_order a u.db.order_read_model ≡ none
    → Fresh a u.db (log_of a v)
    → (u ≡ with_db v u.db)
    → Upholds
        (λ w. w ≡ u)
        (apply_events (log_of a v) >> (get_order a >>= report a id started (log_of a v)))
        (Replayed a v)
unfolding report
apply_and_report-Replayed a id started v u none_left fresh same =
    Upholds-bind _ _ (Rebuilt a (log_of a v) u) (apply_events-Rebuilt a (log_of a v) u fresh)
      (λ t. record { at = λ w p. (reported p.0 p.1).at w p.2 }) (λ x w p. (p.0, p.1 ∙ moved p.0))
  where
    moved : (db : Db) → with_db u db ≡ with_db v db
    moved db = ap (λ w. with_db w db) same

    reported :
        (db : Db)
        → find_order a db.order_read_model
          ≡ view_after u.env (log_of a v) (find_order a u.db.order_read_model)
        → Upholds
            (λ w. w ≡ with_db u db)
            (get_order a >>= report a id started (log_of a v))
            (Replayed a v)
    reported db q =
        asked_Upholds (get_order a) (report a id started (log_of a v)) (order_in a) (with_db u db)
          (get_order-Told a (with_db u db))
          (asked_Upholds (gets λ w. w.clock) _ (λ w. w.clock) (with_db u db)
            (Upholds-gets _ λ w p. (p, ap (λ (w : World). w.clock) p))
            (Upholds-pure _ λ w p. (
              db,
              p ∙ moved db,
              λ e. record {
                count = refl;
                view =
                    q
                    ∙ ap (view_after u.env (log_of a v)) none_left
                    ∙ ap (λ (w : World). view_after w.env (log_of a v) none) same;
                state = ap (λ w. some (order_in a w)) (moved db);
              },
            ))
            (λ x. (db, moved db)))
          (λ x. (db, moved db))

rebuild-Replayed :
    (a id : String) (started : ℕ) (v : World)
    → IsLog v.db.event_store
    → OwnMarks a (of_aggregate a v.db.event_store) v.db.projection_applied_events
    → Upholds (λ w. w ≡ v) (rebuild a id started) (Replayed a v)
unfolding rebuild report
rebuild-Replayed a id started v l own =
    asked_Upholds (get_events a) _ (log_of a) v (get_events-Told a v)
      (Upholds-bind _ _ (Ran (λ db. some (reset_db a db)) v) (reset-Ran a v)
        (λ u. record { at = λ w p. ready.at w (p.2 ∙ ap (with_db v) (some_inj p.0 p.1)) })
        (λ x w p. p))
      (λ x. (v.db, refl))
  where
    cleared : World
    cleared = with_db v (reset_db a v.db)

    ready :
        Upholds
          (λ w. w ≡ cleared)
          (apply_events (log_of a v) >> (get_order a >>= report a id started (log_of a v)))
          (Replayed a v)
    ready =
        apply_and_report-Replayed a id started v cleared (find_order-delete a v.db.order_read_model)
          (log-Fresh a v.env.stored_time v.db l own) refl

    some_inj : (db : Db) → some (reset_db a v.db) ≡ some db → db ≡ reset_db a v.db
    some_inj db q = cc

-- The same, where nothing is thrown.
abbrev Total : String → World → Result ReplayResult → Condition
Total a v (ok r) w = Replayed a v (ok r) w
Total a v (err x) w = ⊥

-- A replay never throws, sends nothing to Kafka and to no client, and writes to the database only.
-- When it reports success, the order's row in order_read_model is what the events of its log
-- make of no row, one after another, whatever stood there before; the number of events is the log's
-- length, and the order in the report is what getOrder reads then. The event store's ids are
-- unique, and each mark for one of the order's events was made for this order.
pub replay_rebuilds :
    (a : String) (w : World)
    → IsLog w.db.event_store
    → OwnMarks a (of_aggregate a w.db.event_store) w.db.projection_applied_events
    → (r : ReplayResult) × (db : Db) × ((replay_aggregate a w).0 ≡ ok r)
      × (calm (replay_aggregate a w).1 ≡ with_db (calm w) db)
      × (r.status ≡ success → IsRebuilt a (calm w) r db)
unfolding replay_aggregate ◌>>=◌ try_catch
replay_rebuilds a w l own = reported (replay_aggregate a w).0 refl (
    (Upholds-try_catch {Q = Total a (calm w)} (rebuild a id w.clock) (failed_result id a w.clock)
        (Replayed a (calm w)) (rebuild-Replayed a id w.clock (calm w) l own) (λ r w' p. p)
        (λ x. Upholds-gets _ λ w' p. (p.0, p.1, λ e. absurd (failure-success e)))).at
      w refl)
  where
    id : String
    id = "rpl_" <> text_of (num w.clock)

    failure-success : failure ≡ success → ⊥
    failure-success e = cc

    reported :
        (r : Result ReplayResult)
        → (replay_aggregate a w).0 ≡ r
        → Total a (calm w) r (calm (replay_aggregate a w).1)
        → (r : ReplayResult) × (db : Db) × ((replay_aggregate a w).0 ≡ ok r)
          × (calm (replay_aggregate a w).1 ≡ with_db (calm w) db)
          × (r.status ≡ success → IsRebuilt a (calm w) r db)
    reported (ok r) q p = (r, p.0, q, p.1, p.2)
    reported (err x) q p = elim p [ ]

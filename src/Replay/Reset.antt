-- ===== src/Replay/Reset.antt =====
-- src/replay/event-replay-service.ts: after the reset, the order has no row and its events no mark.
use event_driven_kafka.Base.{
  String, true, false, List, [], ◌∷◌, map, none, some, ◌≡◌, refl, sym, ap, subst, inl, inr, arith,
  ◌==◌, eq_iff, eq_refl, Bool-cases, All,
}
use event_driven_kafka.Base.Distinct.{
  Distinct, All-weaken, All-map, All-total, All-both, All-where_test,
}
use event_driven_kafka.Base.Sorted.{
  sort_rows, sort_rows-All, sort_rows-Distinct, where_rows-Distinct,
}
use event_driven_kafka.Contracts.{EventEnvelope}
use event_driven_kafka.Database.{Db}
use event_driven_kafka.Database.EventStore.{
  EventRow, has_event, of_aggregate, earlier, envelope_of_row, get_events_by_aggregate_id,
}
use event_driven_kafka.Database.EventStore.Log.{IsLog}
use event_driven_kafka.Database.ReadModels.{
  OrderView, AppliedEvent, find_order, is_projection_event_applied, delete_order_views,
  delete_payment_views, delete_shipment_views, delete_applied_events,
}
use event_driven_kafka.World.{World}
use event_driven_kafka.Exec.Worlds.{Upholds}
use event_driven_kafka.Exec.Changes.{with_db, Ran, statement-Ran, then_Ran}
use event_driven_kafka.Projection.{projection, is_applied}
use event_driven_kafka.Queries.{reset_read_model_for_aggregate}
use event_driven_kafka.Replay.Loop.{Fresh}

-- The four statements of resetReadModelForAggregate.
abbrev pub reset_db : String → Db → Db
reset_db a db = record db {
  order_read_model = delete_order_views a db.order_read_model;
  payment_read_model = delete_payment_views a db.payment_read_model;
  shipment_read_model = delete_shipment_views a db.shipment_read_model;
  projection_applied_events = delete_applied_events a db.projection_applied_events;
}

pub reset-Ran :
    (a : String) (v : World)
    → Upholds (λ w. w ≡ v) (reset_read_model_for_aggregate a) (Ran (λ db. some (reset_db a db)) v)
unfolding reset_read_model_for_aggregate
reset-Ran a v =
    then_Ran (λ db. some (orders db)) (λ db. some (marks (shipments (payments db)))) _ _ v
      (statement-Ran (λ now. orders) v)
      λ d.
        then_Ran (λ db. some (payments db)) (λ db. some (marks (shipments db))) _ _ _
          (statement-Ran (λ now. payments) (with_db v d))
          λ d.
            then_Ran (λ db. some (shipments db)) (λ db. some (marks db)) _ _ _
              (statement-Ran (λ now. shipments) (with_db v d))
              λ d. statement-Ran (λ now. marks) (with_db v d)
  where
    orders : Db → Db
    orders db = record db { order_read_model = delete_order_views a db.order_read_model }

    payments : Db → Db
    payments db = record db { payment_read_model = delete_payment_views a db.payment_read_model }

    shipments : Db → Db
    shipments db = record db {
      shipment_read_model = delete_shipment_views a db.shipment_read_model;
    }

    marks : Db → Db
    marks db = record db {
      projection_applied_events = delete_applied_events a db.projection_applied_events;
    }

pub find_order-delete :
    (a : String) (rows : List OrderView) → find_order a (delete_order_views a rows) ≡ none
unfolding find_order delete_order_views
find_order-delete a [] = refl
find_order-delete a (r ∷ rows) = ground (arith, find_order-delete a rows)

-- A mark for an event of the order's log carries the order's id.
abbrev pub OwnMarks : String → List EventRow → List AppliedEvent → Type 0
OwnMarks a log marks = All (λ m. has_event m.event_id log ≡ true → m.aggregate_id ≡ a) marks

known_events : (rows : List EventRow) → All (λ r. has_event r.event_id rows ≡ true) rows
known_events [] = tt
known_events (r ∷ rows) = (
  ground (arith, eq_refl r.event_id),
  All-weaken (λ s. has_event s.event_id rows ≡ true) (λ s. has_event s.event_id (r ∷ rows) ≡ true)
      (λ s h. ground (arith, h)) rows (known_events rows),
)

unmarked :
    (a id : String) (log : List EventRow) (marks : List AppliedEvent)
    → has_event id log ≡ true
    → OwnMarks a log marks
    → is_projection_event_applied projection id (delete_applied_events a marks) ≡ false
unfolding is_projection_event_applied delete_applied_events
unmarked a id log [] k h = refl
unmarked a id log (m ∷ marks) k h = elim (Bool-cases (m.aggregate_id == a)) [
  | inl e ↦ rw e (unmarked a id log marks k h.1)
  | inr e ↦ rw e (elim (Bool-cases (m.event_id == id)) [
    | inl q ↦ absurd (
        ground (
          arith,
          e,
          eq_iff m.aggregate_id a,
          h.0 (subst (λ i. has_event i log ≡ true) (sym ((eq_iff m.event_id id).0 q)) k),
        ))
    | inr q ↦ ground (arith, q, unmarked a id log marks k h.1)
  ])
]

of_aggregate-own :
    (a : String) (rows : List EventRow) → All (λ r. r.aggregate_id ≡ a) (of_aggregate a rows)
of_aggregate-own a rows =
    All-where_test (λ r. r.aggregate_id ≡ a) (λ r. r.aggregate_id == a) rows
      (All-total (λ r. (r.aggregate_id == a) ≡ true → r.aggregate_id ≡ a)
        (λ r e. (eq_iff r.aggregate_id a).0 e) rows)

map-ids :
    (stored_time : String → String) (rows : List EventRow)
    → map (λ (e : EventEnvelope). e.event_id) (map (envelope_of_row stored_time) rows)
      ≡ map (λ r. r.event_id) rows
map-ids stored_time [] = refl
map-ids stored_time (r ∷ rows) = ap (λ ids. r.event_id ∷ ids) (map-ids stored_time rows)

pub log-Fresh :
    (a : String) (stored_time : String → String) (db : Db)
    → IsLog db.event_store
    → OwnMarks a (of_aggregate a db.event_store) db.projection_applied_events
    → Fresh a (reset_db a db) (get_events_by_aggregate_id stored_time a db.event_store)
unfolding get_events_by_aggregate_id
log-Fresh a stored_time db l own = (
  subst Distinct (sym (map-ids stored_time (sort_rows earlier log))) (
      sort_rows-Distinct earlier (λ r. r.event_id) log
        (where_rows-Distinct (λ r. r.event_id) (λ r. r.aggregate_id == a) db.event_store l.keyed)),
  All-map (λ (e : EventEnvelope). (e.aggregate_id ≡ a) × (is_applied e (reset_db a db) ≡ false))
      (envelope_of_row stored_time) (sort_rows earlier log)
      (sort_rows-All earlier IsFresh log (
        All-weaken (λ r. (r.aggregate_id ≡ a) × (has_event r.event_id log ≡ true)) IsFresh
          (λ r h. (h.0, unmarked a r.event_id log db.projection_applied_events h.1 own)) log
          (All-both (λ r. r.aggregate_id ≡ a) (λ r. has_event r.event_id log ≡ true) log
            (of_aggregate-own a db.event_store) (known_events log)))),
)
  where
    log : List EventRow
    log = of_aggregate a db.event_store

    IsFresh : EventRow → Type 0
    IsFresh r =
        (r.aggregate_id ≡ a)
        × (is_projection_event_applied projection r.event_id
              (delete_applied_events a db.projection_applied_events)
            ≡ false)

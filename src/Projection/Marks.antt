-- ===== src/Projection/Marks.antt =====
-- src/application/projections/projection-consumer.ts: which events are marked in projection_applied_events, and
-- that the statements of an event touch the read models only.
use event_driven_kafka.Base.{
  ℕ, String, List, [], ◌∷◌, Option, none, some, ◌≡◌, refl, ◌≢◌, ap, ◌∙◌, subst, arith, eq_iff, All,
}
use event_driven_kafka.Json.{
  Json, Items, nil, cons, undefined, null, bool, num, str, arr, obj, get, prop, ◌or◌,
}
use event_driven_kafka.Contracts.{
  EventType, order_created, order_cancelled, payment_requested, payment_authorized,
  payment_rejected, payment_refunded, inventory_reservation_requested, inventory_reserved,
  inventory_reservation_failed, inventory_released, fraud_check_requested, fraud_approved,
  fraud_rejected, shipment_requested, shipment_created, order_completed, order_failed,
  EventEnvelope,
}
use event_driven_kafka.Database.{Db}
use event_driven_kafka.Database.ReadModels.{
  OrderView, PaymentView, ShipmentView, InventoryView, AppliedEvent, reserve_stock, release_stock,
  is_projection_event_applied, mark_projection_event_applied,
}
use event_driven_kafka.World.{Env, Error}
use event_driven_kafka.Exec.{Sql}
use event_driven_kafka.Projection.{projection, mark_applied, is_applied}
use event_driven_kafka.Projection.Statements.{
  Step, effect_of, item_fault, unless_fault, update_order, insert_view, upsert_view, upsert_payment,
  insert_payment, refund_payment, upsert_shipment, insert_shipment, set_inventory, stock_change,
  change_stock, each_item, for_items, statements_of, new_view,
}
use event_driven_kafka.Projection.Effects.{run_all, projected}
use event_driven_kafka.Exec.Changes.{and_then}

-- A statement's result, if any, differs from the database only in the read models.
abbrev pub OnlyViews : Db → Option Db → Type 0
OnlyViews db none = Unit
OnlyViews db (some d) =
    (views : List OrderView) × (payments : List PaymentView) × (stock : List InventoryView)
    × (shipments : List ShipmentView) × (d ≡ record db {
      order_read_model = views;
      payment_read_model = payments;
      inventory_read_model = stock;
      shipment_read_model = shipments;
    })

IsProjecting : Env → Sql → Type 0
IsProjecting env s = (now : ℕ) (db : Db) → OnlyViews db (s env now db)

run_all-IsProjecting :
    (env : Env) (ss : List Step)
    → All (λ s. IsProjecting env (effect_of s)) ss
    → IsProjecting env (run_all ss)
unfolding run_all IsProjecting
run_all-IsProjecting env [] h now db = (_, _, _, _, refl)
run_all-IsProjecting env (s ∷ rest) h now db =
    go (run_all-IsProjecting env rest h.1) (effect_of s env now db) (h.0 now db)
  where
    after : (d : Db) (o : Option Db) → OnlyViews db (some d) → OnlyViews d o → OnlyViews db o
    after d none p q = tt
    after d (some d') p q = (
      q.0,
      q.1,
      q.2,
      q.3,
      q.4
          ∙ ap
              (λ (d : Db). record d {
                order_read_model = q.0;
                payment_read_model = q.1;
                inventory_read_model = q.2;
                shipment_read_model = q.3;
              })
              p.4,
    )

    go :
        IsProjecting env (run_all rest)
        → (o : Option Db) → OnlyViews db o
        → OnlyViews db (and_then o (run_all rest env now))
    go ih none k = tt
    go ih (some d) k = after d (run_all rest env now d) k (ih now d)

module _ (env : Env) (e : EventEnvelope) where
  update_order-IsProjecting :
      (change : Env → OrderView → OrderView) → IsProjecting env (update_order e change)
  unfolding IsProjecting
  update_order-IsProjecting change now db = (_, _, _, _, refl)

  insert_view-IsProjecting : IsProjecting env (insert_view e)
  unfolding IsProjecting
  insert_view-IsProjecting now db = go (new_view env e)
    where
      go : (o : Option OrderView) → OnlyViews db (upsert_view db o)
      go none = tt
      go (some v) = (_, _, _, _, refl)

  insert_payment-IsProjecting : IsProjecting env (insert_payment e)
  unfolding IsProjecting
  insert_payment-IsProjecting now db = go _
    where
      go : (o : Option PaymentView) → OnlyViews db (upsert_payment db o)
      go none = tt
      go (some v) = (_, _, _, _, refl)

  insert_shipment-IsProjecting : IsProjecting env (insert_shipment e)
  unfolding IsProjecting
  insert_shipment-IsProjecting now db = go _
    where
      go : (o : Option ShipmentView) → OnlyViews db (upsert_shipment db o)
      go none = tt
      go (some v) = (_, _, _, _, refl)

  refund_payment-IsProjecting : IsProjecting env (refund_payment e)
  unfolding IsProjecting
  refund_payment-IsProjecting now db = (_, _, _, _, refl)

  module _
      (change : Option String → ℕ → String → List InventoryView → Option (List InventoryView)) where
    change_stock-IsProjecting : (item : Json) → IsProjecting env (change_stock change e item)
    unfolding IsProjecting
    change_stock-IsProjecting item now db = go (env.pg_int (prop "quantity" item or num 1))
      where
        stocked : (o : Option (List InventoryView)) → OnlyViews db (set_inventory db o)
        stocked none = tt
        stocked (some rows) = (_, _, _, _, refl)

        go :
            (q : Option ℕ)
            → OnlyViews db (stock_change change e (env.pg_text (prop "sku" item)) q db)
        go none = tt
        go (some n) = stocked _

    unless_fault-IsProjecting :
        (o : Option Error) (s : Sql)
        → IsProjecting env s
        → IsProjecting env (effect_of (unless_fault o s))
    unfolding IsProjecting
    unless_fault-IsProjecting none s h = h
    unless_fault-IsProjecting (some x) s h = λ now db. tt

    each_item-IsProjecting :
        (items : Items)
        → All (λ s. IsProjecting env (effect_of s)) (each_item (change_stock change e) items)
    each_item-IsProjecting nil = tt
    each_item-IsProjecting (cons i items) = (
      unless_fault-IsProjecting (item_fault i) _ (change_stock-IsProjecting i),
      each_item-IsProjecting items,
    )

    for_items-IsProjecting :
        (v : Json) → All (λ s. IsProjecting env (effect_of s)) (for_items (change_stock change e) v)
    for_items-IsProjecting (arr items) = each_item-IsProjecting items
    for_items-IsProjecting undefined = tt
    for_items-IsProjecting null = tt
    for_items-IsProjecting (bool b) = tt
    for_items-IsProjecting (num n) = tt
    for_items-IsProjecting (str s) = tt
    for_items-IsProjecting (obj fs) = tt

  statements-IsProjecting :
      (t : EventType) → All (λ s. IsProjecting env (effect_of s)) (statements_of t e)
  unfolding statements_of
  statements-IsProjecting order_created = (insert_view-IsProjecting, tt)
  statements-IsProjecting payment_requested = (update_order-IsProjecting _, tt)
  statements-IsProjecting payment_authorized =
      (update_order-IsProjecting _, (insert_payment-IsProjecting, tt))
  statements-IsProjecting payment_rejected = (update_order-IsProjecting _, tt)
  statements-IsProjecting payment_refunded = (refund_payment-IsProjecting, tt)
  statements-IsProjecting inventory_reservation_requested = (update_order-IsProjecting _, tt)
  statements-IsProjecting inventory_reserved =
      (update_order-IsProjecting _, for_items-IsProjecting reserve_stock (get "items" e.payload))
  statements-IsProjecting inventory_released =
      for_items-IsProjecting release_stock (get "items" e.payload)
  statements-IsProjecting inventory_reservation_failed = (update_order-IsProjecting _, tt)
  statements-IsProjecting fraud_check_requested = (update_order-IsProjecting _, tt)
  statements-IsProjecting fraud_approved = (update_order-IsProjecting _, tt)
  statements-IsProjecting fraud_rejected = (update_order-IsProjecting _, tt)
  statements-IsProjecting shipment_requested = (update_order-IsProjecting _, tt)
  statements-IsProjecting shipment_created =
      (update_order-IsProjecting _, (insert_shipment-IsProjecting, tt))
  statements-IsProjecting order_completed = (update_order-IsProjecting _, tt)
  statements-IsProjecting order_cancelled = (update_order-IsProjecting _, tt)
  statements-IsProjecting order_failed = (update_order-IsProjecting _, tt)
  statements-IsProjecting _ = tt

-- A projected event changes the read models, and marks itself; nothing else.
pub projected_only :
    (env : Env) (now : ℕ) (e : EventEnvelope) (db d : Db)
    → projected e env now db ≡ some d
    → (views : List OrderView) × (payments : List PaymentView) × (stock : List InventoryView)
      × (shipments : List ShipmentView) × (d ≡ record db {
        order_read_model = views;
        payment_read_model = payments;
        inventory_read_model = stock;
        shipment_read_model = shipments;
        projection_applied_events =
            mark_projection_event_applied projection e.event_id e.aggregate_id now
              db.projection_applied_events;
      })
unfolding projected
projected_only env now e db d p =
    go (run_all (statements_of e.event_type e) env now db)
      (unfold IsProjecting in
        run_all-IsProjecting env (statements_of e.event_type e)
          (statements-IsProjecting env e e.event_type) now db)
      p
  where
    Result : Option Db → Type 0
    Result none = Unit
    Result (some d) =
        (views : List OrderView) × (payments : List PaymentView) × (stock : List InventoryView)
        × (shipments : List ShipmentView) × (d ≡ record db {
          order_read_model = views;
          payment_read_model = payments;
          inventory_read_model = stock;
          shipment_read_model = shipments;
          projection_applied_events =
              mark_projection_event_applied projection e.event_id e.aggregate_id now
                db.projection_applied_events;
        })

    go :
        (o : Option Db)
        → OnlyViews db o
        → and_then o (mark_applied e env now) ≡ some d
        → Result (some d)
    go none k q = cc
    go (some d') k q = subst Result q (
      k.0,
      k.1,
      k.2,
      k.3,
      ap
          (λ (d : Db). record d {
            projection_applied_events =
                mark_projection_event_applied projection e.event_id e.aggregate_id now
                  d.projection_applied_events;
          })
          k.4,
    )

-- A mark of another event leaves an event's mark as it was.
other_mark :
    (id other_id a : String) (now : ℕ) (rows : List AppliedEvent)
    → id ≢ other_id
    → is_projection_event_applied projection id
        (mark_projection_event_applied projection other_id a now rows)
      ≡ is_projection_event_applied projection id rows
unfolding is_projection_event_applied mark_projection_event_applied
other_mark id other_id a now [] n = ground (arith, eq_iff other_id id)
other_mark id other_id a now (r ∷ rows) n = ground (
  arith,
  other_mark id other_id a now rows n,
  eq_iff r.event_id id,
  eq_iff r.event_id other_id,
  eq_iff other_id id,
)

pub projected-other_mark :
    (env : Env) (now : ℕ) (e f : EventEnvelope) (db d : Db)
    → f.event_id ≢ e.event_id
    → projected e env now db ≡ some d
    → is_applied f d ≡ is_applied f db
projected-other_mark env now e f db d n p =
    ap (is_applied f) (projected_only env now e db d p).4
    ∙ other_mark f.event_id e.event_id e.aggregate_id now db.projection_applied_events n

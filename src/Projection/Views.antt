-- ===== src/Projection/Views.antt =====
-- src/application/projections/projection-consumer.ts: the row of order_read_model of one order, column by
-- column, and how an event changes it.
use event_driven_kafka.Base.{
  ℕ, String, Bool, true, false, List, [], ◌∷◌, Option, none, some, ◌≡◌, refl, ap, ◌∙◌, subst, arith,
  ◌==◌, eq_iff, if◌then◌else◌, All,
}
use event_driven_kafka.Base.Table.{update_where, upsert}
use event_driven_kafka.Json.{
  Json, Items, nil, cons, undefined, null, bool, num, str, arr, obj, get, prop, ◌or◌,
}
use event_driven_kafka.Contracts.{
  EventType, order_created, order_cancelled, payment_requested, payment_authorized,
  payment_rejected, payment_refunded, inventory_reservation_requested, inventory_reserved,
  inventory_reservation_failed, inventory_released, fraud_check_requested, fraud_approved,
  fraud_rejected, shipment_requested, shipment_created, order_completed, order_failed,
  EventEnvelope,
}
use event_driven_kafka.Database.{Db}
use event_driven_kafka.Database.ReadModels.{
  OrderView, same_order, find_order, PaymentView, ShipmentView, InventoryView, reserve_stock,
  release_stock,
}
use event_driven_kafka.World.{Env, Error}
use event_driven_kafka.Exec.{Sql}
use event_driven_kafka.Projection.{mark_applied}
use event_driven_kafka.Projection.Statements.{
  Step, sql, effect_of, item_fault, unless_fault, column, update_order, replace_view, view_of,
  new_view, insert_view, upsert_view, upsert_payment, insert_payment, refund_payment,
  upsert_shipment, insert_shipment, set_inventory, stock_change, change_stock, each_item, for_items,
  statements_of,
}
use event_driven_kafka.Projection.Effects.{run_all, projected}
use event_driven_kafka.Exec.Changes.{and_then}

-- The status that an event gives its order.
abbrev pub status_after : EventType → Option String
status_after payment_requested = some "payment_pending"
status_after payment_authorized = some "payment_approved"
status_after payment_rejected = some "payment_rejected"
status_after inventory_reservation_requested = some "inventory_pending"
status_after inventory_reserved = some "inventory_reserved"
status_after inventory_reservation_failed = some "inventory_failed"
status_after fraud_check_requested = some "fraud_pending"
status_after fraud_approved = some "fraud_approved"
status_after fraud_rejected = some "fraud_rejected"
status_after shipment_requested = some "shipping_pending"
status_after shipment_created = some "shipping_created"
status_after order_completed = some "completed"
status_after order_cancelled = some "cancelled"
status_after order_failed = some "failed"
status_after _ = none

abbrev pub or_old {ℓ} : {A : Type ℓ} → Option A → A → A
or_old none old = old
or_old (some new) old = new

abbrev stamp_after : Option String → String → String → String
stamp_after none now old = old
stamp_after (some status) now old = now

-- The event's column `k`, for the event types that set the view's column.
abbrev pub sets_payment : EventType → Bool
sets_payment payment_authorized = true
sets_payment _ = false

abbrev pub sets_reservation : EventType → Bool
sets_reservation inventory_reserved = true
sets_reservation _ = false

abbrev pub sets_fraud_check : EventType → Bool
sets_fraud_check fraud_approved = true
sets_fraud_check _ = false

abbrev pub sets_shipment : EventType → Bool
sets_shipment shipment_created = true
sets_shipment _ = false

abbrev pub sets_reason : EventType → Bool
sets_reason payment_rejected = true
sets_reason inventory_reservation_failed = true
sets_reason fraud_rejected = true
sets_reason order_cancelled = true
sets_reason order_failed = true
sets_reason _ = false

-- A row after an event of its order, other than OrderCreated.
abbrev pub changed_view : EventType → Env → EventEnvelope → OrderView → OrderView
changed_view t env e r = record r {
  status = or_old (status_after t) r.status;
  payment_id = if sets_payment t then column env "payment_id" e else r.payment_id;
  reservation_id = if sets_reservation t then column env "reservation_id" e else r.reservation_id;
  fraud_check_id = if sets_fraud_check t then column env "fraud_check_id" e else r.fraud_check_id;
  shipment_id = if sets_shipment t then column env "shipment_id" e else r.shipment_id;
  tracking_number = if sets_shipment t then column env "tracking_number" e else r.tracking_number;
  failure_reason = if sets_reason t then column env "reason" e else r.failure_reason;
  updated_at = stamp_after (status_after t) e.occurred_at r.updated_at;
}

abbrev pub map_view : (OrderView → OrderView) → Option OrderView → Option OrderView
map_view f none = none
map_view f (some r) = some (f r)

abbrev created_view : Option OrderView → Option OrderView → Option OrderView
created_view none old = old
created_view (some new) none = some new
created_view (some new) (some r) = some (replace_view r new)

-- The view of an order after an event of this order. OrderCreated makes the row, or starts it again.
abbrev pub view_step : EventType → Env → EventEnvelope → Option OrderView → Option OrderView
view_step order_created env e o = created_view (new_view env e) o
view_step t env e o = map_view (changed_view t env e) o

-- A statement's result, if any, has these rows in order_read_model.
abbrev WithViews : List OrderView → Option Db → Type 0
WithViews rows none = Unit
WithViews rows (some d) = d.order_read_model ≡ rows

-- The statement leaves order_read_model as it is.
Spares : Env → Sql → Type 0
Spares env s = (now : ℕ) (db : Db) → WithViews db.order_read_model (s env now db)

run_all-Spares :
    (env : Env) (ss : List Step) → All (λ s. Spares env (effect_of s)) ss → Spares env (run_all ss)
unfolding run_all Spares
run_all-Spares env [] h now db = refl
run_all-Spares env (s ∷ rest) h now db =
    go (run_all-Spares env rest h.1) (effect_of s env now db) (h.0 now db)
  where
    after :
        (rows : List OrderView) (o : Option Db)
        → WithViews rows o
        → rows ≡ db.order_read_model
        → WithViews db.order_read_model o
    after rows none k q = tt
    after rows (some d) k q = k ∙ q

    go :
        Spares env (run_all rest)
        → (o : Option Db) → WithViews db.order_read_model o
        → WithViews db.order_read_model (and_then o (run_all rest env now))
    go ih none k = tt
    go ih (some d) k = after d.order_read_model (run_all rest env now d) (ih now d) k

payment-WithViews :
    (db : Db) (o : Option PaymentView) → WithViews db.order_read_model (upsert_payment db o)
payment-WithViews db none = tt
payment-WithViews db (some p) = refl

shipment-WithViews :
    (db : Db) (o : Option ShipmentView) → WithViews db.order_read_model (upsert_shipment db o)
shipment-WithViews db none = tt
shipment-WithViews db (some s) = refl

inventory-WithViews :
    (db : Db) (o : Option (List InventoryView)) → WithViews db.order_read_model (set_inventory db o)
inventory-WithViews db none = tt
inventory-WithViews db (some rows) = refl

module _ (env : Env) (e : EventEnvelope) where
  insert_payment-Spares : Spares env (insert_payment e)
  unfolding Spares
  insert_payment-Spares now db = payment-WithViews db _

  insert_shipment-Spares : Spares env (insert_shipment e)
  unfolding Spares
  insert_shipment-Spares now db = shipment-WithViews db _

  refund_payment-Spares : Spares env (refund_payment e)
  unfolding Spares
  refund_payment-Spares now db = refl

  module _
      (change : Option String → ℕ → String → List InventoryView → Option (List InventoryView)) where
    change_stock-Spares : (item : Json) → Spares env (change_stock change e item)
    unfolding Spares
    change_stock-Spares item now db = go (env.pg_int (prop "quantity" item or num 1))
      where
        go :
            (q : Option ℕ)
            → WithViews db.order_read_model
                (stock_change change e (env.pg_text (prop "sku" item)) q db)
        go none = tt
        go (some n) = inventory-WithViews db _

    unless_fault-Spares :
        (o : Option Error) (s : Sql) → Spares env s → Spares env (effect_of (unless_fault o s))
    unfolding Spares
    unless_fault-Spares none s h = h
    unless_fault-Spares (some x) s h = λ now db. tt

    each_item-Spares :
        (items : Items)
        → All (λ s. Spares env (effect_of s)) (each_item (change_stock change e) items)
    each_item-Spares nil = tt
    each_item-Spares (cons i items) =
        (unless_fault-Spares (item_fault i) _ (change_stock-Spares i), each_item-Spares items)

    for_items-Spares :
        (v : Json) → All (λ s. Spares env (effect_of s)) (for_items (change_stock change e) v)
    for_items-Spares (arr items) = each_item-Spares items
    for_items-Spares undefined = tt
    for_items-Spares null = tt
    for_items-Spares (bool b) = tt
    for_items-Spares (num n) = tt
    for_items-Spares (str s) = tt
    for_items-Spares (obj fs) = tt

find-update_where :
    (a id : String) (f : OrderView → OrderView)
    → ((r : OrderView) → (f r).order_id ≡ r.order_id)
    → (rows : List OrderView)
    → find_order a (update_where (λ r. r.order_id == id) f rows)
      ≡ (if id == a then map_view f (find_order a rows) else find_order a rows)
unfolding find_order
find-update_where a id f k [] = ground arith
find-update_where a id f k (r ∷ rows) = ground (
  arith,
  k r,
  find-update_where a id f k rows,
  eq_iff r.order_id id,
  eq_iff r.order_id a,
  eq_iff id a,
)

find-upsert :
    (a : String) (new : OrderView) (rows : List OrderView)
    → find_order a (upsert same_order replace_view new rows) ≡ (
        if new.order_id == a
        then created_view (some new) (find_order a rows)
        else find_order a rows)
unfolding find_order
find-upsert a new [] = ground arith
find-upsert a new (r ∷ rows) = ground (
  arith,
  find-upsert a new rows,
  eq_iff r.order_id new.order_id,
  eq_iff r.order_id a,
  eq_iff new.order_id a,
)

-- What the statements of an event leave for the order `a`.
abbrev ViewAfter : String → EventEnvelope → Option OrderView → Option OrderView → Option Db → Type 0
ViewAfter a e old new none = Unit
ViewAfter a e old new (some d) =
    find_order a d.order_read_model ≡ (if e.aggregate_id == a then new else old)

map_view-same : (o : Option OrderView) → map_view (λ r. r) o ≡ o
map_view-same none = refl
map_view-same (some r) = refl

module _ (a : String) (env : Env) (now : ℕ) (e : EventEnvelope) (db : Db) where
  abbrev old : Option OrderView
  old = find_order a db.order_read_model

  views-ViewAfter :
      (new : Option OrderView) (rows : List OrderView)
      → find_order a rows ≡ (if e.aggregate_id == a then new else old)
      → (o : Option Db) → WithViews rows o
      → ViewAfter a e old new o
  views-ViewAfter new rows k none h = tt
  views-ViewAfter new rows k (some d) h = ap (find_order a) h ∙ k

  updates :
      (f : OrderView → OrderView) (rest : List Step)
      → ((r : OrderView) → (f r).order_id ≡ r.order_id)
      → All (λ s. Spares env (effect_of s)) rest
      → ViewAfter a e old
          (map_view f old)
          (run_all (sql (update_order e (λ env. f)) ∷ rest) env now db)
  unfolding run_all Spares
  updates f rest k h =
      views-ViewAfter (map_view f old)
        (update_where (λ r. r.order_id == e.aggregate_id) f db.order_read_model)
        (find-update_where a e.aggregate_id f k db.order_read_model) _
        (run_all-Spares env rest h now _)

  leaves :
      (ss : List Step)
      → All (λ s. Spares env (effect_of s)) ss
      → ViewAfter a e old (map_view (λ r. r) old) (run_all ss env now db)
  unfolding Spares
  leaves ss h =
      views-ViewAfter _ db.order_read_model (ground (arith, map_view-same old)) _
        (run_all-Spares env ss h now db)

  creates :
      ViewAfter a e old
        (created_view (new_view env e) old)
        (run_all (sql (insert_view e) ∷ []) env now db)
  unfolding run_all new_view
  creates =
      go (column env "user_id" e) (column env "total_amount" e)
        (env.pg_text (get "currency" e.payload or str "USD"))
    where
      go :
          (u m c : Option String)
          → ViewAfter a e old
              (created_view (view_of e u m c) old)
              (and_then (upsert_view db (view_of e u m c)) (run_all [] env now))
      go (some u) (some m) (some c) = find-upsert a _ db.order_read_model
      go none m c = tt
      go (some u) none c = tt
      go (some u) (some m) none = tt

  statements-ViewAfter :
      (t : EventType)
      → ViewAfter a e old (view_step t env e old) (run_all (statements_of t e) env now db)
  unfolding statements_of run_all
  statements-ViewAfter order_created = creates
  statements-ViewAfter payment_requested =
      updates (changed_view payment_requested env e) [] (λ r. refl) tt
  statements-ViewAfter payment_authorized =
      updates (changed_view payment_authorized env e) (sql (insert_payment e) ∷ []) (λ r. refl)
        (insert_payment-Spares env e, tt)
  statements-ViewAfter payment_rejected =
      updates (changed_view payment_rejected env e) [] (λ r. refl) tt
  statements-ViewAfter payment_refunded =
      leaves (sql (refund_payment e) ∷ []) (refund_payment-Spares env e, tt)
  statements-ViewAfter inventory_reservation_requested =
      updates (changed_view inventory_reservation_requested env e) [] (λ r. refl) tt
  statements-ViewAfter inventory_reserved =
      updates (changed_view inventory_reserved env e)
        (for_items (change_stock reserve_stock e) (get "items" e.payload)) (λ r. refl)
        (for_items-Spares env e reserve_stock (get "items" e.payload))
  statements-ViewAfter inventory_released =
      leaves (for_items (change_stock release_stock e) (get "items" e.payload))
        (for_items-Spares env e release_stock (get "items" e.payload))
  statements-ViewAfter inventory_reservation_failed =
      updates (changed_view inventory_reservation_failed env e) [] (λ r. refl) tt
  statements-ViewAfter fraud_check_requested =
      updates (changed_view fraud_check_requested env e) [] (λ r. refl) tt
  statements-ViewAfter fraud_approved =
      updates (changed_view fraud_approved env e) [] (λ r. refl) tt
  statements-ViewAfter fraud_rejected =
      updates (changed_view fraud_rejected env e) [] (λ r. refl) tt
  statements-ViewAfter shipment_requested =
      updates (changed_view shipment_requested env e) [] (λ r. refl) tt
  statements-ViewAfter shipment_created =
      updates (changed_view shipment_created env e) (sql (insert_shipment e) ∷ []) (λ r. refl)
        (insert_shipment-Spares env e, tt)
  statements-ViewAfter order_completed =
      updates (changed_view order_completed env e) [] (λ r. refl) tt
  statements-ViewAfter order_cancelled =
      updates (changed_view order_cancelled env e) [] (λ r. refl) tt
  statements-ViewAfter order_failed = updates (changed_view order_failed env e) [] (λ r. refl) tt
  statements-ViewAfter _ = leaves [] tt

-- The row of an order in order_read_model, after an event that was projected without an error, is the
-- old row changed column by column as the event's type says, if the event is of this order, and
-- the old row otherwise.
pub projected_view :
    (a : String) (env : Env) (now : ℕ) (e : EventEnvelope) (db d : Db)
    → projected e env now db ≡ some d
    → find_order a d.order_read_model ≡ (
        if e.aggregate_id == a
        then view_step e.event_type env e (find_order a db.order_read_model)
        else find_order a db.order_read_model)
unfolding projected
projected_view a env now e db d p =
    go (run_all (statements_of e.event_type e) env now db)
      (statements-ViewAfter a env now e db e.event_type) p
  where
    old_row : Option OrderView
    old_row = find_order a db.order_read_model

    new_row : Option OrderView
    new_row = view_step e.event_type env e old_row

    go :
        (o : Option Db)
        → ViewAfter a e old_row new_row o
        → and_then o (mark_applied e env now) ≡ some d
        → find_order a d.order_read_model ≡ (if e.aggregate_id == a then new_row else old_row)
    go none h q = cc
    go (some d') h q = subst (ViewAfter a e old_row new_row) q h

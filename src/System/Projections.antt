-- ===== src/System/Projections.antt =====
-- The projection consumer changes the event store, the timeline and the read models: it keeps a
-- condition that no appended event breaks and that does not look at the other tables.
use event_driven_kafka.Base.{ℕ, String, List, [], ◌∷◌, Option, none, some, ◌≡◌, refl, subst}
use event_driven_kafka.Json.{Json, undefined, arr, Items, nil, cons}
use event_driven_kafka.Contracts.{
  EventType, order_created, order_cancelled, payment_requested, payment_authorized,
  payment_rejected, payment_refunded, inventory_reservation_requested, inventory_reserved,
  inventory_reservation_failed, inventory_released, fraud_check_requested, fraud_approved,
  fraud_rejected, shipment_requested, shipment_created, order_completed, order_failed,
  EventEnvelope,
}
use event_driven_kafka.Database.{Db}
use event_driven_kafka.Database.EventStore.{EventRow, insert_event, append_to_event_store}
use event_driven_kafka.Database.EventStore.Log.{inserted}
use event_driven_kafka.World.{Env, Message, Error}
use event_driven_kafka.Exec.{Sql, attempt}
use event_driven_kafka.Exec.Rules.{Cond}
use event_driven_kafka.Projection.{
  perform, run_statements, mark_applied, execute_in_tx, apply_historical_event, set_events,
  store_event, project_event,
}
use event_driven_kafka.Projection.Notifications.{emit_live_notifications}
use event_driven_kafka.Projection.Statements.{
  Step, sql, throws, effect_of, item_fault, unless_fault, update_order, upsert_view, upsert_payment,
  upsert_shipment, set_inventory, stock_change, change_stock, each_item, for_items, statements_of,
}
use event_driven_kafka.Database.ReadModels.{
  OrderView, PaymentView, InventoryView, ShipmentView, reserve_stock, release_stock,
}
use event_driven_kafka.System.Frame.{
  Keeps, Fixed, IsBlind, Fixed-IsBlind, pure-Keeps, throw-Keeps, query-Keeps, statement-Keeps,
  if-Keeps, then-Keeps, try-Keeps, attempt-Keeps, transaction-Keeps,
}

-- An event may be appended to the store.
abbrev pub Appendable : Cond → Type 0
Appendable C =
    (e : EventEnvelope) (d : Db) (k : List Message) (rows : List EventRow)
    → insert_event e d.event_store ≡ some rows
    → C d k
    → C (record d { event_store = rows }) k

abbrev Holds : Cond → List Message → Option Db → Type 0
Holds C k none = Unit
Holds C k (some d) = C d k

-- A statement that keeps the condition where it succeeds.
abbrev Mild : Cond → Sql → Type 0
Mild C s = (env : Env) (now : ℕ) (d : Db) (k : List Message) → C d k → Holds C k (s env now d)

abbrev AllMild : Cond → List Step → Type 0
AllMild C [] = Unit
AllMild C (s ∷ ss) = Mild C (effect_of s) × AllMild C ss

module _ (C : Cond) where
  statement_of-Keeps : (s : Sql) → Mild C s → Keeps C (attempt s)
  statement_of-Keeps s h =
      attempt-Keeps C s λ env now d d' k e c. subst (λ o. Holds C k o) e (h env now d k c)

  perform-Keeps : (s : Step) → Mild C (effect_of s) → Keeps C (perform s)
  perform-Keeps (sql s) h = statement_of-Keeps s h
  perform-Keeps (throws x) h = throw-Keeps C x

  run_statements-Keeps : (ss : List Step) → AllMild C ss → Keeps C (run_statements ss)
  unfolding run_statements
  run_statements-Keeps [] h = pure-Keeps C tt
  run_statements-Keeps (s ∷ ss) h =
      then-Keeps C _ _ (perform-Keeps s h.0) (λ u. run_statements-Keeps ss h.1)

  module _ (b : IsBlind C) where
    view-Holds :
        (d : Db) (k : List Message) (o : Option OrderView) → C d k → Holds C k (upsert_view d o)
    view-Holds d k none c = tt
    view-Holds d k (some v) c = b.order_read_model d k _ c

    payment-Holds :
        (d : Db) (k : List Message) (o : Option PaymentView)
        → C d k
        → Holds C k (upsert_payment d o)
    payment-Holds d k none c = tt
    payment-Holds d k (some p) c = b.payment_read_model d k _ c

    shipment-Holds :
        (d : Db) (k : List Message) (o : Option ShipmentView)
        → C d k
        → Holds C k (upsert_shipment d o)
    shipment-Holds d k none c = tt
    shipment-Holds d k (some s) c = b.shipment_read_model d k _ c

    inventory-Holds :
        (d : Db) (k : List Message) (o : Option (List InventoryView))
        → C d k
        → Holds C k (set_inventory d o)
    inventory-Holds d k none c = tt
    inventory-Holds d k (some rows) c = b.inventory_read_model d k _ c

    update_order-Mild :
        (e : EventEnvelope) (change : Env → OrderView → OrderView) → Mild C (update_order e change)
    update_order-Mild e change env now d k c = b.order_read_model d k _ c

    module _
        (change : Option String → ℕ → String → List InventoryView → Option (List InventoryView))
        (e : EventEnvelope) where
      stock-Holds :
          (d : Db) (k : List Message) (sku : Option String) (n : Option ℕ)
          → C d k
          → Holds C k (stock_change change e sku n d)
      stock-Holds d k sku none c = tt
      stock-Holds d k sku (some n) c = inventory-Holds d k _ c

      unless_fault-Mild :
          (o : Option Error) (s : Sql) → Mild C s → Mild C (effect_of (unless_fault o s))
      unless_fault-Mild none s h = h
      unless_fault-Mild (some x) s h = λ env now d k c. tt

      each_item-AllMild : (items : Items) → AllMild C (each_item (change_stock change e) items)
      each_item-AllMild nil = tt
      each_item-AllMild (cons i items) = (
        unless_fault-Mild (item_fault i) _ (λ env now d k c. stock-Holds d k _ _ c),
        each_item-AllMild items,
      )

      for_items-AllMild : (v : Json) → AllMild C (for_items (change_stock change e) v)
      for_items-AllMild (arr items) = each_item-AllMild items
      for_items-AllMild undefined = tt
      for_items-AllMild _ = tt

    statements_of-AllMild : (t : EventType) (e : EventEnvelope) → AllMild C (statements_of t e)
    unfolding statements_of
    statements_of-AllMild order_created e = (λ env now d k c. view-Holds d k _ c, tt)
    statements_of-AllMild payment_requested e = (update_order-Mild e _, tt)
    statements_of-AllMild payment_authorized e =
        (update_order-Mild e _, (λ env now d k c. payment-Holds d k _ c, tt))
    statements_of-AllMild payment_rejected e = (update_order-Mild e _, tt)
    statements_of-AllMild payment_refunded e = (λ env now d k c. b.payment_read_model d k _ c, tt)
    statements_of-AllMild inventory_reservation_requested e = (update_order-Mild e _, tt)
    statements_of-AllMild inventory_reserved e =
        (update_order-Mild e _, for_items-AllMild reserve_stock e _)
    statements_of-AllMild inventory_released e = for_items-AllMild release_stock e _
    statements_of-AllMild inventory_reservation_failed e = (update_order-Mild e _, tt)
    statements_of-AllMild fraud_check_requested e = (update_order-Mild e _, tt)
    statements_of-AllMild fraud_approved e = (update_order-Mild e _, tt)
    statements_of-AllMild fraud_rejected e = (update_order-Mild e _, tt)
    statements_of-AllMild shipment_requested e = (update_order-Mild e _, tt)
    statements_of-AllMild shipment_created e =
        (update_order-Mild e _, (λ env now d k c. shipment-Holds d k _ c, tt))
    statements_of-AllMild order_completed e = (update_order-Mild e _, tt)
    statements_of-AllMild order_cancelled e = (update_order-Mild e _, tt)
    statements_of-AllMild order_failed e = (update_order-Mild e _, tt)
    statements_of-AllMild _ e = tt

    execute_in_tx-Keeps : (e : EventEnvelope) → Keeps C (execute_in_tx e)
    unfolding execute_in_tx
    execute_in_tx-Keeps e = then-Keeps C _ _ (query-Keeps C _) (λ applied.
        if-Keeps C applied _ _ (pure-Keeps C tt) (
          then-Keeps C _ _ (run_statements-Keeps _ (statements_of-AllMild e.event_type e)) (λ u.
            statement_of-Keeps (mark_applied e)
              (λ env now d k c. b.projection_applied_events d k _ c))))

  -- The INSERT into the event store, after the advisory lock.
  append-Keeps :
      Appendable C
      → (e : EventEnvelope)
      → Mild C (λ env now d. set_events d (append_to_event_store env.fits_columns e d.event_store))
  append-Keeps app e env now d k c =
      go (append_to_event_store env.fits_columns e d.event_store) refl
    where
      go :
          (o : Option (List EventRow))
          → append_to_event_store env.fits_columns e d.event_store ≡ o
          → Holds C k (set_events d o)
      go none q = tt
      go (some rows) q = app e d k rows (inserted env.fits_columns e d.event_store rows q) c

module _ (C : Cond) (b : IsBlind C) where
  pub apply-Keeps : (e : EventEnvelope) → Keeps C (apply_historical_event e)
  unfolding apply_historical_event
  apply-Keeps e =
      transaction-Keeps C _ (λ k₀. execute_in_tx-Keeps (Fixed C k₀) (Fixed-IsBlind C k₀ b) e)

  store_event-Keeps : Appendable C → (e : EventEnvelope) → Keeps C (store_event e)
  unfolding store_event
  store_event-Keeps app e = transaction-Keeps C _ (λ k₀.
      then-Keeps (Fixed C k₀) _ _
        (try-Keeps (Fixed C k₀) _ _ (query-Keeps (Fixed C k₀) _) (λ x. pure-Keeps (Fixed C k₀) tt))
        (λ u.
          statement_of-Keeps (Fixed C k₀) _
            (append-Keeps (Fixed C k₀) (λ e d k rows p c. (app e d k rows p c.0, c.1)) e)))

  pub project_event-Keeps : Appendable C → (e : EventEnvelope) → Keeps C (project_event e)
  unfolding project_event emit_live_notifications
  project_event-Keeps app e = then-Keeps C _ _ (store_event-Keeps app e) (λ u.
      then-Keeps C _ _ (statement-Keeps C _ (λ now d k c. b.order_events d k _ c))
        (λ u. then-Keeps C _ _ (apply-Keeps e) (λ u. record { at = λ w c. c })))

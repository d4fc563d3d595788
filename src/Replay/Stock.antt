-- ===== src/Replay/Stock.antt =====
-- src/services/database.ts, resetReadModelForAggregate, and src/application/projections/projection-consumer.ts,
-- InventoryReserved: what a replay makes of the stock.
use event_driven_kafka.Base.{
  ℕ, ◌+◌, String, Bool, true, false, List, [], ◌∷◌, Option, none, some, ◌≡◌, refl, ap, ◌∙◌, subst,
  sym, eq_refl, arith, ◌==◌, find?, Bool-cases, inl, inr,
}
use event_driven_kafka.Base.Table.{update_where}
use event_driven_kafka.Json.{Fields, obj, arr, nil, cons, num, get, ◌or◌}
use event_driven_kafka.Contracts.{EventEnvelope, inventory_reserved}
use event_driven_kafka.Database.{Db}
use event_driven_kafka.Database.ReadModels.{
  AppliedEvent, is_projection_event_applied, mark_projection_event_applied, delete_applied_events,
  InventoryView, has_sku, reserve_row, unless_overflow, reserve_stock,
}
use event_driven_kafka.World.{Env, World}
use event_driven_kafka.Exec.{Result, ok}
use event_driven_kafka.Exec.Worlds.{calm}
use event_driven_kafka.Queries.{reset_read_model_for_aggregate}
use event_driven_kafka.Exec.Changes.{and_then, with_db, Ran}
use event_driven_kafka.Projection.{projection, mark_applied, is_applied, apply_historical_event}
use event_driven_kafka.Projection.Marks.{projected_only}
use event_driven_kafka.Projection.Statements.{statements_of, set_inventory, set_status, column}
use event_driven_kafka.Projection.Effects.{run_all, projected, Applied, Done, apply_atomic}
use event_driven_kafka.Replay.Reset.{reset_db, reset-Ran}

-- The reserved stock of an article, where the table has it.
abbrev reserved_of : Option InventoryView → Option ℕ
reserved_of none = none
reserved_of (some r) = some r.reserved_stock

abbrev pub reserved_in : String → Db → Option ℕ
reserved_in sku db = reserved_of (find? (λ r. r.sku == sku) db.inventory_read_model)

abbrev pub plus : ℕ → Option ℕ → Option ℕ
plus n none = none
plus n (some m) = some (m + n)

-- An InventoryReserved event with one item, an object, whose article and quantity PostgreSQL accepts.
pub record IsReservation (env : Env) (e : EventEnvelope) (sku : String) (quantity : ℕ)
    : Type 0 where
  pub item : Fields
  pub event_type : e.event_type ≡ inventory_reserved
  pub items : get "items" e.payload ≡ arr (cons (obj item) nil)
  pub article : env.pg_text (get "sku" item) ≡ some sku
  pub amount : env.pg_int (get "quantity" item or num 1) ≡ some quantity

reserved-update :
    (sku now : String) (quantity : ℕ) (rows : List InventoryView)
    → reserved_of (
        find?
          (λ r. r.sku == sku)
          (update_where (has_sku (some sku)) (reserve_row quantity now) rows))
      ≡ plus quantity (reserved_of (find? (λ r. r.sku == sku) rows))
reserved-update sku now quantity [] = refl
reserved-update sku now quantity (r ∷ rows) = elim (Bool-cases (r.sku == sku)) [
  | inl e ↦ rw e (rw e refl)
  | inr e ↦ rw e (rw e (reserved-update sku now quantity rows))
]

reserves :
    (env : Env) (now : ℕ) (e : EventEnvelope) (sku : String) (quantity : ℕ) (db d : Db)
    → IsReservation env e sku quantity
    → projected e env now db ≡ some d
    → reserved_in sku d ≡ plus quantity (reserved_in sku db)
unfolding projected run_all statements_of reserve_stock
reserves env now e sku quantity db d h p = subst Reserved p reserved
  where
    Reserved : Option Db → Type 0
    Reserved none = Unit
    Reserved (some d) = reserved_in sku d ≡ plus quantity (reserved_in sku db)

    touched : Db
    touched = record db {
      order_read_model =
          update_where (λ r. r.order_id == e.aggregate_id)
            (λ r. record (set_status e "inventory_reserved" r) {
              reservation_id = column env "reservation_id" e;
            })
            db.order_read_model;
    }

    checked :
        (fits : Bool)
        → Reserved (
            and_then
              (and_then
                (set_inventory touched (
                  unless_overflow fits (
                    update_where
                      (has_sku (some sku))
                      (reserve_row quantity e.occurred_at)
                      db.inventory_read_model)))
                (run_all [] env now))
              (mark_applied e env now))
    checked true = reserved-update sku e.occurred_at quantity db.inventory_read_model
    checked false = tt

    reserved : Reserved (projected e env now db)
    reserved = rw (h.event_type, h.items, h.article, h.amount) (checked _)

-- What a call of applyHistoricalEvent that returns has done of an event that was not marked.
applied_now :
    (e : EventEnvelope) (w : World)
    → (apply_historical_event e w).0 ≡ ok tt
    → is_applied e w.db ≡ false
    → (d : Db) × (projected e w.env w.clock w.db ≡ some d)
      × (calm (apply_historical_event e w).1 ≡ with_db (calm w) d)
applied_now e w returned fresh = go _ (
    subst (λ r. Applied e (calm w) r (calm (apply_historical_event e w).1)) returned
      (apply_atomic e w))
  where
    go :
        (v : World)
        → Done e (calm w) v
        → (d : Db) × (projected e w.env w.clock w.db ≡ some d) × (v ≡ with_db (calm w) d)
    go v (inl p) = absurd (ground (arith, p.0, fresh))
    go v (inr p) = (p.0, p.2, p.3)

cleared :
    (a : String) (w : World)
    → (reset_read_model_for_aggregate a w).0 ≡ ok tt
    → calm (reset_read_model_for_aggregate a w).1 ≡ with_db (calm w) (reset_db a w.db)
cleared a w returned = go _ (
    subst
      (λ r.
        Ran (λ db. some (reset_db a db)) (calm w) r (calm (reset_read_model_for_aggregate a w).1))
      returned ((reset-Ran a (calm w)).at w refl))
  where
    some_inj : (c d : Db) → some c ≡ some d → c ≡ d
    some_inj c d q = cc

    go :
        (v : World)
        → Ran (λ db. some (reset_db a db)) (calm w) (ok tt) v
        → v ≡ with_db (calm w) (reset_db a w.db)
    go v p = p.2 ∙ ap (with_db (calm w)) (sym (some_inj _ p.0 p.1))

-- The reset removes the mark that the event has made.
unmarked :
    (id a : String) (now : ℕ) (rows : List AppliedEvent)
    → is_projection_event_applied projection id rows ≡ false
    → is_projection_event_applied projection id
        (delete_applied_events a (mark_projection_event_applied projection id a now rows))
      ≡ false
unfolding is_projection_event_applied delete_applied_events mark_projection_event_applied
unmarked id a now [] h = rw (eq_refl a) refl
unmarked id a now (r ∷ rows) h = ground (arith, unmarked id a now rows, eq_refl a, eq_refl id)

-- The reset of the read models, after the event was projected.
abbrev pub reset_after : EventEnvelope → World → Result (Unit {0}) × World
reset_after e w = reset_read_model_for_aggregate e.aggregate_id (apply_historical_event e w).1

-- An InventoryReserved event with one item is projected, the read models of its order are reset, and the
-- event is projected again; all three return without an error, and the event was not marked at
-- first. Then the reserved stock of the item's article has grown by the quantity twice: the reset
-- leaves the stock as it is.
pub stock_reserved_twice :
    (e : EventEnvelope) (sku : String) (quantity : ℕ) (w : World)
    → IsReservation w.env e sku quantity
    → is_applied e w.db ≡ false
    → (apply_historical_event e w).0 ≡ ok tt
    → (reset_after e w).0 ≡ ok tt
    → (apply_historical_event e (reset_after e w).1).0 ≡ ok tt
    → reserved_in sku (apply_historical_event e (reset_after e w).1).1.db
      ≡ plus (quantity + quantity) (reserved_in sku w.db)
stock_reserved_twice e sku quantity w h fresh first reset again =
    let w₁ : World = (apply_historical_event e w).1 in
    let w₂ : World = (reset_read_model_for_aggregate e.aggregate_id w₁).1 in
    let (d, p, q) = applied_now e w first fresh in
    let back : calm w₂ ≡ with_db (calm w) (reset_db e.aggregate_id d) =
      cleared e.aggregate_id w₁ reset ∙ ap (λ v. with_db v (reset_db e.aggregate_id v.db)) q in
    let renewed : is_applied e w₂.db ≡ false =
      ap (λ v. is_applied e v.db) back
      ∙ ap
          (λ (d : Db).
            is_projection_event_applied projection e.event_id
              (delete_applied_events e.aggregate_id d.projection_applied_events))
          (projected_only w.env w.clock e w.db d p).4
      ∙ unmarked e.event_id e.aggregate_id w.clock w.db.projection_applied_events fresh in
    let (d', p', q') = applied_now e w₂ again renewed in
    ap (λ v. reserved_in sku v.db) q'
    ∙ reserves w₂.env w₂.clock e sku quantity w₂.db d'
        (subst (λ env. IsReservation env e sku quantity) (sym (ap (λ v. v.env) back)) h) p'
    ∙ ap (λ v. plus quantity (reserved_in sku v.db)) back
    ∙ ap (plus quantity) (reserves w.env w.clock e sku quantity w.db d h p)
    ∙ twice (reserved_in sku w.db)
  where
    twice : (o : Option ℕ) → plus quantity (plus quantity o) ≡ plus (quantity + quantity) o
    twice none = refl
    twice (some m) = ap some (omega arith)

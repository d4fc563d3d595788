-- ===== src/Database/ReadModels.antt =====
-- src/services/database.ts, createTables and the methods on the read models: order_read_model,
-- payment_read_model, inventory_read_model, shipment_read_model and projection_applied_events. A
-- column that may be NULL is an Option. A DECIMAL holds the text that it was given, and a TIMESTAMP
-- too; the lengths of VARCHAR columns are not modelled.
use event_driven_kafka.Base.{
  ℕ, ◌+◌, ◌-◌, String, Bool, true, false, ◌&&◌, List, Option, none, some, ◌==◌, ltb, any, all,
  find?, if◌then◌else◌,
}
use event_driven_kafka.Base.Table.{update_where, upsert, delete_where}
use event_driven_kafka.Json.{Json}

pub record OrderView : Type 0 where
  pub order_id : String
  pub user_id : String
  pub status : String
  pub total_amount : String
  pub currency : String
  pub items : Json
  pub payment_id : Option String
  pub reservation_id : Option String
  pub fraud_check_id : Option String
  pub shipment_id : Option String
  pub tracking_number : Option String
  pub failure_reason : Option String
  pub created_at : String
  pub updated_at : String
  pub version : ℕ

pub record PaymentView : Type 0 where
  pub payment_id : String
  pub order_id : String
  pub user_id : String
  pub amount : String
  pub status : String
  pub authorization_code : Option String
  pub refund_id : Option String
  pub created_at : String
  pub updated_at : String

pub record InventoryView : Type 0 where
  pub sku : String
  pub name : String
  pub total_stock : ℕ
  pub reserved_stock : ℕ
  pub available_stock : ℕ
  pub updated_at : String

pub record ShipmentView : Type 0 where
  pub shipment_id : String
  pub order_id : String
  pub tracking_number : String
  pub carrier : String
  pub status : String
  pub estimated_delivery : Option String
  pub created_at : String
  pub updated_at : String

pub record AppliedEvent : Type 0 where
  pub projection_name : String
  pub event_id : String
  pub aggregate_id : String
  pub applied_at : ℕ

abbrev pub same_order : OrderView → OrderView → Bool
same_order r s = r.order_id == s.order_id

abbrev pub same_payment : PaymentView → PaymentView → Bool
same_payment r s = r.payment_id == s.payment_id

abbrev pub same_shipment : ShipmentView → ShipmentView → Bool
same_shipment r s = r.shipment_id == s.shipment_id

unfoldable pub find_order : String → List OrderView → Option OrderView
find_order id rows = find? (λ r. r.order_id == id) rows

-- INT: a value past the type's range is an error.
abbrev pub fits_int : ℕ → Bool
fits_int n = ltb n 2147483648

-- WHERE sku = $3, which no row satisfies where $3 is NULL.
abbrev pub has_sku : Option String → InventoryView → Bool
has_sku none r = false
has_sku (some sku) r = r.sku == sku

abbrev pub reserve_row : ℕ → String → InventoryView → InventoryView
reserve_row quantity now r = record r {
  reserved_stock = r.reserved_stock + quantity;
  available_stock = r.available_stock - quantity;  -- GREATEST(0, …)
  updated_at = now;
}

abbrev pub release_row : ℕ → String → InventoryView → InventoryView
release_row quantity now r = record r {
  reserved_stock = r.reserved_stock - quantity;  -- GREATEST(0, …)
  available_stock = r.available_stock + quantity;
  updated_at = now;
}

abbrev pub unless_overflow : Bool → List InventoryView → Option (List InventoryView)
unless_overflow true rows = some rows
unless_overflow false rows = none

-- The two updates of inventory_read_model; `none` where a column leaves its range.
unfoldable pub reserve_stock :
    Option String → ℕ → String → List InventoryView → Option (List InventoryView)
reserve_stock sku quantity now rows =
    unless_overflow
      (all (λ r. if has_sku sku r then fits_int (r.reserved_stock + quantity) else true) rows)
      (update_where (has_sku sku) (reserve_row quantity now) rows)

unfoldable pub release_stock :
    Option String → ℕ → String → List InventoryView → Option (List InventoryView)
release_stock sku quantity now rows =
    unless_overflow
      (all (λ r. if has_sku sku r then fits_int (r.available_stock + quantity) else true) rows)
      (update_where (has_sku sku) (release_row quantity now) rows)

unfoldable pub is_projection_event_applied : String → String → List AppliedEvent → Bool
is_projection_event_applied projection event_id rows =
    any (λ r. r.projection_name == projection && r.event_id == event_id) rows

abbrev pub same_applied : AppliedEvent → AppliedEvent → Bool
same_applied r s = r.projection_name == s.projection_name && r.event_id == s.event_id

abbrev pub keep_applied : AppliedEvent → AppliedEvent → AppliedEvent
keep_applied r new = r

unfoldable pub mark_projection_event_applied :
    String → String → String → ℕ → List AppliedEvent → List AppliedEvent
mark_projection_event_applied projection event_id aggregate_id now rows =
    upsert same_applied keep_applied
      (record {
        projection_name = projection;
        event_id = event_id;
        aggregate_id = aggregate_id;
        applied_at = now;
      })
      rows

-- The four statements of resetReadModelForAggregate.
unfoldable pub delete_order_views : String → List OrderView → List OrderView
delete_order_views a rows = delete_where (λ r. r.order_id == a) rows

unfoldable pub delete_payment_views : String → List PaymentView → List PaymentView
delete_payment_views a rows = delete_where (λ r. r.order_id == a) rows

unfoldable pub delete_shipment_views : String → List ShipmentView → List ShipmentView
delete_shipment_views a rows = delete_where (λ r. r.order_id == a) rows

unfoldable pub delete_applied_events : String → List AppliedEvent → List AppliedEvent
delete_applied_events a rows = delete_where (λ r. r.aggregate_id == a) rows

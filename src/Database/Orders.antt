-- ===== src/Database/Orders.antt =====
-- src/services/database.ts, the table orders, and the queries that fall back on it. A DECIMAL holds the
-- text that it was given, and a Date is given by its text.
use event_driven_kafka.Base.{ℕ, String, Bool, List, Option, ◌==◌, leb, find?}
use event_driven_kafka.Base.Table.{update_where, upsert}
use event_driven_kafka.Base.Sorted.{sort_rows}
use event_driven_kafka.Json.{Json, Fields, field, set, get, arr, nil, ◌or◌}
use event_driven_kafka.Database.ReadModels.{OrderView}

-- A row of orders; `metadata` is a JSON object.
pub record OrderRow : Type 0 where
  pub id : String
  pub user_id : String
  pub status : String
  pub total_amount : String
  pub metadata : Fields
  pub created_at : ℕ
  pub updated_at : ℕ

abbrev pub same_order_id : OrderRow → OrderRow → Bool
same_order_id r s = r.id == s.id

abbrev pub replace_order : OrderRow → OrderRow → OrderRow
replace_order r new = record r {
  status = new.status;
  metadata = new.metadata;
  updated_at = new.updated_at;
}

unfoldable pub insert_order : OrderRow → List OrderRow → List OrderRow
insert_order order rows = upsert same_order_id replace_order order rows

-- metadata || $2: the keys of the second object are set in the first.
abbrev pub merge_fields : Fields → Fields → Fields
merge_fields old Fields.end = old
merge_fields old (field k v fs) = merge_fields (set k v old) fs

unfoldable pub update_order_status : String → String → Fields → ℕ → List OrderRow → List OrderRow
update_order_status id status metadata now rows =
    update_where (λ r. r.id == id)
      (λ r. record r {
        status = status;
        metadata = merge_fields r.metadata metadata;
        updated_at = now;
      })
      rows

-- What getOrder returns.
pub record Order : Type 0 where
  pub id : String
  pub user_id : String
  pub status : String
  pub items : Json
  pub total_amount : String
  pub created_at : String
  pub updated_at : String

abbrev pub order_of_view : (String → String) → OrderView → Order
order_of_view stored_time r = record {
  id = r.order_id;
  user_id = r.user_id;
  status = r.status;
  items = r.items or arr nil;
  total_amount = r.total_amount;
  created_at = stored_time r.created_at;
  updated_at = stored_time r.updated_at;
}

-- mapOrderRow
abbrev pub map_order_row : (ℕ → String) → OrderRow → Order
map_order_row iso r = record {
  id = r.id;
  user_id = r.user_id;
  status = r.status;
  items = get "items" r.metadata or arr nil;
  total_amount = r.total_amount;
  created_at = iso r.created_at;
  updated_at = iso r.updated_at;
}

unfoldable pub find_order_row : String → List OrderRow → Option OrderRow
find_order_row id rows = find? (λ r. r.id == id) rows

module _ (later : String → String → Bool) where
  -- ORDER BY created_at DESC, where `later` compares two TIMESTAMPs.
  abbrev pub newest_views : List OrderView → List OrderView
  newest_views views = sort_rows (λ r s. later r.created_at s.created_at) views

abbrev pub newest_rows : List OrderRow → List OrderRow
newest_rows rows = sort_rows (λ r s. leb s.created_at r.created_at) rows

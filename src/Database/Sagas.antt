-- ===== src/Database/Sagas.antt =====
-- src/services/database.ts, the table saga_instances, and the SagaState and SagaContext types of
-- src/saga/saga-orchestrator.ts that its rows hold.
pub mod Listing
use event_driven_kafka.Base.{
  ℕ, String, Bool, List, [], ◌∷◌, Option, none, some, ◌==◌, ltb, leb, find?, take, if◌then◌else◌,
}
use event_driven_kafka.Base.Table.{upsert}
use event_driven_kafka.Json.{Json, undefined}
use event_driven_kafka.Database.Processed.{or_null}

pub data SagaState : Type 0 where
  created payment_pending payment_approved inventory_pending inventory_reserved : SagaState
  fraud_pending fraud_approved shipping_pending shipped completed compensating : SagaState
  cancelled failed : SagaState

-- An absent property is `undefined`, or `none` where it is a list of texts.
pub record SagaContext : Type 0 where
  pub order_id : Json
  pub user_id : Json
  pub total_amount : Json
  pub items : Json
  pub currency : Json
  pub shipping_address : Json
  pub created_at : Json
  pub payment_id : Json
  pub payment_authorized_at : Json
  pub payment_rejection_reason : Json
  pub reservation_id : Json
  pub inventory_reserved_at : Json
  pub inventory_failure_reason : Json
  pub fraud_check_id : Json
  pub risk_score : Json
  pub fraud_rejection_reason : Json
  pub shipment_id : Json
  pub tracking_number : Json
  pub completed_at : Json
  pub shipment_failure_reason : Json
  pub compensations_pending : Option (List String)
  pub compensations_completed : Option (List String)

-- `{}`
abbrev pub empty_context : SagaContext
empty_context = record {
  order_id = undefined;
  user_id = undefined;
  total_amount = undefined;
  items = undefined;
  currency = undefined;
  shipping_address = undefined;
  created_at = undefined;
  payment_id = undefined;
  payment_authorized_at = undefined;
  payment_rejection_reason = undefined;
  reservation_id = undefined;
  inventory_reserved_at = undefined;
  inventory_failure_reason = undefined;
  fraud_check_id = undefined;
  risk_score = undefined;
  fraud_rejection_reason = undefined;
  shipment_id = undefined;
  tracking_number = undefined;
  completed_at = undefined;
  shipment_failure_reason = undefined;
  compensations_pending = none;
  compensations_completed = none;
}

pub record SagaRow : Type 0 where
  pub saga_id : String
  pub aggregate_id : String
  pub saga_type : String
  pub state : SagaState
  pub current_step : String
  pub correlation_id : String
  pub context : SagaContext
  pub failure_reason : Option String
  pub created_at : ℕ
  pub updated_at : ℕ

-- The argument of saveSagaInstance.
pub record SagaInstance : Type 0 where
  pub saga_id : String
  pub aggregate_id : String
  pub saga_type : String
  pub state : SagaState
  pub current_step : String
  pub correlation_id : String
  pub context : SagaContext
  pub failure_reason : Option String

abbrev pub saga_row : ℕ → SagaInstance → SagaRow
saga_row now s = record {
  saga_id = s.saga_id;
  aggregate_id = s.aggregate_id;
  saga_type = s.saga_type;
  state = s.state;
  current_step = s.current_step;
  correlation_id = s.correlation_id;
  context = s.context;
  failure_reason = or_null s.failure_reason;
  created_at = now;
  updated_at = now;
}

abbrev pub same_saga : SagaRow → SagaRow → Bool
same_saga r s = r.saga_id == s.saga_id

-- ON CONFLICT (saga_id) DO UPDATE: the columns that the statement sets.
abbrev pub merge_saga : SagaRow → SagaRow → SagaRow
merge_saga r new = record r {
  state = new.state;
  current_step = new.current_step;
  context = new.context;
  failure_reason = new.failure_reason;
  updated_at = new.updated_at;
}

unfoldable pub save_saga_instance : SagaInstance → ℕ → List SagaRow → List SagaRow
save_saga_instance s now rows = upsert same_saga merge_saga (saga_row now s) rows

unfoldable pub get_saga_instance : String → List SagaRow → Option SagaRow
get_saga_instance saga_id rows = find? (λ r. r.saga_id == saga_id) rows

abbrev pub newer : SagaRow → Option SagaRow → Option SagaRow
newer r none = some r
newer r (some s) = if ltb r.created_at s.created_at then some s else some r

-- WHERE aggregate_id = $1 ORDER BY created_at DESC LIMIT 1, FOR UPDATE or not.
unfoldable pub get_saga_by_aggregate_id : String → List SagaRow → Option SagaRow
get_saga_by_aggregate_id a [] = none
get_saga_by_aggregate_id a (r ∷ rows) =
    let rest = get_saga_by_aggregate_id a rows in if r.aggregate_id == a then newer r rest else rest

insert_newest_first : SagaRow → List SagaRow → List SagaRow
insert_newest_first r [] = r ∷ []
insert_newest_first r (s ∷ rows) =
    if leb s.created_at r.created_at then r ∷ s ∷ rows else s ∷ insert_newest_first r rows

newest_first : List SagaRow → List SagaRow
unfolding insert_newest_first
newest_first [] = []
newest_first (r ∷ rows) = insert_newest_first r (newest_first rows)

unfoldable pub list_sagas : ℕ → List SagaRow → List SagaRow
unfolding newest_first
list_sagas limit rows = take limit (newest_first rows)

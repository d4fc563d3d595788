-- ===== src/Database.antt =====
-- The tables of src/services/database.ts as one record. The statements on each table are in the
-- modules below.
pub mod Leases
pub mod Outbox
pub mod Processed
pub mod Sagas
pub mod Dlq
pub mod EventStore
pub mod ReadModels
pub mod Orders
pub mod Metrics
use event_driven_kafka.Base.{List, []}
use Outbox.{OutboxRow, DlqOutboxRow}
use Processed.{ProcessedRow}
use Sagas.{SagaRow}
use Dlq.{DlqRow}
use EventStore.{EventRow, OrderEventRow}
use ReadModels.{OrderView, PaymentView, InventoryView, ShipmentView, AppliedEvent}
use Orders.{OrderRow}

pub record Db : Type 0 where
  pub outbox_events : List OutboxRow
  pub dlq_outbox : List DlqOutboxRow
  pub processed_events : List ProcessedRow
  pub saga_instances : List SagaRow
  pub dlq_messages : List DlqRow
  pub orders : List OrderRow
  pub event_store : List EventRow
  pub order_events : List OrderEventRow
  pub order_read_model : List OrderView
  pub payment_read_model : List PaymentView
  pub inventory_read_model : List InventoryView
  pub shipment_read_model : List ShipmentView
  pub projection_applied_events : List AppliedEvent

abbrev pub empty_db : Db
empty_db = record {
  outbox_events = [];
  dlq_outbox = [];
  processed_events = [];
  saga_instances = [];
  dlq_messages = [];
  orders = [];
  event_store = [];
  order_events = [];
  order_read_model = [];
  payment_read_model = [];
  inventory_read_model = [];
  shipment_read_model = [];
  projection_applied_events = [];
}

-- ===== src/Database/Metrics.antt =====
-- src/services/database.ts, getMetrics: the counts that the dashboard shows. The average of DECIMALs, which the
-- database computes and parseFloat reads, is given.
use event_driven_kafka.Base.{
  ℕ, String, Bool, true, false, ◌||◌, List, map, ◌==◌, length, where_rows,
}
use event_driven_kafka.Json.{Json}
use event_driven_kafka.Database.{Db}
use event_driven_kafka.Database.Dlq.{unresolved, replayed, same_status}
use event_driven_kafka.Database.Leases.{OutboxStatus, published, failed, is_pending, is_processing}
use event_driven_kafka.Database.Sagas.{SagaState}
use event_driven_kafka.Exec.{Exec, query}

pub record Metrics : Type 0 where
  pub total_orders : ℕ
  pub orders_created_total : ℕ
  pub completed_orders : ℕ
  pub orders_completed_total : ℕ
  pub orders_cancelled_total : ℕ
  pub failed_orders : ℕ
  pub avg_order_value : Json
  pub outbox_pending : ℕ
  pub outbox_processing : ℕ
  pub outbox_published_total : ℕ
  pub outbox_failed_total : ℕ
  pub saga_started_total : ℕ
  pub saga_completed_total : ℕ
  pub saga_compensated_total : ℕ
  pub saga_failed_total : ℕ
  pub dlq_messages_total : ℕ
  pub dlq_unresolved_total : ℕ
  pub dlq_replayed_total : ℕ
  pub event_store_events_total : ℕ

abbrev pub is_published : OutboxStatus → Bool
is_published published = true
is_published _ = false

abbrev pub is_failed_row : OutboxStatus → Bool
is_failed_row failed = true
is_failed_row _ = false

abbrev pub is_completed : SagaState → Bool
is_completed SagaState.completed = true
is_completed _ = false

abbrev pub is_cancelled : SagaState → Bool
is_cancelled SagaState.cancelled = true
is_cancelled _ = false

abbrev pub is_failed : SagaState → Bool
is_failed SagaState.failed = true
is_failed _ = false

-- SELECT COUNT(*) FROM … WHERE …
abbrev pub count_where {ℓ} : {A : Type ℓ} → (A → Bool) → List A → ℕ
count_where p rows = length (where_rows p rows)

module _ (average : List String → Json) where
  unfoldable pub metrics_of : Db → Metrics
  metrics_of db = record {
    total_orders = length db.orders;
    orders_created_total = length db.orders;
    completed_orders = count_where (λ r. r.status == "completed") db.order_read_model;
    orders_completed_total = count_where (λ r. r.status == "completed") db.order_read_model;
    orders_cancelled_total = count_where (λ r. r.status == "cancelled") db.order_read_model;
    failed_orders =
        count_where (λ r. r.status == "failed" || r.status == "cancelled") db.order_read_model;
    avg_order_value = average (map (λ r. r.total_amount) db.orders);
    outbox_pending = count_where (λ r. is_pending r.status) db.outbox_events;
    outbox_processing = count_where (λ r. is_processing r.status) db.outbox_events;
    outbox_published_total = count_where (λ r. is_published r.status) db.outbox_events;
    outbox_failed_total = count_where (λ r. is_failed_row r.status) db.outbox_events;
    saga_started_total = length db.saga_instances;
    saga_completed_total = count_where (λ r. is_completed r.state) db.saga_instances;
    saga_compensated_total = count_where (λ r. is_cancelled r.state) db.saga_instances;
    saga_failed_total = count_where (λ r. is_failed r.state) db.saga_instances;
    dlq_messages_total = length db.dlq_messages;
    dlq_unresolved_total = count_where (λ r. same_status r.status unresolved) db.dlq_messages;
    dlq_replayed_total = count_where (λ r. same_status r.status replayed) db.dlq_messages;
    event_store_events_total = length db.event_store;
  }

  unfoldable pub get_metrics : Exec Metrics
  get_metrics = query metrics_of

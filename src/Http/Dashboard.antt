-- ===== src/Http/Dashboard.antt =====
-- src/app.ts, the counters of requests and GET /metrics, and the timer of src/index.ts that sends the
-- metrics to the clients of the gateway. The database's average and the consumers' metrics are given.
pub mod Counts
use event_driven_kafka.Base.{
  ℕ, zero, suc, ◌+◌, ◌*◌, ◌/◌, String, Bool, not, ◌||◌, List, [], ◌∷◌, ◌++◌, none, ltb, leb, length,
  if◌then◌else◌,
}
use event_driven_kafka.Base.Sorted.{sort_rows}
use event_driven_kafka.Json.{Json, num, str, obj}
use event_driven_kafka.Database.Dlq.{unresolved, list_dlq_messages}
use event_driven_kafka.Database.Metrics.{
  Metrics, is_completed, is_cancelled, is_failed, count_where, get_metrics,
}
use event_driven_kafka.Database.Sagas.{SagaRow, list_sagas}
use event_driven_kafka.Emit.{object}
use event_driven_kafka.World.{Consumer}
use event_driven_kafka.Exec.{Exec, ok, pure, ◌>>=◌, ◌>>◌, query, random_below, now_iso, try_catch}
use event_driven_kafka.Http.{Response, Answer}
use event_driven_kafka.Http.Queries.{answers, guarded}

-- httpRequestsTotal and httpDurations
pub record Requests : Type 0 where
  pub total : ℕ
  pub durations : List ℕ

abbrev pub set_at : List ℕ → ℕ → ℕ → List ℕ
set_at [] i v = []
set_at (x ∷ xs) zero v = v ∷ xs
set_at (x ∷ xs) (suc i) v = x ∷ set_at xs i v

abbrev pub sampled : List ℕ → ℕ → Exec (List ℕ)
sampled durations d =
    if ltb (length durations) 10000
    then pure (durations ++ d ∷ [])
    else (random_below (length durations) >>= λ i. pure (set_at durations i d))

-- The `finish` listener.
unfoldable pub request_finished : ℕ → Requests → Exec Requests
request_finished duration r = do
  durations ← sampled r.durations duration
  pure (record { total = r.total + 1; durations = durations })

abbrev pub at_or_zero : List ℕ → ℕ → ℕ
at_or_zero [] i = 0
at_or_zero (x ∷ xs) zero = x
at_or_zero (x ∷ xs) (suc i) = at_or_zero xs i

-- sorted[Math.floor(sorted.length * p)] || 0, for p in hundredths.
unfoldable pub percentile : ℕ → List ℕ → ℕ
percentile hundredths durations =
    at_or_zero (sort_rows (λ a b. leb a b) durations) (length durations * hundredths / 100)

-- !['COMPLETED', 'CANCELLED', 'FAILED'].includes(s.state)
abbrev pub is_active : SagaRow → Bool
is_active s = not (is_completed s.state || (is_cancelled s.state || is_failed s.state))

pub record Dashboard : Type 0 where
  pub metrics : Metrics
  pub http_requests_total : ℕ
  pub p50_ms : ℕ
  pub p95_ms : ℕ
  pub p99_ms : ℕ
  pub samples : ℕ
  pub active_sagas : ℕ
  pub unresolved_dlq_count : ℕ
  pub consumers : List Consumer
  pub timestamp : String

abbrev pub metrics_fields : Metrics → List (String × Json)
metrics_fields m =
    ("total_orders", num m.total_orders)
    ∷ ("orders_created_total", num m.orders_created_total)
    ∷ ("completed_orders", num m.completed_orders)
    ∷ ("orders_completed_total", num m.orders_completed_total)
    ∷ ("orders_cancelled_total", num m.orders_cancelled_total)
    ∷ ("failed_orders", num m.failed_orders)
    ∷ ("avg_order_value", m.avg_order_value)
    ∷ ("outbox_pending", num m.outbox_pending)
    ∷ ("outbox_processing", num m.outbox_processing)
    ∷ ("outbox_published_total", num m.outbox_published_total)
    ∷ ("outbox_failed_total", num m.outbox_failed_total)
    ∷ ("saga_started_total", num m.saga_started_total)
    ∷ ("saga_completed_total", num m.saga_completed_total)
    ∷ ("saga_compensated_total", num m.saga_compensated_total)
    ∷ ("saga_failed_total", num m.saga_failed_total)
    ∷ ("dlq_messages_total", num m.dlq_messages_total)
    ∷ ("dlq_unresolved_total", num m.dlq_unresolved_total)
    ∷ ("dlq_replayed_total", num m.dlq_replayed_total)
    ∷ ("event_store_events_total", num m.event_store_events_total)
    ∷ []

module _ (average : List String → Json) where
  unfoldable pub get_dashboard : Requests → List Consumer → Exec (Response (Answer Dashboard))
  get_dashboard requests consumers = guarded "Failed to fetch metrics" do
    metrics ← get_metrics average
    sagas ← query (λ db. list_sagas 100 db.saga_instances)
    messages ← query (λ db. list_dlq_messages 100 unresolved db.dlq_messages)
    now ← now_iso
    pure (
        answers (record {
          metrics = metrics;
          http_requests_total = requests.total;
          p50_ms = percentile 50 requests.durations;
          p95_ms = percentile 95 requests.durations;
          p99_ms = percentile 99 requests.durations;
          samples = length requests.durations;
          active_sagas = count_where is_active sagas;
          unresolved_dlq_count = length messages;
          consumers = consumers;
          timestamp = now;
        }))

  abbrev emit_to_all : String → Json → Exec (Unit {0})
  emit_to_all event content w = (
    ok tt,
    record w {
      broadcasts = w.broadcasts ++ record { event = event; room = none; content = content } ∷ [];
    },
  )

  -- One run of the timer; its errors are ignored.
  unfoldable pub broadcast_metrics : Exec (Unit {0})
  broadcast_metrics =
      try_catch
        (do
          metrics ← get_metrics average
          sagas ← query (λ db. list_sagas 50 db.saga_instances)
          messages ← query (λ db. list_dlq_messages 50 unresolved db.dlq_messages)
          now ← now_iso
          emit_to_all "metrics:update" (
              obj (
                object (
                  metrics_fields metrics
                  ++ (("active_sagas", num (count_where is_active sagas))
                      ∷ ("dlq_count", num (length messages))
                      ∷ ("timestamp", str now)
                      ∷ [])))))
        (λ e. pure tt)

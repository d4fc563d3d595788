-- ===== src/Http/Dashboard/Counts.antt =====
-- src/app.ts, GET /metrics: what its two bounded counts have to do with the counts of the database.
use event_driven_kafka.Base.{
  ◌+◌, ◌≤◌, min, String, List, [], ◌∷◌, ◌≡◌, refl, ap, ◌⊎◌, inl, inr, arith, length,
}
use event_driven_kafka.Json.{Json}
use event_driven_kafka.Database.{Db}
use event_driven_kafka.Database.Leases.{is_pending}
use event_driven_kafka.Database.Dlq.{unresolved, same_status, list_dlq_messages}
use event_driven_kafka.Database.Dlq.Listing.{length-list_dlq_messages}
use event_driven_kafka.Database.Metrics.{
  is_completed, is_cancelled, is_failed, count_where, metrics_of, get_metrics,
}
use event_driven_kafka.Database.Sagas.{SagaRow, list_sagas}
use event_driven_kafka.Database.Sagas.Listing.{list_sagas_bounds}
use event_driven_kafka.World.{World, Consumer}
use event_driven_kafka.Exec.{Result, ok, err}
use event_driven_kafka.Exec.Changes.{Told, query-Told, asked_Upholds}
use event_driven_kafka.Exec.Worlds.{
  calm, Condition, Upholds, Upholds-pure, Upholds-gets, Upholds-try_catch,
}
use event_driven_kafka.Http.{Response, Answer, fails_with}
use event_driven_kafka.Http.Dashboard.{Requests, Dashboard, is_active, percentile, get_dashboard}
use event_driven_kafka.Http.Queries.{answers}

-- A saga is active or in one of the three final states.
active-partition :
    (rows : List SagaRow)
    → count_where is_active rows
        + count_where (λ r. is_completed r.state) rows
        + count_where (λ r. is_cancelled r.state) rows
        + count_where (λ r. is_failed r.state) rows
      ≡ length rows
active-partition [] = refl
active-partition (r ∷ rows) = ground (arith, active-partition rows)

-- The dashboard against the tables: the counts, and the two counts that stop at 100.
pub record IsCounted (db : Db) (d : Dashboard) : Type 0 where
  pub orders : d.metrics.total_orders ≡ length db.orders
  pub stored_events : d.metrics.event_store_events_total ≡ length db.event_store
  pub waiting : d.metrics.outbox_pending ≡ count_where (λ r. is_pending r.status) db.outbox_events
  pub unresolved_total :
      d.metrics.dlq_unresolved_total
      ≡ count_where (λ m. same_status m.status unresolved) db.dlq_messages
  pub dead_letters :
      d.unresolved_dlq_count
      ≡ min 100 (count_where (λ m. same_status m.status unresolved) db.dlq_messages)
  pub started : d.metrics.saga_started_total ≡ length db.saga_instances
  pub completed :
      d.metrics.saga_completed_total ≡ count_where (λ r. is_completed r.state) db.saga_instances
  pub compensated :
      d.metrics.saga_compensated_total ≡ count_where (λ r. is_cancelled r.state) db.saga_instances
  pub failed : d.metrics.saga_failed_total ≡ count_where (λ r. is_failed r.state) db.saga_instances
  pub active_bound : d.active_sagas ≤ 100
  pub active :
      d.active_sagas + d.metrics.saga_completed_total + d.metrics.saga_compensated_total
        + d.metrics.saga_failed_total
      ≤ length db.saga_instances
  pub active_all :
      length db.saga_instances ≤ 100
      → d.active_sagas + d.metrics.saga_completed_total + d.metrics.saga_compensated_total
          + d.metrics.saga_failed_total
        ≡ length db.saga_instances

module _ (average : List String → Json) (requests : Requests) (consumers : List Consumer) where
  abbrev dashboard_of : World → Dashboard
  dashboard_of w = record {
    metrics = metrics_of average w.db;
    http_requests_total = requests.total;
    p50_ms = percentile 50 requests.durations;
    p95_ms = percentile 95 requests.durations;
    p99_ms = percentile 99 requests.durations;
    samples = length requests.durations;
    active_sagas = count_where is_active (list_sagas 100 w.db.saga_instances);
    unresolved_dlq_count = length (list_dlq_messages 100 unresolved w.db.dlq_messages);
    consumers = consumers;
    timestamp = w.env.iso w.clock;
  }

  dashboard_of-IsCounted : (w : World) → IsCounted w.db (dashboard_of w)
  unfolding metrics_of
  dashboard_of-IsCounted w =
      let (most, less, full) = list_sagas_bounds is_active 100 w.db.saga_instances in
      record {
        orders = refl;
        stored_events = refl;
        waiting = refl;
        unresolved_total = refl;
        started = refl;
        completed = refl;
        compensated = refl;
        failed = refl;
        dead_letters = length-list_dlq_messages 100 unresolved w.db.dlq_messages;
        active_bound = most;
        active = omega (arith, active-partition w.db.saga_instances);
        active_all = λ h. let same = full h in omega (arith, active-partition w.db.saga_instances);
      }

  -- What GET /metrics answers.
  abbrev pub IsShown : Db → Response (Answer Dashboard) → Type 0
  IsShown db res =
      (res ≡ fails_with 500 "Failed to fetch metrics")
      ⊎ ((d : Dashboard) × (res ≡ answers d) × IsCounted db d)

  abbrev Shown : World → Result (Response (Answer Dashboard)) → Condition
  Shown v (ok res) w = (w ≡ v) × IsShown v.db res
  Shown v (err x) w = ⊥

  get_dashboard-Shown :
      (v : World) → Upholds (λ w. w ≡ v) (get_dashboard average requests consumers) (Shown v)
  unfolding get_dashboard get_metrics
  get_dashboard-Shown v =
      Upholds-try_catch _ _ (Told (λ w. answers (dashboard_of w)) v)
        (asked_Upholds _ _ (λ w. metrics_of average w.db) v (query-Told _ v)
          (asked_Upholds _ _ (λ w. list_sagas 100 w.db.saga_instances) v (query-Told _ v)
            (asked_Upholds _ _ (λ w. list_dlq_messages 100 unresolved w.db.dlq_messages) v
              (query-Told _ v)
              (asked_Upholds _ _ (λ w. w.env.iso w.clock) v
                (Upholds-gets _ (λ w p. (p, ap (λ (w : World). w.env.iso w.clock) p)))
                (Upholds-pure _ (λ w p. (p, refl))) (λ x. refl))
              (λ x. refl))
            (λ x. refl))
          (λ x. refl))
        (λ res w p. (p.0, inr (dashboard_of v, p.1, dashboard_of-IsCounted v)))
        (λ x. Upholds-pure _ (λ w p. (p, inl refl)))

  -- GET /metrics always answers, whatever calls fail, and changes nothing. The answer is 500, or it shows
  -- the numbers of orders, of stored events, of rows that wait in the outbox, of unresolved dead
  -- letters, and of sagas: all, completed, cancelled and failed ones. Its unresolved_dlq_count is the
  -- number of unresolved dead letters, but never more than 100; its active_sagas is at most 100,
  -- and together with the completed, cancelled and failed sagas at most the number of sagas, which
  -- it reaches when there are at most 100.
  pub metrics_are_bounded :
      (w : World)
      → (res : Response (Answer Dashboard)) × ((get_dashboard average requests consumers w).0
          ≡ ok res)
        × (calm (get_dashboard average requests consumers w).1 ≡ calm w)
        × IsShown w.db res
  metrics_are_bounded w = shown _ _ ((get_dashboard-Shown (calm w)).at w refl)
    where
      shown :
          (r : Result (Response (Answer Dashboard))) (v : World)
          → Shown (calm w) r v
          → (res : Response (Answer Dashboard)) × (r ≡ ok res) × (v ≡ calm w) × IsShown w.db res
      shown (ok res) v p = (res, refl, p.0, p.1)
      shown (err x) v p = absurd p

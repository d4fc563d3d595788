-- ===== src/Replay/Synced.antt =====
-- src/application/projections/projection-consumer.ts, processEvent, and src/replay/event-replay-service.ts: the
-- live projection keeps each order's row in step with its log, so that a replay changes nothing.
use event_driven_kafka.Base.{
  ℕ, false, List, Option, none, some, ◌≡◌, refl, sym, ap, ◌∙◌, subst, inl, inr, arith,
}
use event_driven_kafka.Contracts.{EventEnvelope, text_or}
use event_driven_kafka.Database.{Db}
use event_driven_kafka.Database.EventStore.{
  EventRow, has_event, append_to_event_store, record_event,
}
use event_driven_kafka.World.{World}
use event_driven_kafka.Exec.{Result, ok, err, ◌>>◌}
use event_driven_kafka.Exec.Worlds.{
  calm, Condition, Upholds, Upholds-pure, Upholds-query, Upholds-bind, Upholds-try_catch,
  Upholds-transaction,
}
use event_driven_kafka.Exec.Changes.{with_db, Ran, attempt-Ran, statement-Ran}
use event_driven_kafka.Projection.{
  is_applied, store_event, set_events, project_event, apply_historical_event,
}
use event_driven_kafka.Projection.Notifications.{emit_live_notifications}
use event_driven_kafka.Projection.Effects.{Done, Applied, apply-Applied}
use event_driven_kafka.Replay.Live.{InSync, IsPlain, still_InSync}

-- What a chain of writes leaves where it returns; nothing is asked of a failure.
abbrev OnSuccess : Condition → Result (Unit {0}) → Condition
OnSuccess Q (ok u) w = Q w
OnSuccess Q (err x) w = Unit

module _ (e : EventEnvelope) (v : World) where
  -- The event is in the store, and the rest is as it was.
  abbrev IsStored : Condition
  IsStored w =
      (after : List EventRow) × (append_to_event_store v.env.fits_columns e v.db.event_store
        ≡ some after)
      × (w ≡ with_db v (record v.db { event_store = after }))

  inverted :
      (o : Option (List EventRow)) (db : Db)
      → set_events v.db o ≡ some db
      → (after : List EventRow) × (o ≡ some after) × (db ≡ record v.db { event_store = after })
  inverted none db q = absurd (ground (arith, q))
  inverted (some after) db q = (after, refl, same (record v.db { event_store = after }) db q)
    where
      same : (c d : Db) → some c ≡ some d → d ≡ c
      same c d q = cc

  store_event-IsStored : Upholds (λ w. w ≡ v) (store_event e) (OnSuccess IsStored)
  unfolding store_event
  store_event-IsStored =
      Upholds-transaction _ (λ u. OnSuccess IsStored)
        (λ u p.
          Upholds-bind _ _ (λ r w. w ≡ v)
            (Upholds-try_catch _ _ (λ r w. w ≡ v) (Upholds-query _ (λ w q. q ∙ p) (λ x w q. q ∙ p))
              (λ a w q. q) (λ x. Upholds-pure tt (λ w q. q)))
            (λ a. record {
              at = λ w q. appended _ _ (
                  (attempt-Ran
                      (λ env now db.
                        set_events db (append_to_event_store env.fits_columns e db.event_store))
                      v).at
                    w q);
            })
            (λ x w q. tt))
        (λ u a w p q. q) (λ u x a w p q. tt) (λ x w p. tt) (λ u x r w p q. tt)
    where
      appended :
          (r : Result (Unit {0})) (w : World)
          → Ran
              (λ db. set_events db (append_to_event_store v.env.fits_columns e db.event_store))
              v
              r
              w
          → OnSuccess IsStored r w
      appended (ok u) w q =
          let (after, same, changed) =
            inverted (append_to_event_store v.env.fits_columns e v.db.event_store) q.0 q.1 in
          (after, same, q.2 ∙ ap (with_db v) changed)
      appended (err x) w q = tt

  -- The rest of processEvent, from a world where the event is stored.
  abbrev Synced : Condition
  Synced w = InSync v.env w.db

  project-Synced :
      InSync v.env v.db
      → IsPlain v.env.stored_time e
      → has_event e.event_id v.db.event_store ≡ false
      → is_applied e v.db ≡ false
      → Upholds (λ w. w ≡ v) (project_event e) (OnSuccess Synced)
  unfolding project_event emit_live_notifications
  project-Synced s p fresh unmarked =
      Upholds-bind _ _ (OnSuccess IsStored) store_event-IsStored
        (λ t. record {
          at = λ w q.
              (Upholds-bind {Q = OnSuccess Synced} _ _
                  (Ran (λ db. some (recorded v.clock db)) (holding q.0))
                  (statement-Ran recorded (holding q.0))
                  (λ t. record { at = λ w' k. (applies q.0 q.1 k.0 k.1).at w' k.2 })
                  (λ x w k. tt)).at
                w q.2;
        })
        (λ x w q. tt)
    where
      holding : List EventRow → World
      holding after = with_db v (record v.db { event_store = after })

      recorded : ℕ → Db → Db
      recorded now db = record db {
        order_events =
            record_event e.aggregate_id e.event_type (text_or (some e.producer) "system") now
              db.order_events;
      }

      applies :
          (after : List EventRow)
          → append_to_event_store v.env.fits_columns e v.db.event_store ≡ some after
          → (d : Db) → some (recorded v.clock (holding after).db) ≡ some d
          → Upholds
              (λ w. w ≡ with_db (holding after) d)
              (apply_historical_event e >> emit_live_notifications e)
              (OnSuccess Synced)
      applies after q d k =
          Upholds-bind _ _ (Applied e u) (apply-Applied e u) (λ t. record { at = λ w r. shown w r })
            (λ x w r. tt)
        where
          u : World
          u = with_db (holding after) d

          same : recorded v.clock (holding after).db ≡ d
          same = some_inj (recorded v.clock (holding after).db) d k
            where
              some_inj : (c d : Db) → some c ≡ some d → c ≡ d
              some_inj c d q = cc

          shown : (w : World) → Done e u (calm w) → Synced (emit_live_notifications e w).1
          shown w (inl r) = absurd (ground (arith, r.0, unmarked, ap (is_applied e) same))
          shown w (inr r) =
              subst (λ (w : World). InSync v.env w.db) (sym r.3)
                (still_InSync v.env v.clock e v.db d r.0 after s p fresh q
                  (sym (ap (λ (d : Db). d.order_read_model) same))
                  (sym (ap (λ (d : Db). d.event_store) same)) r.2)

-- A consumer that projects an event, new to the store and unmarked, and returns without an error keeps
-- every order's row in order_read_model what the order's log makes of no row, whatever calls
-- failed inside. The event has no number of its own, and storing keeps its time and its payload.
pub project_event-InSync :
    (e : EventEnvelope) (w : World)
    → InSync w.env w.db
    → IsPlain w.env.stored_time e
    → has_event e.event_id w.db.event_store ≡ false
    → is_applied e w.db ≡ false
    → (project_event e w).0 ≡ ok tt
    → InSync w.env (project_event e w).1.db
project_event-InSync e w s p fresh unmarked done =
    subst (λ r. OnSuccess (Synced e (calm w)) r (calm (project_event e w).1)) done
      ((project-Synced e (calm w) s p fresh unmarked).at w refl)

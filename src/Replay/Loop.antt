-- ===== src/Replay/Loop.antt =====
-- src/replay/event-replay-service.ts, the loop of replayAggregate: a log applied to an order's row.
use event_driven_kafka.Base.{
  ℕ, String, false, List, [], ◌∷◌, map, Option, some, ◌≡◌, ◌≢◌, refl, ap, ◌∙◌, inl, inr, arith,
  eq_refl, All,
}
use event_driven_kafka.Base.Distinct.{Distinct}
use event_driven_kafka.Contracts.{EventEnvelope}
use event_driven_kafka.Database.{Db}
use event_driven_kafka.Database.ReadModels.{OrderView, find_order}
use event_driven_kafka.World.{World, Env, Error}
use event_driven_kafka.Exec.{Result, ok, err}
use event_driven_kafka.Exec.Worlds.{calm, Condition, Upholds, Upholds-pure, Upholds-bind}
use event_driven_kafka.Exec.Changes.{with_db}
use event_driven_kafka.Projection.{is_applied}
use event_driven_kafka.Projection.Effects.{projected, Done, Applied, apply-Applied}
use event_driven_kafka.Projection.Views.{view_step, projected_view}
use event_driven_kafka.Projection.Marks.{projected-other_mark}
use event_driven_kafka.Replay.{apply_events}

-- What a log makes of an order's row in order_read_model.
unfoldable pub view_after : Env → List EventEnvelope → Option OrderView → Option OrderView
view_after env [] o = o
view_after env (e ∷ es) o = view_after env es (view_step e.event_type env e o)

-- The events are of the order `a`, each with its own id, and none is marked.
abbrev pub Fresh : String → Db → List EventEnvelope → Type 0
Fresh a db es =
    Distinct (map (λ (e : EventEnvelope). e.event_id) es)
    × All (λ (e : EventEnvelope). (e.aggregate_id ≡ a) × (is_applied e db ≡ false)) es

abbrev pub Rebuilt : String → List EventEnvelope → World → Result (Unit {0}) → Condition
Rebuilt a es v (ok u) w =
    (db : Db) × (find_order a db.order_read_model
      ≡ view_after v.env es (find_order a v.db.order_read_model))
    × (w ≡ with_db v db)
Rebuilt a es v (err x) w = (db : Db) × (w ≡ with_db v db)

-- The rest of the events is still unmarked.
pub still_Fresh :
    (a : String) (env : Env) (now : ℕ) (e : EventEnvelope) (es : List EventEnvelope) (db d : Db)
    → Fresh a db (e ∷ es)
    → projected e env now db ≡ some d
    → Fresh a d es
still_Fresh a env now e es db d (ds, fs) p = (ds.1, go es ds.0 fs.1)
  where
    go :
        (es : List EventEnvelope)
        → All (λ i. i ≢ e.event_id) (map (λ (e : EventEnvelope). e.event_id) es)
        → All (λ (e : EventEnvelope). (e.aggregate_id ≡ a) × (is_applied e db ≡ false)) es
        → All (λ (e : EventEnvelope). (e.aggregate_id ≡ a) × (is_applied e d ≡ false)) es
    go [] n h = tt
    go (f ∷ es) n h = ((h.0.0, projected-other_mark env now e f db d n.0 p ∙ h.0.1), go es n.1 h.1)

pub apply_events-Rebuilt :
    (a : String) (es : List EventEnvelope) (v : World)
    → Fresh a v.db es
    → Upholds (λ w. w ≡ v) (apply_events es) (Rebuilt a es v)
unfolding apply_events view_after
apply_events-Rebuilt a [] v h = Upholds-pure tt (λ w p. (v.db, refl, p))
apply_events-Rebuilt a (e ∷ es) v h =
    Upholds-bind _ _ (Applied e v) (apply-Applied e v)
      (λ u. record { at = λ w p. rest (λ db k. apply_events-Rebuilt a es (with_db v db) k) w p })
      stopped
  where
    old_row : Option OrderView
    old_row = find_order a v.db.order_read_model

    rest :
        ((db : Db)
          → Fresh a db es
          → Upholds (λ w. w ≡ with_db v db) (apply_events es) (Rebuilt a es (with_db v db)))
        → (w : World) → Done e v (calm w)
        → Rebuilt a (e ∷ es) v (apply_events es w).0 (calm (apply_events es w).1)
    rest ih w (inl p) = absurd (ground (arith, p.0, h.1.0.1))
    rest ih w (inr p) =
        let db : Db = p.0 in
        later (apply_events es w).0 (calm (apply_events es w).1)
          ((ih db (still_Fresh a v.env v.clock e es v.db db h p.2)).at w p.3)
      where
        later :
            (r : Result (Unit {0})) (w' : World)
            → Rebuilt a es (with_db v p.0) r w'
            → Rebuilt a (e ∷ es) v r w'
        later (ok u) w' q = (
          q.0,
          q.1
              ∙ ap (view_after v.env es) (
                  projected_view a v.env v.clock e v.db p.0 p.2 ∙ rw h.1.0.0 (rw (eq_refl a) refl)),
          q.2,
        )
        later (err x) w' q = q

    stopped : (x : Error) (w : World) → Applied e v (err x) w → (db : Db) × (w ≡ with_db v db)
    stopped x w (inl p) = (v.db, p)
    stopped x w (inr (inl p)) = (v.db, p.1)
    stopped x w (inr (inr p)) = (p.0, p.3)

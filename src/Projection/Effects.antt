-- ===== src/Projection/Effects.antt =====
-- src/application/projections/projection-consumer.ts, applyHistoricalEvent: its statements as one change of the
-- database, and what the method leaves when calls fail.
use event_driven_kafka.Base.{
  ℕ, String, Bool, true, false, List, [], ◌∷◌, Option, none, some, ◌≡◌, refl, sym, ap, ◌∙◌, subst,
  ◌⊎◌, inl, inr, arith, eq_refl, if◌then◌else◌,
}
use event_driven_kafka.Contracts.{EventEnvelope}
use event_driven_kafka.Database.{Db}
use event_driven_kafka.Database.ReadModels.{
  AppliedEvent, is_projection_event_applied, mark_projection_event_applied,
}
use event_driven_kafka.World.{World, Env}
use event_driven_kafka.Exec.{Result, ok, err, pure, ◌>>◌, attempt}
use event_driven_kafka.Exec.Worlds.{
  calm, Condition, Upholds, Upholds-pure, Upholds-query, Upholds-transaction, Upholds-bind,
  Upholds-fact,
}
use event_driven_kafka.Exec.Changes.{and_then, with_db, Ran, attempt-Ran, then_Ran}
use event_driven_kafka.Projection.{
  perform, run_statements, projection, mark_applied, is_applied, execute_in_tx,
  apply_historical_event,
}
use event_driven_kafka.Projection.Statements.{Step, sql, throws, effect_of, statements_of}

unfoldable pub run_all : List Step → Env → ℕ → Db → Option Db
run_all [] env now db = some db
run_all (s ∷ rest) env now db = and_then (effect_of s env now db) (run_all rest env now)

-- What an event makes of the database: its statements, and its mark.
unfoldable pub projected : EventEnvelope → Env → ℕ → Db → Option Db
projected e env now db =
    and_then (run_all (statements_of e.event_type e) env now db) (mark_applied e env now)

perform-Ran :
    (s : Step) (v : World) → Upholds (λ w. w ≡ v) (perform s) (Ran (effect_of s v.env v.clock) v)
perform-Ran (sql s) v = attempt-Ran s v
perform-Ran (throws x) v = record { at = λ w p. (v.db, p) }

run_statements-Ran :
    (ss : List Step) (v : World)
    → Upholds (λ w. w ≡ v) (run_statements ss) (Ran (run_all ss v.env v.clock) v)
unfolding run_statements run_all
run_statements-Ran [] v = Upholds-pure tt (λ w p. (v.db, refl, p))
run_statements-Ran (s ∷ rest) v =
    then_Ran (effect_of s v.env v.clock) (run_all rest v.env v.clock) (perform s)
      (run_statements rest) v (perform-Ran s v) (λ db. run_statements-Ran rest (with_db v db))

-- The event was marked before, or it is projected now.
abbrev pub Done : EventEnvelope → World → Condition
Done e v w =
    ((is_applied e v.db ≡ true) × (w ≡ v))
    ⊎ ((db : Db) × (is_applied e v.db ≡ false)
        × (projected e v.env v.clock v.db ≡ some db)
        × (w ≡ with_db v db))

abbrev InTx : EventEnvelope → World → Result (Unit {0}) → Condition
InTx e v (ok u) w = Done e v w
InTx e v (err x) w = (db : Db) × (w ≡ with_db v db)

abbrev Asked : EventEnvelope → World → Result Bool → Condition
Asked e v (ok b) w = (w ≡ v) × (is_applied e v.db ≡ b)
Asked e v (err x) w = w ≡ v

execute_in_tx-InTx :
    (e : EventEnvelope) (v : World) → Upholds (λ w. w ≡ v) (execute_in_tx e) (InTx e v)
unfolding execute_in_tx projected
execute_in_tx-InTx e v =
    Upholds-bind _ _ (Asked e v)
      (Upholds-query _ (λ w p. (p, ap (λ w. is_applied e w.db) (sym p))) (λ x w p. p))
      (λ b. Upholds-fact (is_applied e v.db ≡ b) _ (λ a. decided b a)) (λ x w p. (v.db, p))
  where
    fresh :
        is_applied e v.db ≡ false
        → (r : Result (Unit {0})) (w : World)
        → Ran
            (λ db.
              and_then
                (run_all (statements_of e.event_type e) v.env v.clock db)
                (mark_applied e v.env v.clock))
            v
            r
            w
        → InTx e v r w
    fresh a (ok u) w p = inr (p.0, a, p.1, p.2)
    fresh a (err x) w p = p

    decided :
        (b : Bool)
        → is_applied e v.db ≡ b
        → Upholds
            (λ w. w ≡ v)
            (if b
              then pure tt
              else (run_statements (statements_of e.event_type e) >> attempt (mark_applied e)))
            (InTx e v)
    decided true a = Upholds-pure tt (λ w p. inl (a, p))
    decided false a = record {
      at = λ w p. fresh a _ _ (
          (then_Ran (run_all (statements_of e.event_type e) v.env v.clock)
              (mark_applied e v.env v.clock) _ _ v
              (run_statements-Ran (statements_of e.event_type e) v)
              (λ db. attempt-Ran (mark_applied e) (with_db v db))).at
            w p);
    }

-- The world after an attempt to apply an event, by its result.
abbrev pub Applied : EventEnvelope → World → Result (Unit {0}) → Condition
Applied e v (ok u) w = Done e v w
Applied e v (err x) w = (w ≡ v) ⊎ Done e v w

pub apply-Applied :
    (e : EventEnvelope) (v : World) → Upholds (λ w. w ≡ v) (apply_historical_event e) (Applied e v)
unfolding apply_historical_event
apply-Applied e v =
    Upholds-transaction _ (InTx e) (λ u p. execute_in_tx-InTx e u)
      (λ u a w p q. subst (λ u. Done e u w) p q) (λ u x a w p q. inr (subst (λ u. Done e u w) p q))
      (λ x w p. inl p) (λ u x r w p q. inl (undone u r w q ∙ p))
  where
    undone :
        (u : World) (r : Result (Unit {0})) (w : World) → InTx e u r w → record w { db = u.db } ≡ u
    undone u (ok a) w (inl q) = ap (λ w. with_db w u.db) q.1
    undone u (ok a) w (inr q) = ap (λ w. with_db w u.db) q.3
    undone u (err x) w q = ap (λ w. with_db w u.db) q.1

-- Whatever calls fail, applyHistoricalEvent sends nothing to Kafka and to no client, and either it
-- leaves the database as it was, or all of the event's statements and its mark took effect, which
-- happens only when the event was not marked before. When it returns without an error, the
-- event was marked before or is projected now.
pub apply_atomic :
    (e : EventEnvelope) (w : World)
    → Applied e (calm w) (apply_historical_event e w).0 (calm (apply_historical_event e w).1)
apply_atomic e w = (apply-Applied e (calm w)).at w refl

mark-is_applied :
    (id a : String) (now : ℕ) (rows : List AppliedEvent)
    → is_projection_event_applied projection id
        (mark_projection_event_applied projection id a now rows)
      ≡ true
unfolding is_projection_event_applied mark_projection_event_applied
mark-is_applied id a now [] = rw (eq_refl id) refl
mark-is_applied id a now (r ∷ rows) =
    ground (arith, mark-is_applied id a now rows, eq_refl id, eq_refl projection)

pub projected-is_applied :
    (e : EventEnvelope) (env : Env) (now : ℕ) (db d : Db)
    → projected e env now db ≡ some d
    → is_applied e d ≡ true
unfolding projected
projected-is_applied e env now db d p = go (run_all (statements_of e.event_type e) env now db) p
  where
    marked : Option Db → Type 0
    marked none = Unit
    marked (some d) = is_applied e d ≡ true

    go : (o : Option Db) → and_then o (mark_applied e env now) ≡ some d → is_applied e d ≡ true
    go none q = cc
    go (some d') q =
        subst (λ (o : Option Db). marked o) q
          (mark-is_applied e.event_id e.aggregate_id now d'.projection_applied_events)

-- An event that applyHistoricalEvent has applied without an error is not applied a second time: the
-- second call leaves everything as it is, whatever calls fail.
pub apply_once :
    (e : EventEnvelope) (w : World)
    → (apply_historical_event e w).0 ≡ ok tt
    → let first = (apply_historical_event e w).1 in
      calm (apply_historical_event e first).1 ≡ calm first
apply_once e w done =
    let first : World = (apply_historical_event e w).1 in
    again first
      (marked (calm first) (subst (λ r. Applied e (calm w) r (calm first)) done (apply_atomic e w)))
      (apply_historical_event e first).0 (calm (apply_historical_event e first).1)
      (apply_atomic e first)
  where
    marked : (w' : World) → Applied e (calm w) (ok tt) w' → is_applied e w'.db ≡ true
    marked w' (inl p) = ap (λ w. is_applied e w.db) p.1 ∙ p.0
    marked w' (inr p) =
        ap (λ w. is_applied e w.db) p.3 ∙ projected-is_applied e w.env w.clock w.db p.0 p.2

    kept :
        (first : World)
        → is_applied e first.db ≡ true
        → (w' : World) → Done e (calm first) w'
        → w' ≡ calm first
    kept first m w' (inl p) = p.1
    kept first m w' (inr p) = cc

    again :
        (first : World)
        → is_applied e first.db ≡ true
        → (r : Result (Unit {0})) (w' : World) → Applied e (calm first) r w'
        → w' ≡ calm first
    again first m (ok u) w' p = kept first m w' p
    again first m (err x) w' (inl p) = p
    again first m (err x) w' (inr p) = kept first m w' p

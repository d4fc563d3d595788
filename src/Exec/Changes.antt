-- ===== src/Exec/Changes.antt =====
-- Methods that change the database and nothing else: what a chain of statements does of it, as far as
-- none fails.
use event_driven_kafka.Base.{ℕ, Option, none, some, ◌≡◌, refl, sym, ap, subst}
use event_driven_kafka.Database.{Db}
use event_driven_kafka.World.{World, Error}
use event_driven_kafka.Exec.{Result, ok, err, Exec, ◌>>=◌, ◌>>◌, query, statement, Sql, attempt}
use event_driven_kafka.Exec.Worlds.{
  calm, Condition, Upholds, Upholds-query, Upholds-statement, Upholds-attempt, Upholds-bind,
}

-- The statements one after another, as far as none violates a constraint.
abbrev pub and_then : Option Db → (Db → Option Db) → Option Db
and_then none f = none
and_then (some db) f = f db

abbrev pub with_db : World → Db → World
with_db v db = record v { db = db }

abbrev pub Ran : (Db → Option Db) → World → Result (Unit {0}) → Condition
Ran f v (ok u) w = (db : Db) × (f v.db ≡ some db) × (w ≡ with_db v db)
Ran f v (err x) w = (db : Db) × (w ≡ with_db v db)

pub attempt-Ran : (s : Sql) (v : World) → Upholds (λ w. w ≡ v) (attempt s) (Ran (s v.env v.clock) v)
attempt-Ran s v =
    Upholds-attempt s
      (λ w db p q. (db, subst (λ w. s w.env w.clock w.db ≡ some db) p q, ap (λ w. with_db w db) p))
      (λ x w p. (v.db, p)) (λ x w db p q. (db, ap (λ w. with_db w db) p))

-- A statement that no constraint stops.
pub statement-Ran :
    (f : ℕ → Db → Db) (v : World)
    → Upholds (λ w. w ≡ v) (statement λ now db. (tt, f now db)) (Ran (λ db. some (f v.clock db)) v)
statement-Ran f v =
    Upholds-statement _ (λ w p. (f v.clock v.db, refl, changed w p)) (λ x w p. (v.db, p))
      (λ x w p. (f v.clock v.db, changed w p))
  where
    changed : (w : World) → w ≡ v → with_db w (f w.clock w.db) ≡ with_db v (f v.clock v.db)
    changed w p = ap (λ (w : World). with_db w (f w.clock w.db)) p

pub then_Ran :
    (f g : Db → Option Db) (m n : Exec (Unit {0})) (v : World)
    → Upholds (λ w. w ≡ v) m (Ran f v)
    → ((db : Db) → Upholds (λ w. w ≡ with_db v db) n (Ran g (with_db v db)))
    → Upholds (λ w. w ≡ v) (m >> n) (Ran (λ db. and_then (f db) g) v)
then_Ran f g m n v hm hn =
    Upholds-bind m _ (Ran f v) hm
      (λ u. record { at = λ w p. later w (n w).0 (calm (n w).1) p ((hn p.0).at w p.2) })
      (λ x w p. p)
  where
    later :
        (w : World) (r : Result (Unit {0})) (w' : World) (p : Ran f v (ok tt) (calm w))
        → Ran g (with_db v p.0) r w'
        → Ran (λ db. and_then (f db) g) v r w'
    later w (ok u) w' p q = (q.0, rw p.1 q.1, q.2)
    later w (err x) w' p q = q

module _ {A : Type 0} where
  abbrev pub Told : (World → A) → World → Result A → Condition
  Told f v (ok a) w = (w ≡ v) × (a ≡ f v)
  Told f v (err x) w = w ≡ v

  pub query-Told : (f : Db → A) (v : World) → Upholds (λ w. w ≡ v) (query f) (Told (λ v. f v.db) v)
  query-Told f v = Upholds-query f (λ w p. (p, ap (λ (w : World). f w.db) p)) (λ x w p. p)

  -- A method that asks, and goes on with the answer.
  pub asked_Upholds {ℓ} :
      {B : Type ℓ} {Q : Result B → Condition} (m : Exec A) (k : A → Exec B) (f : World → A)
      (v : World)
      → Upholds (λ w. w ≡ v) m (Told f v)
      → Upholds (λ w. w ≡ v) (k (f v)) Q
      → ((x : Error) → Q (err x) v)
      → Upholds (λ w. w ≡ v) (m >>= k) Q
  asked_Upholds {Q = Q} m k f v hm hk bad =
      Upholds-bind m k (Told f v) hm
        (λ a. record {
          at = λ w p. subst (λ a. Q (k a w).0 (calm (k a w).1)) (sym p.1) (hk.at w p.0);
        })
        (λ x w p. subst (Q (err x)) (sym p) (bad x))

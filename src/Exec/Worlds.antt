-- ===== src/Exec/Worlds.antt =====
-- Conditions on the whole world, but for what becomes of the next calls: the world as it is with no
-- outcomes left. One rule for each way to build a method.
use event_driven_kafka.Base.{
  ℕ, List, [], ◌∷◌, ◌++◌, Option, none, some, ◌≡◌, refl, Bool, true, false, if◌then◌else◌,
}
use event_driven_kafka.Database.{Db}
use event_driven_kafka.World.{World, Error, Message, Outcome, done, refused, unacknowledged}
use event_driven_kafka.Exec.{
  Result, ok, err, Exec, pure, throw, gets, statement, continue, ◌>>=◌, settle, call, query, Sql,
  settle_statement, attempt, finish, connected, with_transaction, send, handled, try_catch,
}

abbrev pub calm : World → World
calm w = record w { outcomes = [] }

abbrev pub facing : List Outcome → World → World
facing os w = record w { outcomes = os }

abbrev pub Condition : Type 1
Condition = World → Type 0

pub record Upholds {ℓ} {A : Type ℓ} (P : Condition) (m : Exec A) (Q : Result A → Condition)
    : Type 0 where
  pub at : (w : World) → P (calm w) → Q (m w).0 (calm (m w).1)

module _ {ℓ} {A : Type ℓ} {P : Condition} {Q : Result A → Condition} where
  pub Upholds-pure : (a : A) → ((w : World) → P w → Q (ok a) w) → Upholds P (pure a) Q
  Upholds-pure a h = record { at = λ w p. h (calm w) p }

  -- A call whose effect does not look at the outcomes.
  pub Upholds-call :
      (m : Exec A)
      → ((os : List Outcome) (w : World)
          → P (calm w)
          → Q (m (facing os w)).0 (calm (m (facing os w)).1)
            × ((e : Error) → Q (err e) (calm (m (facing os w)).1)))
      → ((e : Error) (w : World) → P w → Q (err e) w)
      → Upholds P (call m) Q
  unfolding call
  Upholds-call m good bad = record { at = λ w p. go w.outcomes w p }
    where
      go :
          (os : List Outcome) (w : World)
          → P (calm w)
          → let r = settle m os (facing os w) in Q r.0 (calm r.1)
      go [] w p = (good [] w p).0
      go (done ∷ os) w p = (good os w p).0
      go (refused e ∷ os) w p = bad e (calm w) p
      go (unacknowledged e ∷ os) w p = (good os w p).1 e

  pub Upholds-query :
      (f : Db → A)
      → ((w : World) → P w → Q (ok (f w.db)) w)
      → ((e : Error) (w : World) → P w → Q (err e) w)
      → Upholds P (query f) Q
  unfolding query
  Upholds-query f good bad = Upholds-call _ (λ os w p. (good (calm w) p, λ e. bad e (calm w) p)) bad

  pub Upholds-gets :
      (f : World → A) → ((w : World) → P (calm w) → Q (ok (f w)) (calm w)) → Upholds P (gets f) Q
  Upholds-gets f h = record { at = h }

  pub Upholds-throw : (e : Error) → ((w : World) → P w → Q (err e) w) → Upholds P (throw e) Q
  Upholds-throw e h = record { at = λ w p. h (calm w) p }

  pub Upholds-statement :
      (f : ℕ → Db → A × Db)
      → ((w : World) → P w → Q (ok (f w.clock w.db).0) (record w { db = (f w.clock w.db).1 }))
      → ((e : Error) (w : World) → P w → Q (err e) w)
      → ((e : Error) (w : World) → P w → Q (err e) (record w { db = (f w.clock w.db).1 }))
      → Upholds P (statement f) Q
  unfolding statement
  Upholds-statement f good bad late =
      Upholds-call _ (λ os w p. (good (calm w) p, λ e. late e (calm w) p)) bad

  pub Upholds-if :
      (b : Bool) (m n : Exec A)
      → (b ≡ true → Upholds P m Q)
      → (b ≡ false → Upholds P n Q)
      → Upholds P (if b then m else n) Q
  Upholds-if true m n km kn = km refl
  Upholds-if false m n km kn = kn refl

  pub Upholds-fact : (F : Type 0) (m : Exec A) → (F → Upholds P m Q) → Upholds (λ w. P w × F) m Q
  Upholds-fact F m h = record { at = λ w p. (h p.1).at w p.0 }

  pub Upholds-try_catch :
      (m : Exec A) (h : Error → Exec A) (M : Result A → Condition)
      → Upholds P m M
      → ((a : A) (w : World) → M (ok a) w → Q (ok a) w)
      → ((e : Error) → Upholds (M (err e)) (h e) Q)
      → Upholds P (try_catch m h) Q
  unfolding try_catch
  Upholds-try_catch m h M hm good caught = record { at = λ w p. go (m w).0 (m w).1 (hm.at w p) }
    where
      go : (r : Result A) (w : World) → M r (calm w) → let s = handled h (r, w) in Q s.0 (calm s.1)
      go (ok a) w k = good a (calm w) k
      go (err e) w k = (caught e).at w k

  -- A transaction ends in its callback's state, or with the database as it was before and an error.
  pub Upholds-transaction :
      (m : Exec A) (M : World → Result A → Condition)
      → ((v : World) → P v → Upholds (λ w. w ≡ v) m (M v))
      → ((v : World) (a : A) (w : World) → P v → M v (ok a) w → Q (ok a) w)
      → ((v : World) (e : Error) (a : A) (w : World) → P v → M v (ok a) w → Q (err e) w)
      → ((e : Error) (w : World) → P w → Q (err e) w)
      → ((v : World) (e : Error) (r : Result A) (w : World)
          → P v
          → M v r w
          → Q (err e) (record w { db = v.db }))
      → Upholds P (with_transaction m) Q
  unfolding with_transaction
  Upholds-transaction m M hm good late bad back = record { at = λ w p. connect w.outcomes w p }
    where
      commit :
          (v : World)
          → P v
          → (r : Result A) (w : World) → M v r (calm w)
          → let s = finish v.db (r, w) in Q s.0 (calm s.1)
      commit v p (err e) w h = back v e (err e) (calm w) p h
      commit v p (ok a) w h = settled w.outcomes
        where
          settled :
              (os : List Outcome) → let s = finish v.db (ok a, facing os w) in Q s.0 (calm s.1)
          settled [] = good v a (calm w) p h
          settled (done ∷ os) = good v a (calm w) p h
          settled (refused e ∷ os) = back v e (ok a) (calm w) p h
          settled (unacknowledged e ∷ os) = late v e a (calm w) p h

      body :
          (os : List Outcome) (w : World)
          → P (calm w)
          → let s = finish w.db (m (facing os w)) in Q s.0 (calm s.1)
      body os w p =
          commit (calm w) p (m (facing os w)).0 (m (facing os w)).1
            ((hm (calm w) p).at (facing os w) refl)

      begin :
          (os : List Outcome) (w : World)
          → P (calm w)
          → let s = connected m (ok tt) (facing os w) in Q s.0 (calm s.1)
      begin [] w p = body [] w p
      begin (done ∷ os) w p = body os w p
      begin (refused e ∷ os) w p = bad e (calm w) p
      begin (unacknowledged e ∷ os) w p = bad e (calm w) p

      connect :
          (os : List Outcome) (w : World)
          → P (calm w)
          → let s = with_transaction m (facing os w) in Q s.0 (calm s.1)
      connect [] w p = begin [] w p
      connect (done ∷ os) w p = begin os w p
      connect (refused e ∷ os) w p = bad e (calm w) p
      connect (unacknowledged e ∷ os) w p = bad e (calm w) p

module _ {P : Condition} {Q : Result (Unit {0}) → Condition} where
  pub Upholds-attempt :
      (s : Sql)
      → ((w : World) (db : Db)
          → P w
          → s w.env w.clock w.db ≡ some db
          → Q (ok tt) (record w { db = db }))
      → ((e : Error) (w : World) → P w → Q (err e) w)
      → ((e : Error) (w : World) (db : Db)
          → P w
          → s w.env w.clock w.db ≡ some db
          → Q (err e) (record w { db = db }))
      → Upholds P (attempt s) Q
  unfolding attempt
  Upholds-attempt s good bad late =
      Upholds-call _ (λ os w p. go os w (s w.env w.clock w.db) refl p) bad
    where
      go :
          (os : List Outcome) (w : World) (o : Option Db)
          → s w.env w.clock w.db ≡ o
          → P (calm w)
          → Q (settle_statement o (facing os w)).0 (calm (settle_statement o (facing os w)).1)
            × ((e : Error) → Q (err e) (calm (settle_statement o (facing os w)).1))
      go os w none q p = (bad w.env.sql_error (calm w) p, λ e. bad e (calm w) p)
      go os w (some db) q p = (good (calm w) db p q, λ e. late e (calm w) db p q)

  pub Upholds-send :
      (msg : Message)
      → ((w : World) → P w → Q (ok tt) (record w { kafka = w.kafka ++ msg ∷ [] }))
      → ((e : Error) (w : World) → P w → Q (err e) w)
      → ((e : Error) (w : World) → P w → Q (err e) (record w { kafka = w.kafka ++ msg ∷ [] }))
      → Upholds P (send msg) Q
  unfolding send
  Upholds-send msg good bad late =
      Upholds-call _ (λ os w p. (good (calm w) p, λ e. late e (calm w) p)) bad

module _ {ℓ κ} {A : Type ℓ} {B : Type κ} {P : Condition} {Q : Result B → Condition} where
  pub Upholds-bind :
      (m : Exec A) (f : A → Exec B) (M : Result A → Condition)
      → Upholds P m M
      → ((a : A) → Upholds (M (ok a)) (f a) Q)
      → ((e : Error) (w : World) → M (err e) w → Q (err e) w)
      → Upholds P (m >>= f) Q
  unfolding ◌>>=◌
  Upholds-bind m f M hm hf he = record { at = λ w p. go (m w).0 (m w).1 (hm.at w p) }
    where
      go : (r : Result A) (w : World) → M r (calm w) → let s = continue r f w in Q s.0 (calm s.1)
      go (ok a) w k = (hf a).at w k
      go (err e) w k = he e (calm w) k

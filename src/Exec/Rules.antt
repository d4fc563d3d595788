-- ===== src/Exec/Rules.antt =====
-- Conditions on the database and on the messages sent, before and after a method, one rule for each
-- way to build a method. A condition after it sees the result or the error too.
use event_driven_kafka.Base.{
  ℕ, String, List, [], ◌∷◌, ◌++◌, ◌≡◌, refl, Bool, true, false, if◌then◌else◌,
}
use event_driven_kafka.Database.{Db}
use event_driven_kafka.World.{World, Error, Message, Outcome, done, refused, unacknowledged}
use event_driven_kafka.Exec.{
  Result, ok, err, Exec, pure, throw, gets, continue, ◌>>=◌, settle, query, statement, finish,
  connected, with_transaction, send, fresh_uuid, short_id, sleep, handled, try_catch,
}

abbrev pub Cond : Type 1
Cond = Db → List Message → Type 0

pub record Ensures {ℓ} {A : Type ℓ} (P : Cond) (m : Exec A) (Q : Result A → Cond) : Type 0 where
  pub at : (w : World) → P w.db w.kafka → Q (m w).0 (m w).1.db (m w).1.kafka

module _ {ℓ} {A : Type ℓ} {P : Cond} {Q : Result A → Cond} where
  pub Ensures-pure :
      (a : A) → ((d : Db) (k : List Message) → P d k → Q (ok a) d k) → Ensures P (pure a) Q
  Ensures-pure a h = record { at = λ w p. h w.db w.kafka p }

  pub Ensures-throw :
      (e : Error) → ((d : Db) (k : List Message) → P d k → Q (err e) d k) → Ensures P (throw e) Q
  Ensures-throw e h = record { at = λ w p. h w.db w.kafka p }

  pub Ensures-gets :
      (f : World → A)
      → ((a : A) (d : Db) (k : List Message) → P d k → Q (ok a) d k)
      → Ensures P (gets f) Q
  Ensures-gets f h = record { at = λ w p. h (f w) w.db w.kafka p }

  pub Ensures-query :
      (f : Db → A)
      → ((d : Db) (k : List Message) → P d k → Q (ok (f d)) d k)
      → ((e : Error) (d : Db) (k : List Message) → P d k → Q (err e) d k)
      → Ensures P (query f) Q
  unfolding query
  Ensures-query f good bad = record { at = λ w p. go w.outcomes w p }
    where
      go :
          (os : List Outcome) (w : World)
          → P w.db w.kafka
          → let r = settle (λ w. (ok (f w.db), w)) os w in Q r.0 r.1.db r.1.kafka
      go [] w p = good w.db w.kafka p
      go (done ∷ os) w p = good w.db w.kafka p
      go (refused e ∷ os) w p = bad e w.db w.kafka p
      go (unacknowledged e ∷ os) w p = bad e w.db w.kafka p

  pub Ensures-statement :
      (f : ℕ → Db → A × Db)
      → ((now : ℕ) (d : Db) (k : List Message) → P d k → Q (ok (f now d).0) (f now d).1 k)
      → ((e : Error) (d : Db) (k : List Message) → P d k → Q (err e) d k)
      → ((e : Error) (now : ℕ) (d : Db) (k : List Message) → P d k → Q (err e) (f now d).1 k)
      → Ensures P (statement f) Q
  unfolding statement
  Ensures-statement f good bad late = record { at = λ w p. go w.outcomes w p }
    where
      go :
          (os : List Outcome) (w : World)
          → P w.db w.kafka
          → let r =
              settle (λ w. let (a, db) = f w.clock w.db in (ok a, record w { db = db })) os w in
            Q r.0 r.1.db r.1.kafka
      go [] w p = good w.clock w.db w.kafka p
      go (done ∷ os) w p = good w.clock w.db w.kafka p
      go (refused e ∷ os) w p = bad e w.db w.kafka p
      go (unacknowledged e ∷ os) w p = late e w.clock w.db w.kafka p

  -- A transaction ends in its callback's state, or in the state before it with an error.
  pub Ensures-transaction :
      (m : Exec A) (M : Result A → Cond)
      → Ensures P m M
      → ((a : A) (d : Db) (k : List Message) → M (ok a) d k → Q (ok a) d k)
      → ((e : Error) (a : A) (d : Db) (k : List Message) → M (ok a) d k → Q (err e) d k)
      → ((e : Error) (d : Db) (k : List Message) → P d k → Q (err e) d k)
      → ((e : Error) (r : Result A) (d d' : Db) (k k' : List Message)
          → P d k
          → M r d' k'
          → Q (err e) d k')
      → Ensures P (with_transaction m) Q
  unfolding with_transaction
  Ensures-transaction m M hm good late bad back = record { at = λ w p. connect w.outcomes w p }
    where
      commit :
          (d : Db) (k : List Message)
          → P d k
          → (r : Result A) (w : World) → M r w.db w.kafka
          → let s = finish d (r, w) in Q s.0 s.1.db s.1.kafka
      commit d k p (err e) w h = back e (err e) d w.db k w.kafka p h
      commit d k p (ok a) w h = settled w.outcomes
        where
          settled :
              (os : List Outcome)
              → let s = finish d (ok a, record w { outcomes = os }) in Q s.0 s.1.db s.1.kafka
          settled [] = good a w.db w.kafka h
          settled (done ∷ os) = good a w.db w.kafka h
          settled (refused e ∷ os) = back e (ok a) d w.db k w.kafka p h
          settled (unacknowledged e ∷ os) = late e a w.db w.kafka h

      begin :
          (os : List Outcome) (w : World)
          → P w.db w.kafka
          → let s = connected m (ok tt) (record w { outcomes = os }) in Q s.0 s.1.db s.1.kafka
      begin [] w p =
          let w₀ : World = record w { outcomes = [] } in
          commit w.db w.kafka p (m w₀).0 (m w₀).1 (hm.at w₀ p)
      begin (done ∷ os) w p =
          let w₀ : World = record w { outcomes = os } in
          commit w.db w.kafka p (m w₀).0 (m w₀).1 (hm.at w₀ p)
      begin (refused e ∷ os) w p = bad e w.db w.kafka p
      begin (unacknowledged e ∷ os) w p = bad e w.db w.kafka p

      connect :
          (os : List Outcome) (w : World)
          → P w.db w.kafka
          → let s = with_transaction m (record w { outcomes = os }) in Q s.0 s.1.db s.1.kafka
      connect [] w p = begin [] w p
      connect (done ∷ os) w p = begin os w p
      connect (refused e ∷ os) w p = bad e w.db w.kafka p
      connect (unacknowledged e ∷ os) w p = bad e w.db w.kafka p

  -- A fact that the condition carries may be used to establish the rest.
  pub Ensures-fact :
      (F : Type 0) (m : Exec A) → (F → Ensures P m Q) → Ensures (λ d k. P d k × F) m Q
  Ensures-fact F m h = record { at = λ w p. (h p.1).at w p.0 }

  pub Ensures-if :
      (b : Bool) (m n : Exec A)
      → (b ≡ true → Ensures P m Q)
      → (b ≡ false → Ensures P n Q)
      → Ensures P (if b then m else n) Q
  Ensures-if true m n km kn = km refl
  Ensures-if false m n km kn = kn refl

  pub Ensures-try_catch :
      (m : Exec A) (h : Error → Exec A) (M : Result A → Cond)
      → Ensures P m M
      → ((a : A) (d : Db) (k : List Message) → M (ok a) d k → Q (ok a) d k)
      → ((e : Error) → Ensures (M (err e)) (h e) Q)
      → Ensures P (try_catch m h) Q
  unfolding try_catch
  Ensures-try_catch m h M hm good caught = record { at = λ w p. go (m w).0 (m w).1 (hm.at w p) }
    where
      go :
          (r : Result A) (w : World)
          → M r w.db w.kafka
          → let s = handled h (r, w) in Q s.0 s.1.db s.1.kafka
      go (ok a) w k = good a w.db w.kafka k
      go (err e) w k = (caught e).at w k

module _ {ℓ κ} {A : Type ℓ} {B : Type κ} {P : Cond} {Q : Result B → Cond} where
  pub Ensures-bind :
      (m : Exec A) (f : A → Exec B) (M : Result A → Cond)
      → Ensures P m M
      → ((a : A) → Ensures (M (ok a)) (f a) Q)
      → ((e : Error) (d : Db) (k : List Message) → M (err e) d k → Q (err e) d k)
      → Ensures P (m >>= f) Q
  unfolding ◌>>=◌
  Ensures-bind m f M hm hf he = record { at = λ w p. go (m w).0 (m w).1 (hm.at w p) }
    where
      go :
          (r : Result A) (w : World)
          → M r w.db w.kafka
          → let s = continue r f w in Q s.0 s.1.db s.1.kafka
      go (ok a) w k = (hf a).at w k
      go (err e) w k = he e w.db w.kafka k

module _ {P : Cond} {Q : Result (Unit {0}) → Cond} where
  pub Ensures-send :
      (msg : Message)
      → ((d : Db) (k : List Message) → P d k → Q (ok tt) d (k ++ msg ∷ []))
      → ((e : Error) (d : Db) (k : List Message) → P d k → Q (err e) d k)
      → ((e : Error) (d : Db) (k : List Message) → P d k → Q (err e) d (k ++ msg ∷ []))
      → Ensures P (send msg) Q
  unfolding send
  Ensures-send msg good bad late = record { at = λ w p. go w.outcomes w p }
    where
      go :
          (os : List Outcome) (w : World)
          → P w.db w.kafka
          → let r = settle (λ w. (ok tt, record w { kafka = w.kafka ++ msg ∷ [] })) os w in
            Q r.0 r.1.db r.1.kafka
      go [] w p = good w.db w.kafka p
      go (done ∷ os) w p = good w.db w.kafka p
      go (refused e ∷ os) w p = bad e w.db w.kafka p
      go (unacknowledged e ∷ os) w p = late e w.db w.kafka p

  pub Ensures-sleep :
      (ms : ℕ) → ((d : Db) (k : List Message) → P d k → Q (ok tt) d k) → Ensures P (sleep ms) Q
  unfolding sleep
  Ensures-sleep ms h = record { at = λ w p. h w.db w.kafka p }

module _ {P : Cond} {Q : Result String → Cond} where
  pub Ensures-fresh_uuid :
      ((s : String) (d : Db) (k : List Message) → P d k → Q (ok s) d k) → Ensures P fresh_uuid Q
  unfolding fresh_uuid
  Ensures-fresh_uuid h = record { at = λ w p. h (w.env.uuid w.drawn) w.db w.kafka p }

  pub Ensures-short_id :
      (prefix : String)
      → ((s : String) (d : Db) (k : List Message) → P d k → Q (ok s) d k)
      → Ensures P (short_id prefix) Q
  unfolding short_id
  Ensures-short_id prefix h = record { at = λ w p. h _ w.db w.kafka p }

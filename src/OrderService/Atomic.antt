-- ===== src/OrderService/Atomic.antt =====
-- src/services/order-service.ts: the order and its event are stored together.
use event_driven_kafka.Base.{
  ℕ, ◌+◌, String, ◌<>◌, slice, Option, none, some, ◌≡◌, refl, ap, ◌∙◌, subst, ◌⊎◌, inl, inr,
}
use event_driven_kafka.Json.{Json, Items}
use event_driven_kafka.Database.{Db}
use event_driven_kafka.Database.Orders.{OrderRow, insert_order}
use event_driven_kafka.Database.Outbox.{insert_outbox_event}
use event_driven_kafka.World.{World, Error}
use event_driven_kafka.Exec.{Result, ok, err, Exec, ◌>>=◌, ◌>>◌, with_transaction, short_id}
use event_driven_kafka.Exec.Worlds.{
  calm, Condition, Upholds, Upholds-pure, Upholds-bind, Upholds-transaction,
}
use event_driven_kafka.Exec.Changes.{and_then, with_db, Ran, attempt-Ran, statement-Ran, then_Ran}
use event_driven_kafka.OrderService.{
  OrderOptions, NewOrder, new_order, order_created_event, row_of, set_order, store_order,
  store_event, create_order,
}

-- The ids that the next order and its event get, and the world after they were drawn.
abbrev pub next_id : String → ℕ → World → String
next_id prefix n w = prefix <> slice (w.env.uuid n) 0 8

abbrev pub order_of_next : Json → Items → World → NewOrder
order_of_next user items w = new_order (next_id "ord_" w.drawn w) user items w.clock

abbrev pub drawn_twice : World → World
drawn_twice w = record w { drawn = w.drawn + 1 + 1 }

-- The database with the row of the order and its event.
abbrev pub accepted : Json → Items → OrderOptions → World → OrderRow → Db
accepted user items options w row = record w.db {
  orders = insert_order row w.db.orders;
  outbox_events =
      insert_outbox_event (next_id "evt_" (w.drawn + 1) w)
        (order_created_event (next_id "ord_" w.drawn w) user items options) (some 1) w.clock
        w.db.outbox_events;
}

-- A chain of statements in a transaction: all of it, or nothing and an error.
abbrev pub AllOrNothing : (Db → Option Db) → World → Result (Unit {0}) → Condition
AllOrNothing f v (ok u) w = (db : Db) × (f v.db ≡ some db) × (w ≡ with_db v db)
AllOrNothing f v (err x) w = (w ≡ v) ⊎ ((db : Db) × (f v.db ≡ some db) × (w ≡ with_db v db))

transaction-AllOrNothing :
    (f : World → Db → Option Db) (m : Exec (Unit {0})) (v : World)
    → ((u : World) → Upholds (λ w. w ≡ u) m (Ran (f u) u))
    → Upholds (λ w. w ≡ v) (with_transaction m) (AllOrNothing (f v) v)
transaction-AllOrNothing f m v h =
    Upholds-transaction m (λ u. Ran (f u) u) (λ u p. h u)
      (λ u a w p q. subst (λ u. Ran (f u) u (ok tt) w) p q)
      (λ u x a w p q. inr (subst (λ u. Ran (f u) u (ok tt) w) p q)) (λ x w p. inl p)
      (λ u x r w p q. inl (back u r w p q))
  where
    back :
        (u : World) (r : Result (Unit {0})) (w : World)
        → u ≡ v
        → Ran (f u) u r w
        → record w { db = u.db } ≡ v
    back u (ok a) w p q = ap (λ w. with_db w u.db) q.2 ∙ p
    back u (err x) w p q = ap (λ w. with_db w u.db) q.1 ∙ p

-- The order and its event are stored, for a user id that the table takes.
abbrev pub IsStored : Json → Items → OrderOptions → World → Condition
IsStored user items options v w =
    (row : OrderRow) × (row_of (order_of_next user items v) (v.env.pg_text user) ≡ some row)
    × (w ≡ with_db (drawn_twice v) (accepted user items options v row))

-- What createOrder returns and leaves, in the world after its ids were drawn.
abbrev pub IsAccepted : Json → Items → OrderOptions → World → Result NewOrder → Condition
IsAccepted user items options v (ok order) w =
    (order ≡ order_of_next user items v) × IsStored user items options v w
IsAccepted user items options v (err x) w = (w ≡ drawn_twice v) ⊎ IsStored user items options v w

-- Whatever calls fail, createOrder sends nothing to Kafka, and either it changes no table, or the
-- pending order and its OrderCreated event, waiting in the outbox, are both stored. It returns the
-- order only when both are; an error after a COMMIT whose answer is lost leaves both as well.
pub create_order_atomic :
    (user : Json) (items : Items) (options : OrderOptions) (w : World)
    → IsAccepted user items options
        (calm w)
        (create_order user items options w).0
        (calm (create_order user items options w).1)
unfolding create_order short_id ◌>>=◌
create_order_atomic user items options w =
    (Upholds-bind {Q = IsAccepted user items options (calm w)} _ _ (AllOrNothing (both v) v)
        (transaction-AllOrNothing both _ v stored)
        (λ u. Upholds-pure order λ w' p. (refl, placed w' p)) failed).at
      (drawn_twice w) refl
  where
    v : World
    v = drawn_twice (calm w)

    order : NewOrder
    order = order_of_next user items (calm w)

    first : World → Db → Option Db
    first u db = set_order db (row_of order (u.env.pg_text user))

    second : ℕ → Db → Db
    second now db = record db {
      outbox_events =
          insert_outbox_event (next_id "evt_" (w.drawn + 1) w)
            (order_created_event (next_id "ord_" w.drawn w) user items options) (some 1) now
            db.outbox_events;
    }

    both : World → Db → Option Db
    both u db = and_then (first u db) (λ db. some (second u.clock db))

    stored :
        (u : World)
        → Upholds
            (λ w. w ≡ u)
            (store_order order
              >> store_event
                  (next_id "evt_" (w.drawn + 1) w)
                  (order_created_event (next_id "ord_" w.drawn w) user items options))
            (Ran (both u) u)
    stored u =
        then_Ran (first u) (λ db. some (second u.clock db)) _ _ u (attempt-Ran _ u)
          (λ d. statement-Ran second (with_db u d))

    placed :
        (w' : World)
        → (db : Db) × (both v v.db ≡ some db) × (w' ≡ with_db v db)
        → IsStored user items options (calm w) w'
    placed w' (db, p, q) = go (row_of order (v.env.pg_text user)) refl p
      where
        go :
            (o : Option OrderRow)
            → row_of order (v.env.pg_text user) ≡ o
            → and_then (set_order v.db o) (λ db. some (second v.clock db)) ≡ some db
            → IsStored user items options (calm w) w'
        go none r k = cc
        go (some row) r k = (row, r, q ∙ ap (with_db v) (same _ db k))
          where
            same : (c d : Db) → some c ≡ some d → d ≡ c
            same c d q = cc

    failed :
        (x : Error) (w' : World)
        → AllOrNothing (both v) v (err x) w'
        → IsAccepted user items options (calm w) (err x) w'
    failed x w' (inl p) = inl p
    failed x w' (inr p) = inr (placed w' p)

-- ===== src/Http/Orders.antt =====
-- src/app.ts, POST /orders: what a client is told, and what is stored then.
use event_driven_kafka.Base.{◌≡◌, refl, ◌⊎◌, inl, inr}
use event_driven_kafka.Json.{Json, prop}
use event_driven_kafka.World.{World}
use event_driven_kafka.Exec.{Result, ok, err, pure, continue, handled, ◌>>=◌, try_catch}
use event_driven_kafka.Exec.Worlds.{calm, Condition}
use event_driven_kafka.OrderService.{NewOrder, create_order}
use event_driven_kafka.OrderService.Atomic.{drawn_twice, IsStored, IsAccepted, create_order_atomic}
use event_driven_kafka.Http.{
  Response, Answer, value, failure, Check, valid, crash, malformed, check_order, items_in,
  options_in, refuse_order, answer_check, post_orders,
}

-- The order of the request, and its event, are stored.
abbrev pub OrderStored : Json → World → Condition
OrderStored body v w =
    IsStored (prop "user_id" body) (items_in (prop "items" body)) (options_in body) v w

-- What POST /orders answers, by what the request is and what is stored.
abbrev pub IsAnsweredBy : Json → Check → World → Response (Answer NewOrder) → Condition
IsAnsweredBy body (malformed message) v res w =
    (res.status ≡ 400) × (res.body ≡ failure message) × (w ≡ v)
IsAnsweredBy body crash v res w = (res.status ≡ 500) × (w ≡ v)
IsAnsweredBy body valid v res w =
    ((res.status ≡ 202) × OrderStored body v w)
    ⊎ ((res.status ≡ 500) × ((w ≡ drawn_twice v) ⊎ OrderStored body v w))

abbrev answer_created : Result NewOrder → World → Result (Response (Answer NewOrder)) × World
answer_created r w =
    handled refuse_order
      (continue r (λ order. pure (record { status = 202; body = value order })) w)

answered :
    (body : Json) (v : World) (r : Result NewOrder) (w : World)
    → IsAccepted (prop "user_id" body) (items_in (prop "items" body)) (options_in body) v r (calm w)
    → (res : Response (Answer NewOrder)) × ((answer_created r w).0 ≡ ok res)
      × IsAnsweredBy body valid v res (calm (answer_created r w).1)
answered body v (ok order) w p = (_, refl, inl (refl, p.1))
answered body v (err x) w (inl p) = (_, refl, inr (refl, inl p))
answered body v (err x) w (inr p) = (_, refl, inr (refl, inr p))

-- POST /orders always answers, whatever calls fail. A request that lacks a user id, a non-empty list of
-- items or a well-formed item is answered with 400 and its message, and nothing changes; an item
-- that is null is answered with 500, and nothing changes. Otherwise the answer is 202 and the order
-- and its event are stored, or it is 500, and then both are stored or none is.
pub post_orders_answers :
    (body : Json) (w : World)
    → (res : Response (Answer NewOrder)) × ((post_orders body w).0 ≡ ok res)
      × IsAnsweredBy body (check_order body) (calm w) res (calm (post_orders body w).1)
unfolding post_orders ◌>>=◌ try_catch
post_orders_answers body w = by_check (check_order body)
  where
    by_check :
        (c : Check)
        → (res : Response (Answer NewOrder)) × ((answer_check c body w).0 ≡ ok res)
          × IsAnsweredBy body c (calm w) res (calm (answer_check c body w).1)
    by_check (malformed message) = (_, refl, (refl, refl, refl))
    by_check crash = (_, refl, (refl, refl))
    by_check valid = answered body (calm w) (created.0) (created.1) (
        create_order_atomic (prop "user_id" body) (items_in (prop "items" body)) (options_in body)
          w)
      where
        created : Result NewOrder × World
        created =
            create_order (prop "user_id" body) (items_in (prop "items" body)) (options_in body) w

-- ===== src/Http/Validity.antt =====
-- src/app.ts, POST /orders: which requests it takes, said without its checks.
use event_driven_kafka.Base.{
  ℕ, String, Bool, true, false, ◌&&◌, ◌≡◌, refl, sym, ap, ◌∙◌, ◌⊎◌, inl, inr, arith, Bool-cases,
  if◌then◌else◌,
}
use event_driven_kafka.Json.{
  Json, undefined, null, bool, num, str, arr, obj, Items, nil, cons, prop, truthy,
}
use event_driven_kafka.World.{World}
use event_driven_kafka.Exec.{ok}
use event_driven_kafka.Exec.Worlds.{calm, Condition}
use event_driven_kafka.OrderService.{NewOrder}
use event_driven_kafka.OrderService.Atomic.{drawn_twice}
use event_driven_kafka.Http.{
  Response, Answer, Check, valid, crash, malformed, is_number, check_list, check_item, well_formed,
  first_fault, check_items, check_order, post_orders,
}
use event_driven_kafka.Http.Orders.{OrderStored, IsAnsweredBy, post_orders_answers}

abbrev pub IsNumber : Json → Type 0
IsNumber v = (n : ℕ) × (v ≡ num n)

-- An item with a sku, a name, a price and a quantity.
abbrev pub IsItem : Json → Type 0
IsItem i =
    (truthy (prop "sku" i) ≡ true)
    × (truthy (prop "name" i) ≡ true)
    × IsNumber (prop "price" i)
    × IsNumber (prop "quantity" i)

abbrev pub AllItems : Items → Type 0
AllItems nil = Unit
AllItems (cons i items) = IsItem i × AllItems items

-- A user, and a list of one item or more.
abbrev pub IsOrder : Json → Type 0
IsOrder body =
    (truthy (prop "user_id" body) ≡ true)
    × (i : Json) × (items : Items) × (prop "items" body ≡ arr (cons i items))
    × AllItems (cons i items)

is_number-IsNumber : (v : Json) → is_number v ≡ true → IsNumber v
is_number-IsNumber (num n) h = (n, refl)
is_number-IsNumber undefined h = cc
is_number-IsNumber _ h = cc

IsNumber-is_number : (v : Json) → IsNumber v → is_number v ≡ true
IsNumber-is_number v (n, e) = ap is_number e

AllTrue : Bool → Bool → Bool → Bool → Type 0
AllTrue a b c d = (a ≡ true) × (b ≡ true) × (c ≡ true) × (d ≡ true)

all_four :
    (a b c d : Bool) (message : String)
    → (if (a && b) && (c && d) then valid else malformed message) ≡ valid
    → AllTrue a b c d
unfolding AllTrue
all_four true true true true message h = (refl, refl, refl, refl)
all_four false b c d message h = cc
all_four true false c d message h = cc
all_four true true false d message h = cc
all_four true true true false message h = cc

well_formed-IsItem : (i : Json) → well_formed i ≡ valid → IsItem i
unfolding AllTrue
well_formed-IsItem i h =
    let (sku, name, price, quantity) = all_four _ _ _ _ _ h in
    (
      sku,
      name,
      is_number-IsNumber (prop "price" i) price,
      is_number-IsNumber (prop "quantity" i) quantity,
    )

check_item-IsItem : (i : Json) → check_item i ≡ valid → IsItem i
check_item-IsItem undefined h = cc
check_item-IsItem null h = cc
check_item-IsItem (bool b) h = well_formed-IsItem (bool b) h
check_item-IsItem (num n) h = well_formed-IsItem (num n) h
check_item-IsItem (str s) h = well_formed-IsItem (str s) h
check_item-IsItem (arr xs) h = well_formed-IsItem (arr xs) h
check_item-IsItem (obj fs) h = well_formed-IsItem (obj fs) h

IsItem-check_item : (i : Json) → IsItem i → check_item i ≡ valid
IsItem-check_item (obj fs) (sku, name, price, quantity) =
    rw sku (rw name (rw (IsNumber-is_number _ price) (rw (IsNumber-is_number _ quantity) refl)))
IsItem-check_item undefined (sku, name, price, quantity) = cc
IsItem-check_item _ (sku, name, price, quantity) = cc

first_valid : (c d : Check) → first_fault c d ≡ valid → (c ≡ valid) × (d ≡ valid)
first_valid valid d h = (refl, h)
first_valid crash d h = cc
first_valid (malformed m) d h = cc

items-AllItems : (items : Items) → check_items items ≡ valid → AllItems items
unfolding check_items
items-AllItems nil h = tt
items-AllItems (cons i items) h =
    let (a, b) = first_valid _ _ h in (check_item-IsItem i a, items-AllItems items b)

AllItems-items : (items : Items) → AllItems items → check_items items ≡ valid
unfolding check_items
AllItems-items nil h = refl
AllItems-items (cons i items) h = rw (IsItem-check_item i h.0) (AllItems-items items h.1)

abbrev IsList : Json → Type 0
IsList v = (i : Json) × (items : Items) × (v ≡ arr (cons i items)) × AllItems (cons i items)

check_list-IsList : (v : Json) → check_list v ≡ valid → IsList v
check_list-IsList (arr nil) h = cc
check_list-IsList (arr (cons i items)) h = (i, items, refl, items-AllItems (cons i items) h)
check_list-IsList undefined h = cc
check_list-IsList _ h = cc

check_order-IsOrder : (body : Json) → check_order body ≡ valid → IsOrder body
unfolding check_order
check_order-IsOrder body h = elim (Bool-cases (truthy (prop "user_id" body))) [
  | inl there ↦
      let list : IsList (prop "items" body) =
        check_list-IsList (prop "items" body) (rw there at h) in
      (there, list.0, list.1, list.2, list.3)
  | inr lacking ↦ absurd (ground (arith, h, lacking))
]

pub IsOrder-check_order : (body : Json) → IsOrder body → check_order body ≡ valid
unfolding check_order
IsOrder-check_order body (user, i, items, list, each) =
    rw user (rw list (AllItems-items (cons i items) each))

-- What POST /orders answers to an order, and to any other request.
abbrev pub IsTaken : Json → World → Response (Answer NewOrder) → Condition
IsTaken body v res w =
    ((res.status ≡ 202) × OrderStored body v w)
    ⊎ ((res.status ≡ 500) × ((w ≡ drawn_twice v) ⊎ OrderStored body v w))

abbrev pub IsRefused : World → Response (Answer NewOrder) → Condition
IsRefused v res w = ((res.status ≡ 400) ⊎ (res.status ≡ 500)) × (w ≡ v)

by_check :
    (body : Json) (c : Check) (v : World) (res : Response (Answer NewOrder)) (w : World)
    → check_order body ≡ c
    → IsAnsweredBy body c v res w
    → (IsOrder body → IsTaken body v res w) × (¬ (IsOrder body) → IsRefused v res w)
by_check body valid v res w e a = (λ o. a, λ n. absurd (n (check_order-IsOrder body e)))
by_check body crash v res w e a =
    (λ o. absurd (contradiction (sym e ∙ IsOrder-check_order body o)), λ n. (inr a.0, a.1))
  where
    contradiction : crash ≡ valid → ⊥
    contradiction p = cc
by_check body (malformed m) v res w e a =
    (λ o. absurd (contradiction (sym e ∙ IsOrder-check_order body o)), λ n. (inl a.0, a.2))
  where
    contradiction : malformed m ≡ valid → ⊥
    contradiction p = cc

-- POST /orders always answers, whatever calls fail. To a request that has a user and a list of one or more
-- items, each with a sku, a name, a numeric price and a numeric quantity, the answer is 202 and
-- the order and its event are stored, or it is 500, and then both are stored or none is. To any
-- other request the answer is 400 or 500 and nothing changes.
pub post_orders_decides :
    (body : Json) (w : World)
    → (res : Response (Answer NewOrder)) × ((post_orders body w).0 ≡ ok res)
      × (IsOrder body → IsTaken body (calm w) res (calm (post_orders body w).1))
      × (¬ (IsOrder body) → IsRefused (calm w) res (calm (post_orders body w).1))
post_orders_decides body w =
    let (res, e, a) = post_orders_answers body w in
    let (taken, refused) = by_check body (check_order body) (calm w) res _ refl a in
    (res, e, taken, refused)

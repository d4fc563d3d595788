-- ===== src/Workers/Replies.antt =====
-- src/consumers/payment-consumer.ts, inventory-consumer.ts and shipping-consumer.ts: what a worker
-- answers to a request.
use event_driven_kafka.Base.{
  ◌<◌, ◌⊎◌, ◌↔◌, ◌≢◌, ap, ◌∙◌, eq_iff, ltb, arith, ◌+◌, String, Bool, true, false, ◌&&◌, List, [],
  ◌∷◌, ◌++◌, ◌≡◌, refl, sym, subst, ◌==◌, eq_refl, any, if◌then◌else◌, Bool-cases, inl, inr, ◌||◌,
}
use event_driven_kafka.Json.{
  Json, undefined, null, bool, num, str, arr, obj, nil, cons, Items, get, prop, ◌or◌,
}
use event_driven_kafka.Contracts.{
  EventType, event_type_name, payment_requested, payment_authorized, payment_rejected,
  inventory_reservation_requested, inventory_reserved, inventory_reservation_failed,
  shipment_requested, shipment_created, shipment_failed, EventEnvelope,
}
use event_driven_kafka.Chaos.{should_fail, latency_ms}
use event_driven_kafka.Database.{Db}
use event_driven_kafka.World.{Env, World, Message}
use event_driven_kafka.Exec.{
  Result, ok, ◌>>=◌, call, send, fresh_uuid, short_id, random_below, sleep,
}
use event_driven_kafka.Emit.{emit, draw_event_id, drawn_event_id, message_of}
use event_driven_kafka.Workers.{
  answer, authorize, payment_react, payment_process, has_out_of_stock, reserve, reserve_value,
  is_text, is_short, amount_of, or_throw, decide_items, reserve_items, inventory_react,
  inventory_process, ship, shipping_react, shipping_process,
}

abbrev pub has_header : String → String → Message → Bool
has_header name value m = any (λ h. h.0 == name && h.1 == value) m.headers

-- The request is answered by one message of this type, for its order, caused by it.
pub record IsAnswered (e : EventEnvelope) (t : EventType) (db : Db) (kafka : List Message)
    (r : Result (Unit {0}) × World) : Type 0 where
  pub reply : Message
  pub succeeded : r.0 ≡ ok tt
  pub sent : r.1.kafka ≡ kafka ++ reply ∷ []
  pub unchanged : r.1.db ≡ db
  pub for_order : reply.key ≡ e.aggregate_id
  pub typed : has_header "event-type" (event_type_name t) reply ≡ true
  pub caused : has_header "causation-id" e.event_id reply ≡ true

abbrev pub calm : World → World
calm w = record w { outcomes = [] }

pub answer_lem :
    (e : EventEnvelope) (topic : String) (t : EventType) (kind : String)
    (payload : List (String × Json)) (w : World)
    → IsAnswered e t w.db w.kafka (answer e topic t kind payload (calm w))
unfolding answer emit draw_event_id drawn_event_id fresh_uuid send call ◌>>=◌ message_of
answer_lem e topic t kind payload w = record {
  reply = _;
  succeeded = refl;
  sent = refl;
  unchanged = refl;
  for_order = refl;
  typed = rw (eq_refl (event_type_name t)) refl;
  caused = rw (eq_refl e.event_id) refl;
}

abbrev pub payment_verdict : Bool → EventType
payment_verdict fault = if fault then payment_rejected else payment_authorized

authorize-IsAnswered :
    (e : EventEnvelope) (fault : Bool) (w : World)
    → IsAnswered e (payment_verdict fault) w.db w.kafka (authorize e fault (calm w))
unfolding authorize ◌>>=◌ short_id random_below
authorize-IsAnswered e true w = answer_lem e _ _ _ _ w
authorize-IsAnswered e false w = answer_lem e _ _ _ _ (record w { drawn = w.drawn + 1 + 1 })

abbrev pub ship_verdict : Bool → EventType
ship_verdict fault = if fault then shipment_failed else shipment_created

ship-IsAnswered :
    (e : EventEnvelope) (fault : Bool) (w : World)
    → IsAnswered e (ship_verdict fault) w.db w.kafka (ship e fault (calm w))
unfolding ship ◌>>=◌ short_id random_below
ship-IsAnswered e true w = answer_lem e _ _ _ _ w
ship-IsAnswered e false w = answer_lem e _ _ _ _ (record w { drawn = w.drawn + 1 + 1 })

abbrev pub reserve_verdict : Bool → EventType
reserve_verdict failing = if failing then inventory_reservation_failed else inventory_reserved

decide-IsAnswered :
    (e : EventEnvelope) (fault short : Bool) (items : Items) (w : World)
    → IsAnswered e
        (reserve_verdict (fault || short))
        w.db
        w.kafka
        (decide_items e fault items short (calm w))
unfolding decide_items ◌>>=◌ short_id
decide-IsAnswered e fault short items w = elim (Bool-cases (fault || short)) [
  | inl k ↦ rw k (answer_lem e _ _ _ _ w)
  | inr k ↦ rw k (answer_lem e _ _ _ _ (record w { drawn = w.drawn + 1 }))
]

-- An item that is out of stock, or of which more than 500 are asked.
abbrev pub IsShort : Env → Json → Type 0
IsShort env i = (prop "sku" i ≡ str "OUT_OF_STOCK_ITEM") ⊎ (500 < amount_of env (prop "quantity" i))

abbrev pub AnyShort : Env → Items → Type 0
AnyShort env nil = ⊥
AnyShort env (cons i items) = IsShort env i ⊎ AnyShort env items

abbrev pub NoneShort : Env → Items → Type 0
NoneShort env nil = Unit
NoneShort env (cons i items) = ¬ (IsShort env i) × NoneShort env items

-- No item is null or undefined.
abbrev pub AllPresent : Items → Type 0
AllPresent nil = Unit
AllPresent (cons i items) = (i ≢ undefined) × (i ≢ null) × AllPresent items

is_text-equals : (s : String) (v : Json) → (is_text s v ≡ true) ↔ (v ≡ str s)
is_text-equals s (str t) = (λ h. ap str ((eq_iff t s).0 h), λ p. rw (ap (is_text s) p) (eq_refl s))
is_text-equals s undefined = (λ h. cc, λ p. cc)
is_text-equals s null = (λ h. cc, λ p. cc)
is_text-equals s (bool b) = (λ h. cc, λ p. cc)
is_text-equals s (num n) = (λ h. cc, λ p. cc)
is_text-equals s (arr xs) = (λ h. cc, λ p. cc)
is_text-equals s (obj fs) = (λ h. cc, λ p. cc)

item-IsShort :
    (env : Env) (i : Json)
    → ((is_short env i ≡ true) × IsShort env i) ⊎ ((is_short env i ≡ false) × ¬ (IsShort env i))
item-IsShort env i = elim (Bool-cases (is_text "OUT_OF_STOCK_ITEM" (prop "sku" i))) [
  | inl named ↦ inl (rw named refl, inl ((is_text-equals _ _).0 named))
  | inr other ↦ elim (Bool-cases (ltb 500 (amount_of env (prop "quantity" i)))) [
    | inl large ↦ inl (rw other large, inr (ground (arith, large)))
    | inr small ↦ inr (
      rw other small,
      λ h. elim h [
        | inl p ↦ ground (arith, other, (is_text-equals _ _).1 p)
        | inr q ↦ ground (arith, small, q)
      ],
    )
  ]
]

looked_at :
    (env : Env) (i : Json) (items : Items)
    → i ≢ undefined
    → i ≢ null
    → has_out_of_stock env (cons i items)
      ≡ (if is_short env i then ok true else has_out_of_stock env items)
unfolding has_out_of_stock
looked_at env undefined items u n = absurd (u refl)
looked_at env null items u n = absurd (n refl)
looked_at env (bool b) items u n = refl
looked_at env (num k) items u n = refl
looked_at env (str s) items u n = refl
looked_at env (arr xs) items u n = refl
looked_at env (obj fs) items u n = refl

scanned :
    (env : Env) (items : Items)
    → AllPresent items
    → ((has_out_of_stock env items ≡ ok true) × AnyShort env items)
      ⊎ ((has_out_of_stock env items ≡ ok false) × NoneShort env items)
scanned env nil p = inr (unfold has_out_of_stock in refl, tt)
scanned env (cons i items) p = elim (item-IsShort env i) [
  | inl (k, short) ↦ inl (looked_at env i items p.0 p.1 ∙ rw k refl, inl short)
  | inr (k, fine) ↦ elim (scanned env items p.2) [
    | inl (rest, short) ↦ inl (looked_at env i items p.0 p.1 ∙ rw k rest, inr short)
    | inr (rest, none_short) ↦ inr (looked_at env i items p.0 p.1 ∙ rw k rest, (fine, none_short))
  ]
]

-- When no call fails, the payment worker answers PaymentRequested by one message, for the same
-- order and caused by the request: PaymentRejected under the payment fault, else PaymentAuthorized.
-- It changes nothing in the database.
pub payment_process-IsAnswered :
    (e : EventEnvelope) (w : World)
    → w.outcomes ≡ []
    → e.event_type ≡ payment_requested
    → IsAnswered e (payment_verdict w.chaos.payment_failure) w.db w.kafka (payment_process e w)
unfolding payment_process payment_react ◌>>=◌ sleep should_fail latency_ms
payment_process-IsAnswered e w o t =
    subst
      (λ os.
        IsAnswered e (payment_verdict w.chaos.payment_failure) w.db w.kafka
          (payment_process e (record w { outcomes = os })))
      (sym o)
      (subst
        (λ t. IsAnswered e (payment_verdict w.chaos.payment_failure) w.db w.kafka (
          payment_react t e w.chaos.payment_failure
            (record w { outcomes = []; clock = w.clock + w.chaos.payment_latency_ms })))
        (sym t)
        (authorize-IsAnswered e w.chaos.payment_failure
          (record w { clock = w.clock + w.chaos.payment_latency_ms })))

-- When no call fails, the inventory worker answers an InventoryReservationRequested event that lists
-- items, none of them null, by one message, for the same order and caused by the request, and
-- changes nothing in the database. The answer is InventoryReservationFailed, and there is the
-- inventory fault, an item out of stock or an item of which more than 500 are asked; or it is
-- InventoryReserved, and there is none of them.
pub inventory_process-IsAnswered :
    (e : EventEnvelope) (items : Items) (w : World)
    → w.outcomes ≡ []
    → e.event_type ≡ inventory_reservation_requested
    → (get "items" e.payload or arr nil) ≡ arr items
    → AllPresent items
    → (((w.chaos.inventory_failure ≡ true) ⊎ AnyShort w.env items)
        × IsAnswered e inventory_reservation_failed w.db w.kafka (inventory_process e w))
      ⊎ (((w.chaos.inventory_failure ≡ false) × NoneShort w.env items)
          × IsAnswered e inventory_reserved w.db w.kafka (inventory_process e w))
unfolding inventory_process inventory_react reserve reserve_value reserve_items ◌>>=◌ sleep
    should_fail latency_ms
inventory_process-IsAnswered e items w o t i present = elim (scanned w.env items present) [
  | inl (k, short) ↦ inl (inr short, decided true inventory_reservation_failed k (failing _))
  | inr (k, fine) ↦ elim (Bool-cases w.chaos.inventory_failure) [
    | inl fault ↦ inl (
      inl fault,
      decided false inventory_reservation_failed k (ap (λ b. reserve_verdict (b || false)) fault),
    )
    | inr calm_ ↦ inr (
      (calm_, fine),
      decided false inventory_reserved k (ap (λ b. reserve_verdict (b || false)) calm_),
    )
  ]
]
  where
    failing : (b : Bool) → reserve_verdict (b || true) ≡ inventory_reservation_failed
    failing true = refl
    failing false = refl

    w' : World
    w' = record w { clock = w.clock + w.chaos.inventory_latency_ms }

    decided :
        (short : Bool) (v : EventType)
        → has_out_of_stock w.env items ≡ ok short
        → reserve_verdict (w.chaos.inventory_failure || short) ≡ v
        → IsAnswered e v w.db w.kafka (inventory_process e w)
    decided short v k verdict =
        let Goal : Result (Unit {0}) × World → Type 0 = IsAnswered e v w.db w.kafka in
        subst (λ os. Goal (inventory_process e (record w { outcomes = os }))) (sym o)
          (subst (λ t. Goal (inventory_react t e w.chaos.inventory_failure (calm w'))) (sym t)
            (subst (λ x. Goal (reserve_value e w.chaos.inventory_failure x (calm w'))) (sym i)
              (subst
                (λ r.
                  Goal ((or_throw r >>= decide_items e w.chaos.inventory_failure items) (calm w')))
                (sym k)
                (subst
                  (λ t.
                    IsAnswered e t w.db w.kafka
                      (decide_items e w.chaos.inventory_failure items short (calm w')))
                  verdict (decide-IsAnswered e w.chaos.inventory_failure short items w')))))

-- When no call fails, the shipping worker answers ShipmentRequested by one message, for the same
-- order and caused by the request: ShipmentFailed under the shipping fault, else ShipmentCreated. It
-- changes nothing in the database.
pub shipping_process-IsAnswered :
    (e : EventEnvelope) (w : World)
    → w.outcomes ≡ []
    → e.event_type ≡ shipment_requested
    → IsAnswered e (ship_verdict w.chaos.shipping_failure) w.db w.kafka (shipping_process e w)
unfolding shipping_process shipping_react ◌>>=◌ should_fail
shipping_process-IsAnswered e w o t =
    let Goal : Result (Unit {0}) × World → Type 0 =
      IsAnswered e (ship_verdict w.chaos.shipping_failure) w.db w.kafka in
    subst (λ os. Goal (shipping_process e (record w { outcomes = os }))) (sym o)
      (subst (λ t. Goal (shipping_react t e w.chaos.shipping_failure (calm w))) (sym t)
        (ship-IsAnswered e w.chaos.shipping_failure w))

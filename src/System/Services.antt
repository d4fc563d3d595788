-- ===== src/System/Services.antt =====
-- The handlers of the payment, inventory, shipping, fraud and notification workers write nothing: they
-- keep every condition that more messages do not break.
use event_driven_kafka.Base.{String, Bool, true, false, List, ◌||◌}
use event_driven_kafka.Json.{Json, Items, arr}
use event_driven_kafka.Contracts.{
  EventType, payment_requested, payment_refund_requested, inventory_reservation_requested,
  shipment_requested, fraud_check_requested, notification_requested, EventEnvelope,
}
use event_driven_kafka.Chaos.{Service, payment, inventory, fraud}
use event_driven_kafka.World.{World}
use event_driven_kafka.Exec.{Result, ok, err, Exec, gets, ◌>>=◌, ◌>>◌}
use event_driven_kafka.Exec.Rules.{Cond}
use event_driven_kafka.Workers.{
  check_latency, answer, authorize, refund, payment_react, payment_process, or_throw, decide_items,
  reserve_items, reserve_value, reserve, inventory_react, inventory_process, ship, shipping_react,
  shipping_process,
}
use event_driven_kafka.Screening.{
  is_suspicious, assess, check_fraud, fraud_react, fraud_process, notify, notification_react,
  notification_process,
}
use event_driven_kafka.System.Frame.{
  Keeps, Grows, pure-Keeps, throw-Keeps, gets-Keeps, if-Keeps, then-Keeps, sleep-Keeps,
  random_below-Keeps, short_id-Keeps, emit-Keeps,
}

module _ (C : Cond) (grows : Grows C) where
  answer-Keeps :
      (e : EventEnvelope) (topic : String) (t : EventType) (kind : String)
      (payload : List (String × Json))
      → Keeps C (answer e topic t kind payload)
  unfolding answer
  answer-Keeps e topic t kind payload =
      then-Keeps C _ _ (emit-Keeps C grows _) (λ sent. pure-Keeps C _)

  -- A read of the world, a draw of an id or a draw of a number, and what follows.
  asked {ℓ κ} :
      {A : Type ℓ} {B : Type κ} (f : World → A) (m : A → Exec B)
      → ((a : A) → Keeps C (m a))
      → Keeps C (gets f >>= m)
  asked f m h = then-Keeps C _ m (gets-Keeps C f) h

  slow : (s : Service) (m : Exec (Unit {0})) → Keeps C m → Keeps C (check_latency s >> m)
  slow s m h = then-Keeps C _ _ (asked _ _ (λ ms. sleep-Keeps C ms)) (λ u. h)

  authorize-Keeps : (e : EventEnvelope) (fault : Bool) → Keeps C (authorize e fault)
  unfolding authorize
  authorize-Keeps e true = asked _ _ (λ now. answer-Keeps _ _ _ _ _)
  authorize-Keeps e false = then-Keeps C _ _ (short_id-Keeps C _) (λ id.
      then-Keeps C _ _ (random_below-Keeps C _) (λ code. asked _ _ (λ now. answer-Keeps _ _ _ _ _)))

  refund-Keeps : (e : EventEnvelope) → Keeps C (refund e)
  unfolding refund
  refund-Keeps e =
      then-Keeps C _ _ (short_id-Keeps C _) (λ id. asked _ _ (λ now. answer-Keeps _ _ _ _ _))

  payment_react-Keeps :
      (t : EventType) (e : EventEnvelope) (fault : Bool) → Keeps C (payment_react t e fault)
  unfolding payment_react
  payment_react-Keeps payment_requested e fault = authorize-Keeps e fault
  payment_react-Keeps payment_refund_requested e fault = refund-Keeps e
  payment_react-Keeps _ e fault = pure-Keeps C _

  pub payment_process-Keeps : (e : EventEnvelope) → Keeps C (payment_process e)
  unfolding payment_process
  payment_process-Keeps e =
      slow payment _ (asked _ _ (λ fault. payment_react-Keeps e.event_type e fault))

  decide_items-Keeps :
      (e : EventEnvelope) (fault : Bool) (items : Items) (short : Bool)
      → Keeps C (decide_items e fault items short)
  unfolding decide_items
  decide_items-Keeps e fault items short =
      if-Keeps C (fault || short) _ _ (asked _ _ (λ now. answer-Keeps _ _ _ _ _))
        (then-Keeps C _ _ (short_id-Keeps C _) (λ id. asked _ _ (λ now. answer-Keeps _ _ _ _ _)))

  or_throw-Keeps : (r : Result Bool) → Keeps C (or_throw r)
  or_throw-Keeps (ok b) = pure-Keeps C b
  or_throw-Keeps (err x) = throw-Keeps C x

  reserve_items-Keeps :
      (e : EventEnvelope) (fault : Bool) (items : Items) → Keeps C (reserve_items e fault items)
  unfolding reserve_items
  reserve_items-Keeps e fault items =
      asked _ _ (λ env. then-Keeps C _ _ (or_throw-Keeps _) (decide_items-Keeps e fault items))

  reserve_value-Keeps :
      (e : EventEnvelope) (fault : Bool) (v : Json) → Keeps C (reserve_value e fault v)
  unfolding reserve_value
  reserve_value-Keeps e fault (arr items) = reserve_items-Keeps e fault items
  reserve_value-Keeps e fault _ = throw-Keeps C _

  inventory_react-Keeps :
      (t : EventType) (e : EventEnvelope) (fault : Bool) → Keeps C (inventory_react t e fault)
  unfolding inventory_react reserve
  inventory_react-Keeps inventory_reservation_requested e fault = reserve_value-Keeps e fault _
  inventory_react-Keeps _ e fault = pure-Keeps C _

  pub inventory_process-Keeps : (e : EventEnvelope) → Keeps C (inventory_process e)
  unfolding inventory_process
  inventory_process-Keeps e =
      slow inventory _ (asked _ _ (λ fault. inventory_react-Keeps e.event_type e fault))

  ship-Keeps : (e : EventEnvelope) (fault : Bool) → Keeps C (ship e fault)
  unfolding ship
  ship-Keeps e true = asked _ _ (λ now. answer-Keeps _ _ _ _ _)
  ship-Keeps e false = then-Keeps C _ _ (short_id-Keeps C _) (λ id.
      then-Keeps C _ _ (random_below-Keeps C _)
        (λ number. asked _ _ (λ estimated. asked _ _ (λ now. answer-Keeps _ _ _ _ _))))

  shipping_react-Keeps :
      (t : EventType) (e : EventEnvelope) (fault : Bool) → Keeps C (shipping_react t e fault)
  unfolding shipping_react
  shipping_react-Keeps shipment_requested e fault = ship-Keeps e fault
  shipping_react-Keeps _ e fault = pure-Keeps C _

  pub shipping_process-Keeps : (e : EventEnvelope) → Keeps C (shipping_process e)
  unfolding shipping_process
  shipping_process-Keeps e = asked _ _ (λ fault. shipping_react-Keeps e.event_type e fault)

  assess-Keeps :
      (e : EventEnvelope) (fault : Bool) (id : String) (risky : Bool)
      → Keeps C (assess e fault id risky)
  unfolding assess
  assess-Keeps e fault id true = asked _ _ (λ now. answer-Keeps _ _ _ _ _)
  assess-Keeps e fault id false =
      then-Keeps C _ _ (random_below-Keeps C _) (λ score. asked _ _ (λ now. answer-Keeps _ _ _ _ _))

  fraud_react-Keeps :
      (t : EventType) (e : EventEnvelope) (fault : Bool) → Keeps C (fraud_react t e fault)
  unfolding fraud_react check_fraud
  fraud_react-Keeps fraud_check_requested e fault =
      then-Keeps C _ _ (short_id-Keeps C _)
        (λ id. asked _ _ (λ env. assess-Keeps e fault id (fault || is_suspicious env e)))
  fraud_react-Keeps _ e fault = pure-Keeps C _

  pub fraud_process-Keeps : (e : EventEnvelope) → Keeps C (fraud_process e)
  unfolding fraud_process
  fraud_process-Keeps e = slow fraud _ (asked _ _ (λ fault. fraud_react-Keeps e.event_type e fault))

  notify-Keeps : (e : EventEnvelope) (fault : Bool) → Keeps C (notify e fault)
  unfolding notify
  notify-Keeps e true = throw-Keeps C _
  notify-Keeps e false =
      then-Keeps C _ _ (short_id-Keeps C _) (λ id. asked _ _ (λ now. answer-Keeps _ _ _ _ _))

  notification_react-Keeps :
      (t : EventType) (e : EventEnvelope) (fault : Bool) → Keeps C (notification_react t e fault)
  unfolding notification_react
  notification_react-Keeps notification_requested e fault = notify-Keeps e fault
  notification_react-Keeps _ e fault = pure-Keeps C _

  pub notification_process-Keeps : (e : EventEnvelope) → Keeps C (notification_process e)
  unfolding notification_process
  notification_process-Keeps e = asked _ _ (λ fault. notification_react-Keeps e.event_type e fault)

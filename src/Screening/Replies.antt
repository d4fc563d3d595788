-- ===== src/Screening/Replies.antt =====
-- src/consumers/fraud-consumer.ts and notification-consumer.ts: what a worker answers to a request.
use event_driven_kafka.Base.{
  ◌<>◌, slice, ℕ, ◌≤◌, ◌<◌, ◌⊎◌, inl, inr, ltb, Bool-cases, arith, ◌+◌, Bool, true, false, String,
  [], ◌≡◌, refl, sym, subst, if◌then◌else◌, ◌||◌,
}
use event_driven_kafka.Json.{str, get, ◌or◌, text_of}
use event_driven_kafka.Contracts.{
  EventType, fraud_check_requested, fraud_approved, fraud_rejected, notification_requested,
  notification_sent, EventEnvelope,
}
use event_driven_kafka.Chaos.{should_fail, latency_ms}
use event_driven_kafka.World.{World}
use event_driven_kafka.Exec.{Result, err, ◌>>=◌, short_id, random_below, sleep}
use event_driven_kafka.Workers.Replies.{IsAnswered, calm, answer_lem}
use event_driven_kafka.Screening.{
  is_suspicious, assess, check_fraud, fraud_react, fraud_process, no_mail_server, notify,
  notification_react, notification_process,
}

-- The answer to a fraud check.
abbrev pub fraud_verdict : Bool → EventType
fraud_verdict risk = if risk then fraud_rejected else fraud_approved

assess-IsAnswered :
    (e : EventEnvelope) (fault : Bool) (id : String) (risk : Bool) (w : World)
    → IsAnswered e (fraud_verdict risk) w.db w.kafka (assess e fault id risk (calm w))
unfolding assess ◌>>=◌ random_below
assess-IsAnswered e fault id true w = answer_lem e _ _ _ _ w
assess-IsAnswered e fault id false w = answer_lem e _ _ _ _ (record w { drawn = w.drawn + 1 })

-- What makes a request risky, and what clears it: the fault, the amount, and the text of the user id.
abbrev pub amount_asked : World → EventEnvelope → ℕ
amount_asked w e = w.env.number (get "amount" e.payload)

abbrev pub names_fraudster : World → EventEnvelope → Bool
names_fraudster w e = w.env.includes (text_of (get "user_id" e.payload or str "")) "fraudster"

abbrev pub IsRisky : World → EventEnvelope → Type 0
IsRisky w e =
    (w.chaos.fraud_rejection ≡ true) ⊎ ((10000 < amount_asked w e) ⊎ (names_fraudster w e ≡ true))

abbrev pub IsHarmless : World → EventEnvelope → Type 0
IsHarmless w e =
    (w.chaos.fraud_rejection ≡ false) × (amount_asked w e ≤ 10000) × (names_fraudster w e ≡ false)

weighed :
    (fault flag : Bool) (n : ℕ)
    → ((fault || (ltb 10000 n || flag) ≡ true) × ((fault ≡ true) ⊎ ((10000 < n) ⊎ (flag ≡ true))))
      ⊎ ((fault || (ltb 10000 n || flag) ≡ false) × (fault ≡ false) × (n ≤ 10000) × (flag ≡ false))
weighed true flag n = inl (refl, inl refl)
weighed false flag n = elim (Bool-cases (ltb 10000 n)) [
  | inl large ↦ inl (rw large refl, inr (inl (ground (arith, large))))
  | inr small ↦ elim (Bool-cases flag) [
    | inl named ↦ inl (rw small named, inr (inr named))
    | inr other ↦ inr (rw small other, refl, ground (arith, small), other)
  ]
]

-- When no call fails, the fraud worker answers FraudCheckRequested by one message, for the same order
-- and caused by the request, and changes nothing in the database. The answer is FraudRejected, and
-- there is the fraud fault, an amount above 10000 or a user id that includes "fraudster"; or it is
-- FraudApproved, and there is none of them.
pub fraud_process-IsAnswered :
    (e : EventEnvelope) (w : World)
    → w.outcomes ≡ []
    → e.event_type ≡ fraud_check_requested
    → (IsRisky w e × IsAnswered e fraud_rejected w.db w.kafka (fraud_process e w))
      ⊎ (IsHarmless w e × IsAnswered e fraud_approved w.db w.kafka (fraud_process e w))
unfolding fraud_process fraud_react check_fraud ◌>>=◌ sleep should_fail latency_ms short_id
fraud_process-IsAnswered e w o t =
    elim (weighed w.chaos.fraud_rejection (names_fraudster w e) (amount_asked w e)) [
      | inl (risk, why) ↦ inl (why, at_risk true risk)
      | inr (risk, up, small, other) ↦ inr ((up, small, other), at_risk false risk)
    ]
  where
    w' : World
    w' = record w { clock = w.clock + w.chaos.fraud_latency_ms }

    at_risk :
        (risk : Bool)
        → w.chaos.fraud_rejection || is_suspicious w.env e ≡ risk
        → IsAnswered e (fraud_verdict risk) w.db w.kafka (fraud_process e w)
    at_risk risk k =
        let Goal : Result (Unit {0}) × World → Type 0 =
          IsAnswered e (fraud_verdict risk) w.db w.kafka in
        subst (λ os. Goal (fraud_process e (record w { outcomes = os }))) (sym o)
          (subst (λ t. Goal (fraud_react t e w.chaos.fraud_rejection (calm w'))) (sym t)
            (subst
              (λ b. Goal (
                assess e w.chaos.fraud_rejection ("fraud_" <> slice (w.env.uuid w.drawn) 0 8) b
                  (calm (record w' { drawn = w.drawn + 1 }))))
              (sym k)
              (assess-IsAnswered e w.chaos.fraud_rejection
                ("fraud_" <> slice (w.env.uuid w.drawn) 0 8) risk
                (record w' { drawn = w.drawn + 1 }))))

-- When no call fails and the mail server is up, the notification worker answers NotificationRequested by
-- one message NotificationSent, for the same order and caused by the request, and changes nothing
-- in the database. Under the notification fault it throws and leaves everything as it is.
pub notification_process-IsAnswered :
    (e : EventEnvelope) (w : World)
    → w.outcomes ≡ []
    → e.event_type ≡ notification_requested
    → (w.chaos.notification_failure ≡ false
        → IsAnswered e notification_sent w.db w.kafka (notification_process e w))
      × (w.chaos.notification_failure ≡ true → notification_process e w ≡ (err no_mail_server, w))
unfolding notification_process notification_react notify ◌>>=◌ should_fail short_id
notification_process-IsAnswered e w o t = (sends, fails)
  where
    sends :
        w.chaos.notification_failure ≡ false
        → IsAnswered e notification_sent w.db w.kafka (notification_process e w)
    sends f =
        let Goal : Result (Unit {0}) × World → Type 0 =
          IsAnswered e notification_sent w.db w.kafka in
        subst (λ os. Goal (notification_process e (record w { outcomes = os }))) (sym o)
          (subst (λ t. Goal (notification_react t e w.chaos.notification_failure (calm w))) (sym t)
            (subst (λ b. Goal (notify e b (calm w))) (sym f)
              (answer_lem e _ _ _ _ (record w { drawn = w.drawn + 1 }))))

    fails : w.chaos.notification_failure ≡ true → notification_process e w ≡ (err no_mail_server, w)
    fails f =
        subst (λ t. notification_react t e w.chaos.notification_failure w ≡ (err no_mail_server, w))
          (sym t) (subst (λ b. notify e b w ≡ (err no_mail_server, w)) (sym f) refl)

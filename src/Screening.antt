-- ===== src/Screening.antt =====
-- src/consumers/fraud-consumer.ts and notification-consumer.ts: the method processEvent of each. Logging
-- is left out.
pub mod Replies
use event_driven_kafka.Base.{
  ◌+◌, String, Bool, true, false, ◌||◌, [], ◌∷◌, ltb, if◌then◌else◌, none,
}
use event_driven_kafka.Json.{num, str, get, ◌or◌, text_of}
use event_driven_kafka.Contracts.{
  EventType, fraud_check_requested, fraud_approved, fraud_rejected, notification_requested,
  notification_sent, EventEnvelope,
}
use event_driven_kafka.Contracts.Topics
use event_driven_kafka.Chaos.{fraud, notification}
use event_driven_kafka.World.{Env, Error}
use event_driven_kafka.Exec.{Exec, pure, throw, gets, short_id, random_below, now_iso, ◌>>=◌, ◌>>◌}
use event_driven_kafka.Workers.{check_latency, fails, answer}

-- amount > 10000 || userId.includes('fraudster')
abbrev pub is_suspicious : Env → EventEnvelope → Bool
is_suspicious env e =
    ltb 10000 (env.number (get "amount" e.payload))
    || env.includes (text_of (get "user_id" e.payload or str "")) "fraudster"

abbrev pub fraud_reason : Bool → String
fraud_reason fault = if fault then "Chaos forced fraud rejection" else "Excessive risk score (>75)"

-- FraudCheckRequested, with the id that was drawn.
unfoldable pub assess : EventEnvelope → Bool → String → Bool → Exec (Unit {0})
assess e fault id true = do
  now ← now_iso
  answer e Topics.fraud fraud_rejected "Fraud" (
      ("fraud_check_id", str id)
      ∷ ("order_id", str e.aggregate_id)
      ∷ ("risk_score", num 92)
      ∷ ("reason", str (fraud_reason fault))
      ∷ ("rejected_at", str now)
      ∷ [])
assess e fault id false = do
  score ← random_below 25
  now ← now_iso
  answer e Topics.fraud fraud_approved "Fraud" (
      ("fraud_check_id", str id)
      ∷ ("order_id", str e.aggregate_id)
      ∷ ("risk_score", num (score + 5))
      ∷ ("approved_at", str now)
      ∷ [])

unfoldable pub check_fraud : EventEnvelope → Bool → Exec (Unit {0})
check_fraud e fault = do
  id ← short_id "fraud_"
  env ← gets (λ w. w.env)
  assess e fault id (fault || is_suspicious env e)

-- The test of the event's type.
unfoldable pub fraud_react : EventType → EventEnvelope → Bool → Exec (Unit {0})
fraud_react fraud_check_requested e fault = check_fraud e fault
fraud_react _ e fault = pure tt

unfoldable pub fraud_process : EventEnvelope → Exec (Unit {0})
fraud_process e = do check_latency fraud; fault ← fails fraud; fraud_react e.event_type e fault

abbrev pub no_mail_server : Error
no_mail_server = record {
  message = "Notification mail server unreachable (Chaos Injection)";
  stack = none;
}

-- NotificationRequested
unfoldable pub notify : EventEnvelope → Bool → Exec (Unit {0})
notify e true = throw no_mail_server
notify e false = do
  id ← short_id "notif_"
  now ← now_iso
  answer e Topics.notifications notification_sent "Notification" (
      ("notification_id", str id)
      ∷ ("order_id", str e.aggregate_id)
      ∷ ("user_id", get "user_id" e.payload or str "unknown")
      ∷ ("channel", get "channel" e.payload or str "EMAIL")
      ∷ ("sent_at", str now)
      ∷ [])

unfoldable pub notification_react : EventType → EventEnvelope → Bool → Exec (Unit {0})
notification_react notification_requested e fault = notify e fault
notification_react _ e fault = pure tt

unfoldable pub notification_process : EventEnvelope → Exec (Unit {0})
notification_process e = do fault ← fails notification; notification_react e.event_type e fault

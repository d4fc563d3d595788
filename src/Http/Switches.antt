-- ===== src/Http/Switches.antt =====
-- src/app.ts, the routes under /chaos that set a fault, and POST /chaos/reset. Each answers with the
-- configuration that it leaves.
use event_driven_kafka.Base.{◌=?◌, Bool, true, false, none, some, ◌≡◌, refl, if◌then◌else◌}
use event_driven_kafka.Json.{Json, bool, prop}
use event_driven_kafka.Chaos.{
  ChaosConfig, default_chaos_config, Fault, set_fault, reset, Service, payment, inventory, fraud,
  shipping, notification, should_fail,
}
use event_driven_kafka.World.{World}
use event_driven_kafka.Exec.{Exec, ok}

abbrev no_fault : Fault
no_fault = record {
  payment_failure = none;
  payment_latency_ms = none;
  inventory_failure = none;
  inventory_latency_ms = none;
  fraud_rejection = none;
  fraud_latency_ms = none;
  shipping_failure = none;
  notification_failure = none;
  db_failure = none;
  malformed_event_rate = none;
}

abbrev configure : (ChaosConfig → ChaosConfig) → Exec ChaosConfig
configure f w = (ok (f w.chaos), record w { chaos = f w.chaos })

abbrev not_false : Json → Bool
not_false (bool b) = b
not_false _ = true

-- req.body.enabled !== false
abbrev pub enabled : Json → Bool
enabled body = not_false (prop "enabled" body)

-- The routes that turn a failure on or off, by the service that fails.
pub data Switch : Type 0 where
  payment_failure inventory_failure fraud_rejection shipping_failure notification_down : Switch

unfoldable pub fault_of : Switch → Bool → Fault
fault_of payment_failure b = record no_fault { payment_failure = some b }
fault_of inventory_failure b = record no_fault { inventory_failure = some b }
fault_of fraud_rejection b = record no_fault { fraud_rejection = some b }
fault_of shipping_failure b = record no_fault { shipping_failure = some b }
fault_of notification_down b = record no_fault { notification_failure = some b }

unfoldable pub post_switch : Switch → Json → Exec ChaosConfig
post_switch s body = configure (set_fault (fault_of s (enabled body)))

-- POST /chaos/fraud/latency: Number(req.body.latency_ms) || 2000
unfoldable pub post_fraud_latency : Json → Exec ChaosConfig
post_fraud_latency body w =
    let n = w.env.number (prop "latency_ms" body) in
    configure (set_fault (record no_fault { fraud_latency_ms = some (if n =? 0 then 2000 else n) }))
      w

-- POST /chaos/reset
unfoldable pub post_reset : Exec ChaosConfig
post_reset = configure reset

-- The service that a switch is about.
abbrev pub turns : Switch → Service → Bool
turns payment_failure payment = true
turns inventory_failure inventory = true
turns fraud_rejection fraud = true
turns shipping_failure shipping = true
turns notification_down notification = true
turns _ _ = false

-- A route under /chaos that turns a failure on or off makes its own service fail as the body says, which is
-- on unless `enabled` is false, and leaves every other service and the rest of the world as they
-- are; it never throws. POST /chaos/reset afterwards makes no service fail.
pub post_switch-turns :
    (s : Switch) (body : Json) (w : World)
    → let w' = (post_switch s body w).1 in
      (w' ≡ record w { chaos = w'.chaos })
      × ((post_switch s body w).0 ≡ ok w'.chaos)
      × ((t : Service)
          → should_fail t w'.chaos ≡ (if turns s t then enabled body else should_fail t w.chaos))
      × ((t : Service) → should_fail t (post_reset w').1.chaos ≡ false)
unfolding post_switch post_reset reset set_fault fault_of should_fail
post_switch-turns s body w = (refl, refl, turned s, calmed)
  where
    turned :
        (s : Switch) (t : Service)
        → should_fail t (set_fault (fault_of s (enabled body)) w.chaos)
          ≡ (if turns s t then enabled body else should_fail t w.chaos)
    turned payment_failure payment = refl
    turned payment_failure _ = refl
    turned inventory_failure inventory = refl
    turned inventory_failure _ = refl
    turned fraud_rejection fraud = refl
    turned fraud_rejection _ = refl
    turned shipping_failure shipping = refl
    turned shipping_failure _ = refl
    turned notification_down notification = refl
    turned notification_down _ = refl

    calmed : (t : Service) → should_fail t default_chaos_config ≡ false
    calmed payment = refl
    calmed _ = refl

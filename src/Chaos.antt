-- ===== src/Chaos.antt =====
-- src/chaos/chaos-engine.ts: the fault configuration. The engine is a singleton: its configuration is
-- a field of the world (World.antt). The waits of checkLatency are in the consumers (Workers.antt).
use event_driven_kafka.Base.{ℕ, Bool, false, ◌||◌, Option, none, some, ltb}

pub record ChaosConfig : Type 0 where
  pub payment_failure : Bool
  pub payment_latency_ms : ℕ
  pub inventory_failure : Bool
  pub inventory_latency_ms : ℕ
  pub fraud_rejection : Bool
  pub fraud_latency_ms : ℕ
  pub shipping_failure : Bool
  pub notification_failure : Bool
  pub db_failure : Bool
  pub malformed_event_rate : ℕ  -- in thousandths

abbrev pub default_chaos_config : ChaosConfig
default_chaos_config = record {
  payment_failure = false;
  payment_latency_ms = 0;
  inventory_failure = false;
  inventory_latency_ms = 0;
  fraud_rejection = false;
  fraud_latency_ms = 0;
  shipping_failure = false;
  notification_failure = false;
  db_failure = false;
  malformed_event_rate = 0;
}

-- Partial<ChaosConfig>
pub record Fault : Type 0 where
  pub payment_failure : Option Bool
  pub payment_latency_ms : Option ℕ
  pub inventory_failure : Option Bool
  pub inventory_latency_ms : Option ℕ
  pub fraud_rejection : Option Bool
  pub fraud_latency_ms : Option ℕ
  pub shipping_failure : Option Bool
  pub notification_failure : Option Bool
  pub db_failure : Option Bool
  pub malformed_event_rate : Option ℕ

abbrev pub given {ℓ} : {A : Type ℓ} → Option A → A → A
given none a = a
given (some b) a = b

-- `{ ...this.config, ...fault }`
unfoldable pub set_fault : Fault → ChaosConfig → ChaosConfig
set_fault f c = record {
  payment_failure = given f.payment_failure c.payment_failure;
  payment_latency_ms = given f.payment_latency_ms c.payment_latency_ms;
  inventory_failure = given f.inventory_failure c.inventory_failure;
  inventory_latency_ms = given f.inventory_latency_ms c.inventory_latency_ms;
  fraud_rejection = given f.fraud_rejection c.fraud_rejection;
  fraud_latency_ms = given f.fraud_latency_ms c.fraud_latency_ms;
  shipping_failure = given f.shipping_failure c.shipping_failure;
  notification_failure = given f.notification_failure c.notification_failure;
  db_failure = given f.db_failure c.db_failure;
  malformed_event_rate = given f.malformed_event_rate c.malformed_event_rate;
}

unfoldable pub reset : ChaosConfig → ChaosConfig
reset c = default_chaos_config

-- isChaosActive of getStatus: some switch is on, or some number is positive.
unfoldable pub is_chaos_active : ChaosConfig → Bool
is_chaos_active c =
    c.payment_failure
    || ltb 0 c.payment_latency_ms
    || c.inventory_failure
    || ltb 0 c.inventory_latency_ms
    || c.fraud_rejection
    || ltb 0 c.fraud_latency_ms
    || c.shipping_failure
    || c.notification_failure
    || c.db_failure
    || ltb 0 c.malformed_event_rate

pub data Service : Type 0 where
  payment inventory fraud shipping notification db : Service

-- The delay of checkLatency.
unfoldable pub latency_ms : Service → ChaosConfig → ℕ
latency_ms payment c = c.payment_latency_ms
latency_ms inventory c = c.inventory_latency_ms
latency_ms fraud c = c.fraud_latency_ms
latency_ms _ c = 0

unfoldable pub should_fail : Service → ChaosConfig → Bool
should_fail payment c = c.payment_failure
should_fail inventory c = c.inventory_failure
should_fail fraud c = c.fraud_rejection
should_fail shipping c = c.shipping_failure
should_fail notification c = c.notification_failure
should_fail db c = c.db_failure

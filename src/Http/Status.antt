-- ===== src/Http/Status.antt =====
-- src/app.ts, GET /health, GET /ready and GET /consumers, with isKafkaReady of src/index.ts and the
-- ping of src/services/database.ts. What getConsumersStatus returns is given.
use event_driven_kafka.Base.{String, Bool, true, false, not, ◌&&◌, ◌||◌, List, any, if◌then◌else◌}
use event_driven_kafka.World.{ConsumerHealth, degraded, down, Consumer}
use event_driven_kafka.Exec.{Exec, pure, ◌>>=◌, ◌>>◌, call, query, now_iso, try_catch}
use event_driven_kafka.Http.{Response}

unfoldable pub ping : Exec Bool
ping = try_catch (query {A = Unit {0}} (λ db. tt) >>= λ row. pure true) (λ e. pure false)

pub record Health : Type 0 where
  pub status : String
  pub timestamp : String
  pub version : String
  pub database : String
  pub consumers : List Consumer

abbrev pub is_degraded : ConsumerHealth → Bool
is_degraded degraded = true
is_degraded _ = false

abbrev pub is_down : ConsumerHealth → Bool
is_down down = true
is_down _ = false

abbrev pub has_degraded : List Consumer → Bool
has_degraded consumers = any (λ c. is_degraded c.status) consumers

abbrev pub has_down : List Consumer → Bool
has_down consumers = any (λ c. is_down c.status) consumers

abbrev pub report_health : List Consumer → Bool → Exec (Response Health)
report_health consumers db_healthy = now_iso >>= λ now.
    let outage = not db_healthy || has_down consumers in
    pure (record {
      status = if outage then 503 else 200;
      body = record {
        status = if outage then "down" else if has_degraded consumers then "degraded" else "ok";
        timestamp = now;
        version = "1.0.0";
        database = if db_healthy then "healthy" else "down";
        consumers = consumers;
      };
    })

unfoldable pub get_health : List Consumer → Exec (Response Health)
get_health consumers = ping >>= report_health consumers

unfoldable pub get_consumers : List Consumer → Exec (Response (List Consumer))
get_consumers consumers = pure (record { status = 200; body = consumers })

-- A call of the Kafka admin client that leaves the world as it is.
abbrev pub admin_call : Exec (Unit {0})
admin_call = call (pure tt)

-- connect and listTopics, and in the `finally` disconnect, whose error is thrown.
unfoldable pub is_kafka_ready : Exec Bool
is_kafka_ready = do
  ready ← try_catch (admin_call >> (admin_call >>= λ u. pure true)) (λ e. pure false)
  admin_call
  pure ready

pub record Readiness : Type 0 where
  pub ready : Bool
  pub database : String
  pub kafka : String
  pub timestamp : String

abbrev pub ready_text : Bool → String
ready_text b = if b then "ready" else "not_ready"

unfoldable pub get_ready : Exec (Response Readiness)
get_ready = do
  db_ready ← ping
  kafka_ready ← try_catch is_kafka_ready (λ e. pure false)
  now ← now_iso
  let ready = db_ready && kafka_ready
  pure (record {
    status = if ready then 200 else 503;
    body = record {
      ready = ready;
      database = ready_text db_ready;
      kafka = ready_text kafka_ready;
      timestamp = now;
    };
  })

-- ===== src/World.antt =====
-- What the handlers share and change: the database, the messages sent to Kafka, the fault switches,
-- the fields of the consumer that runs, and what the environment does.
use event_driven_kafka.Base.{ℕ, String, Bool, true, false, ◌==◌, List, [], Option, none, some}
use event_driven_kafka.Json.{Json, num, str}
use event_driven_kafka.Chaos.{ChaosConfig, default_chaos_config}
use event_driven_kafka.Database.{Db, empty_db}
use event_driven_kafka.Database.EventStore.{EventRow}

-- `Error`
pub record Error : Type 0 where
  pub message : String
  pub stack : Option String

-- The value of a message: text that JSON.parse accepts, given by what it parses to, or any other.
pub data Value : Type 0 where
  json : Json → Value
  text : String → Value

pub record Message : Type 0 where
  pub topic : String
  pub key : String
  pub value : Value
  pub headers : List (String × String)

-- A message to the clients of the realtime gateway.
pub record Broadcast : Type 0 where
  pub event : String
  pub room : Option String
  pub content : Json

-- What becomes of a call of the database or of Kafka: it takes effect, it is refused, or it takes
-- effect and the caller sees an error all the same (a lost acknowledgement).
pub data Outcome : Type 0 where
  done : Outcome
  refused : Error → Outcome
  unacknowledged : Error → Outcome

-- Library functions that are not part of the program. `uuid n` and `random n` are the n-th draws.
pub record Env : Type 0 where
  pub uuid : ℕ → String
  pub random : ℕ → ℕ → ℕ  -- Math.floor(Math.random() * bound)
  pub iso : ℕ → String  -- Date.prototype.toISOString
  pub is_datetime : String → Bool  -- z.string().datetime()
  pub stringify : Json → String  -- the text of a message whose value is JSON
  pub number : Json → ℕ  -- Number(v) || 0
  pub includes : String → String → Bool  -- String.prototype.includes
  pub pg_text : Json → Option String  -- a parameter of a query as text, `none` for NULL
  pub pg_int : Json → Option ℕ  -- a parameter as INT, `none` where it is none
  pub stored_time : String → String  -- a text, stored as TIMESTAMP and read by toISOString
  pub fits_columns : EventRow → Bool  -- whether event_store's columns take the row's values
  pub sql_error : Error  -- the error of a statement that a constraint or a cast stops
  pub parse_error : String → Error  -- the SyntaxError of JSON.parse
  pub schema_error : Json → Error  -- the ZodError, or the TypeError of a write to no object

pub data ConsumerHealth : Type 0 where
  healthy degraded down : ConsumerHealth

-- The fields of BaseConsumer that its handler reads and writes.
pub record Consumer : Type 0 where
  pub consumer_name : String
  pub max_retries : ℕ
  pub base_backoff_ms : ℕ
  pub jitter_ms : ℕ
  pub status : ConsumerHealth
  pub last_event_timestamp : Option String
  pub last_processed_timestamp : Option String
  pub processed_count : ℕ
  pub failure_count : ℕ

-- A consumer as the constructor and the field initialisers leave it.
abbrev pub new_consumer : String → Consumer
new_consumer name = record {
  consumer_name = name;
  max_retries = 3;
  base_backoff_ms = 500;
  jitter_ms = 200;
  status = down;
  last_event_timestamp = none;
  last_processed_timestamp = none;
  processed_count = 0;
  failure_count = 0;
}

-- `outcomes` holds what becomes of the next calls; calls past its end succeed. `drawn` counts the
-- random draws. The clock stands still but for the waits that the code makes.
pub record World : Type 0 where
  pub db : Db
  pub kafka : List Message
  pub broadcasts : List Broadcast
  pub outcomes : List Outcome
  pub env : Env
  pub drawn : ℕ
  pub clock : ℕ
  pub chaos : ChaosConfig
  pub consumer : Consumer

abbrev plain_text : Json → Option String
plain_text (str s) = some s
plain_text _ = none

abbrev plain_int : Json → Option ℕ
plain_int (num n) = some n
plain_int _ = none

abbrev plain_number : Json → ℕ
plain_number (num n) = n
plain_number _ = 0

-- A concrete environment, for tests.
abbrev pub plain_env : Env
plain_env = record {
  uuid = λ n. "0123456789abcdef";
  random = λ n bound. 0;
  iso = λ n. "2026-01-01T00:00:00.000Z";
  is_datetime = λ s. false;
  stringify = λ j. "{}";
  number = plain_number;
  includes = λ s t. s == t;
  pg_text = plain_text;
  pg_int = plain_int;
  stored_time = λ s. s;
  fits_columns = λ r. true;
  sql_error = record { message = "violates a constraint"; stack = none };
  parse_error = λ s. record { message = "Unexpected token"; stack = none };
  schema_error = λ j. record { message = "Invalid input"; stack = none };
}

abbrev pub plain_world : String → List Outcome → World
plain_world name outcomes = record {
  db = empty_db;
  kafka = [];
  broadcasts = [];
  outcomes = outcomes;
  env = plain_env;
  drawn = 0;
  clock = 1000;
  chaos = default_chaos_config;
  consumer = new_consumer name;
}

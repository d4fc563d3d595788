-- ===== src/Database/EventStore.antt =====
-- src/services/database.ts, the table event_store, where each event of an aggregate has its number, and
-- the table order_events. The serial ids are left out, which no statement of the program reads, and
-- so is created_at of event_store. An event's occurred_at is the text that was given.
pub mod Log
use event_driven_kafka.Base.{
  ℕ, zero, suc, ◌+◌, String, Bool, true, false, ◌&&◌, List, [], ◌∷◌, ◌++◌, map, Option, none, some,
  ◌==◌, ◌=?◌, leb, any, where_rows, if◌then◌else◌,
}
use event_driven_kafka.Base.Sorted.{sort_rows}
use event_driven_kafka.Json.{Fields, wire_fields}
use event_driven_kafka.Contracts.{EventType, event_type_name, EventEnvelope}

pub record EventRow : Type 0 where
  pub event_id : String
  pub aggregate_id : String
  pub aggregate_type : String
  pub event_type : EventType
  pub event_version : ℕ
  pub sequence_number : ℕ
  pub payload : Fields
  pub correlation_id : String
  pub causation_id : String
  pub producer : String
  pub occurred_at : String

abbrev max_of : ℕ → ℕ → ℕ
max_of a b = if leb a b then b else a

-- SELECT COALESCE(MAX(sequence_number), 0) FROM event_store WHERE aggregate_id = $2
unfoldable pub last_sequence : String → List EventRow → ℕ
last_sequence a [] = 0
last_sequence a (r ∷ rows) =
    let rest = last_sequence a rows in
    if r.aggregate_id == a then max_of r.sequence_number rest else rest

-- COALESCE($6, …), where `event.sequence_number || null` is $6.
abbrev pub sequence_for : Option ℕ → String → List EventRow → ℕ
sequence_for none a rows = last_sequence a rows + 1
sequence_for (some zero) a rows = last_sequence a rows + 1
sequence_for (some (suc n)) a rows = suc n

abbrev pub event_row : EventEnvelope → ℕ → EventRow
event_row e n = record {
  event_id = e.event_id;
  aggregate_id = e.aggregate_id;
  aggregate_type = e.aggregate_type;
  event_type = e.event_type;
  event_version = e.event_version;
  sequence_number = n;
  payload = wire_fields e.payload;
  correlation_id = e.correlation_id;
  causation_id = e.causation_id;
  producer = e.producer;
  occurred_at = e.occurred_at;
}

-- CONSTRAINT uq_event_store_aggregate_seq
abbrev pub same_sequence : EventRow → EventRow → Bool
same_sequence r s = r.aggregate_id == s.aggregate_id && r.sequence_number =? s.sequence_number

abbrev pub has_event : String → List EventRow → Bool
has_event id rows = any (λ r. r.event_id == id) rows

abbrev insert_row : EventRow → List EventRow → Option (List EventRow)
insert_row new rows = if any (same_sequence new) rows then none else some (rows ++ new ∷ [])

-- ON CONFLICT (event_id) DO NOTHING; `none` where the other constraint is violated.
unfoldable pub insert_event : EventEnvelope → List EventRow → Option (List EventRow)
insert_event e rows =
    if has_event e.event_id rows
    then some rows
    else insert_row (event_row e (sequence_for e.sequence_number e.aggregate_id rows)) rows

-- INSERT …, which is refused where PostgreSQL cannot cast the values to the columns' types: INT,
-- TIMESTAMP, VARCHAR(100). `fits` says whether it can; a known id does not save the cast.
unfoldable pub append_to_event_store :
    (EventRow → Bool) → EventEnvelope → List EventRow → Option (List EventRow)
append_to_event_store fits e rows =
    if fits (event_row e (sequence_for e.sequence_number e.aggregate_id rows))
    then insert_event e rows
    else none

abbrev pub of_aggregate : String → List EventRow → List EventRow
of_aggregate a rows = where_rows (λ r. r.aggregate_id == a) rows

-- ORDER BY sequence_number ASC, occurred_at ASC; two events of one aggregate never have the same
-- number, so the second key decides nothing.
abbrev pub earlier : EventRow → EventRow → Bool
earlier r s = leb r.sequence_number s.sequence_number

module _ (stored_time : String → String) where
  -- A row as an envelope; `stored_time` is what `new Date(r.occurred_at).toISOString()` gives.
  abbrev pub envelope_of_row : EventRow → EventEnvelope
  envelope_of_row r = record {
    event_id = r.event_id;
    event_type = r.event_type;
    event_version = r.event_version;
    sequence_number = some r.sequence_number;
    aggregate_id = r.aggregate_id;
    aggregate_type = r.aggregate_type;
    occurred_at = stored_time r.occurred_at;
    producer = r.producer;
    correlation_id = r.correlation_id;
    causation_id = r.causation_id;
    schema_version = 1;
    payload = r.payload;
  }

  unfoldable pub get_events_by_aggregate_id : String → List EventRow → List EventEnvelope
  get_events_by_aggregate_id a rows = map envelope_of_row (sort_rows earlier (of_aggregate a rows))

-- order_events, in the order of insertion.
pub record OrderEventRow : Type 0 where
  pub order_id : String
  pub event_type : EventType
  pub topic : String
  pub created_at : ℕ

unfoldable pub record_event :
    String → EventType → String → ℕ → List OrderEventRow → List OrderEventRow
record_event order_id event_type topic now rows =
    rows
    ++ record { order_id = order_id; event_type = event_type; topic = topic; created_at = now } ∷ []

pub record OrderEvent : Type 0 where
  pub event_type : EventType
  pub topic : String
  pub timestamp : String

-- The two queries of getOrderEvents.
abbrev pub timeline_of_store : (String → String) → List EventRow → List OrderEvent
timeline_of_store stored_time rows =
    map
      (λ r. record {
        event_type = r.event_type;
        topic = r.producer;
        timestamp = stored_time r.occurred_at;
      })
      rows

abbrev pub recorded_earlier : OrderEventRow → OrderEventRow → Bool
recorded_earlier r s = leb r.created_at s.created_at

abbrev pub timeline_of_events : (ℕ → String) → List OrderEventRow → List OrderEvent
timeline_of_events iso rows =
    map (λ r. record { event_type = r.event_type; topic = r.topic; timestamp = iso r.created_at })
      rows

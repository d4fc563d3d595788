-- ===== src/Database/Processed.antt =====
-- src/services/database.ts, the table processed_events: which consumer has handled which event. The
-- columns id and attempts, which no statement of the program reads or changes, are left out.
use event_driven_kafka.Base.{
  ℕ, String, Bool, true, false, ◌&&◌, List, Option, none, some, ◌==◌, any, if◌then◌else◌,
}
use event_driven_kafka.Base.Table.{upsert, delete_where}

pub data ProcessedStatus : Type 0 where
  processed failed : ProcessedStatus

abbrev pub is_done : ProcessedStatus → Bool
is_done processed = true
is_done failed = false

pub record ProcessedRow : Type 0 where
  pub event_id : String
  pub consumer_name : String
  pub status : ProcessedStatus
  pub error : Option String
  pub processed_at : ℕ

-- `value || null`
abbrev pub or_null : Option String → Option String
or_null none = none
or_null (some s) = if s == "" then none else some s

unfoldable pub is_event_processed : String → String → List ProcessedRow → Bool
is_event_processed event_id consumer rows =
    any (λ r. r.event_id == event_id && r.consumer_name == consumer && is_done r.status) rows

-- `if (consumerName)`: an empty name counts as none.
unfoldable pub reset_processed_event_for_replay :
    String → Option String → List ProcessedRow → List ProcessedRow
reset_processed_event_for_replay event_id consumer rows = elim (or_null consumer) [
  | none ↦ delete_where (λ r. r.event_id == event_id) rows
  | some c ↦ delete_where (λ r. r.event_id == event_id && r.consumer_name == c) rows
]

unfoldable pub get_processed_event : String → List ProcessedRow → Bool
get_processed_event event_id rows = any (λ r. r.event_id == event_id && is_done r.status) rows

abbrev pub same_event_consumer : ProcessedRow → ProcessedRow → Bool
same_event_consumer r s = r.event_id == s.event_id && r.consumer_name == s.consumer_name

abbrev pub take_excluded : ProcessedRow → ProcessedRow → ProcessedRow
take_excluded r new = record r {
  status = new.status;
  error = new.error;
  processed_at = new.processed_at;
}

unfoldable pub mark_event_processed :
    String → String → ProcessedStatus → Option String → ℕ → List ProcessedRow → List ProcessedRow
mark_event_processed event_id consumer status error now rows =
    upsert same_event_consumer take_excluded
      (record {
        event_id = event_id;
        consumer_name = consumer;
        status = status;
        error = or_null error;
        processed_at = now;
      })
      rows

unfoldable pub mark_processed : String → ℕ → List ProcessedRow → List ProcessedRow
unfolding mark_event_processed
mark_processed event_id now rows =
    mark_event_processed event_id "default-consumer" processed none now rows

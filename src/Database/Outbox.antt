-- ===== src/Database/Outbox.antt =====
-- src/services/database.ts, the tables outbox_events and dlq_outbox: their own columns, and their
-- statements, which are those of Leases.antt. A number that is `undefined` is `none`.
use event_driven_kafka.Base.{ℕ, String, Bool, List, Option}
use event_driven_kafka.Json.{Fields}
use event_driven_kafka.Contracts.{EventType, number_or}
use event_driven_kafka.Database.Leases.{Leased, insert_pending, claim, mark_published, mark_failed}

pub record OutboxEvent : Type 0 where
  pub aggregate_id : String
  pub aggregate_type : String
  pub event_type : EventType
  pub event_version : ℕ
  pub payload : Fields
  pub correlation_id : String
  pub causation_id : String
  pub topic : String

abbrev pub OutboxRow : Type 0
OutboxRow = Leased OutboxEvent

pub record DlqOutboxEvent : Type 0 where
  pub dlq_id : String
  pub topic : String
  pub payload : Fields

abbrev pub DlqOutboxRow : Type 0
DlqOutboxRow = Leased DlqOutboxEvent

-- `event.eventVersion || 1`
unfoldable pub insert_outbox_event :
    String → OutboxEvent → Option ℕ → ℕ → List OutboxRow → List OutboxRow
insert_outbox_event id event version now rows =
    insert_pending id (record event { event_version = number_or version 1 }) now rows

unfoldable pub get_pending_outbox_events :
    ℕ → String → ℕ → ℕ → List OutboxRow → List OutboxRow × List OutboxRow
get_pending_outbox_events limit worker seconds now rows = claim limit worker seconds now rows

unfoldable pub mark_outbox_event_published :
    String → Option String → ℕ → List OutboxRow → Bool × List OutboxRow
mark_outbox_event_published id worker now rows = mark_published id worker now rows

unfoldable pub mark_outbox_event_failed :
    String → String → Option String → List OutboxRow → Bool × List OutboxRow
mark_outbox_event_failed id error worker rows = mark_failed id error worker rows

unfoldable pub insert_dlq_outbox_event :
    String → DlqOutboxEvent → ℕ → List DlqOutboxRow → List DlqOutboxRow
insert_dlq_outbox_event id event now rows = insert_pending id event now rows

unfoldable pub get_pending_dlq_outbox_events :
    ℕ → String → ℕ → ℕ → List DlqOutboxRow → List DlqOutboxRow × List DlqOutboxRow
get_pending_dlq_outbox_events limit worker seconds now rows = claim limit worker seconds now rows

unfoldable pub mark_dlq_outbox_published :
    String → Option String → ℕ → List DlqOutboxRow → Bool × List DlqOutboxRow
mark_dlq_outbox_published id worker now rows = mark_published id worker now rows

unfoldable pub mark_dlq_outbox_failed :
    String → String → Option String → List DlqOutboxRow → Bool × List DlqOutboxRow
mark_dlq_outbox_failed id error worker rows = mark_failed id error worker rows

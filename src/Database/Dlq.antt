-- ===== src/Database/Dlq.antt =====
-- src/services/database.ts, the table dlq_messages: events that a consumer gave up on.
pub mod Listing
use event_driven_kafka.Base.{
  ℕ, ◌+◌, String, Bool, true, false, List, [], ◌∷◌, Option, none, some, ◌==◌, leb, find?, take,
  where_rows, if◌then◌else◌,
}
use event_driven_kafka.Base.Table.{update_where, upsert}
use event_driven_kafka.Json.{Fields}
use event_driven_kafka.Database.Processed.{or_null}

pub data DlqStatus : Type 0 where
  unresolved replaying replayed discarded : DlqStatus

abbrev pub same_status : DlqStatus → DlqStatus → Bool
same_status unresolved unresolved = true
same_status replaying replaying = true
same_status replayed replayed = true
same_status discarded discarded = true
same_status _ _ = false

-- The argument of recordDLQMessage.
pub record DlqMessage : Type 0 where
  pub id : String
  pub event_id : String
  pub topic : String
  pub partition : ℕ
  pub offset : String
  pub consumer_name : String
  pub error_message : String
  pub stack_trace : Option String
  pub payload : Fields
  pub correlation_id : Option String

pub record DlqRow : Type 0 where
  pub message : DlqMessage
  pub attempts : ℕ
  pub status : DlqStatus
  pub failed_at : ℕ
  pub resolved_at : Option ℕ

abbrev pub same_dlq : DlqRow → DlqRow → Bool
same_dlq r s = r.message.id == s.message.id

abbrev pub record_again : DlqRow → DlqRow → DlqRow
record_again r new = record r {
  message = record r.message { error_message = new.message.error_message };
  attempts = r.attempts + 1;
  failed_at = new.failed_at;
}

abbrev pub dlq_row : DlqMessage → ℕ → DlqRow
dlq_row m now = record {
  message = record m {
    stack_trace = or_null m.stack_trace;
    correlation_id = or_null m.correlation_id;
  };
  attempts = 1;
  status = unresolved;
  failed_at = now;
  resolved_at = none;
}

unfoldable pub record_dlq_message : DlqMessage → ℕ → List DlqRow → List DlqRow
record_dlq_message m now rows = upsert same_dlq record_again (dlq_row m now) rows

abbrev pub resolves : DlqStatus → Bool
resolves replayed = true
resolves discarded = true
resolves _ = false

unfoldable pub set_dlq_status : String → DlqStatus → ℕ → List DlqRow → List DlqRow
set_dlq_status id status now rows =
    update_where (λ r. r.message.id == id)
      (λ r. record r {
        status = status;
        resolved_at = if resolves status then some now else r.resolved_at;
      })
      rows

insert_latest_first : DlqRow → List DlqRow → List DlqRow
insert_latest_first r [] = r ∷ []
insert_latest_first r (s ∷ rows) =
    if leb s.failed_at r.failed_at then r ∷ s ∷ rows else s ∷ insert_latest_first r rows

latest_first : List DlqRow → List DlqRow
unfolding insert_latest_first
latest_first [] = []
latest_first (r ∷ rows) = insert_latest_first r (latest_first rows)

unfoldable pub list_dlq_messages : ℕ → DlqStatus → List DlqRow → List DlqRow
unfolding latest_first
list_dlq_messages limit status rows =
    take limit (latest_first (where_rows (λ r. same_status r.status status) rows))

unfoldable pub get_dlq_message : String → List DlqRow → Option DlqRow
get_dlq_message id rows = find? (λ r. r.message.id == id) rows

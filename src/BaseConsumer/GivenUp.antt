-- ===== src/BaseConsumer/GivenUp.antt =====
-- src/consumers/base-consumer.ts, handleExhaustedRetriesDLQ: what becomes of an event that a consumer
-- gives up on when no call fails.
use event_driven_kafka.Base.{ℕ, [], ◌∷◌, ◌++◌, some, ◌≡◌, refl, sym, subst}
use event_driven_kafka.Contracts.{EventEnvelope}
use event_driven_kafka.Contracts.Topics
use event_driven_kafka.Database.Processed.{failed, mark_event_processed}
use event_driven_kafka.Database.Dlq.{DlqMessage, record_dlq_message}
use event_driven_kafka.World.{World, Error, Message}
use event_driven_kafka.Exec.{
  Result, ok, ◌>>=◌, call, statement, with_transaction, send, short_id, try_catch,
}
use event_driven_kafka.BaseConsumer.{Delivery, store_exhausted, handle_exhausted_retries_dlq}

-- The event is recorded as FAILED, its dead letter is stored with the last error, and
-- one message goes to the DLQ topic.
pub record IsGivenUp (e : EventEnvelope) (x : Error) (w : World) (r : Result (Unit {0}) × World)
    : Type 0 where
  pub letter : DlqMessage
  pub announcement : Message
  pub succeeded : r.0 ≡ ok tt
  pub sent : r.1.kafka ≡ w.kafka ++ announcement ∷ []
  pub to_dlq : announcement.topic ≡ Topics.dlq
  pub of_event : letter.event_id ≡ e.event_id
  pub with_error : letter.error_message ≡ x.message
  pub stored : r.1.db.dlq_messages ≡ record_dlq_message letter w.clock w.db.dlq_messages
  pub marked :
      r.1.db.processed_events
      ≡ mark_event_processed e.event_id w.consumer.consumer_name failed
          (some x.message)
          w.clock
          w.db.processed_events

calm-IsGivenUp :
    (d : Delivery) (e : EventEnvelope) (x : Error) (attempts : ℕ) (w : World)
    → IsGivenUp e x w (handle_exhausted_retries_dlq d e x attempts (record w { outcomes = [] }))
unfolding handle_exhausted_retries_dlq store_exhausted with_transaction short_id call statement send
    try_catch ◌>>=◌
calm-IsGivenUp d e x attempts w = record {
  letter = _;
  announcement = _;
  succeeded = refl;
  sent = refl;
  to_dlq = refl;
  of_event = refl;
  with_error = refl;
  stored = refl;
  marked = refl;
}

-- When a consumer gives up on an event and no call fails, the event is marked FAILED for this
-- consumer, its dead letter with the last error is stored, and one message goes to the DLQ topic.
pub handle_exhausted_retries_dlq-IsGivenUp :
    (d : Delivery) (e : EventEnvelope) (x : Error) (attempts : ℕ) (w : World)
    → w.outcomes ≡ []
    → IsGivenUp e x w (handle_exhausted_retries_dlq d e x attempts w)
handle_exhausted_retries_dlq-IsGivenUp d e x attempts w o =
    subst
      (λ os.
        IsGivenUp e x w (handle_exhausted_retries_dlq d e x attempts (record w { outcomes = os })))
      (sym o) (calm-IsGivenUp d e x attempts w)

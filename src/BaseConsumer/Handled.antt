-- ===== src/BaseConsumer/Handled.antt =====
-- src/consumers/base-consumer.ts, handleMessage: an event that is new and whose processing succeeds, when
-- no call fails.
use event_driven_kafka.Base.{
  ℕ, suc, String, List, true, false, [], ◌∷◌, ◌==◌, Bool-cases, eq_refl, inl, inr, none, some, ◌≡◌,
  refl, ap, ◌∙◌,
}
use event_driven_kafka.Contracts.{EventEnvelope}
use event_driven_kafka.Database.Processed.{
  ProcessedRow, processed, is_event_processed, mark_event_processed,
}
use event_driven_kafka.World.{World}
use event_driven_kafka.Exec.{ok, Exec, continue, ◌>>=◌, call, query, statement, try_catch}
use event_driven_kafka.BaseConsumer.{
  Delivery, update, read_envelope, succeed, returned, attempt_once, turn, retry, conclude,
  handle_envelope, after_reading, handle_message,
}

abbrev calm : World → World
calm w = record w { outcomes = [] }

-- The world in which the handler reads the message.
abbrev pub seen : World → World
seen w = record (calm w) {
  consumer = record w.consumer { last_event_timestamp = some (w.env.iso w.clock) };
}

-- After a success: the event's mark, and the consumer's counters.
abbrev pub settled : EventEnvelope → World → World
settled e u = record (calm u) {
  db = record u.db {
    processed_events =
        mark_event_processed e.event_id u.consumer.consumer_name processed none u.clock
          u.db.processed_events;
  };
  consumer = succeed (u.env.iso u.clock) u.consumer;
}

-- An event that was marked is a handled one.
pub marked_processed :
    (event_id consumer : String) (now : ℕ) (rows : List ProcessedRow)
    → is_event_processed event_id consumer
        (mark_event_processed event_id consumer processed none now rows)
      ≡ true
unfolding is_event_processed mark_event_processed
marked_processed event_id consumer now [] = rw (eq_refl event_id) (rw (eq_refl consumer) refl)
marked_processed event_id consumer now (r ∷ rows) =
    let rest = marked_processed event_id consumer now rows in
    elim (Bool-cases (r.event_id == event_id)) [
      | inl e ↦ elim (Bool-cases (r.consumer_name == consumer)) [
        | inl c ↦ rw e (rw c (rw e (rw c refl)))
        | inr c ↦ rw e (rw c (rw e (rw c rest)))
      ]
      | inr e ↦ rw e (rw e rest)
    ]

module _ (process : EventEnvelope → Exec (Unit {0})) (d : Delivery) (e : EventEnvelope)
    (w u : World) (done : process e (seen w) ≡ (ok tt, calm u)) where
  first_attempt : (n : ℕ) → retry process e 0 (suc n) none (seen w) ≡ (ok returned, settled e u)
  unfolding retry turn try_catch attempt_once update statement call ◌>>=◌
  first_attempt n = rw done refl

  pub handle_message-settled :
      (n : ℕ)
      → read_envelope d.value (seen w) ≡ (ok e, seen w)
      → w.consumer.max_retries ≡ suc n
      → is_event_processed e.event_id w.consumer.consumer_name w.db.processed_events ≡ false
      → handle_message process d (calm w) ≡ (ok tt, settled e u)
  unfolding handle_message handle_envelope query call ◌>>=◌
  handle_message-settled n read most new =
      ap (λ r. after_reading process d r.0 r.1) read
      ∙ rw new (
          ap (λ k. (retry process e 0 k none >>= conclude process d e) (seen w)) most
          ∙ ap (λ r. continue r.0 (conclude process d e) r.1) (first_attempt n))

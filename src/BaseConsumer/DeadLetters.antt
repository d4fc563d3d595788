-- ===== src/BaseConsumer/DeadLetters.antt =====
-- src/consumers/base-consumer.ts, the dead letters: the transaction that stores one, and the state of
-- its row in dlq_outbox.
use event_driven_kafka.Base.{ℕ, String, ◌<>◌, List, some, ◌≡◌, refl, ap, ◌+◌, ◌⊎◌, inl, inr}
use event_driven_kafka.Contracts.{EventEnvelope}
use event_driven_kafka.Contracts.Topics
use event_driven_kafka.Database.{Db}
use event_driven_kafka.Database.Outbox.{insert_dlq_outbox_event, mark_dlq_outbox_published}
use event_driven_kafka.Database.Processed.{failed, mark_event_processed}
use event_driven_kafka.Database.Dlq.{DlqMessage, record_dlq_message}
use event_driven_kafka.World.{World, Error, Message}
use event_driven_kafka.Exec.{Result, ok, err, pure, ◌>>=◌, ◌>>◌, short_id, try_catch}
use event_driven_kafka.Exec.Rules.{
  Cond, Ensures, Ensures-pure, Ensures-bind, Ensures-statement, Ensures-transaction, Ensures-send,
  Ensures-try_catch,
}
use event_driven_kafka.BaseConsumer.{
  Delivery, insert_dead_letter, insert_dead_letter_outbox, mark_event, announce, store_exhausted,
  handle_exhausted_retries_dlq,
}

-- What storing a dead letter makes of the database: its row in dlq_messages, the event's FAILED mark
-- and its row in dlq_outbox.
abbrev pub with_dead_letter : EventEnvelope → String → Error → DlqMessage → ℕ → ℕ → ℕ → Db → Db
with_dead_letter e name x m t₁ t₂ t₃ before = record before {
  dlq_messages = record_dlq_message m t₁ before.dlq_messages;
  processed_events =
      mark_event_processed e.event_id name failed (some x.message) t₂ before.processed_events;
  dlq_outbox =
      insert_dlq_outbox_event ("outbox_" <> m.id)
        (record { dlq_id = m.id; topic = Topics.dlq; payload = m.payload }) t₃ before.dlq_outbox;
}

-- The dead letter of an event is stored; the outbox row's mark may have been attempted since.
pub data Routed (e : EventEnvelope) (name : String) (x : Error) (before : Db) : Db → Type 0 where
  stored :
      (m : DlqMessage) (t₁ t₂ t₃ : ℕ)
      → m.event_id ≡ e.event_id
      → Routed e name x before (with_dead_letter e name x m t₁ t₂ t₃ before)
  attempted :
      (m : DlqMessage) (t : ℕ) (after : Db)
      → Routed e name x before after
      → Routed e name x before (record after {
        dlq_outbox =
            (mark_dlq_outbox_published ("outbox_" <> m.id) (some name) t after.dlq_outbox).1;
      })

module _ (e : EventEnvelope) (name : String) (x : Error) (before : Db) (sent : List Message) where
  abbrev Before : Cond
  Before d k = (d ≡ before) × (k ≡ sent)

  abbrev AllOrNothing : Cond
  AllOrNothing d k = Before d k ⊎ Routed e name x before d

  module _ (m : DlqMessage) (same_event : m.event_id ≡ e.event_id) where
    abbrev after_one : ℕ → Db
    after_one t = record before { dlq_messages = record_dlq_message m t before.dlq_messages }

    abbrev after_two : ℕ → ℕ → Db
    after_two t₁ t₂ = record (after_one t₁) {
      processed_events =
          mark_event_processed e.event_id name failed (some x.message) t₂ before.processed_events;
    }

    abbrev One : Result (Unit {0}) → Cond
    One (ok u) d k = ((t₁ : ℕ) × (d ≡ after_one t₁)) × (k ≡ sent)
    One (err y) d k = k ≡ sent

    abbrev Two : Result (Unit {0}) → Cond
    Two (ok u) d k = ((t₁ : ℕ) × (t₂ : ℕ) × (d ≡ after_two t₁ t₂)) × (k ≡ sent)
    Two (err y) d k = k ≡ sent

    abbrev Three : Result (Unit {0}) → Cond
    Three (ok u) d k = Routed e name x before d × (k ≡ sent)
    Three (err y) d k = k ≡ sent

    abbrev Stored : Result (Unit {0}) → Cond
    Stored (ok u) d k = Routed e name x before d
    Stored (err y) d k = AllOrNothing d k

    stored-subst :
        (t₁ t₂ t₃ : ℕ) (d : Db)
        → d ≡ after_two t₁ t₂
        → Routed e name x before (record d {
          dlq_outbox =
              insert_dlq_outbox_event
                ("outbox_" <> m.id)
                (record { dlq_id = m.id; topic = Topics.dlq; payload = m.payload })
                t₃
                d.dlq_outbox;
        })
    stored-subst t₁ t₂ t₃ d p = rw p (stored m t₁ t₂ t₃ same_event)

    written : Ensures Before (insert_dead_letter m) One
    written =
        Ensures-statement _
          (λ now d k p. (
            (
              now,
              ap (λ (d : Db). record d { dlq_messages = record_dlq_message m now d.dlq_messages })
                  p.0,
            ),
            p.1,
          ))
          (λ y d k p. p.1) (λ y now d k p. p.1)

    marked : Ensures (One (ok tt)) (mark_event e name (some x)) Two
    marked =
        Ensures-statement _
          (λ now d k p. (
            (
              p.0.0,
              now,
              ap
                  (λ (d : Db). record d {
                    processed_events =
                        mark_event_processed e.event_id name failed (some x.message) now
                          d.processed_events;
                  })
                  p.0.1,
            ),
            p.1,
          ))
          (λ y d k p. p.1) (λ y now d k p. p.1)

    queued : Ensures (Two (ok tt)) (insert_dead_letter_outbox m) Three
    queued =
        Ensures-statement _ (λ now d k p. (stored-subst p.0.0 p.0.1 now d p.0.2, p.1))
          (λ y d k p. p.1) (λ y now d k p. p.1)

    store_exhausted-Stored : Ensures Before (store_exhausted e name x m) Stored
    unfolding store_exhausted
    store_exhausted-Stored =
        Ensures-transaction _ Three
          (Ensures-bind _ _ One written
            (λ u. Ensures-bind _ _ Two marked (λ u. queued) (λ y d k p. p)) (λ y d k p. p))
          (λ u d k p. p.0) (λ y u d k p. inr p.0) (λ y d k p. inl p)
          (λ y r d d' k k' p q. inl (p.0, kept r d' k' q))
      where
        kept : (r : Result (Unit {0})) (d : Db) (k : List Message) → Three r d k → k ≡ sent
        kept (ok u) d k p = p.1
        kept (err y) d k p = p

    announce-Routed :
        (message : Message)
        → Ensures
            (λ d k. Routed e name x before d)
            (announce m name message)
            (λ r d k. Routed e name x before d)
    announce-Routed message =
        Ensures-bind _ _ (λ r d k. Routed e name x before d)
          (Ensures-send message (λ d k p. p) (λ y d k p. p) (λ y d k p. p))
          (λ u.
            Ensures-statement _ (λ now d k p. attempted m now d p) (λ y d k p. p)
              (λ y now d k p. attempted m now d p))
          (λ y d k p. p)

    routing-AllOrNothing :
        (message : Message)
        → Ensures Before
            (try_catch (store_exhausted e name x m >> announce m name message) (λ y. pure tt))
            (λ r. AllOrNothing)
    routing-AllOrNothing message =
        Ensures-try_catch _ _ (λ r. AllOrNothing)
          (Ensures-bind _ _ Stored store_exhausted-Stored
            (λ u. record { at = λ w p. inr ((announce-Routed message).at w p) }) (λ y d k p. p))
          (λ u d k p. p) (λ y. Ensures-pure tt (λ d k p. p))

-- When the retries are exhausted, and whatever calls fail, either nothing is changed and nothing is
-- sent, or the event's dead letter, its FAILED mark and its row in dlq_outbox are stored together:
-- the transaction leaves no part of the three, and the message to the DLQ is sent only after it.
pub dead_letter_atomic :
    (d : Delivery) (e : EventEnvelope) (x : Error) (attempts : ℕ) (w : World)
    → let r = handle_exhausted_retries_dlq d e x attempts w in
      ((r.1.db ≡ w.db) × (r.1.kafka ≡ w.kafka)) ⊎ Routed e w.consumer.consumer_name x w.db r.1.db
unfolding handle_exhausted_retries_dlq short_id ◌>>=◌
dead_letter_atomic d e x attempts w =
    (routing-AllOrNothing e w.consumer.consumer_name x w.db w.kafka _ refl _).at
      (record w { drawn = w.drawn + 1 }) (refl, refl)

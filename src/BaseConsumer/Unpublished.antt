-- ===== src/BaseConsumer/Unpublished.antt =====
-- src/consumers/base-consumer.ts and src/services/database.ts: the marks of the rows in dlq_outbox.
use event_driven_kafka.Base.{ℕ, ◌+◌, String, List, Option, some, ◌≡◌, refl, arith, All}
use event_driven_kafka.Base.Table.{All-update_where, All-upsert}
use event_driven_kafka.Contracts.{EventEnvelope}
use event_driven_kafka.Database.Leases.{
  pending, insert_pending, mark_published, is_held, set_published, new_row, same_id, keep_old,
}
use event_driven_kafka.Database.Outbox.{
  DlqOutboxRow, DlqOutboxEvent, insert_dlq_outbox_event, mark_dlq_outbox_published,
}
use event_driven_kafka.Database.Dlq.{DlqMessage}
use event_driven_kafka.World.{World, Error, Message}
use event_driven_kafka.Exec.{Result, Exec, pure, ◌>>=◌, ◌>>◌, with_transaction, short_id, try_catch}
use event_driven_kafka.Exec.Rules.{
  Cond, Ensures, Ensures-pure, Ensures-bind, Ensures-statement, Ensures-transaction, Ensures-send,
  Ensures-try_catch,
}
use event_driven_kafka.BaseConsumer.{
  Delivery, insert_dead_letter, insert_dead_letter_outbox, mark_event, announce, store_exhausted,
  store_non_retryable, handle_exhausted_retries_dlq, handle_non_retryable_dlq,
}

abbrev pub AllPending : List DlqOutboxRow → Type 0
AllPending rows = All (λ r. r.status ≡ pending) rows

insert-AllPending :
    (id : String) (c : DlqOutboxEvent) (now : ℕ) (rows : List DlqOutboxRow)
    → AllPending rows
    → AllPending (insert_dlq_outbox_event id c now rows)
unfolding insert_dlq_outbox_event insert_pending
insert-AllPending id c now rows h =
    All-upsert (λ r. r.status ≡ pending) same_id keep_old (new_row id c now) (λ r e p. p) refl rows
      h

-- The mark takes only a row in PROCESSING.
mark-AllPending :
    (id : String) (worker : Option String) (now : ℕ) (rows : List DlqOutboxRow)
    → AllPending rows
    → AllPending (mark_dlq_outbox_published id worker now rows).1
unfolding mark_dlq_outbox_published mark_published
mark-AllPending id worker now rows h =
    All-update_where (λ r. r.status ≡ pending) (is_held id worker) (set_published now)
      (λ r e p. absurd (ground (arith, p, e))) rows h

abbrev Pending : Cond
Pending d k = AllPending d.dlq_outbox

abbrev Kept : {A : Type 0} → Result A → Cond
Kept r = Pending

insert_dead_letter-Pending : (m : DlqMessage) → Ensures Pending (insert_dead_letter m) Kept
insert_dead_letter-Pending m =
    Ensures-statement _ (λ now d k p. p) (λ y d k p. p) (λ y now d k p. p)

insert_dead_letter_outbox-Pending :
    (m : DlqMessage) → Ensures Pending (insert_dead_letter_outbox m) Kept
insert_dead_letter_outbox-Pending m =
    Ensures-statement _ (λ now d k p. insert-AllPending _ _ now _ p) (λ y d k p. p)
      (λ y now d k p. insert-AllPending _ _ now _ p)

mark_event-Pending :
    (e : EventEnvelope) (name : String) (x : Error)
    → Ensures Pending (mark_event e name (some x)) Kept
mark_event-Pending e name x = Ensures-statement _ (λ now d k p. p) (λ y d k p. p) (λ y now d k p. p)

announce-Pending :
    (m : DlqMessage) (name : String) (message : Message)
    → Ensures Pending (announce m name message) Kept
announce-Pending m name message =
    Ensures-bind _ _ Kept (Ensures-send message (λ d k p. p) (λ y d k p. p) (λ y d k p. p))
      (λ u.
        Ensures-statement _ (λ now d k p. mark-AllPending _ _ now _ p) (λ y d k p. p)
          (λ y now d k p. mark-AllPending _ _ now _ p))
      (λ y d k p. p)

then-Pending :
    (m n : Exec (Unit {0}))
    → Ensures Pending m Kept
    → Ensures Pending n Kept
    → Ensures Pending (m >> n) Kept
then-Pending m n hm hn = Ensures-bind _ _ Kept hm (λ u. hn) (λ y d k p. p)

transaction-Pending :
    (m : Exec (Unit {0})) → Ensures Pending m Kept → Ensures Pending (with_transaction m) Kept
transaction-Pending m h =
    Ensures-transaction m Kept h (λ u d k p. p) (λ y u d k p. p) (λ y d k p. p)
      (λ y r d d' k k' p q. p)

ignoring-Pending :
    (m : Exec (Unit {0}))
    → Ensures Pending m Kept
    → Ensures Pending (try_catch m (λ y. pure tt)) Kept
ignoring-Pending m h =
    Ensures-try_catch m _ Kept h (λ u d k p. p) (λ y. Ensures-pure tt (λ d k p. p))

exhausted-Pending :
    (e : EventEnvelope) (name : String) (x : Error) (m : DlqMessage) (message : Message)
    → Ensures Pending
        (try_catch (store_exhausted e name x m >> announce m name message) (λ y. pure tt))
        Kept
unfolding store_exhausted
exhausted-Pending e name x m message = ignoring-Pending _ (
    then-Pending _ _
      (transaction-Pending _ (
        then-Pending _ _ (insert_dead_letter-Pending m)
          (then-Pending _ _ (mark_event-Pending e name x) (insert_dead_letter_outbox-Pending m))))
      (announce-Pending m name message))

non_retryable-Pending :
    (name : String) (m : DlqMessage) (message : Message)
    → Ensures Pending
        (try_catch (store_non_retryable m >> announce m name message) (λ y. pure tt))
        Kept
unfolding store_non_retryable
non_retryable-Pending name m message = ignoring-Pending _ (
    then-Pending _ _
      (transaction-Pending _
        (then-Pending _ _ (insert_dead_letter-Pending m) (insert_dead_letter_outbox-Pending m)))
      (announce-Pending m name message))

-- While every row of dlq_outbox is PENDING, the two handlers of dead letters leave every row PENDING,
-- whatever calls fail: a row whose message Kafka has acknowledged is not marked PUBLISHED either.
pub dlq_outbox_stays_pending :
    (d : Delivery) (e : EventEnvelope) (x : Error) (attempts : ℕ) (w : World)
    → AllPending w.db.dlq_outbox
    → AllPending (handle_exhausted_retries_dlq d e x attempts w).1.db.dlq_outbox
      × AllPending (handle_non_retryable_dlq d x w).1.db.dlq_outbox
unfolding handle_exhausted_retries_dlq handle_non_retryable_dlq short_id ◌>>=◌
dlq_outbox_stays_pending d e x attempts w h =
    let w₁ : World = record w { drawn = w.drawn + 1 } in
    (
      (exhausted-Pending e w.consumer.consumer_name x _ _).at w₁ h,
      (non_retryable-Pending w.consumer.consumer_name _ _).at w₁ h,
    )

-- ===== src/System/Messages.antt =====
-- The handling of a message by any consumer: it keeps a condition that its processEvent keeps, on
-- every path of retries, duplicates and dead letters.
use event_driven_kafka.Base.{
  ℕ, zero, suc, ◌+◌, String, Bool, refl, Option, none, some, ◌≡◌, ◌≢◌, arith, eq_iff,
}
use event_driven_kafka.Json.{Json, undefined, str, obj, Fields, get, truthy}
use event_driven_kafka.Contracts.{EventEnvelope}
use event_driven_kafka.Contracts.Schema
use event_driven_kafka.Contracts.Schema.{
  validate_event_envelope, nonempty_text, positive_or_one, optional_positive, timestamp,
  object_fields,
}
use event_driven_kafka.Database.Dlq.{DlqMessage}
use event_driven_kafka.World.{World, Error, Value, json, text}
use event_driven_kafka.Exec.{Result, ok, err, Exec, pure, throw, gets, ◌>>=◌}
use event_driven_kafka.Exec.Rules.{
  Cond, Ensures, Ensures-pure, Ensures-bind, Ensures-throw, Ensures-fact,
}
use event_driven_kafka.BaseConsumer.{
  Delivery, caused, stamped, accept, read_envelope, insert_dead_letter, insert_dead_letter_outbox,
  mark_event, store_non_retryable, handle_non_retryable_dlq, store_exhausted,
  handle_exhausted_retries_dlq, Verdict, returned, exhausted, backoff, backoff_if_left,
  attempt_once, turn, retry, conclude, handle_envelope, after_reading, handle_message, succeed,
  give_up,
}
use event_driven_kafka.System.Frame.{
  Keeps, Grows, Fixed, IsBlind, Fixed-IsBlind, pure-Keeps, gets-Keeps, query-Keeps, statement-Keeps,
  if-Keeps, then-Keeps, sleep-Keeps, random_below-Keeps, short_id-Keeps, send-Keeps, update-Keeps,
  try-Keeps, transaction-Keeps,
}

-- The events that a consumer reads have an aggregate, for the schema asks for one.
nonempty_text-ne : (v : Json) {s : String} → nonempty_text v ≡ some s → s ≢ ""
nonempty_text-ne (str t) {s} h p = ground (arith, h, p, eq_iff t "")
nonempty_text-ne undefined h p = cc
nonempty_text-ne _ h p = cc

abbrev pub IsNamed : EventEnvelope → Type 0
IsNamed e = e.aggregate_id ≢ ""

abbrev YieldsNamed : Option EventEnvelope → Type 0
YieldsNamed none = Unit
YieldsNamed (some e) = IsNamed e

bind-YieldsNamed :
    {A : Type 0} (o : Option A) (f : A → Option EventEnvelope)
    → ((a : A) → o ≡ some a → YieldsNamed (f a))
    → YieldsNamed (Schema.◌>>=◌ o f)
bind-YieldsNamed none f h = tt
bind-YieldsNamed (some a) f h = h a refl

-- What the schema accepts has a named aggregate.
validate-YieldsNamed :
    (is_datetime : String → Bool) (raw : Fields)
    → YieldsNamed (validate_event_envelope is_datetime raw)
unfolding validate_event_envelope
validate-YieldsNamed is_datetime raw =
    bind-YieldsNamed (nonempty_text (get "event_id" raw)) _ λ a p.
      bind-YieldsNamed (nonempty_text (get "event_type" raw)) _ λ a p.
        bind-YieldsNamed (positive_or_one (get "event_version" raw)) _ λ a p.
          bind-YieldsNamed (optional_positive (get "sequence_number" raw)) _ λ a p.
            bind-YieldsNamed (nonempty_text (get "aggregate_id" raw)) _ λ id named.
              bind-YieldsNamed (nonempty_text (get "aggregate_type" raw)) _ λ a p.
                bind-YieldsNamed (timestamp is_datetime (get "occurred_at" raw)) _ λ a p.
                  bind-YieldsNamed (nonempty_text (get "producer" raw)) _ λ a p.
                    bind-YieldsNamed (nonempty_text (get "correlation_id" raw)) _ λ a p.
                      bind-YieldsNamed (nonempty_text (get "causation_id" raw)) _ λ a p.
                        bind-YieldsNamed (positive_or_one (get "schema_version" raw)) _ λ a p.
                          bind-YieldsNamed (object_fields (get "payload" raw)) _
                            λ a p. nonempty_text-ne (get "aggregate_id" raw) named

module _ (C : Cond) where
  abbrev Reads : Result EventEnvelope → Cond
  Reads (ok e) d k = C d k × IsNamed e
  Reads (err x) d k = C d k

  module _ (b : IsBlind C) where
    insert_dead_letter-Keeps : (m : DlqMessage) → Keeps C (insert_dead_letter m)
    insert_dead_letter-Keeps m = statement-Keeps C _ (λ now d k c. b.dlq_messages d k _ c)

    insert_outbox-Keeps : (m : DlqMessage) → Keeps C (insert_dead_letter_outbox m)
    insert_outbox-Keeps m = statement-Keeps C _ (λ now d k c. b.dlq_outbox d k _ c)

    mark_event-Keeps :
        (e : EventEnvelope) (name : String) (o : Option Error) → Keeps C (mark_event e name o)
    mark_event-Keeps e name none = statement-Keeps C _ (λ now d k c. b.processed_events d k _ c)
    mark_event-Keeps e name (some x) = statement-Keeps C _ (λ now d k c. b.processed_events d k _ c)

  caused-Keeps : (fs : Fields) → Keeps C (caused fs)
  unfolding caused
  caused-Keeps fs = if-Keeps C (truthy (get "causation_id" fs)) _ _ (pure-Keeps C fs) (
      if-Keeps C (truthy (get "event_id" fs)) _ _ (pure-Keeps C _)
        (then-Keeps C _ _ (short_id-Keeps C _) (λ id. pure-Keeps C _)))

  failing-Reads : (f : World → Error) → Ensures C (gets f >>= λ x. throw x) Reads
  failing-Reads f =
      Ensures-bind _ _ (λ r. C) (gets-Keeps C f) (λ x. Ensures-throw x (λ d k c. c)) (λ x d k c. c)

  accept-Reads :
      (raw : Json) (o : Option EventEnvelope) → YieldsNamed o → Ensures C (accept raw o) Reads
  accept-Reads raw none h = failing-Reads _
  accept-Reads raw (some e) h = Ensures-pure e (λ d k c. (c, h))

  read_envelope-Reads : (v : Value) → Ensures C (read_envelope v) Reads
  unfolding read_envelope
  read_envelope-Reads (text s) = failing-Reads _
  read_envelope-Reads (json (obj parsed)) =
      Ensures-bind _ _ (λ r. C) (caused-Keeps _)
        (λ linked.
          Ensures-bind _ _ (λ r. C) (gets-Keeps C _)
            (λ now.
              Ensures-bind _ _ (λ r. C) (gets-Keeps C _)
                (λ is_datetime.
                  accept-Reads _ _ (validate-YieldsNamed is_datetime (stamped now linked)))
                (λ x d k c. c))
            (λ x d k c. c))
        (λ x d k c. c)
  read_envelope-Reads (json undefined) = failing-Reads _
  read_envelope-Reads (json v) = failing-Reads _

module _ (C : Cond) (b : IsBlind C) (grows : Grows C) where
  store_non_retryable-Keeps : (m : DlqMessage) → Keeps C (store_non_retryable m)
  unfolding store_non_retryable
  store_non_retryable-Keeps m = transaction-Keeps C _ (λ k₀.
      then-Keeps (Fixed C k₀) _ _ (insert_dead_letter-Keeps (Fixed C k₀) (Fixed-IsBlind C k₀ b) m)
        (λ u. insert_outbox-Keeps (Fixed C k₀) (Fixed-IsBlind C k₀ b) m))

  store_exhausted-Keeps :
      (e : EventEnvelope) (name : String) (x : Error) (m : DlqMessage)
      → Keeps C (store_exhausted e name x m)
  unfolding store_exhausted
  store_exhausted-Keeps e name x m = transaction-Keeps C _ (λ k₀.
      then-Keeps (Fixed C k₀) _ _ (insert_dead_letter-Keeps (Fixed C k₀) (Fixed-IsBlind C k₀ b) m)
        (λ u.
          then-Keeps (Fixed C k₀) _ _
            (mark_event-Keeps (Fixed C k₀) (Fixed-IsBlind C k₀ b) e name (some x))
            (λ u. insert_outbox-Keeps (Fixed C k₀) (Fixed-IsBlind C k₀ b) m)))

  non_retryable-Keeps : (d : Delivery) (x : Error) → Keeps C (handle_non_retryable_dlq d x)
  unfolding handle_non_retryable_dlq
  non_retryable-Keeps d x = then-Keeps C _ _ (short_id-Keeps C _) (λ id.
      then-Keeps C _ _ (gets-Keeps C _) (λ now. then-Keeps C _ _ (gets-Keeps C _) (λ name.
        then-Keeps C _ _ (gets-Keeps C _) (λ raw.
          try-Keeps C _ _
            (then-Keeps C _ _ (store_non_retryable-Keeps _) (λ u.
              then-Keeps C _ _ (send-Keeps C grows _)
                (λ u. statement-Keeps C _ (λ now d k c. b.dlq_outbox d k _ c))))
            (λ y. pure-Keeps C tt)))))

  exhausted-Keeps :
      (d : Delivery) (e : EventEnvelope) (x : Error) (n : ℕ)
      → Keeps C (handle_exhausted_retries_dlq d e x n)
  unfolding handle_exhausted_retries_dlq
  exhausted-Keeps d e x n = then-Keeps C _ _ (short_id-Keeps C _) (λ id.
      then-Keeps C _ _ (gets-Keeps C _) (λ now. then-Keeps C _ _ (gets-Keeps C _) (λ name.
        try-Keeps C _ _
          (then-Keeps C _ _ (store_exhausted-Keeps e name x _) (λ u.
            then-Keeps C _ _ (send-Keeps C grows _)
              (λ u. statement-Keeps C _ (λ now d k c. b.dlq_outbox d k _ c))))
          (λ y. pure-Keeps C tt))))

  backoff-Keeps : (n : ℕ) → Keeps C (backoff n)
  unfolding backoff
  backoff-Keeps n =
      then-Keeps C _ _ (gets-Keeps C _)
        (λ c. then-Keeps C _ _ (random_below-Keeps C _) (λ jitter. sleep-Keeps C _))

  backoff_if_left-Keeps : (n left : ℕ) → Keeps C (backoff_if_left n left)
  backoff_if_left-Keeps n zero = pure-Keeps C tt
  backoff_if_left-Keeps n (suc left) = backoff-Keeps n

  module _ (process : EventEnvelope → Exec (Unit {0}))
      (kept : (e : EventEnvelope) → IsNamed e → Keeps C (process e)) where
    attempt_once-Keeps : (e : EventEnvelope) → IsNamed e → Keeps C (attempt_once process e)
    unfolding attempt_once
    attempt_once-Keeps e n = then-Keeps C _ _ (kept e n) (λ u.
        then-Keeps C _ _ (gets-Keeps C _) (λ name.
          then-Keeps C _ _ (mark_event-Keeps C b e name none) (λ u. update-Keeps C succeed)))

    turn-Keeps : (e : EventEnvelope) (a left : ℕ) → IsNamed e → Keeps C (turn process e a left)
    unfolding turn
    turn-Keeps e a left n =
        try-Keeps C _ _ (then-Keeps C _ _ (attempt_once-Keeps e n) (λ u. pure-Keeps C none))
          (λ x. then-Keeps C _ _ (backoff_if_left-Keeps a left) (λ u. pure-Keeps C (some x)))

    retry-Keeps :
        (e : EventEnvelope) (a left : ℕ) (o : Option Error)
        → IsNamed e
        → Keeps C (retry process e a left o)
    unfolding retry
    retry-Keeps e a zero o n = pure-Keeps C _
    retry-Keeps e a (suc left) o n = then-Keeps C _ _ (turn-Keeps e _ left n) (λ o.
        elim o
          as (λ o.
            Keeps {A = Verdict} C
              (elim o [ none ↦ pure returned | some x ↦ retry process e (a + 1) left (some x) ])) [
                | none ↦ pure-Keeps C returned
                | some x ↦ retry-Keeps e (a + 1) left (some x) n
              ])

    conclude-Keeps :
        (d : Delivery) (e : EventEnvelope) (v : Verdict) → Keeps C (conclude process d e v)
    conclude-Keeps d e returned = pure-Keeps C tt
    conclude-Keeps d e (exhausted n last) =
        then-Keeps C _ _ (update-Keeps C give_up) (λ u. exhausted-Keeps d e _ n)

    handle_envelope-Keeps :
        (d : Delivery) (e : EventEnvelope) → IsNamed e → Keeps C (handle_envelope process d e)
    unfolding handle_envelope
    handle_envelope-Keeps d e n = then-Keeps C _ _ (gets-Keeps C _) (λ name.
        then-Keeps C _ _ (query-Keeps C _) (λ duplicate.
          if-Keeps C duplicate _ _ (pure-Keeps C tt) (
            then-Keeps C _ _ (gets-Keeps C _) (λ most.
              then-Keeps C _ _ (retry-Keeps e _ most none n) (λ v. conclude-Keeps d e v)))))

    after_reading-Keeps :
        (d : Delivery) (r : Result EventEnvelope)
        → Ensures (Reads C r) (after_reading process d r) (λ r. C)
    after_reading-Keeps d (ok e) = Ensures-fact (IsNamed e) _ (handle_envelope-Keeps d e)
    after_reading-Keeps d (err x) = non_retryable-Keeps d x

    pub handle_message-Keeps : (d : Delivery) → Keeps C (handle_message process d)
    unfolding handle_message
    handle_message-Keeps d = record {
      at = λ w c.
          let w₁ : World = record w {
            consumer = record w.consumer { last_event_timestamp = some (w.env.iso w.clock) };
          } in
          (after_reading-Keeps d (read_envelope d.value w₁).0).at (read_envelope d.value w₁).1
            ((read_envelope-Reads C d.value).at w₁ c);
    }

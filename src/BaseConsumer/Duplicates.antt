-- ===== src/BaseConsumer/Duplicates.antt =====
-- src/consumers/base-consumer.ts, the idempotency check of handleMessage: a message that is delivered a
-- second time.
use event_driven_kafka.Base.{
  ℕ, suc, String, true, false, List, [], ◌∷◌, ◌≡◌, refl, ap, ◌∙◌, ◌==◌, eq_iff, Bool-cases, inl,
  inr, All,
}
use event_driven_kafka.Contracts.{EventEnvelope}
use event_driven_kafka.Database.Processed.{
  ProcessedStatus, processed, failed, is_done, ProcessedRow, is_event_processed,
}
use event_driven_kafka.World.{World}
use event_driven_kafka.Exec.{Exec, ok, query, call, ◌>>=◌}
use event_driven_kafka.Exec.Worlds.{calm}
use event_driven_kafka.BaseConsumer.{
  Delivery, read_envelope, handle_envelope, after_reading, handle_message,
}
use event_driven_kafka.BaseConsumer.Handled.{
  seen, settled, marked_processed, handle_message-settled,
}

-- No row says that this consumer has processed this event.
abbrev pub IsNew : String → String → List ProcessedRow → Type 0
IsNew event_id consumer rows =
    All (λ r. ¬ ((r.event_id ≡ event_id) × (r.consumer_name ≡ consumer) × (r.status ≡ processed)))
      rows

done-processed : (s : ProcessedStatus) → is_done s ≡ true → s ≡ processed
done-processed processed h = refl
done-processed failed h = cc

new_row :
    (event_id consumer : String) (rows : List ProcessedRow)
    → IsNew event_id consumer rows
    → is_event_processed event_id consumer rows ≡ false
unfolding is_event_processed
new_row event_id consumer [] h = refl
new_row event_id consumer (r ∷ rows) h =
    let rest = new_row event_id consumer rows h.1 in
    elim (Bool-cases (r.event_id == event_id)) [
      | inr other ↦ rw other rest
      | inl own ↦ elim (Bool-cases (r.consumer_name == consumer)) [
        | inr other ↦ rw own (rw other rest)
        | inl same ↦ elim (Bool-cases (is_done r.status)) [
          | inr undone ↦ rw own (rw same (rw undone rest))
          | inl done ↦ absurd (
              h.0 (
                (eq_iff r.event_id event_id).0 own,
                (eq_iff r.consumer_name consumer).0 same,
                done-processed r.status done,
              ))
        ]
      ]
    ]

module _ (process : EventEnvelope → Exec (Unit {0})) (d : Delivery) (e : EventEnvelope)
    (w u : World) where
  -- A readable message is delivered twice to a consumer that has not processed its event (another consumer
  -- may have, or this one may have failed on it), and no call fails; at least one attempt is
  -- allowed, and the consumer's method succeeds. The first delivery runs the method, marks the
  -- event and counts it. The second one does nothing but note its time: the method does not run
  -- again.
  pub delivered_twice :
      (n : ℕ)
      → process e (seen w) ≡ (ok tt, calm u)
      → read_envelope d.value (seen w) ≡ (ok e, seen w)
      → read_envelope d.value (seen (settled e u)) ≡ (ok e, seen (settled e u))
      → w.consumer.max_retries ≡ suc n
      → IsNew e.event_id w.consumer.consumer_name w.db.processed_events
      → (handle_message process d (calm w) ≡ (ok tt, settled e u))
        × (handle_message process d (settled e u) ≡ (ok tt, seen (settled e u)))
  unfolding handle_message handle_envelope query call ◌>>=◌
  delivered_twice n done first second most new = (
    handle_message-settled process d e w u done n first most
        (new_row e.event_id w.consumer.consumer_name w.db.processed_events new),
    ap (λ r. after_reading process d r.0 r.1) second
        ∙ rw (marked_processed e.event_id u.consumer.consumer_name u.clock u.db.processed_events)
            refl,
  )

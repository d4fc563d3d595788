-- ===== src/System/Sweeps.antt =====
-- The relay changes the outbox and sends: it keeps a condition that neither breaks.
use event_driven_kafka.Base.{ℕ, ◌+◌, List, [], ◌∷◌}
use event_driven_kafka.Database.{Db}
use event_driven_kafka.Database.Outbox.{OutboxRow}
use event_driven_kafka.World.{Message}
use event_driven_kafka.Exec.Rules.{Cond}
use event_driven_kafka.Relay.{Relay, publish_event, publish_all, process_batch}
use event_driven_kafka.System.Frame.{
  Keeps, Grows, pure-Keeps, gets-Keeps, statement-Keeps, if-Keeps, then-Keeps, try-Keeps,
  send-Keeps,
}

abbrev pub OutboxFree : Cond → Type 0
OutboxFree C =
    (d : Db) (k : List Message) (x : List OutboxRow) → C d k → C (record d { outbox_events = x }) k

module _ (C : Cond) (grows : Grows C) (free : OutboxFree C) where
  publish_event-Keeps : (relay : Relay) (row : OutboxRow) → Keeps C (publish_event relay row)
  unfolding publish_event
  publish_event-Keeps relay row =
      try-Keeps C _ _
        (then-Keeps C _ _ (gets-Keeps C _) (λ m.
          then-Keeps C _ _ (send-Keeps C grows m)
            (λ u. statement-Keeps C _ (λ now d k c. free d k _ c))))
        (λ x. statement-Keeps C _ (λ now d k c. free d k _ c))

  publish_all-Keeps :
      (relay : Relay) (rows : List OutboxRow) (n : ℕ) → Keeps C (publish_all relay rows n)
  unfolding publish_all
  publish_all-Keeps relay [] n = pure-Keeps C n
  publish_all-Keeps relay (row ∷ rows) n =
      then-Keeps C _ _ (publish_event-Keeps relay row) (λ u. publish_all-Keeps relay rows (n + 1))

  pub process_batch-Keeps : (relay : Relay) → Keeps C (process_batch relay)
  unfolding process_batch
  process_batch-Keeps relay = if-Keeps C relay.is_processing _ _ (pure-Keeps C 0) (
      then-Keeps C _ _ (statement-Keeps C _ (λ now d k c. free d k _ c))
        (λ rows. publish_all-Keeps relay rows 0))

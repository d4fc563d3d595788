-- ===== src/Relay/Delivery.antt =====
-- src/infrastructure/outbox/outbox-relay.ts: a sweep in which no call fails.
use event_driven_kafka.Base.{
  ℕ, ◌+◌, false, List, [], ◌∷◌, ◌++◌, map, some, ◌≡◌, refl, sym, ap, ◌∙◌, subst, arith, length,
  if◌then◌else◌,
}
use event_driven_kafka.Database.Outbox.{
  OutboxRow, get_pending_outbox_events, mark_outbox_event_published,
}
use event_driven_kafka.World.{World, Message}
use event_driven_kafka.Exec.{Result, ok, pure, ◌>>=◌, call, statement, send, try_catch}
use event_driven_kafka.Relay.{
  Relay, relay_message, claim_batch, publish_event, publish_all, process_batch,
}

append-nil : (k : List Message) → k ++ [] ≡ k
append-nil [] = refl
append-nil (n ∷ k) = ap (λ k. n ∷ k) (append-nil k)

append_append :
    (k : List Message) (m : Message) (ms : List Message) → (k ++ m ∷ []) ++ ms ≡ k ++ m ∷ ms
append_append [] m ms = refl
append_append (n ∷ k) m ms = ap (λ k. n ∷ k) (append_append k m ms)

abbrev calm : World → World
calm w = record w { outcomes = [] }

publish_all_lem :
    (relay : Relay) (rows : List OutboxRow) (n : ℕ) (w : World)
    → let r = publish_all relay rows n (calm w) in
      (r.0 ≡ ok (n + length rows)) × (r.1.kafka ≡ w.kafka ++ map (relay_message relay w) rows)
unfolding publish_all publish_event ◌>>=◌ call statement send try_catch relay_message
publish_all_lem relay [] n w = (ap (λ n. ok n) (omega arith), sym (append-nil w.kafka))
publish_all_lem relay (row ∷ rows) n w =
    let w' : World = record w {
      db = record w.db {
        outbox_events =
            (mark_outbox_event_published row.id (some relay.worker_id) w.clock
              w.db.outbox_events).1;
      };
      kafka = w.kafka ++ relay_message relay w row ∷ [];
    } in
    let (count, kafka) = publish_all_lem relay rows (n + 1) w' in
    (count ∙ ap (λ n. ok n) (omega arith), kafka ∙ append_append w.kafka _ _)

abbrev pub claimed_batch : Relay → World → List OutboxRow
claimed_batch relay w =
    (get_pending_outbox_events relay.batch_size relay.worker_id relay.lease_duration_seconds w.clock
      w.db.outbox_events).0

abbrev pub Delivered : Relay → World → Result ℕ × World → Type 0
Delivered relay w r =
    (r.0 ≡ ok (length (claimed_batch relay w)))
    × (r.1.kafka ≡ w.kafka ++ map (relay_message relay w) (claimed_batch relay w))

calm_sweep :
    (relay : Relay) (w : World)
    → relay.is_processing ≡ false
    → Delivered relay w (process_batch relay (calm w))
unfolding process_batch ◌>>=◌ call statement relay_message
calm_sweep relay w idle =
    let rows : List OutboxRow =
      (get_pending_outbox_events relay.batch_size relay.worker_id relay.lease_duration_seconds
        w.clock w.db.outbox_events).1 in
    let (count, kafka) =
      publish_all_lem relay (claimed_batch relay w) 0
        (record w { db = record w.db { outbox_events = rows } }) in
    subst
      (λ b.
        Delivered relay w (
          (if b then pure 0 else (claim_batch relay >>= λ rows. publish_all relay rows 0))
            (calm w)))
      (sym idle) (count ∙ ap (λ n. ok n) (omega arith), kafka)

-- When no sweep is under way and no call fails, a sweep sends the messages of all the rows that it
-- claims, once each and in their order, and returns how many they are.
pub sweep_delivers :
    (relay : Relay) (w : World)
    → relay.is_processing ≡ false
    → w.outcomes ≡ []
    → Delivered relay w (process_batch relay w)
sweep_delivers relay w idle o =
    subst (λ os. Delivered relay w (process_batch relay (record w { outcomes = os }))) (sym o)
      (calm_sweep relay w idle)

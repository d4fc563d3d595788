-- ===== src/Relay/Safety.antt =====
-- src/infrastructure/outbox/outbox-relay.ts and the marks of src/services/database.ts: the events
-- marked PUBLISHED and the messages that Kafka has taken.
use event_driven_kafka.Base.{
  ℕ, ◌+◌, String, Bool, true, ◌&&◌, List, [], ◌∷◌, ◌++◌, Option, ◌≡◌, refl, sym, subst, arith, ◌==◌,
  eq_iff, eq_refl, any, All,
}
use event_driven_kafka.Base.Distinct.{All-weaken}
use event_driven_kafka.Base.Table.{All-update_where}
use event_driven_kafka.Database.Leases.{
  published, claim, claimed_ids, in_ids, lease, mark_published, mark_failed, is_held, set_published,
  set_failed,
}
use event_driven_kafka.Database.Outbox.{
  OutboxRow, get_pending_outbox_events, mark_outbox_event_published, mark_outbox_event_failed,
}
use event_driven_kafka.World.{World, Message}
use event_driven_kafka.Exec.{Result, ok, err, ◌>>=◌, ◌>>◌, send}
use event_driven_kafka.Exec.Rules.{
  Cond, Ensures, Ensures-pure, Ensures-bind, Ensures-statement, Ensures-send, Ensures-try_catch,
  Ensures-if,
}
use event_driven_kafka.Relay.{
  Relay, relay_message, record_published, publish_event, publish_all, process_batch,
}

-- A message carries an event where its header says so.
abbrev pub carries : String → Message → Bool
carries id m = any (λ h. h.0 == "event-id" && h.1 == id) m.headers

abbrev pub is_sent : String → List Message → Bool
is_sent id k = any (carries id) k

abbrev pub AllSent : List OutboxRow → List Message → Type 0
AllSent rows k = All (λ r. r.status ≡ published → is_sent r.id k ≡ true) rows

is_sent-append :
    (id : String) (k : List Message) (m : Message)
    → is_sent id k ≡ true
    → is_sent id (k ++ m ∷ []) ≡ true
is_sent-append id [] m h = absurd (ground (arith, h))
is_sent-append id (n ∷ k) m h = ground (arith, h, is_sent-append id k m)

is_sent-last :
    (id : String) (k : List Message) (m : Message)
    → carries id m ≡ true
    → is_sent id (k ++ m ∷ []) ≡ true
is_sent-last id [] m h = ground (arith, h)
is_sent-last id (n ∷ k) m h = ground (arith, h, is_sent-last id k m h)

carries-relay_message :
    (relay : Relay) (w : World) (row : OutboxRow)
    → carries row.id (relay_message relay w row) ≡ true
unfolding relay_message
carries-relay_message relay w row = rw (eq_refl row.id) refl

pub append-AllSent :
    (rows : List OutboxRow) (k : List Message) (m : Message)
    → AllSent rows k
    → AllSent rows (k ++ m ∷ [])
append-AllSent rows k m h =
    All-weaken (λ r. r.status ≡ published → is_sent r.id k ≡ true)
      (λ r. r.status ≡ published → is_sent r.id (k ++ m ∷ []) ≡ true)
      (λ r f p. is_sent-append r.id k m (f p)) rows h

claim-AllSent :
    (limit : ℕ) (worker : String) (seconds now : ℕ) (rows : List OutboxRow) (k : List Message)
    → AllSent rows k
    → AllSent (get_pending_outbox_events limit worker seconds now rows).1 k
unfolding get_pending_outbox_events claim
claim-AllSent limit worker seconds now rows k h =
    All-update_where (λ r. r.status ≡ published → is_sent r.id k ≡ true)
      (in_ids (claimed_ids limit now rows)) (lease worker seconds now)
      (λ r e f p. absurd (ground (arith, p))) rows h

published-AllSent :
    (id : String) (worker : Option String) (now : ℕ) (rows : List OutboxRow) (k : List Message)
    → AllSent rows k
    → is_sent id k ≡ true
    → AllSent (mark_outbox_event_published id worker now rows).1 k
unfolding mark_outbox_event_published mark_published
published-AllSent id worker now rows k h s =
    All-update_where (λ r. r.status ≡ published → is_sent r.id k ≡ true) (is_held id worker)
      (set_published now)
      (λ r e f p.
        let i : r.id ≡ id = ground (arith, e, eq_iff r.id id) in
        subst (λ i. is_sent i k ≡ true) (sym i) s)
      rows h

failed-AllSent :
    (id error : String) (worker : Option String) (rows : List OutboxRow) (k : List Message)
    → AllSent rows k
    → AllSent (mark_outbox_event_failed id error worker rows).1 k
unfolding mark_outbox_event_failed mark_failed
failed-AllSent id error worker rows k h =
    All-update_where (λ r. r.status ≡ published → is_sent r.id k ≡ true) (is_held id worker)
      (set_failed error) (λ r e f p. absurd (ground (arith, p))) rows h

abbrev pub Sound : Cond
Sound d k = AllSent d.outbox_events k

abbrev pub Kept : {A : Type 0} → Result A → Cond
Kept r = Sound

abbrev SoundSent : String → Result (Unit {0}) → Cond
SoundSent id (ok u) d k = Sound d k × (is_sent id k ≡ true)
SoundSent id (err y) d k = Sound d k

publishing-Sound :
    (relay : Relay) (row : OutboxRow) (m : Message)
    → carries row.id m ≡ true
    → Ensures Sound (send m >> record_published relay row) Kept
publishing-Sound relay row m c =
    Ensures-bind _ _ (SoundSent row.id)
      (Ensures-send m (λ d k p. (append-AllSent d.outbox_events k m p, is_sent-last row.id k m c))
        (λ y d k p. p) (λ y d k p. append-AllSent d.outbox_events k m p))
      (λ u.
        Ensures-statement _ (λ now d k p. published-AllSent row.id _ now d.outbox_events k p.0 p.1)
          (λ y d k p. p.0)
          (λ y now d k p. published-AllSent row.id _ now d.outbox_events k p.0 p.1))
      (λ y d k p. p)

publish_event-Sound :
    (relay : Relay) (row : OutboxRow) → Ensures Sound (publish_event relay row) Kept
unfolding publish_event ◌>>=◌
publish_event-Sound relay row =
    Ensures-try_catch _ _ Kept
      (record {
        at = λ w p.
            (publishing-Sound relay row (relay_message relay w row)
                (carries-relay_message relay w row)).at
              w p;
      })
      (λ u d k p. p)
      (λ y.
        Ensures-statement _ (λ now d k p. failed-AllSent row.id y.message _ d.outbox_events k p)
          (λ z d k p. p) (λ z now d k p. failed-AllSent row.id y.message _ d.outbox_events k p))

publish_all-Sound :
    (relay : Relay) (rows : List OutboxRow) (n : ℕ) → Ensures Sound (publish_all relay rows n) Kept
unfolding publish_all
publish_all-Sound relay [] n = Ensures-pure n (λ d k p. p)
publish_all-Sound relay (row ∷ rows) n =
    Ensures-bind _ _ Kept (publish_event-Sound relay row)
      (λ u. publish_all-Sound relay rows (n + 1)) (λ y d k p. p)

pub process_batch-Sound : (relay : Relay) → Ensures Sound (process_batch relay) Kept
unfolding process_batch
process_batch-Sound relay =
    Ensures-if relay.is_processing _ _ (λ e. Ensures-pure 0 (λ d k p. p))
      (λ e.
        Ensures-bind _ _ Kept
          (Ensures-statement _ (λ now d k p. claim-AllSent _ _ _ now d.outbox_events k p)
            (λ y d k p. p) (λ y now d k p. claim-AllSent _ _ _ now d.outbox_events k p))
          (λ rows. publish_all-Sound relay rows 0) (λ y d k p. p))

-- When every PUBLISHED row of the outbox has a message in Kafka that carries its id, a sweep of any
-- relay leaves it so, whatever calls of the database and of Kafka are refused or lose their
-- acknowledgement.
pub published_after_send :
    (relay : Relay) (w : World)
    → AllSent w.db.outbox_events w.kafka
    → let r = process_batch relay w in AllSent r.1.db.outbox_events r.1.kafka
published_after_send relay w h = (process_batch-Sound relay).at w h

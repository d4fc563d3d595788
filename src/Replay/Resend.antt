-- ===== src/Replay/Resend.antt =====
-- src/replay/event-replay-service.ts, replayDLQ: its `try` and its `catch` block.
use event_driven_kafka.Base.{
  ℕ, String, false, List, [], ◌∷◌, ◌++◌, some, ◌≡◌, refl, ap, ◌∙◌, ◌⊎◌, inl, inr, arith, ◌==◌,
  Bool-cases, ◌&&◌,
}
use event_driven_kafka.Base.Table.{delete_where}
use event_driven_kafka.Json.{Json, undefined, null, bool, num, str, arr, obj, get}
use event_driven_kafka.Database.{Db}
use event_driven_kafka.Database.Dlq.{
  unresolved, replaying, replayed, DlqRow, set_dlq_status, get_dlq_message,
}
use event_driven_kafka.Database.Processed.{
  ProcessedRow, is_event_processed, reset_processed_event_for_replay,
}
use event_driven_kafka.World.{World, Error, Message}
use event_driven_kafka.Exec.{Result, ok, err, gets, ◌>>=◌, ◌>>◌, send}
use event_driven_kafka.Exec.Worlds.{
  Condition, Upholds, Upholds-pure, Upholds-gets, Upholds-throw, Upholds-statement, Upholds-send,
  Upholds-bind, Upholds-try_catch,
}
use event_driven_kafka.Exec.Changes.{with_db, Ran, statement-Ran, asked_Upholds}
use event_driven_kafka.Replay.{
  ReplayResult, success, failure, set_status, replayed_message, send_original, redelivered, resend,
  give_back,
}

-- The message that a replay of the row sends.
abbrev pub resent : String → DlqRow → World → Message
resent id row v =
    replayed_message id row (get "original_event" row.message.payload) (v.env.iso v.clock)

-- The world with another database, and with one more message.
abbrev pub delivered : World → Db → Message → World
delivered v db m = record v { db = db; kafka = v.kafka ++ m ∷ [] }

abbrev Sent : World → Message → Result (Unit {0}) → Condition
Sent v m (ok u) w = w ≡ delivered v v.db m
Sent v m (err x) w = (w ≡ v) ⊎ (w ≡ delivered v v.db m)

abbrev pub Failed : Result ReplayResult → Type 0
Failed (ok r) = r.status ≡ failure
Failed (err x) = ⊥

module _ (id : String) (row : DlqRow) where
  send_original-Sent :
      (event : Json) (v : World)
      → Upholds
          (λ w. w ≡ v)
          (send_original id row event)
          (Sent v (replayed_message id row event (v.env.iso v.clock)))
  send_original-Sent event v = go event
    where
      sends :
          (event : Json)
          → Upholds
              (λ w. w ≡ v)
              (gets (λ w. w.env.iso w.clock) >>= λ now. send (replayed_message id row event now))
              (Sent v (replayed_message id row event (v.env.iso v.clock)))
      sends event =
          asked_Upholds _ _ (λ w. w.env.iso w.clock) v
            (Upholds-gets _ λ w p. (p, ap (λ (w : World). w.env.iso w.clock) p))
            (Upholds-send _
              (λ w p.
                ap
                  (λ (w : World). record w {
                    kafka = w.kafka ++ replayed_message id row event (v.env.iso v.clock) ∷ [];
                  })
                  p)
              (λ x w p. inl p)
              (λ x w p. inr (
                ap
                  (λ (w : World). record w {
                    kafka = w.kafka ++ replayed_message id row event (v.env.iso v.clock) ∷ [];
                  })
                  p)))
            (λ x. inl refl)

      go :
          (event : Json)
          → Upholds
              (λ w. w ≡ v)
              (send_original id row event)
              (Sent v (replayed_message id row event (v.env.iso v.clock)))
      go undefined = Upholds-throw _ (λ w p. inl p)
      go null = Upholds-throw _ (λ w p. inl p)
      go (bool b) = sends (bool b)
      go (num n) = sends (num n)
      go (str s) = sends (str s)
      go (arr items) = sends (arr items)
      go (obj fs) = sends (obj fs)

  -- The database before the message is sent, and after.
  abbrev pub released : ℕ → Db → Db
  released now db = record db {
    dlq_messages = set_dlq_status id replaying now db.dlq_messages;
    processed_events =
        reset_processed_event_for_replay row.message.event_id (some row.message.consumer_name)
          db.processed_events;
  }

  abbrev pub closed : ℕ → Db → Db
  closed now db = record db { dlq_messages = set_dlq_status id replayed now db.dlq_messages }

  -- At most the one message was sent, and the database was written to.
  abbrev pub AtMostOnce : World → World → Type 0
  AtMostOnce v w = (db : Db) × ((w ≡ with_db v db) ⊎ (w ≡ delivered v db (resent id row v)))

  abbrev pub Resent : World → Result ReplayResult → Condition
  Resent v (ok r) w =
      (r.status ≡ success)
      × (w ≡ delivered v (closed v.clock (released v.clock v.db)) (resent id row v))
  Resent v (err x) w = AtMostOnce v w

  -- The world before a replay of the row, and the steps that are left of it.
  module _ (started : ℕ) (v : World) where
    abbrev middle : Db
    middle = released v.clock v.db

    close-Resent :
        Upholds
          (λ w. w ≡ delivered v middle (resent id row v))
          (set_status id replayed >> redelivered id row started)
          (Resent v)
    close-Resent =
        Upholds-bind _ _
          (Ran (λ db. some (closed v.clock db)) (delivered v middle (resent id row v)))
          (statement-Ran (λ now. closed now) (delivered v middle (resent id row v)))
          (λ u.
            Upholds-gets _
              λ w p. (refl, p.2 ∙ ap (λ db. delivered v db (resent id row v)) (some_inj p.0 p.1)))
          (λ x w p. (p.0, inr p.1))
      where
        some_inj : (db : Db) → some (closed v.clock middle) ≡ some db → db ≡ closed v.clock middle
        some_inj db q = cc

    send-Resent :
        Upholds
          (λ w. w ≡ with_db v middle)
          (send_original id row (get "original_event" row.message.payload)
            >> (set_status id replayed >> redelivered id row started))
          (Resent v)
    send-Resent =
        Upholds-bind _ _ (Sent (with_db v middle) (resent id row v))
          (send_original-Sent (get "original_event" row.message.payload) (with_db v middle))
          (λ u. close-Resent) (λ x w p. (middle, p))

    pub resend-Resent : Upholds (λ w. w ≡ v) (resend id row started) (Resent v)
    unfolding resend
    resend-Resent =
        Upholds-bind _ _ (Ran (λ db. some (mark v.clock db)) v) (statement-Ran mark v)
          (λ u. record {
            at = λ w p.
                (Upholds-bind {Q = Resent v} _ _ (Ran (λ db. some (reset db)) (with_db v p.0))
                    (statement-Ran (λ now. reset) (with_db v p.0))
                    (λ u. record {
                      at = λ w q. send-Resent.at w (q.2 ∙ ap (with_db v) (both p.0 q.0 p.1 q.1));
                    })
                    (λ x w q. (q.0, inl q.1))).at
                  w p.2;
          })
          (λ x w p. (p.0, inl p.1))
      where
        mark : ℕ → Db → Db
        mark now db = record db { dlq_messages = set_dlq_status id replaying now db.dlq_messages }

        reset : Db → Db
        reset db = record db {
          processed_events =
              reset_processed_event_for_replay row.message.event_id (some row.message.consumer_name)
                db.processed_events;
        }

        both : (d e : Db) → some (mark v.clock v.db) ≡ some d → some (reset d) ≡ some e → e ≡ middle
        both d e p q = cc

  pub give_back-AtMostOnce :
      (v : World) (started : ℕ) (x : Error)
      → Upholds (AtMostOnce v) (give_back id row started x) (λ r w. AtMostOnce v w × Failed r)
  give_back-AtMostOnce v started x =
      Upholds-bind _ _ Kept
        (Upholds-try_catch _ _ Tried
          (Upholds-statement _ (λ w p. rewritten w p) (λ y w p. p) (λ y w p. rewritten w p))
          (λ u w p. p) (λ y. Upholds-pure tt (λ w p. p)))
        (λ u. Upholds-gets _ λ w p. (p, refl)) (λ y w p. elim p [ ])
    where
      give : World → Db
      give w = record w.db { dlq_messages = set_dlq_status id unresolved w.clock w.db.dlq_messages }

      Tried : Result (Unit {0}) → Condition
      Tried r w = AtMostOnce v w

      Kept : Result (Unit {0}) → Condition
      Kept (ok u) w = AtMostOnce v w
      Kept (err y) w = ⊥

      rewritten : (w : World) → AtMostOnce v w → AtMostOnce v (with_db w (give w))
      rewritten w (db, inl p) = (give w, inl (ap (λ u. with_db u (give w)) p))
      rewritten w (db, inr p) = (give w, inr (ap (λ u. with_db u (give w)) p))

  pub reopened :
      (now : ℕ) (rows : List DlqRow)
      → get_dlq_message id rows ≡ some row
      → get_dlq_message id (set_dlq_status id replayed now (set_dlq_status id replaying now rows))
        ≡ some (record row { status = replayed; resolved_at = some now })
  unfolding get_dlq_message set_dlq_status
  reopened now [] h = absurd (ground (arith, h))
  reopened now (r ∷ rows) h = elim (Bool-cases (r.message.id == id)) [
    | inl e ↦ ground (arith, e, h)
    | inr e ↦ ground (arith, e, h, reopened now rows)
  ]

pub unprocessed :
    (event_id consumer : String) (rows : List ProcessedRow)
    → is_event_processed event_id consumer
        (reset_processed_event_for_replay event_id (some consumer) rows)
      ≡ false
unfolding is_event_processed reset_processed_event_for_replay
unprocessed event_id consumer rows = elim (Bool-cases (consumer == "")) [
  | inl e ↦ rw (e, reset_processed_event_for_replay) (all rows)
  | inr e ↦ rw (e, reset_processed_event_for_replay) (one rows)
]
  where
    all :
        (rows : List ProcessedRow)
        → is_event_processed event_id consumer (delete_where (λ r. r.event_id == event_id) rows)
          ≡ false
    all [] = refl
    all (r ∷ rows) = ground (arith, all rows)

    one :
        (rows : List ProcessedRow)
        → is_event_processed event_id consumer
            (delete_where (λ r. r.event_id == event_id && r.consumer_name == consumer) rows)
          ≡ false
    one [] = refl
    one (r ∷ rows) = ground (arith, one rows)

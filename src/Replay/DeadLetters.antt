-- ===== src/Replay/DeadLetters.antt =====
-- src/replay/event-replay-service.ts, replayDLQ: what one replay of a dead letter leaves, whatever calls fail.
use event_driven_kafka.Base.{ℕ, String, false, Option, none, some, ◌≡◌, ◌≢◌, refl, ap, ◌∙◌, inr}
use event_driven_kafka.Database.Dlq.{
  DlqStatus, unresolved, replaying, replayed, discarded, DlqRow, get_dlq_message,
}
use event_driven_kafka.Database.Processed.{is_event_processed}
use event_driven_kafka.World.{World}
use event_driven_kafka.Exec.{Result, ok, err, gets, query, try_catch}
use event_driven_kafka.Exec.Worlds.{
  calm, Condition, Upholds, Upholds-gets, Upholds-throw, Upholds-try_catch,
}
use event_driven_kafka.Exec.Changes.{query-Told, asked_Upholds}
use event_driven_kafka.Replay.{
  ReplayResult, success, failure, resend, give_back, replay_row, replay_found, replay_dlq,
}
use event_driven_kafka.Replay.Resend.{
  resent, delivered, released, closed, AtMostOnce, Failed, Resent, resend-Resent,
  give_back-AtMostOnce, reopened, unprocessed,
}

-- What a successful replay of the row leaves.
pub record IsRedelivered (id : String) (v : World) (row : DlqRow) (w : World) : Type 0 where
  pub world :
      w ≡ delivered v (closed id row v.clock (released id row v.clock v.db)) (resent id row v)
  pub closes :
      get_dlq_message id w.db.dlq_messages
      ≡ some (record row { status = replayed; resolved_at = some v.clock })
  pub reopens :
      is_event_processed row.message.event_id row.message.consumer_name w.db.processed_events
      ≡ false

abbrev pub DlqReplayed : String → World → Result ReplayResult → Condition
DlqReplayed id v (ok r) w =
    (row : DlqRow) × (get_dlq_message id v.db.dlq_messages ≡ some row)
    × (row.status ≢ discarded)
    × AtMostOnce id row v w
    × (r.status ≡ success → IsRedelivered id v row w)
DlqReplayed id v (err x) w = w ≡ v

module _ (id : String) (started : ℕ) (v : World) where
  redelivered_lem :
      (row : DlqRow) (w : World)
      → get_dlq_message id v.db.dlq_messages ≡ some row
      → w ≡ delivered v (closed id row v.clock (released id row v.clock v.db)) (resent id row v)
      → IsRedelivered id v row w
  redelivered_lem row w q p = record {
    world = p;
    closes =
        ap (λ (w : World). get_dlq_message id w.db.dlq_messages) p
        ∙ reopened id row v.clock v.db.dlq_messages q;
    reopens =
        ap
          (λ (w : World).
            is_event_processed row.message.event_id row.message.consumer_name w.db.processed_events)
          p
        ∙ unprocessed row.message.event_id row.message.consumer_name v.db.processed_events;
  }

  tried :
      (row : DlqRow)
      → get_dlq_message id v.db.dlq_messages ≡ some row
      → row.status ≢ discarded
      → Upholds
          (λ w. w ≡ v)
          (try_catch (resend id row started) (give_back id row started))
          (DlqReplayed id v)
  tried row q n =
      Upholds-try_catch _ _ (Resent id row v) (resend-Resent id row started v)
        (λ r w p. (row, q, n, (_, inr p.1), λ e. redelivered_lem row w q p.1))
        (λ x. record { at = λ w p. go _ _ ((give_back-AtMostOnce id row v started x).at w p) })
    where
      go :
          (r : Result ReplayResult) (w : World)
          → AtMostOnce id row v w × Failed r
          → DlqReplayed id v r w
      go (ok r) w p = (row, q, n, p.0, λ e. absurd (clash e p.1))
        where
          clash : r.status ≡ success → r.status ≡ failure → ⊥
          clash e f = cc
      go (err x) w p = elim p.1 [ ]

  replay_row-DlqReplayed :
      (status : DlqStatus) (row : DlqRow)
      → row.status ≡ status
      → get_dlq_message id v.db.dlq_messages ≡ some row
      → Upholds (λ w. w ≡ v) (replay_row id started status row) (DlqReplayed id v)
  replay_row-DlqReplayed discarded row s q = Upholds-throw _ (λ w p. p)
  replay_row-DlqReplayed unresolved row s q = tried row q (λ e. cc)
  replay_row-DlqReplayed replaying row s q = tried row q (λ e. cc)
  replay_row-DlqReplayed replayed row s q = tried row q (λ e. cc)

  replay_found-DlqReplayed :
      (found : Option DlqRow)
      → get_dlq_message id v.db.dlq_messages ≡ found
      → Upholds (λ w. w ≡ v) (replay_found id started found) (DlqReplayed id v)
  replay_found-DlqReplayed none q = Upholds-throw _ (λ w p. p)
  replay_found-DlqReplayed (some row) q = replay_row-DlqReplayed row.status row refl q

-- Whatever calls fail, replayDLQ either throws and changes nothing, or the dead letter is there and is not
-- discarded, and at most one message is sent. When it reports success, the original event was sent
-- once to the letter's topic, the letter is REPLAYED, with the time, and the event counts as not
-- processed for the consumer that gave it up.
pub replay_dlq_once :
    (id : String) (w : World)
    → DlqReplayed id (calm w) (replay_dlq id w).0 (calm (replay_dlq id w).1)
unfolding replay_dlq
replay_dlq_once id w =
    (asked_Upholds {Q = DlqReplayed id v} (gets λ w. w.clock) _ (λ w. w.clock) v
        (Upholds-gets _ λ w p. (p, ap (λ (w : World). w.clock) p))
        (asked_Upholds (query λ db. get_dlq_message id db.dlq_messages) (replay_found id v.clock)
          (λ w. get_dlq_message id w.db.dlq_messages) v
          (query-Told (λ db. get_dlq_message id db.dlq_messages) v)
          (replay_found-DlqReplayed id v.clock v (get_dlq_message id v.db.dlq_messages) refl)
          (λ x. refl))
        (λ x. refl)).at
      w refl
  where
    v : World
    v = calm w

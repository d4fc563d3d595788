-- ===== src/Replay/Live.antt =====
-- src/application/projections/projection-consumer.ts and src/replay/event-replay-service.ts: what the live
-- projection makes of an order's row, and what a replay would make of it.
use event_driven_kafka.Base.{
  ℕ, ◌+◌, String, false, List, [], ◌∷◌, ◌++◌, Option, none, some, ◌≡◌, refl, sym, ap, ◌∙◌, inl, inr,
  ◌==◌, if◌then◌else◌, Bool-cases,
}
use event_driven_kafka.Json.{wire_fields}
use event_driven_kafka.Contracts.{EventType, order_created, EventEnvelope}
use event_driven_kafka.Database.{Db}
use event_driven_kafka.Database.EventStore.{
  EventRow, has_event, event_row, last_sequence, envelope_of_row, insert_event,
  append_to_event_store, get_events_by_aggregate_id,
}
use event_driven_kafka.Database.EventStore.Log.{added, inserted, insert_extends_log}
use event_driven_kafka.Database.ReadModels.{OrderView, find_order}
use event_driven_kafka.World.{Env}
use event_driven_kafka.Projection.Statements.{new_view}
use event_driven_kafka.Projection.Effects.{projected}
use event_driven_kafka.Projection.Views.{view_step, projected_view}
use event_driven_kafka.Projection.Marks.{projected_only}
use event_driven_kafka.Replay.Loop.{view_after}

-- The row of each order is what its log makes of no row.
abbrev pub InSync : Env → Db → Type 0
InSync env db =
    (a : String)
    → find_order a db.order_read_model
      ≡ view_after env (get_events_by_aggregate_id env.stored_time a db.event_store) none

-- An event as its producer sends it, with a time that a TIMESTAMP column and toISOString keep.
pub record IsPlain (stored_time : String → String) (e : EventEnvelope) : Type 0 where
  pub unnumbered : e.sequence_number ≡ none
  pub dated : stored_time e.occurred_at ≡ e.occurred_at
  pub payload : wire_fields e.payload ≡ e.payload

view_after-append :
    (env : Env) (xs ys : List EventEnvelope) (o : Option OrderView)
    → view_after env (xs ++ ys) o ≡ view_after env ys (view_after env xs o)
unfolding view_after
view_after-append env [] ys o = refl
view_after-append env (x ∷ xs) ys o = view_after-append env xs ys (view_step x.event_type env x o)

-- The number and the schema version are not looked at.
view_step-numbered :
    (t : EventType) (env : Env) (e : EventEnvelope) (n v : ℕ) (o : Option OrderView)
    → view_step t env (record e { sequence_number = some n; schema_version = v }) o
      ≡ view_step t env e o
unfolding new_view
view_step-numbered order_created env e n v o = refl
view_step-numbered _ env e n v o = refl

view_step-stored :
    (env : Env) (e : EventEnvelope) (n : ℕ) (o : Option OrderView)
    → IsPlain env.stored_time e
    → view_step e.event_type env (envelope_of_row env.stored_time (event_row e n)) o
      ≡ view_step e.event_type env e o
view_step-stored env e n o p =
    ap
      (λ at.
        view_step e.event_type env
          (record e {
            sequence_number = some n;
            schema_version = 1;
            occurred_at = at;
            payload = wire_fields e.payload;
          })
          o)
      p.dated
    ∙ ap
        (λ fs.
          view_step e.event_type env
            (record e { sequence_number = some n; schema_version = 1; payload = fs }) o)
        p.payload
    ∙ view_step-numbered e.event_type env e n 1 o

log-after :
    (stored_time : String → String) (e : EventEnvelope) (rows after : List EventRow)
    → e.sequence_number ≡ none
    → insert_event e rows ≡ some after
    → (a : String)
    → get_events_by_aggregate_id stored_time a after
      ≡ get_events_by_aggregate_id stored_time a rows ++ added stored_time e a rows
log-after stored_time e rows after n q a =
    let x = insert_extends_log stored_time e rows n in
    ap (get_events_by_aggregate_id stored_time a) (some_inj after x.0 (sym q ∙ x.1)) ∙ x.2 a
  where
    some_inj : (r s : List EventRow) → some r ≡ some s → r ≡ s
    some_inj r s q = cc

-- The log with the event, and the row with the event, agree again.
pub still_InSync :
    (env : Env) (now : ℕ) (e : EventEnvelope) (db u d : Db) (after : List EventRow)
    → InSync env db
    → IsPlain env.stored_time e
    → has_event e.event_id db.event_store ≡ false
    → append_to_event_store env.fits_columns e db.event_store ≡ some after
    → u.order_read_model ≡ db.order_read_model
    → u.event_store ≡ after
    → projected e env now u ≡ some d
    → InSync env d
unfolding view_after
still_InSync env now e db u d after s p fresh appended same stored done a =
    projected_view a env now e u d done
    ∙ ap
        (λ rows.
          if e.aggregate_id == a
          then view_step e.event_type env e (find_order a rows)
          else find_order a rows)
        same
    ∙ ap (λ o. if e.aggregate_id == a then view_step e.event_type env e o else o) (s a)
    ∙ stepped
    ∙ sym (view_after-append env old_log (added env.stored_time e a db.event_store) none)
    ∙ ap (λ es. view_after env es none)
        (sym (
          log-after env.stored_time e db.event_store after p.unnumbered
            (inserted env.fits_columns e db.event_store after appended) a))
    ∙ ap (λ rows. view_after env (get_events_by_aggregate_id env.stored_time a rows) none)
        (sym stored ∙ sym (ap (λ (d : Db). d.event_store) (projected_only env now e u d done).4))
  where
    old_log : List EventEnvelope
    old_log = get_events_by_aggregate_id env.stored_time a db.event_store

    stepped :
        (if e.aggregate_id == a
          then view_step e.event_type env e (view_after env old_log none)
          else view_after env old_log none)
        ≡ view_after env (added env.stored_time e a db.event_store) (view_after env old_log none)
    stepped = elim (Bool-cases (e.aggregate_id == a)) [
      | inl own ↦
          rw (fresh, own)
            (sym (
              view_step-stored env e (last_sequence e.aggregate_id db.event_store + 1)
                (view_after env old_log none) p))
      | inr other ↦ rw (fresh, other) refl
    ]

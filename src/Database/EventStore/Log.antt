-- ===== src/Database/EventStore/Log.antt =====
-- src/services/database.ts, appendToEventStore and getEventsByAggregateId: the log of each aggregate.
use event_driven_kafka.Base.{
  ℕ, suc, ◌+◌, ◌≤◌, String, Bool, true, false, List, [], ◌∷◌, ◌++◌, map, none, some, ◌≡◌, refl, ◌≢◌,
  inl, inr, sym, ap, subst, ◌∙◌, arith, ◌==◌, eq_iff, any, where_rows, if◌then◌else◌, Bool-cases,
  All, All-append,
}
use event_driven_kafka.Base.Distinct.{Distinct, All-weaken}
use event_driven_kafka.Base.Sorted.{sort_rows, sort_rows-append}
use event_driven_kafka.Contracts.{EventEnvelope}
use event_driven_kafka.Database.EventStore.{
  EventRow, last_sequence, sequence_for, event_row, same_sequence, has_event, insert_row,
  insert_event, append_to_event_store, of_aggregate, earlier, envelope_of_row,
  get_events_by_aggregate_id,
}

last_sequence-bounds :
    (a : String) (rows : List EventRow)
    → All (λ r. r.aggregate_id ≡ a → r.sequence_number ≤ last_sequence a rows) rows
unfolding last_sequence
last_sequence-bounds a [] = tt
last_sequence-bounds a (r ∷ rows) = (
  ground (arith, eq_iff r.aggregate_id a),
  All-weaken (λ s. s.aggregate_id ≡ a → s.sequence_number ≤ last_sequence a rows)
      (λ s. s.aggregate_id ≡ a → s.sequence_number ≤ last_sequence a (r ∷ rows))
      (λ s h. ground arith) rows (last_sequence-bounds a rows),
)

-- Ids and numbers are unique, as the table's constraints say.
abbrev pub Numbered : List EventRow → Type 0
Numbered [] = Unit
Numbered (r ∷ rows) = All (λ s. same_sequence s r ≡ false) rows × Numbered rows

pub record IsLog (rows : List EventRow) : Type 0 where
  pub keyed : Distinct (map (λ r. r.event_id) rows)
  pub numbered : Numbered rows

-- Every number of the aggregate is below the next one.
abbrev Below : String → ℕ → List EventRow → Type 0
Below a n rows = All (λ r. r.aggregate_id ≡ a → suc r.sequence_number ≤ n) rows

next-Below : (a : String) (rows : List EventRow) → Below a (last_sequence a rows + 1) rows
next-Below a rows =
    All-weaken (λ r. r.aggregate_id ≡ a → r.sequence_number ≤ last_sequence a rows)
      (λ r. r.aggregate_id ≡ a → suc r.sequence_number ≤ last_sequence a rows + 1)
      (λ r h p. let k = h p in omega arith) rows (last_sequence-bounds a rows)

no_conflict :
    (new : EventRow) (rows : List EventRow)
    → Below new.aggregate_id new.sequence_number rows
    → any (same_sequence new) rows ≡ false
no_conflict new [] h = refl
no_conflict new (r ∷ rows) h =
    ground (arith, eq_iff new.aggregate_id r.aggregate_id, h.0, no_conflict new rows h.1)

last-earlier :
    (new : EventRow) (rows : List EventRow)
    → Below new.aggregate_id new.sequence_number rows
    → All (λ r. earlier r new ≡ true) (of_aggregate new.aggregate_id rows)
last-earlier new [] h = tt
last-earlier new (r ∷ rows) h = elim (Bool-cases (r.aggregate_id == new.aggregate_id)) [
  | inl e ↦ rw e (
    let k = h.0 ((eq_iff r.aggregate_id new.aggregate_id).0 e) in ground arith,
    last-earlier new rows h.1,
  )
  | inr e ↦ rw e (last-earlier new rows h.1)
]

where_rows-append :
    (p : EventRow → Bool) (rows : List EventRow) (r : EventRow)
    → where_rows p (rows ++ r ∷ []) ≡ where_rows p rows ++ (if p r then r ∷ [] else [])
where_rows-append p [] r = ground arith
where_rows-append p (s ∷ rows) r = ground (arith, where_rows-append p rows r)

append-nil {ℓ} : {A : Type ℓ} (rows : List A) → rows ++ [] ≡ rows
append-nil [] = refl
append-nil (r ∷ rows) = ap (λ rows. r ∷ rows) (append-nil rows)

map-append :
    (f : EventRow → EventEnvelope) (rows : List EventRow) (r : EventRow)
    → map f (rows ++ r ∷ []) ≡ map f rows ++ f r ∷ []
map-append f [] r = refl
map-append f (s ∷ rows) r = ap (λ es. f s ∷ es) (map-append f rows r)

-- What an append adds to the log of the aggregate `a`.
abbrev pub added : (String → String) → EventEnvelope → String → List EventRow → List EventEnvelope
added stored_time e a rows =
    if has_event e.event_id rows
    then []
    else if e.aggregate_id == a
    then envelope_of_row stored_time (event_row e (last_sequence e.aggregate_id rows + 1)) ∷ []
    else []

get-insert :
    (stored_time : String → String) (a : String) (new : EventRow) (rows : List EventRow)
    → Below new.aggregate_id new.sequence_number rows
    → get_events_by_aggregate_id stored_time a (rows ++ new ∷ [])
      ≡ get_events_by_aggregate_id stored_time a rows
        ++ (if new.aggregate_id == a then envelope_of_row stored_time new ∷ [] else [])
unfolding get_events_by_aggregate_id
get-insert stored_time a new rows h = elim (Bool-cases (new.aggregate_id == a)) [
  | inl e ↦
      read (where_rows-append p rows new)
      ∙ rw e (
          ap (map f) (
            sort_rows-append earlier (of_aggregate a rows) new (
              subst (λ a. All (λ r. earlier r new ≡ true) (of_aggregate a rows))
                ((eq_iff new.aggregate_id a).0 e) (last-earlier new rows h)))
          ∙ map-append f (sort_rows earlier (of_aggregate a rows)) new)
  | inr e ↦
      read (where_rows-append p rows new)
      ∙ rw e (read (append-nil (of_aggregate a rows)) ∙ sym (append-nil _))
]
  where
    p : EventRow → Bool
    p r = r.aggregate_id == a

    f : EventRow → EventEnvelope
    f = envelope_of_row stored_time

    read : {r s : List EventRow} → r ≡ s → map f (sort_rows earlier r) ≡ map f (sort_rows earlier s)
    read q = ap (λ rows. map f (sort_rows earlier rows)) q

-- An append that is not refused is an insertion.
pub inserted :
    (fits : EventRow → Bool) (e : EventEnvelope) (rows after : List EventRow)
    → append_to_event_store fits e rows ≡ some after
    → insert_event e rows ≡ some after
unfolding append_to_event_store
inserted fits e rows after p =
    elim (Bool-cases (fits (event_row e (sequence_for e.sequence_number e.aggregate_id rows)))) [
      | inl k ↦ rw k at p
      | inr k ↦ absurd (ground (arith, k, p))
    ]

pub insert_extends_log :
    (stored_time : String → String) (e : EventEnvelope) (rows : List EventRow)
    → e.sequence_number ≡ none
    → (after : List EventRow) × (insert_event e rows ≡ some after)
      × ((a : String)
          → get_events_by_aggregate_id stored_time a after
            ≡ get_events_by_aggregate_id stored_time a rows ++ added stored_time e a rows)
unfolding insert_event
insert_extends_log stored_time e rows n = elim (Bool-cases (has_event e.event_id rows)) [
  | inl known ↦ (rows, rw known refl, λ a. rw known (sym (append-nil _)))
  | inr fresh ↦ (
    rows ++ new ∷ [],
    rw fresh
        (ap (λ k. insert_row (event_row e k) rows) number ∙ rw (no_conflict new rows below) refl),
    λ a. get-insert stored_time a new rows below ∙ rw fresh refl,
  )
]
  where
    new : EventRow
    new = event_row e (last_sequence e.aggregate_id rows + 1)

    below : Below e.aggregate_id new.sequence_number rows
    below = next-Below e.aggregate_id rows

    number :
        sequence_for e.sequence_number e.aggregate_id rows ≡ last_sequence e.aggregate_id rows + 1
    number = ap (λ o. sequence_for o e.aggregate_id rows) n

-- An event without a number of its own, whose row fits the columns, is accepted. If its id is new, it
-- becomes the last event of its aggregate's log, under the next number; if its id is known, it
-- is ignored. The logs of other aggregates stay as they are.
pub append_extends_log :
    (fits : EventRow → Bool) (stored_time : String → String) (e : EventEnvelope)
    (rows : List EventRow)
    → e.sequence_number ≡ none
    → fits (event_row e (last_sequence e.aggregate_id rows + 1)) ≡ true
    → (after : List EventRow) × (append_to_event_store fits e rows ≡ some after)
      × ((a : String)
          → get_events_by_aggregate_id stored_time a after
            ≡ get_events_by_aggregate_id stored_time a rows ++ added stored_time e a rows)
unfolding append_to_event_store
append_extends_log fits stored_time e rows n f =
    let (after, done, logs) = insert_extends_log stored_time e rows n in
    (after, rw (ap (λ o. fits (event_row e (sequence_for o e.aggregate_id rows))) n ∙ f) done, logs)

Distinct-append :
    (new : EventRow) (rows : List EventRow)
    → has_event new.event_id rows ≡ false
    → Distinct (map (λ r. r.event_id) rows)
    → Distinct (map (λ r. r.event_id) (rows ++ new ∷ []))
Distinct-append new [] h d = (tt, tt)
Distinct-append new (r ∷ rows) h d =
    (not_new r rows (ground arith) d.0, Distinct-append new rows (ground arith) d.1)
  where
    not_new :
        (r : EventRow) (rows : List EventRow)
        → (r.event_id == new.event_id) ≡ false
        → All (λ i. i ≢ r.event_id) (map (λ r. r.event_id) rows)
        → All (λ i. i ≢ r.event_id) (map (λ r. r.event_id) (rows ++ new ∷ []))
    not_new r [] e a = (λ q. ground (arith, eq_iff r.event_id new.event_id), tt)
    not_new r (s ∷ rows) e a = (a.0, not_new r rows e a.1)

Numbered-append :
    (new : EventRow) (rows : List EventRow)
    → any (same_sequence new) rows ≡ false
    → Numbered rows
    → Numbered (rows ++ new ∷ [])
Numbered-append new [] h d = (tt, tt)
Numbered-append new (r ∷ rows) h d = (
  All-append (λ s. same_sequence s r ≡ false) rows (new ∷ []) d.0 (ground arith, tt),
  Numbered-append new rows (ground arith) d.1,
)

-- Whatever numbers the events carry, every insertion that is accepted keeps the event ids unique, and the
-- sequence numbers unique within each aggregate.
pub insert_event-IsLog :
    (e : EventEnvelope) (rows after : List EventRow)
    → IsLog rows
    → insert_event e rows ≡ some after
    → IsLog after
unfolding insert_event
insert_event-IsLog e rows after v p = elim (Bool-cases (has_event e.event_id rows)) [
  | inl known ↦ subst IsLog (some_inj rows after (sym (rw known refl) ∙ p)) v
  | inr fresh ↦ elim (Bool-cases (any (same_sequence new) rows)) [
    | inl clash ↦ absurd (ground (arith, fresh, clash, p))
    | inr free ↦
        subst IsLog (some_inj (rows ++ new ∷ []) after (ground (arith, fresh, free, p))) (record {
          keyed = Distinct-append new rows fresh v.keyed;
          numbered = Numbered-append new rows free v.numbered;
        })
  ]
]
  where
    new : EventRow
    new = event_row e (sequence_for e.sequence_number e.aggregate_id rows)

    some_inj : (r s : List EventRow) → some r ≡ some s → r ≡ s
    some_inj r s q = cc

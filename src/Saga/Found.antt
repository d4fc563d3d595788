-- ===== src/Saga/Found.antt =====
-- src/services/database.ts, getSagaByAggregateId: the saga that is found after a save.
use event_driven_kafka.Base.{
  ℕ, subst, String, ◌<>◌, List, [], ◌∷◌, none, some, ◌≡◌, refl, sym, ap, ◌∙◌, ◌≢◌, inl, inr, arith,
  ◌==◌, eq_iff, Bool-cases, All,
}
use event_driven_kafka.Base.Distinct.{Distinct}
use event_driven_kafka.Base.Table.{upsert}
use event_driven_kafka.Database.Sagas.{
  SagaRow, SagaInstance, saga_row, same_saga, merge_saga, save_saga_instance,
  get_saga_by_aggregate_id,
}
use event_driven_kafka.Saga.Rows.{IsSagaTable, saga_ids, found_row}
use text.Mathlib.TextLemmas.{append_cancel_left}

abbrev AllNamed : List SagaRow → Type 0
AllNamed rows = All (λ r. r.saga_id ≡ "saga_" <> r.aggregate_id) rows

absent :
    (a : String) (rows : List SagaRow)
    → AllNamed rows
    → All (λ i. i ≢ "saga_" <> a) (saga_ids rows)
    → get_saga_by_aggregate_id a rows ≡ none
unfolding get_saga_by_aggregate_id
absent a [] named other = refl
absent a (r ∷ rows) named other = elim (Bool-cases (r.aggregate_id == a)) [
  | inl hit ↦ absurd (other.0 (named.0 ∙ ap (λ x. "saga_" <> x) ((eq_iff r.aggregate_id a).0 hit)))
  | inr miss ↦ rw miss (absent a rows named.1 other.1)
]

found_update :
    (a : String) (saga new : SagaRow) (rows : List SagaRow)
    → AllNamed rows
    → Distinct (saga_ids rows)
    → get_saga_by_aggregate_id a rows ≡ some saga
    → new.saga_id ≡ saga.saga_id
    → get_saga_by_aggregate_id a (upsert same_saga merge_saga new rows) ≡ some (merge_saga saga new)
unfolding get_saga_by_aggregate_id
found_update a saga new [] named keyed found i = cc
found_update a saga new (r ∷ rows) named keyed found i = elim (Bool-cases (r.aggregate_id == a)) [
  | inl hit ↦
      let id : r.saga_id ≡ "saga_" <> a =
        named.0 ∙ ap (λ x. "saga_" <> x) ((eq_iff r.aggregate_id a).0 hit) in
      let gone : get_saga_by_aggregate_id a rows ≡ none =
        absent a rows named.1 (subst (λ i. All (λ j. j ≢ i) (saga_ids rows)) id keyed.0) in
      let same : r ≡ saga = ground (arith, hit, gone, found) in
      rw ((eq_iff r.saga_id new.saga_id).1 (ap (λ x. x.saga_id) same ∙ sym i))
        (rw hit (rw gone (ap (λ x. some (merge_saga x new)) same)))
  | inr miss ↦
      let later : get_saga_by_aggregate_id a rows ≡ some saga = rw miss at found in
      let own : (saga.saga_id ≡ "saga_" <> saga.aggregate_id) × (saga.aggregate_id ≡ a) =
        found_row (λ x. x.saga_id ≡ "saga_" <> x.aggregate_id) a rows saga later named.1 in
      elim (Bool-cases (r.saga_id == new.saga_id)) [
        | inl same ↦ absurd (
            ground (
              arith,
              miss,
              (eq_iff r.aggregate_id a).1 (
                  append_cancel_left "saga_" r.aggregate_id a (
                    sym named.0
                    ∙ (eq_iff r.saga_id new.saga_id).0 same
                    ∙ i
                    ∙ own.0
                    ∙ ap (λ x. "saga_" <> x) own.1)),
            ))
        | inr other ↦ rw other (rw miss (found_update a saga new rows named.1 keyed.1 later i))
      ]
]

pub found_save :
    (a : String) (saga : SagaRow) (s : SagaInstance) (now : ℕ) (rows : List SagaRow)
    → IsSagaTable rows
    → get_saga_by_aggregate_id a rows ≡ some saga
    → s.saga_id ≡ saga.saga_id
    → get_saga_by_aggregate_id a (save_saga_instance s now rows)
      ≡ some (merge_saga saga (saga_row now s))
unfolding save_saga_instance
found_save a saga s now rows v found i =
    found_update a saga (saga_row now s) rows v.named v.keyed found i

-- ===== src/Saga/Rows.antt =====
-- The table of saga instances: what the orchestrator keeps true of it, and how one save changes it.
use event_driven_kafka.Base.{
  ℕ, String, ◌<>◌, true, List, [], ◌∷◌, map, none, some, ◌≡◌, refl, ◌≢◌, ◌⊎◌, inl, inr, sym, ap,
  ◌∙◌, subst, arith, ◌==◌, eq_iff, eq_refl, ltb, any, Bool-cases, Option-cases, All,
}
use event_driven_kafka.Base.Distinct.{Distinct, Distinct-key, All-weaken, All-both}
use event_driven_kafka.Base.Table.{upsert, All-upsert}
use event_driven_kafka.Database.Sagas.{
  SagaState, created, payment_pending, inventory_pending, fraud_pending, shipping_pending,
  completed, compensating, cancelled, failed, SagaRow, SagaInstance, saga_row, same_saga,
  merge_saga, save_saga_instance, get_saga_by_aggregate_id,
}
use text.Mathlib.TextLemmas.{append_cancel_left}

abbrev pub saga_ids : List SagaRow → List String
saga_ids = map (λ r. r.saga_id)

-- Saga ids are distinct, and each is made from its order's id.
pub record IsSagaTable (rows : List SagaRow) : Type 0 where
  pub keyed : Distinct (saga_ids rows)
  pub named : All (λ r. r.saga_id ≡ "saga_" <> r.aggregate_id) rows

-- What holds of every row holds of the row that is found.
pub found_row {ℓ} :
    (Q : SagaRow → Type ℓ) (a : String) (rows : List SagaRow) (s : SagaRow)
    → get_saga_by_aggregate_id a rows ≡ some s
    → All Q rows
    → Q s × (s.aggregate_id ≡ a)
unfolding get_saga_by_aggregate_id
found_row Q a [] s e h = cc
found_row Q a (r ∷ rows) s e h = elim (Bool-cases (r.aggregate_id == a)) [
  | inr miss ↦ found_row Q a rows s (ground arith) h.1
  | inl hit ↦ elim (Option-cases (get_saga_by_aggregate_id a rows)) [
    | inl n ↦
        let same : r ≡ s = ground arith in
        (subst Q same h.0, ap (λ x. x.aggregate_id) (sym same) ∙ (eq_iff r.aggregate_id a).0 hit)
    | inr (t, f) ↦ elim (Bool-cases (ltb r.created_at t.created_at)) [
      | inl older ↦ found_row Q a rows s (ground arith) h.1
      | inr newer_ ↦
          let same : r ≡ s = ground arith in
          (subst Q same h.0, ap (λ x. x.aggregate_id) (sym same) ∙ (eq_iff r.aggregate_id a).0 hit)
    ]
  ]
]

pub found_none :
    (a : String) (rows : List SagaRow)
    → get_saga_by_aggregate_id a rows ≡ none
    → All (λ r. r.aggregate_id ≢ a) rows
unfolding get_saga_by_aggregate_id
found_none a [] e = tt
found_none a (r ∷ rows) e = elim (Bool-cases (r.aggregate_id == a)) [
  | inl hit ↦ absurd (ground (arith, eq_iff r.aggregate_id a))
  | inr miss ↦ (λ p. ground (arith, eq_iff r.aggregate_id a), found_none a rows (ground arith))
]

-- The moves that the orchestrator makes.
pub data Edge : SagaState → SagaState → Type 0 where
  start : Edge created payment_pending
  authorize : Edge payment_pending inventory_pending
  decline : Edge payment_pending failed
  reserve : Edge inventory_pending fraud_pending
  run_out : Edge inventory_pending compensating
  approve : Edge fraud_pending shipping_pending
  reject : Edge fraud_pending compensating
  ship : Edge shipping_pending completed
  miss_shipment : Edge shipping_pending compensating
  wait : Edge compensating compensating
  cancel : Edge compensating cancelled

-- The row is as it was, or it is the saga of the order `a`, moved along one edge.
abbrev pub RowStep : String → SagaRow → SagaRow → Type 0
RowStep a r s =
    (r ≡ s)
    ⊎ ((r.aggregate_id ≡ a)
        × (s.aggregate_id ≡ a)
        × (s.saga_id ≡ r.saga_id)
        × (s.created_at ≡ r.created_at)
        × Edge r.state s.state)

-- Every row makes a step, and a row that is new is the order's saga, waiting for its payment.
abbrev pub Evolves : String → List SagaRow → List SagaRow → Type 0
Evolves a [] rows = All (λ s. (s.aggregate_id ≡ a) × (s.state ≡ payment_pending)) rows
Evolves a (r ∷ rows) [] = ⊥
Evolves a (r ∷ rows) (s ∷ rows') = RowStep a r s × Evolves a rows rows'

pub Evolves-refl : (a : String) (rows : List SagaRow) → Evolves a rows rows
Evolves-refl a [] = tt
Evolves-refl a (r ∷ rows) = (inl refl, Evolves-refl a rows)

any_self : (rows : List SagaRow) → All (λ s. any (λ r. r.saga_id == s.saga_id) rows ≡ true) rows
any_self [] = tt
any_self (r ∷ rows) = (
  rw (eq_refl r.saga_id),
  All-weaken _ (λ s. any (λ r. r.saga_id == s.saga_id) (r ∷ rows) ≡ true) (λ s h. ground arith) rows
      (any_self rows),
)

update-Evolves :
    (a : String) (saga : SagaRow) (new : SagaRow) (rows : List SagaRow)
    → new.saga_id ≡ saga.saga_id
    → saga.aggregate_id ≡ a
    → Edge saga.state new.state
    → All (λ r. r.saga_id ≡ saga.saga_id → r ≡ saga) rows
    → any (λ r. r.saga_id == saga.saga_id) rows ≡ true
    → Evolves a rows (upsert same_saga merge_saga new rows)
update-Evolves a saga new [] i g edge only e = cc
update-Evolves a saga new (r ∷ rows) i g edge only e =
    elim (Bool-cases (r.saga_id == new.saga_id)) [
      | inl hit ↦
          let same : r ≡ saga = only.0 ((eq_iff r.saga_id new.saga_id).0 hit ∙ i) in
          rw hit (
            inr (
              ap (λ x. x.aggregate_id) same ∙ g,
              ap (λ x. x.aggregate_id) same ∙ g,
              refl,
              refl,
              subst (λ x. Edge x.state new.state) (sym same) edge,
            ),
            Evolves-refl a rows,
          )
      | inr miss ↦ rw miss (
        inl refl,
        update-Evolves a saga new rows i g edge only.1
            (ground (arith, eq_iff r.saga_id saga.saga_id, eq_iff r.saga_id new.saga_id)),
      )
    ]

insert-Evolves :
    (a : String) (new : SagaRow) (rows : List SagaRow)
    → new.aggregate_id ≡ a
    → new.state ≡ payment_pending
    → All (λ r. r.saga_id ≢ new.saga_id) rows
    → Evolves a rows (upsert same_saga merge_saga new rows)
insert-Evolves a new [] g p n = ((g, p), tt)
insert-Evolves a new (r ∷ rows) g p n = elim (Bool-cases (r.saga_id == new.saga_id)) [
  | inl hit ↦ absurd (n.0 ((eq_iff r.saga_id new.saga_id).0 hit))
  | inr miss ↦ rw miss (inl refl, insert-Evolves a new rows g p n.1)
]

-- Saving the saga that was found moves its row alone.
pub save-Evolves :
    (a : String) (saga : SagaRow) (s : SagaInstance) (now : ℕ) (rows : List SagaRow)
    → IsSagaTable rows
    → get_saga_by_aggregate_id a rows ≡ some saga
    → s.saga_id ≡ saga.saga_id
    → Edge saga.state s.state
    → Evolves a rows (save_saga_instance s now rows)
unfolding save_saga_instance
save-Evolves a saga s now rows v found i edge =
    let (only, g) =
      found_row (λ s. All (λ r. r.saga_id ≡ s.saga_id → r ≡ s) rows) a rows saga found
        (Distinct-key (λ r. r.saga_id) rows v.keyed) in
    update-Evolves a saga (saga_row now s) rows i g edge only
      (found_row (λ s. any (λ r. r.saga_id == s.saga_id) rows ≡ true) a rows saga found
        (any_self rows)).0

-- Where there is no saga of the order, the new one conflicts with no row.
pub no_conflict :
    (a : String) (rows : List SagaRow)
    → IsSagaTable rows
    → get_saga_by_aggregate_id a rows ≡ none
    → All (λ r. r.saga_id ≢ "saga_" <> a) rows
no_conflict a rows v e =
    All-weaken (λ r. (r.saga_id ≡ "saga_" <> r.aggregate_id) × (r.aggregate_id ≢ a))
      (λ r. r.saga_id ≢ "saga_" <> a)
      (λ r h p. h.1 (append_cancel_left "saga_" r.aggregate_id a (sym h.0 ∙ p))) rows
      (All-both _ _ rows v.named (found_none a rows e))

pub start-Evolves :
    (a : String) (s : SagaInstance) (now : ℕ) (rows : List SagaRow)
    → IsSagaTable rows
    → get_saga_by_aggregate_id a rows ≡ none
    → s.saga_id ≡ "saga_" <> a
    → s.aggregate_id ≡ a
    → s.state ≡ payment_pending
    → Evolves a rows (save_saga_instance s now rows)
unfolding save_saga_instance
start-Evolves a s now rows v e i g p =
    insert-Evolves a (saga_row now s) rows g p (rw i (no_conflict a rows v e))

All-ids-upsert :
    (i : String) (new : SagaRow) (rows : List SagaRow)
    → new.saga_id ≢ i
    → All (λ j. j ≢ i) (saga_ids rows)
    → All (λ j. j ≢ i) (saga_ids (upsert same_saga merge_saga new rows))
All-ids-upsert i new [] n h = (n, tt)
All-ids-upsert i new (r ∷ rows) n h = elim (Bool-cases (r.saga_id == new.saga_id)) [
  | inl e ↦ rw e h
  | inr e ↦ rw e (h.0, All-ids-upsert i new rows n h.1)
]

Distinct-upsert :
    (new : SagaRow) (rows : List SagaRow)
    → Distinct (saga_ids rows)
    → Distinct (saga_ids (upsert same_saga merge_saga new rows))
Distinct-upsert new [] h = (tt, tt)
Distinct-upsert new (r ∷ rows) h = elim (Bool-cases (r.saga_id == new.saga_id)) [
  | inl e ↦ rw e h
  | inr e ↦ rw e (
    All-ids-upsert r.saga_id new rows (λ p. ground (arith, eq_iff r.saga_id new.saga_id)) h.0,
    Distinct-upsert new rows h.1,
  )
]

-- A save under the order's saga id keeps the table's invariant.
pub save-IsSagaTable :
    (s : SagaInstance) (now : ℕ) (rows : List SagaRow)
    → s.saga_id ≡ "saga_" <> s.aggregate_id
    → IsSagaTable rows
    → IsSagaTable (save_saga_instance s now rows)
unfolding save_saga_instance
save-IsSagaTable s now rows i v = record {
  keyed = Distinct-upsert (saga_row now s) rows v.keyed;
  named =
      All-upsert (λ r. r.saga_id ≡ "saga_" <> r.aggregate_id) same_saga merge_saga (saga_row now s)
        (λ r e h. h) i rows v.named;
}

-- ===== src/Database/Sagas/Listing.antt =====
-- src/services/database.ts, listSagas: how many sagas of a kind it lists.
use event_driven_kafka.Base.{
  ℕ, zero, suc, ◌≤◌, Bool, List, [], ◌∷◌, ◌≡◌, refl, ap, ◌∙◌, arith, length, take, where_rows,
}
use event_driven_kafka.Database.Sagas.{SagaRow, insert_newest_first, newest_first, list_sagas}

module _ (p : SagaRow → Bool) where
  tally : List SagaRow → ℕ
  tally rows = length (where_rows p rows)

  tally-insert :
      (r : SagaRow) (rows : List SagaRow) → tally (insert_newest_first r rows) ≡ tally (r ∷ rows)
  unfolding insert_newest_first tally
  tally-insert r [] = refl
  tally-insert r (s ∷ rows) = ground (arith, tally-insert r rows)

  tally-newest_first : (rows : List SagaRow) → tally (newest_first rows) ≡ tally rows
  unfolding newest_first tally
  tally-newest_first [] = refl
  tally-newest_first (r ∷ rows) =
      tally-insert r (newest_first rows) ∙ ground (arith, tally-newest_first rows)

  tally-take_le : (n : ℕ) (rows : List SagaRow) → tally (take n rows) ≤ tally rows
  unfolding tally
  tally-take_le zero rows = omega arith
  tally-take_le (suc n) [] = omega arith
  tally-take_le (suc n) (r ∷ rows) = ground (arith, tally-take_le n rows)

  tally-take_all :
      (n : ℕ) (rows : List SagaRow) → length rows ≤ n → tally (take n rows) ≡ tally rows
  unfolding tally
  tally-take_all zero [] h = refl
  tally-take_all zero (r ∷ rows) h = absurd (omega arith)
  tally-take_all (suc n) [] h = refl
  tally-take_all (suc n) (r ∷ rows) h = ground (arith, tally-take_all n rows)

  tally-take_bound : (n : ℕ) (rows : List SagaRow) → tally (take n rows) ≤ n
  unfolding tally
  tally-take_bound zero rows = omega arith
  tally-take_bound (suc n) [] = omega arith
  tally-take_bound (suc n) (r ∷ rows) = ground (arith, tally-take_bound n rows)

length-insert :
    (r : SagaRow) (rows : List SagaRow) → length (insert_newest_first r rows) ≡ suc (length rows)
unfolding insert_newest_first
length-insert r [] = refl
length-insert r (s ∷ rows) = ground (arith, length-insert r rows)

length-newest_first : (rows : List SagaRow) → length (newest_first rows) ≡ length rows
unfolding newest_first
length-newest_first [] = refl
length-newest_first (r ∷ rows) =
    length-insert r (newest_first rows) ∙ ap (λ (n : ℕ). suc n) (length-newest_first rows)

-- At most the limit, at most as many as there are, and all where the table has no more rows than the
-- limit.
pub list_sagas_bounds :
    (p : SagaRow → Bool) (n : ℕ) (rows : List SagaRow)
    → let k = length (where_rows p (list_sagas n rows)) in
      (k ≤ n)
      × (k ≤ length (where_rows p rows))
      × (length rows ≤ n → k ≡ length (where_rows p rows))
unfolding list_sagas tally
list_sagas_bounds p n rows = (
  tally-take_bound p n (newest_first rows),
  omega (arith, tally-take_le p n (newest_first rows), tally-newest_first p rows),
  λ h.
      tally-take_all p n (newest_first rows) (omega (arith, length-newest_first rows))
      ∙ tally-newest_first p rows,
)

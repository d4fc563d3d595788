-- ===== src/Database/Leases/Rows.antt =====
-- Which rows the statements on a leased table change: each keeps the ids, and a claim takes only
-- rows that its WHERE clause admits.
use event_driven_kafka.Base.{
  ℕ, String, Bool, true, List, [], ◌∷◌, map, ◌≡◌, refl, ◌≢◌, inl, inr, sym, ap, subst, arith, ◌==◌,
  eq_iff, leb, any, take, where_rows, Bool-cases, All,
}
use event_driven_kafka.Base.Distinct.{
  Distinct, Distinct-key, All-weaken, All-take, All-where_test, any-All, All-map,
}
use event_driven_kafka.Base.Table.{update_where, upsert}
use event_driven_kafka.Database.Leases.{
  Leased, same_id, keep_old, is_claimable, insert_by_age, oldest_first, claimed_ids, in_ids,
}

module _ {ℓ} {C : Type ℓ} where
  abbrev pub ids : List (Leased C) → List String
  ids = map (λ r. r.id)

  pub ids-update_where :
      (p : Leased C → Bool) (f : Leased C → Leased C)
      → ((r : Leased C) → (f r).id ≡ r.id)
      → (rows : List (Leased C)) → ids (update_where p f rows) ≡ ids rows
  ids-update_where p f keep [] = refl
  ids-update_where p f keep (r ∷ rows) = elim (Bool-cases (p r)) [
    | inl e ↦ rw e (cc (keep r, ids-update_where p f keep rows))
    | inr e ↦ rw e (cc (ids-update_where p f keep rows))
  ]

  All-ids-upsert :
      (i : String) (new : Leased C) (rows : List (Leased C))
      → new.id ≢ i
      → All (λ j. j ≢ i) (ids rows)
      → All (λ j. j ≢ i) (ids (upsert same_id keep_old new rows))
  All-ids-upsert i new [] n h = (n, tt)
  All-ids-upsert i new (r ∷ rows) n h = elim (Bool-cases (r.id == new.id)) [
    | inl e ↦ rw e h
    | inr e ↦ rw e (h.0, All-ids-upsert i new rows n h.1)
  ]

  pub Distinct-upsert :
      (new : Leased C) (rows : List (Leased C))
      → Distinct (ids rows)
      → Distinct (ids (upsert same_id keep_old new rows))
  Distinct-upsert new [] h = (tt, tt)
  Distinct-upsert new (r ∷ rows) h = elim (Bool-cases (r.id == new.id)) [
    | inl e ↦ rw e h
    | inr e ↦ rw e (
      All-ids-upsert r.id new rows (λ p. ground (arith, eq_iff r.id new.id)) h.0,
      Distinct-upsert new rows h.1,
    )
  ]

  -- A row with this id is there already: nothing is inserted.
  pub upsert-present :
      (new : Leased C) (rows : List (Leased C))
      → any (λ r. r.id == new.id) rows ≡ true
      → upsert same_id keep_old new rows ≡ rows
  upsert-present new [] h = cc
  upsert-present new (r ∷ rows) h = elim (Bool-cases (r.id == new.id)) [
    | inl e ↦ rw e
    | inr e ↦ rw e (ap (◌∷◌ r) (upsert-present new rows (ground arith)))
  ]

  module _ {κ} (P : Leased C → Type κ) where
    All-insert_by_age :
        (r : Leased C) (rows : List (Leased C)) → P r → All P rows → All P (insert_by_age r rows)
    unfolding insert_by_age
    All-insert_by_age r [] hr h = (hr, tt)
    All-insert_by_age r (s ∷ rows) hr h = elim (Bool-cases (leb r.created_at s.created_at)) [
      | inl e ↦ rw e (hr, h)
      | inr e ↦ rw e (h.0, All-insert_by_age r rows hr h.1)
    ]

    All-oldest_first : (rows : List (Leased C)) → All P rows → All P (oldest_first rows)
    unfolding oldest_first
    All-oldest_first [] h = tt
    All-oldest_first (r ∷ rows) h =
        All-insert_by_age r (oldest_first rows) h.0 (All-oldest_first rows h.1)

  claimed_row :
      (limit now : ℕ) (rows : List (Leased C)) (r : Leased C)
      → All (λ s. s.id ≡ r.id → s ≡ r) rows
      → in_ids (claimed_ids limit now rows) r ≡ true
      → is_claimable now r ≡ true
  unfolding claimed_ids
  claimed_row limit now rows r k e =
      any-All (is_claimable now r ≡ true) (λ i. r.id == i) (claimed_ids limit now rows) e
        (All-map (λ i. (r.id == i) ≡ true → is_claimable now r ≡ true) (λ s. s.id) selected
          (All-take Means limit sorted (
            All-oldest_first Means filtered (
              All-where_test Means (is_claimable now) rows (
                All-weaken _ (λ s. is_claimable now s ≡ true → Means s)
                  (λ s same c e.
                    subst (λ x. is_claimable now x ≡ true) (same (sym ((eq_iff r.id s.id).0 e))) c)
                  rows k)))))
    where
      Means : Leased C → Type 0
      Means s = (r.id == s.id) ≡ true → is_claimable now r ≡ true

      filtered : List (Leased C)
      filtered = where_rows (is_claimable now) rows

      sorted : List (Leased C)
      sorted = oldest_first filtered

      selected : List (Leased C)
      selected = take limit sorted

  -- Where ids are distinct, the ids that a claim selects are those of claimable rows only.
  pub claimed_only_claimable :
      (limit now : ℕ) (rows : List (Leased C))
      → Distinct (ids rows)
      → All (λ r. in_ids (claimed_ids limit now rows) r ≡ true → is_claimable now r ≡ true) rows
  claimed_only_claimable limit now rows d =
      All-weaken _ (λ r. in_ids (claimed_ids limit now rows) r ≡ true → is_claimable now r ≡ true)
        (λ r k e. claimed_row limit now rows r k e) rows (Distinct-key (λ r. r.id) rows d)

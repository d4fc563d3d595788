-- ===== src/Base/Sorted.antt =====
-- ORDER BY on a table: insertion sort by a test, which puts a row before those that it may precede.
use mathlib.Core.Path.{◌≡◌, refl, sym, ap, ◌∙◌}
use mathlib.Core.Bool.{Bool, true}
use mathlib.Core.Logic.{◌≢◌, inl, inr}
use mathlib.Core.List.{List, [], ◌∷◌, ◌++◌, map}
use native.Mathlib.Omega.{arith}
use event_driven_kafka.Base.Tests.{if◌then◌else◌, Bool-cases}
use event_driven_kafka.Base.Lists.{All, where_rows, All-where_rows}
use event_driven_kafka.Base.Distinct.{Distinct, All-map, All-of_map}

module _ {ℓ} {A : Type ℓ} (precedes : A → A → Bool) where
  abbrev pub insert_sorted : A → List A → List A
  insert_sorted x [] = x ∷ []
  insert_sorted x (y ∷ ys) =
      let rest = insert_sorted x ys in if precedes x y then x ∷ y ∷ ys else y ∷ rest

  abbrev pub sort_rows : List A → List A
  sort_rows [] = []
  sort_rows (x ∷ xs) = insert_sorted x (sort_rows xs)

  insert_sorted-append :
      (x m : A) (ys : List A)
      → precedes x m ≡ true
      → insert_sorted x (ys ++ m ∷ []) ≡ insert_sorted x ys ++ m ∷ []
  insert_sorted-append x m [] h = rw h refl
  insert_sorted-append x m (y ∷ ys) h = ground (arith, insert_sorted-append x m ys h)

  -- A row that all others may precede stays last.
  pub sort_rows-append :
      (xs : List A) (m : A)
      → All (λ x. precedes x m ≡ true) xs
      → sort_rows (xs ++ m ∷ []) ≡ sort_rows xs ++ m ∷ []
  sort_rows-append [] m h = refl
  sort_rows-append (x ∷ xs) m h =
      ap (insert_sorted x) (sort_rows-append xs m h.1) ∙ insert_sorted-append x m (sort_rows xs) h.0

  insert_sorted-All {κ} :
      (P : A → Type κ) (x : A) (ys : List A) → P x → All P ys → All P (insert_sorted x ys)
  insert_sorted-All P x [] hx h = (hx, tt)
  insert_sorted-All P x (y ∷ ys) hx h = elim (Bool-cases (precedes x y)) [
    | inl e ↦ rw e (hx, h)
    | inr e ↦ rw e (h.0, insert_sorted-All P x ys hx h.1)
  ]

  pub sort_rows-All {κ} : (P : A → Type κ) (xs : List A) → All P xs → All P (sort_rows xs)
  sort_rows-All P [] h = tt
  sort_rows-All P (x ∷ xs) h = insert_sorted-All P x (sort_rows xs) h.0 (sort_rows-All P xs h.1)

  module _ {κ} {B : Type κ} (key : A → B) where
    insert_sorted-Distinct :
        (x : A) (ys : List A)
        → All (λ y. key y ≢ key x) ys
        → Distinct (map key ys)
        → Distinct (map key (insert_sorted x ys))
    insert_sorted-Distinct x [] n d = (tt, tt)
    insert_sorted-Distinct x (y ∷ ys) n d = elim (Bool-cases (precedes x y)) [
      | inl e ↦ rw e (All-map (λ k. k ≢ key x) key (y ∷ ys) n, d)
      | inr e ↦ rw e (
        All-map (λ k. k ≢ key y) key (insert_sorted x ys)
            (insert_sorted-All (λ z. key z ≢ key y) x ys (λ q. n.0 (sym q))
              (All-of_map (λ k. k ≢ key y) key ys d.0)),
        insert_sorted-Distinct x ys n.1 d.1,
      )
    ]

    pub sort_rows-Distinct :
        (xs : List A) → Distinct (map key xs) → Distinct (map key (sort_rows xs))
    sort_rows-Distinct [] d = tt
    sort_rows-Distinct (x ∷ xs) d =
        insert_sorted-Distinct x (sort_rows xs)
          (sort_rows-All (λ y. key y ≢ key x) xs (All-of_map (λ k. k ≢ key x) key xs d.0))
          (sort_rows-Distinct xs d.1)

module _ {ℓ κ} {A : Type ℓ} {B : Type κ} (key : A → B) (p : A → Bool) where
  pub where_rows-Distinct :
      (xs : List A) → Distinct (map key xs) → Distinct (map key (where_rows p xs))
  where_rows-Distinct [] d = tt
  where_rows-Distinct (x ∷ xs) d = elim (Bool-cases (p x)) [
    | inl e ↦ rw e (
      All-map (λ k. k ≢ key x) key (where_rows p xs)
          (All-where_rows (λ y. key y ≢ key x) p xs (All-of_map (λ k. k ≢ key x) key xs d.0)),
      where_rows-Distinct xs d.1,
    )
    | inr e ↦ rw e (where_rows-Distinct xs d.1)
  ]

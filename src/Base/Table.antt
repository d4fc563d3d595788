-- ===== src/Base/Table.antt =====
-- SQL statements on a table, a list of rows: UPDATE, INSERT … ON CONFLICT, DELETE.
use mathlib.Core.Path.{◌≡◌}
use mathlib.Core.Logic.{inl, inr}
use mathlib.Core.Bool.{Bool, true, false}
use mathlib.Core.List.{List, [], ◌∷◌}
use event_driven_kafka.Base.Tests.{if◌then◌else◌, Bool-cases}
use event_driven_kafka.Base.Lists.{All}

module _ {ℓ} {A : Type ℓ} where
  -- UPDATE … SET f WHERE p
  abbrev pub update_where : (A → Bool) → (A → A) → List A → List A
  update_where p f [] = []
  update_where p f (x ∷ xs) = (if p x then f x else x) ∷ update_where p f xs

  -- INSERT … ON CONFLICT: the row that conflicts with the new one is merged with it.
  abbrev pub upsert : (A → A → Bool) → (A → A → A) → A → List A → List A
  upsert same merge new [] = new ∷ []
  upsert same merge new (x ∷ xs) =
      if same x new then merge x new ∷ xs else x ∷ upsert same merge new xs

  -- DELETE … WHERE p
  abbrev pub delete_where : (A → Bool) → List A → List A
  delete_where p [] = []
  delete_where p (x ∷ xs) = let rest = delete_where p xs in if p x then rest else x ∷ rest

  -- From what the rows satisfy before an update to what they satisfy after it.
  pub All-update {κ μ} :
      (P : A → Type κ) (Q : A → Type μ) (p : A → Bool) (f : A → A)
      → ((x : A) → p x ≡ true → P x → Q (f x))
      → ((x : A) → p x ≡ false → P x → Q x)
      → (xs : List A) → All P xs
      → All Q (update_where p f xs)
  All-update P Q p f hit miss [] h = tt
  All-update P Q p f hit miss (x ∷ xs) h = elim (Bool-cases (p x)) [
    | inl e ↦ rw e (hit x e h.0, All-update P Q p f hit miss xs h.1)
    | inr e ↦ rw e (miss x e h.0, All-update P Q p f hit miss xs h.1)
  ]

  module _ {κ} (P : A → Type κ) where
    pub All-update_where :
        (p : A → Bool) (f : A → A)
        → ((x : A) → p x ≡ true → P x → P (f x))
        → (xs : List A) → All P xs
        → All P (update_where p f xs)
    All-update_where p f step = All-update P P p f step (λ x e h. h)

    pub All-upsert :
        (same : A → A → Bool) (merge : A → A → A) (new : A)
        → ((x : A) → same x new ≡ true → P x → P (merge x new))
        → P new
        → (xs : List A) → All P xs
        → All P (upsert same merge new xs)
    All-upsert same merge new step hn [] h = (hn, tt)
    All-upsert same merge new step hn (x ∷ xs) h = elim (Bool-cases (same x new)) [
      | inl e ↦ rw e (step x e h.0, h.1)
      | inr e ↦ rw e (h.0, All-upsert same merge new step hn xs h.1)
    ]

    pub All-delete_where : (p : A → Bool) (xs : List A) → All P xs → All P (delete_where p xs)
    All-delete_where p [] h = tt
    All-delete_where p (x ∷ xs) h = elim (Bool-cases (p x)) [
      | inl e ↦ rw e (All-delete_where p xs h.1)
      | inr e ↦ rw e (h.0, All-delete_where p xs h.1)
    ]

-- ===== src/Base/Distinct.antt =====
-- Lists without repetitions, as primary keys are, and facts about `All` that lookups by key need.
use event_driven_kafka.Base.Tests.{Bool-cases}
use event_driven_kafka.Base.Lists.{All, any, take, where_rows}
use Prim.Native.Nat.{ℕ, zero, suc}
use mathlib.Core.Path.{◌≡◌, refl, sym}
use mathlib.Core.Logic.{◌≢◌, inl, inr}
use mathlib.Core.Bool.{Bool, true}
use mathlib.Core.List.{List, [], ◌∷◌, map}
use native.Mathlib.Omega.{arith}

abbrev pub Distinct {ℓ} : {A : Type ℓ} → List A → Type ℓ
Distinct [] = Unit
Distinct (x ∷ xs) = All (λ y. y ≢ x) xs × Distinct xs

module _ {ℓ} {A : Type ℓ} where
  pub All-weaken {κ μ} :
      (P : A → Type κ) (Q : A → Type μ)
      → ((x : A) → P x → Q x)
      → (xs : List A) → All P xs
      → All Q xs
  All-weaken P Q f [] h = tt
  All-weaken P Q f (x ∷ xs) h = (f x h.0, All-weaken P Q f xs h.1)

  pub All-both {κ μ} :
      (P : A → Type κ) (Q : A → Type μ) (xs : List A)
      → All P xs
      → All Q xs
      → All (λ x. P x × Q x) xs
  All-both P Q [] h k = tt
  All-both P Q (x ∷ xs) h k = ((h.0, k.0), All-both P Q xs h.1 k.1)

  pub All-total {κ} : (P : A → Type κ) → ((x : A) → P x) → (xs : List A) → All P xs
  All-total P f [] = tt
  All-total P f (x ∷ xs) = (f x, All-total P f xs)

  pub All-take {κ} : (P : A → Type κ) (n : ℕ) (xs : List A) → All P xs → All P (take n xs)
  All-take P zero xs h = tt
  All-take P (suc n) [] h = tt
  All-take P (suc n) (x ∷ xs) h = (h.0, All-take P n xs h.1)

  -- The rows that pass the test and satisfy what the test implies.
  pub All-where_test {κ} :
      (P : A → Type κ) (p : A → Bool) (xs : List A)
      → All (λ x. p x ≡ true → P x) xs
      → All P (where_rows p xs)
  All-where_test P p [] h = tt
  All-where_test P p (x ∷ xs) h = elim (Bool-cases (p x)) [
    | inl e ↦ rw e (h.0 e, All-where_test P p xs h.1)
    | inr e ↦ rw e (All-where_test P p xs h.1)
  ]

  pub any-All {κ} :
      (Q : Type κ) (p : A → Bool) (xs : List A) → any p xs ≡ true → All (λ x. p x ≡ true → Q) xs → Q
  any-All Q p [] e h = cc
  any-All Q p (x ∷ xs) e h = elim (Bool-cases (p x)) [
    | inl y ↦ h.0 y
    | inr n ↦ any-All Q p xs (ground arith) h.1
  ]

  module _ {μ} {B : Type μ} where
    pub All-map {κ} :
        (P : B → Type κ) (f : A → B) (xs : List A) → All (λ x. P (f x)) xs → All P (map f xs)
    All-map P f [] h = tt
    All-map P f (x ∷ xs) h = (h.0, All-map P f xs h.1)

    pub All-of_map {κ} :
        (P : B → Type κ) (f : A → B) (xs : List A) → All P (map f xs) → All (λ x. P (f x)) xs
    All-of_map P f [] h = tt
    All-of_map P f (x ∷ xs) h = (h.0, All-of_map P f xs h.1)

    -- Among rows with distinct keys, each key belongs to one row.
    pub Distinct-key :
        (f : A → B) (xs : List A)
        → Distinct (map f xs)
        → All (λ s. All (λ r. f r ≡ f s → r ≡ s) xs) xs
    Distinct-key f [] h = tt
    Distinct-key f (x ∷ xs) h =
        let others = All-of_map (λ y. y ≢ f x) f xs h.0 in
        (
          (λ e. refl, All-weaken _ (λ r. f r ≡ f x → r ≡ x) (λ r n e. absurd (n e)) xs others),
          All-weaken (λ s. (f s ≢ f x) × All (λ r. f r ≡ f s → r ≡ s) xs)
              (λ s. All (λ r. f r ≡ f s → r ≡ s) (x ∷ xs)) (λ s k. (λ e. absurd (k.0 (sym e)), k.1))
              xs (All-both _ _ xs others (Distinct-key f xs h.1)),
        )

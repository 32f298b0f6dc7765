-- ===== src/Prelude/Sorting.antt =====
-- `sorted` with a comparison of keys: the stable sort, as insertion from the end.
use mathlib.Core.Path.{◌≡◌}
use mathlib.Core.Bool.{Bool, true, false}
use mathlib.Core.List.{List, [], ◌∷◌}
use cogito_agent.Prelude.Tests.{if◌then◌else◌, Bool-cases}
use cogito_agent.Prelude.Lists.{All}
use mathlib.Core.Logic.{inl, inr}

All-map {ℓ κ} :
    {A : Type ℓ} {P Q : A → Type κ} (xs : List A) → ((x : A) → P x → Q x) → All P xs → All Q xs
All-map [] f h = tt
All-map (x ∷ xs) f h = (f x h.0, All-map xs f h.1)

module _ {ℓ} {A : Type ℓ} (le : A → A → Bool) where
  unfoldable pub insert_by : A → List A → List A
  insert_by r [] = r ∷ []
  insert_by r (x ∷ xs) = let rest = insert_by r xs in if le r x then r ∷ x ∷ xs else x ∷ rest

  unfoldable pub sort_by : List A → List A
  sort_by [] = []
  sort_by (r ∷ rs) = insert_by r (sort_by rs)

  -- Each element is before all that follow it.
  abbrev pub IsSorted : List A → Type ℓ
  IsSorted [] = Unit
  IsSorted (x ∷ xs) = All (λ y. le x y ≡ true) xs × IsSorted xs

  pub insert_by-All {κ} :
      (P : A → Type κ) (r : A) (xs : List A) → P r → All P xs → All P (insert_by r xs)
  unfolding insert_by
  insert_by-All P r [] p h = (p, tt)
  insert_by-All P r (x ∷ xs) p h = elim (Bool-cases (le r x)) [
    | inl e ↦ rw e (p, h)
    | inr e ↦ rw e (h.0, insert_by-All P r xs p h.1)
  ]

  pub sort_by-All {κ} : (P : A → Type κ) (xs : List A) → All P xs → All P (sort_by xs)
  unfolding sort_by
  sort_by-All P [] h = tt
  sort_by-All P (x ∷ xs) h = insert_by-All P x (sort_by xs) h.0 (sort_by-All P xs h.1)

  pub insert_by-IsSorted :
      (r : A) (xs : List A)
      → ((x y : A) → le x y ≡ false → le y x ≡ true)
      → ((x y z : A) → le x y ≡ true → le y z ≡ true → le x z ≡ true)
      → IsSorted xs
      → IsSorted (insert_by r xs)
  unfolding insert_by
  insert_by-IsSorted r [] total trans h = (tt, tt)
  insert_by-IsSorted r (x ∷ xs) total trans h = elim (Bool-cases (le r x)) [
    | inl e ↦ rw e ((e, All-map xs (λ y. trans r x y e) h.0), h)
    | inr e ↦ rw e (
      insert_by-All (λ y. le x y ≡ true) r xs (total r x e) h.0,
      insert_by-IsSorted r xs total trans h.1,
    )
  ]

  pub sort_by-IsSorted :
      (xs : List A)
      → ((x y : A) → le x y ≡ false → le y x ≡ true)
      → ((x y z : A) → le x y ≡ true → le y z ≡ true → le x z ≡ true)
      → IsSorted (sort_by xs)
  unfolding sort_by
  sort_by-IsSorted [] total trans = tt
  sort_by-IsSorted (x ∷ xs) total trans =
      insert_by-IsSorted x (sort_by xs) total trans (sort_by-IsSorted xs total trans)

-- Where an element has the property, the first one has it.
abbrev pub IsLed {ℓ} : {A : Type ℓ} → (A → Bool) → List A → Type 0
IsLed p [] = Unit
IsLed p (x ∷ xs) = All (λ y. p y ≡ true → p x ≡ true) xs

module _ {ℓ} {A : Type ℓ} (le : A → A → Bool) (p : A → Bool)
    (yields : (x y : A) → le x y ≡ true → p y ≡ true → p x ≡ true)
    (leads : (x y : A) → le x y ≡ false → p x ≡ true → p y ≡ true) where
  insert_by-IsLed : (r : A) (xs : List A) → IsLed p xs → IsLed p (insert_by le r xs)
  unfolding insert_by
  insert_by-IsLed r [] h = tt
  insert_by-IsLed r (x ∷ xs) h = elim (Bool-cases (le r x)) [
    | inl e ↦ rw e (yields r x e, All-map xs (λ y k q. yields r x e (k q)) h)
    | inr e ↦ rw e (insert_by-All le (λ y. p y ≡ true → p x ≡ true) r xs (leads r x e) h)
  ]

  pub sort_by-IsLed : (xs : List A) → IsLed p (sort_by le xs)
  unfolding sort_by
  sort_by-IsLed [] = tt
  sort_by-IsLed (x ∷ xs) = insert_by-IsLed x (sort_by le xs) (sort_by-IsLed xs)

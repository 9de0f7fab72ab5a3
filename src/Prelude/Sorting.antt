-- ===== src/Prelude/Sorting.antt =====
-- ORDER BY: a stable sort by insertion, over a test that says which of two rows may stand first.
use mathlib.Core.Path.{◌≡◌, refl}
use mathlib.Core.List.{List, [], ◌∷◌}
use mathlib.Core.Bool.{Bool, true, false}
use mathlib.Core.Logic.{inl, inr}
use native.Mathlib.Omega.{arith}
use flux_kart.Prelude.Tests.{if◌then◌else◌, Bool-cases}
use flux_kart.Prelude.Lists.{count_where}

module _ {ℓ} {A : Type ℓ} (before : A → A → Bool) where
  insert_by : A → List A → List A
  insert_by a [] = a ∷ []
  insert_by a (x ∷ xs) = let rest = insert_by a xs in if before a x then a ∷ x ∷ xs else x ∷ rest

  unfoldable pub order_by : List A → List A
  unfolding insert_by
  order_by [] = []
  order_by (x ∷ xs) = insert_by x (order_by xs)

  -- The head of a list, if there is one, may stand after `x`.
  abbrev pub Before : A → List A → Type 0
  Before x [] = Unit
  Before x (y ∷ xs) = before x y ≡ true

  abbrev pub IsSorted : List A → Type 0
  IsSorted [] = Unit
  IsSorted (x ∷ xs) = Before x xs × IsSorted xs

  count_where-insert_by :
      (p : A → Bool) (a : A) (xs : List A) → count_where p (insert_by a xs) ≡ count_where p (a ∷ xs)
  unfolding insert_by
  count_where-insert_by p a [] = refl
  count_where-insert_by p a (x ∷ xs) = ground (arith, count_where-insert_by p a xs)

  -- A sorted list has the same rows.
  pub count_where-order_by :
      (p : A → Bool) (xs : List A) → count_where p (order_by xs) ≡ count_where p xs
  unfolding order_by
  count_where-order_by p [] = refl
  count_where-order_by p (x ∷ xs) =
      ground (arith, count_where-insert_by p x (order_by xs), count_where-order_by p xs)

-- Of two rows one may stand first.
module _ {ℓ} {A : Type ℓ} (before : A → A → Bool)
    (total : (a b : A) → before a b ≡ false → before b a ≡ true) where
  insert_by-Before :
      (k a : A) (xs : List A)
      → before k a ≡ true
      → Before before k xs
      → Before before k (insert_by before a xs)
  unfolding insert_by
  insert_by-Before k a [] h first_one = h
  insert_by-Before k a (x ∷ xs) h first_one = elim (Bool-cases (before a x)) [
    | inl yes_first ↦ simp yes_first h
    | inr later ↦ simp later first_one
  ]

  insert_by-IsSorted :
      (a : A) (xs : List A) → IsSorted before xs → IsSorted before (insert_by before a xs)
  unfolding insert_by
  insert_by-IsSorted a [] h = (tt, tt)
  insert_by-IsSorted a (x ∷ xs) h = elim (Bool-cases (before a x)) [
    | inl yes_first ↦ simp yes_first (refl, h)
    | inr later ↦
        simp later (insert_by-Before x a xs (total a x later) h.0, insert_by-IsSorted a xs h.1)
  ]

  pub order_by-IsSorted : (xs : List A) → IsSorted before (order_by before xs)
  unfolding order_by
  order_by-IsSorted [] = tt
  order_by-IsSorted (x ∷ xs) = insert_by-IsSorted x (order_by before xs) (order_by-IsSorted xs)

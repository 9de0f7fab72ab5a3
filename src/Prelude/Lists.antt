-- ===== src/Prelude/Lists.antt =====
-- Lists measured by native numbers, and selections by a Boolean test.
use Prim.Native.Nat.{ℕ, zero, suc, ◌+◌, ◌≤◌}
use mathlib.Core.Path.{◌≡◌, refl}
use mathlib.Core.Option
use mathlib.Core.List.{List, [], ◌∷◌, ◌++◌}
use mathlib.Core.Bool.{Bool, true}
use native.Mathlib.Omega.{arith}
use flux_kart.Prelude.Tests.{if◌then◌else◌}

module _ {ℓ} {A : Type ℓ} where
  abbrev pub length : List A → ℕ
  length [] = 0
  length (x ∷ xs) = suc (length xs)

  abbrev pub take : ℕ → List A → List A
  take zero xs = []
  take (suc n) [] = []
  take (suc n) (x ∷ xs) = x ∷ take n xs

  abbrev pub drop : ℕ → List A → List A
  drop zero xs = xs
  drop (suc n) [] = []
  drop (suc n) (x ∷ xs) = drop n xs

  abbrev pub replicate : ℕ → A → List A
  replicate zero a = []
  replicate (suc n) a = a ∷ replicate n a

  -- The rows that pass a WHERE clause.
  abbrev pub select : (A → Bool) → List A → List A
  select p [] = []
  select p (x ∷ xs) = let rest = select p xs in if p x then x ∷ rest else rest

  -- The rows after an UPDATE with a WHERE clause.
  abbrev pub update_where : (A → Bool) → (A → A) → List A → List A
  update_where p f [] = []
  update_where p f (x ∷ xs) = (if p x then f x else x) ∷ update_where p f xs

  -- The first row that passes, as `fetchrow` returns it.
  abbrev pub first : (A → Bool) → List A → Option.Option A
  first p [] = Option.none
  first p (x ∷ xs) = let rest = first p xs in if p x then Option.some x else rest

  -- How many rows pass.
  abbrev pub count_where : (A → Bool) → List A → ℕ
  count_where p [] = 0
  count_where p (x ∷ xs) = let rest = count_where p xs in if p x then suc rest else rest

  -- The total of a column over the rows that pass.
  abbrev pub sum_where : (A → Bool) → (A → ℕ) → List A → ℕ
  sum_where p f [] = 0
  sum_where p f (x ∷ xs) = let rest = sum_where p f xs in if p x then f x + rest else rest

  pub length-append : (xs ys : List A) → length (xs ++ ys) ≡ length xs + length ys
  length-append [] ys = omega arith
  length-append (x ∷ xs) ys = omega (arith, length-append xs ys)

  pub length-take-le : (n : ℕ) (xs : List A) → length (take n xs) ≤ n
  length-take-le zero xs = omega arith
  length-take-le (suc n) [] = omega arith
  length-take-le (suc n) (x ∷ xs) = omega (arith, length-take-le n xs)

  pub length-select : (p : A → Bool) (xs : List A) → length (select p xs) ≡ count_where p xs
  length-select p [] = refl
  length-select p (x ∷ xs) = ground (arith, length-select p xs)

  pub count_where-append :
      (p : A → Bool) (xs ys : List A)
      → count_where p (xs ++ ys) ≡ count_where p xs + count_where p ys
  count_where-append p [] ys = omega arith
  count_where-append p (x ∷ xs) ys = ground (arith, count_where-append p xs ys)

  -- An UPDATE that does not change which rows a test selects: the row read before is read after,
  -- as the UPDATE has left it.
  pub first-update :
      (q p : A → Bool) (f : A → A) (x : A) (rows : List A)
      → ((y : A) → q (f y) ≡ q y)
      → first q rows ≡ Option.some x
      → first q (update_where p f rows) ≡ Option.some (if p x then f x else x)
  first-update q p f x [] keeps e = absurd (ground arith)
  first-update q p f x (y ∷ rows) keeps e = ground (arith, keeps y, first-update q p f x rows keeps)

  -- Counts by two tests.
  pub count_where-le :
      (p q : A → Bool) (xs : List A)
      → ((x : A) → p x ≡ true → q x ≡ true)
      → count_where p xs ≤ count_where q xs
  count_where-le p q [] h = omega arith
  count_where-le p q (x ∷ xs) h = ground (arith, h x, count_where-le p q xs h)

  pub count_where-select :
      (p q : A → Bool) (xs : List A)
      → ((x : A) → p x ≡ true → q x ≡ true)
      → count_where p (select q xs) ≡ count_where p xs
  count_where-select p q [] h = refl
  count_where-select p q (x ∷ xs) h = ground (arith, h x, count_where-select p q xs h)

  pub count_where-select-le :
      (p q : A → Bool) (xs : List A) → count_where p (select q xs) ≤ count_where p xs
  count_where-select-le p q [] = omega arith
  count_where-select-le p q (x ∷ xs) = ground (arith, count_where-select-le p q xs)

  pub count_where-all :
      (p : A → Bool) (xs : List A) → ((x : A) → p x ≡ true) → count_where p xs ≡ length xs
  count_where-all p [] h = refl
  count_where-all p (x ∷ xs) h = ground (arith, h x, count_where-all p xs h)

  pub select-select :
      (p q r : A → Bool) (xs : List A)
      → ((x : A) → r x ≡ (if q x then p x else q x))
      → select p (select q xs) ≡ select r xs
  select-select p q r [] h = refl
  select-select p q r (x ∷ xs) h = ground (arith, h x, select-select p q r xs h)

  pub select-same :
      (p q : A → Bool) (xs : List A) → ((x : A) → p x ≡ q x) → select p xs ≡ select q xs
  select-same p q [] h = refl
  select-same p q (x ∷ xs) h = ground (arith, h x, select-same p q xs h)

  -- An UPDATE that leaves a test alone leaves the count of the rows that pass it.
  pub count_where-update :
      (q p : A → Bool) (f : A → A) (rows : List A)
      → ((x : A) → q (f x) ≡ q x)
      → count_where q (update_where p f rows) ≡ count_where q rows
  count_where-update q p f [] h = refl
  count_where-update q p f (x ∷ rows) h = ground (arith, h x, count_where-update q p f rows h)

  pub update_where-none :
      (p : A → Bool) (f : A → A) (rows : List A)
      → count_where p rows ≡ 0
      → update_where p f rows ≡ rows
  update_where-none p f [] h = refl
  update_where-none p f (x ∷ rows) h = ground (arith, update_where-none p f rows)

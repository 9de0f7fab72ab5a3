-- ===== src/Admission/Order.antt =====
-- The reference for the order of admission: the first of those who wait, in the table's order.
use flux_kart.Prelude.{
  ℕ, zero, suc, ◌+◌, ◌≡◌, refl, ap, ◌∙◌, sym, false, List, [], ◌∷◌, arith, if◌then◌else◌, take,
  select, update_where, count_where, Bool-cases, inl, inr,
}
use flux_kart.Redis.{ExpiringStore}
use flux_kart.Admission.{
  Preregistration, of_user, waits_for, admit_row, mark_admitted, no_fault, admit_users,
}

unfoldable pub admit_first : ℕ → ℕ → List Preregistration → List Preregistration
admit_first sale_id zero rows = rows
admit_first sale_id (suc n) [] = []
admit_first sale_id (suc n) (p ∷ rows) =
    let taken = admit_first sale_id n rows in
    let passed = admit_first sale_id (suc n) rows in
    if waits_for sale_id p then admit_row p ∷ taken else p ∷ passed

-- uq_preregistration
abbrev pub IsDistinct : List Preregistration → Type 0
IsDistinct [] = Unit
IsDistinct (p ∷ rows) = (count_where (of_user p.user_id p.sale_id) rows ≡ 0) × IsDistinct rows

pub admit_first-admit_first :
    (s m n : ℕ) (rows : List Preregistration)
    → admit_first s m (admit_first s n rows) ≡ admit_first s (n + m) rows
unfolding admit_first
admit_first-admit_first s m zero rows =
    let e : m ≡ 0 + m = omega arith in ap (λ k. admit_first s k rows) e
admit_first-admit_first s zero (suc n) rows =
    let e : suc n ≡ suc n + 0 = omega arith in ap (λ k. admit_first s k rows) e
admit_first-admit_first s (suc m) (suc n) [] =
    let e : suc (n + suc m) ≡ suc n + suc m = omega arith in ap (λ k. admit_first s k []) e
admit_first-admit_first s (suc m) (suc n) (p ∷ rows) =
    let e : suc (n + suc m) ≡ suc n + suc m = omega arith in
    let both : admit_first s (suc m) (admit_first s (suc n) (p ∷ rows))
        ≡ admit_first s (suc (n + suc m)) (p ∷ rows) =
      elim (Bool-cases (waits_for s p)) [
        | inl waits ↦
            let later : waits_for s (admit_row p) ≡ false = ground arith in
            rw (waits, later)
              (ap (λ xs. admit_row p ∷ xs) (admit_first-admit_first s (suc m) n rows))
        | inr other ↦
            rw (other, other)
              (ap (λ xs. p ∷ xs) (admit_first-admit_first s (suc m) (suc n) rows)
                ∙ ap (λ k. p ∷ admit_first s k rows) (sym e))
      ] in
    both ∙ ap (λ k. admit_first s k (p ∷ rows)) e

count-admit_first :
    (u t s n : ℕ) (rows : List Preregistration)
    → count_where (of_user u t) (admit_first s n rows) ≡ count_where (of_user u t) rows
unfolding admit_first
count-admit_first u t s zero rows = refl
count-admit_first u t s (suc n) [] = refl
count-admit_first u t s (suc n) (p ∷ rows) =
    ground (arith, count-admit_first u t s n rows, count-admit_first u t s (suc n) rows)

pub admit_first-IsDistinct :
    (s n : ℕ) (rows : List Preregistration) → IsDistinct rows → IsDistinct (admit_first s n rows)
unfolding admit_first
admit_first-IsDistinct s zero rows h = h
admit_first-IsDistinct s (suc n) [] h = tt
admit_first-IsDistinct s (suc n) (p ∷ rows) h = ground (
  arith,
  count-admit_first p.user_id p.sale_id s n rows,
  count-admit_first p.user_id p.sale_id s (suc n) rows,
  admit_first-IsDistinct s n rows,
  admit_first-IsDistinct s (suc n) rows,
)

-- No user of the batch is the one of `p`, or `p` is of another sale.
abbrev Misses : ℕ → Preregistration → List Preregistration → Type 0
Misses s p [] = Unit
Misses s p (q ∷ batch) = (of_user q.user_id s p ≡ false) × Misses s p batch

Misses-take :
    (s n : ℕ) (p : Preregistration) (rows : List Preregistration)
    → count_where (of_user p.user_id p.sale_id) rows ≡ 0
    → Misses s p (take n (select (waits_for s) rows))
Misses-take s zero p rows h = tt
Misses-take s (suc n) p [] h = tt
Misses-take s (suc n) p (x ∷ rows) h = elim (Bool-cases (waits_for s x)) [
  | inl waits ↦ rw waits (ground arith, Misses-take s n p rows (ground arith))
  | inr other ↦ rw other (Misses-take s (suc n) p rows (ground arith))
]

update-none :
    (u s : ℕ) (rows : List Preregistration)
    → count_where (of_user u s) rows ≡ 0
    → update_where (of_user u s) admit_row rows ≡ rows
update-none u s [] h = refl
update-none u s (p ∷ rows) h = ground (arith, update-none u s rows)

module _ (A : ExpiringStore (ℕ × ℕ) ℕ) where
  admit_users-cons :
      (now s : ℕ) (p : Preregistration) (batch rows : List Preregistration) (tokens : A.Db)
      → Misses s p batch
      → (admit_users A no_fault now s batch (p ∷ rows) tokens).0
        ≡ p ∷ (admit_users A no_fault now s batch rows tokens).0
  unfolding admit_users mark_admitted
  admit_users-cons now s p [] rows tokens h = refl
  admit_users-cons now s p (q ∷ batch) rows tokens h = ground (
    arith,
    admit_users-cons now s p batch (mark_admitted q.user_id s rows)
        (A.set tokens (s, q.user_id) 1 (now + 60000)) h.1,
  )

  -- A batch that is read from the table marks the first rows that wait.
  pub admit_users-admit_first :
      (now s n : ℕ) (rows : List Preregistration) (tokens : A.Db)
      → IsDistinct rows
      → (admit_users A no_fault now s (take n (select (waits_for s) rows)) rows tokens).0
        ≡ admit_first s n rows
  unfolding admit_users mark_admitted admit_first
  admit_users-admit_first now s zero rows tokens h = refl
  admit_users-admit_first now s (suc n) [] tokens h = refl
  admit_users-admit_first now s (suc n) (p ∷ rows) tokens h = elim (Bool-cases (waits_for s p)) [
    | inl waits ↦
        let tokens' = A.set tokens (s, p.user_id) 1 (now + 60000) in
        let batch = take n (select (waits_for s) rows) in
        let marked : update_where (of_user p.user_id s) admit_row (p ∷ rows) ≡ admit_row p ∷ rows =
          ground (arith, update-none p.user_id s rows, h.0, waits) in
        rw waits (
          ap (λ xs. (admit_users A no_fault now s batch xs tokens').0) marked
          ∙ admit_users-cons now s (admit_row p) batch rows tokens'
              (Misses-take s n (admit_row p) rows h.0)
          ∙ ap (λ xs. admit_row p ∷ xs) (admit_users-admit_first now s n rows tokens' h.1))
    | inr other ↦ rw other (
        admit_users-cons now s p (take (suc n) (select (waits_for s) rows)) rows tokens
          (Misses-take s (suc n) p rows h.0)
        ∙ ap (λ xs. p ∷ xs) (admit_users-admit_first now s (suc n) rows tokens h.1))
  ]

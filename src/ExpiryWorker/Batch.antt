-- ===== src/ExpiryWorker/Batch.antt =====
-- The rows of a batch against the due rows of the table.
use flux_kart.Prelude.{
  ℕ, zero, suc, ◌≤◌, ◌<◌, ◌≡◌, refl, ap, ◌∙◌, Bool, true, false, ◌⊎◌, inl, inr, List, [], ◌∷◌,
  arith, ◌==◌, leb, not, ◌&&◌, ◌||◌, if◌then◌else◌, length, take, select, update_where, count_where,
  Bool-cases,
}
use flux_kart.Db.{Reservation}
use flux_kart.ExpiryWorker.{
  batch_size, overdue, insert_by_expiry, order_by_expiry, fetch_batch, among, expire_row,
}

-- The condition of the SELECT, with what SKIP LOCKED leaves.
abbrev pub due : ℕ → (ℕ → Bool) → Reservation → Bool
due now locked r = overdue now r && not (locked r.id)

among-insert :
    (k : ℕ) (r : Reservation) (xs : List Reservation)
    → among (insert_by_expiry r xs) k ≡ (r.id == k || among xs k)
unfolding insert_by_expiry among
among-insert k r [] = refl
among-insert k r (x ∷ xs) = ground (arith, among-insert k r xs)

among-order : (k : ℕ) (xs : List Reservation) → among (order_by_expiry xs) k ≡ among xs k
unfolding order_by_expiry among
among-order k [] = refl
among-order k (r ∷ xs) =
    among-insert k r (order_by_expiry xs) ∙ ap (λ b. r.id == k || b) (among-order k xs)

length-insert :
    (r : Reservation) (xs : List Reservation) → length (insert_by_expiry r xs) ≡ suc (length xs)
unfolding insert_by_expiry
length-insert r [] = refl
length-insert r (x ∷ xs) = ground (arith, length-insert r xs)

length-order : (xs : List Reservation) → length (order_by_expiry xs) ≡ length xs
unfolding order_by_expiry
length-order [] = refl
length-order (r ∷ xs) = length-insert r (order_by_expiry xs) ∙ ap suc (length-order xs)

take_short : (n : ℕ) (xs : List Reservation) → length (take n xs) < n → take n xs ≡ xs
take_short zero xs h = elim h [ ]
take_short (suc n) [] h = refl
take_short (suc n) (x ∷ xs) h = ap (λ ys. x ∷ ys) (take_short n xs (omega arith))

module _ (now : ℕ) (locked : ℕ → Bool) where
  -- Every due row has its id in the batch.
  abbrev Covers : List Reservation → List Reservation → Type 0
  Covers batch [] = Unit
  Covers batch (r ∷ rows) = (due now locked r ≡ true → among batch r.id ≡ true) × Covers batch rows

  Covers-cons :
      (x : Reservation) (batch rows : List Reservation)
      → Covers batch rows
      → Covers (x ∷ batch) rows
  unfolding among
  Covers-cons x batch [] h = tt
  Covers-cons x batch (r ∷ rows) h = ((λ d. ground (arith, h.0 d)), Covers-cons x batch rows h.1)

  Covers-if :
      (b : Bool) (x : Reservation) (batch rows : List Reservation)
      → Covers batch rows
      → Covers (if b then x ∷ batch else batch) rows
  Covers-if true x batch rows h = Covers-cons x batch rows h
  Covers-if false x batch rows h = h

  Covers-select : (rows : List Reservation) → Covers (select (due now locked) rows) rows
  Covers-select [] = tt
  Covers-select (r ∷ rows) =
      let rest = select (due now locked) rows in
      (
        (λ d. unfold among in ground arith),
        Covers-if (due now locked r) r rest rows (Covers-select rows),
      )

  Covers-same :
      (batch batch' rows : List Reservation)
      → ((k : ℕ) → among batch' k ≡ among batch k)
      → Covers batch rows
      → Covers batch' rows
  Covers-same batch batch' [] same h = tt
  Covers-same batch batch' (r ∷ rows) same h =
      ((λ d. same r.id ∙ h.0 d), Covers-same batch batch' rows same h.1)

  -- The rows after the UPDATE of a batch.
  abbrev pub expired_rows : List Reservation → List Reservation → List Reservation
  expired_rows batch rows = update_where (λ r. among batch r.id) expire_row rows

  count-covered :
      (batch rows : List Reservation)
      → Covers batch rows
      → count_where (due now locked) (expired_rows batch rows) ≡ 0
  count-covered batch [] h = refl
  count-covered batch (r ∷ rows) h = ground (arith, h.0, count-covered batch rows h.1)

  count-expired-le :
      (batch rows : List Reservation)
      → count_where (due now locked) (expired_rows batch rows) ≤ count_where (due now locked) rows
  count-expired-le batch [] = omega arith
  count-expired-le batch (r ∷ rows) = ground (arith, count-expired-le batch rows)

  -- A due row has the id `k`.
  abbrev Found : ℕ → List Reservation → Type 0
  Found k [] = ⊥
  Found k (x ∷ rows) = ((x.id ≡ k) × (due now locked x ≡ true)) ⊎ Found k rows

  count-Found :
      (k : ℕ) (batch rows : List Reservation)
      → among batch k ≡ true
      → Found k rows
      → count_where (due now locked) (expired_rows batch rows) < count_where (due now locked) rows
  count-Found k batch [] there h = elim h [ ]
  count-Found k batch (x ∷ rows) there (inl (same, d)) =
      let hit : among batch x.id ≡ true = ap (among batch) same ∙ there in
      ground (arith, count-expired-le batch rows)
  count-Found k batch (x ∷ rows) there (inr h) = ground (arith, count-Found k batch rows there h)

  -- Each row of the batch has the id of a due row.
  abbrev Drawn : List Reservation → List Reservation → Type 0
  Drawn rows [] = Unit
  Drawn rows (r ∷ batch) = Found r.id rows × Drawn rows batch

  Drawn-cons :
      (x : Reservation) (rows batch : List Reservation) → Drawn rows batch → Drawn (x ∷ rows) batch
  Drawn-cons x rows [] h = tt
  Drawn-cons x rows (r ∷ batch) h = (inr h.0, Drawn-cons x rows batch h.1)

  Drawn-if :
      (b : Bool) (x : Reservation) (rows batch : List Reservation)
      → (b ≡ true → Found x.id rows)
      → Drawn rows batch
      → Drawn rows (if b then x ∷ batch else batch)
  Drawn-if true x rows batch f h = (f refl, h)
  Drawn-if false x rows batch f h = h

  Drawn-select : (rows : List Reservation) → Drawn rows (select (due now locked) rows)
  Drawn-select [] = tt
  Drawn-select (r ∷ rows) =
      let rest = select (due now locked) rows in
      Drawn-if (due now locked r) r (r ∷ rows) rest (λ d. inl (refl, d))
        (Drawn-cons r rows rest (Drawn-select rows))

  Drawn-insert :
      (x : Reservation) (rows batch : List Reservation)
      → Found x.id rows
      → Drawn rows batch
      → Drawn rows (insert_by_expiry x batch)
  unfolding insert_by_expiry
  Drawn-insert x rows [] f h = (f, tt)
  Drawn-insert x rows (y ∷ batch) f h = elim (Bool-cases (leb x.expires_at y.expires_at)) [
    | inl before ↦ simp before (f, h)
    | inr after ↦ simp after (h.0, Drawn-insert x rows batch f h.1)
  ]

  Drawn-order :
      (rows batch : List Reservation) → Drawn rows batch → Drawn rows (order_by_expiry batch)
  unfolding order_by_expiry
  Drawn-order rows [] h = tt
  Drawn-order rows (x ∷ batch) h =
      Drawn-insert x rows (order_by_expiry batch) h.0 (Drawn-order rows batch h.1)

  Drawn-take :
      (n : ℕ) (rows batch : List Reservation) → Drawn rows batch → Drawn rows (take n batch)
  Drawn-take zero rows batch h = tt
  Drawn-take (suc n) rows [] h = tt
  Drawn-take (suc n) rows (x ∷ batch) h = (h.0, Drawn-take n rows batch h.1)

  count-Drawn :
      (batch rows : List Reservation)
      → Drawn rows batch
      → 0 < length batch
      → count_where (due now locked) (expired_rows batch rows) < count_where (due now locked) rows
  count-Drawn [] rows d h = elim h [ ]
  count-Drawn (r ∷ batch) rows d h =
      count-Found r.id (r ∷ batch) rows (unfold among in ground arith) d.0

  -- A batch that is not empty leaves fewer due rows.
  pub batch_progress :
      (rows : List Reservation)
      → 0 < length (fetch_batch now locked rows)
      → count_where (due now locked) (expired_rows (fetch_batch now locked rows) rows)
        < count_where (due now locked) rows
  batch_progress rows h =
      count-Drawn (fetch_batch now locked rows) rows
        (unfold fetch_batch in
          Drawn-take batch_size rows (order_by_expiry (select (due now locked) rows))
            (Drawn-order rows (select (due now locked) rows) (Drawn-select rows)))
        h

  -- A batch below the limit leaves none.
  pub short_batch_clears :
      (rows : List Reservation)
      → length (fetch_batch now locked rows) < batch_size
      → count_where (due now locked) (expired_rows (fetch_batch now locked rows) rows) ≡ 0
  unfolding fetch_batch
  short_batch_clears rows h =
      let chosen = select (due now locked) rows in
      let all = take_short batch_size (order_by_expiry chosen) h in
      count-covered (fetch_batch now locked rows) rows (
        Covers-same chosen (fetch_batch now locked rows) rows
          (λ k. ap (λ b. among b k) all ∙ among-order k chosen) (Covers-select rows))

-- ===== src/Admission/Batches.antt =====
-- Batches of admissions against the reference order.
use flux_kart.Prelude.{
  ℕ, zero, suc, sym, length-take-le, ◌+◌, ◌≤◌, ◌<◌, ◌≡◌, ◌≢◌, refl, ap, ◌∙◌, Bool, false, some,
  List, [], ◌∷◌, arith, ◌==◌, ltb, length, take, select, count_where, Bool-cases, inl, inr,
}
use flux_kart.Redis.{ExpiringStore}
use flux_kart.Admission.{
  Preregistration, Interruption, no_fault, at_select, at_token, at_row, waits_for,
  get_preregistrations_for_sale, admit_users, admit_batch, run_admission_worker, batch_size,
}
use flux_kart.Admission.Order.{
  admit_first, IsDistinct, admit_first-admit_first, admit_first-IsDistinct, admit_users-admit_first,
}

abbrev pub is_user : ℕ → Preregistration → Bool
is_user user_id p = p.user_id == user_id

-- The worker wakes up before the sale ends.
abbrev pub AllBefore : ℕ → List (ℕ × Interruption) → Type 0
AllBefore ends_at [] = Unit
AllBefore ends_at ((now, fault) ∷ later) = (now ≤ ends_at) × AllBefore ends_at later

abbrev pub at_most : ℕ → ℕ → ℕ
at_most zero k = 0
at_most (suc n) zero = 0
at_most (suc n) (suc k) = suc (at_most n k)

-- How many of the next `n` users are admitted before a call raises.
abbrev pub admitted_by : ℕ → Interruption → ℕ
admitted_by n no_fault = n
admitted_by n at_select = 0
admitted_by n (at_token k) = at_most n k
admitted_by n (at_row k) = at_most n k

abbrev pub admitted_in : List (ℕ × Interruption) → ℕ
admitted_in [] = 0
admitted_in ((now, fault) ∷ later) = admitted_by 50 fault + admitted_in later

at_most-le : (n k : ℕ) → at_most n k ≤ n
at_most-le zero k = omega arith
at_most-le (suc n) zero = omega arith
at_most-le (suc n) (suc k) = omega (arith, at_most-le n k)

admitted_by-le : (n : ℕ) (fault : Interruption) → admitted_by n fault ≤ n
admitted_by-le n no_fault = omega arith
admitted_by-le n at_select = omega arith
admitted_by-le n (at_token k) = at_most-le n k
admitted_by-le n (at_row k) = at_most-le n k

take-nil : (n : ℕ) → take {A = Preregistration} n [] ≡ []
take-nil zero = refl
take-nil (suc n) = refl

take-all : (n : ℕ) (xs : List Preregistration) → length xs ≤ n → take n xs ≡ xs
take-all n [] h = take-nil n
take-all zero (x ∷ xs) h = absurd (omega (arith, h))
take-all (suc n) (x ∷ xs) h = ap (λ ys. x ∷ ys) (take-all n xs (omega (arith, h)))

take-take : (k n : ℕ) (xs : List Preregistration) → k ≤ n → take k (take n xs) ≡ take k xs
take-take zero n xs h = refl
take-take (suc k) zero xs h = absurd (omega (arith, h))
take-take (suc k) (suc n) [] h = refl
take-take (suc k) (suc n) (x ∷ xs) h = ap (λ ys. x ∷ ys) (take-take k n xs (omega (arith, h)))

module _ (A : ExpiringStore (ℕ × ℕ) ℕ) where
  token-set :
      (now later s u v : ℕ) (tokens : A.Db)
      → later < now + 60000
      → (u ≢ v → A.get tokens later (s, v) ≡ some 1)
      → A.get (A.set tokens (s, u) 1 (now + 60000)) later (s, v) ≡ some 1
  token-set now later s u v tokens soon h = elim (Bool-cases (u == v)) [
    | inl same ↦
        let e : u ≡ v = ground arith in
        rw (← e) (A.get-set_live tokens (s, u) 1 (now + 60000) later soon)
    | inr other ↦
        A.get-set_ne tokens (s, u) (s, v) 1 (now + 60000) later
          (λ e. absurd (ground (arith, ap (λ (k : ℕ × ℕ). k.1) e)))
        ∙ h (ground arith)
  ]

  token-kept :
      (now later s v : ℕ) (batch rows : List Preregistration) (tokens : A.Db)
      → later < now + 60000
      → A.get tokens later (s, v) ≡ some 1
      → A.get (admit_users A no_fault now s batch rows tokens).1 later (s, v) ≡ some 1
  unfolding admit_users
  token-kept now later s v [] rows tokens soon h = h
  token-kept now later s v (p ∷ batch) rows tokens soon h =
      token-kept now later s v batch _ _ soon
        (token-set now later s p.user_id v tokens soon (λ _. h))

  token-given :
      (now later s v : ℕ) (batch rows : List Preregistration) (tokens : A.Db)
      → later < now + 60000
      → 0 < count_where (is_user v) batch
      → A.get (admit_users A no_fault now s batch rows tokens).1 later (s, v) ≡ some 1
  unfolding admit_users
  token-given now later s v [] rows tokens soon h = absurd (omega (arith, h))
  token-given now later s v (p ∷ batch) rows tokens soon h = elim (Bool-cases (is_user v p)) [
    | inl this ↦
        token-kept now later s v batch _ _ soon
          (token-set now later s p.user_id v tokens soon (λ ne. absurd (ne (ground arith))))
    | inr other ↦ token-given now later s v batch _ _ soon (ground arith)
  ]

  -- A batch in which no call fails admits the first 50 of those who wait for the sale, in the order of registration, and no
  -- one else, and for less than 60 seconds from then each of them has a token.
  pub admit_batch-admit_first :
      (now later s v : ℕ) (rows : List Preregistration) (tokens : A.Db)
      → IsDistinct rows
      → later < now + 60000
      → 0 < count_where (is_user v) (get_preregistrations_for_sale s batch_size rows)
      → let (outcome, rows', tokens') = admit_batch A no_fault now s rows tokens in
        (rows' ≡ admit_first s batch_size rows) × (A.get tokens' later (s, v) ≡ some 1)
  unfolding admit_batch get_preregistrations_for_sale
  admit_batch-admit_first now later s v rows tokens distinct soon listed = (
    admit_users-admit_first A now s batch_size rows tokens distinct,
    token-given now later s v (take batch_size (select (waits_for s) rows)) rows tokens soon listed,
  )

  -- An interrupted loop marks the rows that the loop over the users before the fault marks.
  admit_users-take :
      (fault : Interruption) (n now s : ℕ) (batch rows : List Preregistration) (tokens : A.Db)
      → length batch ≤ n
      → (admit_users A fault now s batch rows tokens).0
        ≡ (admit_users A no_fault now s (take (admitted_by n fault) batch) rows tokens).0
  unfolding admit_users
  admit_users-take fault n now s [] rows tokens h =
      ap (λ b. (admit_users A no_fault now s b rows tokens).0)
        (sym (take-nil (admitted_by n fault)))
  admit_users-take no_fault n now s (p ∷ batch) rows tokens h =
      ap (λ b. (admit_users A no_fault now s b rows tokens).0) (sym (take-all n (p ∷ batch) h))
  admit_users-take at_select n now s (p ∷ batch) rows tokens h = refl
  admit_users-take (at_token k) zero now s (p ∷ batch) rows tokens h = absurd (omega (arith, h))
  admit_users-take (at_row k) zero now s (p ∷ batch) rows tokens h = absurd (omega (arith, h))
  admit_users-take (at_token zero) (suc n) now s (p ∷ batch) rows tokens h = refl
  admit_users-take (at_row zero) (suc n) now s (p ∷ batch) rows tokens h = refl
  admit_users-take (at_token (suc k)) (suc n) now s (p ∷ batch) rows tokens h =
      admit_users-take (at_token k) n now s batch _ _ (omega (arith, h))
  admit_users-take (at_row (suc k)) (suc n) now s (p ∷ batch) rows tokens h =
      admit_users-take (at_row k) n now s batch _ _ (omega (arith, h))

  admit_users-faulty :
      (fault : Interruption) (now s : ℕ) (rows : List Preregistration) (tokens : A.Db)
      → IsDistinct rows
      → (admit_users A fault now s (take batch_size (select (waits_for s) rows)) rows tokens).0
        ≡ admit_first s (admitted_by batch_size fault) rows
  admit_users-faulty fault now s rows tokens distinct =
      let k = admitted_by batch_size fault in
      admit_users-take fault batch_size now s (take batch_size (select (waits_for s) rows)) rows
        tokens (length-take-le batch_size (select (waits_for s) rows))
      ∙ ap (λ b. (admit_users A no_fault now s b rows tokens).0)
          (take-take k batch_size (select (waits_for s) rows) (admitted_by-le batch_size fault))
      ∙ admit_users-admit_first A now s k rows tokens distinct

  -- Where every user is registered once for a sale, then however often the worker has woken up, each
  -- time no later than the end of the sale, and whichever calls have failed, the users admitted are the
  -- first of those who wait, in the order of registration: 50 for each round in which no call failed,
  -- and for each other one as many as its batch had reached.
  pub run_admission_worker-admit_first :
      (rounds : List (ℕ × Interruption)) (s ends_at : ℕ) (rows : List Preregistration)
      (tokens : A.Db)
      → IsDistinct rows
      → AllBefore ends_at rounds
      → (run_admission_worker A rounds s ends_at rows tokens).0
        ≡ admit_first s (admitted_in rounds) rows
  unfolding run_admission_worker admit_batch get_preregistrations_for_sale
  run_admission_worker-admit_first [] s ends_at rows tokens distinct h = unfold admit_first in refl
  run_admission_worker-admit_first ((now, fault) ∷ later) s ends_at rows tokens distinct h =
      let batch = take batch_size (select (waits_for s) rows) in
      let (rows', tokens') = admit_users A fault now s batch rows tokens in
      let k = admitted_by batch_size fault in
      let marked = admit_users-faulty fault now s rows tokens distinct in
      let awake : ltb ends_at now ≡ false = ground (arith, h.0) in
      rw awake (
        run_admission_worker-admit_first later s ends_at rows' tokens'
          (rw marked (admit_first-IsDistinct s k rows distinct)) h.1
        ∙ ap (admit_first s (admitted_in later)) marked
        ∙ admit_first-admit_first s (admitted_in later) k rows)

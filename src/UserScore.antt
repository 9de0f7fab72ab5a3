-- ===== src/UserScore.antt =====
-- backend/app/utils/user_score.py: the trust score of a user, and the times that it grants. Python's
-- floats are a parameter.
pub mod Bounds
pub mod Join
use flux_kart.Prelude.{
  ℕ, ◌+◌, ◌-◌, Bool, true, false, Option, none, some, List, [], ◌∷◌, ◌++◌, map, ◌==◌, ltb, ◌&&◌,
  if◌then◌else◌, count_where,
}
use flux_kart.Db.{ReservationStatus}

-- Floats without NaN: `hundredths n` is the literal n / 100, and `of_ℕ` the conversion of an int.
pub record Float : Type 1 where
  pub F : Type 0
  pub of_ℕ : ℕ → F
  pub hundredths : ℕ → F
  pub div : F → F → F
  pub mul : F → F → F
  pub sub : F → F → F
  pub add : F → F → F
  pub le : F → F → Bool
  pub lt : F → F → Bool

-- What the SELECT reads of a user: the rows of the joined tables, and the age of the account.
pub record PastReservation : Type 0 where
  pub status : ReservationStatus
  pub created_at : ℕ

pub record History : Type 0 where
  pub reservations : List PastReservation
  pub orders : List ℕ

pub record Stats : Type 0 where
  pub total_reservations : ℕ
  pub total_orders : ℕ
  pub recent_abandonments : ℕ

-- LEFT JOIN: where no row matches, one row of NULLs.
abbrev pub or_null {ℓ} : {A : Type ℓ} → List A → List (Option A)
or_null [] = none ∷ []
or_null (x ∷ xs) = map some (x ∷ xs)

abbrev pub pair_with {ℓ κ} : {A : Type ℓ} {B : Type κ} → A → List B → List (A × B)
pair_with a [] = []
pair_with a (b ∷ bs) = (a, b) ∷ pair_with a bs

abbrev pub joined {ℓ κ} : {A : Type ℓ} {B : Type κ} → List A → List B → List (A × B)
joined [] bs = []
joined (a ∷ as_) bs = pair_with a bs ++ joined as_ bs

-- COUNT(x) passes over NULL.
abbrev pub is_row {ℓ} : {A : Type ℓ} → Option A → Bool
is_row none = false
is_row (some _) = true

abbrev is_expired : ReservationStatus → Bool
is_expired ReservationStatus.expired = true
is_expired _ = false

-- r.status = 'expired' AND r.created_at > NOW() - INTERVAL '24 hours'
abbrev pub abandoned : ℕ → Option PastReservation → Bool
abandoned now none = false
abandoned now (some r) = is_expired r.status && ltb now (r.created_at + 86400000)

-- The SELECT over users LEFT JOIN reservations LEFT JOIN orders: each reservation of the user
-- meets each order of the user.
unfoldable pub user_stats : ℕ → History → Stats
user_stats now h =
    let rows = joined (or_null h.reservations) (or_null h.orders) in
    record {
      total_reservations = count_where (λ row. is_row row.0) rows;
      total_orders = count_where (λ row. is_row row.1) rows;
      recent_abandonments = count_where (λ row. abandoned now row.0) rows;
    }

module _ (fl : Float) where
  open fl use {F, of_ℕ, hundredths, div, mul, sub, add, le, lt}

  -- Python's min(a, b) and max(a, b) keep the first of two equal values.
  abbrev pub min_float : F → F → F
  min_float a b = if lt b a then b else a

  abbrev pub max_float : F → F → F
  max_float a b = if lt a b then b else a

  unfoldable pub base_score : Stats → F
  base_score s =
      if s.total_reservations == 0
      then hundredths 50
      else div (of_ℕ s.total_orders) (of_ℕ s.total_reservations)

  unfoldable pub age_bonus : F → F
  age_bonus days =
      if lt (of_ℕ 365) days
      then hundredths 20
      else if lt (of_ℕ 30) days
      then hundredths 10
      else hundredths 0

  -- From the row on; an unknown user is neutral.
  unfoldable pub calculate_user_score : Option (Stats × F) → F
  unfolding base_score age_bonus
  calculate_user_score none = hundredths 50
  calculate_user_score (some (s, account_age_days)) =
      let abandonment_penalty = mul (of_ℕ s.recent_abandonments) (hundredths 15) in
      let score = add (sub (base_score s) abandonment_penalty) (age_bonus account_age_days) in
      max_float (hundredths 0) (min_float (hundredths 100) score)

  unfoldable pub get_ttl_for_score : F → ℕ
  get_ttl_for_score score =
      if le (hundredths 70) score then 900 else if le (hundredths 40) score then 600 else 180

  unfoldable pub get_recovery_window_for_score : F → ℕ
  get_recovery_window_for_score score =
      if le (hundredths 70) score then 300 else if le (hundredths 40) score then 120 else 0

-- ===== src/UserScore/Bounds.antt =====
-- The range of the score, and the times that it grants, over ordered floats.
use flux_kart.Prelude.{ℕ, ◌≤◌, ◌≡◌, Option, none, true, false, some, arith}
use flux_kart.UserScore.{
  Float, Stats, base_score, min_float, max_float, calculate_user_score, get_ttl_for_score,
  get_recovery_window_for_score,
}

-- The order of floats, and that their operations are monotone under rounding.
pub record Ordered (fl : Float) : Type 0 where
  pub le_trans : (a b c : fl.F) → fl.le a b ≡ true → fl.le b c ≡ true → fl.le a c ≡ true
  pub le_refl : (a : fl.F) → fl.le a a ≡ true
  pub lt-le : (a b : fl.F) → fl.lt a b ≡ true → fl.le a b ≡ true
  pub not_lt-le : (a b : fl.F) → fl.lt a b ≡ false → fl.le b a ≡ true
  pub le-not_lt : (a b : fl.F) → fl.le a b ≡ true → fl.lt b a ≡ false
  pub hundredths_mono : (m n : ℕ) → m ≤ n → fl.le (fl.hundredths m) (fl.hundredths n) ≡ true
  pub scaled_mono :
      (m n k : ℕ)
      → m ≤ n
      → fl.le (fl.mul (fl.of_ℕ m) (fl.hundredths k)) (fl.mul (fl.of_ℕ n) (fl.hundredths k)) ≡ true
  pub sub_anti : (a b c : fl.F) → fl.le b c ≡ true → fl.le (fl.sub a c) (fl.sub a b) ≡ true
  pub add_mono : (a b c : fl.F) → fl.le a b ≡ true → fl.le (fl.add a c) (fl.add b c) ≡ true

module _ (fl : Float) (o : Ordered fl) where
  min_mono : (k a b : fl.F) → fl.le a b ≡ true → fl.le (min_float fl k a) (min_float fl k b) ≡ true
  min_mono k a b h = ground (
    arith,
    h,
    o.le_trans a b k,
    o.lt-le a k,
    o.lt-le b k,
    o.not_lt-le b k,
    o.not_lt-le a k,
    o.le_trans a k b,
    o.le_refl k,
    o.le_trans k a b,
  )

  max_mono : (k a b : fl.F) → fl.le a b ≡ true → fl.le (max_float fl k a) (max_float fl k b) ≡ true
  max_mono k a b h = ground (
    arith,
    h,
    o.le_trans a b k,
    o.lt-le k a,
    o.lt-le k b,
    o.not_lt-le k b,
    o.not_lt-le k a,
    o.le_trans a k b,
    o.le_refl k,
    o.le_trans k a b,
  )

  -- The times granted grow with the score.
  times_mono :
      (a b : fl.F)
      → fl.le a b ≡ true
      → (get_ttl_for_score fl a ≤ get_ttl_for_score fl b)
        × (get_recovery_window_for_score fl a ≤ get_recovery_window_for_score fl b)
  unfolding get_ttl_for_score get_recovery_window_for_score
  times_mono a b h =
      ground (arith, o.le_trans (fl.hundredths 70) a b, o.le_trans (fl.hundredths 40) a b)

  clamped :
      (x : fl.F)
      → let score = max_float fl (fl.hundredths 0) (min_float fl (fl.hundredths 100) x) in
        (fl.le (fl.hundredths 0) score ≡ true) × (fl.le score (fl.hundredths 100) ≡ true)
  clamped x = ground (
    arith,
    o.hundredths_mono 0 100,
    o.not_lt-le x (fl.hundredths 100),
    o.lt-le x (fl.hundredths 100),
    o.lt-le (fl.hundredths 0) x,
    o.lt-le (fl.hundredths 0) (fl.hundredths 100),
    o.le_refl (fl.hundredths 0),
    o.le_refl (fl.hundredths 100),
  )

  -- The score of any statistics and account age, and that of an unknown user, lies between 0 and 1.
  calculate_user_score-bounds :
      (row : Option (Stats × fl.F))
      → (fl.le (fl.hundredths 0) (calculate_user_score fl row) ≡ true)
        × (fl.le (calculate_user_score fl row) (fl.hundredths 100) ≡ true)
  unfolding calculate_user_score
  calculate_user_score-bounds none =
      (o.hundredths_mono 0 50 (omega arith), o.hundredths_mono 50 100 (omega arith))
  calculate_user_score-bounds (some (s, age)) = clamped _

  more_abandoned :
      (s : Stats) (more : ℕ) (age : fl.F)
      → s.recent_abandonments ≤ more
      → let score = calculate_user_score fl (some (s, age)) in
        let worse = calculate_user_score fl (some (record s { recent_abandonments = more }, age)) in
        (get_ttl_for_score fl worse ≤ get_ttl_for_score fl score)
        × (get_recovery_window_for_score fl worse ≤ get_recovery_window_for_score fl score)
  unfolding calculate_user_score base_score
  more_abandoned s more age h = times_mono _ _ (
      max_mono _ _ _ (
        min_mono _ _ _
          (o.add_mono _ _ _ (o.sub_anti _ _ _ (o.scaled_mono s.recent_abandonments more 15 h)))))

  -- Of two users whose other statistics and account ages agree, the one with more abandoned
  -- reservations gets no longer reservation and no longer recovery window. The scores of both lie
  -- between 0 and 1.
  pub abandonment_costs_time :
      (s : Stats) (more : ℕ) (age : fl.F)
      → s.recent_abandonments ≤ more
      → let score = calculate_user_score fl (some (s, age)) in
        let worse = calculate_user_score fl (some (record s { recent_abandonments = more }, age)) in
        (get_ttl_for_score fl worse ≤ get_ttl_for_score fl score)
        × (get_recovery_window_for_score fl worse ≤ get_recovery_window_for_score fl score)
        × ((fl.le (fl.hundredths 0) worse ≡ true) × (fl.le worse (fl.hundredths 100) ≡ true))
        × ((fl.le (fl.hundredths 0) score ≡ true) × (fl.le score (fl.hundredths 100) ≡ true))
  abandonment_costs_time s more age h =
      let (ttl, window) = more_abandoned s more age h in
      (
        ttl,
        window,
        calculate_user_score-bounds (some (record s { recent_abandonments = more }, age)),
        calculate_user_score-bounds (some (s, age)),
      )

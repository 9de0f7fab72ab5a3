-- ===== src/Examples/Score.antt =====
-- Scores over floats of two decimals.
use flux_kart.Prelude.{ℕ, ◌*◌, ◌≤◌, ◌≡◌, true, some, arith, not}
use flux_kart.Prelude.Int.{ℤ, pos, ◌+ℤ◌, ◌-ℤ◌, ltb_ℤ, pos_part, +ℤ_parts, -ℤ_parts}
use Prim.Native.Nat.{◌/◌}
use native.Mathlib.Nat
use flux_kart.Db.{ReservationStatus}
use flux_kart.UserScore.{
  Float, PastReservation, Stats, calculate_user_score, get_ttl_for_score,
  get_recovery_window_for_score,
}
use flux_kart.UserScore.Bounds.{Ordered, abandonment_costs_time}

-- The number of hundredths.
abbrev pub decimals : Float
decimals = record {
  F = ℤ;
  of_ℕ = λ n. pos (n * 100);
  hundredths = λ n. pos n;
  div = λ a b. pos (pos_part a * 100 / pos_part b);
  mul = λ a b. pos (pos_part a * pos_part b / 100);
  sub = λ a b. a -ℤ b;
  add = λ a b. a +ℤ b;
  le = λ a b. not (ltb_ℤ b a);
  lt = λ a b. ltb_ℤ a b;
}

sub_anti : (a b c : ℤ) → not (ltb_ℤ c b) ≡ true → not (ltb_ℤ (a -ℤ b) (a -ℤ c)) ≡ true
sub_anti a b c h = ground (arith, -ℤ_parts a b, -ℤ_parts a c)

add_mono : (a b c : ℤ) → not (ltb_ℤ b a) ≡ true → not (ltb_ℤ (b +ℤ c) (a +ℤ c)) ≡ true
add_mono a b c h = ground (arith, +ℤ_parts a c, +ℤ_parts b c)

scaled_mono : (m n k : ℕ) → m ≤ n → m * 100 * k / 100 ≤ n * 100 * k / 100
scaled_mono m n k h =
    let scaled : m * 100 * k ≤ n * 100 * k = Nat.mul-le-mul_right k (omega arith) in
    omega (arith, scaled)

decimals-Ordered : Ordered decimals
decimals-Ordered = record {
  le_trans = λ a b c h k. ground arith;
  le_refl = λ a. ground arith;
  lt-le = λ a b h. ground arith;
  not_lt-le = λ a b h. ground arith;
  le-not_lt = λ a b h. ground arith;
  hundredths_mono = λ m n h. ground arith;
  scaled_mono = λ m n k h. ground (arith, scaled_mono m n k h);
  sub_anti = λ a b c h. sub_anti a b c h;
  add_mono = λ a b c h. add_mono a b c h;
}

abbrev stats : Stats
stats = record { total_reservations = 4; total_orders = 3; recent_abandonments = 1 }

abandonment_costs_time_example :
    let score = calculate_user_score decimals (some (stats, pos 4000)) in
    let worse =
      calculate_user_score decimals (some (record stats { recent_abandonments = 3 }, pos 4000)) in
    (get_ttl_for_score decimals worse ≤ get_ttl_for_score decimals score)
    × (get_recovery_window_for_score decimals worse ≤ get_recovery_window_for_score decimals score)
    × ((decimals.le (pos 0) worse ≡ true) × (decimals.le worse (pos 100) ≡ true))
    × ((decimals.le (pos 0) score ≡ true) × (decimals.le score (pos 100) ≡ true))
abandonment_costs_time_example =
    abandonment_costs_time decimals decimals-Ordered stats 3 (pos 4000) (omega arith)

abbrev past : PastReservation
past = record { status = ReservationStatus.expired; created_at = 10 }

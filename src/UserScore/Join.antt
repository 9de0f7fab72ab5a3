-- ===== src/UserScore/Join.antt =====
-- What the two LEFT JOINs of calculate_user_score do to the counts.
use flux_kart.Prelude.{
  ℕ, ◌*◌, ◌≡◌, arith, some, List, [], ◌∷◌, map, length, count_where, count_where-append,
}
use flux_kart.UserScore.{PastReservation, History, user_stats, pair_with, joined, is_row}

module _ {ℓ κ} {A : Type ℓ} {B : Type κ} where
  pair_with-counts :
      (a : A) (bs : List B)
      → let rows = pair_with (some a) (map some bs) in
        (count_where (λ row. is_row row.0) rows ≡ length bs)
        × (count_where (λ row. is_row row.1) rows ≡ length bs)
  pair_with-counts a [] = ground arith
  pair_with-counts a (b ∷ bs) = ground (arith, pair_with-counts a bs)

  joined-counts :
      (as_ : List A) (bs : List B)
      → let rows = joined (map some as_) (map some bs) in
        (count_where (λ row. is_row row.0) rows ≡ length as_ * length bs)
        × (count_where (λ row. is_row row.1) rows ≡ length as_ * length bs)
  joined-counts [] bs = ground arith
  joined-counts (a ∷ as_) bs =
      let here = pair_with (some a) (map some bs) in
      let rest = joined (map some as_) (map some bs) in
      ground (
        arith,
        pair_with-counts a bs,
        joined-counts as_ bs,
        count_where-append (λ row. is_row row.0) here rest,
        count_where-append (λ row. is_row row.1) here rest,
      )

-- For a user with a reservation and an order, the SELECT counts each reservation once for each
-- order: both counts are the product of the two numbers, whatever they are, so the conversion rate
-- computed from them is always a number divided by itself.
pub user_stats-product :
    (now : ℕ) (r : PastReservation) (rs : List PastReservation) (o : ℕ) (os : List ℕ)
    → let h : History = record { reservations = r ∷ rs; orders = o ∷ os } in
      ((user_stats now h).total_reservations ≡ length (r ∷ rs) * length (o ∷ os))
      × ((user_stats now h).total_orders ≡ length (r ∷ rs) * length (o ∷ os))
unfolding user_stats
user_stats-product now r rs o os = joined-counts (r ∷ rs) (o ∷ os)

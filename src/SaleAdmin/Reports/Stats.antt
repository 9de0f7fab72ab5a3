-- ===== src/SaleAdmin/Reports/Stats.antt =====
-- What the two LEFT JOINs of `get_sale_stats` do to its numbers.
use flux_kart.Prelude.{
  ℕ, suc, ◌+◌, ◌*◌, ◌≤◌, ◌≡◌, refl, ◌∙◌, Bool, true, false, Option, none, some, List, [], ◌∷◌, ◌++◌,
  arith, ◌==◌, if◌then◌else◌, length, map, select, count_where, sum_where, count_where-select-le,
  Option-cases, Bool-cases, inl, inr, ap,
}
use flux_kart.Db.{Reservation, ReservationStatus, Order, Database, is_pending}
use flux_kart.Db.Reservations.{has_id}
use flux_kart.Db.Sales.{get_sale_by_id}
use flux_kart.UserScore.{or_null, pair_with, joined}
use flux_kart.SaleAdmin.Reports.{
  StatsRow, SaleStats, price_in, reservation_ids, distinct, occurs, get_sale_stats, is_confirmed,
  is_expired,
}

abbrev order_price : Option Order → ℕ
order_price none = 0
order_price (some o) = o.total_price

total_price : List (Option Order) → ℕ
total_price [] = 0
total_price (o ∷ os) = order_price o + total_price os

abbrev every : StatsRow → Bool
every row = true

revenue-append :
    (xs ys : List StatsRow)
    → sum_where every price_in (xs ++ ys)
      ≡ sum_where every price_in xs + sum_where every price_in ys
revenue-append [] ys = omega arith
revenue-append (x ∷ xs) ys = omega (arith, revenue-append xs ys)

revenue-pair_with :
    (r : Option Reservation) (os : List (Option Order))
    → sum_where every price_in (pair_with r os) ≡ total_price os
unfolding total_price
revenue-pair_with r [] = refl
revenue-pair_with r (none ∷ os) = omega (arith, revenue-pair_with r os)
revenue-pair_with r (some o ∷ os) = omega (arith, revenue-pair_with r os)

revenue-joined :
    (rs : List (Option Reservation)) (os : List (Option Order))
    → sum_where every price_in (joined rs os) ≡ length rs * total_price os
revenue-joined [] os = omega arith
revenue-joined (r ∷ rs) os = grind (
  arith,
  revenue-append (pair_with r os) (joined rs os),
  revenue-pair_with r os,
  revenue-joined rs os,
)

-- COUNT(DISTINCT r.id): the copies of a reservation count once.
module _ (p : ReservationStatus → Bool) where
  ids_none :
      (os : List (Option Order)) (rest : List StatsRow)
      → reservation_ids p (pair_with none os ++ rest) ≡ reservation_ids p rest
  ids_none [] rest = refl
  ids_none (o ∷ os) rest = ids_none os rest

  ids_other :
      (r : Reservation) (os : List (Option Order)) (rest : List StatsRow)
      → p r.status ≡ false
      → reservation_ids p (pair_with (some r) os ++ rest) ≡ reservation_ids p rest
  ids_other r [] rest h = refl
  ids_other r (o ∷ os) rest h = simp h (ids_other r os rest h)

  ids_copies :
      (r : Reservation) (o : Option Order) (os : List (Option Order)) (rest : List StatsRow)
      → p r.status ≡ true
      → occurs r.id (reservation_ids p rest) ≡ false
      → distinct (reservation_ids p (pair_with (some r) (o ∷ os) ++ rest))
        ≡ distinct (reservation_ids p rest) + 1
  ids_copies r o [] rest h new = ground arith
  ids_copies r o (o' ∷ os) rest h new = ground (arith, ids_copies r o' os rest h new)

  occurs-pair_with :
      (k : ℕ) (r : Reservation) (os : List (Option Order)) (rest : List StatsRow)
      → (r.id == k) ≡ false
      → occurs k (reservation_ids p (pair_with (some r) os ++ rest))
        ≡ occurs k (reservation_ids p rest)
  occurs-pair_with k r [] rest h = refl
  occurs-pair_with k r (o ∷ os) rest h = ground (arith, occurs-pair_with k r os rest h)

  occurs-joined :
      (k : ℕ) (rs : List Reservation) (os : List (Option Order))
      → count_where (has_id k) rs ≡ 0
      → occurs k (reservation_ids p (joined (map some rs) os)) ≡ false
  occurs-joined k [] os h = refl
  occurs-joined k (r ∷ rs) os h =
      occurs-pair_with k r os (joined (map some rs) os) (ground arith)
      ∙ occurs-joined k rs os (ground arith)

  distinct-joined :
      (rs : List Reservation) (o : Option Order) (os : List (Option Order))
      → ((k : ℕ) → count_where (has_id k) rs ≤ 1)
      → distinct (reservation_ids p (joined (map some rs) (o ∷ os)))
        ≡ count_where (λ r. p r.status) rs
  distinct-joined [] o os one = refl
  distinct-joined (r ∷ rs) o os one =
      let rest = joined (map some rs) (o ∷ os) in
      let fewer = distinct-joined rs o os (λ k. ground (arith, one k)) in
      let new = occurs-joined r.id rs (o ∷ os) (ground (arith, one r.id)) in
      elim (Bool-cases (p r.status)) [
        | inl hit ↦ ground (arith, ids_copies r o os rest hit new)
        | inr miss ↦ ground (arith, ids_other r (o ∷ os) rest miss)
      ]

  -- Over the rows of the two outer joins.
  distinct-or_null :
      (rs : List Reservation) (os : List Order)
      → ((k : ℕ) → count_where (has_id k) rs ≤ 1)
      → distinct (reservation_ids p (joined (or_null rs) (or_null os)))
        ≡ count_where (λ r. p r.status) rs
  distinct-or_null [] [] one = refl
  distinct-or_null [] (o ∷ os) one = ap distinct (ids_none (map some os) [])
  distinct-or_null (r ∷ rs) [] one = distinct-joined (r ∷ rs) none [] one
  distinct-or_null (r ∷ rs) (o ∷ os) one = distinct-joined (r ∷ rs) (some o) (map some os) one

length-or_null-rows :
    (rs : List Reservation) → length (or_null rs) ≡ (if length rs == 0 then 1 else length rs)
length-or_null-rows [] = refl
length-or_null-rows (r ∷ rs) = ground (arith, length-map rs)
  where
    length-map : (xs : List Reservation) → length (map some xs) ≡ length xs
    length-map [] = refl
    length-map (x ∷ xs) = ap suc (length-map xs)

abbrev pub all_orders : Order → Bool
all_orders o = true

total_price-or_null :
    (os : List Order) → total_price (or_null os) ≡ sum_where all_orders (λ o. o.total_price) os
unfolding total_price
total_price-or_null [] = refl
total_price-or_null (o ∷ os) = omega (arith, of_some os)
  where
    of_some :
        (xs : List Order) → total_price (map some xs) ≡ sum_where all_orders (λ o. o.total_price) xs
    of_some [] = refl
    of_some (x ∷ xs) = omega (arith, of_some xs)

-- Where no id has two reservations, the statistics of a sale count its pending, confirmed and expired
-- reservations right, whatever orders there are. The revenue is the total price of all its orders,
-- of whatever status, once for each of its reservations (once if there is none).
pub get_sale_stats_lem :
    (s : ℕ) (db : Database) (stats : SaleStats)
    → ((k : ℕ) → count_where (has_id k) db.reservations ≤ 1)
    → get_sale_stats s db ≡ some stats
    → let rs = select (λ r. r.sale_id == s) db.reservations in
      let os = select (λ o. o.sale_id == s) db.orders in
      (stats.pending_reservations ≡ count_where (λ r. is_pending r.status) rs)
      × (stats.confirmed_reservations ≡ count_where (λ r. is_confirmed r.status) rs)
      × (stats.expired_reservations ≡ count_where (λ r. is_expired r.status) rs)
      × (stats.total_revenue
          ≡ (if length rs == 0 then 1 else length rs)
            * sum_where all_orders (λ o. o.total_price) os)
unfolding get_sale_stats
get_sale_stats_lem s db stats one e = elim (Option-cases (get_sale_by_id s db)) [
  | inl missing ↦ absurd (ground arith)
  | inr ((sale, i), there) ↦
      let rs = select (λ r. r.sale_id == s) db.reservations in
      let os = select (λ o. o.sale_id == s) db.orders in
      let rows = joined (or_null rs) (or_null os) in
      let one_id : (k : ℕ) → count_where (has_id k) rs ≤ 1 = λ k.
        omega
          (arith, count_where-select-le (has_id k) (λ r. r.sale_id == s) db.reservations, one k) in
      let revenue =
        revenue-joined (or_null rs) (or_null os)
        ∙ ap (λ n. n * total_price (or_null os)) (length-or_null-rows rs)
        ∙ ap (λ n. (if length rs == 0 then 1 else length rs) * n) (total_price-or_null os) in
      (
        ground (arith, e, there) ∙ distinct-or_null is_pending rs os one_id,
        ground (arith, e, there) ∙ distinct-or_null is_confirmed rs os one_id,
        ground (arith, e, there) ∙ distinct-or_null is_expired rs os one_id,
        ground (arith, e, there) ∙ revenue,
      )
]

-- ===== src/Payments/Cart.antt =====
-- What backend/app/routers/orders.py shows of a user's reservations and orders. NOW() is the time
-- `now`; orders stand in the order of `created_at`. Rows with the same time come in any order in SQL.
pub mod Emptied
pub mod Shown
use flux_kart.Prelude.{
  ℕ, ◌≤◌, ◌≡◌, ◌||◌, not, refl, ◌∙◌, Bool, true, false, Option, none, some, List, [], ◌∷◌, arith,
  ◌==◌, ltb, leb, ◌&&◌, if◌then◌else◌, first, select, count_where, Option-cases, inl, inr,
}
use mathlib.Core.List.{reverse}
use flux_kart.Prelude.Sorting.{order_by, IsSorted, order_by-IsSorted, count_where-order_by}
use flux_kart.Db.{
  Sale, Reservation, ReservationStatus, Order, OrderStatus, Database, is_active, is_paid,
}
use flux_kart.Db.Orders.{of_reservation, get_order}
use flux_kart.Db.Sales.{is_sale}
use flux_kart.Payments.{Response, reply, http_error}

-- A row of the SELECT of `get_cart`.
pub record CartItem : Type 0 where
  pub reservation : Reservation
  pub sale : Sale
  pub order : Option Order

-- r.user_id = $1 AND r.status IN ('pending', 'confirmed') AND r.expires_at > NOW()
abbrev pub is_kept : ℕ → ℕ → Reservation → Bool
is_kept now user_id r = r.user_id == user_id && is_active r.status && ltb now r.expires_at

-- o.status IS NULL OR o.status != 'paid'
abbrev pub is_unpaid : Option Order → Bool
is_unpaid none = true
is_unpaid (some o) = if is_paid o.status then false else true

-- The row of a reservation; `reservation_id` is UNIQUE in the orders, so that it has one at most.
unfoldable pub cart_item : ℕ → ℕ → Database → Reservation → Option CartItem
cart_item now user_id db r = elim (first (is_sale r.sale_id) db.sales) [
  | none ↦ none
  | some s ↦
      let o = first (of_reservation r.id) db.orders in
      if is_kept now user_id r && is_unpaid o
      then some (record { reservation = r; sale = s; order = o })
      else none
]

unfoldable pub cart_items : ℕ → ℕ → Database → List Reservation → List CartItem
cart_items now user_id db [] = []
cart_items now user_id db (r ∷ rows) =
    let rest = cart_items now user_id db rows in
    elim (cart_item now user_id db r) [ none ↦ rest | some item ↦ item ∷ rest ]

-- ORDER BY r.expires_at ASC
abbrev pub expires_first : CartItem → CartItem → Bool
expires_first a b = leb a.reservation.expires_at b.reservation.expires_at

unfoldable pub get_cart : ℕ → ℕ → Database → List CartItem
get_cart now user_id db = order_by expires_first (cart_items now user_id db db.reservations)

-- ORDER BY created_at DESC
unfoldable pub get_orders_by_user : ℕ → Database → List Order
get_orders_by_user user_id db = reverse (select (λ o. o.user_id == user_id) db.orders)

unfoldable pub get_my_order : ℕ → ℕ → Database → Response Order
get_my_order order_id user_id db = elim (get_order order_id user_id db) [
  | none ↦ http_error 404
  | some o ↦ reply o
]

abbrev pub shows : ℕ → CartItem → Bool
shows reservation_id item = item.reservation.id == reservation_id

-- The reservations with an id that pass the conditions of the query.
abbrev pub belongs : ℕ → ℕ → ℕ → Database → Reservation → Bool
belongs now user_id k db r =
    r.id == k
    && is_kept now user_id r
    && is_unpaid (first (of_reservation r.id) db.orders)
    && ltb 0 (count_where (is_sale r.sale_id) db.sales)

pub first-count :
    (k : ℕ) (s : Sale) (sales : List Sale)
    → first (is_sale k) sales ≡ some s
    → ltb 0 (count_where (is_sale k) sales) ≡ true
first-count k s [] e = absurd (ground arith)
first-count k s (x ∷ sales) e = ground (arith, first-count k s sales)

pub first-no_count :
    (k : ℕ) (sales : List Sale)
    → first (is_sale k) sales ≡ none
    → ltb 0 (count_where (is_sale k) sales) ≡ false
first-no_count k [] e = refl
first-no_count k (x ∷ sales) e = ground (arith, first-no_count k sales)

count-cart_items :
    (now u k : ℕ) (db : Database) (rows : List Reservation)
    → count_where (shows k) (cart_items now u db rows) ≡ count_where (belongs now u k db) rows
unfolding cart_items cart_item
count-cart_items now u k db [] = refl
count-cart_items now u k db (r ∷ rows) = elim (Option-cases (first (is_sale r.sale_id) db.sales)) [
  | inl missing ↦
      ground (
        arith,
        missing,
        first-no_count r.sale_id db.sales missing,
        count-cart_items now u k db rows,
      )
  | inr (s, there) ↦
      ground
        (arith, there, first-count r.sale_id s db.sales there, count-cart_items now u k db rows)
]

-- Of each reservation id the cart has as many rows as the table has of the kind.
pub get_cart-belongs :
    (now u k : ℕ) (db : Database)
    → count_where (shows k) (get_cart now u db) ≡ count_where (belongs now u k db) db.reservations
unfolding get_cart
get_cart-belongs now u k db =
    count_where-order_by expires_first (shows k) (cart_items now u db db.reservations)
    ∙ count-cart_items now u k db db.reservations

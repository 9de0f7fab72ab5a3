-- ===== src/Payments/Cart/Shown.antt =====
-- What the cart shows.
use flux_kart.Prelude.{ℕ, ◌||◌, not, Bool, true, false, none, some, ◌==◌, ltb, ◌&&◌, count_where}
use flux_kart.Db.{Sale, Reservation, ReservationStatus, Order, OrderStatus, Database}
use flux_kart.Payments.Cart.{CartItem}

-- What the cart is to show, without the functions of the model.
abbrev pub is_open : ReservationStatus → Bool
is_open ReservationStatus.pending = true
is_open ReservationStatus.confirmed = true
is_open ReservationStatus.expired = false
is_open ReservationStatus.cancelled = false

abbrev pub is_bought : OrderStatus → Bool
is_bought OrderStatus.paid = true
is_bought _ = false

abbrev pub buys : ℕ → Order → Bool
buys reservation_id o = o.reservation_id == reservation_id && is_bought o.status

abbrev pub in_cart : ℕ → ℕ → Database → Reservation → Bool
in_cart now user_id db r =
    r.user_id == user_id
    && is_open r.status
    && ltb now r.expires_at
    && (count_where (buys r.id) db.orders == 0)
    && ltb 0 (count_where (λ (s : Sale). s.id == r.sale_id) db.sales)

-- A row with the sale or the order of another reservation.
abbrev pub is_mixed_up : CartItem → Bool
is_mixed_up item =
    not (item.sale.id == item.reservation.sale_id)
    || elim item.order [ none ↦ false | some o ↦ not (o.reservation_id == item.reservation.id) ]

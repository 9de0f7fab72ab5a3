-- ===== src/Payments/Cart/Emptied.antt =====
-- What leaves the cart.
use flux_kart.Prelude.{
  ℕ, ◌≤◌, ◌<◌, ◌≡◌, refl, ◌∙◌, true, some, List, [], ◌∷◌, ◌⊎◌, inl, inr, arith, first, update_where,
  count_where, first-update,
}
use flux_kart.Db.{Reservation, ReservationStatus, Order, OrderStatus, Database, done, is_paid}
use flux_kart.Db.Orders.{has_id, owned, of_reservation, set_order_status}
use flux_kart.Db.Reservations
use flux_kart.Db.Reservations.{update_reservation_status}
use flux_kart.Db.Inventory.{update_inventory}
use flux_kart.Payments.{Fetched, fetch_order, pay_transaction, cancel_transaction}
use flux_kart.Payments.Paid.{fetch_order-get, pay_transaction_lem}
use flux_kart.Payments.Cart.{belongs, shows, get_cart, get_cart-belongs}

found_counts :
    (k u : ℕ) (o : Order) (rows : List Order)
    → first (owned k u) rows ≡ some o
    → 0 < count_where (of_reservation o.reservation_id) rows
found_counts k u o [] e = absurd (ground arith)
found_counts k u o (x ∷ rows) e = ground (arith, found_counts k u o rows)

-- The one order of its reservation.
first-only :
    (k u : ℕ) (o : Order) (rows : List Order)
    → count_where (of_reservation o.reservation_id) rows ≤ 1
    → first (owned k u) rows ≡ some o
    → first (of_reservation o.reservation_id) rows ≡ some o
first-only k u o [] one e = absurd (ground arith)
first-only k u o (x ∷ rows) one e = ground (arith, found_counts k u o rows, first-only k u o rows)

abbrev pay_row : Order → Order
pay_row o = record o { status = OrderStatus.paid }

none_belongs :
    (now u k : ℕ) (o : Order) (db : Database) (rows : List Reservation)
    → first (of_reservation k) db.orders ≡ some o
    → is_paid o.status ≡ true
    → count_where (belongs now u k db) rows ≡ 0
none_belongs now u k o db [] e paid = refl
none_belongs now u k o db (r ∷ rows) e paid = ground (arith, none_belongs now u k o db rows e paid)

cancel_row : Reservation → Reservation
cancel_row r = record r { status = ReservationStatus.cancelled }

none_active :
    (now u k : ℕ) (db : Database) (rows : List Reservation)
    → count_where (belongs now u k db) (update_where (Reservations.has_id k) cancel_row rows) ≡ 0
unfolding cancel_row
none_active now u k db [] = refl
none_active now u k db (r ∷ rows) = ground (arith, none_active now u k db rows)

cancelled_rows :
    (f : Fetched) (db db' : Database)
    → cancel_transaction f db ≡ done db'
    → db'.reservations
      ≡ update_where (Reservations.has_id f.0.reservation_id) cancel_row db.reservations
unfolding cancel_transaction set_order_status update_reservation_status update_inventory cancel_row
cancelled_rows f db db' e = ground arith

paid_order_first :
    (k u : ℕ) (f : Fetched) (db db' : Database)
    → count_where (of_reservation f.0.reservation_id) db.orders ≤ 1
    → fetch_order k u db ≡ some f
    → pay_transaction f db ≡ done db'
    → first (of_reservation f.0.reservation_id) db'.orders ≡ some (pay_row f.0)
paid_order_first k u f db db' one found e =
    let (orders, _) = pay_transaction_lem f db db' e in
    let there = first-only k u f.0 db.orders one (fetch_order-get k u f db found) in
    rw orders (
      ground (
        arith,
        first-update (of_reservation f.0.reservation_id) (has_id f.0.id) pay_row f.0 db.orders
            (λ o. refl) there,
      ))

-- Where no reservation has two orders: once the transaction of a payment or of a cancellation of an
-- order went through, no user's cart shows the order's reservation any more, at whatever time.
pub settled_leaves_cart :
    (k u now user_id : ℕ) (f : Fetched) (db db' : Database)
    → count_where (of_reservation f.0.reservation_id) db.orders ≤ 1
    → fetch_order k u db ≡ some f
    → (pay_transaction f db ≡ done db') ⊎ (cancel_transaction f db ≡ done db')
    → count_where (shows f.0.reservation_id) (get_cart now user_id db') ≡ 0
settled_leaves_cart k u now user_id f db db' one found (inl paid) =
    get_cart-belongs now user_id f.0.reservation_id db'
    ∙ none_belongs now user_id f.0.reservation_id (pay_row f.0) db' db'.reservations
        (paid_order_first k u f db db' one found paid) refl
settled_leaves_cart k u now user_id f db db' one found (inr cancelled) =
    get_cart-belongs now user_id f.0.reservation_id db'
    ∙ rw (cancelled_rows f db db' cancelled)
        (none_active now user_id f.0.reservation_id db' db.reservations)

-- ===== src/Db/Orders.antt =====
-- The orders table: the order statements of backend/app/db/queries/orders.py and of the routers.
use flux_kart.Prelude.{
  ℕ, Bool, Option, [], ◌∷◌, ◌++◌, ◌==◌, ltb, ◌&&◌, if◌then◌else◌, first, update_where, count_where,
}
use flux_kart.Db.{Order, OrderStatus, Database, Outcome, done, raised, is_paid}

abbrev pub of_reservation : ℕ → Order → Bool
of_reservation reservation_id o = o.reservation_id == reservation_id

abbrev pub has_id : ℕ → Order → Bool
has_id order_id o = o.id == order_id

abbrev pub owned : ℕ → ℕ → Order → Bool
owned order_id user_id o = o.id == order_id && o.user_id == user_id

abbrev pub new_order : ℕ → ℕ → ℕ → ℕ → ℕ → ℕ → ℕ → Order
new_order id user_id sale_id reservation_id quantity unit_price total_price = record {
  id = id;
  user_id = user_id;
  sale_id = sale_id;
  reservation_id = reservation_id;
  quantity = quantity;
  unit_price = unit_price;
  total_price = total_price;
  status = OrderStatus.pending;
}

-- INSERT INTO orders: `reservation_id` is UNIQUE.
unfoldable pub create_order : ℕ → ℕ → ℕ → ℕ → ℕ → ℕ → ℕ → Database → Outcome Database
create_order id user_id sale_id reservation_id quantity unit_price total_price db =
    let o = new_order id user_id sale_id reservation_id quantity unit_price total_price in
    if ltb 0 (count_where (of_reservation reservation_id) db.orders)
    then raised
    else done (record db { orders = db.orders ++ o ∷ [] })

-- WHERE id = $1 AND user_id = $2
unfoldable pub get_order : ℕ → ℕ → Database → Option Order
get_order order_id user_id db = first (owned order_id user_id) db.orders

-- WHERE user_id = $1 AND sale_id = $2 AND status = 'paid'
unfoldable pub get_paid_order : ℕ → ℕ → Database → Option Order
get_paid_order user_id sale_id db =
    first (λ o. o.user_id == user_id && o.sale_id == sale_id && is_paid o.status) db.orders

-- UPDATE orders SET status = $1 WHERE id = $2
unfoldable pub set_order_status : ℕ → OrderStatus → Database → Database
set_order_status order_id status db = record db {
  orders = update_where (has_id order_id) (λ o. record o { status = status }) db.orders;
}

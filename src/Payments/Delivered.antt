-- ===== src/Payments/Delivered.antt =====
-- From the message of a reservation to the payment of its order.
use flux_kart.Prelude.{
  ℕ, Bool, ◌+◌, ◌≤◌, ◌≡◌, refl, ap, ◌∙◌, some, List, [], ◌∷◌, ◌++◌, arith, first, update_where,
  count_where,
}
use flux_kart.Redis.{ExpiringStore}
use flux_kart.Db.{ReservationStatus, InventoryRow, Reservation, Order, Payload, Database}
use flux_kart.Db.Reservations.{get_reservation_by_id, confirm_reservation}
use flux_kart.Db.Orders.{has_id, of_reservation, create_order}
use flux_kart.Db.Inventory.{
  for_sale, get_inventory, add_reserved, IsStocked, first-update_where, update_inventory_lem,
}
use flux_kart.OrderConsumer.{processed, healthy, process_order_message}
use flux_kart.OrderConsumer.Redelivery.{order_of, ordered}
use flux_kart.Payments.Card.{Python, PaymentRequest}
use flux_kart.Payments.{Receipt, reply, pay_uncached}
use flux_kart.Payments.Paid.{payment_moves_stock}
use flux_kart.Db.Orders.{owned}

first-new :
    (o : Order) (orders : List Order)
    → count_where (has_id o.id) orders ≡ 0
    → first (owned o.id o.user_id) (orders ++ o ∷ []) ≡ some o
first-new o [] h = ground arith
first-new o (x ∷ orders) h = ground (arith, first-new o orders)

module _ (price : ℕ → ℕ → ℕ) where
  -- The tables after a delivery that finds nothing in its way.
  abbrev pub delivered : ℕ → Payload → Reservation → Database → Database
  delivered o body r db =
      record (confirm_reservation body.reservation_id (ordered price o body r db)) {
        inventory = update_where (for_sale r.sale_id) (add_reserved r.quantity) db.inventory;
      }

  delivery :
      (o : ℕ) (body : Payload) (r : Reservation) (i : InventoryRow) (db : Database)
      → get_reservation_by_id body.reservation_id db ≡ some r
      → r.status ≡ ReservationStatus.pending
      → count_where (of_reservation body.reservation_id) db.orders ≡ 0
      → IsStocked db.inventory
      → count_where (for_sale r.sale_id) db.inventory ≤ 1
      → get_inventory r.sale_id db ≡ some i
      → i.reserved_quantity + r.quantity + i.sold_quantity ≤ i.total_quantity
      → process_order_message price healthy o (some body) db ≡ (processed, delivered o body r db)
  unfolding process_order_message create_order confirm_reservation
  delivery o body r i db e p fresh stocked one row room = ground (
    arith,
    e,
    update_inventory_lem r.sale_id (add_reserved r.quantity) i
        (confirm_reservation body.reservation_id (ordered price o body r db)) stocked one row
        (ground (arith, room)),
  )

module _ (price : ℕ → ℕ → ℕ) (py : Python) (I : ExpiringStore ℕ Receipt)
    (key : ℕ → ℕ → List ℕ → ℕ) where
  -- With valid rows of the inventory, one for the sale, and a new id for the order, a message for a
  -- pending reservation without an order is processed wherever the row of its sale has the units
  -- available, and they become reserved; once a payment of its order is answered
  -- with a receipt, they are sold, and as many are reserved as before the message.
  pub delivery_then_payment :
      (o : ℕ) (body : Payload) (r : Reservation) (i : InventoryRow) (db : Database) (up : Bool)
      (now : ℕ) (p : PaymentRequest) (x : Receipt) (cache : I.Db)
      → get_reservation_by_id body.reservation_id db ≡ some r
      → r.status ≡ ReservationStatus.pending
      → count_where (of_reservation body.reservation_id) db.orders ≡ 0
      → count_where (has_id o) db.orders ≡ 0
      → IsStocked db.inventory
      → count_where (for_sale r.sale_id) db.inventory ≤ 1
      → get_inventory r.sale_id db ≡ some i
      → i.reserved_quantity + r.quantity + i.sold_quantity ≤ i.total_quantity
      → (pay_uncached py I key up now r.user_id o p
          (process_order_message price healthy o (some body) db).1
          cache).0
        ≡ reply x
      → let (verdict, ordered_db) = process_order_message price healthy o (some body) db in
        let paid_db = (pay_uncached py I key up now r.user_id o p ordered_db cache).1 in
        (verdict ≡ processed)
        × (get_inventory r.sale_id ordered_db ≡ some (add_reserved r.quantity i))
        × (get_inventory r.sale_id paid_db
            ≡ some (record i { sold_quantity = i.sold_quantity + r.quantity }))
  delivery_then_payment o body r i db up now p x cache e pending fresh new stocked one row room
        paid =
      let d = delivery price o body r i db e pending fresh stocked one row room in
      let ordered_db = (process_order_message price healthy o (some body) db).1 in
      let tables : ordered_db ≡ delivered price o body r db = ap (λ v. v.1) d in
      let found : first (owned o r.user_id) ordered_db.orders ≡ some (order_of price o body r) =
        ap (λ t. first (owned o r.user_id) t.orders) tables
        ∙ unfold confirm_reservation in first-new (order_of price o body r) db.orders new in
      let reserved_row : get_inventory r.sale_id ordered_db ≡ some (add_reserved r.quantity i) =
        ap (get_inventory r.sale_id) tables
        ∙ first-update_where r.sale_id (add_reserved r.quantity) i db.inventory (λ j. refl) row in
      let (sold_row, _) =
        payment_moves_stock py I key up now r.user_id o p x (order_of price o body r)
          (add_reserved r.quantity i) ordered_db cache paid found reserved_row in
      (ap (λ v. v.0) d, reserved_row, sold_row ∙ ground arith)

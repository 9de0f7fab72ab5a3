-- ===== src/Payments/Races.antt =====
-- Where the checks of a payment or a cancellation and its transaction are not one step, and what the
-- checks leave out.
use flux_kart.Prelude.{
  ℕ, ◌+◌, ◌-◌, ◌≡◌, refl, ap, ◌∙◌, true, false, some, List, [], ◌∷◌, arith, first, update_where,
  first-update, if◌then◌else◌,
}
use flux_kart.Db.{
  Order, OrderStatus, Reservation, ReservationStatus, InventoryRow, Database, done, is_paid,
}
use flux_kart.Db.Orders.{has_id, get_order, set_order_status}
use flux_kart.Db.Reservations.{
  IsUnique, KeepsIndex, index_holds, is_active_for, update_where-IsUnique, get_reservation_by_id,
  update_reservation_status,
}
use flux_kart.Db.Reservations
use flux_kart.Db.Inventory.{
  for_sale, get_inventory, update_inventory, sell_reserved, drop_reserved, IsStocked,
  all_valid-IsStocked, drop-all_valid, first-update_where,
}
use flux_kart.Payments.{
  reply, Fetched, fetch_order, pay_transaction, cancel_transaction, cancel_order,
}
use flux_kart.Payments.Paid.{pay_transaction_lem, fetch_order-get, fetch_order-reservation}
use flux_kart.Db.Orders.{owned}

-- Two payments of one order that both read it before either has written are both charged: the
-- transactions run one after the other, and the units are sold twice.
pub concurrent_payments_sell_twice :
    (f : Fetched) (i : InventoryRow) (db db₁ db₂ : Database)
    → get_inventory f.0.sale_id db ≡ some i
    → pay_transaction f db ≡ done db₁
    → pay_transaction f db₁ ≡ done db₂
    → get_inventory f.0.sale_id db₂
      ≡ some (record i {
        sold_quantity = i.sold_quantity + f.0.quantity + f.0.quantity;
        reserved_quantity = i.reserved_quantity - f.0.quantity - f.0.quantity;
      })
concurrent_payments_sell_twice f i db db₁ db₂ row first_pay second_pay =
    let (_, stock₁) = pay_transaction_lem f db db₁ first_pay in
    let (_, stock₂) = pay_transaction_lem f db₁ db₂ second_pay in
    let sell = sell_reserved f.0.quantity in
    ap (first (for_sale f.0.sale_id)) stock₂
    ∙ first-update_where f.0.sale_id sell (sell i) db₁.inventory (λ j. refl)
        (ap (first (for_sale f.0.sale_id)) stock₁
          ∙ first-update_where f.0.sale_id sell i db.inventory (λ j. refl) row)

-- Over a table that is unique the index holds for any of its rows.
index_holds_lem : (rows xs : List Reservation) → IsUnique rows → index_holds rows xs ≡ true
index_holds_lem rows [] h = refl
index_holds_lem rows (r ∷ xs) h =
    ground (arith, h.one_active r.user_id r.sale_id, index_holds_lem rows xs h)

abbrev cancel_row : Reservation → Reservation
cancel_row r = record r { status = ReservationStatus.cancelled }

cancel-KeepsIndex : (r : Reservation) → KeepsIndex cancel_row r
cancel-KeepsIndex r = record {
  user = refl;
  sale = refl;
  key = refl;
  activity = λ e. absurd (ground arith);
}

-- The tables after the transaction of a cancellation.
abbrev cancelled_tables : Order → Database → Database
cancelled_tables o db = record db {
  orders = update_where (has_id o.id) (λ x. record x { status = OrderStatus.failed }) db.orders;
  reservations = update_where (Reservations.has_id o.reservation_id) cancel_row db.reservations;
  inventory = update_where (for_sale o.sale_id) (drop_reserved o.quantity) db.inventory;
}

cancel_transaction_lem :
    (f : Fetched) (db : Database)
    → IsUnique db.reservations
    → IsStocked db.inventory
    → cancel_transaction f db ≡ done (cancelled_tables f.0 db)
unfolding cancel_transaction set_order_status update_reservation_status update_inventory
cancel_transaction_lem f db u s =
    let rows = update_where (Reservations.has_id f.0.reservation_id) cancel_row db.reservations in
    ground (
      arith,
      index_holds_lem rows rows (
          update_where-IsUnique (Reservations.has_id f.0.reservation_id) cancel_row
            (λ r _. cancel-KeepsIndex r) db.reservations u),
      drop-all_valid f.0.sale_id f.0.quantity db.inventory,
    )

abbrev fail_row : Order → Order
fail_row o = record o { status = OrderStatus.failed }

-- After a cancellation the order is found again, failed and so not paid, with its reservation.
fetch_cancelled :
    (k u : ℕ) (f : Fetched) (db : Database)
    → fetch_order k u db ≡ some f
    → (r : Reservation) × (fetch_order k u (cancelled_tables f.0 db) ≡ some (fail_row f.0, r))
fetch_cancelled k u f db e =
    let o = f.0 in
    let hit = Reservations.has_id o.reservation_id in
    let there = fetch_order-get k u f db e in
    let reserved = fetch_order-reservation k u f db e in
    (
      (if hit f.1 then cancel_row f.1 else f.1),
      unfold fetch_order get_order get_reservation_by_id in
          ground (
            arith,
            first-update (owned k u) (has_id o.id) fail_row o db.orders (λ y. refl) there,
            first-update hit hit cancel_row f.1 db.reservations (λ y. refl) reserved,
          ),
    )

cancel_order_lem :
    (k u : ℕ) (f : Fetched) (db : Database)
    → IsUnique db.reservations
    → IsStocked db.inventory
    → fetch_order k u db ≡ some f
    → is_paid f.0.status ≡ false
    → cancel_order u k db ≡ (reply f.0, cancelled_tables f.0 db)
unfolding cancel_order
cancel_order_lem k u f db unique stocked e unpaid =
    ground (arith, cancel_transaction_lem f db unique stocked)

-- A cancellation can be repeated: the failed order is not refused, and each repetition takes its
-- units off the reserved ones once more, so those of other reservations are given back.
pub second_cancel_releases_again :
    (k u : ℕ) (f : Fetched) (i : InventoryRow) (db : Database)
    → IsUnique db.reservations
    → IsStocked db.inventory
    → fetch_order k u db ≡ some f
    → is_paid f.0.status ≡ false
    → get_inventory f.0.sale_id db ≡ some i
    → let (first_answer, db₁) = cancel_order u k db in
      let (second_answer, db₂) = cancel_order u k db₁ in
      (first_answer ≡ reply f.0)
      × (second_answer ≡ reply (fail_row f.0))
      × (get_inventory f.0.sale_id db₂
          ≡ some
              (record i { reserved_quantity = i.reserved_quantity - f.0.quantity - f.0.quantity }))
second_cancel_releases_again k u f i db unique stocked e unpaid row =
    let o = f.0 in
    let drop = drop_reserved o.quantity in
    let db₁ = cancelled_tables o db in
    let (r, e₁) = fetch_cancelled k u f db e in
    let unique₁ =
      update_where-IsUnique (Reservations.has_id o.reservation_id) cancel_row
        (λ r _. cancel-KeepsIndex r) db.reservations unique in
    let stocked₁ =
      all_valid-IsStocked db₁.inventory
        (drop-all_valid o.sale_id o.quantity db.inventory stocked) in
    let row₁ = first-update_where o.sale_id drop i db.inventory (λ j. refl) row in
    rw (cancel_order_lem k u f db unique stocked e unpaid) (
      rw (cancel_order_lem k u (fail_row o, r) db₁ unique₁ stocked₁ e₁ refl)
        (refl, refl, first-update_where o.sale_id drop (drop i) db₁.inventory (λ j. refl) row₁))

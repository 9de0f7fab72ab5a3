-- ===== src/Examples/Trade.antt =====
-- Payments, cancellations and expiry on a sale with one order.
use flux_kart.Prelude.{ℕ, ◌*◌, ◌≡◌, refl, Bool, true, false, some, none, List, [], ◌∷◌, arith}
use flux_kart.Prelude.Int.{ℤ, pos}
use flux_kart.Redis.{KeyStore, ExpiringStore}
use flux_kart.Inventory.{Hold, Stock}
use flux_kart.Db.{
  ReservationStatus, OrderStatus, InventoryRow, Reservation, Order, Payload, Database,
}
use flux_kart.Db.Inventory.{get_inventory, add_reserved, update_inventory}
use flux_kart.Db.Reservations.{
  IsUnique, confirm_reservation, get_reservation_by_id, update_reservation_status,
}
use flux_kart.Db.Orders.{create_order, get_order, set_order_status}
use flux_kart.Payments.Card.{Python, dated, PaymentRequest, card_error}
use flux_kart.Payments.{
  Receipt, fetch_order, pay_transaction, pay_uncached, pay_order, payment_error,
}
use flux_kart.Payments.Paid.{paid_only_once}
use flux_kart.Payments.Delivered.{delivery_then_payment}
use flux_kart.OrderConsumer.{processed, healthy, process_order_message}
use flux_kart.Payments.Races.{concurrent_payments_sell_twice}
use flux_kart.Examples.Stores.{write, key_store, expiring_store}

abbrev pub counters : KeyStore ℕ ℤ
counters = key_store ℤ

abbrev pub holds : ExpiringStore ℕ Hold
holds = expiring_store Hold

abbrev pub receipts : ExpiringStore ℕ Receipt
receipts = expiring_store Receipt

abbrev pub no_receipts : receipts.Db
no_receipts _ = none

abbrev pub stock : Stock counters holds
stock = (write (λ _. none) 1 (some (pos 5)), λ _. none)

-- Cards are valid until the time 5000, and every text is a number.
abbrev pub python : Python
python = record {
  is_digit = λ text. true;
  int = λ text. some (pos 20);
  month_start = λ year month. dated (pos 5000);
}

abbrev pub card : PaymentRequest
card = record {
  card_number = 4 ∷ 2 ∷ 4 ∷ 2 ∷ 4 ∷ 2 ∷ 4 ∷ 2 ∷ 4 ∷ 2 ∷ 4 ∷ 2 ∷ 4 ∷ 2 ∷ 4 ∷ 3 ∷ [];
  expiry = 1 ∷ b'/' ∷ 2 ∷ [];
  cvv = 1 ∷ 2 ∷ 3 ∷ [];
}

abbrev pub key : ℕ → ℕ → List ℕ → ℕ
key user_id order_id last4 = order_id

abbrev pub reservation : Reservation
reservation = record {
  id = 3;
  user_id = 4;
  sale_id = 1;
  quantity = 2;
  status = ReservationStatus.confirmed;
  idempotency_key = 6;
  expires_at = 900;
}

abbrev pub order : Order
order = record {
  id = 7;
  user_id = 4;
  sale_id = 1;
  reservation_id = 3;
  quantity = 2;
  unit_price = 500;
  total_price = 1000;
  status = OrderStatus.pending;
}

abbrev pub row : InventoryRow
row = record { sale_id = 1; total_quantity = 8; reserved_quantity = 5; sold_quantity = 1 }

abbrev pub tables : Database
tables = record {
  sales = [];
  inventory = row ∷ [];
  reservations = reservation ∷ [];
  orders = order ∷ [];
  outbox_events = [];
}

tables-IsUnique : IsUnique tables.reservations
tables-IsUnique = record { one_active = λ u s. ground arith; one_key = λ k. ground arith }

abbrev receipt : Receipt
receipt = record { order_id = 7; quantity = 2; total_paid = 1000; card_last4 = 4 ∷ 2 ∷ 4 ∷ 3 ∷ [] }

paid_only_once_example :
    let db' = (pay_uncached python receipts key true 100 4 7 card tables no_receipts).1 in
    (pay_order python receipts key true 200 4 7 card db' no_receipts).1 ≡ db'
unfolding pay_uncached fetch_order get_order get_reservation_by_id payment_error card_error
    pay_transaction update_reservation_status set_order_status update_inventory
paid_only_once_example =
    paid_only_once python receipts key true true 100 200 4 7 card card receipt tables no_receipts
      no_receipts refl

abbrev message : Payload
message = record { reservation_id = 3; user_id = 4; sale_id = 1; quantity = 2; unit_price = 500 }

abbrev unordered : Database
unordered = record tables {
  reservations = record reservation { status = ReservationStatus.pending } ∷ [];
  orders = [];
}

delivery_then_payment_example :
    let (verdict, db) = process_order_message ◌*◌ healthy 7 (some message) unordered in
    let paid_db = (pay_uncached python receipts key true 100 4 7 card db no_receipts).1 in
    (verdict ≡ processed)
    × (get_inventory 1 db ≡ some (add_reserved 2 row))
    × (get_inventory 1 paid_db ≡ some (record row { sold_quantity = 3 }))
unfolding get_reservation_by_id pay_uncached fetch_order get_order process_order_message
    create_order update_inventory confirm_reservation payment_error card_error pay_transaction
    update_reservation_status set_order_status
delivery_then_payment_example =
    delivery_then_payment ◌*◌ python receipts key 7 message
      (record reservation { status = ReservationStatus.pending }) row unordered true 100 card
      receipt no_receipts refl refl refl refl (omega arith, tt) (omega arith) refl (omega arith)
      refl

abbrev sold : ℕ → ℕ → Database
sold reserved_quantity sold_quantity = record tables {
  inventory =
      record row { reserved_quantity = reserved_quantity; sold_quantity = sold_quantity } ∷ [];
  orders = record order { status = OrderStatus.paid } ∷ [];
}

concurrent_payments_sell_twice_example :
    get_inventory 1 (sold 1 5) ≡ some (record row { sold_quantity = 5; reserved_quantity = 1 })
unfolding pay_transaction set_order_status update_reservation_status update_inventory
concurrent_payments_sell_twice_example =
    concurrent_payments_sell_twice (order, reservation) row tables (sold 3 3) (sold 1 5) refl refl
      refl

abbrev pub unlocked : ℕ → Bool
unlocked id = false

abbrev pub reachable : ℕ → Bool
reachable id = true

abbrev paid_tables : Database
paid_tables = sold 5 1

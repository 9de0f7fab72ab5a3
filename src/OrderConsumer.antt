-- ===== src/OrderConsumer.antt =====
-- backend/app/consumers/order_consumer.py: what one delivery from RabbitMQ does to the tables. The
-- statements run in transactions of their own, so those before an exception stay. Tracing, metrics
-- and the declaration of the queues are left out.
pub mod Redelivery
pub mod Kept
use flux_kart.Prelude.{ℕ, Bool, true, false, Option, none, some}
use flux_kart.Db.{ReservationStatus, Reservation, Payload, Database, Outcome, done, raised}
use flux_kart.Db.Reservations.{get_reservation_by_id, confirm_reservation}
use flux_kart.Db.Orders.{create_order}
use flux_kart.Db.Inventory.{update_inventory, add_reserved}

-- How a delivery ends. `message.process(requeue=False)` acknowledges unless an exception leaves
-- the block, and then the message goes to the dead letter queue.
pub data Verdict : Type 0 where
  not_found already_confirmed not_pending processed dead_lettered : Verdict

-- The statement at which the connection to PostgreSQL fails, if it does.
pub data Fault : Type 0 where
  healthy at_fetch at_order at_confirm at_inventory : Fault

-- UPDATE inventory after the order is there and the reservation is confirmed
sync_inventory : Fault → Reservation → Database → Verdict × Database
sync_inventory at_inventory r db = (dead_lettered, db)
sync_inventory _ r db = elim (update_inventory r.sale_id (add_reserved r.quantity) db) [
  | done db' ↦ (processed, db')
  | raised ↦ (dead_lettered, db)
]

after_order : Fault → ℕ → Reservation → Outcome Database → Database → Verdict × Database
unfolding sync_inventory
after_order fault reservation_id r raised db = (dead_lettered, db)
after_order at_confirm reservation_id r (done db') db = (dead_lettered, db')
after_order fault reservation_id r (done db') db =
    sync_inventory fault r (confirm_reservation reservation_id db')

-- `price` is the float product of the unit price and the quantity, as NUMERIC(10, 2) stores it.
create_and_confirm : (ℕ → ℕ → ℕ) → Fault → ℕ → Payload → Reservation → Database → Verdict × Database
unfolding after_order
create_and_confirm price at_order order_id body r db = (dead_lettered, db)
create_and_confirm price fault order_id body r db =
    after_order fault body.reservation_id r
      (create_order order_id r.user_id r.sale_id body.reservation_id r.quantity body.unit_price
        (price body.unit_price r.quantity) db)
      db

-- the tests on the status, in the code's order
by_status :
    ReservationStatus
    → (ℕ → ℕ → ℕ)
    → Fault
    → ℕ
    → Payload
    → Reservation
    → Database
    → Verdict × Database
unfolding create_and_confirm
by_status ReservationStatus.confirmed price fault order_id body r db = (already_confirmed, db)
by_status ReservationStatus.pending price fault order_id body r db =
    create_and_confirm price fault order_id body r db
by_status _ price fault order_id body r db = (not_pending, db)

fetched : Option Reservation → (ℕ → ℕ → ℕ) → Fault → ℕ → Payload → Database → Verdict × Database
unfolding by_status
fetched none price fault order_id body db = (not_found, db)
fetched (some r) price fault order_id body db = by_status r.status price fault order_id body r db

-- `none` is a body that is no JSON of the expected form.
unfoldable pub process_order_message :
    (ℕ → ℕ → ℕ) → Fault → ℕ → Option Payload → Database → Verdict × Database
unfolding fetched
process_order_message price fault order_id none db = (dead_lettered, db)
process_order_message price at_fetch order_id (some body) db = (dead_lettered, db)
process_order_message price fault order_id (some body) db =
    fetched (get_reservation_by_id body.reservation_id db) price fault order_id body db

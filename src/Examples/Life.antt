-- ===== src/Examples/Life.antt =====
-- A sale from empty tables to a paid order, and the deletion of its buyer.
use flux_kart.Prelude.{ℕ, ◌+◌, ◌*◌, ◌≤◌, ◌≡◌, refl, true, false, some, [], ◌∷◌, count_where}
use flux_kart.Inventory.{try_reserve_inventory}
use mathlib.Core.Path.{subst}
use flux_kart.Db.{
  SaleStatus, ReservationStatus, OrderStatus, InventoryRow, Reservation, Order, Payload, Database,
}
use flux_kart.Db.Inventory.{get_inventory, update_inventory}
use flux_kart.Db.Sales.{SaleData, get_sale_by_id, create_sale, update_sale_status}
use flux_kart.Db.Orders.{get_paid_order, get_order, create_order, set_order_status}
use flux_kart.Db.Outbox.{create_outbox_event}
use flux_kart.Db.Reservations.{
  get_reservation_by_idempotency_key, get_active_reservation, get_reservation_by_id,
  insert_reservation, confirm_reservation, update_reservation_status,
}
use flux_kart.Degradation.{try_reserve_with_fallback}
use flux_kart.QueueService.{is_queue_active, get_queue_depth}
use flux_kart.UserScore.{calculate_user_score, get_ttl_for_score, get_recovery_window_for_score}
use flux_kart.Db.Users.{User, admin_delete_user}
use flux_kart.OrderConsumer.{healthy, process_order_message}
use flux_kart.Payments.{pay_order, fetch_order, payment_error, pay_transaction}
use flux_kart.Payments.Card.{card_error}
use flux_kart.ReservationService.{
  Request, check_user, check_sale, get_sale_cached, pass_queue, get_user_score_cached,
  computed_score,
}
use flux_kart.ReservationService.Create.{create_reservation, persist, reserve_and_persist, finish}
use flux_kart.SaleAdmin.{Shop, admin_create_sale}
use flux_kart.SaleAdmin.Lifecycle.Calls.{create_call, handle}
use flux_kart.System.{IsValid, units_paid}
use flux_kart.System.Steps.{
  Step, Reach, here, next, administer, reserve, deliver, pay, reachable-IsSound,
}
use flux_kart.System.Sold.{empty, empty-IsSound, sold_is_paid, reachable-IsValid}
use flux_kart.System.Deletion.{made_by, units_bought, deleted_units_stay}
use flux_kart.Examples.Reservations.{services, world, fine}
use flux_kart.Examples.Trade.{python, receipts, no_receipts, card, key}

abbrev pub eight : SaleData
eight = record {
  sale_price = 500;
  original_price = 900;
  total_quantity = 8;
  starts_at = 0;
  ends_at = 9000;
}

abbrev row : ℕ → ℕ → InventoryRow
row reserved sold = record {
  sale_id = 1;
  total_quantity = 8;
  reserved_quantity = reserved;
  sold_quantity = sold;
}

abbrev pub shop : Shop services.counters services.holds services.waiting
shop = record {
  db = empty;
  preregistrations = [];
  stock = world.stock;
  waiting = world.waiting;
  workers = [];
}

abbrev offered : Database
offered = record {
  sales =
      record {
        id = 1;
        sale_price = 500;
        original_price = 900;
        total_quantity = 8;
        starts_at = 0;
        ends_at = 9000;
        status = SaleStatus.active;
      }
      ∷ [];
  inventory = row 0 0 ∷ [];
  reservations = [];
  orders = [];
  outbox_events = [];
}

abbrev request : Request
request = record { user_id = 4; sale_id = 1; quantity = 2; idempotency_key = 6 }

abbrev reservation : ReservationStatus → Reservation
reservation status = record {
  id = 3;
  user_id = 4;
  sale_id = 1;
  quantity = 2;
  status = status;
  idempotency_key = 6;
  expires_at = 600100;
}

abbrev message : Payload
message = record { reservation_id = 3; user_id = 4; sale_id = 1; quantity = 2; unit_price = 500 }

abbrev taken : Database
taken = record offered {
  reservations = reservation ReservationStatus.pending ∷ [];
  outbox_events =
      record { id = 10; aggregate_id = 3; payload = message; published = false; retry_count = 0 }
      ∷ [];
}

abbrev order : OrderStatus → Order
order status = record {
  id = 7;
  user_id = 4;
  sale_id = 1;
  reservation_id = 3;
  quantity = 2;
  unit_price = 500;
  total_price = 1000;
  status = status;
}

abbrev ordered : Database
ordered = record taken {
  reservations = reservation ReservationStatus.confirmed ∷ [];
  orders = order OrderStatus.pending ∷ [];
  inventory = row 2 0 ∷ [];
}

abbrev paid : Database
paid = record ordered { orders = order OrderStatus.paid ∷ []; inventory = row 0 2 ∷ [] }

create_eq :
    (handle services.counters services.holds services.waiting true
      (create_call 50 1 eight)
      shop).1.db
    ≡ offered
unfolding handle admin_create_sale create_sale update_sale_status
create_eq = refl

reserve_eq : (create_reservation services fine request (record world { db = offered })).1.db ≡ taken
unfolding create_reservation check_user get_reservation_by_idempotency_key get_paid_order
    get_active_reservation check_sale get_sale_cached get_sale_by_id pass_queue is_queue_active
    get_queue_depth try_reserve_with_fallback try_reserve_inventory persist insert_reservation
    create_outbox_event get_user_score_cached computed_score calculate_user_score get_ttl_for_score
    get_recovery_window_for_score reserve_and_persist finish
reserve_eq = refl

deliver_eq : (process_order_message ◌*◌ healthy 7 (some message) taken).1 ≡ ordered
unfolding process_order_message get_reservation_by_id create_order update_inventory
    confirm_reservation
deliver_eq = refl

pay_eq : (pay_order python receipts key true 200 4 7 card ordered no_receipts).1 ≡ paid
unfolding pay_order fetch_order get_order get_reservation_by_id payment_error card_error
    pay_transaction update_reservation_status set_order_status update_inventory
pay_eq = refl

abbrev Called : Database → Database → Type 0
Called = Step services python receipts key ◌*◌

to_paid : Reach services python receipts key ◌*◌ empty paid
to_paid =
    let created =
      subst (Called empty) create_eq (administer true (create_call 50 1 eight) shop refl) in
    let reserved =
      subst (Called offered) reserve_eq (reserve fine request (record world { db = offered })) in
    let delivered = subst (Called taken) deliver_eq (deliver healthy 7 (some message) taken refl) in
    let bought = subst (Called ordered) pay_eq (pay true 200 4 7 card ordered no_receipts) in
    next (next (next (next here created) reserved) delivered) bought

sold_is_paid_example : (2 ≡ units_paid 1 paid.orders) × (units_paid 1 paid.orders + 0 ≤ 8)
sold_is_paid_example = sold_is_paid services python receipts key ◌*◌ paid 1 (row 0 2) to_paid refl

reachable-IsValid_example : IsValid paid
reachable-IsValid_example = reachable-IsValid services python receipts key ◌*◌ paid to_paid

abbrev buyer : User
buyer = record { id = 4; email = 8; hashed_password = 9; is_active = true; is_admin = false }

deleted_units_stay_example :
    let db' = (admin_delete_user 4 (buyer ∷ []) [] paid).3 in
    IsValid db'
    × (count_where (made_by 4) db'.reservations ≡ 0)
    × (get_inventory 1 db' ≡ some (row 0 2))
    × (2 ≡ units_paid 1 db'.orders + units_bought 4 1 paid.orders)
unfolding admin_delete_user
deleted_units_stay_example =
    deleted_units_stay 4 1 (buyer ∷ []) [] (row 0 2) paid
      (reachable-IsSound services python receipts key ◌*◌ empty-IsSound to_paid) refl refl

-- ===== src/Examples/Admin.antt =====
-- Requests on a reservation, and calls of the administrator.
use flux_kart.Prelude.{ℕ, ◌+◌, ◌≡◌, refl, true, none, some, [], ◌∷◌, arith}
use flux_kart.Prelude.Int.{ℤ, pos, negsuc}
use flux_kart.Inventory.{Hold, try_reserve_inventory}
use flux_kart.Db.{ReservationStatus, Reservation}
use flux_kart.Db.Reservations.{
  insert_reservation, get_reservation_by_idempotency_key, get_active_reservation,
  get_pending_reservation_by_id_and_user,
}
use flux_kart.Db.Sales.{SaleData, get_sale_by_id}
use flux_kart.Db.Orders.{get_paid_order}
use flux_kart.Degradation.{try_reserve_with_fallback}
use flux_kart.QueueService.{is_queue_active, get_queue_depth, is_admitted}
use flux_kart.UserScore.{calculate_user_score, get_ttl_for_score, get_recovery_window_for_score}
use flux_kart.ReservationService.Create.{create_reservation, reserve_and_persist, persist}
use flux_kart.ReservationService.{
  World, check_user, get_sale_cached, check_sale, pass_queue, get_user_score_cached, computed_score,
}
use flux_kart.ReservationRouter.{not_found_404, recover_reservation, modify_reservation_quantity}
use flux_kart.ReservationRouter.Quantity.{Modified, modify_reservation_quantity-Modified}
use flux_kart.ReservationRouter.Recover.{recover_once}
use flux_kart.SaleAdmin.{Shop, edit_sale, adjust_inventory}
use flux_kart.SaleAdmin.Lifecycle.{status_of, Moves}
use flux_kart.SaleAdmin.Lifecycle.Calls.{pause_call, handle, handle-Moves}
use flux_kart.SaleAdmin.Resize.{Balanced, resize-Balanced}
use flux_kart.Examples.Stores.{write, write_pair, key_store, expiring_store}
use flux_kart.Examples.Queues.{sorted_sets}
use flux_kart.Examples.Reservations.{services, tables, world, fine, failing}

abbrev held : Reservation
held = record {
  id = 3;
  user_id = 4;
  sale_id = 1;
  quantity = 2;
  status = ReservationStatus.pending;
  idempotency_key = 6;
  expires_at = 700;
}

abbrev holding : World services
holding = record world { db = record tables { reservations = held ∷ [] } }

modify_reservation_quantity-Modified_example :
    Modified services held 5 holding
      (modify_reservation_quantity services (λ db. db) true 100 4 3 5 holding)
unfolding get_pending_reservation_by_id_and_user
modify_reservation_quantity-Modified_example =
    modify_reservation_quantity-Modified services true 100 4 3 5 held holding refl

-- The order consumer confirms the reservation while its quantity is raised by 3.

abbrev shop : Shop (key_store ℤ) (expiring_store Hold) sorted_sets
shop = record {
  db = tables;
  preregistrations = [];
  stock = (write (λ _. none) 1 (some (pos 5)), λ _. none);
  waiting = ([], λ _. []);
  workers = 1 ∷ [];
}

handle-Moves_example : Moves (status_of 1 tables.sales) (
    status_of 1
      (handle (key_store ℤ) (expiring_store Hold) sorted_sets true (pause_call 1) shop).1.db.sales)
handle-Moves_example =
    handle-Moves (key_store ℤ) (expiring_store Hold) sorted_sets true (pause_call 1) 1 shop

abbrev larger : SaleData
larger = record {
  sale_price = 500;
  original_price = 900;
  total_quantity = 12;
  starts_at = 0;
  ends_at = 9000;
}

resize-Balanced_example :
    Balanced
      (key_store ℤ)
      (expiring_store Hold)
      sorted_sets
      1
      shop
      (edit_sale (key_store ℤ) (expiring_store Hold) sorted_sets true 1 larger shop).1
    × Balanced
        (key_store ℤ)
        (expiring_store Hold)
        sorted_sets
        1
        shop
        (adjust_inventory (key_store ℤ) (expiring_store Hold) sorted_sets true 1 (negsuc 3) shop).1
resize-Balanced_example =
    resize-Balanced (key_store ℤ) (expiring_store Hold) sorted_sets 1 larger (negsuc 3) shop
      (omega arith, tt)

-- User 4 let reservation 2 of two units expire.
abbrev expired : World services
expired = record world {
  recovery =
      write_pair (λ _. none) (4, 1)
        (some (
          record { reservation_id = 2; user_id = 4; sale_id = 1; quantity = 2; unit_price = 500 },
          5000,
        ));
}

abbrev recovered_row : Reservation
recovered_row = record {
  id = 3;
  user_id = 4;
  sale_id = 1;
  quantity = 2;
  status = ReservationStatus.pending;
  idempotency_key = 1002;
  expires_at = 600100;
}

abbrev recovery_key : ℕ → ℕ
recovery_key reservation_id = 1000 + reservation_id

recover_once_example :
    let w = (recover_reservation services recovery_key fine 4 1 expired).1 in
    recover_reservation services recovery_key failing 4 1 w ≡ (not_found_404, w)
unfolding recover_reservation create_reservation check_user get_reservation_by_idempotency_key
    get_paid_order get_active_reservation get_sale_cached get_sale_by_id check_sale pass_queue
    is_queue_active get_queue_depth is_admitted get_user_score_cached computed_score
    calculate_user_score get_ttl_for_score get_recovery_window_for_score reserve_and_persist
    try_reserve_with_fallback try_reserve_inventory persist insert_reservation
recover_once_example =
    recover_once services recovery_key fine failing 4 1 expired
      (recover_reservation services recovery_key fine 4 1 expired).1 recovered_row refl refl

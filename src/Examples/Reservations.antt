-- ===== src/Examples/Reservations.antt =====
-- Requests for a reservation of a sale that is open, with Redis and without.
use flux_kart.Prelude.{ℕ, ◌≡◌, refl, true, false, none, some, [], ◌∷◌, arith}
use flux_kart.Prelude.Int.{ℤ, pos}
use flux_kart.Inventory.{Hold, try_reserve_inventory, release_inventory}
use flux_kart.Db.{SaleStatus, ReservationStatus, Reservation, InventoryRow, Payload, Database}
use flux_kart.Db.Orders.{get_paid_order}
use flux_kart.Db.Sales.{get_sale_by_id}
use flux_kart.QueueService.{is_queue_active, get_queue_depth, is_admitted}
use flux_kart.UserScore.{calculate_user_score, get_ttl_for_score, get_recovery_window_for_score}
use flux_kart.Db.Reservations.{
  get_reservation_by_idempotency_key, get_active_reservation, insert_reservation,
}
use flux_kart.Degradation.{up, try_reserve_with_fallback}
use flux_kart.CircuitBreaker.{CircuitState}
use flux_kart.ReservationService.{
  check_user, check_sale, get_sale_cached, pass_queue, get_user_score_cached, computed_score,
  Services, World, was_duplicate, Request, Run, JoinedSale, Score,
}
use flux_kart.ReservationService.Create.{create_reservation, reserve_and_persist, persist}
use flux_kart.ReservationService.Create.Recorded.{new_rows, new_events}
use flux_kart.ReservationService.Create.Outbox.{price_read, reserved_with_event}
use flux_kart.ReservationService.Create.Holds.{row_release_gives_nothing}
use flux_kart.ReservationService.Create.Replay.{replay_is_duplicate}
use flux_kart.ReservationService.Create.Failures.{failure_restores_counter}
use flux_kart.Examples.Stores.{write, key_store, expiring_store, pair_store}
use flux_kart.Examples.Queues.{sorted_sets}
use flux_kart.Examples.Score.{decimals}

abbrev pub services : Services
services = record {
  counters = key_store ℤ;
  holds = expiring_store Hold;
  waiting = sorted_sets;
  admitted = pair_store ℕ;
  admission = pair_store ℕ;
  sale_cache = expiring_store JoinedSale;
  float = decimals;
  score_cache = expiring_store (ℤ × ℕ × ℕ);
  recovery = pair_store Payload;
  breaker = record {
    states = key_store CircuitState;
    opened_at = key_store ℕ;
    failures = expiring_store ℕ;
    successes = expiring_store ℕ;
  };
  score_row = λ db now user_id. none;
}

abbrev pub row : InventoryRow
row = record { sale_id = 1; total_quantity = 8; reserved_quantity = 2; sold_quantity = 1 }

abbrev pub tables : Database
tables = record {
  sales =
      record {
        id = 1;
        sale_price = 500;
        original_price = 900;
        total_quantity = 8;
        starts_at = 0;
        ends_at = 9000;
        status = SaleStatus.active;
      }
      ∷ [];
  inventory = row ∷ [];
  reservations = [];
  orders = [];
  outbox_events = [];
}

abbrev pub world : World services
world = record {
  db = tables;
  stock = (write (λ _. none) 1 (some (pos 5)), λ _. none);
  waiting = ([], λ _. []);
  admitted = λ _. none;
  admission = λ _. none;
  sale_cache = λ _. none;
  score_cache = λ _. none;
  recovery = λ _. none;
  breaker = record {
    state = λ _. none;
    opened_at = λ _. none;
    failures = λ _. none;
    successes = λ _. none;
  };
  sent = [];
}

abbrev request : Request
request = record { user_id = 4; sale_id = 1; quantity = 2; idempotency_key = 6 }

abbrev pub fine : Run
fine = record {
  now = 100;
  hold_id = 50;
  row_id = 3;
  event_id = 10;
  redis = up;
  persist_fails = false;
  publishes = true;
}

abbrev pub failing : Run
failing = record fine { persist_fails = true }

reserved_with_event_example :
    let (answer, world') = create_reservation services fine request world in
    (world'.db.reservations ≡ new_rows answer)
    × (world'.db.outbox_events ≡ new_events 10 (price_read services fine request world) answer)
reserved_with_event_example = reserved_with_event services fine request world

abbrev score : Score services
score = (pos 50, 600, 120)

failure_restores_counter_example :
    let (answer, world') = reserve_and_persist services failing request score 500 world in
    (services.counters.get world'.stock.0 1 ≡ some (pos 5)) × (world'.db ≡ tables)
unfolding reserve_and_persist try_reserve_with_fallback try_reserve_inventory persist
    insert_reservation
failure_restores_counter_example =
    failure_restores_counter services failing request score 500 (pos 5) world refl (omega arith)
      refl refl

abbrev first_row : Reservation
first_row = record {
  id = 3;
  user_id = 4;
  sale_id = 1;
  quantity = 2;
  status = ReservationStatus.pending;
  idempotency_key = 6;
  expires_at = 600100;
}

replay_is_duplicate_example :
    let world' = (create_reservation services fine request world).1 in
    create_reservation services failing request world' ≡ (was_duplicate first_row, world')
unfolding create_reservation check_user get_reservation_by_idempotency_key get_paid_order
    get_active_reservation get_sale_cached get_sale_by_id check_sale pass_queue is_queue_active
    get_queue_depth is_admitted get_user_score_cached computed_score calculate_user_score
    get_ttl_for_score get_recovery_window_for_score reserve_and_persist try_reserve_with_fallback
    try_reserve_inventory persist insert_reservation
replay_is_duplicate_example =
    replay_is_duplicate services fine failing request request world
      (create_reservation services fine request world).1 first_row refl refl refl

row_release_gives_nothing_example :
    let st = (create_reservation services fine request world).1.stock in
    release_inventory services.counters services.holds 900000 1 3 2 st ≡ st
unfolding create_reservation check_user get_reservation_by_idempotency_key get_paid_order
    get_active_reservation get_sale_cached get_sale_by_id check_sale pass_queue is_queue_active
    get_queue_depth is_admitted get_user_score_cached computed_score calculate_user_score
    get_ttl_for_score get_recovery_window_for_score reserve_and_persist try_reserve_with_fallback
    try_reserve_inventory persist insert_reservation
row_release_gives_nothing_example =
    row_release_gives_nothing services fine request world first_row 900000 refl
      (λ e. absurd (omega (arith, e))) refl

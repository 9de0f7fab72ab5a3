-- ===== src/Examples/Messages.antt =====
-- The outbox worker and the order consumer on one reservation.
use flux_kart.Prelude.{
  if◌then◌else◌, ℕ, ◌*◌, ◌==◌, ◌≡◌, refl, true, false, inr, some, [], ◌∷◌, ◌++◌, arith, replicate,
  count_where,
}
use flux_kart.Db.{ReservationStatus, Reservation, Payload, OutboxEvent, Database}
use flux_kart.Db.Reservations.{get_reservation_by_id, confirm_reservation}
use flux_kart.Db.Inventory.{update_inventory}
use flux_kart.Db.Outbox.{get_pending_outbox_events}
use flux_kart.Db.Orders.{of_reservation, create_order}
use flux_kart.OrderConsumer.{
  healthy, at_confirm, already_confirmed, dead_lettered, process_order_message,
}
use flux_kart.OrderConsumer.Redelivery.{redelivery_skips, interrupted_order_sticks}
use flux_kart.OutboxWorker.{max_retry_count, polls}
use flux_kart.OutboxWorker.Delivery.{healthy_poll_publishes, outage_loses_event}
use flux_kart.OutboxWorker.Accounted.{IsAccounted, published-IsAccounted}
use flux_kart.OutboxWorker.{Fate, refused, marked, process_outbox_batch}

abbrev body : Payload
body = record { reservation_id = 3; user_id = 4; sale_id = 1; quantity = 2; unit_price = 500 }

abbrev waiting : OutboxEvent
waiting = record { id = 10; aggregate_id = 3; payload = body; published = false; retry_count = 0 }

abbrev spent : OutboxEvent
spent = record { id = 11; aggregate_id = 5; payload = body; published = true; retry_count = 10 }

-- RabbitMQ takes the message of event 10 only.
abbrev choosy : ℕ → Fate
choosy id = if id == 10 then marked else refused

healthy_poll_publishes_example :
    (process_outbox_batch (λ _. marked) (waiting ∷ spent ∷ []) []).sent ≡ body ∷ []
unfolding get_pending_outbox_events
healthy_poll_publishes_example = healthy_poll_publishes (waiting ∷ spent ∷ []) []

outage_loses_event_example :
    (polls (replicate max_retry_count (λ _. refused)) (waiting ∷ []) (body ∷ [])
      ≡ (record waiting { retry_count = max_retry_count } ∷ [], body ∷ []))
    × (polls (replicate max_retry_count (λ _. refused) ++ choosy ∷ []) (waiting ∷ []) (body ∷ [])
        ≡ (record waiting { published = true; retry_count = max_retry_count } ∷ [], body ∷ []))
outage_loses_event_example = outage_loses_event waiting (body ∷ []) choosy refl refl

published-IsAccounted_example :
    let (events, sent) = polls (choosy ∷ (λ _. refused) ∷ []) (waiting ∷ spent ∷ []) [] in
    IsAccounted sent events
published-IsAccounted_example =
    published-IsAccounted (choosy ∷ (λ _. refused) ∷ []) (waiting ∷ spent ∷ []) []
      (refl, (refl, tt)) ((λ unpublished. absurd (ground arith)), ((λ _. inr (omega arith)), tt))

abbrev pending_row : Reservation
pending_row = record {
  id = 3;
  user_id = 4;
  sale_id = 1;
  quantity = 2;
  status = ReservationStatus.pending;
  idempotency_key = 6;
  expires_at = 900;
}

abbrev tables : Database
tables = record {
  sales = [];
  inventory =
      record { sale_id = 1; total_quantity = 8; reserved_quantity = 0; sold_quantity = 0 } ∷ [];
  reservations = pending_row ∷ [];
  orders = [];
  outbox_events = [];
}

abbrev price : ℕ → ℕ → ℕ
price unit quantity = unit * quantity

redelivery_skips_example :
    let db' = (process_order_message price healthy 20 (some body) tables).1 in
    process_order_message price at_confirm 21 (some body) db' ≡ (already_confirmed, db')
unfolding process_order_message get_reservation_by_id create_order update_inventory
    confirm_reservation
redelivery_skips_example =
    redelivery_skips price healthy at_confirm 20 21 body body tables
      (process_order_message price healthy 20 (some body) tables).1 refl refl refl

interrupted_order_sticks_example :
    let db' = (process_order_message price at_confirm 20 (some body) tables).1 in
    (count_where (of_reservation 3) db'.orders ≡ 1)
    × (get_reservation_by_id 3 db' ≡ some pending_row)
    × (process_order_message price healthy 21 (some body) db' ≡ (dead_lettered, db'))
unfolding get_reservation_by_id
interrupted_order_sticks_example =
    interrupted_order_sticks price healthy 20 21 body pending_row tables
      (process_order_message price at_confirm 20 (some body) tables).1 refl refl refl refl refl

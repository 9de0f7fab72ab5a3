-- ===== src/ReservationService/Create/Outbox.antt =====
-- The outbox pattern: what a request adds to the reservations and to the outbox.
use flux_kart.Prelude.{
  ℕ, ◌≡◌, sym, ap, refl, Bool, true, false, Option, none, some, [], ◌++◌, arith,
}
use flux_kart.Db.{Database}
use flux_kart.Db.Reservations.{IsUnique}
use flux_kart.ReservationService.{
  Services, World, Request, Run, Created, value_error, reaches, invalid_sale, check_user,
  check_sale, get_sale_cached, get_user_score_cached, pass_queue,
}
use flux_kart.ReservationService.Create.{
  price_of, scored, queued, sale_checked, user_checked, create_reservation,
}
use flux_kart.ReservationService.Create.Recorded.{
  new_rows, new_events, Recorded, nothing_new, pass_queue-db, reserve_and_persist-Recorded,
}

module _ (S : Services) where
  -- The answers of the checks before the reservation add nothing.
  pub check_user-idle :
      (q : Request) (db : Database) (a : Created) (e p : ℕ)
      → check_user q db ≡ some a
      → (new_rows a ≡ []) × (new_events e p a ≡ [])
  unfolding check_user
  check_user-idle q db a e p h = ground arith

  pass_queue-idle :
      (redis_up : Bool) (now : ℕ) (q : Request) (w : World S) (a : Created) (e p : ℕ)
      → (pass_queue S redis_up now q w).0 ≡ some a
      → (new_rows a ≡ []) × (new_events e p a ≡ [])
  unfolding pass_queue
  pass_queue-idle redis_up now q w a e p h = ground arith

  scored-Recorded :
      (run : Run) (q : Request) (p : ℕ) (w : World S)
      → let out = scored S run q p w in
        Recorded q.idempotency_key run.event_id p out.0 w.db out.1.db
  unfolding scored
  scored-Recorded run q p w =
      let found = get_user_score_cached S (reaches run.redis) run.now q.user_id w in
      reserve_and_persist-Recorded S run q found.0 p (record w { score_cache = found.1 })

  queued-Recorded :
      (passed : Option Created × World S) (run : Run) (q : Request) (p : ℕ) (w : World S)
      → passed.1.db ≡ w.db
      → ((a : Created) → passed.0 ≡ some a → (new_rows a ≡ []) × (new_events run.event_id p a ≡ []))
      → let out = queued S passed run q p in
        Recorded q.idempotency_key run.event_id p out.0 w.db out.1.db
  unfolding queued
  queued-Recorded (some answer, w') run q p w same idle =
      let (rows, events) = idle answer refl in
      nothing_new q.idempotency_key run.event_id p answer w.db w'.db rows events (record {
        reservations = ap (λ db. db.reservations) same;
        events = ap (λ db. db.outbox_events) same;
      })
  queued-Recorded (none, w') run q p w same idle = rw (sym same) (scored-Recorded run q p w')

  sale_checked-Recorded :
      (open_sale : Bool) (run : Run) (q : Request) (p : ℕ) (w : World S)
      → let out = sale_checked S open_sale run q p w in
        Recorded q.idempotency_key run.event_id p out.0 w.db out.1.db
  unfolding sale_checked
  sale_checked-Recorded false run q p w =
      nothing_new q.idempotency_key run.event_id p (value_error invalid_sale) w.db w.db refl refl
        (record { reservations = refl; events = refl })
  sale_checked-Recorded true run q p w =
      queued-Recorded (pass_queue S (reaches run.redis) run.now q w) run q p w
        (pass_queue-db S (reaches run.redis) run.now q w)
        (λ a e. pass_queue-idle (reaches run.redis) run.now q w a run.event_id p e)

  abbrev pub price_read : Run → Request → World S → ℕ
  price_read run q w = price_of S (get_sale_cached S (reaches run.redis) run.now q.sale_id w).0

  user_checked-Recorded :
      (checked : Option Created) (run : Run) (q : Request) (w : World S)
      → ((a : Created)
          → checked ≡ some a
          → (new_rows a ≡ []) × (new_events run.event_id (price_read run q w) a ≡ []))
      → let out = user_checked S checked run q w in
        Recorded q.idempotency_key run.event_id (price_read run q w) out.0 w.db out.1.db
  unfolding user_checked
  user_checked-Recorded (some answer) run q w idle =
      let (rows, events) = idle answer refl in
      nothing_new q.idempotency_key run.event_id (price_read run q w) answer w.db w.db rows events
        (record { reservations = refl; events = refl })
  user_checked-Recorded none run q w idle =
      let found = get_sale_cached S (reaches run.redis) run.now q.sale_id w in
      sale_checked-Recorded (check_sale run.now found.0) run q (price_of S found.0)
        (record w { sale_cache = found.1 })

  pub create_reservation-Recorded :
      (run : Run) (q : Request) (w : World S)
      → let out = create_reservation S run q w in
        Recorded q.idempotency_key run.event_id (price_read run q w) out.0 w.db out.1.db
  unfolding create_reservation
  create_reservation-Recorded run q w =
      user_checked-Recorded (check_user q w.db) run q w
        (λ a e. check_user-idle q w.db a run.event_id (price_read run q w) e)

  -- Whatever fails and however the request is answered, the reservations table gains exactly the
  -- reservation of the answer, and the outbox exactly one unpublished event for it, with its id,
  -- owner, sale and quantity and the price read; on any other answer neither gains anything.
  pub reserved_with_event :
      (run : Run) (q : Request) (w : World S)
      → let (answer, w') = create_reservation S run q w in
        (w'.db.reservations ≡ w.db.reservations ++ new_rows answer)
        × (w'.db.outbox_events
            ≡ w.db.outbox_events ++ new_events run.event_id (price_read run q w) answer)
  reserved_with_event run q w =
      let recorded = create_reservation-Recorded run q w in (recorded.rows, recorded.events)

  -- No request, however it is answered, gives a user a second active reservation for a sale, or a
  -- key a second reservation.
  pub create_reservation-IsUnique :
      (run : Run) (q : Request) (w : World S)
      → IsUnique w.db.reservations
      → IsUnique (create_reservation S run q w).1.db.reservations
  create_reservation-IsUnique run q w h = (create_reservation-Recorded run q w).unique h

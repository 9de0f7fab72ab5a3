-- ===== src/ReservationRouter.antt =====
-- backend/app/routers/reservations.py: the endpoints on a reservation. A request runs at one time and
-- finds Redis reachable for all its calls or for none. The texts of the answers are left out.
pub mod Quantity
pub mod Stream
pub mod Recover
pub mod Interrupted
pub mod Kept
use flux_kart.Prelude.{
  ℕ, ◌+◌, ◌-◌, ◌*◌, Bool, true, false, Option, none, some, first, ◌==◌, ltb, if◌then◌else◌,
}
use flux_kart.Redis.{ScoredSets}
use flux_kart.Inventory.{
  Stock, Reply, answer, script_error, try_increase_reservation, release_partial_inventory,
}
use flux_kart.Db.{Reservation, Database, Outcome, done, raised}
use flux_kart.Db.Reservations.{
  get_pending_reservation_by_id_and_user, get_reservation_by_id_and_user, pending_with,
  update_reservation_quantity,
}
use flux_kart.RateLimiter.{check_reservation_rate_limit}
use flux_kart.UserScore.{calculate_user_score, get_ttl_for_score}
use flux_kart.ReservationService.{
  Services, World, Request, Run, Created, reserved, was_duplicate, value_error, queue_position,
  runtime_error, Refusal, reaches,
}
use flux_kart.ReservationService.Create.{create_reservation}

-- The answers by their status; 500 is also what any exception gives that no handler catches.
pub data Response : Type 0 where
  ok_200 created_201 : Reservation → Response
  queued_202 : ℕ → ℕ → Response
  bad_request_400 not_found_404 conflict_409 too_many_429 server_error_500 : Response

-- The handlers of `create_reservation` around the call of the service.
abbrev pub answer_of : Created → Response
answer_of (reserved r) = created_201 r
answer_of (was_duplicate r) = created_201 r
answer_of (queue_position position depth) = queued_202 position depth
answer_of (value_error _) = conflict_409
answer_of runtime_error = server_error_500

module _ (Z : ScoredSets ℕ ℕ) (S : Services) where
  -- The limit counts the request by its user; `request_id` tells the entries of the window apart.
  limited : Option ℕ × Z.Db → Run → Request → World S → Response × World S × Z.Db
  limited (some status, z) run q w = (too_many_429, w, z)
  limited (none, z) run q w =
      let (created, w') = create_reservation S run q w in (answer_of created, w', z)

  unfoldable pub post_reservation : ℕ → Run → Request → World S → Z.Db → Response × World S × Z.Db
  unfolding limited
  post_reservation request_id run q w z =
      limited (check_reservation_rate_limit Z (reaches run.redis) q.user_id run.now request_id z)
        run q w

unfoldable pub get_reservation : ℕ → ℕ → Database → Response
get_reservation reservation_id user_id db =
    elim (get_reservation_by_id_and_user reservation_id user_id db) [
      | none ↦ not_found_404
      | some r ↦ ok_200 r
    ]

module _ (S : Services) where
  -- The first half of a modification, on the row that was read: Redis is moved by the difference.
  -- `none` goes on.
  unfoldable pub move_units :
      Bool
      → ℕ
      → ℕ
      → Reservation
      → Stock S.counters S.holds
      → Option Response × Stock S.counters S.holds
  move_units false now new_quantity r st = (some server_error_500, st)
  move_units true now new_quantity r st =
      let increased =
        try_increase_reservation S.counters S.holds now r.sale_id r.id (new_quantity - r.quantity)
          st in
      let decreased =
        release_partial_inventory S.counters S.holds now r.sale_id r.id (r.quantity - new_quantity)
          st in
      if ltb r.quantity new_quantity
      then elim increased.0 [
        | answer true ↦ (none, increased.1)
        | answer false ↦ (some conflict_409, increased.1)
        | script_error ↦ (some server_error_500, increased.1)
      ]
      else elim decreased.0 [
        | answer _ ↦ (none, decreased.1)
        | script_error ↦ (some server_error_500, decreased.1)
      ]

  -- The second half, on the tables as they are by then: the row gets its quantity and a new time. A
  -- row that is no longer pending raises.
  unfoldable pub rewrite_row : ℕ → ℕ → ℕ → ℕ → Database → Response × Database
  rewrite_row now user_id reservation_id new_quantity db =
      let score = calculate_user_score S.float (S.score_row db now user_id) in
      let new_expires_at = now + get_ttl_for_score S.float score * 1000 in
      elim (update_reservation_quantity reservation_id new_quantity new_expires_at db) [
        | raised ↦ (server_error_500, db)
        | done db' ↦ elim (first (pending_with reservation_id) db'.reservations) [
          | none ↦ (server_error_500, db')
          | some r ↦ (ok_200 r, db')
        ]
      ]

  -- Both halves; `meanwhile` is what other requests make of the tables between them.
  unfoldable pub modify_row :
      Option Response × Stock S.counters S.holds
      → (Database → Database)
      → ℕ
      → ℕ
      → ℕ
      → ℕ
      → World S
      → Response × World S
  modify_row (some refused, st) meanwhile now user_id reservation_id new_quantity w =
      (refused, record w { stock = st })
  modify_row (none, st) meanwhile now user_id reservation_id new_quantity w =
      let (response, db) = rewrite_row now user_id reservation_id new_quantity (meanwhile w.db) in
      (response, record w { stock = st; db = db })

  unfoldable pub modify_reservation_quantity :
      (Database → Database) → Bool → ℕ → ℕ → ℕ → ℕ → World S → Response × World S
  modify_reservation_quantity meanwhile redis_up now user_id reservation_id new_quantity w =
      elim (get_pending_reservation_by_id_and_user reservation_id user_id w.db) [
        | none ↦ (not_found_404, w)
        | some r ↦
            if new_quantity == r.quantity
            then (bad_request_400, w)
            else modify_row (move_units redis_up now new_quantity r w.stock) meanwhile now user_id
                reservation_id new_quantity w
      ]

-- `recovery_idempotency_key` gives the text f"recovery-{reservation_id}" as a key.
module _ (S : Services) (recovery_idempotency_key : ℕ → ℕ) where
  -- Both branches of a call that gave a reservation delete the key; RuntimeError is not caught, and
  -- answers 500 as it does elsewhere.
  recovered : ℕ → ℕ → Created × World S → Response × World S
  recovered user_id sale_id (reserved r, w) =
      (created_201 r, record w { recovery = S.recovery.del w.recovery (user_id, sale_id) })
  recovered user_id sale_id (was_duplicate r, w) =
      (created_201 r, record w { recovery = S.recovery.del w.recovery (user_id, sale_id) })
  recovered user_id sale_id (queue_position position depth, w) = (queued_202 position depth, w)
  recovered user_id sale_id (value_error _, w) = (conflict_409, w)
  recovered user_id sale_id (runtime_error, w) = (server_error_500, w)

  unfoldable pub recover_reservation : Run → ℕ → ℕ → World S → Response × World S
  unfolding recovered
  recover_reservation run user_id sale_id w =
      if reaches run.redis
      then elim (S.recovery.get w.recovery run.now (user_id, sale_id)) [
        | none ↦ (not_found_404, w)
        | some kept ↦ recovered user_id sale_id (
            create_reservation S run
              (record {
                user_id = user_id;
                sale_id = sale_id;
                quantity = kept.quantity;
                idempotency_key = recovery_idempotency_key kept.reservation_id;
              })
              w)
      ]
      else (server_error_500, w)

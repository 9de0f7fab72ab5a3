-- ===== src/ReservationService.antt =====
-- backend/app/services/reservation_service.py: `create_reservation` and its caches. A request runs
-- at one time `now`, and finds Redis reachable for all its calls or for none; only the script that
-- reserves may also lose its answer. Metrics and logging are left out.
pub mod Create
use flux_kart.Prelude.{
  ℕ, ◌+◌, ◌*◌, Bool, true, false, Option, none, some, List, [], ◌∷◌, ◌++◌, ltb, if◌then◌else◌, ◌&&◌,
}
use flux_kart.Prelude.Int.{ℤ}
use flux_kart.Redis.{KeyStore, ExpiringStore, SortedSets}
use flux_kart.Inventory.{Hold, Stock}
use flux_kart.Db.{Sale, InventoryRow, Reservation, Payload, Database, is_active_sale}
use flux_kart.Db.Reservations.{get_reservation_by_idempotency_key, get_active_reservation}
use flux_kart.Db.Orders.{get_paid_order}
use flux_kart.Db.Sales.{get_sale_by_id}
use flux_kart.Degradation.{Link, up, unreachable, reply_lost}
use flux_kart.CircuitBreaker.{
  rabbitmq_publish, Stores, Cells, Config, Decision, proceed, circuit_open_error, before_call,
  on_success, on_failure,
}
use flux_kart.QueueService.{
  present, is_queue_active, enqueue, get_queue_depth, is_admitted, consume_admission,
}
use flux_kart.UserScore.{
  Float, Stats, calculate_user_score, get_ttl_for_score, get_recovery_window_for_score,
}

-- A row of the joined sale, and what is cached of a user's score.
abbrev pub JoinedSale : Type 0
JoinedSale = Sale × InventoryRow

-- The stores behind the key prefixes, and floats; `score_row` is the row that the SELECT of
-- `calculate_user_score` gives for a user.
pub record Services : Type 1 where
  pub counters : KeyStore ℕ ℤ
  pub holds : ExpiringStore ℕ Hold
  pub waiting : SortedSets ℕ ℕ
  pub admitted : ExpiringStore (ℕ × ℕ) ℕ
  pub admission : ExpiringStore (ℕ × ℕ) ℕ
  pub sale_cache : ExpiringStore ℕ JoinedSale
  pub float : Float
  pub score_cache : ExpiringStore ℕ (float.F × ℕ × ℕ)
  pub recovery : ExpiringStore (ℕ × ℕ) Payload
  pub breaker : Stores
  pub score_row : Database → ℕ → ℕ → Option (Stats × float.F)

pub record World (S : Services) : Type 0 where
  pub db : Database
  pub stock : Stock S.counters S.holds
  pub waiting : S.waiting.Db
  pub admitted : S.admitted.Db
  pub admission : S.admission.Db
  pub sale_cache : S.sale_cache.Db
  pub score_cache : S.score_cache.Db
  pub recovery : S.recovery.Db
  pub breaker : Cells S.breaker
  -- the messages that RabbitMQ has taken from the direct publications
  pub sent : List Payload

pub record Request : Type 0 where
  pub user_id : ℕ
  pub sale_id : ℕ
  pub quantity : ℕ
  pub idempotency_key : ℕ

-- What a run of the handler draws and meets: the time, uuid4() for the hold, the ids that
-- PostgreSQL draws for the two rows, and what fails.
pub record Run : Type 0 where
  pub now : ℕ
  pub hold_id : ℕ
  pub row_id : ℕ
  pub event_id : ℕ
  pub redis : Link
  pub persist_fails : Bool
  pub publishes : Bool

abbrev pub reaches : Link → Bool
reaches unreachable = false
reaches _ = true

-- How the call ends: a reservation, the one of an earlier call, a ValueError (by the label that
-- RESERVATION_ATTEMPTS counts it under), a QueuePositionError, or any other exception.
pub data Refusal : Type 0 where
  already_purchased failed_duplicate invalid_sale no_inventory : Refusal

pub data Created : Type 0 where
  reserved : Reservation → Created
  was_duplicate : Reservation → Created
  value_error : Refusal → Created
  queue_position : ℕ → ℕ → Created
  runtime_error : Created

-- Steps 1 and 2: `none` goes on.
unfoldable pub check_user : Request → Database → Option Created
check_user q db = elim (get_reservation_by_idempotency_key q.idempotency_key db) [
  | some existing ↦ some (was_duplicate existing)
  | none ↦ elim (get_paid_order q.user_id q.sale_id db) [
    | some _ ↦ some (value_error already_purchased)
    | none ↦ elim (get_active_reservation q.user_id q.sale_id db) [
      | some _ ↦ some (value_error failed_duplicate)
      | none ↦ none
    ]
  ]
]

-- Step 3 from the sale on; `none` is a sale that does not exist.
unfoldable pub check_sale : ℕ → Option JoinedSale → Bool
check_sale now none = false
check_sale now (some (s, i)) =
    if is_active_sale s.status then (if ltb s.ends_at now then false else true) else false

module _ (S : Services) where
  -- `_get_sale_cached`: `json.dumps` raises on the UUID of the row, and the handler drops the
  -- exception, so that a sale that is found is never stored.
  unfoldable pub get_sale_cached : Bool → ℕ → ℕ → World S → Option JoinedSale × S.sale_cache.Db
  get_sale_cached false now sale_id w = (get_sale_by_id sale_id w.db, w.sale_cache)
  get_sale_cached true now sale_id w = elim (S.sale_cache.get w.sale_cache now sale_id) [
    | some sale ↦ (some sale, w.sale_cache)
    | none ↦ (get_sale_by_id sale_id w.db, w.sale_cache)
  ]

  abbrev pub Score : Type 0
  Score = S.float.F × ℕ × ℕ

  unfoldable pub computed_score : ℕ → ℕ → World S → Score
  computed_score now user_id w =
      let score = calculate_user_score S.float (S.score_row w.db now user_id) in
      (score, get_ttl_for_score S.float score, get_recovery_window_for_score S.float score)

  -- `_get_user_score_cached`
  unfoldable pub get_user_score_cached : Bool → ℕ → ℕ → World S → Score × S.score_cache.Db
  unfolding computed_score
  get_user_score_cached false now user_id w = (computed_score now user_id w, w.score_cache)
  get_user_score_cached true now user_id w = elim (S.score_cache.get w.score_cache now user_id) [
    | some cached ↦ (cached, w.score_cache)
    | none ↦
        let found = computed_score now user_id w in
        (found, S.score_cache.set w.score_cache user_id found (now + 300 * 1000))
  ]

  -- Step 4: `none` goes on.
  unfoldable pub pass_queue : Bool → ℕ → Request → World S → Option Created × World S
  pass_queue redis_up now q w =
      let active = is_queue_active S.waiting S.admitted redis_up q.sale_id w.waiting in
      let (position, waiting') = enqueue S.waiting S.admitted now q.sale_id q.user_id w.waiting in
      if redis_up && present (S.admission.get w.admission now (q.sale_id, q.user_id))
      then (none, record w { admission = S.admission.del w.admission (q.sale_id, q.user_id) })
      else if active
      then if is_admitted S.waiting S.admitted redis_up now q.sale_id q.user_id w.admitted
        then (
          none,
          record w {
            admitted = consume_admission S.waiting S.admitted q.sale_id q.user_id w.admitted;
          },
        )
        else (
          some (
              queue_position position
                (get_queue_depth S.waiting S.admitted redis_up q.sale_id waiting')),
          record w { waiting = waiting' },
        )
      else (none, w)

  -- Step 10: `circuit_breaker.call` around the publication. Without Redis the breaker cannot be read
  -- and nothing is sent.
  attempt :
      Decision × Cells S.breaker
      → Bool
      → ℕ
      → Payload
      → List Payload
      → Cells S.breaker × List Payload
  attempt (circuit_open_error, c) publishes now m sent = (c, sent)
  attempt (proceed, c) true now m sent =
      (on_success S.breaker rabbitmq_publish now c, sent ++ m ∷ [])
  attempt (proceed, c) false now m sent = (on_failure S.breaker rabbitmq_publish now c, sent)

  unfoldable pub publish_directly :
      Bool → Bool → ℕ → Payload → World S → Cells S.breaker × List Payload
  unfolding attempt
  publish_directly false publishes now m w = (w.breaker, w.sent)
  publish_directly true publishes now m w =
      attempt (before_call S.breaker rabbitmq_publish now w.breaker) publishes now m w.sent

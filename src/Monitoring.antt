-- ===== src/Monitoring.antt =====
-- What the program reports of itself: backend/app/utils/dlq_monitor.py, backend/app/routers/health.py,
-- `get_status` of backend/app/utils/circuit_breaker.py and `get_queue_status` of
-- backend/app/services/queue_service.py. The texts of the reports are left out.
use flux_kart.Prelude.{
  ℕ, zero, suc, ◌+◌, ◌*◌, ◌<◌, ◌≡◌, Bool, true, false, Option, none, some, List, [], ◌∷◌, replicate,
  arith, ◌==◌, leb, ◌&&◌, if◌then◌else◌,
}
use flux_kart.Redis.{ExpiringStore, SortedSets}
use flux_kart.CircuitBreaker.{CircuitState, Stores, Cells, Config, rabbitmq_publish, get_state}
use flux_kart.QueueService.{get_position, get_queue_depth, is_admitted}

abbrev pub dlq_alert_threshold : ℕ
dlq_alert_threshold = 5

-- What a check of the dead letter queue logs.
pub data Alert : Type 0 where
  quiet warned critical failed : Alert

-- A round of `start_dlq_monitor` and the counter ORDERS_FAILED; `none` is a RabbitMQ that raises.
unfoldable pub check_dlq : Option ℕ → ℕ → Alert × ℕ
check_dlq none orders_failed = (failed, orders_failed)
check_dlq (some depth) orders_failed =
    if depth == 0
    then (quiet, orders_failed)
    else if leb depth dlq_alert_threshold
    then (warned, orders_failed)
    else (critical, orders_failed + depth)

unfoldable pub monitor_dlq : List (Option ℕ) → ℕ → ℕ
monitor_dlq [] orders_failed = orders_failed
monitor_dlq (depth ∷ checks) orders_failed = monitor_dlq checks (check_dlq depth orders_failed).1

-- Messages that stay in the queue, more than five, are counted as failed orders at every check.
pub monitor_dlq-recounts :
    (rounds depth orders_failed : ℕ)
    → dlq_alert_threshold < depth
    → monitor_dlq (replicate rounds (some depth)) orders_failed ≡ orders_failed + rounds * depth
unfolding monitor_dlq check_dlq
monitor_dlq-recounts zero depth orders_failed h = omega arith
monitor_dlq-recounts (suc rounds) depth orders_failed h =
    grind (arith, monitor_dlq-recounts rounds depth (orders_failed + depth) h)

-- `get_status` of the breaker.
pub record BreakerStatus : Type 0 where
  pub state : CircuitState
  pub failure_count : ℕ
  pub threshold : ℕ
  pub cooldown_seconds : ℕ
  pub opened_at : Option ℕ

abbrev or_none : Option ℕ → ℕ
or_none none = 0
or_none (some n) = n

unfoldable pub get_status : (R : Stores) → Config → ℕ → Cells R → BreakerStatus
get_status R cfg now c = record {
  state = get_state R cfg c;
  failure_count = or_none (R.failures.get c.failures now cfg.name);
  threshold = cfg.failure_threshold;
  cooldown_seconds = cfg.cooldown_seconds;
  opened_at = R.opened_at.get c.opened_at cfg.name;
}

-- GET /health: which of PostgreSQL, Redis and RabbitMQ answer.
pub record Health : Type 0 where
  pub postgresql : Bool
  pub redis : Bool
  pub rabbitmq : Bool

-- The status code, with the report of the breaker, which a Redis that does not answer leaves out.
unfoldable pub health_check : (R : Stores) → ℕ → Health → Cells R → ℕ × Option BreakerStatus
unfolding get_status
health_check R now h c = (
  if h.postgresql && h.redis && h.rabbitmq then 200 else 503,
  (if h.redis then some (get_status R rabbitmq_publish now c) else none),
)

-- `in_queue` says whether there is a position.
pub record QueueStatus : Type 0 where
  pub position : Option ℕ
  pub total_in_queue : ℕ
  pub admitted : Bool

-- Without Redis `get_position` raises.
unfoldable pub get_queue_status :
    (Q : SortedSets ℕ ℕ) (A : ExpiringStore (ℕ × ℕ) ℕ)
    → Bool
    → ℕ
    → ℕ
    → ℕ
    → Q.Db
    → A.Db
    → Option QueueStatus
get_queue_status Q A false now sale_id user_id waiting tokens = none
get_queue_status Q A true now sale_id user_id waiting tokens = some (record {
  position = get_position Q A sale_id user_id waiting;
  total_in_queue = get_queue_depth Q A true sale_id waiting;
  admitted = is_admitted Q A true now sale_id user_id tokens;
})

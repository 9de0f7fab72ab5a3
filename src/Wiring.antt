-- ===== src/Wiring.antt =====
-- backend/app/dependencies.py, the connections as variables of the module, with the start and the end
-- of the API in backend/app/main.py and the start of backend/consumers/run_consumer.py. Whether a
-- server answers is an argument; what is declared at RabbitMQ and the tracing are left out.
pub mod Startup
use flux_kart.Prelude.{
  ℕ, zero, suc, ◌+◌, ◌-◌, Bool, true, false, Option, none, some, ltb, if◌then◌else◌,
}
use flux_kart.Db.{Outcome, done, raised}

pub data Handle : Type 0 where
  live shut : Handle

pub record Connections : Type 0 where
  pub db_pool : Option Handle
  pub redis : Option Handle
  pub rabbitmq : Option Handle
  pub channel_pool : Option Handle

abbrev pub unset : Connections
unset = record { db_pool = none; redis = none; rabbitmq = none; channel_pool = none }

-- What a call does to the variables, and whether it came through or raised.
abbrev pub Step : Type 0
Step = Bool × Connections

infixl 5 ◌then_run◌
abbrev ◌then_run◌ : Step → (Connections → Step) → Step
(true, c) then_run f = f c
(false, c) then_run f = (false, c)

unfoldable pub init_db_pool : Bool → Connections → Step
init_db_pool false c = (false, c)
init_db_pool true c = (true, record c { db_pool = some live })

-- `from_url` connects to nothing yet.
unfoldable pub init_redis : Connections → Step
init_redis c = (true, record c { redis = some live })

-- `if _pool is None: raise RuntimeError`
abbrev given : Option Handle → Outcome Handle
given none = raised
given (some h) = done h

unfoldable pub get_db : Connections → Outcome Handle
get_db c = given c.db_pool

unfoldable pub get_redis : Connections → Outcome Handle
get_redis c = given c.redis

unfoldable pub get_rabbitmq : Connections → Outcome Handle
get_rabbitmq c = given c.rabbitmq

unfoldable pub get_channel_pool : Connections → Outcome Handle
get_channel_pool c = given c.channel_pool

abbrev pub max_retries : ℕ
max_retries = 10

abbrev pub retry_delay : ℕ
retry_delay = 5

-- How the attempts went: whether one came through, how many there were, and the seconds slept.
pub record Attempts : Type 0 where
  pub connected : Bool
  pub made : ℕ
  pub slept : ℕ

-- The loop of `init_rabbitmq` with so many rounds of the range left.
unfoldable pub connect : ℕ → (ℕ → Bool) → ℕ → ℕ → Attempts
connect zero answers attempt slept = record { connected = false; made = attempt; slept = slept }
connect (suc left) answers attempt slept =
    let again = connect left answers (attempt + 1) (slept + retry_delay) in
    if answers attempt
    then record { connected = true; made = attempt + 1; slept = slept }
    else if ltb attempt (max_retries - 1)
    then again
    else record { connected = false; made = attempt + 1; slept = slept }

unfoldable pub init_rabbitmq : (ℕ → Bool) → Connections → Step
init_rabbitmq answers c =
    if (connect max_retries answers 0 0).connected
    then (true, record c { rabbitmq = some live; channel_pool = some live })
    else (false, c)

abbrev close : Option Handle → Option Handle
close none = none
close (some _) = some shut

-- The variables keep what is closed.
unfoldable pub close_db_pool : Connections → Connections
close_db_pool c = record c { db_pool = close c.db_pool }

unfoldable pub close_redis : Connections → Connections
close_redis c = record c { redis = close c.redis }

unfoldable pub close_rabbitmq : Connections → Connections
close_rabbitmq c = record c { rabbitmq = close c.rabbitmq; channel_pool = close c.channel_pool }

abbrev demand : (Connections → Outcome Handle) → Connections → Step
demand get c = elim (get c) [ raised ↦ (false, c) | done _ ↦ (true, c) ]

-- `lifespan` up to its `yield`: the limiter loads its script into Redis, and the exchanges and queues
-- are declared at RabbitMQ.
unfoldable pub start_api : Bool → Bool → (ℕ → Bool) → Bool → Connections → Step
unfolding init_db_pool init_redis init_rabbitmq get_redis get_rabbitmq
start_api postgres limiter answers declared c =
    init_db_pool postgres c
    then_run init_redis
    then_run demand get_redis
    then_run (λ c'. (limiter, c'))
    then_run init_rabbitmq answers
    then_run demand get_rabbitmq
    then_run (λ c'. (declared, c'))
    then_run demand get_redis

-- `lifespan` after its `yield`.
unfoldable pub stop_api : Connections → Connections
unfolding close_db_pool close_redis close_rabbitmq
stop_api c = close_rabbitmq (close_redis (close_db_pool c))

-- `main` of the worker process, up to the workers.
unfoldable pub start_workers : Bool → (ℕ → Bool) → Connections → Step
unfolding init_db_pool init_redis init_rabbitmq get_redis get_db
start_workers postgres answers c =
    init_db_pool postgres c
    then_run init_redis
    then_run init_rabbitmq answers
    then_run demand get_db
    then_run demand get_redis

-- ===== src/CircuitBreaker.antt =====
-- backend/app/utils/circuit_breaker.py: a breaker whose state all API servers share in Redis. `call`
-- waits for the wrapped function between its check and its report, and other servers run meanwhile,
-- so the check and the two reports are operations of their own on the shared state.
pub mod Transitions
pub mod Recovery
use flux_kart.Prelude.{ℕ, ◌+◌, ◌-◌, ◌*◌, Bool, true, false, Option, none, some, leb, if◌then◌else◌}
use flux_kart.Redis.{KeyStore, ExpiringStore}

pub data CircuitState : Type 0 where
  closed opened half_open : CircuitState

-- The parameters of the constructor. Seconds are whole.
pub record Config : Type 0 where
  pub name : ℕ
  pub failure_threshold : ℕ
  pub cooldown_seconds : ℕ
  pub success_threshold : ℕ

-- What `call` does before it runs the function.
pub data Decision : Type 0 where
  proceed circuit_open_error : Decision

-- The stores of the four keys of a breaker. EXPIRE keeps the two counters for 60 seconds.
pub record Stores : Type 1 where
  pub states : KeyStore ℕ CircuitState
  pub opened_at : KeyStore ℕ ℕ
  pub failures : ExpiringStore ℕ ℕ
  pub successes : ExpiringStore ℕ ℕ

pub record Cells (R : Stores) : Type 0 where
  pub state : R.states.Db
  pub opened_at : R.opened_at.Db
  pub failures : R.failures.Db
  pub successes : R.successes.Db

-- The breaker of create_reservation, whose third threshold is the default of the class.
abbrev pub rabbitmq_publish : Config
rabbitmq_publish = record {
  name = 0;
  failure_threshold = 5;
  cooldown_seconds = 30;
  success_threshold = 2;
}

-- INCR takes a missing key for 0.
abbrev pub next : Option ℕ → ℕ
next none = 1
next (some n) = n + 1

-- A missing state is CLOSED.
abbrev pub read : Option CircuitState → CircuitState
read none = closed
read (some s) = s

module _ (R : Stores) (cfg : Config) where
  unfoldable pub get_state : Cells R → CircuitState
  get_state c = read (R.states.get c.state cfg.name)

  unfoldable pub set_state : CircuitState → Cells R → Cells R
  set_state s c = record c { state = R.states.set c.state cfg.name s }

  -- The head of `call`, up to the function itself.
  unfoldable pub before_call : ℕ → Cells R → Decision × Cells R
  unfolding get_state set_state
  before_call now c = elim (get_state c) [
    | opened ↦ elim (R.opened_at.get c.opened_at cfg.name) [
      | none ↦ (circuit_open_error, c)
      | some opened_at ↦
          if leb (cfg.cooldown_seconds * 1000) (now - opened_at)
          then (proceed, set_state half_open c)
          else (circuit_open_error, c)
    ]
    | _ ↦ (proceed, c)
  ]

  -- `_open_circuit`; the success counter is left as it is.
  unfoldable pub open_circuit : ℕ → Cells R → Cells R
  unfolding set_state
  open_circuit now c =
      let c' = set_state opened c in
      record c' {
        opened_at = R.opened_at.set c.opened_at cfg.name now;
        failures = R.failures.del c.failures cfg.name;
      }

  close_circuit : Cells R → Cells R
  unfolding set_state
  close_circuit c =
      let c' = set_state closed c in
      record c' {
        failures = R.failures.del c.failures cfg.name;
        successes = R.successes.del c.successes cfg.name;
        opened_at = R.opened_at.del c.opened_at cfg.name;
      }

  unfoldable pub on_success : ℕ → Cells R → Cells R
  unfolding get_state close_circuit
  on_success now c = elim (get_state c) [
    | half_open ↦
        let count = next (R.successes.get c.successes now cfg.name) in
        let c' = record c {
          successes = R.successes.set c.successes cfg.name count (now + 60 * 1000);
        } in
        if leb cfg.success_threshold count then close_circuit c' else c'
    | closed ↦ record c { failures = R.failures.del c.failures cfg.name }
    | opened ↦ c
  ]

  unfoldable pub on_failure : ℕ → Cells R → Cells R
  unfolding get_state open_circuit
  on_failure now c = elim (get_state c) [
    | half_open ↦ open_circuit now c
    | _ ↦
        let count = next (R.failures.get c.failures now cfg.name) in
        let c' = record c {
          failures = R.failures.set c.failures cfg.name count (now + 60 * 1000);
        } in
        if leb cfg.failure_threshold count then open_circuit now c' else c'
  ]

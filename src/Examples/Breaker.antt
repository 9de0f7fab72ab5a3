-- ===== src/Examples/Breaker.antt =====
-- A circuit breaker with the thresholds of the reservation service.
use flux_kart.Prelude.{ℕ, ◌≡◌, refl, some, none, [], ◌∷◌, arith}
use flux_kart.CircuitBreaker.{
  CircuitState, opened, half_open, Config, Stores, Cells, get_state, on_failure,
}
use flux_kart.CircuitBreaker.Transitions.{fail, step, Arrow, step-Arrow}
use flux_kart.CircuitBreaker.Recovery.{failures, burst_opens}
use flux_kart.Examples.Stores.{write, key_store, expiring_store}

abbrev stores : Stores
stores = record {
  states = key_store CircuitState;
  opened_at = key_store ℕ;
  failures = expiring_store ℕ;
  successes = expiring_store ℕ;
}

abbrev config : Config
config = record { name = 1; failure_threshold = 3; cooldown_seconds = 30; success_threshold = 2 }

abbrev fresh : Cells stores
fresh = record {
  state = λ _. none;
  opened_at = λ _. none;
  failures = λ _. none;
  successes = λ _. none;
}

abbrev broken : Cells stores
broken = record fresh {
  state = write (λ _. none) 1 (some opened);
  opened_at = write (λ _. none) 1 (some 100);
}

abbrev testing : Cells stores
testing = record fresh { state = write (λ _. none) 1 (some half_open) }

step-Arrow_example : Arrow stores config testing (fail 7) half_open opened
unfolding step get_state on_failure
step-Arrow_example = step-Arrow stores config (fail 7) testing

burst_opens_example :
    let c = failures stores config 10 (20 ∷ 30 ∷ []) fresh in
    (get_state stores config c ≡ opened) × (stores.opened_at.get c.opened_at 1 ≡ some 30)
unfolding get_state
burst_opens_example =
    burst_opens stores config 10 0 (20 ∷ 30 ∷ []) fresh refl refl (omega arith, (omega arith, tt))
      refl

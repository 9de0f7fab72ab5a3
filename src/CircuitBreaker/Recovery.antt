-- ===== src/CircuitBreaker/Recovery.antt =====
-- Runs of the breaker: bursts of failures, and successes in two half-open periods.
use flux_kart.Prelude.{
  ℕ, ◌+◌, ◌-◌, ◌*◌, ◌≤◌, ◌<◌, ◌≡◌, List, [], ◌∷◌, arith, ap, ◌∙◌, none, some, length,
}
use flux_kart.CircuitBreaker.{
  closed, opened, half_open, Config, Stores, Cells, next, get_state, before_call, on_success,
  on_failure,
}

module _ (R : Stores) (cfg : Config) where
  pub failures : ℕ → List ℕ → Cells R → Cells R
  failures now [] c = on_failure R cfg now c
  failures now (later ∷ rest) c = failures later rest (on_failure R cfg now c)

  -- Each failure comes within the minute for which the counter lives.
  abbrev pub WithinMinute : ℕ → List ℕ → Type 0
  WithinMinute now [] = Unit
  WithinMinute now (later ∷ rest) = (later < now + 60 * 1000) × WithinMinute later rest

  abbrev pub last : ℕ → List ℕ → ℕ
  last now [] = now
  last now (later ∷ rest) = last later rest

  count_up :
      (now later n : ℕ) (c : Cells R)
      → get_state R cfg c ≡ closed
      → next (R.failures.get c.failures now cfg.name) ≡ n
      → n < cfg.failure_threshold
      → later < now + 60 * 1000
      → (get_state R cfg (on_failure R cfg now c) ≡ closed)
        × (next (R.failures.get (on_failure R cfg now c).failures later cfg.name) ≡ n + 1)
  unfolding on_failure
  count_up now later n c e count few soon =
      ground (arith, R.failures.get-set_live c.failures cfg.name n (now + 60 * 1000) later soon)

  trip :
      (now n : ℕ) (c : Cells R)
      → get_state R cfg c ≡ closed
      → next (R.failures.get c.failures now cfg.name) ≡ n
      → cfg.failure_threshold ≤ n
      → (get_state R cfg (on_failure R cfg now c) ≡ opened)
        × (R.opened_at.get (on_failure R cfg now c).opened_at cfg.name ≡ some now)
  unfolding on_failure
  trip now n c e count many = ground (
    arith,
    R.states.get-set_self c.state cfg.name opened,
    R.opened_at.get-set_self c.opened_at cfg.name now,
  )

  -- A closed breaker that has counted `n` failures opens at the failure that makes them the
  -- threshold, if each comes within a minute of the one before, and records the time of the last.
  pub burst_opens :
      (now n : ℕ) (rest : List ℕ) (c : Cells R)
      → get_state R cfg c ≡ closed
      → next (R.failures.get c.failures now cfg.name) ≡ n + 1
      → WithinMinute now rest
      → n + 1 + length rest ≡ cfg.failure_threshold
      → (get_state R cfg (failures now rest c) ≡ opened)
        × (R.opened_at.get (failures now rest c).opened_at cfg.name ≡ some (last now rest))
  unfolding failures
  burst_opens now n [] c e count near total = trip now (n + 1) c e count (omega arith)
  burst_opens now n (later ∷ rest) c e count near total =
      let (still, more) = count_up now later (n + 1) c e count (omega arith) near.0 in
      burst_opens later (n + 1) rest (on_failure R cfg now c) still more near.1 (omega arith)

  first_success :
      (t t' : ℕ) (c : Cells R)
      → cfg.success_threshold ≡ 2
      → get_state R cfg c ≡ half_open
      → R.successes.get c.successes t cfg.name ≡ none
      → t' < t + 60 * 1000
      → (get_state R cfg (on_success R cfg t c) ≡ half_open)
        × (R.successes.get (on_success R cfg t c).successes t' cfg.name ≡ some 1)
  unfolding on_success
  first_success t t' c two e none_yet soon =
      ground (arith, R.successes.get-set_live c.successes cfg.name 1 (t + 60 * 1000) t' soon)

  reopened :
      (t : ℕ) (c : Cells R)
      → get_state R cfg c ≡ half_open
      → (get_state R cfg (on_failure R cfg t c) ≡ opened)
        × (R.opened_at.get (on_failure R cfg t c).opened_at cfg.name ≡ some t)
        × ((on_failure R cfg t c).successes ≡ c.successes)
  unfolding on_failure
  reopened t c e = ground (
    arith,
    R.states.get-set_self c.state cfg.name opened,
    R.opened_at.get-set_self c.opened_at cfg.name t,
  )

  retried :
      (now t : ℕ) (c : Cells R)
      → get_state R cfg c ≡ opened
      → R.opened_at.get c.opened_at cfg.name ≡ some t
      → cfg.cooldown_seconds * 1000 ≤ now - t
      → (get_state R cfg (before_call R cfg now c).1 ≡ half_open)
        × ((before_call R cfg now c).1.successes ≡ c.successes)
  unfolding before_call
  retried now t c e at cool = ground (arith, R.states.get-set_self c.state cfg.name half_open)

  second_success :
      (t : ℕ) (c : Cells R)
      → cfg.success_threshold ≡ 2
      → get_state R cfg c ≡ half_open
      → R.successes.get c.successes t cfg.name ≡ some 1
      → get_state R cfg (on_success R cfg t c) ≡ closed
  unfolding on_success
  second_success t c two e one = ground (arith, R.states.get-set_self c.state cfg.name closed)

  -- A success of one half-open period counts in the next. With a threshold of two: after one success,
  -- a failure that reopens the breaker, and a call after the cooldown, a single further success
  -- closes it, if that comes within a minute of the first.
  pub stale_success_closes :
      (t₁ t₂ t₃ t₄ : ℕ) (c : Cells R)
      → cfg.success_threshold ≡ 2
      → get_state R cfg c ≡ half_open
      → R.successes.get c.successes t₁ cfg.name ≡ none
      → cfg.cooldown_seconds * 1000 ≤ t₃ - t₂
      → t₄ < t₁ + 60 * 1000
      → let failed = on_failure R cfg t₂ (on_success R cfg t₁ c) in
        let half = (before_call R cfg t₃ failed).1 in
        (get_state R cfg failed ≡ opened)
        × (get_state R cfg half ≡ half_open)
        × (get_state R cfg (on_success R cfg t₄ half) ≡ closed)
  stale_success_closes t₁ t₂ t₃ t₄ c two e none_yet cool soon =
      let (still, one) = first_success t₁ t₄ c two e none_yet soon in
      let c₁ = on_success R cfg t₁ c in
      let (open_again, at, kept) = reopened t₂ c₁ still in
      let c₂ = on_failure R cfg t₂ c₁ in
      let (half, kept') = retried t₃ t₂ c₂ open_again at cool in
      (
        open_again,
        half,
        second_success t₄ (before_call R cfg t₃ c₂).1 two half
            (ap (λ db. R.successes.get db t₄ cfg.name) (kept' ∙ kept) ∙ one),
      )

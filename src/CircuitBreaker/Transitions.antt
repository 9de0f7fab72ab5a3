-- ===== src/CircuitBreaker/Transitions.antt =====
-- The transitions of the breaker, whatever the calls of all servers and their order.
use flux_kart.Prelude.{
  ℕ, ◌-◌, ◌*◌, ◌≤◌, ◌<◌, ◌≡◌, arith, refl, inl, inr, leb, Bool-cases, Option-cases, some,
}
use flux_kart.CircuitBreaker.{
  CircuitState, closed, opened, half_open, Config, circuit_open_error, Stores, Cells, next,
  get_state, before_call, on_success, on_failure,
}

-- What a server does to the shared state, and when.
pub data Event : Type 0 where
  begin succeed fail : ℕ → Event

module _ (R : Stores) (cfg : Config) where
  unfoldable pub step : Event → Cells R → Cells R
  step (begin now) c = (before_call R cfg now c).1
  step (succeed now) c = on_success R cfg now c
  step (fail now) c = on_failure R cfg now c

  -- What a change of state from `a` to `b` takes.
  pub data Arrow (c : Cells R) : Event → CircuitState → CircuitState → Type 0 where
    stay : (e : Event) (s : CircuitState) → Arrow c e s s
    trip :
        (now : ℕ)
        → cfg.failure_threshold ≤ next (R.failures.get c.failures now cfg.name)
        → Arrow c (fail now) closed opened
    retry :
        (now t : ℕ)
        → R.opened_at.get c.opened_at cfg.name ≡ some t
        → cfg.cooldown_seconds * 1000 ≤ now - t
        → Arrow c (begin now) opened half_open
    reopen : (now : ℕ) → Arrow c (fail now) half_open opened
    recover :
        (now : ℕ)
        → cfg.success_threshold ≤ next (R.successes.get c.successes now cfg.name)
        → Arrow c (succeed now) half_open closed

  Arrow-to :
      {c : Cells R} {e : Event} {a x : CircuitState} (b : CircuitState)
      → x ≡ b
      → Arrow c e a b
      → Arrow c e a x
  Arrow-to b p h = rw p h

  -- The state that an event leads to, for each state before it.
  begin-Arrow :
      (now : ℕ) (c : Cells R) (s : CircuitState)
      → get_state R cfg c ≡ s
      → Arrow c (begin now) s (get_state R cfg (before_call R cfg now c).1)
  begin-Arrow now c opened e = elim (Option-cases (R.opened_at.get c.opened_at cfg.name)) [
    | inl unknown ↦ Arrow-to opened (unfold before_call in ground arith) (stay _ _)
    | inr (t, at) ↦ elim (Bool-cases (leb (cfg.cooldown_seconds * 1000) (now - t))) [
      | inl over ↦
          Arrow-to half_open
            (unfold before_call in ground (arith, R.states.get-set_self c.state cfg.name half_open))
            (retry now t at (ground arith))
      | inr cooling ↦ Arrow-to opened (unfold before_call in ground arith) (stay _ _)
    ]
  ]
  begin-Arrow now c closed e = Arrow-to closed (unfold before_call in ground arith) (stay _ _)
  begin-Arrow now c half_open e = Arrow-to half_open (unfold before_call in ground arith) (stay _ _)

  succeed-Arrow :
      (now : ℕ) (c : Cells R) (s : CircuitState)
      → get_state R cfg c ≡ s
      → Arrow c (succeed now) s (get_state R cfg (on_success R cfg now c))
  succeed-Arrow now c half_open e =
      elim (Bool-cases
        (leb cfg.success_threshold (next (R.successes.get c.successes now cfg.name)))) [
          | inl enough ↦
              Arrow-to closed
                (unfold on_success in ground (arith, R.states.get-set_self c.state cfg.name closed))
                (recover now (ground arith))
          | inr few ↦ Arrow-to half_open (unfold on_success in ground arith) (stay _ _)
        ]
  succeed-Arrow now c closed e = Arrow-to closed (unfold on_success in ground arith) (stay _ _)
  succeed-Arrow now c opened e = Arrow-to opened (unfold on_success in ground arith) (stay _ _)

  fail-Arrow :
      (now : ℕ) (c : Cells R) (s : CircuitState)
      → get_state R cfg c ≡ s
      → Arrow c (fail now) s (get_state R cfg (on_failure R cfg now c))
  fail-Arrow now c half_open e =
      Arrow-to opened
        (unfold on_failure in ground (arith, R.states.get-set_self c.state cfg.name opened))
        (reopen now)
  fail-Arrow now c closed e =
      elim (Bool-cases
        (leb cfg.failure_threshold (next (R.failures.get c.failures now cfg.name)))) [
          | inl many ↦
              Arrow-to opened
                (unfold on_failure in ground (arith, R.states.get-set_self c.state cfg.name opened))
                (trip now (ground arith))
          | inr few ↦ Arrow-to closed (unfold on_failure in ground arith) (stay _ _)
        ]
  fail-Arrow now c opened e =
      Arrow-to opened
        (unfold on_failure in ground (arith, R.states.get-set_self c.state cfg.name opened))
        (stay _ _)

  -- Every change of the shared state is one of the documented ones, by its documented cause: CLOSED
  -- to OPEN by a failure that reaches the threshold, OPEN to HALF_OPEN by a call after the cooldown,
  -- HALF_OPEN to OPEN by any failure, and HALF_OPEN to CLOSED by a success that reaches the threshold.
  pub step-Arrow :
      (e : Event) (c : Cells R) → Arrow c e (get_state R cfg c) (get_state R cfg (step e c))
  unfolding step
  step-Arrow (begin now) c = begin-Arrow now c (get_state R cfg c) refl
  step-Arrow (succeed now) c = succeed-Arrow now c (get_state R cfg c) refl
  step-Arrow (fail now) c = fail-Arrow now c (get_state R cfg c) refl

  -- While the breaker is open and its cooldown has not passed, a call is refused and the shared
  -- state is unchanged.
  pub cooldown_refuses :
      (now t : ℕ) (c : Cells R)
      → get_state R cfg c ≡ opened
      → R.opened_at.get c.opened_at cfg.name ≡ some t
      → now - t < cfg.cooldown_seconds * 1000
      → before_call R cfg now c ≡ (circuit_open_error, c)
  unfolding before_call
  cooldown_refuses now t c e at early = ground arith

-- ===== src/Wiring/Startup.antt =====
-- How the processes come up.
use flux_kart.Prelude.{
  ℕ, zero, suc, ◌+◌, ◌*◌, ◌-◌, ◌≤◌, ◌<◌, ◌≡◌, refl, Bool, true, false, some, ◌⊎◌, inl, inr, ap, ◌∙◌,
  arith, ltb, Bool-cases,
}
use mathlib.Core.Path.{subst}
use flux_kart.Db.{done}
use flux_kart.Wiring.{
  live, shut, Connections, get_db, get_redis, get_rabbitmq, get_channel_pool, max_retries, Attempts,
  connect, init_rabbitmq, start_api, stop_api,
}

-- The attempt `n`, not before `a`, is the first that comes through.
pub record First (answers : ℕ → Bool) (a n : ℕ) : Type 0 where
  pub late : a ≤ n
  pub in_range : n < max_retries
  pub there : answers n ≡ true
  pub refused : (m : ℕ) → a ≤ m → m < n → answers m ≡ false

abbrev pub AllFail : (ℕ → Bool) → ℕ → Type 0
AllFail answers a = (m : ℕ) → a ≤ m → m < max_retries → answers m ≡ false

abbrev pub came_through : ℕ → ℕ → Attempts
came_through n slept = record { connected = true; made = n + 1; slept = slept }

abbrev pub gave_up : ℕ → Attempts
gave_up slept = record { connected = false; made = max_retries; slept = slept }

module _ (answers : ℕ → Bool) (a : ℕ) where
  First-now : answers a ≡ true → a < max_retries → First answers a a
  First-now e low = record {
    late = omega arith;
    in_range = low;
    there = e;
    refused = λ m low high. absurd (omega arith);
  }

  refused_from :
      (m : ℕ) → answers a ≡ false → a ≤ m → (a + 1 ≤ m → answers m ≡ false) → answers m ≡ false
  refused_from m e low after = elim (Bool-cases (ltb a m)) [
    | inl above ↦ after (ground arith)
    | inr same ↦ let eq : a ≡ m = ground arith in subst (λ k. answers k ≡ false) eq e
  ]

  First-later : (n : ℕ) → answers a ≡ false → First answers (a + 1) n → First answers a n
  First-later n e f = record {
    late = omega (arith, f.late);
    in_range = f.in_range;
    there = f.there;
    refused = λ m low high. refused_from m e low (λ next. f.refused m next high);
  }

connect_once :
    (left a slept : ℕ) (answers : ℕ → Bool)
    → answers a ≡ false
    → a < max_retries - 1
    → connect (suc left) answers a slept ≡ connect left answers (a + 1) (slept + 5)
unfolding connect
connect_once left a slept answers e low = ground arith

connect_last :
    (a slept : ℕ) (answers : ℕ → Bool)
    → answers a ≡ false
    → a ≡ max_retries - 1
    → connect 1 answers a slept ≡ gave_up slept
unfolding connect
connect_last a slept answers e last = ground arith

connect_now :
    (left a slept : ℕ) (answers : ℕ → Bool)
    → answers a ≡ true
    → connect (suc left) answers a slept ≡ came_through a slept
unfolding connect
connect_now left a slept answers e = ground arith

Ends : (ℕ → Bool) → ℕ → ℕ → Attempts → Type 0
Ends answers a slept out =
    ((n : ℕ) × First answers a n × (out ≡ came_through n (slept + 5 * (n - a))))
    ⊎ (AllFail answers a × (out ≡ gave_up (slept + 5 * (max_retries - 1 - a))))

connect_lem :
    (left a slept : ℕ) (answers : ℕ → Bool)
    → suc left + a ≡ max_retries
    → Ends answers a slept (connect (suc left) answers a slept)
unfolding Ends
connect_lem zero a slept answers all = elim (Bool-cases (answers a)) [
  | inl e ↦
      inl (a, First-now answers a e (omega arith), ground (arith, connect_now 0 a slept answers e))
  | inr e ↦ inr (
    (λ m low high. refused_from answers a m e low (λ next. absurd (omega arith))),
    ground (arith, connect_last a slept answers e),
  )
]
connect_lem (suc left) a slept answers all = elim (Bool-cases (answers a)) [
  | inl e ↦ inl (
    a,
    First-now answers a e (omega arith),
    ground (arith, connect_now (suc left) a slept answers e),
  )
  | inr e ↦
      let again = connect_once (suc left) a slept answers e (omega arith) in
      later e again (connect_lem left (a + 1) (slept + 5) answers (omega arith))
]
  where
    later :
        answers a ≡ false
        → connect (suc (suc left)) answers a slept ≡ connect (suc left) answers (a + 1) (slept + 5)
        → Ends answers (a + 1) (slept + 5) (connect (suc left) answers (a + 1) (slept + 5))
        → Ends answers a slept (connect (suc (suc left)) answers a slept)
    later e again (inl (n, f, r)) =
        inl
          (n, First-later answers a n e f, again ∙ r ∙ ap (came_through n) (omega (arith, f.late)))
    later e again (inr (f, r)) = inr (
      (λ m low high. refused_from answers a m e low (λ next. f m next high)),
      again ∙ r ∙ ap gave_up (omega arith),
    )

-- `init_rabbitmq` makes up to ten attempts, five seconds apart. If the attempt `n` is the first that
-- RabbitMQ answers, it connects with it, after sleeping 5 seconds `n` times, and the connection and
-- the pool of channels are there; if it answers none, the call raises after ten attempts and 45
-- seconds and leaves the variables as they were.
pub init_rabbitmq_lem :
    (answers : ℕ → Bool) (c : Connections)
    → ((n : ℕ) × First answers 0 n
        × (connect max_retries answers 0 0 ≡ came_through n (5 * n))
        × (init_rabbitmq answers c
            ≡ (true, record c { rabbitmq = some live; channel_pool = some live })))
      ⊎ (AllFail answers 0
          × (connect max_retries answers 0 0 ≡ gave_up 45)
          × (init_rabbitmq answers c ≡ (false, c)))
unfolding init_rabbitmq Ends
init_rabbitmq_lem answers c = ends (connect_lem 9 0 0 answers refl)
  where
    ends :
        Ends answers 0 0 (connect max_retries answers 0 0)
        → ((n : ℕ) × First answers 0 n
            × (connect max_retries answers 0 0 ≡ came_through n (5 * n))
            × (init_rabbitmq answers c
                ≡ (true, record c { rabbitmq = some live; channel_pool = some live })))
          ⊎ (AllFail answers 0
              × (connect max_retries answers 0 0 ≡ gave_up 45)
              × (init_rabbitmq answers c ≡ (false, c)))
    ends (inl (n, f, r)) = inl (n, f, r ∙ ap (came_through n) (omega arith), ground (arith, r))
    ends (inr (f, r)) = inr (f, r, ground (arith, r))

-- A start of the API that came through has everything that the handlers ask for; after the end of the
-- API they are still given what is closed.
pub start_api_gives :
    (postgres limiter declared : Bool) (answers : ℕ → Bool) (c started : Connections)
    → start_api postgres limiter answers declared c ≡ (true, started)
    → (get_db started ≡ done live)
      × (get_redis started ≡ done live)
      × (get_rabbitmq started ≡ done live)
      × (get_channel_pool started ≡ done live)
      × (get_db (stop_api started) ≡ done shut)
      × (get_channel_pool (stop_api started) ≡ done shut)
unfolding start_api stop_api get_db get_redis get_rabbitmq get_channel_pool
start_api_gives false limiter declared answers c started e = absurd (ground arith)
start_api_gives true limiter declared answers c started e =
    elim (Bool-cases (connect max_retries answers 0 0).connected) [
      | inl connected ↦
          (ground arith, ground arith, ground arith, ground arith, ground arith, ground arith)
      | inr refused ↦ absurd (ground arith)
    ]

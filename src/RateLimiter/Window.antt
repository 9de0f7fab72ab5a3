-- ===== src/RateLimiter/Window.antt =====
-- The requests that are let through against the window, for one key and a clock that never goes back.
use flux_kart.Prelude.{
  ℕ, ◌+◌, ◌≤◌, ◌<◌, ◌≡◌, refl, ap, ◌∙◌, sym, Bool, true, List, [], ◌∷◌, arith, ltb, leb, ◌&&◌,
  if◌then◌else◌, count_where, count_where-le, Bool-cases, inl, inr,
}
use flux_kart.Redis.{ScoredSets}
use flux_kart.RateLimiter.{lua_script, remove_old}
use flux_kart.RateLimiter.Removal.{
  named, live, live_member, removed-live, removed-zcard, removed-absent, named-ne,
}

-- A request: its time and the uuid4() that names it.
pub record Arrival : Type 0 where
  pub time : ℕ
  pub id : ℕ

module _ (Z : ScoredSets ℕ ℕ) (key window limit : ℕ) where
  unfoldable pub answer : Arrival → Z.Db → (ℕ × Bool) × Z.Db
  unfolding lua_script
  answer a db = lua_script Z key a.time window limit a.id db

  -- The times of the requests that are let through, the last one first.
  pub let_through : List Arrival → Z.Db → List ℕ → List ℕ
  unfolding answer
  let_through [] db passed = passed
  let_through (a ∷ rest) db passed =
      let (reply, db') = answer a db in
      let_through rest db' (if reply.1 then a.time ∷ passed else passed)

  -- Times do not fall, and no id is drawn while a member of the set still has it.
  abbrev pub IsSchedule : ℕ → List Arrival → Z.Db → Type 0
  IsSchedule last [] db = Unit
  IsSchedule last (a ∷ rest) db =
      (last ≤ a.time)
      × (count_where (named Z key window a.id) (Z.zrange db a.time key) ≡ 0)
      × IsSchedule a.time rest (answer a db).1

  -- A request at `a` counts at the time `t`.
  abbrev pub in_window : ℕ → ℕ → Bool
  in_window t a = leb a t && ltb t (a + window)

  -- What the set remembers of the requests that passed, at each later time `u`, for windows that end
  -- at a time `t` after that.
  record IsTracked (last : ℕ) (db : Z.Db) (passed : List ℕ) : Type 0 where
    past : (t : ℕ) → last < t → count_where (leb t) passed ≡ 0
    same :
        (u t : ℕ)
        → last ≤ u
        → u ≤ t
        → count_where (live Z key window t) passed
          ≡ count_where (live_member Z key window t) (Z.zrange db u key)
    bound : (t : ℕ) → count_where (in_window t) passed ≤ limit

  refused-IsTracked :
      (last now : ℕ) (db : Z.Db) (passed : List ℕ)
      → last ≤ now
      → IsTracked last db passed
      → IsTracked now (remove_old Z key now window db) passed
  refused-IsTracked last now db passed h k = record {
    past = λ t l. k.past t (omega (arith, h, l));
    same = λ u t l m.
        k.same u t (omega (arith, h, l)) m ∙ sym (removed-live Z key window now u t db l m);
    bound = k.bound;
  }

  in_window-live : (now t a : ℕ) → now ≤ t → in_window t a ≡ true → live Z key window now a ≡ true
  unfolding live
  in_window-live now t a h w = ground arith

  after_removal : Arrival → Z.Db → Z.Db
  after_removal a db = remove_old Z key a.time window db

  with_arrival : Arrival → Z.Db → Z.Db
  with_arrival a db = Z.pexpire (Z.zadd db a.time key a.id a.time) a.time key window

  -- While the key lasts it holds the members that were there and the new one; after that none of the
  -- times that passed is in a window.
  with_arrival-live :
      (u t : ℕ) (a : Arrival) (db : Z.Db)
      → count_where (named Z key window a.id) (Z.zrange db a.time key) ≡ 0
      → a.time ≤ u
      → u ≤ a.time + window
      → count_where (live_member Z key window t) (Z.zrange (with_arrival a db) u key)
        ≡ count_where (live_member Z key window t) (Z.zrange db a.time key)
          + (if live Z key window t a.time then 1 else 0)
  unfolding live_member with_arrival
  with_arrival-live u t a db fresh l near =
      ap (count_where (live_member Z key window t))
        (Z.zrange-pexpire (Z.zadd db a.time key a.id a.time) a.time u key window l near)
      ∙ Z.zrange-zadd db a.time key a.id a.time (named Z key window a.id)
          (live_member Z key window t) (named-ne Z key window a.id) fresh

  same_gone :
      (u t : ℕ) (a : Arrival) (db : Z.Db) (passed : List ℕ)
      → count_where (leb (a.time + 1)) passed ≡ 0
      → a.time + window < u
      → u ≤ t
      → count_where (live Z key window t) (a.time ∷ passed)
        ≡ count_where (live_member Z key window t) (Z.zrange (with_arrival a db) u key)
  unfolding live with_arrival
  same_gone u t a db passed past far m = ground (
    arith,
    Z.zrange-pexpire_gone (Z.zadd db a.time key a.id a.time) a.time u key window far,
    count_where-le (live Z key window t) (leb (a.time + 1)) passed (λ x l. ground arith),
    past,
  )

  allowed-IsTracked :
      (last : ℕ) (a : Arrival) (db : Z.Db) (passed : List ℕ)
      → last ≤ a.time
      → count_where (named Z key window a.id) (Z.zrange db a.time key) ≡ 0
      → Z.zcard (after_removal a db) a.time key < limit
      → IsTracked last db passed
      → IsTracked a.time (with_arrival a (after_removal a db)) (a.time ∷ passed)
  unfolding after_removal
  allowed-IsTracked last a db passed h fresh room k = record {
    past = λ t l. ground (arith, k.past t (omega (arith, h, l)));
    same = λ u t l m. elim (Bool-cases (leb u (a.time + window))) [
      | inl near ↦ ground (
        arith,
        with_arrival-live u t a (after_removal a db)
            (removed-absent Z key window a.time a.id db fresh) l (ground arith),
        k.same a.time t h (omega (arith, l, m)),
        removed-live Z key window a.time a.time t db (omega arith) (omega (arith, l, m)),
      )
      | inr far ↦
          same_gone u t a (after_removal a db) passed (k.past (a.time + 1) (omega (arith, h)))
            (ground arith) m
    ];
    bound = λ t. elim (Bool-cases (leb a.time t)) [
      | inl later ↦ ground (
        arith,
        count_where-le (in_window t) (live Z key window a.time) passed
            (λ x l. in_window-live a.time t x (ground arith) l),
        k.same a.time a.time h (omega arith),
        removed-zcard Z key window a.time db,
        room,
      )
      | inr earlier ↦ ground (arith, k.bound t)
    ];
  }

  step-IsTracked :
      (last : ℕ) (a : Arrival) (db : Z.Db) (passed : List ℕ)
      → last ≤ a.time
      → count_where (named Z key window a.id) (Z.zrange db a.time key) ≡ 0
      → IsTracked last db passed
      → IsTracked a.time (answer a db).1 (if (answer a db).0.1 then a.time ∷ passed else passed)
  unfolding answer after_removal with_arrival
  step-IsTracked last a db passed h fresh k =
      elim (Bool-cases (leb limit (Z.zcard (after_removal a db) a.time key))) [
        | inl full ↦ rw full (refused-IsTracked last a.time db passed h k)
        | inr room ↦ rw room (allowed-IsTracked last a db passed h fresh (ground arith) k)
      ]

  let_through-bound :
      (last : ℕ) (rest : List Arrival) (db : Z.Db) (passed : List ℕ)
      → IsSchedule last rest db
      → IsTracked last db passed
      → (t : ℕ) → count_where (in_window t) (let_through rest db passed) ≤ limit
  unfolding let_through
  let_through-bound last [] db passed h k t = k.bound t
  let_through-bound last (a ∷ rest) db passed h k t =
      let_through-bound a.time rest (answer a db).1
        (if (answer a db).0.1 then a.time ∷ passed else passed) h.2
        (step-IsTracked last a db passed h.0 h.1 k) t

  -- Whatever requests arrive at the key, at times that do not fall and with ids that are fresh, from
  -- an empty set on: no window of that length, wherever it ends, holds more than `limit` requests
  -- that were let through.
  pub window_bound :
      (arrivals : List Arrival) (db : Z.Db) (t : ℕ)
      → ((u : ℕ) → Z.zrange db u key ≡ [])
      → IsSchedule 0 arrivals db
      → count_where (in_window t) (let_through arrivals db []) ≤ limit
  window_bound arrivals db t empty h =
      let_through-bound 0 arrivals db [] h
        (record {
          past = λ t l. refl;
          same = λ u t l m. ap (count_where (live_member Z key window t)) (sym (empty u));
          bound = λ t. omega arith;
        })
        t

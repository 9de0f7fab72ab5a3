-- ===== src/ReservationService/Create/Holds.antt =====
-- The holds that `create_reservation` touches: those under the id of its own hold only.
use flux_kart.Prelude.{
  ℕ, ◌≡◌, ◌≢◌, refl, ap, ◌∙◌, Bool, true, false, Option, none, some, arith, Bool-cases,
  Option-cases, inl, inr,
}
use flux_kart.Prelude.Int.{pos, ltb_ℤ}
use flux_kart.Inventory.{Hold, Stock, deadline, new_hold, try_reserve_inventory, release_inventory}
use flux_kart.Db.{Reservation, Database, Outcome, done, raised}
use flux_kart.Degradation.{Link, up, unreachable, reply_lost, try_reserve_with_fallback}
use flux_kart.ReservationService.{
  Services, World, Request, Run, Created, reserved, value_error, runtime_error, failed_duplicate,
  reaches, check_user, check_sale, get_sale_cached, get_user_score_cached, pass_queue,
}
use flux_kart.ReservationService.Create.{
  Persisted, stored, duplicate_key, failed, persist, price_of, compensate, finish, after_persist,
  after_reserve, reserve_and_persist, scored, queued, sale_checked, user_checked,
  create_reservation,
}

-- The hold under another id `k`, as it is read at a time `t`.
module _ (S : Services) (run : Run) (k t : ℕ) (other : run.hold_id ≢ k) where
  abbrev held : Stock S.counters S.holds → Option Hold
  held st = S.holds.get st.1 t k

  reserve-held :
      (s u q ttl : ℕ) (st : Stock S.counters S.holds)
      → held (try_reserve_inventory S.counters S.holds run.now s run.hold_id u q ttl st).1 ≡ held st
  unfolding try_reserve_inventory
  reserve-held s u q ttl (c, h) = elim (Option-cases (S.counters.get c s)) [
    | inl missing ↦ ground (arith, missing)
    | inr (v, there) ↦ elim (Bool-cases (ltb_ℤ v (pos q))) [
      | inl short ↦ ground (arith, there, short)
      | inr fits ↦ ground (
        arith,
        there,
        fits,
        S.holds.get-set_ne h run.hold_id k (new_hold run.now s u q) (deadline run.now ttl) t other,
      )
    ]
  ]

  release-held :
      (s q : ℕ) (st : Stock S.counters S.holds)
      → held (release_inventory S.counters S.holds run.now s run.hold_id q st) ≡ held st
  unfolding release_inventory
  release-held s q (c, h) = elim (Option-cases (S.holds.get h run.now run.hold_id)) [
    | inl missing ↦ ground (arith, missing)
    | inr (d, there) ↦ ground (arith, there, S.holds.get-del_ne h t run.hold_id k other)
  ]

  compensate-held :
      (q : Request) (a : Created) (w : World S)
      → held (compensate S run q a w).1.stock ≡ held w.stock
  unfolding compensate
  compensate-held q a w = elim (Bool-cases (reaches run.redis)) [
    | inl reach ↦ rw reach (release-held q.sale_id q.quantity w.stock)
    | inr apart ↦ rw apart refl
  ]

  after_persist-held :
      (a : Persisted) (q : Request) (ttl recovery p : ℕ) (w : World S)
      → held (after_persist S a run q ttl recovery p w).1.stock ≡ held w.stock
  unfolding after_persist finish
  after_persist-held (stored r db') q ttl recovery p w = refl
  after_persist-held duplicate_key q ttl recovery p w =
      compensate-held q (value_error failed_duplicate) w
  after_persist-held failed q ttl recovery p w = compensate-held q runtime_error w

  after_reserve-held :
      (o : Outcome (Bool × Database)) (st : Stock S.counters S.holds) (q : Request)
      (ttl recovery p : ℕ) (w : World S)
      → held (after_reserve S (o, st) run q ttl recovery p w).1.stock ≡ held st
  unfolding after_reserve
  after_reserve-held raised st q ttl recovery p w = refl
  after_reserve-held (done (false, db')) st q ttl recovery p w = refl
  after_reserve-held (done (true, db')) st q ttl recovery p w =
      after_persist-held (persist run q ttl p db') q ttl recovery p
        (record w { db = db'; stock = st })

  fallback-held :
      (link : Link) (s u q ttl : ℕ) (w : World S)
      → held
          (try_reserve_with_fallback S.counters S.holds link run.now s run.hold_id u q ttl w.stock
            w.db).1
        ≡ held w.stock
  unfolding try_reserve_with_fallback
  fallback-held up s u q ttl w = reserve-held s u q ttl w.stock
  fallback-held unreachable s u q ttl w = refl
  fallback-held reply_lost s u q ttl w = reserve-held s u q ttl w.stock

  scored-held :
      (q : Request) (p : ℕ) (w : World S) → held (scored S run q p w).1.stock ≡ held w.stock
  unfolding scored reserve_and_persist
  scored-held q p w =
      let (score, cache) = get_user_score_cached S (reaches run.redis) run.now q.user_id w in
      let (o, st) =
        try_reserve_with_fallback S.counters S.holds run.redis run.now q.sale_id run.hold_id
          q.user_id q.quantity score.1 w.stock w.db in
      after_reserve-held o st q score.1 score.2 p (record w { score_cache = cache })
      ∙ fallback-held run.redis q.sale_id q.user_id q.quantity score.1 w

  queued-held :
      (passed : Option Created × World S) (q : Request) (p : ℕ)
      → held (queued S passed run q p).1.stock ≡ held passed.1.stock
  unfolding queued
  queued-held (some answer, w) q p = refl
  queued-held (none, w) q p = scored-held q p w

  pass_queue-stock :
      (redis_up : Bool) (q : Request) (w : World S)
      → (pass_queue S redis_up run.now q w).1.stock ≡ w.stock
  unfolding pass_queue
  pass_queue-stock redis_up q w = ground arith

  sale_checked-held :
      (open_sale : Bool) (q : Request) (p : ℕ) (w : World S)
      → held (sale_checked S open_sale run q p w).1.stock ≡ held w.stock
  unfolding sale_checked
  sale_checked-held false q p w = refl
  sale_checked-held true q p w =
      queued-held (pass_queue S (reaches run.redis) run.now q w) q p
      ∙ ap held (pass_queue-stock (reaches run.redis) q w)

  user_checked-held :
      (checked : Option Created) (q : Request) (w : World S)
      → held (user_checked S checked run q w).1.stock ≡ held w.stock
  unfolding user_checked
  user_checked-held (some answer) q w = refl
  user_checked-held none q w =
      let found = get_sale_cached S (reaches run.redis) run.now q.sale_id w in
      sale_checked-held (check_sale run.now found.0) q (price_of S found.0)
        (record w { sale_cache = found.1 })

  pub create_reservation-held :
      (q : Request) (w : World S) → held (create_reservation S run q w).1.stock ≡ held w.stock
  unfolding create_reservation
  create_reservation-held q w = user_checked-held (check_user q w.db) q w

module _ (S : Services) where
  release-idle :
      (t s k q : ℕ) (st : Stock S.counters S.holds)
      → S.holds.get st.1 t k ≡ none
      → release_inventory S.counters S.holds t s k q st ≡ st
  unfolding release_inventory
  release-idle t s k q (c, h) gone = ground (arith, gone)

  -- The hold of a new reservation is not stored under the id of its row: where no hold was alive under
  -- that id and the id drawn for the hold is another one, a release under the id of the row, as the
  -- expiry and the cancellation make it, gives nothing back at any time and leaves the hold as it is.
  pub row_release_gives_nothing :
      (run : Run) (q : Request) (w : World S) (r : Reservation) (t : ℕ)
      → (create_reservation S run q w).0 ≡ reserved r
      → run.hold_id ≢ r.id
      → S.holds.get w.stock.1 t r.id ≡ none
      → release_inventory S.counters S.holds t r.sale_id r.id r.quantity
          (create_reservation S run q w).1.stock
        ≡ (create_reservation S run q w).1.stock
  row_release_gives_nothing run q w r t answer other gone =
      release-idle t r.sale_id r.id r.quantity (create_reservation S run q w).1.stock
        (create_reservation-held S run r.id t other q w ∙ gone)

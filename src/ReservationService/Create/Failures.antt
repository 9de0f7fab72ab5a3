-- ===== src/ReservationService/Create/Failures.antt =====
-- What `create_reservation` undoes when it cannot persist the reservation, and what it does not.
use flux_kart.Prelude.{
  ℕ, ◌≤◌, ◌<◌, ◌≡◌, refl, sym, ◌∙◌, ◌⊎◌, ap, Bool, true, false, some, [], arith, count_where,
  update_where,
}
use flux_kart.Prelude.Int.{ℤ}
use flux_kart.Inventory.{Stock, try_reserve_inventory, release_inventory}
use flux_kart.Inventory.Holds.{release-reserve}
use flux_kart.Db.{InventoryRow, Database, done}
use flux_kart.Db.Inventory.{for_sale, get_inventory, available, add_reserved, IsStocked}
use flux_kart.Degradation.{up, unreachable, reserve_with_db_lock_total, try_reserve_with_fallback}
use flux_kart.ReservationService.{Services, World, Request, Run, runtime_error, Score}
use flux_kart.ReservationService.Create.{
  Persisted, stored, duplicate_key, failed, persist, compensate, after_persist, after_reserve,
  reserve_and_persist,
}
use flux_kart.ReservationService.Create.Recorded.{new_rows}

module _ (S : Services) where
  undone :
      (a : Persisted) (run : Run) (q : Request) (ttl recovery p : ℕ) (v : ℤ) (w w' : World S)
      → run.redis ≡ up
      → S.counters.get
          (release_inventory S.counters S.holds run.now q.sale_id run.hold_id q.quantity w'.stock).0
          q.sale_id
        ≡ some v
      → w'.db ≡ w.db
      → new_rows (after_persist S a run q ttl recovery p w').0 ≡ []
      → (S.counters.get (after_persist S a run q ttl recovery p w').1.stock.0 q.sale_id ≡ some v)
        × ((after_persist S a run q ttl recovery p w').1.db ≡ w.db)
  unfolding after_persist compensate
  undone (stored r db') run q ttl recovery p v w w' link back same e = absurd (ground arith)
  undone duplicate_key run q ttl recovery p v w w' link back same e = rw link (back, same)
  undone failed run q ttl recovery p v w w' link back same e = rw link (back, same)

  refused_keeps :
      (now s h u k ttl : ℕ) (w : World S)
      → (try_reserve_inventory S.counters S.holds now s h u k ttl w.stock).0 ≡ false
      → (try_reserve_inventory S.counters S.holds now s h u k ttl w.stock).1 ≡ w.stock
  unfolding try_reserve_inventory
  refused_keeps now s h u k ttl w e = ground arith

  reserve_up :
      (run : Run) (q : Request) (score : S.float.F) (ttl recovery p : ℕ) (w : World S)
      → run.redis ≡ up
      → let (ok, st) =
          try_reserve_inventory S.counters S.holds run.now q.sale_id run.hold_id q.user_id
            q.quantity ttl w.stock in
        reserve_and_persist S run q (score, ttl, recovery) p w
        ≡ after_reserve S (done (ok, w.db), st) run q ttl recovery p w
  unfolding reserve_and_persist try_reserve_with_fallback
  reserve_up run q score ttl recovery p w link = rw link refl

  after_true :
      (ok : Bool) (st : Stock S.counters S.holds) (run : Run) (q : Request) (ttl recovery p : ℕ)
      (v : ℤ) (w : World S)
      → run.redis ≡ up
      → (ok ≡ true
          → S.counters.get
              (release_inventory S.counters S.holds run.now q.sale_id run.hold_id q.quantity st).0
              q.sale_id
            ≡ some v)
      → (ok ≡ false → S.counters.get st.0 q.sale_id ≡ some v)
      → let out = after_reserve S (done (ok, w.db), st) run q ttl recovery p w in
        new_rows out.0 ≡ [] → (S.counters.get out.1.stock.0 q.sale_id ≡ some v) × (out.1.db ≡ w.db)
  unfolding after_reserve
  after_true true st run q ttl recovery p v w link back kept e =
      undone (persist run q ttl p w.db) run q ttl recovery p v w (record w { stock = st }) link
        (back refl) refl e
  after_true false st run q ttl recovery p v w link back kept e = (kept refl, refl)

  -- While Redis answers, a request that reserves the units and then gets no reservation, whatever
  -- the reason, leaves the counter of the sale and the tables as they were.
  pub failure_restores_counter :
      (run : Run) (q : Request) (score : Score S) (p : ℕ) (v : ℤ) (w : World S)
      → run.redis ≡ up
      → 0 < score.1
      → S.counters.get w.stock.0 q.sale_id ≡ some v
      → new_rows (reserve_and_persist S run q score p w).0 ≡ []
      → (S.counters.get (reserve_and_persist S run q score p w).1.stock.0 q.sale_id ≡ some v)
        × ((reserve_and_persist S run q score p w).1.db ≡ w.db)
  failure_restores_counter run q (score, ttl, recovery) p v w link alive e answer =
      let s = q.sale_id in
      let (ok, st) =
        try_reserve_inventory S.counters S.holds run.now s run.hold_id q.user_id q.quantity ttl
          w.stock in
      let same = reserve_up run q score ttl recovery p w link in
      rw same (
        after_true ok st run q ttl recovery p v w link
          (λ yes.
            (release-reserve S.counters S.holds run.now run.now s run.hold_id q.user_id q.quantity
              ttl v w.stock e yes (omega arith)).0)
          (λ no.
            ap (λ stock. S.counters.get stock.0 s)
              (refused_keeps run.now s run.hold_id q.user_id q.quantity ttl w no)
            ∙ e)
          (ap (λ out. new_rows out.0) (sym same) ∙ answer))

  not_stored :
      (run : Run) (q : Request) (ttl p : ℕ) (db : Database)
      → run.persist_fails ≡ true
      → (persist run q ttl p db ≡ duplicate_key) ⊎ (persist run q ttl p db ≡ failed)
  unfolding persist
  not_stored run q ttl p db fails = ground arith

  -- Without Redis, a request whose transaction fails after the fallback has reserved the units gets
  -- an error, and the units stay reserved in the row of the sale although no reservation holds them.
  pub fallback_units_leak :
      (run : Run) (q : Request) (score : Score S) (p : ℕ) (i : InventoryRow) (w : World S)
      → run.redis ≡ unreachable
      → run.persist_fails ≡ true
      → IsStocked w.db.inventory
      → count_where (for_sale q.sale_id) w.db.inventory ≤ 1
      → get_inventory q.sale_id w.db ≡ some i
      → q.quantity ≤ available i
      → let db₁ = record w.db {
        inventory = update_where (for_sale q.sale_id) (add_reserved q.quantity) w.db.inventory;
      } in
        reserve_and_persist S run q score p w ≡ (runtime_error, record w { db = db₁ })
  fallback_units_leak run q (score, ttl, recovery) p i w link fails stocked one row room =
      let db₁ = record w.db {
        inventory = update_where (for_sale q.sale_id) (add_reserved q.quantity) w.db.inventory;
      } in
      unfold reserve_and_persist after_reserve try_reserve_with_fallback after_persist compensate in
      ground (
        arith,
        reserve_with_db_lock_total q.sale_id q.quantity i w.db stocked one row,
        not_stored run q ttl p db₁ fails,
      )

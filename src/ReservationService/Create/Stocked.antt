-- ===== src/ReservationService/Create/Stocked.antt =====
-- `create_reservation` of backend/app/services/reservation_service.py on the inventory and the
-- orders.
use flux_kart.Prelude.{
  ℕ, ◌≡◌, refl, sym, ◌∙◌, Bool, true, false, Option, none, some, ◌⊎◌, inl, inr, arith, ltb,
  Bool-cases,
}
use mathlib.Core.Path.{subst}
use flux_kart.Inventory.{Stock}
use flux_kart.Db.{Reservation, InventoryRow, Database, Outcome, done, raised}
use flux_kart.Db.Inventory.{
  available, IsStocked, get_inventory, add_reserved, for_sale, update_inventory,
  update_inventory-IsStocked,
}
use flux_kart.Db.Reservations.{insert_reservation}
use flux_kart.Db.Outbox.{create_outbox_event}
use flux_kart.Degradation.{
  Link, up, unreachable, reply_lost, reserve_with_db_lock, try_reserve_with_fallback,
}
use flux_kart.ReservationService.{
  Services, World, Request, Run, Created, reaches, check_user, check_sale, get_sale_cached,
  get_user_score_cached, pass_queue, value_error, runtime_error, failed_duplicate,
}
use flux_kart.ReservationService.Create.{
  Persisted, stored, duplicate_key, failed, persist, compensate, finish, after_persist,
  after_reserve, reserve_and_persist, price_of, scored, queued, sale_checked, user_checked,
  create_reservation,
}
use flux_kart.ReservationService.Create.Recorded.{pass_queue-db}
use flux_kart.System.{Settled}
use flux_kart.System.Tables.{Settled-update, update_inventory-eq}

-- The orders stay, and the inventory keeps its CHECK and what is sold.
pub record StockOnly (db db' : Database) : Type 0 where
  pub orders : db'.orders ≡ db.orders
  pub stocked : IsStocked db.inventory → IsStocked db'.inventory
  pub sold : Settled db.orders db.inventory → Settled db.orders db'.inventory

StockOnly-refl : (db : Database) → StockOnly db db
StockOnly-refl db = record { orders = refl; stocked = λ h. h; sold = λ h. h }

-- Tables that differ elsewhere.
StockOnly-elsewhere :
    (db db₁ db₂ : Database)
    → db₂.orders ≡ db₁.orders
    → db₂.inventory ≡ db₁.inventory
    → StockOnly db db₁
    → StockOnly db db₂
StockOnly-elsewhere db db₁ db₂ orders inventory h = record {
  orders = orders ∙ h.orders;
  stocked = λ s. subst IsStocked (sym inventory) (h.stocked s);
  sold = λ s. subst (Settled db.orders) (sym inventory) (h.sold s);
}

add_reserved-StockOnly :
    (s q : ℕ) (db db' : Database)
    → update_inventory s (add_reserved q) db ≡ done db'
    → StockOnly db db'
add_reserved-StockOnly s q db db' e =
    let eq = update_inventory-eq s (add_reserved q) db db' e in
    record {
      orders = rw eq refl;
      stocked = λ _. update_inventory-IsStocked s (add_reserved q) db db' e;
      sold = λ h. rw eq (
          Settled-update db.orders (for_sale s) (add_reserved q) db.inventory (λ i. refl)
            (λ i. refl) h);
    }

reserve_with_db_lock-StockOnly :
    (s q : ℕ) (ok : Bool) (db db' : Database)
    → reserve_with_db_lock s q db ≡ done (ok, db')
    → StockOnly db db'
unfolding reserve_with_db_lock
reserve_with_db_lock-StockOnly s q ok db db' e = through (ends (get_inventory s db) refl)
  where
    ends :
        (found : Option InventoryRow)
        → get_inventory s db ≡ found
        → (db' ≡ db) ⊎ (update_inventory s (add_reserved q) db ≡ done db')
    ends none there = inl (ground arith)
    ends (some row) there = elim (Bool-cases (ltb (available row) q)) [
      | inl few ↦ inl (ground arith)
      | inr enough ↦ inr (ground arith)
    ]

    through : (db' ≡ db) ⊎ (update_inventory s (add_reserved q) db ≡ done db') → StockOnly db db'
    through (inl same) = subst (StockOnly db) (sym same) (StockOnly-refl db)
    through (inr took) = add_reserved-StockOnly s q db db' took

module _ (S : Services) where
  fallback-StockOnly :
      (l : Link) (now s h u q ttl : ℕ) (ok : Bool) (w : World S) (db' : Database)
      → (try_reserve_with_fallback S.counters S.holds l now s h u q ttl w.stock w.db).0
        ≡ done (ok, db')
      → StockOnly w.db db'
  unfolding try_reserve_with_fallback
  fallback-StockOnly up now s h u q ttl ok w db' e =
      let same : w.db ≡ db' = ground arith in subst (StockOnly w.db) same (StockOnly-refl w.db)
  fallback-StockOnly unreachable now s h u q ttl ok w db' e =
      reserve_with_db_lock-StockOnly s q ok w.db db' e
  fallback-StockOnly reply_lost now s h u q ttl ok w db' e =
      reserve_with_db_lock-StockOnly s q ok w.db db' e

  compensate-db :
      (run : Run) (q : Request) (answer : Created) (w : World S)
      → (compensate S run q answer w).1.db ≡ w.db
  unfolding compensate
  compensate-db run q answer w = ground arith

  persist_elsewhere :
      (run : Run) (q : Request) (ttl p : ℕ) (r : Reservation) (db db' : Database)
      → persist run q ttl p db ≡ stored r db'
      → (db'.orders ≡ db.orders) × (db'.inventory ≡ db.inventory)
  unfolding persist insert_reservation create_outbox_event
  persist_elsewhere run q ttl p r db db' e = ground arith

  after_persist-StockOnly :
      (a : Persisted) (run : Run) (q : Request) (ttl recovery p : ℕ) (db : Database) (w : World S)
      → ((r : Reservation) (db' : Database) → a ≡ stored r db' → StockOnly db db')
      → StockOnly db w.db
      → StockOnly db (after_persist S a run q ttl recovery p w).1.db
  unfolding after_persist
  after_persist-StockOnly (stored r db') run q ttl recovery p db w h same =
      unfold finish in h r db' refl
  after_persist-StockOnly duplicate_key run q ttl recovery p db w h same =
      subst (StockOnly db) (sym (compensate-db run q (value_error failed_duplicate) w)) same
  after_persist-StockOnly failed run q ttl recovery p db w h same =
      subst (StockOnly db) (sym (compensate-db run q runtime_error w)) same

  after_reserve-StockOnly :
      (o : Outcome (Bool × Database)) (st : Stock S.counters S.holds) (run : Run) (q : Request)
      (ttl recovery p : ℕ) (w : World S)
      → ((ok : Bool) (db' : Database) → o ≡ done (ok, db') → StockOnly w.db db')
      → StockOnly w.db (after_reserve S (o, st) run q ttl recovery p w).1.db
  unfolding after_reserve
  after_reserve-StockOnly raised st run q ttl recovery p w h = StockOnly-refl w.db
  after_reserve-StockOnly (done (false, db')) st run q ttl recovery p w h = h false db' refl
  after_reserve-StockOnly (done (true, db')) st run q ttl recovery p w h =
      after_persist-StockOnly (persist run q ttl p db') run q ttl recovery p w.db
        (record w { db = db'; stock = st })
        (λ r db'' e.
          let (orders, inventory) = persist_elsewhere run q ttl p r db' db'' e in
          StockOnly-elsewhere w.db db' db'' orders inventory (h true db' refl))
        (h true db' refl)

  scored-StockOnly :
      (run : Run) (q : Request) (p : ℕ) (w : World S) → StockOnly w.db (scored S run q p w).1.db
  unfolding scored reserve_and_persist
  scored-StockOnly run q p w =
      let (score, cache) = get_user_score_cached S (reaches run.redis) run.now q.user_id w in
      let w' : World S = record w { score_cache = cache } in
      let (o, st) =
        try_reserve_with_fallback S.counters S.holds run.redis run.now q.sale_id run.hold_id
          q.user_id q.quantity score.1 w.stock w.db in
      after_reserve-StockOnly o st run q score.1 score.2 p w' (λ ok db' e.
        fallback-StockOnly run.redis run.now q.sale_id run.hold_id q.user_id q.quantity score.1 ok
          w' db' e)

  queued-StockOnly :
      (passed : Option Created × World S) (run : Run) (q : Request) (p : ℕ) (w : World S)
      → passed.1.db ≡ w.db
      → StockOnly w.db (queued S passed run q p).1.db
  unfolding queued
  queued-StockOnly (some answer, w') run q p w same =
      subst (StockOnly w.db) (sym same) (StockOnly-refl w.db)
  queued-StockOnly (none, w') run q p w same =
      subst (λ (db : Database). StockOnly db (scored S run q p w').1.db) same
        (scored-StockOnly run q p w')

  sale_checked-StockOnly :
      (open_sale : Bool) (run : Run) (q : Request) (p : ℕ) (w : World S)
      → StockOnly w.db (sale_checked S open_sale run q p w).1.db
  unfolding sale_checked
  sale_checked-StockOnly false run q p w = StockOnly-refl w.db
  sale_checked-StockOnly true run q p w =
      queued-StockOnly (pass_queue S (reaches run.redis) run.now q w) run q p w
        (pass_queue-db S (reaches run.redis) run.now q w)

  user_checked-StockOnly :
      (checked : Option Created) (run : Run) (q : Request) (w : World S)
      → StockOnly w.db (user_checked S checked run q w).1.db
  unfolding user_checked
  user_checked-StockOnly (some answer) run q w = StockOnly-refl w.db
  user_checked-StockOnly none run q w =
      let found = get_sale_cached S (reaches run.redis) run.now q.sale_id w in
      sale_checked-StockOnly (check_sale run.now found.0) run q (price_of S found.0)
        (record w { sale_cache = found.1 })

  pub create_reservation-StockOnly :
      (run : Run) (q : Request) (w : World S) → StockOnly w.db (create_reservation S run q w).1.db
  unfolding create_reservation
  create_reservation-StockOnly run q w = user_checked-StockOnly (check_user q w.db) run q w

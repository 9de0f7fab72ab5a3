-- ===== src/ReservationService/Create.antt =====
-- `create_reservation` from the reservation of the inventory on, and as a whole.
pub mod Recorded
pub mod Outbox
pub mod Failures
pub mod Holds
pub mod Replay
pub mod Stocked
use flux_kart.Prelude.{ℕ, ◌+◌, ◌*◌, Bool, true, false, Option, none, some, ltb, if◌then◌else◌}
use flux_kart.Inventory.{Stock, release_inventory}
use flux_kart.Db.{Sale, Reservation, Payload, Database, Outcome, done, raised}
use flux_kart.Db.Reservations.{insert_reservation}
use flux_kart.Db.Outbox.{create_outbox_event}
use flux_kart.Degradation.{Link, try_reserve_with_fallback}
use flux_kart.ReservationService.{
  Services, World, Request, Run, Created, reserved, value_error, runtime_error, no_inventory,
  failed_duplicate, invalid_sale, reaches, JoinedSale, Score, check_user, check_sale,
  get_sale_cached, get_user_score_cached, pass_queue, publish_directly,
}

-- How the transaction of step 7 ends: both rows are there, or neither is.
pub data Persisted : Type 0 where
  stored : Reservation → Database → Persisted
  duplicate_key failed : Persisted

abbrev pub event_of : Reservation → ℕ → Payload
event_of r unit_price = record {
  reservation_id = r.id;
  user_id = r.user_id;
  sale_id = r.sale_id;
  quantity = r.quantity;
  unit_price = unit_price;
}

unfoldable pub persist : Run → Request → ℕ → ℕ → Database → Persisted
persist run q ttl_seconds unit_price db =
    elim (insert_reservation run.row_id q.user_id q.sale_id q.quantity q.idempotency_key
      (run.now + ttl_seconds * 1000) db) [
        | raised ↦ duplicate_key
        | done (r, db') ↦
            if run.persist_fails
            then failed
            else stored r (create_outbox_event run.event_id r.id (event_of r unit_price) db')
      ]

module _ (S : Services) where
  -- The `except` of step 7: the release raises itself where Redis cannot be reached.
  unfoldable pub compensate : Run → Request → Created → World S → Created × World S
  compensate run q answer w =
      if reaches run.redis
      then (
        answer,
        record w {
          stock =
              release_inventory S.counters S.holds run.now q.sale_id run.hold_id q.quantity w.stock;
        },
      )
      else (runtime_error, w)

  -- Steps 8 and 10.
  unfoldable pub finish : Run → Request → ℕ → ℕ → Payload → World S → World S
  finish run q ttl_seconds recovery_window m w =
      let published = publish_directly S (reaches run.redis) run.publishes run.now m w in
      record w {
        recovery =
            if ltb 0 recovery_window
            then if reaches run.redis
              then S.recovery.set w.recovery (q.user_id, q.sale_id) m
                  (run.now + (ttl_seconds + recovery_window) * 1000)
              else w.recovery
            else w.recovery;
        breaker = published.0;
        sent = published.1;
      }

  after_persist : Persisted → Run → Request → ℕ → ℕ → ℕ → World S → Created × World S
  unfolding compensate finish
  after_persist (stored r db') run q ttl_seconds recovery_window unit_price w = (
    reserved r,
    finish run q ttl_seconds recovery_window (event_of r unit_price) (record w { db = db' }),
  )
  after_persist duplicate_key run q ttl_seconds recovery_window unit_price w =
      compensate run q (value_error failed_duplicate) w
  after_persist failed run q ttl_seconds recovery_window unit_price w =
      compensate run q runtime_error w

  after_reserve :
      Outcome (Bool × Database) × Stock S.counters S.holds
      → Run
      → Request
      → ℕ
      → ℕ
      → ℕ
      → World S
      → Created × World S
  unfolding after_persist
  after_reserve (raised, st) run q ttl_seconds recovery_window unit_price w =
      (runtime_error, record w { stock = st })
  after_reserve (done (false, db'), st) run q ttl_seconds recovery_window unit_price w =
      (value_error no_inventory, record w { db = db'; stock = st })
  after_reserve (done (true, db'), st) run q ttl_seconds recovery_window unit_price w =
      after_persist (persist run q ttl_seconds unit_price db') run q ttl_seconds recovery_window
        unit_price (record w { db = db'; stock = st })

  -- Steps 6 to 10.
  unfoldable pub reserve_and_persist : Run → Request → Score S → ℕ → World S → Created × World S
  unfolding after_reserve
  reserve_and_persist run q (score, ttl_seconds, recovery_window) unit_price w =
      after_reserve
        (try_reserve_with_fallback S.counters S.holds run.redis run.now q.sale_id run.hold_id
          q.user_id q.quantity ttl_seconds w.stock w.db)
        run q ttl_seconds recovery_window unit_price w

  abbrev pub price_of : Option JoinedSale → ℕ
  price_of none = 0
  price_of (some (s, i)) = s.sale_price

  -- Step 5 on.
  scored : Run → Request → ℕ → World S → Created × World S
  unfolding reserve_and_persist
  scored run q unit_price w =
      let found = get_user_score_cached S (reaches run.redis) run.now q.user_id w in
      reserve_and_persist run q found.0 unit_price (record w { score_cache = found.1 })

  -- Step 4 on.
  queued : Option Created × World S → Run → Request → ℕ → Created × World S
  unfolding scored
  queued (some answer, w) run q unit_price = (answer, w)
  queued (none, w) run q unit_price = scored run q unit_price w

  -- Step 3 on.
  sale_checked : Bool → Run → Request → ℕ → World S → Created × World S
  unfolding queued
  sale_checked false run q unit_price w = (value_error invalid_sale, w)
  sale_checked true run q unit_price w =
      queued (pass_queue S (reaches run.redis) run.now q w) run q unit_price

  user_checked : Option Created → Run → Request → World S → Created × World S
  unfolding sale_checked
  user_checked (some answer) run q w = (answer, w)
  user_checked none run q w =
      let found = get_sale_cached S (reaches run.redis) run.now q.sale_id w in
      sale_checked (check_sale run.now found.0) run q (price_of found.0)
        (record w { sale_cache = found.1 })

  unfoldable pub create_reservation : Run → Request → World S → Created × World S
  unfolding user_checked
  create_reservation run q w = user_checked (check_user q w.db) run q w

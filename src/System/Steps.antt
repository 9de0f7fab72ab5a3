-- ===== src/System/Steps.antt =====
-- The calls that write the tables of orders and stock, each as one step, and what holds after any
-- sequence of them. A step runs whole: no other call comes between its statements. The state of
-- Redis, the clock and the failures of a step are arbitrary.
use flux_kart.Prelude.{ℕ, ◌≡◌, refl, sym, Bool, Option, some, List, count_where}
use mathlib.Core.Path.{subst}
use flux_kart.Redis.{ExpiringStore}
use flux_kart.Inventory.{Stock}
use flux_kart.Db.{SaleStatus, Payload, Database, done}
use flux_kart.Db.Orders.{has_id}
use flux_kart.Db.Sales.{SaleData}
use flux_kart.ReservationService.{Services, World, Request, Run}
use flux_kart.ReservationService.Create.{create_reservation}
use flux_kart.ReservationService.Create.Outbox.{create_reservation-IsUnique}
use flux_kart.ReservationService.Create.Stocked.{create_reservation-StockOnly}
use flux_kart.ReservationRouter.{rewrite_row}
use flux_kart.ReservationRouter.Kept.{rewrite_row-IsSound}
use flux_kart.OrderConsumer.{Fault, process_order_message}
use flux_kart.OrderConsumer.Kept.{process_order_message-IsSound}
use flux_kart.Payments.{Receipt, pay_order, cancel_order}
use flux_kart.Payments.Card.{Python, PaymentRequest}
use flux_kart.Payments.Kept.{pay_order-IsSound, cancel_order-IsSound}
use flux_kart.ExpiryWorker.{expire_batch, expire_sales}
use flux_kart.ExpiryWorker.Activation.{activate_scheduled_sales}
use flux_kart.ExpiryWorker.Kept.{
  expire_batch-IsSound, expire_sales-IsSound, activate_scheduled_sales-IsSound,
}
use flux_kart.OutboxWorker.{Fate, process_outbox_batch}
use flux_kart.SaleAdmin.{Shop}
use flux_kart.SaleAdmin.Lifecycle.Calls.{AdminCall, handle}
use flux_kart.SaleAdmin.Kept.Calls.{IsFresh, handle-IsSound}
use flux_kart.SalesRouter.{post_sale, patch_sale_status}
use flux_kart.SalesRouter.Kept.{post_sale-IsSound, patch_sale_status-IsSound}
use flux_kart.System.{IsSound, Settled}
use flux_kart.System.Tables.{SameTables-IsSound, of_sale}

module _ (S : Services) (py : Python) (I : ExpiringStore ℕ Receipt) (key : ℕ → ℕ → List ℕ → ℕ)
    (price : ℕ → ℕ → ℕ) where
  abbrev pub Selling : Type 0
  Selling = Shop S.counters S.holds S.waiting

  -- The ids that PostgreSQL draws for an order and for a sale are new to the orders.
  pub data Step : Database → Database → Type 0 where
    reserve :
        (run : Run) (q : Request) (w : World S) → Step w.db (create_reservation S run q w).1.db
    resize :
        (now user_id id quantity : ℕ) (db : Database)
        → Step db (rewrite_row S now user_id id quantity db).1
    deliver :
        (fault : Fault) (order_id : ℕ) (body : Option Payload) (db : Database)
        → count_where (has_id order_id) db.orders ≡ 0
        → Step db (process_order_message price fault order_id body db).1
    pay :
        (redis_up : Bool) (now user_id order_id : ℕ) (payload : PaymentRequest) (db : Database)
        (cache : I.Db)
        → Step db (pay_order py I key redis_up now user_id order_id payload db cache).1
    cancel : (user_id order_id : ℕ) (db : Database) → Step db (cancel_order user_id order_id db).1
    expire :
        (now : ℕ) (locked reachable : ℕ → Bool) (st st' : Stock S.counters S.holds) (n : ℕ)
        (db db' : Database)
        → expire_batch S.counters S.holds now locked reachable db st ≡ done (n, db', st')
        → Step db db'
    end_sales : (now : ℕ) (db : Database) → Step db (expire_sales now db).1
    start_sales :
        (now : ℕ) (reachable : ℕ → Bool) (db : Database) (c : S.counters.Db)
        → Step db (activate_scheduled_sales S.counters now reachable db c).1
    poll :
        (fates : ℕ → Fate) (sent : List Payload) (db : Database)
        → Step db (record db {
          outbox_events = (process_outbox_batch fates db.outbox_events sent).events;
        })
    administer :
        (redis_up : Bool) (call : AdminCall) (w : Selling)
        → IsFresh S.counters S.holds S.waiting call w.db
        → Step w.db (handle S.counters S.holds S.waiting redis_up call w).1.db
    post :
        (redis_up : Bool) (id : ℕ) (d : SaleData) (w : Selling)
        → count_where (of_sale id) w.db.orders ≡ 0
        → Step w.db (post_sale S.counters S.holds S.waiting redis_up id d w).1.db
    patch :
        (redis_up : Bool) (id : ℕ) (status : SaleStatus) (w : Selling)
        → Step w.db
            (patch_sale_status S.counters S.holds S.waiting redis_up id (some status) w).1.db

  -- Any sequence of steps.
  pub data Reach (start : Database) : Database → Type 0 where
    here : Reach start start
    next : {db db' : Database} → Reach start db → Step db db' → Reach start db'

  reserve-IsSound :
      (run : Run) (q : Request) (w : World S)
      → IsSound w.db
      → IsSound (create_reservation S run q w).1.db
  reserve-IsSound run q w h =
      let db' = (create_reservation S run q w).1.db in
      let kept = create_reservation-StockOnly S run q w in
      record {
        valid = record {
          stocked = kept.stocked h.valid.stocked;
          unique = create_reservation-IsUnique S run q w h.valid.unique;
          one_order = λ k. rw kept.orders (h.valid.one_order k);
          one_id = λ k. rw kept.orders (h.valid.one_id k);
        };
        settled =
            subst (λ orders. Settled orders db'.inventory) (sym kept.orders) (kept.sold h.settled);
      }

  Step-IsSound : {db db' : Database} → Step db db' → IsSound db → IsSound db'
  Step-IsSound (reserve run q w) h = reserve-IsSound run q w h
  Step-IsSound (resize now u k n db) h = rewrite_row-IsSound S now u k n db h
  Step-IsSound (deliver f id body db fresh) h =
      process_order_message-IsSound price f id body db fresh h
  Step-IsSound (pay up now u k p db cache) h = pay_order-IsSound py I key up now u k p db cache h
  Step-IsSound (cancel u k db) h = cancel_order-IsSound u k db h
  Step-IsSound (expire now locked reachable st st' n db db' e) h =
      expire_batch-IsSound S.counters S.holds now locked reachable db st n db' st' e h
  Step-IsSound (end_sales now db) h = expire_sales-IsSound now db h
  Step-IsSound (start_sales now reachable db c) h =
      activate_scheduled_sales-IsSound S.counters now reachable db c h
  Step-IsSound (poll fates sent db) h =
      SameTables-IsSound db
        (record db { outbox_events = (process_outbox_batch fates db.outbox_events sent).events })
        (record { inventory = refl; reservations = refl; orders = refl }) h
  Step-IsSound (administer up call w fresh) h =
      handle-IsSound S.counters S.holds S.waiting up call w fresh h
  Step-IsSound (post up id d w fresh) h =
      post_sale-IsSound S.counters S.holds S.waiting up id d w fresh h
  Step-IsSound (patch up id t w) h =
      patch_sale_status-IsSound S.counters S.holds S.waiting up id t w h

  pub reachable-IsSound : {db db' : Database} → IsSound db → Reach db db' → IsSound db'
  reachable-IsSound h here = h
  reachable-IsSound h (next r s) = Step-IsSound s (reachable-IsSound h r)

-- ===== src/Payments.antt =====
-- backend/app/routers/orders.py, the payment and the cancellation of an order, with
-- backend/app/utils/idempotency.py. What a handler reads before its transaction is not locked, so
-- the checks and the transaction are functions of their own: other requests may run between them.
pub mod Card
pub mod Paid
pub mod Delivered
pub mod Races
pub mod Kept
pub mod Cart
use flux_kart.Prelude.{ℕ, ◌+◌, ◌*◌, Bool, true, false, Option, none, some, List, ltb, if◌then◌else◌}
use flux_kart.Prelude.Int.{ℤ}
use flux_kart.Redis.{KeyStore, ExpiringStore}
use flux_kart.Inventory.{Hold, Stock, release_inventory}
use flux_kart.Db.{
  ReservationStatus, OrderStatus, Reservation, Order, Database, Outcome, done, raised, is_paid,
}
use flux_kart.Db.Orders.{get_order, set_order_status}
use flux_kart.Db.Reservations.{get_reservation_by_id, update_reservation_status}
use flux_kart.Db.Inventory.{update_inventory, sell_reserved, drop_reserved}
use flux_kart.Payments.Card.{Python, PaymentRequest, card_error, card_last4, digits_last4}

-- The answer of an endpoint: a body, an HTTPException with its status code, or an exception that
-- FastAPI turns into a 500.
pub data Response {ℓ} (A : Type ℓ) : Type ℓ where
  reply : A → Response A
  http_error : ℕ → Response A
  server_error : Response A

-- `payment_result`; `processed_at` is the time that `store_idempotency_result` adds.
pub record Receipt : Type 0 where
  pub order_id : ℕ
  pub quantity : ℕ
  pub total_paid : ℕ
  pub card_last4 : List ℕ

-- The order as `fetchrow` joins it with its reservation; the sale that `pay_order` joins as well
-- exists by its foreign key.
abbrev pub Fetched : Type 0
Fetched = Order × Reservation

fetch_with : Option Reservation → Order → Option Fetched
fetch_with none o = none
fetch_with (some r) o = some (o, r)

unfoldable pub fetch_order : ℕ → ℕ → Database → Option Fetched
unfolding fetch_with
fetch_order order_id user_id db = elim (get_order order_id user_id db) [
  | none ↦ none
  | some o ↦ fetch_with (get_reservation_by_id o.reservation_id db) o
]

-- The transaction of `pay_order`.
unfoldable pub pay_transaction : Fetched → Database → Outcome Database
pay_transaction (o, r) db =
    elim (update_reservation_status o.reservation_id ReservationStatus.confirmed
      (set_order_status o.id OrderStatus.paid db)) [
        | raised ↦ raised
        | done db' ↦ update_inventory o.sale_id (sell_reserved o.quantity) db'
      ]

-- The transaction of `cancel_order`.
unfoldable pub cancel_transaction : Fetched → Database → Outcome Database
cancel_transaction (o, r) db =
    elim (update_reservation_status o.reservation_id ReservationStatus.cancelled
      (set_order_status o.id OrderStatus.failed db)) [
        | raised ↦ raised
        | done db' ↦ update_inventory o.sale_id (drop_reserved o.quantity) db'
      ]

-- `cancel_order` up to the release in Redis, with no other request between its statements; the
-- reply carries the sale, the reservation and the quantity that it releases there.
unfoldable pub cancel_order : ℕ → ℕ → Database → Response Order × Database
cancel_order user_id order_id db = elim (fetch_order order_id user_id db) [
  | none ↦ (http_error 404, db)
  | some f ↦ if is_paid f.0.status then (http_error 400, db) else elim (cancel_transaction f db) [
    | raised ↦ (server_error, db)
    | done db' ↦ (reply f.0, db')
  ]
]

-- The release after the transaction: an exception is passed over.
unfoldable pub cancel_release :
    (C : KeyStore ℕ ℤ) (H : ExpiringStore ℕ Hold)
    → Bool
    → ℕ
    → Response Order
    → Stock C H
    → Stock C H
cancel_release C H true now (reply o) st =
    release_inventory C H now o.sale_id o.reservation_id o.quantity st
cancel_release C H redis_up now answer st = st

-- backend/app/utils/idempotency.py, with a Redis that answers or does not.
abbrev pub idempotency_ttl : ℕ
idempotency_ttl = 86400

abbrev pub check_idempotency : (I : ExpiringStore ℕ Receipt) → Bool → ℕ → ℕ → I.Db → Option Receipt
check_idempotency I true now key cache = I.get cache now key
check_idempotency I false now key cache = none

abbrev pub store_idempotency_result :
    (I : ExpiringStore ℕ Receipt) → Bool → ℕ → ℕ → Receipt → I.Db → I.Db
store_idempotency_result I true now key result cache =
    I.set cache key result (now + idempotency_ttl * 1000)
store_idempotency_result I false now key result cache = cache

module _ (py : Python) (I : ExpiringStore ℕ Receipt) (payment_key : ℕ → ℕ → List ℕ → ℕ) where
  -- The tests of `pay_order` on what it has read, in their order; `none` lets the payment go on.
  unfoldable pub payment_error : ℕ → PaymentRequest → Fetched → Option ℕ
  payment_error now payload (o, r) =
      if is_paid o.status
      then some 409
      else if ltb r.expires_at now
      then some 410
      else card_error py now payload

  receipt : PaymentRequest → Order → Receipt
  receipt payload o = record {
    order_id = o.id;
    quantity = o.quantity;
    total_paid = o.total_price;
    card_last4 = digits_last4 payload;
  }

  -- From the database on, for a request that was not answered from the cache.
  unfoldable pub pay_uncached :
      Bool → ℕ → ℕ → ℕ → PaymentRequest → Database → I.Db → Response Receipt × Database × I.Db
  unfolding receipt
  pay_uncached redis_up now user_id order_id payload db cache =
      elim (fetch_order order_id user_id db) [
        | none ↦ (http_error 404, db, cache)
        | some f ↦ elim (payment_error now payload f) [
          | some code ↦ (http_error code, db, cache)
          | none ↦ elim (pay_transaction f db) [
            | raised ↦ (server_error, db, cache)
            | done db' ↦ (
              reply (receipt payload f.0),
              db',
              store_idempotency_result I redis_up now
                  (payment_key user_id order_id (card_last4 payload)) (receipt payload f.0) cache,
            )
          ]
        ]
      ]

  -- `pay_order` with no other request between its statements. Without Redis the check of the
  -- idempotency key finds nothing and its result is not stored.
  unfoldable pub pay_order :
      Bool → ℕ → ℕ → ℕ → PaymentRequest → Database → I.Db → Response Receipt × Database × I.Db
  unfolding pay_uncached
  pay_order redis_up now user_id order_id payload db cache =
      elim (check_idempotency I redis_up now (payment_key user_id order_id (card_last4 payload))
        cache) [
          | some cached ↦ (reply cached, db, cache)
          | none ↦ pay_uncached redis_up now user_id order_id payload db cache
        ]

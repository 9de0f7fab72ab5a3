-- ===== src/ExpiryWorker.antt =====
-- backend/app/workers/expiry_worker.py: overdue reservations and ended sales. NOW()
-- is the time `now` of a run.
pub mod Activation
pub mod Batch
pub mod Loop
pub mod Releases
pub mod Kept
pub mod Rounds
use flux_kart.Prelude.{
  ℕ, zero, suc, ◌+◌, ◌*◌, Bool, true, false, Option, none, some, List, [], ◌∷◌, ◌==◌, ltb, leb, not,
  ◌&&◌, ◌||◌, if◌then◌else◌, length, take, select, update_where, first, count_where,
}
use flux_kart.Prelude.Int.{ℤ}
use flux_kart.Redis.{KeyStore, ExpiringStore}
use flux_kart.Inventory.{Hold, Stock, release_inventory}
use flux_kart.Db.{
  SaleStatus, Sale, ReservationStatus, Reservation, OrderStatus, Order, Database, Outcome, done,
  raised, is_active, is_active_sale, is_paid,
}
use flux_kart.Db.Inventory.{update_inventory, drop_reserved}

abbrev pub batch_size : ℕ
batch_size = 100

-- status IN ('pending', 'confirmed') AND expires_at < NOW()
abbrev pub overdue : ℕ → Reservation → Bool
overdue now r = is_active r.status && ltb r.expires_at now

-- ORDER BY expires_at ASC
unfoldable pub insert_by_expiry : Reservation → List Reservation → List Reservation
insert_by_expiry r [] = r ∷ []
insert_by_expiry r (x ∷ xs) =
    let rest = insert_by_expiry r xs in
    if leb r.expires_at x.expires_at then r ∷ x ∷ xs else x ∷ rest

unfoldable pub order_by_expiry : List Reservation → List Reservation
unfolding insert_by_expiry
order_by_expiry [] = []
order_by_expiry (r ∷ rows) = insert_by_expiry r (order_by_expiry rows)

-- Step 1. SKIP LOCKED passes over the rows that another transaction holds.
unfoldable pub fetch_batch : ℕ → (ℕ → Bool) → List Reservation → List Reservation
fetch_batch now locked rows =
    take batch_size (order_by_expiry (select (λ r. overdue now r && not (locked r.id)) rows))

-- id = ANY($1)
unfoldable pub among : List Reservation → ℕ → Bool
among [] id = false
among (r ∷ batch) id = r.id == id || among batch id

-- Steps 3 and 4.
abbrev pub expire_row : Reservation → Reservation
expire_row r = record r { status = ReservationStatus.expired }

unfoldable pub expire_rows : List Reservation → Database → Database
expire_rows batch db = record db {
  reservations = update_where (λ r. among batch r.id) expire_row db.reservations;
  orders =
      update_where (λ o. among batch o.reservation_id && not (is_paid o.status))
        (λ o. record o { status = OrderStatus.failed }) db.orders;
}

-- Step 2: the quantities by sale, in the order in which the sales come up.
unfoldable pub add_to_group : ℕ → ℕ → List (ℕ × ℕ) → List (ℕ × ℕ)
add_to_group sale_id quantity [] = (sale_id, quantity) ∷ []
add_to_group sale_id quantity ((s, q) ∷ groups) =
    let rest = add_to_group sale_id quantity groups in
    if s == sale_id then (s, q + quantity) ∷ groups else (s, q) ∷ rest

unfoldable pub group_by_sale : List (ℕ × ℕ) → List Reservation → List (ℕ × ℕ)
unfolding add_to_group
group_by_sale groups [] = groups
group_by_sale groups (r ∷ batch) = group_by_sale (add_to_group r.sale_id r.quantity groups) batch

-- Step 6: one UPDATE for each sale.
unfoldable pub drop_groups : List (ℕ × ℕ) → Database → Outcome Database
drop_groups [] db = done db
drop_groups ((s, q) ∷ groups) db = elim (update_inventory s (drop_reserved q) db) [
  | raised ↦ raised
  | done db' ↦ drop_groups groups db'
]

-- The transaction of `_expire_batch`.
unfoldable pub expire_transaction : List Reservation → Database → Outcome Database
unfolding expire_rows group_by_sale
expire_transaction batch db = drop_groups (group_by_sale [] batch) (expire_rows batch db)

-- sale_status_map.get(sale_id) == "active"
unfoldable pub sale_is_active : Database → ℕ → Bool
sale_is_active db sale_id = elim (first (λ (s : Sale). s.id == sale_id) db.sales) [
  | none ↦ false
  | some s ↦ is_active_sale s.status
]

module _ (C : KeyStore ℕ ℤ) (H : ExpiringStore ℕ Hold) where
  -- Step 7: `reachable` says for each reservation whether the call of Redis came through; one that
  -- raises is logged and passed over.
  unfoldable pub release_batch :
      ℕ → (ℕ → Bool) → (ℕ → Bool) → List Reservation → Stock C H → Stock C H
  release_batch now active reachable [] st = st
  release_batch now active reachable (r ∷ batch) st = release_batch now active reachable batch (
      if active r.sale_id && reachable r.id
      then release_inventory C H now r.sale_id r.id r.quantity st
      else st)

  -- `_expire_batch`; an exception of the transaction leaves everything as it was.
  unfoldable pub expire_batch :
      ℕ → (ℕ → Bool) → (ℕ → Bool) → Database → Stock C H → Outcome (ℕ × Database × Stock C H)
  expire_batch now locked reachable db st =
      let batch = fetch_batch now locked db.reservations in
      if length batch == 0 then done (0, db, st) else elim (expire_transaction batch db) [
        | raised ↦ raised
        | done db' ↦
            done (length batch, db', release_batch now (sale_is_active db) reachable batch st)
      ]

  -- `expire_reservations` on fuel: the total, or `none` where the fuel ran out.
  unfoldable pub expire_reservations :
      ℕ
      → ℕ
      → (ℕ → Bool)
      → (ℕ → Bool)
      → ℕ
      → Database
      → Stock C H
      → Option (Outcome (ℕ × Database × Stock C H))
  expire_reservations zero now locked reachable total db st = none
  expire_reservations (suc fuel) now locked reachable total db st =
      elim (expire_batch now locked reachable db st) [
        | raised ↦ some raised
        | done (count, db', st') ↦ elim (ltb count batch_size) [
          | true ↦ some (done (total + count, db', st'))
          | false ↦ expire_reservations fuel now locked reachable (total + count) db' st'
        ]
      ]

-- `expire_sales`: active sales that have ended; with the number of rows that the UPDATE reports.
unfoldable pub expire_sales : ℕ → Database → ℕ × Database
expire_sales now db =
    let ended : Sale → Bool = λ s. is_active_sale s.status && ltb s.ends_at now in
    (
      count_where ended db.sales,
      record db {
        sales = update_where ended (λ s. record s { status = SaleStatus.completed }) db.sales;
      },
    )

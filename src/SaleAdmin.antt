-- ===== src/SaleAdmin.antt =====
-- The calls that change a sale: backend/app/routers/admin.py and backend/app/routers/sales.py, the
-- registry of backend/app/workers/admission_worker.py, and `activate_scheduled_sales` of
-- backend/app/workers/expiry_worker.py. A call runs at one time `now`; `redis_up` says whether its
-- calls of Redis come through. Titles, descriptions and the reason of an adjustment are left out.
pub mod Lifecycle
pub mod Resize
pub mod Kept
pub mod Reports
use flux_kart.Prelude.{
  ℕ, ◌+◌, ◌-◌, Bool, true, false, Option, none, some, List, [], ◌∷◌, ◌==◌, ltb, leb, not, ◌&&◌,
  ◌||◌, if◌then◌else◌, select, update_where, first,
}
use flux_kart.Prelude.Int.{ℤ, pos, ◌+ℤ◌, ◌-ℤ◌, ltb_ℤ, pos_part, neg_part}
use flux_kart.Redis.{KeyStore, ExpiringStore, SortedSets}
use flux_kart.Inventory.{Hold, Stock, or_zero, initialize_inventory}
use flux_kart.Db.{SaleStatus, Sale, InventoryRow, Database, Outcome, done, raised, is_active_sale}
use flux_kart.Db.Inventory.{available, get_inventory, update_inventory}
use flux_kart.Db.Sales.{
  SaleData, get_sale_by_id, update_sale_status, create_sale, admin_update_sale, admin_delete_sale,
  with_total,
}
use flux_kart.Admission.{Preregistration}

pub data Answer : Type 0 where
  success bad_request_400 not_found_404 server_error_500 : Answer

abbrev pub is_scheduled : SaleStatus → Bool
is_scheduled SaleStatus.scheduled = true
is_scheduled _ = false

abbrev pub is_paused : SaleStatus → Bool
is_paused SaleStatus.paused = true
is_paused _ = false

abbrev pub is_completed : SaleStatus → Bool
is_completed SaleStatus.completed = true
is_completed _ = false

-- `_active_workers`: the sales whose task has not ended.
abbrev pub runs_for : List ℕ → ℕ → Bool
runs_for [] sale_id = false
runs_for (s ∷ workers) sale_id = s == sale_id || runs_for workers sale_id

unfoldable pub start_admission_worker : ℕ → List ℕ → List ℕ
start_admission_worker sale_id workers =
    if runs_for workers sale_id then workers else sale_id ∷ workers

unfoldable pub stop_admission_worker : ℕ → List ℕ → List ℕ
stop_admission_worker sale_id workers = select (λ s. not (s == sale_id)) workers

pub record Shop (C : KeyStore ℕ ℤ) (H : ExpiringStore ℕ Hold) (Q : SortedSets ℕ ℕ) : Type 0 where
  pub db : Database
  pub preregistrations : List Preregistration
  pub stock : Stock C H
  pub waiting : Q.Db
  pub workers : List ℕ

module _ (C : KeyStore ℕ ℤ) (H : ExpiringStore ℕ Hold) (Q : SortedSets ℕ ℕ) where
  -- The `try` blocks around one call of Redis.
  try_set : Bool → ℕ → ℤ → Stock C H → Stock C H
  try_set false sale_id v st = st
  try_set true sale_id v (c, h) = (C.set c sale_id v, h)

  -- INCRBY or DECRBY
  try_move : Bool → ℕ → ℤ → Stock C H → Stock C H
  try_move false sale_id d st = st
  try_move true sale_id d (c, h) = (
    C.set c sale_id (
        if ltb 0 (pos_part d)
        then or_zero (C.get c sale_id) +ℤ pos (pos_part d)
        else or_zero (C.get c sale_id) -ℤ pos (neg_part d)),
    h,
  )

  try_clear : Bool → ℕ → Shop C H Q → Shop C H Q
  try_clear false sale_id w = w
  try_clear true sale_id w = record w {
    stock = (C.del w.stock.0 sale_id, w.stock.1);
    waiting = Q.del w.waiting sale_id;
  }

  -- POST /admin/sales
  unfoldable pub admin_create_sale : Bool → ℕ → ℕ → SaleData → Shop C H Q → Answer × Shop C H Q
  unfolding try_set
  admin_create_sale redis_up now id d w =
      let initial_status =
        if leb d.starts_at now then SaleStatus.active else SaleStatus.scheduled in
      if leb d.original_price d.sale_price || leb d.ends_at d.starts_at
      then (bad_request_400, w)
      else elim (create_sale id d w.db) [
        | raised ↦ (server_error_500, w)
        | done db ↦ (
          success,
          record w {
            db = update_sale_status id initial_status db;
            stock = try_set (redis_up && leb d.starts_at now) id (pos d.total_quantity) w.stock;
          },
        )
      ]

  -- PUT /admin/sales/{sale_id}; the dates are not compared here.
  unfoldable pub edit_sale : Bool → ℕ → SaleData → Shop C H Q → Answer × Shop C H Q
  unfolding try_move
  edit_sale redis_up sale_id d w = elim (get_sale_by_id sale_id w.db) [
    | none ↦ (not_found_404, w)
    | some (sale, i) ↦
        if is_completed sale.status || leb d.original_price d.sale_price
        then (bad_request_400, w)
        else elim (admin_update_sale sale_id d w.db) [
          | raised ↦ (server_error_500, w)
          | done db ↦ (
            success,
            record w {
              db = db;
              stock =
                  if d.total_quantity == i.total_quantity
                  then w.stock
                  else try_move redis_up sale_id (pos d.total_quantity -ℤ pos i.total_quantity)
                      w.stock;
            },
          )
        ]
  ]

  -- DELETE /admin/sales/{sale_id}
  unfoldable pub delete_sale : Bool → ℕ → Shop C H Q → Answer × Shop C H Q
  unfolding try_clear
  delete_sale redis_up sale_id w = elim (get_sale_by_id sale_id w.db) [
    | none ↦ (not_found_404, w)
    | some (sale, i) ↦
        let (deleted, db) = admin_delete_sale sale_id w.db in
        let w' = record w {
          db = db;
          preregistrations = select (λ p. not (p.sale_id == sale_id)) w.preregistrations;
        } in
        if is_active_sale sale.status
        then (bad_request_400, w)
        else if deleted
        then (success, try_clear redis_up sale_id w')
        else (not_found_404, w')
  ]

  -- POST /admin/sales/{sale_id}/activate
  unfoldable pub activate_sale : Bool → ℕ → ℕ → Shop C H Q → Answer × Shop C H Q
  unfolding try_set
  activate_sale redis_up now sale_id w = elim (get_sale_by_id sale_id w.db) [
    | none ↦ (not_found_404, w)
    | some (sale, i) ↦
        if is_scheduled sale.status
        then if ltb sale.ends_at now then (bad_request_400, w) else (
          success,
          record w {
            db = update_sale_status sale_id SaleStatus.active w.db;
            stock = try_set redis_up sale_id (pos (available i)) w.stock;
            workers = start_admission_worker sale_id w.workers;
          },
        )
        else (bad_request_400, w)
  ]

  -- POST /admin/sales/{sale_id}/pause
  unfoldable pub pause_sale : ℕ → Shop C H Q → Answer × Shop C H Q
  pause_sale sale_id w = elim (get_sale_by_id sale_id w.db) [
    | none ↦ (not_found_404, w)
    | some (sale, i) ↦
        if is_active_sale sale.status
        then (
          success,
          record w {
            db = update_sale_status sale_id SaleStatus.paused w.db;
            workers = stop_admission_worker sale_id w.workers;
          },
        )
        else (bad_request_400, w)
  ]

  -- POST /admin/sales/{sale_id}/resume
  unfoldable pub resume_sale : ℕ → Shop C H Q → Answer × Shop C H Q
  resume_sale sale_id w = elim (get_sale_by_id sale_id w.db) [
    | none ↦ (not_found_404, w)
    | some (sale, i) ↦
        if is_paused sale.status
        then (
          success,
          record w {
            db = update_sale_status sale_id SaleStatus.active w.db;
            workers = start_admission_worker sale_id w.workers;
          },
        )
        else (bad_request_400, w)
  ]

  -- POST /admin/sales/{sale_id}/complete
  unfoldable pub complete_sale : Bool → ℕ → Shop C H Q → Answer × Shop C H Q
  unfolding try_clear
  complete_sale redis_up sale_id w = elim (get_sale_by_id sale_id w.db) [
    | none ↦ (not_found_404, w)
    | some _ ↦ (
      success,
      try_clear redis_up sale_id (record w {
        db = update_sale_status sale_id SaleStatus.completed w.db;
        workers = stop_admission_worker sale_id w.workers;
      }),
    )
  ]

  -- POST /admin/sales/{sale_id}/adjust-inventory
  unfoldable pub adjust_inventory : Bool → ℕ → ℤ → Shop C H Q → Answer × Shop C H Q
  unfolding try_move
  adjust_inventory redis_up sale_id adjustment w = elim (get_sale_by_id sale_id w.db) [
    | none ↦ (not_found_404, w)
    | some (sale, i) ↦
        let new_total = pos i.total_quantity +ℤ adjustment in
        if ltb_ℤ new_total (pos 0)
        then (bad_request_400, w)
        else elim (update_inventory sale_id (with_total (pos_part new_total)) w.db) [
          | raised ↦ (server_error_500, w)
          | done db ↦
              (success, record w { db = db; stock = try_move redis_up sale_id adjustment w.stock })
        ]
  ]

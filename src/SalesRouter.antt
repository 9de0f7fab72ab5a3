-- ===== src/SalesRouter.antt =====
-- backend/app/routers/sales.py: sales as every signed-in user may call them, and preregistration. The
-- bodies of the requests have passed their validation. Unlike the calls of the administrator, a
-- failing Redis is not caught here.
pub mod Kept
use flux_kart.Prelude.{ℕ, ◌+◌, Bool, true, false, Option, none, some, if◌then◌else◌}
use flux_kart.Prelude.Int.{ℤ}
use flux_kart.Redis.{KeyStore, ExpiringStore, SortedSets}
use flux_kart.Inventory.{Hold, initialize_inventory}
use flux_kart.Db.{SaleStatus, InventoryRow, done, raised}
use flux_kart.Db.Sales.{SaleData, get_sale_by_id, update_sale_status, create_sale}
use flux_kart.QueueService.{present}
use flux_kart.Admission.{get_preregistration, create_preregistration, get_preregistration_count}
use flux_kart.SaleAdmin.{
  Answer, success, bad_request_400, not_found_404, server_error_500, Shop, is_completed,
  start_admission_worker, stop_admission_worker,
}

module _ (C : KeyStore ℕ ℤ) (H : ExpiringStore ℕ Hold) (Q : SortedSets ℕ ℕ) where
  -- POST /sales
  unfoldable pub post_sale : Bool → ℕ → SaleData → Shop C H Q → Answer × Shop C H Q
  post_sale redis_up id d w = elim (create_sale id d w.db) [
    | raised ↦ (server_error_500, w)
    | done db ↦
        if redis_up
        then (
          success,
          record w { db = db; stock = initialize_inventory C H id d.total_quantity 0 w.stock },
        )
        else (server_error_500, record w { db = db })
  ]

  -- The end of PATCH /sales/{sale_id}/status, on the sale as it is read back; its row of the inventory
  -- gives both the total and what is taken.
  patched : Bool → ℕ → SaleStatus → InventoryRow → Shop C H Q → Answer × Shop C H Q
  patched true sale_id SaleStatus.active i w = (
    success,
    record w {
      stock =
          initialize_inventory C H sale_id i.total_quantity (i.reserved_quantity + i.sold_quantity)
            w.stock;
      workers = start_admission_worker sale_id w.workers;
    },
  )
  patched false sale_id SaleStatus.active i w = (server_error_500, w)
  patched redis_up sale_id SaleStatus.scheduled i w = (success, w)
  patched redis_up sale_id SaleStatus.paused i w =
      (success, record w { workers = stop_admission_worker sale_id w.workers })
  patched redis_up sale_id SaleStatus.completed i w =
      (success, record w { workers = stop_admission_worker sale_id w.workers })

  -- The new status is any text: `none` is one that the CHECK of the table refuses.
  unfoldable pub patch_sale_status : Bool → ℕ → Option SaleStatus → Shop C H Q → Answer × Shop C H Q
  unfolding patched
  patch_sale_status redis_up sale_id none w = elim (get_sale_by_id sale_id w.db) [
    | none ↦ (not_found_404, w)
    | some _ ↦ (server_error_500, w)
  ]
  patch_sale_status redis_up sale_id (some new_status) w = elim (get_sale_by_id sale_id w.db) [
    | none ↦ (not_found_404, w)
    | some (sale, i) ↦
        patched redis_up sale_id new_status i
          (record w { db = update_sale_status sale_id new_status w.db })
  ]

  -- POST /sales/{sale_id}/preregister, with the number of those registered.
  unfoldable pub preregister_for_sale : ℕ → ℕ → Shop C H Q → (Answer × ℕ) × Shop C H Q
  preregister_for_sale user_id sale_id w = elim (get_sale_by_id sale_id w.db) [
    | none ↦ ((not_found_404, 0), w)
    | some (sale, i) ↦
        if is_completed sale.status
        then ((bad_request_400, 0), w)
        else elim (get_preregistration user_id sale_id w.preregistrations) [
          | some _ ↦ ((success, get_preregistration_count sale_id w.preregistrations), w)
          | none ↦ elim (create_preregistration user_id sale_id w.preregistrations) [
            | raised ↦ ((server_error_500, 0), w)
            | done (p, rows) ↦ (
              (success, get_preregistration_count sale_id rows),
              record w { preregistrations = rows },
            )
          ]
        ]
  ]

-- GET /sales/{sale_id}/admission-status: whether the user is admitted, and for how many seconds.
unfoldable pub get_admission_status : (A : ExpiringStore (ℕ × ℕ) ℕ) → ℕ → ℕ → ℕ → A.Db → Bool × ℕ
get_admission_status A now sale_id user_id tokens =
    let admitted = present (A.get tokens now (sale_id, user_id)) in
    (admitted, if admitted then A.ttl tokens now (sale_id, user_id) else 0)

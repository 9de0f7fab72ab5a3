-- ===== src/Bodies/Prices/Ends.antt =====
-- How a call on one sale leaves the table of sales: as it was, or as one statement writes it.
use flux_kart.Prelude.{
  ℕ, ◌≡◌, sym, Bool, true, false, some, ◌⊎◌, inl, inr, arith, ltb, not, ◌&&◌, Bool-cases,
  Option-cases,
}
use mathlib.Core.Path.{subst}
use flux_kart.Prelude.Int.{ℤ}
use flux_kart.Redis.{KeyStore, ExpiringStore, SortedSets}
use flux_kart.Inventory.{Hold}
use flux_kart.Db.{SaleStatus, Database, is_active_sale}
use flux_kart.Db.Sales.{get_sale_by_id, update_sale_status, admin_delete_sale}
use flux_kart.SaleAdmin.{
  Answer, Shop, is_paused, is_scheduled, delete_sale, activate_sale, pause_sale, resume_sale,
  complete_sale,
}
use flux_kart.SalesRouter.{patch_sale_status}
use flux_kart.Bodies.Prices.{IsReduced}

module _ (C : KeyStore ℕ ℤ) (H : ExpiringStore ℕ Hold) (Q : SortedSets ℕ ℕ) where
  -- A call leaves the sales, or ends with those of `db`.
  unfoldable pub Ends : Shop C H Q → Answer × Shop C H Q → Database → Type 0
  Ends w out db = (out.1.db.sales ≡ w.db.sales) ⊎ (out.1.db.sales ≡ db.sales)

  pub ends :
      (w : Shop C H Q) (out : Answer × Shop C H Q) (db : Database)
      → IsReduced w.db.sales
      → IsReduced db.sales
      → Ends w out db
      → IsReduced out.1.db.sales
  unfolding Ends
  ends w out db h h' (inl same) = subst IsReduced (sym same) h
  ends w out db h h' (inr written) = subst IsReduced (sym written) h'

  pub pause-Ends :
      (s : ℕ) (w : Shop C H Q)
      → Ends w (pause_sale C H Q s w) (update_sale_status s SaleStatus.paused w.db)
  unfolding pause_sale Ends
  pause-Ends s w = elim (Option-cases (get_sale_by_id s w.db)) [
    | inl missing ↦ inl (ground arith)
    | inr ((sale, i), there) ↦ elim (Bool-cases (is_active_sale sale.status)) [
      | inl runs ↦ inr (ground arith)
      | inr idle ↦ inl (ground arith)
    ]
  ]

  pub resume-Ends :
      (s : ℕ) (w : Shop C H Q)
      → Ends w (resume_sale C H Q s w) (update_sale_status s SaleStatus.active w.db)
  unfolding resume_sale Ends
  resume-Ends s w = elim (Option-cases (get_sale_by_id s w.db)) [
    | inl missing ↦ inl (ground arith)
    | inr ((sale, i), there) ↦ elim (Bool-cases (is_paused sale.status)) [
      | inl waits ↦ inr (ground arith)
      | inr other ↦ inl (ground arith)
    ]
  ]

  pub activate-Ends :
      (up : Bool) (now s : ℕ) (w : Shop C H Q)
      → Ends w (activate_sale C H Q up now s w) (update_sale_status s SaleStatus.active w.db)
  unfolding activate_sale Ends
  activate-Ends up now s w = elim (Option-cases (get_sale_by_id s w.db)) [
    | inl missing ↦ inl (ground arith)
    | inr ((sale, i), there) ↦
        elim (Bool-cases (is_scheduled sale.status && not (ltb sale.ends_at now))) [
          | inl due ↦ inr (ground arith)
          | inr other ↦ inl (ground arith)
        ]
  ]

  pub complete-Ends :
      (up : Bool) (s : ℕ) (w : Shop C H Q)
      → Ends w (complete_sale C H Q up s w) (update_sale_status s SaleStatus.completed w.db)
  unfolding complete_sale Ends
  complete-Ends true s w = elim (Option-cases (get_sale_by_id s w.db)) [
    | inl missing ↦ inl (ground arith)
    | inr ((sale, i), there) ↦ inr (ground arith)
  ]
  complete-Ends false s w = elim (Option-cases (get_sale_by_id s w.db)) [
    | inl missing ↦ inl (ground arith)
    | inr ((sale, i), there) ↦ inr (ground arith)
  ]

  pub delete-Ends :
      (up : Bool) (s : ℕ) (w : Shop C H Q)
      → Ends w (delete_sale C H Q up s w) (admin_delete_sale s w.db).1
  unfolding delete_sale Ends
  delete-Ends true s w = elim (Option-cases (get_sale_by_id s w.db)) [
    | inl missing ↦ inl (ground arith)
    | inr ((sale, i), there) ↦ elim (Bool-cases (is_active_sale sale.status)) [
      | inl runs ↦ inl (ground arith)
      | inr idle ↦ inr (ground arith)
    ]
  ]
  delete-Ends false s w = elim (Option-cases (get_sale_by_id s w.db)) [
    | inl missing ↦ inl (ground arith)
    | inr ((sale, i), there) ↦ elim (Bool-cases (is_active_sale sale.status)) [
      | inl runs ↦ inl (ground arith)
      | inr idle ↦ inr (ground arith)
    ]
  ]

  pub patch-Ends :
      (up : Bool) (k : ℕ) (t : SaleStatus) (w : Shop C H Q)
      → Ends w (patch_sale_status C H Q up k (some t) w) (update_sale_status k t w.db)
  unfolding patch_sale_status Ends
  patch-Ends true k t w = elim (Option-cases (get_sale_by_id k w.db)) [
    | inl missing ↦ inl (ground arith)
    | inr ((sale, i), there) ↦ inr (ground arith)
  ]
  patch-Ends false k t w = elim (Option-cases (get_sale_by_id k w.db)) [
    | inl missing ↦ inl (ground arith)
    | inr ((sale, i), there) ↦ inr (ground arith)
  ]

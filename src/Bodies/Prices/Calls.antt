-- ===== src/Bodies/Prices/Calls.antt =====
-- The prices of sales over the calls.
use flux_kart.Prelude.{
  ℕ, ◌≡◌, sym, Bool, true, some, List, [], ◌∷◌, inl, inr, arith, leb, ◌||◌, if◌then◌else◌,
  Bool-cases, Option-cases,
}
use mathlib.Core.Path.{subst}
use flux_kart.Prelude.Int.{ℤ}
use flux_kart.Redis.{KeyStore, ExpiringStore, SortedSets}
use flux_kart.Inventory.{Hold}
use flux_kart.Db.{SaleStatus, Database, Outcome-cases}
use flux_kart.Db.Inventory.{update_inventory}
use flux_kart.Db.Sales.{
  SaleData, get_sale_by_id, update_sale_status, create_sale, admin_update_sale, admin_delete_sale,
}
use flux_kart.SaleAdmin.{
  Shop, is_completed, admin_create_sale, edit_sale, delete_sale, activate_sale, pause_sale,
  resume_sale, complete_sale, adjust_inventory,
}
use flux_kart.SaleAdmin.Lifecycle.Calls.{
  AdminCall, create_call, edit_call, delete_call, complete_call, pause_call, resume_call,
  activate_call, adjust_call, handle,
}
use flux_kart.SalesRouter.{post_sale, patch_sale_status}
use flux_kart.Bodies.Prices.{
  IsReduced, update_sale_status-IsReduced, create_sale-IsReduced, admin_update_sale-IsReduced,
  admin_delete_sale-IsReduced,
}
use flux_kart.Bodies.{SaleCreate, sale_create_valid}
use flux_kart.Bodies.Prices.Ends.{
  ends, pause-Ends, resume-Ends, activate-Ends, complete-Ends, delete-Ends, patch-Ends,
}

module _ (C : KeyStore ℕ ℤ) (H : ExpiringStore ℕ Hold) (Q : SortedSets ℕ ℕ) where
  adjust-sales :
      (up : Bool) (s : ℕ) (a : ℤ) (w : Shop C H Q)
      → (adjust_inventory C H Q up s a w).1.db.sales ≡ w.db.sales
  unfolding adjust_inventory update_inventory
  adjust-sales up s a w = ground arith

  edit-IsReduced :
      (up : Bool) (s : ℕ) (d : SaleData) (w : Shop C H Q)
      → IsReduced w.db.sales
      → IsReduced (edit_sale C H Q up s d w).1.db.sales
  unfolding edit_sale
  edit-IsReduced up s d w h =
      let out = edit_sale C H Q up s d w in
      let idle : out.1.db ≡ w.db → IsReduced out.1.db.sales =
        λ e. subst (λ (db : Database). IsReduced db.sales) (sym e) h in
      elim (Option-cases (get_sale_by_id s w.db)) [
        | inl missing ↦ idle (ground (arith, missing))
        | inr ((sale, i), there) ↦
            elim (Bool-cases (is_completed sale.status || leb d.original_price d.sale_price)) [
              | inl bad ↦ idle (ground (arith, there, bad))
              | inr fine ↦ elim (Outcome-cases (admin_update_sale s d w.db)) [
                | inl fails ↦ idle (ground (arith, there, fine, fails))
                | inr (db, e) ↦
                    let gone : db ≡ out.1.db = ground (arith, there, fine, e) in
                    subst (λ (x : Database). IsReduced x.sales) gone
                      (admin_update_sale-IsReduced s d w.db db (ground (arith, fine)) e h)
              ]
            ]
      ]

  create-IsReduced :
      (up : Bool) (now id : ℕ) (d : SaleData) (w : Shop C H Q)
      → IsReduced w.db.sales
      → IsReduced (admin_create_sale C H Q up now id d w).1.db.sales
  unfolding admin_create_sale
  create-IsReduced up now id d w h =
      let out = admin_create_sale C H Q up now id d w in
      let idle : out.1.db ≡ w.db → IsReduced out.1.db.sales =
        λ e. subst (λ (db : Database). IsReduced db.sales) (sym e) h in
      let status = if leb d.starts_at now then SaleStatus.active else SaleStatus.scheduled in
      elim (Bool-cases (leb d.original_price d.sale_price || leb d.ends_at d.starts_at)) [
        | inl bad ↦ idle (ground (arith, bad))
        | inr fine ↦ elim (Outcome-cases (create_sale id d w.db)) [
          | inl fails ↦ idle (ground (arith, fine, fails))
          | inr (db, e) ↦
              let gone : update_sale_status id status db ≡ out.1.db = ground (arith, fine, e) in
              subst (λ (x : Database). IsReduced x.sales) gone
                (update_sale_status-IsReduced id status db
                  (create_sale-IsReduced id d w.db db (ground (arith, fine)) e h))
        ]
      ]

  handle-IsReduced :
      (up : Bool) (call : AdminCall) (w : Shop C H Q)
      → IsReduced w.db.sales
      → IsReduced (handle C H Q up call w).1.db.sales
  unfolding handle
  handle-IsReduced up (create_call now id d) w h = create-IsReduced up now id d w h
  handle-IsReduced up (edit_call s d) w h = edit-IsReduced up s d w h
  handle-IsReduced up (delete_call s) w h =
      ends C H Q w (delete_sale C H Q up s w) (admin_delete_sale s w.db).1 h
        (admin_delete_sale-IsReduced s w.db h) (delete-Ends C H Q up s w)
  handle-IsReduced up (adjust_call s a) w h = subst IsReduced (sym (adjust-sales up s a w)) h
  handle-IsReduced up (activate_call now s) w h =
      ends C H Q w (activate_sale C H Q up now s w) (update_sale_status s SaleStatus.active w.db) h
        (update_sale_status-IsReduced s SaleStatus.active w.db h) (activate-Ends C H Q up now s w)
  handle-IsReduced up (pause_call s) w h =
      ends C H Q w (pause_sale C H Q s w) (update_sale_status s SaleStatus.paused w.db) h
        (update_sale_status-IsReduced s SaleStatus.paused w.db h) (pause-Ends C H Q s w)
  handle-IsReduced up (resume_call s) w h =
      ends C H Q w (resume_sale C H Q s w) (update_sale_status s SaleStatus.active w.db) h
        (update_sale_status-IsReduced s SaleStatus.active w.db h) (resume-Ends C H Q s w)
  handle-IsReduced up (complete_call s) w h =
      ends C H Q w (complete_sale C H Q up s w) (update_sale_status s SaleStatus.completed w.db) h
        (update_sale_status-IsReduced s SaleStatus.completed w.db h) (complete-Ends C H Q up s w)

  post-IsReduced :
      (up : Bool) (id : ℕ) (body : SaleCreate) (w : Shop C H Q)
      → sale_create_valid body ≡ true
      → IsReduced w.db.sales
      → IsReduced (post_sale C H Q up id body.sale w).1.db.sales
  unfolding post_sale sale_create_valid
  post-IsReduced up id body w valid h = elim (Outcome-cases (create_sale id body.sale w.db)) [
    | inl fails ↦
        let same : w.db ≡ (post_sale C H Q up id body.sale w).1.db = ground (arith, fails) in
        subst (λ (x : Database). IsReduced x.sales) same h
    | inr (db, e) ↦
        let same : db ≡ (post_sale C H Q up id body.sale w).1.db = ground (arith, e) in
        subst (λ (x : Database). IsReduced x.sales) same
          (create_sale-IsReduced id body.sale w.db db (ground arith) e h)
  ]

-- The calls that write a sale: the administrator's, and the two of backend/app/routers/sales.py.
pub data SaleCall : Type 0 where
  administer : AdminCall → SaleCall
  post : ℕ → SaleCreate → SaleCall
  patch : ℕ → SaleStatus → SaleCall

module _ (C : KeyStore ℕ ℤ) (H : ExpiringStore ℕ Hold) (Q : SortedSets ℕ ℕ) where
  -- A body that is not valid does not reach its handler.
  unfoldable pub call_sale : Bool → SaleCall → Shop C H Q → Shop C H Q
  call_sale up (administer call) w = (handle C H Q up call w).1
  call_sale up (post id body) w =
      if sale_create_valid body then (post_sale C H Q up id body.sale w).1 else w
  call_sale up (patch id t) w = (patch_sale_status C H Q up id (some t) w).1

  unfoldable pub call_sales : List (Bool × SaleCall) → Shop C H Q → Shop C H Q
  call_sales [] w = w
  call_sales ((up, call) ∷ calls) w = call_sales calls (call_sale up call w)

  call_sale-IsReduced :
      (up : Bool) (call : SaleCall) (w : Shop C H Q)
      → IsReduced w.db.sales
      → IsReduced (call_sale up call w).db.sales
  unfolding call_sale
  call_sale-IsReduced up (administer call) w h = handle-IsReduced C H Q up call w h
  call_sale-IsReduced up (post id body) w h = elim (Bool-cases (sale_create_valid body)) [
    | inl valid ↦ rw valid (post-IsReduced C H Q up id body w valid h)
    | inr bad ↦ rw bad h
  ]
  call_sale-IsReduced up (patch id t) w h =
      ends C H Q w (patch_sale_status C H Q up id (some t) w) (update_sale_status id t w.db) h
        (update_sale_status-IsReduced id t w.db h) (patch-Ends C H Q up id t w)

  -- With prices in whole cents, if every sale costs less than its original price, it stays so over
  -- any sequence of calls that write sales, whoever makes them, whatever their bodies and whether
  -- Redis is reached or not.
  pub call_sales-IsReduced :
      (calls : List (Bool × SaleCall)) (w : Shop C H Q)
      → IsReduced w.db.sales
      → IsReduced (call_sales calls w).db.sales
  unfolding call_sales
  call_sales-IsReduced [] w h = h
  call_sales-IsReduced ((up, call) ∷ calls) w h =
      call_sales-IsReduced calls (call_sale up call w) (call_sale-IsReduced up call w h)

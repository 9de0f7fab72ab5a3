-- ===== src/SaleAdmin/Lifecycle/Changes.antt =====
-- The calls that set the status of a sale, and the deletion.
use flux_kart.Prelude.{
  ℕ, ◌≡◌, refl, sym, Bool, true, false, arith, ◌==◌, ltb, not, ◌&&◌, select, Bool-cases,
  Option-cases, inl, inr,
}
use mathlib.Core.Path.{subst}
use flux_kart.Prelude.Int.{ℤ, pos}
use flux_kart.Redis.{KeyStore, ExpiringStore, SortedSets}
use flux_kart.Inventory.{Hold}
use flux_kart.Db.{SaleStatus, is_active_sale}
use flux_kart.Db.Inventory.{available}
use flux_kart.Db.Sales.{get_sale_by_id, update_sale_status, admin_delete_sale}
use flux_kart.SaleAdmin.{
  Answer, success, bad_request_400, not_found_404, Shop, is_scheduled, is_paused, try_clear,
  try_set, start_admission_worker, stop_admission_worker, delete_sale, activate_sale, pause_sale,
  resume_sale, complete_sale,
}
use flux_kart.SaleAdmin.Lifecycle.{
  status_of, Moves, stays, completes, status_of-get_sale_by_id, set-Moves, pauses-active,
  resumes-paused, activates-scheduled, delete-Moves,
}

module _ (C : KeyStore ℕ ℤ) (H : ExpiringStore ℕ Hold) (Q : SortedSets ℕ ℕ) where
  abbrev pub Kept : ℕ → Shop C H Q → Answer × Shop C H Q → Type 0
  Kept k w x = Moves (status_of k w.db.sales) (status_of k x.1.db.sales)

  -- A call that ends as `y` with other tables.
  pub ends : (k : ℕ) (w : Shop C H Q) (x y : Answer × Shop C H Q) → x ≡ y → Kept k w y → Kept k w x
  ends k w x y e m = subst (Kept k w) (sym e) m

  try_clear-db : (b : Bool) (s : ℕ) (w : Shop C H Q) → (try_clear C H Q b s w).db ≡ w.db
  unfolding try_clear
  try_clear-db false s w = refl
  try_clear-db true s w = refl

  pub pause-Moves : (s k : ℕ) (w : Shop C H Q) → Kept k w (pause_sale C H Q s w)
  unfolding pause_sale
  pause-Moves s k w = elim (Option-cases (get_sale_by_id s w.db)) [
    | inl missing ↦
        ends k w (pause_sale C H Q s w) (not_found_404, w) (ground (arith, missing))
          (stays (status_of k w.db.sales))
    | inr ((sale, i), there) ↦
        let found = status_of-get_sale_by_id s sale i w.db there in
        elim (Bool-cases (is_active_sale sale.status)) [
          | inl runs ↦
              ends k w (pause_sale C H Q s w)
                (
                  success,
                  record w {
                    db = update_sale_status s SaleStatus.paused w.db;
                    workers = stop_admission_worker s w.workers;
                  },
                )
                (ground (arith, there, runs))
                (set-Moves k s SaleStatus.paused sale.status w.db found
                  (pauses-active sale.status runs))
          | inr other ↦
              ends k w (pause_sale C H Q s w) (bad_request_400, w) (ground (arith, there, other))
                (stays (status_of k w.db.sales))
        ]
  ]

  pub resume-Moves : (s k : ℕ) (w : Shop C H Q) → Kept k w (resume_sale C H Q s w)
  unfolding resume_sale
  resume-Moves s k w = elim (Option-cases (get_sale_by_id s w.db)) [
    | inl missing ↦
        ends k w (resume_sale C H Q s w) (not_found_404, w) (ground (arith, missing))
          (stays (status_of k w.db.sales))
    | inr ((sale, i), there) ↦
        let found = status_of-get_sale_by_id s sale i w.db there in
        elim (Bool-cases (is_paused sale.status)) [
          | inl waits ↦
              ends k w (resume_sale C H Q s w)
                (
                  success,
                  record w {
                    db = update_sale_status s SaleStatus.active w.db;
                    workers = start_admission_worker s w.workers;
                  },
                )
                (ground (arith, there, waits))
                (set-Moves k s SaleStatus.active sale.status w.db found
                  (resumes-paused sale.status waits))
          | inr other ↦
              ends k w (resume_sale C H Q s w) (bad_request_400, w) (ground (arith, there, other))
                (stays (status_of k w.db.sales))
        ]
  ]

  pub activate-Moves :
      (redis_up : Bool) (now s k : ℕ) (w : Shop C H Q)
      → Kept k w (activate_sale C H Q redis_up now s w)
  unfolding activate_sale
  activate-Moves redis_up now s k w = elim (Option-cases (get_sale_by_id s w.db)) [
    | inl missing ↦
        ends k w (activate_sale C H Q redis_up now s w) (not_found_404, w) (ground (arith, missing))
          (stays (status_of k w.db.sales))
    | inr ((sale, i), there) ↦
        let found = status_of-get_sale_by_id s sale i w.db there in
        elim (Bool-cases (is_scheduled sale.status && not (ltb sale.ends_at now))) [
          | inl due ↦
              ends k w (activate_sale C H Q redis_up now s w)
                (
                  success,
                  record w {
                    db = update_sale_status s SaleStatus.active w.db;
                    stock = try_set C H Q redis_up s (pos (available i)) w.stock;
                    workers = start_admission_worker s w.workers;
                  },
                )
                (ground (arith, there, due))
                (set-Moves k s SaleStatus.active sale.status w.db found
                  (activates-scheduled sale.status (ground (arith, due))))
          | inr other ↦
              ends k w (activate_sale C H Q redis_up now s w) (bad_request_400, w)
                (ground (arith, there, other)) (stays (status_of k w.db.sales))
        ]
  ]

  pub complete-Moves :
      (redis_up : Bool) (s k : ℕ) (w : Shop C H Q) → Kept k w (complete_sale C H Q redis_up s w)
  unfolding complete_sale
  complete-Moves redis_up s k w = elim (Option-cases (get_sale_by_id s w.db)) [
    | inl missing ↦
        ends k w (complete_sale C H Q redis_up s w) (not_found_404, w) (ground (arith, missing))
          (stays (status_of k w.db.sales))
    | inr ((sale, i), there) ↦
        let found = status_of-get_sale_by_id s sale i w.db there in
        let w' : Shop C H Q = record w {
          db = update_sale_status s SaleStatus.completed w.db;
          workers = stop_admission_worker s w.workers;
        } in
        ends k w (complete_sale C H Q redis_up s w) (success, try_clear C H Q redis_up s w')
          (ground (arith, there))
          (subst (λ db. Moves (status_of k w.db.sales) (status_of k db.sales))
            (sym (try_clear-db redis_up s w'))
            (set-Moves k s SaleStatus.completed sale.status w.db found (completes sale.status)))
  ]

  pub delete_sale-Moves :
      (redis_up : Bool) (s k : ℕ) (w : Shop C H Q) → Kept k w (delete_sale C H Q redis_up s w)
  unfolding delete_sale admin_delete_sale
  delete_sale-Moves redis_up s k w = elim (Option-cases (get_sale_by_id s w.db)) [
    | inl missing ↦
        ends k w (delete_sale C H Q redis_up s w) (not_found_404, w) (ground (arith, missing))
          (stays (status_of k w.db.sales))
    | inr ((sale, i), there) ↦
        let found = status_of-get_sale_by_id s sale i w.db there in
        let w' : Shop C H Q = record w {
          db = (admin_delete_sale s w.db).1;
          preregistrations = select (λ p. not (p.sale_id == s)) w.preregistrations;
        } in
        elim (Bool-cases (is_active_sale sale.status)) [
          | inl runs ↦
              ends k w (delete_sale C H Q redis_up s w) (bad_request_400, w)
                (ground (arith, there, runs)) (stays (status_of k w.db.sales))
          | inr idle ↦
              let moves = delete-Moves k s sale.status w.db.sales found idle in
              elim (Bool-cases (admin_delete_sale s w.db).0) [
                | inl one ↦
                    ends k w (delete_sale C H Q redis_up s w)
                      (success, try_clear C H Q redis_up s w') (ground (arith, there, idle, one))
                      (subst (λ db. Moves (status_of k w.db.sales) (status_of k db.sales))
                        (sym (try_clear-db redis_up s w')) moves)
                | inr none_or_more ↦
                    ends k w (delete_sale C H Q redis_up s w) (not_found_404, w')
                      (ground (arith, there, idle, none_or_more)) moves
              ]
        ]
  ]

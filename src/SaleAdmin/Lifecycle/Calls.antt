-- ===== src/SaleAdmin/Lifecycle/Calls.antt =====
-- The calls of the administrator as one type, and the lifecycle over them.
use flux_kart.Prelude.{ℕ, Bool}
use flux_kart.Prelude.Int.{ℤ}
use flux_kart.Redis.{KeyStore, ExpiringStore, SortedSets}
use flux_kart.Inventory.{Hold}
use flux_kart.Db.Sales.{SaleData}
use flux_kart.SaleAdmin.{
  Answer, Shop, admin_create_sale, edit_sale, delete_sale, activate_sale, pause_sale, resume_sale,
  complete_sale, adjust_inventory,
}
use flux_kart.SaleAdmin.Lifecycle.{status_of, Moves}
use flux_kart.SaleAdmin.Lifecycle.Changes.{
  pause-Moves, resume-Moves, activate-Moves, complete-Moves, delete_sale-Moves,
}
use flux_kart.SaleAdmin.Lifecycle.Edits.{adjust-Moves, edit-Moves, create-Moves}

-- The time of a call stands first where it has one.
pub data AdminCall : Type 0 where
  create_call : ℕ → ℕ → SaleData → AdminCall
  edit_call : ℕ → SaleData → AdminCall
  delete_call complete_call pause_call resume_call : ℕ → AdminCall
  activate_call : ℕ → ℕ → AdminCall
  adjust_call : ℕ → ℤ → AdminCall

module _ (C : KeyStore ℕ ℤ) (H : ExpiringStore ℕ Hold) (Q : SortedSets ℕ ℕ) where
  unfoldable pub handle : Bool → AdminCall → Shop C H Q → Answer × Shop C H Q
  handle redis_up (create_call now id d) w = admin_create_sale C H Q redis_up now id d w
  handle redis_up (edit_call s d) w = edit_sale C H Q redis_up s d w
  handle redis_up (delete_call s) w = delete_sale C H Q redis_up s w
  handle redis_up (activate_call now s) w = activate_sale C H Q redis_up now s w
  handle redis_up (pause_call s) w = pause_sale C H Q s w
  handle redis_up (resume_call s) w = resume_sale C H Q s w
  handle redis_up (complete_call s) w = complete_sale C H Q redis_up s w
  handle redis_up (adjust_call s a) w = adjust_inventory C H Q redis_up s a w

  -- Whatever call the administrator makes of whichever sale, and whether Redis can be reached or not,
  -- the status of every sale stays or makes one move of the lifecycle: it is created scheduled or
  -- active, activated from scheduled, paused from active, resumed from paused, completed from any
  -- status, or deleted while it is not active.
  pub handle-Moves :
      (redis_up : Bool) (call : AdminCall) (k : ℕ) (w : Shop C H Q)
      → Moves (status_of k w.db.sales) (status_of k (handle redis_up call w).1.db.sales)
  unfolding handle
  handle-Moves redis_up (create_call now id d) k w = create-Moves C H Q redis_up now id d k w
  handle-Moves redis_up (edit_call s d) k w = edit-Moves C H Q redis_up s d k w
  handle-Moves redis_up (delete_call s) k w = delete_sale-Moves C H Q redis_up s k w
  handle-Moves redis_up (activate_call now s) k w = activate-Moves C H Q redis_up now s k w
  handle-Moves redis_up (pause_call s) k w = pause-Moves C H Q s k w
  handle-Moves redis_up (resume_call s) k w = resume-Moves C H Q s k w
  handle-Moves redis_up (complete_call s) k w = complete-Moves C H Q redis_up s k w
  handle-Moves redis_up (adjust_call s a) k w = adjust-Moves C H Q redis_up s a k w

-- ===== src/Examples/Workers.antt =====
-- The workers on small tables: reconciliation, admission and heartbeats.
use flux_kart.Prelude.{
  ℕ, ◌≤◌, ◌≡◌, refl, true, none, some, List, [], ◌∷◌, arith, count_where, select,
}
use flux_kart.Prelude.Int.{ℤ, pos}
use flux_kart.Db.Sales.{is_sale}
use flux_kart.Reconciliation.{reconcile_inventory}
use flux_kart.Reconciliation.Sync.{in_sync, upcoming, always, reconcile_inventory-in_sync}
use flux_kart.Admission.{
  Preregistration, PreregistrationStatus, Interruption, at_row, at_select, run_admission_worker,
}
use flux_kart.Admission.Order.{admit_first}
use flux_kart.Admission.Batches.{admitted_in, run_admission_worker-admit_first}
use flux_kart.Heartbeat.{is_alive, refresh_heartbeat, remove_ghost_users}
use flux_kart.Heartbeat.Ghosts.{remove_ghost_users-select}
use flux_kart.Examples.Stores.{write, key_store, pair_store}
use flux_kart.Examples.Queues.{sorted_sets, crowd}
use flux_kart.Examples.Reservations.{tables}

only_sale : (k : ℕ) → count_where (is_sale k) tables.sales ≤ 1
only_sale k = ground arith

-- The counter of the open sale is off by 20 units.
reconcile_inventory-in_sync_example :
    let c = write (λ _. none) 1 (some (pos 25)) in
    let (first_results, c') = reconcile_inventory (key_store ℤ) always always tables c in
    let (results, c'') = reconcile_inventory (key_store ℤ) always always tables c' in
    (in_sync (key_store ℤ) c' (upcoming tables) ≡ true)
    × (c'' ≡ c')
    × (results.fixed ≡ 0)
    × (results.reseeded ≡ 0)
reconcile_inventory-in_sync_example =
    reconcile_inventory-in_sync (key_store ℤ) tables (write (λ _. none) 1 (some (pos 25))) only_sale

abbrev registered : List Preregistration
registered =
    record { user_id = 4; sale_id = 1; status = PreregistrationStatus.waiting }
    ∷ record { user_id = 5; sale_id = 2; status = PreregistrationStatus.waiting }
    ∷ record { user_id = 6; sale_id = 1; status = PreregistrationStatus.waiting }
    ∷ []

-- The first round fails at the row of its second user, and the second before it has a batch.
abbrev wake_ups : List (ℕ × Interruption)
wake_ups = (10, at_row 1) ∷ (20, at_select) ∷ []

run_admission_worker-admit_first_example :
    (run_admission_worker (pair_store ℕ) wake_ups 1 100 registered (λ _. none)).0
    ≡ admit_first 1 (admitted_in wake_ups) registered
run_admission_worker-admit_first_example =
    run_admission_worker-admit_first (pair_store ℕ) wake_ups 1 100 registered (λ _. none)
      (refl, (refl, (refl, tt))) (omega arith, (omega arith, tt))

-- User 8 sent a heartbeat, and user 7 did not.
remove_ghost_users-select_example :
    let beats = refresh_heartbeat sorted_sets (pair_store ℕ) 10 1 8 (λ _. none) in
    sorted_sets.zrange (remove_ghost_users sorted_sets (pair_store ℕ) true 500 beats crowd).1 1
    ≡ select (is_alive sorted_sets (pair_store ℕ) 500 1 beats) (sorted_sets.zrange crowd 1)
remove_ghost_users-select_example =
    remove_ghost_users-select sorted_sets (pair_store ℕ) 500
      (refresh_heartbeat sorted_sets (pair_store ℕ) 10 1 8 (λ _. none)) 1 crowd

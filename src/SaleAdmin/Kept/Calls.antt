-- ===== src/SaleAdmin/Kept/Calls.antt =====
-- The calls of the administrator.
use flux_kart.Prelude.{
  ℕ, ◌≡◌, refl, sym, ◌⊎◌, Bool, true, false, inl, inr, arith, leb, ◌||◌, count_where, Bool-cases,
  Option-cases,
}
use mathlib.Core.Path.{subst}
use flux_kart.Prelude.Int.{ℤ, pos, ◌+ℤ◌, ltb_ℤ, pos_part}
use flux_kart.Redis.{KeyStore, ExpiringStore, SortedSets}
use flux_kart.Inventory.{Hold}
use flux_kart.Db.{Database, Outcome-cases, is_active_sale}
use flux_kart.Db.Inventory.{update_inventory}
use flux_kart.Db.Sales.{
  SaleData, get_sale_by_id, update_sale_status, create_sale, admin_update_sale, admin_delete_sale,
  with_total,
}
use flux_kart.SaleAdmin.{
  Answer, Shop, is_completed, admin_create_sale, edit_sale, delete_sale, activate_sale, pause_sale,
  resume_sale, complete_sale, adjust_inventory,
}
use flux_kart.SaleAdmin.Lifecycle.Calls.{
  AdminCall, create_call, edit_call, delete_call, complete_call, pause_call, resume_call,
  activate_call, adjust_call, handle,
}
use flux_kart.SaleAdmin.Kept.{
  create_sale-IsSound, admin_update_sale-IsSound, admin_delete_sale-IsSound,
}
use flux_kart.System.{IsSound}
use flux_kart.System.Tables.{SameTables, SameTables-IsSound, update_inventory-IsSound, of_sale}

module _ (C : KeyStore ℕ ℤ) (H : ExpiringStore ℕ Hold) (Q : SortedSets ℕ ℕ) where
  -- A call that ends with the tables it found.
  idle :
      (w : Shop C H Q) (out : Answer × Shop C H Q)
      → IsSound w.db
      → out.1.db ≡ w.db
      → IsSound out.1.db
  idle w out h e = subst IsSound (sym e) h

  pause-SameTables : (s : ℕ) (w : Shop C H Q) → SameTables w.db (pause_sale C H Q s w).1.db
  unfolding pause_sale update_sale_status
  pause-SameTables s w = record {
    inventory = ground arith;
    reservations = ground arith;
    orders = ground arith;
  }

  resume-SameTables : (s : ℕ) (w : Shop C H Q) → SameTables w.db (resume_sale C H Q s w).1.db
  unfolding resume_sale update_sale_status
  resume-SameTables s w = record {
    inventory = ground arith;
    reservations = ground arith;
    orders = ground arith;
  }

  activate-SameTables :
      (redis_up : Bool) (now s : ℕ) (w : Shop C H Q)
      → SameTables w.db (activate_sale C H Q redis_up now s w).1.db
  unfolding activate_sale update_sale_status
  activate-SameTables redis_up now s w = record {
    inventory = ground arith;
    reservations = ground arith;
    orders = ground arith;
  }

  complete-SameTables :
      (redis_up : Bool) (s : ℕ) (w : Shop C H Q)
      → SameTables w.db (complete_sale C H Q redis_up s w).1.db
  unfolding complete_sale update_sale_status
  complete-SameTables true s w = record {
    inventory = ground arith;
    reservations = ground arith;
    orders = ground arith;
  }
  complete-SameTables false s w = record {
    inventory = ground arith;
    reservations = ground arith;
    orders = ground arith;
  }

  delete-IsSound :
      (redis_up : Bool) (s : ℕ) (w : Shop C H Q)
      → IsSound w.db
      → IsSound (delete_sale C H Q redis_up s w).1.db
  delete-IsSound redis_up s w h = through (ends redis_up)
    where
      ends :
          (redis_up : Bool)
          → ((delete_sale C H Q redis_up s w).1.db ≡ w.db)
            ⊎ ((delete_sale C H Q redis_up s w).1.db ≡ (admin_delete_sale s w.db).1)
      ends true =
          unfold delete_sale in
          elim (Option-cases (get_sale_by_id s w.db)) [
            | inl missing ↦ inl (ground arith)
            | inr ((sale, i), there) ↦ elim (Bool-cases (is_active_sale sale.status)) [
              | inl runs ↦ inl (ground arith)
              | inr idle ↦ inr (ground arith)
            ]
          ]
      ends false =
          unfold delete_sale in
          elim (Option-cases (get_sale_by_id s w.db)) [
            | inl missing ↦ inl (ground arith)
            | inr ((sale, i), there) ↦ elim (Bool-cases (is_active_sale sale.status)) [
              | inl runs ↦ inl (ground arith)
              | inr idle ↦ inr (ground arith)
            ]
          ]

      through :
          ((delete_sale C H Q redis_up s w).1.db ≡ w.db)
            ⊎ ((delete_sale C H Q redis_up s w).1.db ≡ (admin_delete_sale s w.db).1)
          → IsSound (delete_sale C H Q redis_up s w).1.db
      through (inl e) = idle w (delete_sale C H Q redis_up s w) h e
      through (inr e) = subst IsSound (sym e) (admin_delete_sale-IsSound s w.db h)

  adjust-IsSound :
      (redis_up : Bool) (s : ℕ) (a : ℤ) (w : Shop C H Q)
      → IsSound w.db
      → IsSound (adjust_inventory C H Q redis_up s a w).1.db
  unfolding adjust_inventory
  adjust-IsSound redis_up s a w h =
      let out = adjust_inventory C H Q redis_up s a w in
      elim (Option-cases (get_sale_by_id s w.db)) [
        | inl missing ↦ idle w out h (ground (arith, missing))
        | inr ((sale, i), there) ↦
            let total = pos i.total_quantity +ℤ a in
            elim (Bool-cases (ltb_ℤ total (pos 0))) [
              | inl below ↦ idle w out h (ground (arith, there, below))
              | inr fine ↦
                  elim (Outcome-cases (update_inventory s (with_total (pos_part total)) w.db)) [
                    | inl fails ↦ idle w out h (ground (arith, there, fine, fails))
                    | inr (db, e) ↦
                        let gone : db ≡ out.1.db = ground (arith, there, fine, e) in
                        subst IsSound gone (
                          update_inventory-IsSound s (with_total (pos_part total)) w.db db
                            (λ i. refl) (λ i. refl) e h)
                  ]
            ]
      ]

  edit-IsSound :
      (redis_up : Bool) (s : ℕ) (d : SaleData) (w : Shop C H Q)
      → IsSound w.db
      → IsSound (edit_sale C H Q redis_up s d w).1.db
  unfolding edit_sale
  edit-IsSound redis_up s d w h =
      let out = edit_sale C H Q redis_up s d w in
      elim (Option-cases (get_sale_by_id s w.db)) [
        | inl missing ↦ idle w out h (ground (arith, missing))
        | inr ((sale, i), there) ↦
            elim (Bool-cases (is_completed sale.status || leb d.original_price d.sale_price)) [
              | inl bad ↦ idle w out h (ground (arith, there, bad))
              | inr fine ↦ elim (Outcome-cases (admin_update_sale s d w.db)) [
                | inl fails ↦ idle w out h (ground (arith, there, fine, fails))
                | inr (db, e) ↦
                    let gone : db ≡ out.1.db = ground (arith, there, fine, e) in
                    subst IsSound gone (admin_update_sale-IsSound s d w.db db e h)
              ]
            ]
      ]

  create-IsSound :
      (redis_up : Bool) (now id : ℕ) (d : SaleData) (w : Shop C H Q)
      → count_where (of_sale id) w.db.orders ≡ 0
      → IsSound w.db
      → IsSound (admin_create_sale C H Q redis_up now id d w).1.db
  unfolding admin_create_sale
  create-IsSound redis_up now id d w fresh h =
      let out = admin_create_sale C H Q redis_up now id d w in
      elim (Bool-cases (leb d.original_price d.sale_price || leb d.ends_at d.starts_at)) [
        | inl bad ↦ idle w out h (ground (arith, bad))
        | inr fine ↦ elim (Outcome-cases (create_sale id d w.db)) [
          | inl fails ↦ idle w out h (ground (arith, fine, fails))
          | inr (db, e) ↦
              SameTables-IsSound db out.1.db
                (unfold update_sale_status in
                  record {
                    inventory = ground (arith, fine, e);
                    reservations = ground (arith, fine, e);
                    orders = ground (arith, fine, e);
                  })
                (create_sale-IsSound id d w.db db fresh e h)
        ]
      ]

  -- The id of a sale that a call creates is new to the orders.
  abbrev pub IsFresh : AdminCall → Database → Type 0
  IsFresh (create_call now id d) db = count_where (of_sale id) db.orders ≡ 0
  IsFresh call db = Unit

  pub handle-IsSound :
      (redis_up : Bool) (call : AdminCall) (w : Shop C H Q)
      → IsFresh call w.db
      → IsSound w.db
      → IsSound (handle C H Q redis_up call w).1.db
  unfolding handle
  handle-IsSound redis_up (create_call now id d) w fresh h =
      create-IsSound redis_up now id d w fresh h
  handle-IsSound redis_up (edit_call s d) w fresh h = edit-IsSound redis_up s d w h
  handle-IsSound redis_up (delete_call s) w fresh h = delete-IsSound redis_up s w h
  handle-IsSound redis_up (adjust_call s a) w fresh h = adjust-IsSound redis_up s a w h
  handle-IsSound redis_up (activate_call now s) w fresh h =
      SameTables-IsSound w.db (activate_sale C H Q redis_up now s w).1.db
        (activate-SameTables redis_up now s w) h
  handle-IsSound redis_up (pause_call s) w fresh h =
      SameTables-IsSound w.db (pause_sale C H Q s w).1.db (pause-SameTables s w) h
  handle-IsSound redis_up (resume_call s) w fresh h =
      SameTables-IsSound w.db (resume_sale C H Q s w).1.db (resume-SameTables s w) h
  handle-IsSound redis_up (complete_call s) w fresh h =
      SameTables-IsSound w.db (complete_sale C H Q redis_up s w).1.db
        (complete-SameTables redis_up s w) h

-- ===== src/SaleAdmin/Lifecycle/Edits.antt =====
-- The calls that write the row of a sale or of its inventory, and the creation.
use flux_kart.Prelude.{
  ℕ, ◌≡◌, refl, ap, ◌∙◌, Bool, [], ◌∷◌, ◌++◌, arith, ◌==◌, ltb, leb, ◌||◌, if◌then◌else◌,
  count_where, update_where, Bool-cases, Option-cases, inl, inr,
}
use flux_kart.Prelude.Int.{ℤ, pos, ◌+ℤ◌, ◌-ℤ◌, ltb_ℤ, pos_part}
use flux_kart.Redis.{KeyStore, ExpiringStore, SortedSets}
use flux_kart.Inventory.{Hold}
use flux_kart.Db.{Outcome-cases, SaleStatus, Sale, InventoryRow, Database, done}
use flux_kart.Db.Inventory.{update_inventory}
use flux_kart.Db.Sales.{
  SaleData, with_data, is_sale, get_sale_by_id, update_sale_status, create_sale, admin_update_sale,
  with_total,
}
use flux_kart.SaleAdmin.{
  success, bad_request_400, not_found_404, server_error_500, Shop, is_completed, try_move,
  admin_create_sale, edit_sale, adjust_inventory,
}
use flux_kart.SaleAdmin.Lifecycle.{status_of, stays, status_of-with_data, Moves-path, append-Moves}
use flux_kart.SaleAdmin.Lifecycle.Changes.{Kept, ends}

module _ (C : KeyStore ℕ ℤ) (H : ExpiringStore ℕ Hold) (Q : SortedSets ℕ ℕ) where
  update_inventory-sales :
      (s : ℕ) (f : InventoryRow → InventoryRow) (db db' : Database)
      → update_inventory s f db ≡ done db'
      → db'.sales ≡ db.sales
  unfolding update_inventory
  update_inventory-sales s f db db' e = ground (arith, e)

  pub adjust-Moves :
      (redis_up : Bool) (s : ℕ) (a : ℤ) (k : ℕ) (w : Shop C H Q)
      → Kept C H Q k w (adjust_inventory C H Q redis_up s a w)
  unfolding adjust_inventory
  adjust-Moves redis_up s a k w = elim (Option-cases (get_sale_by_id s w.db)) [
    | inl missing ↦
        ends C H Q k w (adjust_inventory C H Q redis_up s a w) (not_found_404, w)
          (ground (arith, missing)) (stays (status_of k w.db.sales))
    | inr ((sale, i), there) ↦
        let new_total = pos i.total_quantity +ℤ a in
        elim (Bool-cases (ltb_ℤ new_total (pos 0))) [
          | inl below ↦
              ends C H Q k w (adjust_inventory C H Q redis_up s a w) (bad_request_400, w)
                (ground (arith, there, below)) (stays (status_of k w.db.sales))
          | inr enough ↦
              elim (Outcome-cases (update_inventory s (with_total (pos_part new_total)) w.db)) [
                | inl refused ↦
                    ends C H Q k w (adjust_inventory C H Q redis_up s a w) (server_error_500, w)
                      (ground (arith, there, enough, refused)) (stays (status_of k w.db.sales))
                | inr (db, written) ↦
                    ends C H Q k w (adjust_inventory C H Q redis_up s a w)
                      (success, record w { db = db; stock = try_move C H Q redis_up s a w.stock })
                      (ground (arith, there, enough, written))
                      (Moves-path (status_of k w.db.sales) (status_of k db.sales)
                        (status_of k w.db.sales)
                        (ap (status_of k) (
                          update_inventory-sales s (with_total (pos_part new_total)) w.db db
                            written))
                        (stays (status_of k w.db.sales)))
              ]
        ]
  ]

  pub edit-Moves :
      (redis_up : Bool) (s : ℕ) (d : SaleData) (k : ℕ) (w : Shop C H Q)
      → Kept C H Q k w (edit_sale C H Q redis_up s d w)
  unfolding edit_sale admin_update_sale
  edit-Moves redis_up s d k w = elim (Option-cases (get_sale_by_id s w.db)) [
    | inl missing ↦
        ends C H Q k w (edit_sale C H Q redis_up s d w) (not_found_404, w) (ground (arith, missing))
          (stays (status_of k w.db.sales))
    | inr ((sale, i), there) ↦
        elim (Bool-cases (is_completed sale.status || leb d.original_price d.sale_price)) [
          | inl refused ↦
              ends C H Q k w (edit_sale C H Q redis_up s d w) (bad_request_400, w)
                (ground (arith, there, refused)) (stays (status_of k w.db.sales))
          | inr open_ ↦ elim (Outcome-cases (admin_update_sale s d w.db)) [
            | inl refused ↦
                ends C H Q k w (edit_sale C H Q redis_up s d w) (server_error_500, w)
                  (ground (arith, there, open_, refused)) (stays (status_of k w.db.sales))
            | inr (db, written) ↦
                let edited : Database = record w.db {
                  sales = update_where (is_sale s) (with_data d) w.db.sales;
                } in
                ends C H Q k w (edit_sale C H Q redis_up s d w)
                  (
                    success,
                    record w {
                      db = db;
                      stock =
                          if d.total_quantity == i.total_quantity
                          then w.stock
                          else try_move C H Q redis_up s
                              (pos d.total_quantity -ℤ pos i.total_quantity) w.stock;
                    },
                  )
                  (ground (arith, there, open_, written))
                  (Moves-path (status_of k w.db.sales) (status_of k db.sales)
                    (status_of k w.db.sales)
                    (ap (status_of k)
                        (update_inventory-sales s (with_total d.total_quantity) edited db written)
                      ∙ status_of-with_data k s d w.db.sales)
                    (stays (status_of k w.db.sales)))
          ]
        ]
  ]

  pub create-Moves :
      (redis_up : Bool) (now id : ℕ) (d : SaleData) (k : ℕ) (w : Shop C H Q)
      → Kept C H Q k w (admin_create_sale C H Q redis_up now id d w)
  unfolding admin_create_sale create_sale update_sale_status
  create-Moves redis_up now id d k w =
      elim (Bool-cases (leb d.original_price d.sale_price || leb d.ends_at d.starts_at)) [
        | inl refused ↦
            ends C H Q k w (admin_create_sale C H Q redis_up now id d w) (bad_request_400, w)
              (ground (arith, refused)) (stays (status_of k w.db.sales))
        | inr fine ↦ elim (Bool-cases (ltb 0 (count_where (is_sale id) w.db.sales))) [
          | inl taken ↦
              ends C H Q k w (admin_create_sale C H Q redis_up now id d w) (server_error_500, w)
                (ground (arith, fine, taken)) (stays (status_of k w.db.sales))
          | inr fresh ↦
              let t = if leb d.starts_at now then SaleStatus.active else SaleStatus.scheduled in
              let x : Sale = record {
                id = id;
                sale_price = d.sale_price;
                original_price = d.original_price;
                total_quantity = d.total_quantity;
                starts_at = d.starts_at;
                ends_at = d.ends_at;
                status = SaleStatus.scheduled;
              } in
              Moves-path (status_of k w.db.sales)
                (status_of k (admin_create_sale C H Q redis_up now id d w).1.db.sales)
                (status_of k
                  (update_where (is_sale id) (λ y. record y { status = t }) (w.db.sales ++ x ∷ [])))
                (ground (arith, fine, fresh))
                (append-Moves k id t x w.db.sales (ground arith) refl (ground (arith, fresh)))
        ]
      ]

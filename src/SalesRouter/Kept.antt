-- ===== src/SalesRouter/Kept.antt =====
-- What the calls of backend/app/routers/sales.py keep of the tables of orders and stock.
use flux_kart.Prelude.{ℕ, ◌≡◌, Bool, true, false, some, inl, inr, arith, count_where}
use mathlib.Core.Path.{subst}
use flux_kart.Prelude.Int.{ℤ}
use flux_kart.Redis.{KeyStore, ExpiringStore, SortedSets}
use flux_kart.Inventory.{Hold}
use flux_kart.Db.{SaleStatus, Outcome-cases}
use flux_kart.Db.Sales.{SaleData, update_sale_status, create_sale}
use flux_kart.SaleAdmin.{Shop}
use flux_kart.SaleAdmin.Kept.{create_sale-IsSound}
use flux_kart.SalesRouter.{post_sale, patch_sale_status}
use flux_kart.System.{IsSound}
use flux_kart.System.Tables.{SameTables, SameTables-IsSound, of_sale}

module _ (C : KeyStore ℕ ℤ) (H : ExpiringStore ℕ Hold) (Q : SortedSets ℕ ℕ) where
  pub post_sale-IsSound :
      (redis_up : Bool) (id : ℕ) (d : SaleData) (w : Shop C H Q)
      → count_where (of_sale id) w.db.orders ≡ 0
      → IsSound w.db
      → IsSound (post_sale C H Q redis_up id d w).1.db
  unfolding post_sale
  post_sale-IsSound true id d w fresh h = elim (Outcome-cases (create_sale id d w.db)) [
    | inl fails ↦
        let same : w.db ≡ (post_sale C H Q true id d w).1.db = ground (arith, fails) in
        subst IsSound same h
    | inr (db, e) ↦
        let same : db ≡ (post_sale C H Q true id d w).1.db = ground (arith, e) in
        subst IsSound same (create_sale-IsSound id d w.db db fresh e h)
  ]
  post_sale-IsSound false id d w fresh h = elim (Outcome-cases (create_sale id d w.db)) [
    | inl fails ↦
        let same : w.db ≡ (post_sale C H Q false id d w).1.db = ground (arith, fails) in
        subst IsSound same h
    | inr (db, e) ↦
        let same : db ≡ (post_sale C H Q false id d w).1.db = ground (arith, e) in
        subst IsSound same (create_sale-IsSound id d w.db db fresh e h)
  ]

  patch-SameTables :
      (redis_up : Bool) (s : ℕ) (t : SaleStatus) (w : Shop C H Q)
      → SameTables w.db (patch_sale_status C H Q redis_up s (some t) w).1.db
  unfolding patch_sale_status update_sale_status
  patch-SameTables true s t w = record {
    inventory = ground arith;
    reservations = ground arith;
    orders = ground arith;
  }
  patch-SameTables false s t w = record {
    inventory = ground arith;
    reservations = ground arith;
    orders = ground arith;
  }

  pub patch_sale_status-IsSound :
      (redis_up : Bool) (s : ℕ) (t : SaleStatus) (w : Shop C H Q)
      → IsSound w.db
      → IsSound (patch_sale_status C H Q redis_up s (some t) w).1.db
  patch_sale_status-IsSound redis_up s t w h =
      SameTables-IsSound w.db (patch_sale_status C H Q redis_up s (some t) w).1.db
        (patch-SameTables redis_up s t w) h

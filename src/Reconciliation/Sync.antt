-- ===== src/Reconciliation/Sync.antt =====
-- What a pass of the reconciliation leaves of the drift.
use flux_kart.Prelude.{
  ℕ, ◌+◌, ◌-◌, ◌≤◌, ◌≡◌, ◌≢◌, refl, ap, false, Option-cases, inl, inr, ◌∙◌, Bool, true, Option,
  none, some, List, [], ◌∷◌, arith, ltb, not, ◌&&◌, count_where, select, count_where-select-le,
}
use flux_kart.Prelude.Int.{ℤ, pos, negsuc, ◌-ℤ◌}
use flux_kart.Redis.{KeyStore}
use flux_kart.Db.{SaleStatus, Sale, InventoryRow, Database, is_active_sale}
use flux_kart.Db.Sales.{is_sale, with_inventory, joins, count_where-with_inventory}
use flux_kart.Reconciliation.{
  Results, no_results, is_reconciled, active_sales, expected, drift, reconcile_sale,
  reconcile_sales, reconcile_inventory,
}

-- The sales that a pass is to look at.
abbrev pub is_upcoming : SaleStatus → Bool
is_upcoming SaleStatus.active = true
is_upcoming SaleStatus.scheduled = true
is_upcoming SaleStatus.paused = false
is_upcoming SaleStatus.completed = false

abbrev pub upcoming : Database → List (Sale × InventoryRow)
upcoming db = with_inventory db.inventory (select (λ s. is_upcoming s.status) db.sales)

-- The distance of a counter from the units of a row that are neither reserved nor sold.
abbrev pub off_by : ℤ → InventoryRow → ℕ
off_by (pos n) i =
    let free = i.total_quantity - i.reserved_quantity - i.sold_quantity in n - free + (free - n)
off_by (negsuc n) i = n + 1 + (i.total_quantity - i.reserved_quantity - i.sold_quantity)

-- The counter of a sale is there if the sale is active, and is off by less than 10.
abbrev pub close_to : Option ℤ → Sale × InventoryRow → Bool
close_to none row = not (is_active_sale row.0.status)
close_to (some v) row = ltb (off_by v row.1) 10

drift-off_by : (v : ℤ) (row : Sale × InventoryRow) → drift v (expected row) ≡ off_by v row.1
unfolding ◌-ℤ◌
drift-off_by (pos n) row = ground arith
drift-off_by (negsuc n) row = ground arith

upcoming_lem : (db : Database) → upcoming db ≡ active_sales db
upcoming_lem db = ap (with_inventory db.inventory) (same db.sales)
  where
    same :
        (sales : List Sale)
        → select (λ s. is_upcoming s.status) sales ≡ select (λ s. is_reconciled s.status) sales
    same [] = refl
    same (s ∷ sales) = rw (same sales, by_status s.status) refl
      where
        by_status : (t : SaleStatus) → is_upcoming t ≡ is_reconciled t
        by_status SaleStatus.active = refl
        by_status SaleStatus.scheduled = refl
        by_status SaleStatus.paused = refl
        by_status SaleStatus.completed = refl

abbrev pub always : ℕ → Bool
always sale_id = true

drift_self : (n : ℕ) → drift (pos n) n ≡ 0
unfolding ◌-ℤ◌
drift_self n = ground arith

module _ (C : KeyStore ℕ ℤ) where
  abbrev pub in_sync : C.Db → List (Sale × InventoryRow) → Bool
  in_sync c [] = true
  in_sync c (row ∷ rows) = close_to (C.get c row.0.id) row && in_sync c rows

  sale-close :
      (row : Sale × InventoryRow) (r : Results) (c : C.Db)
      → close_to (C.get (reconcile_sale C true true row r c).1 row.0.id) row ≡ true
  unfolding reconcile_sale
  sale-close row r c =
      let exact : off_by (pos (expected row)) row.1 ≡ 0 = ground arith in
      elim (Option-cases (C.get c row.0.id)) [
        | inl missing ↦
            ground (arith, missing, C.get-set_self c row.0.id (pos (expected row)), exact)
        | inr (v, there) ↦ ground (
          arith,
          there,
          C.get-set_self c row.0.id (pos (expected row)),
          exact,
          drift-off_by v row,
        )
      ]

  sale-other :
      (k : ℕ) (row : Sale × InventoryRow) (r : Results) (c : C.Db)
      → row.0.id ≢ k
      → C.get (reconcile_sale C true true row r c).1 k ≡ C.get c k
  unfolding reconcile_sale
  sale-other k row r c h = ground (arith, C.get-set_ne c row.0.id k (pos (expected row)) h)

  sales-other :
      (k : ℕ) (rows : List (Sale × InventoryRow)) (r : Results) (c : C.Db)
      → count_where (joins k) rows ≡ 0
      → C.get (reconcile_sales C always always rows r c).1 k ≡ C.get c k
  unfolding reconcile_sales
  sales-other k [] r c h = refl
  sales-other k (row ∷ rows) r c h =
      let (r', c') = reconcile_sale C true true row r c in
      sales-other k rows r' c' (ground arith) ∙ sale-other k row r c (ground arith)

  sales-in_sync :
      (rows : List (Sale × InventoryRow)) (r : Results) (c : C.Db)
      → ((k : ℕ) → count_where (joins k) rows ≤ 1)
      → in_sync (reconcile_sales C always always rows r c).1 rows ≡ true
  unfolding reconcile_sales
  sales-in_sync [] r c h = refl
  sales-in_sync (row ∷ rows) r c h =
      let (r', c') = reconcile_sale C true true row r c in
      ground (
        arith,
        sales-other row.0.id rows r' c' (ground (arith, h row.0.id)),
        sale-close row r c,
        sales-in_sync rows r' c' (λ k. ground (arith, h k)),
      )

  -- A row that is close is not written.
  close-kept :
      (row : Sale × InventoryRow) (r : Results) (c : C.Db)
      → close_to (C.get c row.0.id) row ≡ true
      → let (r', c') = reconcile_sale C true true row r c in
        (c' ≡ c) × (r'.fixed ≡ r.fixed) × (r'.reseeded ≡ r.reseeded)
  unfolding reconcile_sale
  close-kept row r c h = elim (Option-cases (C.get c row.0.id)) [
    | inl missing ↦ ground (arith, missing)
    | inr (v, there) ↦ ground (arith, there, drift-off_by v row)
  ]

  in_sync-kept :
      (rows : List (Sale × InventoryRow)) (r : Results) (c : C.Db)
      → in_sync c rows ≡ true
      → let (r', c') = reconcile_sales C always always rows r c in
        (c' ≡ c) × (r'.fixed ≡ r.fixed) × (r'.reseeded ≡ r.reseeded)
  unfolding reconcile_sales
  in_sync-kept [] r c h = (refl, refl, refl)
  in_sync-kept (row ∷ rows) r c h =
      let (r', c') = reconcile_sale C true true row r c in
      ground (arith, close-kept row r c, in_sync-kept rows r' c')

  active_sales_unique :
      (db : Database)
      → ((k : ℕ) → count_where (is_sale k) db.sales ≤ 1)
      → (k : ℕ) → count_where (joins k) (active_sales db) ≤ 1
  active_sales_unique db h k = omega (
    arith,
    h k,
    count_where-with_inventory k db.inventory (select (λ s. is_reconciled s.status) db.sales),
    count_where-select-le (is_sale k) (λ s. is_reconciled s.status) db.sales,
  )

  -- Where no two sales have an id, after one pass with Redis reachable every active sale with a row of
  -- the inventory has a counter, and no counter of an active or a scheduled one is off by 10 or more;
  -- the other sales are not looked at, and a smaller drift stays. Another pass over the same tables
  -- then changes no counter, fixes nothing and reseeds nothing.
  pub reconcile_inventory-in_sync :
      (db : Database) (c : C.Db)
      → ((k : ℕ) → count_where (is_sale k) db.sales ≤ 1)
      → let (first_results, c') = reconcile_inventory C always always db c in
        let (results, c'') = reconcile_inventory C always always db c' in
        (in_sync c' (upcoming db) ≡ true)
        × (c'' ≡ c')
        × (results.fixed ≡ 0)
        × (results.reseeded ≡ 0)
  unfolding reconcile_inventory
  reconcile_inventory-in_sync db c unique =
      let synced = sales-in_sync (active_sales db) no_results c (active_sales_unique db unique) in
      let c' = (reconcile_sales C always always (active_sales db) no_results c).1 in
      let (same, fixed, reseeded) = in_sync-kept (active_sales db) no_results c' synced in
      (ap (in_sync c') (upcoming_lem db) ∙ synced, same, fixed, reseeded)

-- ===== src/Reconciliation.antt =====
-- backend/app/workers/reconciliation_worker.py: the counters in Redis against the inventory table. Logs
-- are left out. `reads` and `writes` say for each sale which calls of Redis come through.
pub mod Sync
use flux_kart.Prelude.{
  ℕ, ◌+◌, ◌-◌, Bool, true, false, Option, none, some, List, [], ◌∷◌, ◌==◌, leb, if◌then◌else◌,
  select, ◌&&◌,
}
use flux_kart.Prelude.Int.{ℤ, pos, ◌-ℤ◌, pos_part, neg_part}
use flux_kart.Redis.{KeyStore}
use flux_kart.Db.{SaleStatus, Sale, InventoryRow, Database, is_active_sale}
use flux_kart.Db.Inventory.{available}
use flux_kart.Db.Sales.{with_inventory}

abbrev pub auto_fix_threshold : ℕ
auto_fix_threshold = 10

pub record Results : Type 0 where
  pub checked : ℕ
  pub ok : ℕ
  pub drifted : ℕ
  pub fixed : ℕ
  pub reseeded : ℕ

abbrev pub no_results : Results
no_results = record { checked = 0; ok = 0; drifted = 0; fixed = 0; reseeded = 0 }

-- status IN ('active', 'scheduled')
abbrev pub is_reconciled : SaleStatus → Bool
is_reconciled SaleStatus.active = true
is_reconciled SaleStatus.scheduled = true
is_reconciled _ = false

abbrev pub active_sales : Database → List (Sale × InventoryRow)
active_sales db = with_inventory db.inventory (select (λ s. is_reconciled s.status) db.sales)

-- max(0, total - reserved - sold): the difference of natural numbers stops at 0.
abbrev pub expected : Sale × InventoryRow → ℕ
expected row = available row.1

-- abs(redis_inventory - expected)
abbrev pub drift : ℤ → ℕ → ℕ
drift v n = pos_part (v -ℤ pos n) + neg_part (v -ℤ pos n)

module _ (C : KeyStore ℕ ℤ) where
  -- A value that drifts, once it is counted.
  fix_drift : Bool → Sale × InventoryRow → ℕ → Results → C.Db → Results × C.Db
  fix_drift writes row d r c =
      if leb auto_fix_threshold d
      then if writes
        then (
          record r { drifted = r.drifted + 1; fixed = r.fixed + 1 },
          C.set c row.0.id (pos (expected row)),
        )
        else (record r { drifted = r.drifted + 1 }, c)
      else (record r { drifted = r.drifted + 1 }, c)

  reseed : Bool → Sale × InventoryRow → Results → C.Db → Results × C.Db
  reseed writes row r c =
      if is_active_sale row.0.status && writes
      then (record r { reseeded = r.reseeded + 1 }, C.set c row.0.id (pos (expected row)))
      else (r, c)

  -- The body of the loop; an exception of Redis ends the turn of its sale.
  unfoldable pub reconcile_sale :
      Bool → Bool → Sale × InventoryRow → Results → C.Db → Results × C.Db
  unfolding fix_drift reseed
  reconcile_sale reads writes row results c =
      let r = record results { checked = results.checked + 1 } in
      if reads
      then elim (C.get c row.0.id) [
        | none ↦ reseed writes row r c
        | some v ↦
            if drift v (expected row) == 0
            then (record r { ok = r.ok + 1 }, c)
            else fix_drift writes row (drift v (expected row)) r c
      ]
      else (r, c)

  unfoldable pub reconcile_sales :
      (ℕ → Bool) → (ℕ → Bool) → List (Sale × InventoryRow) → Results → C.Db → Results × C.Db
  reconcile_sales reads writes [] r c = (r, c)
  reconcile_sales reads writes (row ∷ rows) r c =
      let (r', c') = reconcile_sale (reads row.0.id) (writes row.0.id) row r c in
      reconcile_sales reads writes rows r' c'

  unfoldable pub reconcile_inventory : (ℕ → Bool) → (ℕ → Bool) → Database → C.Db → Results × C.Db
  reconcile_inventory reads writes db c =
      reconcile_sales reads writes (active_sales db) no_results c

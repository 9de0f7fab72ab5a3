-- ===== src/Db/Sales.antt =====
-- backend/app/db/queries/sales.py: a sale is read joined with its inventory row.
use flux_kart.Prelude.{
  ℕ, ◌≤◌, Bool, Option, none, some, List, [], ◌∷◌, ◌++◌, arith, ◌==◌, ltb, not, if◌then◌else◌,
  select, first, update_where, count_where,
}
use flux_kart.Db.{Sale, SaleStatus, InventoryRow, Database, Outcome, done, raised}
use flux_kart.Db.Inventory.{for_sale, get_inventory, update_inventory}

abbrev pub is_sale : ℕ → Sale → Bool
is_sale sale_id s = s.id == sale_id

-- JOIN inventory: a sale without its inventory row is not found.
unfoldable pub get_sale_by_id : ℕ → Database → Option (Sale × InventoryRow)
get_sale_by_id sale_id db = elim (first (is_sale sale_id) db.sales) [
  | none ↦ none
  | some s ↦ elim (get_inventory sale_id db) [ none ↦ none | some i ↦ some (s, i) ]
]

unfoldable pub update_sale_status : ℕ → SaleStatus → Database → Database
update_sale_status sale_id new_status db = record db {
  sales = update_where (is_sale sale_id) (λ s. record s { status = new_status }) db.sales;
}

-- The columns that a request gives of a sale.
pub record SaleData : Type 0 where
  pub sale_price : ℕ
  pub original_price : ℕ
  pub total_quantity : ℕ
  pub starts_at : ℕ
  pub ends_at : ℕ

abbrev pub with_data : SaleData → Sale → Sale
with_data d s = record s {
  sale_price = d.sale_price;
  original_price = d.original_price;
  total_quantity = d.total_quantity;
  starts_at = d.starts_at;
  ends_at = d.ends_at;
}

-- The two INSERTs: `id` is the one that the table's default draws, and one that is taken raises.
unfoldable pub create_sale : ℕ → SaleData → Database → Outcome Database
create_sale id d db =
    let s : Sale = record {
      id = id;
      sale_price = d.sale_price;
      original_price = d.original_price;
      total_quantity = d.total_quantity;
      starts_at = d.starts_at;
      ends_at = d.ends_at;
      status = SaleStatus.scheduled;
    } in
    let i : InventoryRow = record {
      sale_id = id;
      total_quantity = d.total_quantity;
      reserved_quantity = 0;
      sold_quantity = 0;
    } in
    if ltb 0 (count_where (is_sale id) db.sales)
    then raised
    else done (record db { sales = db.sales ++ s ∷ []; inventory = db.inventory ++ i ∷ [] })

abbrev pub with_total : ℕ → InventoryRow → InventoryRow
with_total total_quantity i = record i { total_quantity = total_quantity }

unfoldable pub admin_update_sale : ℕ → SaleData → Database → Outcome Database
admin_update_sale sale_id d db =
    update_inventory sale_id (with_total d.total_quantity)
      (record db { sales = update_where (is_sale sale_id) (with_data d) db.sales })

-- The rows that stay after the five DELETEs; the preregistrations are a table of their own.
unfoldable pub admin_delete_sale : ℕ → Database → Bool × Database
admin_delete_sale sale_id db = (
  count_where (is_sale sale_id) db.sales == 1,
  record db {
    orders = select (λ o. not (o.sale_id == sale_id)) db.orders;
    reservations = select (λ r. not (r.sale_id == sale_id)) db.reservations;
    inventory = select (λ i. not (for_sale sale_id i)) db.inventory;
    sales = select (λ s. not (is_sale sale_id s)) db.sales;
  },
)

-- FROM sales JOIN inventory: each sale with its inventory row, whose sale_id is UNIQUE.
abbrev pub with_inventory : List InventoryRow → List Sale → List (Sale × InventoryRow)
with_inventory rows [] = []
with_inventory rows (s ∷ sales) =
    let rest = with_inventory rows sales in
    elim (first (for_sale s.id) rows) [ none ↦ rest | some i ↦ (s, i) ∷ rest ]

abbrev pub joins : ℕ → Sale × InventoryRow → Bool
joins sale_id row = row.0.id == sale_id

pub count_where-with_inventory :
    (k : ℕ) (rows : List InventoryRow) (sales : List Sale)
    → count_where (joins k) (with_inventory rows sales) ≤ count_where (is_sale k) sales
count_where-with_inventory k rows [] = omega arith
count_where-with_inventory k rows (s ∷ sales) =
    ground (arith, count_where-with_inventory k rows sales)

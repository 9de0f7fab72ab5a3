-- ===== src/Db/Inventory.antt =====
-- The inventory table: its CHECK constraints and the four ways in which the program updates a row.
use flux_kart.Prelude.{
  ℕ, ◌+◌, ◌-◌, ◌≤◌, ◌≡◌, refl, Bool, true, Option, some, List, [], ◌∷◌, arith, ◌==◌, leb,
  if◌then◌else◌, ◌&&◌, first, update_where, count_where,
}
use flux_kart.Db.{InventoryRow, Database, Outcome, done, raised}

-- total_quantity - reserved_quantity - sold_quantity; exact on a row that passes its CHECK
abbrev pub available : InventoryRow → ℕ
available i = i.total_quantity - i.reserved_quantity - i.sold_quantity

-- chk_quantities_valid
abbrev pub quantities_valid : InventoryRow → Bool
quantities_valid i = leb (i.reserved_quantity + i.sold_quantity) i.total_quantity

abbrev pub for_sale : ℕ → InventoryRow → Bool
for_sale sale_id i = i.sale_id == sale_id

abbrev pub get_inventory : ℕ → Database → Option InventoryRow
get_inventory sale_id db = first (for_sale sale_id) db.inventory

abbrev pub all_valid : List InventoryRow → Bool
all_valid [] = true
all_valid (i ∷ rows) = quantities_valid i && all_valid rows

-- UPDATE inventory SET ... WHERE sale_id = $2: a row that fails its CHECK raises.
unfoldable pub update_inventory : ℕ → (InventoryRow → InventoryRow) → Database → Outcome Database
update_inventory sale_id change db =
    let rows = update_where (for_sale sale_id) change db.inventory in
    if all_valid rows then done (record db { inventory = rows }) else raised

-- reserved_quantity + $1
abbrev pub add_reserved : ℕ → InventoryRow → InventoryRow
add_reserved quantity i = record i { reserved_quantity = i.reserved_quantity + quantity }

-- GREATEST(0, reserved_quantity - $1)
abbrev pub drop_reserved : ℕ → InventoryRow → InventoryRow
drop_reserved quantity i = record i { reserved_quantity = i.reserved_quantity - quantity }

-- sold_quantity + $1 and GREATEST(0, reserved_quantity - $1)
abbrev pub sell_reserved : ℕ → InventoryRow → InventoryRow
sell_reserved quantity i = record i {
  sold_quantity = i.sold_quantity + quantity;
  reserved_quantity = i.reserved_quantity - quantity;
}

-- Every row passes its CHECK.
abbrev pub IsStocked : List InventoryRow → Type 0
IsStocked [] = Unit
IsStocked (i ∷ rows) = (i.reserved_quantity + i.sold_quantity ≤ i.total_quantity) × IsStocked rows

pub all_valid-IsStocked : (rows : List InventoryRow) → all_valid rows ≡ true → IsStocked rows
all_valid-IsStocked [] h = tt
all_valid-IsStocked (i ∷ rows) h = ground (arith, all_valid-IsStocked rows)

pub update_inventory-IsStocked :
    (s : ℕ) (f : InventoryRow → InventoryRow) (db db' : Database)
    → update_inventory s f db ≡ done db'
    → IsStocked db'.inventory
unfolding update_inventory
update_inventory-IsStocked s f db db' h =
    ground (arith, all_valid-IsStocked (update_where (for_sale s) f db.inventory))

module _ (s : ℕ) (f : InventoryRow → InventoryRow) where
  update_where-miss :
      (rows : List InventoryRow)
      → count_where (for_sale s) rows ≡ 0
      → update_where (for_sale s) f rows ≡ rows
  update_where-miss [] h = refl
  update_where-miss (i ∷ rows) h = ground (arith, update_where-miss rows)

  IsStocked-all_valid : (rows : List InventoryRow) → IsStocked rows → all_valid rows ≡ true
  IsStocked-all_valid [] h = refl
  IsStocked-all_valid (i ∷ rows) h = ground (arith, IsStocked-all_valid rows)

  -- An update of the one row of a sale goes through where that row still passes its CHECK.
  all_valid-update :
      (i : InventoryRow) (rows : List InventoryRow)
      → IsStocked rows
      → count_where (for_sale s) rows ≤ 1
      → first (for_sale s) rows ≡ some i
      → quantities_valid (f i) ≡ true
      → all_valid (update_where (for_sale s) f rows) ≡ true
  all_valid-update i [] h u e v = cc
  all_valid-update i (j ∷ rows) h u e v =
      ground (arith, update_where-miss rows, IsStocked-all_valid rows, all_valid-update i rows)

  pub update_inventory_lem :
      (i : InventoryRow) (db : Database)
      → IsStocked db.inventory
      → count_where (for_sale s) db.inventory ≤ 1
      → get_inventory s db ≡ some i
      → quantities_valid (f i) ≡ true
      → update_inventory s f db
        ≡ done (record db { inventory = update_where (for_sale s) f db.inventory })
  unfolding update_inventory
  update_inventory_lem i db h u e v = ground (arith, all_valid-update i db.inventory)

  -- Where `f` keeps the sale's id, the row that is read back is the one that was written.
  pub first-update_where :
      (i : InventoryRow) (rows : List InventoryRow)
      → ((j : InventoryRow) → (f j).sale_id ≡ j.sale_id)
      → first (for_sale s) rows ≡ some i
      → first (for_sale s) (update_where (for_sale s) f rows) ≡ some (f i)
  first-update_where i [] k e = cc
  first-update_where i (j ∷ rows) k e = ground (arith, k j, first-update_where i rows k)

pub first-IsStocked :
    (s : ℕ) (i : InventoryRow) (rows : List InventoryRow)
    → IsStocked rows
    → first (for_sale s) rows ≡ some i
    → i.reserved_quantity + i.sold_quantity ≤ i.total_quantity
first-IsStocked s i [] h e = cc
first-IsStocked s i (j ∷ rows) h e = ground (arith, first-IsStocked s i rows h.1)

-- Dropping reserved units keeps every CHECK.
pub drop-all_valid :
    (s q : ℕ) (rows : List InventoryRow)
    → IsStocked rows
    → all_valid (update_where (for_sale s) (drop_reserved q) rows) ≡ true
drop-all_valid s q [] h = refl
drop-all_valid s q (i ∷ rows) h = ground (arith, drop-all_valid s q rows)

abbrev pub with_dropped : ℕ → ℕ → Database → Database
with_dropped s q db = record db {
  inventory = update_where (for_sale s) (drop_reserved q) db.inventory;
}

pub update_inventory-drop :
    (s q : ℕ) (db : Database)
    → IsStocked db.inventory
    → update_inventory s (drop_reserved q) db ≡ done (with_dropped s q db)
unfolding update_inventory
update_inventory-drop s q db h = ground (arith, drop-all_valid s q db.inventory h)

-- ===== src/System.antt =====
-- The tables under every request and worker of backend/app: what each of them keeps, over any
-- sequence of whole calls. A paid order is one whose status is 'paid'.
pub mod Tables
pub mod Steps
pub mod Sold
pub mod Deletion
use flux_kart.Prelude.{ℕ, ◌≤◌, ◌≡◌, Bool, List, [], ◌∷◌, ◌==◌, ◌&&◌, count_where, sum_where}
use flux_kart.Db.{Order, InventoryRow, Database, is_paid}
use flux_kart.Db.Inventory.{IsStocked}
use flux_kart.Db.Reservations.{IsUnique}
use flux_kart.Db.Orders.{has_id, of_reservation}

abbrev pub paid_for : ℕ → Order → Bool
paid_for sale_id o = o.sale_id == sale_id && is_paid o.status

-- The units of the paid orders of a sale.
abbrev pub units_paid : ℕ → List Order → ℕ
units_paid sale_id orders = sum_where (paid_for sale_id) (λ o. o.quantity) orders

-- Each row of the inventory has sold the units of the paid orders of its sale.
abbrev pub Settled : List Order → List InventoryRow → Type 0
Settled orders [] = Unit
Settled orders (i ∷ rows) = (i.sold_quantity ≡ units_paid i.sale_id orders) × Settled orders rows

-- The constraints of the tables: every row of the inventory passes its CHECK, no user has two active
-- reservations for a sale and no key stands twice, and no reservation and no id has two orders.
pub record IsValid (db : Database) : Type 0 where
  pub stocked : IsStocked db.inventory
  pub unique : IsUnique db.reservations
  pub one_order : (k : ℕ) → count_where (of_reservation k) db.orders ≤ 1
  pub one_id : (k : ℕ) → count_where (has_id k) db.orders ≤ 1

pub record IsSound (db : Database) : Type 0 where
  pub valid : IsValid db
  pub settled : Settled db.orders db.inventory

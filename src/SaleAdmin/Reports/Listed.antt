-- ===== src/SaleAdmin/Reports/Listed.antt =====
-- The order and the rows of the public listing of sales.
use flux_kart.Prelude.{
  ℕ, ◌≡◌, refl, ◌∙◌, true, false, List, [], ◌∷◌, arith, Bool, leb, if◌then◌else◌, first, select,
  count_where, count_where-select, Option-cases, inl, inr,
}
use flux_kart.Prelude.Sorting.{IsSorted, order_by, order_by-IsSorted, count_where-order_by}
use flux_kart.QueueService.{present}
use flux_kart.Db.{SaleStatus, Sale, InventoryRow, Database}
use flux_kart.Db.Inventory.{for_sale, get_inventory}
use flux_kart.Db.Sales.{is_sale, with_inventory, joins}
use flux_kart.SaleAdmin.Reports.{Joined, listed_first, is_listed, get_active_sales}

count_where-joined :
    (k : ℕ) (rows : List InventoryRow) (sales : List Sale)
    → count_where (joins k) (with_inventory rows sales)
      ≡ (if present (first (for_sale k) rows) then count_where (is_sale k) sales else 0)
count_where-joined k rows [] = ground arith
count_where-joined k rows (s ∷ sales) = elim (Option-cases (first (for_sale s.id) rows)) [
  | inl missing ↦ ground (arith, missing, count_where-joined k rows sales)
  | inr (i, there) ↦ ground (arith, there, count_where-joined k rows sales)
]

listed_first_total : (a b : Joined) → listed_first a b ≡ false → listed_first b a ≡ true
listed_first_total (a, i) (b, j) h = ground arith

-- Whether a sale may stand before another, by their statuses and the times at which they start.
abbrev pub may_precede : SaleStatus → SaleStatus → ℕ → ℕ → Bool
may_precede SaleStatus.active SaleStatus.active t u = leb t u
may_precede SaleStatus.active _ t u = true
may_precede SaleStatus.scheduled SaleStatus.active t u = false
may_precede SaleStatus.scheduled SaleStatus.scheduled t u = leb t u
may_precede SaleStatus.scheduled _ t u = true
may_precede _ SaleStatus.active t u = false
may_precede _ SaleStatus.scheduled t u = false
may_precede _ _ t u = leb t u

abbrev pub in_place : Joined → Joined → Bool
in_place a b = may_precede a.0.status b.0.status a.0.starts_at b.0.starts_at

listed_first-in_place : (a b : Joined) → listed_first a b ≡ true → in_place a b ≡ true
listed_first-in_place (a, i) (b, j) h = placed a.status b.status refl refl
  where
    placed : (p q : SaleStatus) → a.status ≡ p → b.status ≡ q → in_place (a, i) (b, j) ≡ true
    placed SaleStatus.active SaleStatus.active e f = ground arith
    placed SaleStatus.active SaleStatus.scheduled e f = ground arith
    placed SaleStatus.active SaleStatus.paused e f = ground arith
    placed SaleStatus.active SaleStatus.completed e f = ground arith
    placed SaleStatus.scheduled SaleStatus.active e f = ground arith
    placed SaleStatus.scheduled SaleStatus.scheduled e f = ground arith
    placed SaleStatus.scheduled SaleStatus.paused e f = ground arith
    placed SaleStatus.scheduled SaleStatus.completed e f = ground arith
    placed SaleStatus.paused SaleStatus.active e f = ground arith
    placed SaleStatus.paused SaleStatus.scheduled e f = ground arith
    placed SaleStatus.paused SaleStatus.paused e f = ground arith
    placed SaleStatus.paused SaleStatus.completed e f = ground arith
    placed SaleStatus.completed SaleStatus.active e f = ground arith
    placed SaleStatus.completed SaleStatus.scheduled e f = ground arith
    placed SaleStatus.completed SaleStatus.paused e f = ground arith
    placed SaleStatus.completed SaleStatus.completed e f = ground arith

all_in_place : (rows : List Joined) → IsSorted listed_first rows → IsSorted in_place rows
all_in_place [] h = tt
all_in_place (a ∷ []) h = (tt, tt)
all_in_place (a ∷ b ∷ rows) h = (listed_first-in_place a b h.0, all_in_place (b ∷ rows) h.1)

-- The listing of `GET /sales` has the active sales first, then the scheduled ones, then the paused and
-- the completed ones, each of the three by the time at which they start, the earliest first; it has a
-- sale exactly if the sale has a row of the inventory, and as often as the sale stands in the table.
pub get_active_sales_lem :
    (k : ℕ) (db : Database)
    → IsSorted in_place (get_active_sales db)
      × (count_where (joins k) (get_active_sales db)
          ≡ (if present (get_inventory k db) then count_where (is_sale k) db.sales else 0))
unfolding get_active_sales
get_active_sales_lem k db =
    let rows = with_inventory db.inventory db.sales in
    (
      all_in_place (order_by listed_first (select is_listed rows))
          (order_by-IsSorted listed_first listed_first_total (select is_listed rows)),
      count_where-order_by listed_first (joins k) (select is_listed rows)
          ∙ count_where-select (joins k) is_listed rows (λ x e. refl)
          ∙ count_where-joined k db.inventory db.sales,
    )

-- ===== src/SaleAdmin/Reports.antt =====
-- The listings of sales and users, backend/app/db/queries/sales.py and users.py, and the reports of
-- backend/app/routers/admin.py. Rows stand in the order of `created_at`; rows that ORDER BY leaves
-- equal come in any order in SQL.
pub mod Stats
pub mod Listed
use flux_kart.Prelude.{
  ℕ, ◌+◌, Bool, true, false, Option, none, some, List, [], ◌∷◌, ◌==◌, ltb, leb, ◌&&◌, ◌||◌, not,
  if◌then◌else◌, length, take, first, select, count_where, sum_where, map,
}
use mathlib.Core.List.{reverse}
use flux_kart.Prelude.Sorting.{order_by}
use flux_kart.Prelude.Int.{ℤ}
use flux_kart.Redis.{KeyStore, ExpiringStore, SortedSets}
use flux_kart.Db.{
  SaleStatus, Sale, InventoryRow, ReservationStatus, Reservation, Order, Database, is_pending,
}
use flux_kart.Db.Inventory.{available}
use flux_kart.Db.Sales.{with_inventory, get_sale_by_id}
use flux_kart.Db.Users.{User, admin_deactivate_user, admin_activate_user, admin_delete_user}
use flux_kart.Admission.{Preregistration}
use flux_kart.UserScore.{or_null, joined}
use flux_kart.QueueService.{get_queue_depth}
use flux_kart.SaleAdmin.{Answer, success, not_found_404, server_error_500}

abbrev pub Joined : Type 0
Joined = Sale × InventoryRow

-- CASE s.status WHEN 'active' THEN 0 WHEN 'scheduled' THEN 1 ELSE 2 END
abbrev pub status_rank : SaleStatus → ℕ
status_rank SaleStatus.active = 0
status_rank SaleStatus.scheduled = 1
status_rank _ = 2

-- Then s.starts_at ASC.
abbrev pub listed_first : Joined → Joined → Bool
listed_first (a, i) (b, j) =
    ltb (status_rank a.status) (status_rank b.status)
    || (status_rank a.status == status_rank b.status) && leb a.starts_at b.starts_at

-- WHERE s.status IN ('active', 'scheduled', 'completed', 'paused'), which are all there are
abbrev pub is_listed : Joined → Bool
is_listed row = true

unfoldable pub get_active_sales : Database → List Joined
get_active_sales db =
    order_by listed_first (select is_listed (with_inventory db.inventory db.sales))

-- ORDER BY s.created_at DESC
unfoldable pub admin_get_all_sales : Database → List Joined
admin_get_all_sales db = reverse (with_inventory db.inventory db.sales)

-- A sale of `list_all_sales`: `int(x) if x else None` of a text, which is never empty.
pub record ListedSale : Type 0 where
  pub sale : Joined
  pub queue_depth : ℕ
  pub redis_inventory : Option ℤ

-- A user of `admin_list_users`, newest first, with the numbers of orders and of reservations.
pub record ListedUser : Type 0 where
  pub user : User
  pub order_count : ℕ
  pub reservation_count : ℕ

unfoldable pub admin_list_users : List User → Database → List ListedUser
admin_list_users users db = reverse (
    map
      (λ (u : User). record {
        user = u;
        order_count = count_where (λ (o : Order). o.user_id == u.id) db.orders;
        reservation_count = count_where (λ (r : Reservation). r.user_id == u.id) db.reservations;
      })
      users)

module _ (C : KeyStore ℕ ℤ) (Q : SortedSets ℕ ℕ) (A : ExpiringStore (ℕ × ℕ) ℕ) where
  -- `reachable` says for each sale whether the calls of Redis for it come through.
  list_sale : (ℕ → Bool) → C.Db → Q.Db → Joined → ListedSale
  list_sale reachable c waiting (s, i) = record {
    sale = (s, i);
    queue_depth = get_queue_depth Q A (reachable s.id) s.id waiting;
    redis_inventory = if reachable s.id then C.get c s.id else none;
  }

  -- GET /admin/sales
  unfoldable pub list_all_sales : (ℕ → Bool) → C.Db → Q.Db → Database → List ListedSale
  unfolding list_sale
  list_all_sales reachable c waiting db =
      map (list_sale reachable c waiting) (admin_get_all_sales db)

  -- GET /admin/queue/{sale_id}: the depth and the first ten users.
  unfoldable pub get_queue_info : Bool → ℕ → Q.Db → ℕ × List ℕ
  get_queue_info redis_up sale_id waiting = (
    get_queue_depth Q A redis_up sale_id waiting,
    if redis_up then take 10 (Q.zrange waiting sale_id) else [],
  )

-- A row of the joined tables in `get_sale_stats`.
abbrev pub StatsRow : Type 0
StatsRow = Option Reservation × Option Order

-- COUNT(DISTINCT id)
abbrev pub occurs : ℕ → List ℕ → Bool
occurs k [] = false
occurs k (x ∷ xs) = x == k || occurs k xs

abbrev pub distinct : List ℕ → ℕ
distinct [] = 0
distinct (x ∷ xs) = let rest = distinct xs in if occurs x xs then rest else rest + 1

-- FILTER (WHERE r.status = ...)
abbrev pub reservation_ids : (ReservationStatus → Bool) → List StatsRow → List ℕ
reservation_ids p [] = []
reservation_ids p ((none, o) ∷ rows) = reservation_ids p rows
reservation_ids p ((some r, o) ∷ rows) =
    let rest = reservation_ids p rows in if p r.status then r.id ∷ rest else rest

abbrev pub order_ids : List StatsRow → List ℕ
order_ids [] = []
order_ids ((r, none) ∷ rows) = order_ids rows
order_ids ((r, some o) ∷ rows) = o.id ∷ order_ids rows

-- COALESCE(SUM(o.total_price), 0)
abbrev pub price_in : StatsRow → ℕ
price_in (r, none) = 0
price_in (r, some o) = o.total_price

abbrev pub is_confirmed : ReservationStatus → Bool
is_confirmed ReservationStatus.confirmed = true
is_confirmed _ = false

abbrev pub is_expired : ReservationStatus → Bool
is_expired ReservationStatus.expired = true
is_expired _ = false

pub record SaleStats : Type 0 where
  pub sale : Joined
  pub available_quantity : ℕ
  pub pending_reservations : ℕ
  pub confirmed_reservations : ℕ
  pub expired_reservations : ℕ
  pub total_orders : ℕ
  pub total_revenue : ℕ

-- GET /admin/sales/{sale_id}/stats, from the tables; the two numbers from Redis are added to it.
unfoldable pub get_sale_stats : ℕ → Database → Option SaleStats
get_sale_stats sale_id db = elim (get_sale_by_id sale_id db) [
  | none ↦ none
  | some (s, i) ↦
      let rows =
        joined (or_null (select (λ r. r.sale_id == sale_id) db.reservations))
          (or_null (select (λ o. o.sale_id == sale_id) db.orders)) in
      some (record {
        sale = (s, i);
        available_quantity = available i;
        pending_reservations = distinct (reservation_ids is_pending rows);
        confirmed_reservations = distinct (reservation_ids is_confirmed rows);
        expired_reservations = distinct (reservation_ids is_expired rows);
        total_orders = distinct (order_ids rows);
        total_revenue = sum_where (λ row. true) price_in rows;
      })
]

-- POST /admin/users/{user_id}/deactivate and /activate, DELETE /admin/users/{user_id}
unfoldable pub deactivate_user : ℕ → List User → Answer × List User
deactivate_user user_id users =
    let (changed, users') = admin_deactivate_user user_id users in
    (elim changed [ none ↦ not_found_404 | some _ ↦ success ], users')

unfoldable pub activate_user : ℕ → List User → Answer × List User
activate_user user_id users =
    let (changed, users') = admin_activate_user user_id users in
    (elim changed [ none ↦ not_found_404 | some _ ↦ success ], users')

unfoldable pub delete_user :
    ℕ
    → List User
    → List Preregistration
    → Database
    → Answer × List User × List Preregistration × Database
delete_user user_id users waiting db =
    let (deleted, users', waiting', db') = admin_delete_user user_id users waiting db in
    (if deleted then success else not_found_404, users', waiting', db')

-- GET /admin/dlq: `none` is a RabbitMQ that cannot be asked.
pub data DlqStatus : Type 0 where
  healthy warning critical : DlqStatus

unfoldable pub get_dlq_status : Option ℕ → Option (ℕ × DlqStatus)
get_dlq_status none = none
get_dlq_status (some count) =
    some (count, if ltb 5 count then critical else if ltb 0 count then warning else healthy)

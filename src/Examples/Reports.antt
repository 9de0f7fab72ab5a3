-- ===== src/Examples/Reports.antt =====
-- What is shown of sales and orders, a round of the expiry worker, and a start.
use flux_kart.Prelude.{
  ℕ, ◌*◌, ◌≡◌, ◌⊎◌, inl, refl, Bool, true, false, some, List, [], ◌∷◌, arith, ◌==◌, ltb,
  if◌then◌else◌, length, select, count_where, sum_where,
}
use flux_kart.Prelude.Sorting.{IsSorted}
use flux_kart.Prelude.Int.{pos}
use flux_kart.Inventory.{Stock}
use flux_kart.Db.{SaleStatus, OrderStatus, Sale, Database, done, is_pending}
use flux_kart.Db.Inventory.{IsStocked, get_inventory, update_inventory}
use flux_kart.Db.Orders.{get_order, set_order_status}
use flux_kart.Db.Reservations.{get_reservation_by_id, update_reservation_status}
use flux_kart.Db.Sales.{get_sale_by_id, is_sale, joins}
use flux_kart.QueueService.{present}
use flux_kart.Payments.{fetch_order, pay_transaction}
use flux_kart.Payments.Cart.{get_cart, shows}
use flux_kart.Payments.Cart.Emptied.{settled_leaves_cart}
use flux_kart.SaleAdmin.Reports.{
  SaleStats, get_sale_stats, is_confirmed, is_expired, get_active_sales,
}
use flux_kart.SaleAdmin.Reports.Stats.{all_orders, get_sale_stats_lem}
use flux_kart.SaleAdmin.Reports.Listed.{in_place, get_active_sales_lem}
use flux_kart.ExpiryWorker.Activation.{is_due, activate_scheduled_sales}
use flux_kart.ExpiryWorker.Loop.{due_count}
use flux_kart.ExpiryWorker.Rounds.{has_ended, run_round, run_round_clears}
use flux_kart.ExpiryWorker.Activation.Seeds.{begins, activate_scheduled_sales-seeds}
use flux_kart.Wiring.{live, unset, connect, init_rabbitmq}
use flux_kart.Wiring.Startup.{First, AllFail, came_through, gave_up, init_rabbitmq_lem}
use flux_kart.SaleAdmin.Lifecycle.Calls.{pause_call}
use flux_kart.Bodies.{SaleCreate}
use flux_kart.Bodies.Prices.{IsReduced}
use flux_kart.Bodies.Prices.Calls.{
  SaleCall, post, patch, administer, call_sales, call_sales-IsReduced,
}
use flux_kart.Examples.Reservations.{services}
use flux_kart.Examples.Life.{eight, shop}
use flux_kart.Examples.Trade.{
  counters, holds, stock, reservation, order, row, tables, unlocked, reachable,
}

abbrev sale : Sale
sale = record {
  id = 1;
  sale_price = 500;
  original_price = 900;
  total_quantity = 8;
  starts_at = 50;
  ends_at = 9000;
  status = SaleStatus.scheduled;
}

abbrev on_sale : Database
on_sale = record tables { sales = sale ∷ [] }

abbrev paid : Database
paid = record on_sale {
  inventory = record row { reserved_quantity = 3; sold_quantity = 3 } ∷ [];
  orders = record order { status = OrderStatus.paid } ∷ [];
}

settled_leaves_cart_example : count_where (shows 3) (get_cart 100 4 paid) ≡ 0
unfolding fetch_order get_order get_reservation_by_id pay_transaction set_order_status
    update_reservation_status update_inventory
settled_leaves_cart_example =
    settled_leaves_cart 7 4 100 4 (order, reservation) on_sale paid (omega arith) refl (inl refl)

abbrev stats : SaleStats
stats = record {
  sale = (sale, row);
  available_quantity = 2;
  pending_reservations = 0;
  confirmed_reservations = 1;
  expired_reservations = 0;
  total_orders = 1;
  total_revenue = 1000;
}

get_sale_stats_lem_example :
    let rs = select (λ r. r.sale_id == 1) on_sale.reservations in
    let os = select (λ o. o.sale_id == 1) on_sale.orders in
    (stats.pending_reservations ≡ count_where (λ r. is_pending r.status) rs)
    × (stats.confirmed_reservations ≡ count_where (λ r. is_confirmed r.status) rs)
    × (stats.expired_reservations ≡ count_where (λ r. is_expired r.status) rs)
    × (stats.total_revenue
        ≡ (if length rs == 0 then 1 else length rs) * sum_where all_orders (λ o. o.total_price) os)
unfolding get_sale_stats get_sale_by_id
get_sale_stats_lem_example = get_sale_stats_lem 1 on_sale stats (λ k. ground arith) refl

get_active_sales_lem_example :
    IsSorted in_place (get_active_sales on_sale)
    × (count_where (joins 1) (get_active_sales on_sale)
        ≡ (if present (get_inventory 1 on_sale) then count_where (is_sale 1) on_sale.sales else 0))
get_active_sales_lem_example = get_active_sales_lem 1 on_sale

run_round_clears_example :
    (n : ℕ) × (m : ℕ) × (db' : Database) × (st' : Stock counters holds) × (run_round counters holds
        2 1000 unlocked reachable reachable on_sale stock
      ≡ some (done (n, m, db', st')))
    × (due_count counters holds 1000 unlocked reachable db' ≡ 0)
    × (count_where (is_due 1000) db'.sales ≡ 0)
    × (count_where (has_ended 1000) db'.sales ≡ 0)
    × IsStocked db'.inventory
run_round_clears_example =
    run_round_clears counters holds 1000 unlocked reachable 2 reachable on_sale stock
      (omega arith, tt) (ground arith)

activate_scheduled_sales-seeds_example :
    let (_, db', c') = activate_scheduled_sales counters 1000 reachable on_sale stock.0 in
    (count_where (begins 1000) db'.sales ≡ 0) × (counters.get c' 1 ≡ some (pos 2))
activate_scheduled_sales-seeds_example =
    activate_scheduled_sales-seeds counters reachable 1 row on_sale refl refl 1000 stock.0

-- RabbitMQ answers from the third attempt on.
abbrev answers : ℕ → Bool
answers n = ltb 1 n

init_rabbitmq_lem_example :
    ((n : ℕ) × First answers 0 n
      × (connect 10 answers 0 0 ≡ came_through n (5 * n))
      × (init_rabbitmq answers unset
          ≡ (true, record unset { rabbitmq = some live; channel_pool = some live })))
    ⊎ (AllFail answers 0
        × (connect 10 answers 0 0 ≡ gave_up 45)
        × (init_rabbitmq answers unset ≡ (false, unset)))
init_rabbitmq_lem_example = init_rabbitmq_lem answers unset

abbrev body : SaleCreate
body = record { title = 1 ∷ 2 ∷ 3 ∷ []; product_name = 1 ∷ 2 ∷ []; sale = eight }

abbrev calls : List (Bool × SaleCall)
calls =
    (true, post 1 body)
    ∷ (false, patch 1 SaleStatus.active)
    ∷ (true, administer (pause_call 1))
    ∷ []

call_sales-IsReduced_example :
    IsReduced (call_sales services.counters services.holds services.waiting calls shop).db.sales
call_sales-IsReduced_example =
    call_sales-IsReduced services.counters services.holds services.waiting calls shop tt

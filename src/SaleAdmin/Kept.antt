-- ===== src/SaleAdmin/Kept.antt =====
-- What the calls that change a sale keep of the tables of its orders and its stock.
pub mod Calls
use flux_kart.Prelude.{
  ℕ, ◌≡◌, refl, sym, ◌⊎◌, Bool, true, false, [], ◌∷◌, ◌++◌, inl, inr, arith, ◌==◌, leb, not, ◌||◌,
  update_where, count_where, count_where-select-le, Bool-cases, Option-cases,
}
use mathlib.Core.Path.{subst}
use flux_kart.Prelude.Int.{ℤ, pos, ◌+ℤ◌, ltb_ℤ, pos_part}
use flux_kart.Redis.{KeyStore, ExpiringStore, SortedSets}
use flux_kart.Inventory.{Hold}
use flux_kart.Db.{InventoryRow, Database, done, Outcome-cases, is_active_sale}
use flux_kart.Db.Inventory.{update_inventory, for_sale}
use flux_kart.Db.Orders.{has_id, of_reservation}
use flux_kart.Db.Reservations.{IsUnique, is_active_for, has_key}
use flux_kart.Db.Sales.{
  SaleData, get_sale_by_id, update_sale_status, create_sale, admin_update_sale, admin_delete_sale,
  with_total, with_data, is_sale,
}
use flux_kart.SaleAdmin.{
  Answer, Shop, is_completed, admin_create_sale, edit_sale, delete_sale, activate_sale, pause_sale,
  resume_sale, complete_sale, adjust_inventory,
}
use flux_kart.SaleAdmin.Lifecycle.Calls.{
  AdminCall, create_call, edit_call, delete_call, complete_call, pause_call, resume_call,
  activate_call, adjust_call, handle,
}
use flux_kart.System.{IsSound}
use flux_kart.System.Tables.{
  SameTables, SameTables-IsSound, Settled-append, Settled-delete, IsStocked-append,
  IsStocked-select, update_inventory-IsSound, of_sale, units_paid-none,
}

pub create_sale-IsSound :
    (id : ℕ) (d : SaleData) (db db' : Database)
    → count_where (of_sale id) db.orders ≡ 0
    → create_sale id d db ≡ done db'
    → IsSound db
    → IsSound db'
unfolding create_sale
create_sale-IsSound id d db db' fresh e h =
    let i : InventoryRow = record {
      sale_id = id;
      total_quantity = d.total_quantity;
      reserved_quantity = 0;
      sold_quantity = 0;
    } in
    let kept : (db'.orders ≡ db.orders)
        × (db'.reservations ≡ db.reservations)
        × (db'.inventory ≡ db.inventory ++ i ∷ []) =
      ground arith in
    record {
      valid = record {
        stocked =
            rw kept.2 (IsStocked-append db.inventory (i ∷ []) h.valid.stocked (omega arith, tt));
        unique = subst IsUnique (sym kept.1) h.valid.unique;
        one_order = λ k. rw kept.0 (h.valid.one_order k);
        one_id = λ k. rw kept.0 (h.valid.one_id k);
      };
      settled =
          rw (kept.0, kept.2)
            (Settled-append db.orders db.inventory (i ∷ []) h.settled
              (sym (units_paid-none id db.orders fresh), tt));
    }

pub admin_update_sale-IsSound :
    (s : ℕ) (d : SaleData) (db db' : Database)
    → admin_update_sale s d db ≡ done db'
    → IsSound db
    → IsSound db'
unfolding admin_update_sale
admin_update_sale-IsSound s d db db' e h =
    let rows = update_where (is_sale s) (with_data d) db.sales in
    let db₁ : Database = record db { sales = rows } in
    update_inventory-IsSound s (with_total d.total_quantity) db₁ db' (λ i. refl) (λ i. refl) e
      (SameTables-IsSound db db₁ (record { inventory = refl; reservations = refl; orders = refl })
        h)

pub admin_delete_sale-IsSound :
    (s : ℕ) (db : Database) → IsSound db → IsSound (admin_delete_sale s db).1
unfolding admin_delete_sale
admin_delete_sale-IsSound s db h = record {
  valid = record {
    stocked = IsStocked-select (λ i. not (for_sale s i)) db.inventory h.valid.stocked;
    unique = record {
      one_active = λ u k. omega (
        arith,
        count_where-select-le (is_active_for u k) (λ r. not (r.sale_id == s)) db.reservations,
        h.valid.unique.one_active u k,
      );
      one_key = λ k. omega (
        arith,
        count_where-select-le (has_key k) (λ r. not (r.sale_id == s)) db.reservations,
        h.valid.unique.one_key k,
      );
    };
    one_order = λ k. omega (
      arith,
      count_where-select-le (of_reservation k) (λ o. not (o.sale_id == s)) db.orders,
      h.valid.one_order k,
    );
    one_id = λ k. omega (
      arith,
      count_where-select-le (has_id k) (λ o. not (o.sale_id == s)) db.orders,
      h.valid.one_id k,
    );
  };
  settled = Settled-delete db.orders s db.inventory h.settled;
}

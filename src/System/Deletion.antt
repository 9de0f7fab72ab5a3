-- ===== src/System/Deletion.antt =====
-- The deletion of a user, `admin_delete_user` of backend/app/db/queries/users.py, on the tables of
-- orders and stock.
use flux_kart.Prelude.{
  ℕ, ◌+◌, ◌≡◌, refl, sym, ◌∙◌, Bool, true, some, List, [], ◌∷◌, arith, ◌==◌, ◌&&◌, not, first,
  select, count_where, count_where-select-le, sum_where, Bool-cases, inl, inr, Option-cases,
}
use mathlib.Core.Path.{subst}
use flux_kart.Db.{Order, Reservation, InventoryRow, Database}
use flux_kart.Db.Inventory.{get_inventory}
use flux_kart.Db.Orders.{has_id, of_reservation}
use flux_kart.Db.Reservations.{is_active_for, has_key}
use flux_kart.Db.Users.{User, has_user_id, admin_delete_user}
use flux_kart.Admission.{Preregistration}
use flux_kart.System.{IsValid, IsSound, units_paid, paid_for}
use flux_kart.System.Sold.{first-Settled}

abbrev bought_by : ℕ → Order → Bool
bought_by user_id o = o.user_id == user_id

abbrev pub made_by : ℕ → Reservation → Bool
made_by user_id r = r.user_id == user_id

-- The units of the paid orders of a user in a sale.
abbrev pub units_bought : ℕ → ℕ → List Order → ℕ
units_bought user_id sale_id orders =
    sum_where (λ o. bought_by user_id o && paid_for sale_id o) (λ o. o.quantity) orders

units_paid-split :
    (u s : ℕ) (orders : List Order)
    → units_paid s orders
      ≡ units_paid s (select (λ o. not (bought_by u o)) orders) + units_bought u s orders
units_paid-split u s [] = refl
units_paid-split u s (o ∷ orders) = ground (arith, units_paid-split u s orders)

none_made_by :
    (u : ℕ) (rows : List Reservation)
    → count_where (made_by u) (select (λ r. not (made_by u r)) rows) ≡ 0
none_made_by u [] = refl
none_made_by u (r ∷ rows) = ground (arith, none_made_by u rows)

abbrev after_deletion : ℕ → Database → Database
after_deletion u db = record db {
  orders = select (λ o. not (bought_by u o)) db.orders;
  reservations = select (λ r. not (made_by u r)) db.reservations;
}

after_deletion-IsValid : (u : ℕ) (db : Database) → IsValid db → IsValid (after_deletion u db)
after_deletion-IsValid u db h = record {
  stocked = h.stocked;
  unique = record {
    one_active = λ a s. omega (
      arith,
      count_where-select-le (is_active_for a s) (λ r. not (made_by u r)) db.reservations,
      h.unique.one_active a s,
    );
    one_key = λ k. omega (
      arith,
      count_where-select-le (has_key k) (λ r. not (made_by u r)) db.reservations,
      h.unique.one_key k,
    );
  };
  one_order = λ k. omega (
    arith,
    count_where-select-le (of_reservation k) (λ o. not (bought_by u o)) db.orders,
    h.one_order k,
  );
  one_id = λ k.
      omega
        (arith, count_where-select-le (has_id k) (λ o. not (bought_by u o)) db.orders, h.one_id k);
}

deleted_tables :
    (u : ℕ) (users : List User) (waiting : List Preregistration) (db : Database)
    → (admin_delete_user u users waiting db).0 ≡ true
    → (admin_delete_user u users waiting db).3 ≡ after_deletion u db
unfolding admin_delete_user
deleted_tables u users waiting db e = elim (Option-cases (first (has_user_id u) users)) [
  | inl missing ↦ absurd (ground arith)
  | inr (x, there) ↦ elim (Bool-cases x.is_admin) [
    | inl admin ↦ absurd (ground arith)
    | inr ordinary ↦ ground arith
  ]
]

-- The deletion of a user, where it answers that it deleted, keeps the tables valid and leaves no
-- reservation of the user. The stock stays as it was: a sale's row still counts the units of the
-- deleted paid orders as sold and still holds the reserved units of the deleted reservations.
pub deleted_units_stay :
    (u s : ℕ) (users : List User) (waiting : List Preregistration) (i : InventoryRow)
    (db : Database)
    → IsSound db
    → get_inventory s db ≡ some i
    → (admin_delete_user u users waiting db).0 ≡ true
    → let db' = (admin_delete_user u users waiting db).3 in
      IsValid db'
      × (count_where (made_by u) db'.reservations ≡ 0)
      × (get_inventory s db' ≡ some i)
      × (i.sold_quantity ≡ units_paid s db'.orders + units_bought u s db.orders)
deleted_units_stay u s users waiting i db sound row deleted =
    let tables = deleted_tables u users waiting db deleted in
    subst
      (λ (db' : Database).
        IsValid db'
        × (count_where (made_by u) db'.reservations ≡ 0)
        × (get_inventory s db' ≡ some i)
        × (i.sold_quantity ≡ units_paid s db'.orders + units_bought u s db.orders))
      (sym tables)
      (
        after_deletion-IsValid u db sound.valid,
        none_made_by u db.reservations,
        row,
        first-Settled s i db.orders db.inventory sound.settled row ∙ units_paid-split u s db.orders,
      )

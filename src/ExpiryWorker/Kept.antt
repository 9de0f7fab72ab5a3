-- ===== src/ExpiryWorker/Kept.antt =====
-- What the expiry worker keeps of the tables.
use flux_kart.Prelude.{
  ℕ, ◌≡◌, refl, Bool, List, [], ◌∷◌, inl, inr, arith, ◌==◌, not, ◌&&◌, length, update_where,
  count_where-update, Bool-cases,
}
use mathlib.Core.Path.{subst}
use flux_kart.Prelude.Int.{ℤ}
use flux_kart.Redis.{KeyStore, ExpiringStore}
use flux_kart.Inventory.{Hold, Stock}
use flux_kart.Db.{Reservation, Order, Database, done, is_paid, Outcome-cases}
use flux_kart.Db.Inventory.{update_inventory, drop_reserved}
use flux_kart.Db.Orders.{has_id, of_reservation}
use flux_kart.Db.Reservations.{KeepsIndex, update_where-IsUnique}
use flux_kart.ExpiryWorker.{
  among, expire_row, expire_rows, group_by_sale, drop_groups, expire_transaction, fetch_batch,
  expire_batch, expire_sales,
}
use flux_kart.ExpiryWorker.Activation.{activate_scheduled_sales}
use flux_kart.System.{IsSound}
use flux_kart.System.Tables.{
  fail_row, units_paid-fail, Settled-orders, SameTables-IsSound, update_inventory-IsSound,
}

expire_rows-IsSound :
    (batch : List Reservation) (db : Database) → IsSound db → IsSound (expire_rows batch db)
unfolding expire_rows
expire_rows-IsSound batch db h = record {
  valid = record {
    stocked = h.valid.stocked;
    unique =
        update_where-IsUnique (λ r. among batch r.id) expire_row (λ r e. expires r) db.reservations
          h.valid.unique;
    one_order = λ k. omega (
      arith,
      count_where-update (of_reservation k) unpaid fail_row db.orders (λ o. refl),
      h.valid.one_order k,
    );
    one_id = λ k. omega (
      arith,
      count_where-update (has_id k) unpaid fail_row db.orders (λ o. refl),
      h.valid.one_id k,
    );
  };
  settled =
      Settled-orders db.orders (update_where unpaid fail_row db.orders) db.inventory
        (λ s. units_paid-fail s unpaid db.orders (λ o e. ground arith)) h.settled;
}
  where
    unpaid : Order → Bool
    unpaid o = among batch o.reservation_id && not (is_paid o.status)

    expires : (r : Reservation) → KeepsIndex expire_row r
    expires r = record { user = refl; sale = refl; key = refl; activity = λ e. ground arith }

drop_groups-IsSound :
    (groups : List (ℕ × ℕ)) (db db' : Database)
    → drop_groups groups db ≡ done db'
    → IsSound db
    → IsSound db'
unfolding drop_groups
drop_groups-IsSound [] db db' e h = let same : db ≡ db' = ground arith in subst IsSound same h
drop_groups-IsSound ((s, q) ∷ groups) db db' e h =
    elim (Outcome-cases (update_inventory s (drop_reserved q) db)) [
      | inl fails ↦ absurd (ground arith)
      | inr (db₁, dropped) ↦
          drop_groups-IsSound groups db₁ db' (ground arith)
            (update_inventory-IsSound s (drop_reserved q) db db₁ (λ i. refl) (λ i. refl) dropped h)
    ]

module _ (C : KeyStore ℕ ℤ) (H : ExpiringStore ℕ Hold) (now : ℕ) (locked reachable : ℕ → Bool) where
  pub expire_batch-IsSound :
      (db : Database) (st : Stock C H) (n : ℕ) (db' : Database) (st' : Stock C H)
      → expire_batch C H now locked reachable db st ≡ done (n, db', st')
      → IsSound db
      → IsSound db'
  unfolding expire_batch
  expire_batch-IsSound db st n db' st' e h =
      let batch = fetch_batch now locked db.reservations in
      elim (Bool-cases (length batch == 0)) [
        | inl empty ↦ let same : db ≡ db' = ground arith in subst IsSound same h
        | inr some_rows ↦ elim (Outcome-cases (expire_transaction batch db)) [
          | inl fails ↦ absurd (ground arith)
          | inr (db₁, expired) ↦
              let same : db₁ ≡ db' = ground arith in
              subst IsSound same (
                drop_groups-IsSound (group_by_sale [] batch) (expire_rows batch db) db₁
                  (unfold expire_transaction in expired) (expire_rows-IsSound batch db h))
        ]
      ]

pub expire_sales-IsSound : (now : ℕ) (db : Database) → IsSound db → IsSound (expire_sales now db).1
unfolding expire_sales
expire_sales-IsSound now db h =
    SameTables-IsSound db (expire_sales now db).1
      (record { inventory = refl; reservations = refl; orders = refl }) h

pub activate_scheduled_sales-IsSound :
    (C : KeyStore ℕ ℤ) (now : ℕ) (reachable : ℕ → Bool) (db : Database) (c : C.Db)
    → IsSound db
    → IsSound (activate_scheduled_sales C now reachable db c).1
unfolding activate_scheduled_sales
activate_scheduled_sales-IsSound C now reachable db c h =
    SameTables-IsSound db (activate_scheduled_sales C now reachable db c).1
      (record { inventory = refl; reservations = refl; orders = refl }) h

-- ===== src/Examples/Stock.antt =====
-- The inventory service and its fallback on a sale of five units.
use flux_kart.Prelude.{ℕ, ◌+◌, ◌-◌, ◌≤◌, ◌≡◌, refl, true, none, some, List, [], ◌∷◌, arith}
use flux_kart.Prelude.Int.{ℤ, pos, ◌-ℤ◌}
use flux_kart.Redis.{KeyStore, ExpiringStore}
use flux_kart.Inventory.{
  Hold, Stock, new_hold, try_reserve_inventory, release_inventory, try_increase_reservation,
  release_partial_inventory,
}
use flux_kart.Inventory.Accounting.{
  Call, reserve, release, increase, decrease, run, total_taken, total_returned, never_oversold,
}
use flux_kart.Inventory.Holds.{hold_lifetime, decrease-increase}
use flux_kart.Db.{InventoryRow, Database, done}
use flux_kart.Db.Inventory.{add_reserved}
use flux_kart.Degradation.{reserve_with_db_lock, reserve_with_db_lock_total}
use flux_kart.Examples.Stores.{write, key_store, expiring_store}

abbrev counters : KeyStore ℕ ℤ
counters = key_store ℤ

abbrev holds : ExpiringStore ℕ Hold
holds = expiring_store Hold

abbrev hold : Hold
hold = new_hold 0 1 4 2

-- Sale 1 has five units; reservation 9 of user 4 holds two, until the time 900000.
abbrev start : Stock counters holds
start = (write (λ _. none) 1 (some (pos 5)), write (λ _. none) 9 (some (hold, 900000)))

abbrev calls : List Call
calls =
    reserve 10 1 8 5 3 600
    ∷ reserve 20 1 7 6 3 600
    ∷ increase 30 1 9 1
    ∷ release 40 1 8 3
    ∷ decrease 50 1 9 1
    ∷ []

never_oversold_example :
    (counters.get (run counters holds calls start).0 1
      ≡ some (
          pos (
            5
            + total_returned counters holds 1 calls start
            - total_taken counters holds 1 calls start)))
    × (total_taken counters holds 1 calls start ≤ 5 + total_returned counters holds 1 calls start)
never_oversold_example = never_oversold counters holds 1 5 calls start refl

hold_lifetime_example :
    let reserved = (try_reserve_inventory counters holds 10 1 8 5 3 600 start).1 in
    let released = release_inventory counters holds 20 1 8 3 reserved in
    (counters.get released.0 1 ≡ some (pos 5))
    × (holds.get released.1 20 8 ≡ none)
    × (release_inventory counters holds 600011 2 8 3 reserved ≡ reserved)
    × (counters.get reserved.0 1 ≡ some (pos 5 -ℤ pos 3))
unfolding try_reserve_inventory
hold_lifetime_example =
    hold_lifetime counters holds 10 20 600011 1 2 8 5 3 3 600 (pos 5) start refl refl (omega arith)
      (omega arith)

decrease-increase_example :
    let up = (try_increase_reservation counters holds 10 1 9 2 start).1 in
    let down = (release_partial_inventory counters holds 20 1 9 2 up).1 in
    (counters.get down.0 1 ≡ some (pos 5)) × (holds.get down.1 30 9 ≡ some hold)
unfolding try_increase_reservation release_partial_inventory
decrease-increase_example =
    decrease-increase counters holds 10 20 30 1 9 2 (pos 5) hold start refl refl (omega arith) refl
      (omega arith) refl

-- The row of the sale in PostgreSQL.
abbrev row : InventoryRow
row = record { sale_id = 1; total_quantity = 8; reserved_quantity = 2; sold_quantity = 1 }

abbrev tables : Database
tables = record {
  sales = [];
  inventory = row ∷ [];
  reservations = [];
  orders = [];
  outbox_events = [];
}

reserve_with_db_lock_total_example :
    reserve_with_db_lock 1 3 tables
    ≡ done (true, record tables { inventory = add_reserved 3 row ∷ [] })
reserve_with_db_lock_total_example =
    reserve_with_db_lock_total 1 3 row tables (omega arith, tt) (omega arith) refl

-- ===== src/Degradation.antt =====
-- backend/app/utils/degradation.py: the reservation of inventory in Redis, and the fallback to a
-- locked row in PostgreSQL when a call of Redis raises.
use flux_kart.Prelude.{
  ℕ, ◌≤◌, ◌≡◌, refl, Bool, true, false, none, some, arith, ltb, leb, if◌then◌else◌, count_where,
  update_where,
}
use flux_kart.Prelude.Int.{ℤ, pos, ◌-ℤ◌, ltb_ℤ}
use flux_kart.Redis.{KeyStore, ExpiringStore}
use flux_kart.Inventory.{Hold, Stock, try_reserve_inventory}
use flux_kart.Db.{InventoryRow, Database, Outcome, done, raised}
use flux_kart.Db.Inventory.{
  available, for_sale, get_inventory, update_inventory, add_reserved, IsStocked, first-IsStocked,
  update_inventory_lem, first-update_where,
}

-- How the calls of Redis went: they were answered; none reached the server; or the script ran and
-- its answer was lost on the way back, which raises in the caller like the second.
pub data Link : Type 0 where
  up unreachable reply_lost : Link

-- SELECT ... FOR UPDATE, the test and the UPDATE are one transaction.
unfoldable pub reserve_with_db_lock : ℕ → ℕ → Database → Outcome (Bool × Database)
reserve_with_db_lock sale_id quantity db = elim (get_inventory sale_id db) [
  | none ↦ done (false, db)
  | some row ↦
      if ltb (available row) quantity
      then done (false, db)
      else elim (update_inventory sale_id (add_reserved quantity) db) [
        | done db' ↦ done (true, db')
        | raised ↦ raised
      ]
]

module _ (C : KeyStore ℕ ℤ) (H : ExpiringStore ℕ Hold) where
  -- `try_reserve_with_fallback`
  unfoldable pub try_reserve_with_fallback :
      Link → ℕ → ℕ → ℕ → ℕ → ℕ → ℕ → Stock C H → Database → Outcome (Bool × Database) × Stock C H
  try_reserve_with_fallback up now sale_id reservation_id user_id quantity ttl_seconds st db =
      let (success, st') =
        try_reserve_inventory C H now sale_id reservation_id user_id quantity ttl_seconds st in
      (done (success, db), st')
  try_reserve_with_fallback unreachable now sale_id reservation_id user_id quantity ttl_seconds st
        db =
      (reserve_with_db_lock sale_id quantity db, st)
  try_reserve_with_fallback reply_lost now sale_id reservation_id user_id quantity ttl_seconds st
        db =
      let (_, st') =
        try_reserve_inventory C H now sale_id reservation_id user_id quantity ttl_seconds st in
      (reserve_with_db_lock sale_id quantity db, st')

-- Over rows that pass their CHECK, with one row to a sale, the fallback never raises: it answers
-- whether the row has the units, takes them from the row if so, and changes nothing if not.
pub reserve_with_db_lock_total :
    (s q : ℕ) (i : InventoryRow) (db : Database)
    → IsStocked db.inventory
    → count_where (for_sale s) db.inventory ≤ 1
    → get_inventory s db ≡ some i
    → reserve_with_db_lock s q db
      ≡ done (
        leb q (available i),
        (if leb q (available i)
            then record db { inventory = update_where (for_sale s) (add_reserved q) db.inventory }
            else db),
      )
unfolding reserve_with_db_lock
reserve_with_db_lock_total s q i db h u e =
    ground (
      arith,
      first-IsStocked s i db.inventory h,
      update_inventory_lem s (add_reserved q) i db h u e,
    )

-- A lost answer reserves twice: where both stores have the units, the script has taken them from
-- the counter and the fallback takes them from the row as well, and the caller is told of success.
pub reply_lost_reserves_twice :
    (C : KeyStore ℕ ℤ) (H : ExpiringStore ℕ Hold) (now s r u q ttl : ℕ) (v : ℤ) (i : InventoryRow)
    (st : Stock C H) (db : Database)
    → IsStocked db.inventory
    → count_where (for_sale s) db.inventory ≤ 1
    → C.get st.0 s ≡ some v
    → ltb_ℤ v (pos q) ≡ false
    → get_inventory s db ≡ some i
    → q ≤ available i
    → let db' = record db { inventory = update_where (for_sale s) (add_reserved q) db.inventory } in
      ((try_reserve_with_fallback C H reply_lost now s r u q ttl st db).0 ≡ done (true, db'))
      × (C.get (try_reserve_with_fallback C H reply_lost now s r u q ttl st db).1.0 s
          ≡ some (v -ℤ pos q))
      × (get_inventory s db' ≡ some (add_reserved q i))
unfolding try_reserve_with_fallback try_reserve_inventory
reply_lost_reserves_twice C H now s r u q ttl v i (c, h) db stocked unique e enough row room = (
  ground (arith, reserve_with_db_lock_total s q i db stocked unique row),
  ground (arith, C.get-set_self c s (v -ℤ pos q)),
  first-update_where s (add_reserved q) i db.inventory (λ j. refl) row,
)

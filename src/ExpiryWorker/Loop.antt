-- ===== src/ExpiryWorker/Loop.antt =====
-- One batch and the inner loop of the expiry worker.
use flux_kart.Prelude.{
  ℕ, zero, suc, ◌+◌, ◌<◌, ◌≡◌, refl, sym, ap, ◌∙◌, Bool, ◌⊎◌, inl, inr, some, List, [], ◌∷◌, arith,
  ◌==◌, ltb, length, count_where, Bool-cases,
}
use flux_kart.Prelude.Int.{ℤ}
use flux_kart.Redis.{KeyStore, ExpiringStore}
use flux_kart.Inventory.{Hold, Stock}
use flux_kart.Db.{Reservation, Database, done}
use flux_kart.Db.Inventory.{
  IsStocked, with_dropped, all_valid-IsStocked, drop-all_valid, update_inventory-drop,
}
use flux_kart.ExpiryWorker.{
  batch_size, fetch_batch, among, expire_rows, group_by_sale, drop_groups, expire_transaction,
  sale_is_active, release_batch, expire_batch, expire_reservations,
}
use flux_kart.ExpiryWorker.Batch.{due, expired_rows, batch_progress, short_batch_clears}

-- The UPDATEs of the inventory go through and leave the reservations alone.
drop_groups_lem :
    (groups : List (ℕ × ℕ)) (db : Database)
    → IsStocked db.inventory
    → (db' : Database) × (drop_groups groups db ≡ done db')
      × (db'.reservations ≡ db.reservations)
      × IsStocked db'.inventory
unfolding drop_groups
drop_groups_lem [] db h = (db, refl, refl, h)
drop_groups_lem ((s, q) ∷ groups) db h =
    let (db', e, same, h') =
      drop_groups_lem groups (with_dropped s q db)
        (all_valid-IsStocked (with_dropped s q db).inventory (drop-all_valid s q db.inventory h)) in
    (db', ground (arith, update_inventory-drop s q db h), same, h')

expired_none :
    (now : ℕ) (locked : ℕ → Bool) (batch rows : List Reservation)
    → length batch ≡ 0
    → expired_rows now locked batch rows ≡ rows
unfolding among
expired_none now locked batch [] h = refl
expired_none now locked [] (r ∷ rows) h = ap (λ xs. r ∷ xs) (expired_none now locked [] rows h)
expired_none now locked (x ∷ batch) (r ∷ rows) h = absurd (omega arith)

module _ (C : KeyStore ℕ ℤ) (H : ExpiringStore ℕ Hold) (now : ℕ) (locked reachable : ℕ → Bool) where
  abbrev pub due_count : Database → ℕ
  due_count db = count_where (due now locked) db.reservations

  -- One batch: the rows that it returns are expired and the CHECKs hold.
  pub expire_batch_lem :
      (db : Database) (st : Stock C H)
      → IsStocked db.inventory
      → let batch = fetch_batch now locked db.reservations in
        (db' : Database) × (st' : Stock C H) × (expire_batch C H now locked reachable db st
          ≡ done (length batch, db', st'))
        × (db'.reservations ≡ expired_rows now locked batch db.reservations)
        × IsStocked db'.inventory
        × ((st' ≡ st) ⊎ (st' ≡ release_batch C H now (sale_is_active db) reachable batch st))
  expire_batch_lem db st h =
      let batch = fetch_batch now locked db.reservations in
      let (db', e, rows, h') =
        drop_groups_lem (group_by_sale [] batch) (expire_rows batch db) (unfold expire_rows in h) in
      elim (Bool-cases (length batch == 0)) [
        | inl empty ↦ (
          db,
          st,
          unfold expire_batch in ground arith,
          sym (expired_none now locked batch db.reservations (ground arith)),
          h,
          inl refl,
        )
        | inr some_rows ↦ (
          db',
          release_batch C H now (sale_is_active db) reachable batch st,
          unfold expire_batch expire_transaction in ground (arith, e),
          unfold expire_rows in rows,
          h',
          inr refl,
        )
      ]

  -- The loop ends within as many rounds as there are due reservations, and one: it then raised
  -- nothing, no due reservation that it may lock is left, and every inventory row passes its CHECK.
  pub expire_reservations_clears :
      (fuel total : ℕ) (db : Database) (st : Stock C H)
      → IsStocked db.inventory
      → due_count db < fuel
      → (n : ℕ) × (db' : Database) × (st' : Stock C H) × (expire_reservations C H fuel now locked
            reachable total db st
          ≡ some (done (n, db', st')))
        × (due_count db' ≡ 0)
        × IsStocked db'.inventory
  unfolding expire_reservations
  expire_reservations_clears zero total db st h few = absurd (omega arith)
  expire_reservations_clears (suc fuel) total db st h few =
      let batch = fetch_batch now locked db.reservations in
      let (db', st', e, rows, h', _) = expire_batch_lem db st h in
      let counted = ap (count_where (due now locked)) rows in
      elim (Bool-cases (ltb (length batch) batch_size)) [
        | inl short ↦ (
          total + length batch,
          db',
          st',
          ground (arith, e),
          counted ∙ short_batch_clears now locked db.reservations (ground arith),
          h',
        )
        | inr full ↦
            let fewer = batch_progress now locked db.reservations (ground arith) in
            let (n, db'', st'', e', none_due, h'') =
              expire_reservations_clears fuel (total + length batch) db' st' h'
                (omega (arith, counted, fewer)) in
            (n, db'', st'', ground (arith, e, e'), none_due, h'')
      ]

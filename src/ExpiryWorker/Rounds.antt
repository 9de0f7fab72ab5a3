-- ===== src/ExpiryWorker/Rounds.antt =====
-- A round of the loop of `start_expiry_worker`: the sales that begin, the overdue reservations, the
-- sales that have ended.
use flux_kart.Prelude.{
  ℕ, zero, suc, ◌+◌, ◌<◌, ◌≡◌, refl, ap, ◌∙◌, Bool, Option, none, some, List, [], ◌∷◌, inl, inr,
  arith, ◌==◌, ltb, ◌&&◌, length, update_where, count_where, Bool-cases,
}
use flux_kart.Prelude.Int.{ℤ}
use flux_kart.Redis.{KeyStore, ExpiringStore}
use flux_kart.Inventory.{Hold, Stock}
use flux_kart.Db.{SaleStatus, Sale, Database, Outcome, done, raised, is_active_sale, Outcome-cases}
use flux_kart.Db.Inventory.{IsStocked, update_inventory, drop_reserved}
use flux_kart.ExpiryWorker.{
  batch_size, fetch_batch, expire_transaction, expire_rows, group_by_sale, drop_groups,
  expire_batch, expire_reservations, expire_sales,
}
use flux_kart.ExpiryWorker.Activation.{is_due, activate_scheduled_sales}
use flux_kart.ExpiryWorker.Activation.Seeds.{none_due}
use flux_kart.ExpiryWorker.Loop.{due_count, expire_reservations_clears}

-- status = 'active' AND ends_at < NOW()
abbrev pub has_ended : ℕ → Sale → Bool
has_ended now s = is_active_sale s.status && ltb s.ends_at now

module _ (C : KeyStore ℕ ℤ) (H : ExpiringStore ℕ Hold) where
  -- The numbers of reservations and of sales, and what is left; an exception ends the round and is
  -- logged. `sale_reached` and `reached` say for which sales and reservations Redis answers.
  unfoldable pub run_round :
      ℕ
      → ℕ
      → (ℕ → Bool)
      → (ℕ → Bool)
      → (ℕ → Bool)
      → Database
      → Stock C H
      → Option (Outcome (ℕ × ℕ × Database × Stock C H))
  run_round fuel now locked sale_reached reached db (c, h) =
      let (_, db₁, c₁) = activate_scheduled_sales C now sale_reached db c in
      elim (expire_reservations C H fuel now locked reached 0 db₁ (c₁, h)) [
        | none ↦ none
        | some raised ↦ some raised
        | some (done (n, db₂, st)) ↦
            let (m, db₃) = expire_sales now db₂ in some (done (n, m, db₃, st))
      ]

none_ended :
    (now : ℕ) (sales : List Sale)
    → count_where
        (has_ended now)
        (update_where (has_ended now) (λ s. record s { status = SaleStatus.completed }) sales)
      ≡ 0
none_ended now [] = refl
none_ended now (s ∷ sales) = ground (arith, none_ended now sales)

none_due_ended :
    (now : ℕ) (sales : List Sale)
    → count_where (is_due now) sales ≡ 0
    → count_where
        (is_due now)
        (update_where (has_ended now) (λ s. record s { status = SaleStatus.completed }) sales)
      ≡ 0
none_due_ended now [] h = refl
none_due_ended now (s ∷ sales) h = ground (arith, none_due_ended now sales)

drop_groups-sales :
    (groups : List (ℕ × ℕ)) (db db' : Database)
    → drop_groups groups db ≡ done db'
    → db'.sales ≡ db.sales
unfolding drop_groups
drop_groups-sales [] db db' e = ground arith
drop_groups-sales ((s, q) ∷ groups) db db' e =
    elim (Outcome-cases (update_inventory s (drop_reserved q) db)) [
      | inl fails ↦ absurd (ground arith)
      | inr (db₁, dropped) ↦
          drop_groups-sales groups db₁ db' (ground arith)
          ∙ (unfold update_inventory in ground arith)
    ]

module _ (C : KeyStore ℕ ℤ) (H : ExpiringStore ℕ Hold) (now : ℕ) (locked reached : ℕ → Bool) where
  expire_batch-sales :
      (db : Database) (st : Stock C H) (n : ℕ) (db' : Database) (st' : Stock C H)
      → expire_batch C H now locked reached db st ≡ done (n, db', st')
      → db'.sales ≡ db.sales
  unfolding expire_batch
  expire_batch-sales db st n db' st' e =
      let batch = fetch_batch now locked db.reservations in
      elim (Bool-cases (length batch == 0)) [
        | inl empty ↦ ground arith
        | inr some_rows ↦ elim (Outcome-cases (expire_transaction batch db)) [
          | inl fails ↦ absurd (ground arith)
          | inr (db₁, expired) ↦
              let kept : db₁.sales ≡ db.sales =
                drop_groups-sales (group_by_sale [] batch) (expire_rows batch db) db₁
                  (unfold expire_transaction in expired)
                ∙ (unfold expire_rows in refl) in
              ground arith
        ]
      ]

  expire_reservations-sales :
      (fuel total : ℕ) (db : Database) (st : Stock C H) (n : ℕ) (db' : Database) (st' : Stock C H)
      → expire_reservations C H fuel now locked reached total db st ≡ some (done (n, db', st'))
      → db'.sales ≡ db.sales
  unfolding expire_reservations
  expire_reservations-sales zero total db st n db' st' e = absurd (ground arith)
  expire_reservations-sales (suc fuel) total db st n db' st' e =
      elim (Outcome-cases (expire_batch C H now locked reached db st)) [
        | inl fails ↦ absurd (ground arith)
        | inr ((count, db₁, st₁), ok) ↦
            let kept = expire_batch-sales db st count db₁ st₁ ok in
            elim (Bool-cases (ltb count batch_size)) [
              | inl last ↦ ground arith
              | inr more ↦
                  expire_reservations-sales fuel (total + count) db₁ st₁ n db' st' (ground arith)
                  ∙ kept
            ]
      ]

  -- A round of the expiry worker, over rows of the inventory that pass their CHECK and on more fuel
  -- than there are due reservations, raises nothing. It leaves no reservation that is due and not
  -- locked, no scheduled sale whose time has come and no active sale that has ended, and the rows of
  -- the inventory still pass their CHECK.
  pub run_round_clears :
      (fuel : ℕ) (sale_reached : ℕ → Bool) (db : Database) (st : Stock C H)
      → IsStocked db.inventory
      → due_count C H now locked reached db < fuel
      → (n : ℕ) × (m : ℕ) × (db' : Database) × (st' : Stock C H) × (run_round C H fuel now locked
            sale_reached reached db st
          ≡ some (done (n, m, db', st')))
        × (due_count C H now locked reached db' ≡ 0)
        × (count_where (is_due now) db'.sales ≡ 0)
        × (count_where (has_ended now) db'.sales ≡ 0)
        × IsStocked db'.inventory
  unfolding run_round activate_scheduled_sales expire_sales
  run_round_clears fuel sale_reached db (c, h) stocked few =
      let (_, db₁, c₁) = activate_scheduled_sales C now sale_reached db c in
      let (n, db₂, st₂, ok, none_left, stocked₂) =
        expire_reservations_clears C H now locked reached fuel 0 db₁ (c₁, h) stocked few in
      let kept = expire_reservations-sales fuel 0 db₁ (c₁, h) n db₂ st₂ ok in
      let no_due : count_where (is_due now) db₂.sales ≡ 0 =
        ap (count_where (is_due now)) kept ∙ none_due now db.sales in
      (
        n,
        (expire_sales now db₂).0,
        (expire_sales now db₂).1,
        st₂,
        ground (arith, ok),
        none_left,
        none_due_ended now db₂.sales no_due,
        none_ended now db₂.sales,
        stocked₂,
      )

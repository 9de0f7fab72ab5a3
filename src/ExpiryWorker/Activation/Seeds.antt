-- ===== src/ExpiryWorker/Activation/Seeds.antt =====
-- What the activation of sales leaves in the table and in the counters.
use flux_kart.Prelude.{
  leb, false, ◌-◌, ℕ, ◌≡◌, refl, ◌∙◌, Bool, true, none, some, List, [], ◌∷◌, inl, inr, arith, ◌==◌,
  ltb, ◌&&◌, if◌then◌else◌, select, update_where, count_where, Bool-cases, Option-cases,
}
use mathlib.Core.Path.{subst}
use flux_kart.Prelude.Int.{ℤ, pos}
use flux_kart.Redis.{KeyStore}
use flux_kart.Db.{SaleStatus, Sale, InventoryRow, Database}
use flux_kart.Db.Inventory.{available, get_inventory}
use flux_kart.Db.Sales.{is_sale}
use flux_kart.ExpiryWorker.Activation.{is_due, seed_counters, activate_scheduled_sales}

pub none_due :
    (now : ℕ) (sales : List Sale)
    → count_where
        (is_due now)
        (update_where (is_due now) (λ s. record s { status = SaleStatus.active }) sales)
      ≡ 0
none_due now [] = refl
none_due now (s ∷ sales) = ground (arith, none_due now sales)

-- A scheduled sale whose time has come.
abbrev pub waits : SaleStatus → Bool
waits SaleStatus.scheduled = true
waits SaleStatus.active = false
waits SaleStatus.paused = false
waits SaleStatus.completed = false

abbrev pub begins : ℕ → Sale → Bool
begins now s = waits s.status && leb s.starts_at now

is_due-begins : (now : ℕ) (s : Sale) → begins now s ≡ is_due now s
is_due-begins now s = by_status s.status
  where
    by_status :
        (t : SaleStatus)
        → (waits t && leb s.starts_at now)
          ≡ elim t as (λ _. Bool) [ SaleStatus.scheduled ↦ leb s.starts_at now | _ ↦ false ]
    by_status SaleStatus.scheduled = refl
    by_status SaleStatus.active = refl
    by_status SaleStatus.paused = refl
    by_status SaleStatus.completed = refl

count_where-begins :
    (now : ℕ) (sales : List Sale) → count_where (begins now) sales ≡ count_where (is_due now) sales
count_where-begins now [] = refl
count_where-begins now (s ∷ sales) = rw (is_due-begins now s, count_where-begins now sales) refl

count_where-selected :
    (now k : ℕ) (sales : List Sale)
    → count_where (λ s. s.id == k && begins now s) sales
      ≡ count_where (is_sale k) (select (is_due now) sales)
count_where-selected now k [] = refl
count_where-selected now k (s ∷ sales) = elim (Bool-cases (is_due now s)) [
  | inl due ↦ rw (is_due-begins now s, count_where-selected now k sales, due) (ground arith)
  | inr other ↦ rw (is_due-begins now s, count_where-selected now k sales, other) (ground arith)
]

abbrev activated : ℕ → List Sale → List Sale
activated now sales = update_where (is_due now) (λ s. record s { status = SaleStatus.active }) sales

-- The counters after the activation.
module _ (C : KeyStore ℕ ℤ) (reached : ℕ → Bool) (k : ℕ) (i : InventoryRow) (db : Database)
    (row : get_inventory k db ≡ some i) (up : reached k ≡ true) where
  seed_one : (s : Sale) → C.Db → C.Db
  seed_one s c = elim (get_inventory s.id db) [
    | none ↦ c
    | some j ↦ if reached s.id then C.set c s.id (pos (available j)) else c
  ]

  seed_one-get :
      (s : Sale) (c : C.Db)
      → C.get (seed_one s c) k ≡ (if is_sale k s then some (pos (available i)) else C.get c k)
  unfolding seed_one
  seed_one-get s c = elim (Bool-cases (s.id == k)) [
    | inl same ↦
        let eq : k ≡ s.id = ground arith in
        let found : get_inventory s.id db ≡ some i =
          subst (λ j. get_inventory j db ≡ some i) eq row in
        let live : reached s.id ≡ true = subst (λ j. reached j ≡ true) eq up in
        ground (arith, found, live, C.get-set_self c s.id (pos (available i)))
    | inr other ↦ elim (Option-cases (get_inventory s.id db)) [
      | inl missing ↦ ground (arith, missing)
      | inr (j, there) ↦ ground (arith, there, C.get-set_ne c s.id k (pos (available j)))
    ]
  ]

  seed_counters-get :
      (sales : List Sale) (c : C.Db)
      → C.get (seed_counters C reached db sales c) k
        ≡ (if ltb 0 (count_where (is_sale k) sales) then some (pos (available i)) else C.get c k)
  unfolding seed_counters seed_one
  seed_counters-get [] c = refl
  seed_counters-get (s ∷ sales) c =
      seed_counters-get sales (seed_one s c) ∙ ground (arith, seed_one-get s c)

  -- The activation, where the sale `k` has a row of the inventory and Redis is reached for it: if `k`
  -- is scheduled and its time has come, its counter is then the number of units of the row that are
  -- neither reserved nor sold, and else it stays; no scheduled sale is left whose time has come.
  pub activate_scheduled_sales-seeds :
      (now : ℕ) (c : C.Db)
      → let (_, db', c') = activate_scheduled_sales C now reached db c in
        (count_where (begins now) db'.sales ≡ 0)
        × (C.get c' k ≡ (
            if ltb 0 (count_where (λ s. s.id == k && begins now s) db.sales)
            then some (pos (i.total_quantity - i.reserved_quantity - i.sold_quantity))
            else C.get c k))
  unfolding activate_scheduled_sales
  activate_scheduled_sales-seeds now c = (
    count_where-begins now (activated now db.sales) ∙ none_due now db.sales,
    rw (count_where-selected now k db.sales) (seed_counters-get (select (is_due now) db.sales) c),
  )

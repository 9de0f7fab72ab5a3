-- ===== src/System/Tables.antt =====
-- What the statements on one table keep of it.
use flux_kart.Prelude.{
  ℕ, ◌+◌, ◌≤◌, ◌<◌, ◌≡◌, refl, sym, Bool, true, false, some, List, [], ◌∷◌, ◌++◌, arith, ◌==◌, not,
  if◌then◌else◌, first, select, update_where, count_where, update_where-none, Bool-cases, inl, inr,
  ◌∙◌,
}
use mathlib.Core.Path.{subst}
use flux_kart.Db.{Order, OrderStatus, InventoryRow, Database, done, is_paid}
use flux_kart.Db.Inventory.{
  for_sale, sell_reserved, IsStocked, update_inventory, update_inventory-IsStocked,
}
use flux_kart.Db.Orders.{has_id, owned}
use flux_kart.Db.Reservations.{IsUnique}
use flux_kart.System.{paid_for, units_paid, Settled, IsSound}

-- The orders table.

-- Failing orders that are not paid moves no paid unit.
abbrev pub fail_row : Order → Order
fail_row o = record o { status = OrderStatus.failed }

pub units_paid-fail :
    (s : ℕ) (p : Order → Bool) (rows : List Order)
    → ((o : Order) → p o ≡ true → is_paid o.status ≡ false)
    → units_paid s (update_where p fail_row rows) ≡ units_paid s rows
units_paid-fail s p [] h = refl
units_paid-fail s p (o ∷ rows) h = ground (arith, h o, units_paid-fail s p rows h)

count-found :
    (k u : ℕ) (o : Order) (rows : List Order)
    → first (owned k u) rows ≡ some o
    → 0 < count_where (has_id o.id) rows
count-found k u o [] e = absurd (ground arith)
count-found k u o (x ∷ rows) e = ground (arith, count-found k u o rows)

-- The one order with its id, found unpaid, gets another status.
pub units_paid-one :
    (k u s : ℕ) (t : OrderStatus) (o : Order) (rows : List Order)
    → first (owned k u) rows ≡ some o
    → count_where (has_id o.id) rows ≤ 1
    → is_paid o.status ≡ false
    → units_paid s (update_where (has_id o.id) (λ x. record x { status = t }) rows)
      ≡ units_paid s rows + (if paid_for s (record o { status = t }) then o.quantity else 0)
units_paid-one k u s t o [] e one unpaid = absurd (ground arith)
units_paid-one k u s t o (x ∷ rows) e one unpaid = ground (
  arith,
  update_where-none (has_id o.id) (λ x. record x { status = t }) rows,
  units_paid-one k u s t o rows,
  count-found k u o rows,
)

pub units_paid-append :
    (s : ℕ) (xs ys : List Order) → units_paid s (xs ++ ys) ≡ units_paid s xs + units_paid s ys
units_paid-append s [] ys = omega arith
units_paid-append s (x ∷ xs) ys = ground (arith, units_paid-append s xs ys)

abbrev pub of_sale : ℕ → Order → Bool
of_sale sale_id o = o.sale_id == sale_id

pub units_paid-none :
    (s : ℕ) (rows : List Order) → count_where (of_sale s) rows ≡ 0 → units_paid s rows ≡ 0
units_paid-none s [] h = refl
units_paid-none s (o ∷ rows) h = ground (arith, units_paid-none s rows)

pub units_paid-other :
    (s k : ℕ) (rows : List Order)
    → (s == k) ≡ false
    → units_paid s (select (λ o. not (o.sale_id == k)) rows) ≡ units_paid s rows
units_paid-other s k [] h = refl
units_paid-other s k (o ∷ rows) h = ground (arith, units_paid-other s k rows)

-- The rows of the inventory against the orders.
module _ (orders : List Order) where
  pub Settled-orders :
      (orders' : List Order) (rows : List InventoryRow)
      → ((s : ℕ) → units_paid s orders' ≡ units_paid s orders)
      → Settled orders rows
      → Settled orders' rows
  Settled-orders orders' [] same h = tt
  Settled-orders orders' (i ∷ rows) same h =
      (h.0 ∙ sym (same i.sale_id), Settled-orders orders' rows same h.1)

  pub Settled-update :
      (p : InventoryRow → Bool) (f : InventoryRow → InventoryRow) (rows : List InventoryRow)
      → ((i : InventoryRow) → (f i).sale_id ≡ i.sale_id)
      → ((i : InventoryRow) → (f i).sold_quantity ≡ i.sold_quantity)
      → Settled orders rows
      → Settled orders (update_where p f rows)
  Settled-update p f [] sale sold h = tt
  Settled-update p f (i ∷ rows) sale sold h = (
    elim (Bool-cases (p i)) [ inl hit ↦ simp (hit, sale i, sold i) h.0 | inr miss ↦ simp miss h.0 ],
    Settled-update p f rows sale sold h.1,
  )

  -- A payment adds its units to the row of its sale.
  pub Settled-sell :
      (k q : ℕ) (orders' : List Order) (rows : List InventoryRow)
      → ((s : ℕ) → units_paid s orders' ≡ units_paid s orders + (if k == s then q else 0))
      → Settled orders rows
      → Settled orders' (update_where (for_sale k) (sell_reserved q) rows)
  Settled-sell k q orders' [] added h = tt
  Settled-sell k q orders' (i ∷ rows) added h =
      (ground (arith, added i.sale_id, h.0), Settled-sell k q orders' rows added h.1)

  pub Settled-append :
      (xs ys : List InventoryRow)
      → Settled orders xs
      → Settled orders ys
      → Settled orders (xs ++ ys)
  Settled-append [] ys h h' = h'
  Settled-append (x ∷ xs) ys h h' = (h.0, Settled-append xs ys h.1 h')

  pub Settled-delete :
      (k : ℕ) (rows : List InventoryRow)
      → Settled orders rows
      → Settled (select (λ o. not (o.sale_id == k)) orders) (select (λ i. not (for_sale k i)) rows)
  Settled-delete k [] h = tt
  Settled-delete k (i ∷ rows) h = elim (Bool-cases (i.sale_id == k)) [
    | inl gone ↦ simp gone (Settled-delete k rows h.1)
    | inr stays ↦
        simp stays
          (h.0 ∙ sym (units_paid-other i.sale_id k orders stays), Settled-delete k rows h.1)
  ]

pub IsStocked-append :
    (xs ys : List InventoryRow) → IsStocked xs → IsStocked ys → IsStocked (xs ++ ys)
IsStocked-append [] ys h h' = h'
IsStocked-append (x ∷ xs) ys h h' = (h.0, IsStocked-append xs ys h.1 h')

pub IsStocked-select :
    (p : InventoryRow → Bool) (rows : List InventoryRow)
    → IsStocked rows
    → IsStocked (select p rows)
IsStocked-select p [] h = tt
IsStocked-select p (i ∷ rows) h = elim (Bool-cases (p i)) [
  | inl kept ↦ simp kept (h.0, IsStocked-select p rows h.1)
  | inr gone ↦ simp gone (IsStocked-select p rows h.1)
]

pub update_inventory-eq :
    (s : ℕ) (f : InventoryRow → InventoryRow) (db db' : Database)
    → update_inventory s f db ≡ done db'
    → db' ≡ record db { inventory = update_where (for_sale s) f db.inventory }
unfolding update_inventory
update_inventory-eq s f db db' e = ground arith

-- An UPDATE of the inventory that sells nothing.
pub update_inventory-IsSound :
    (s : ℕ) (f : InventoryRow → InventoryRow) (db db' : Database)
    → ((i : InventoryRow) → (f i).sale_id ≡ i.sale_id)
    → ((i : InventoryRow) → (f i).sold_quantity ≡ i.sold_quantity)
    → update_inventory s f db ≡ done db'
    → IsSound db
    → IsSound db'
update_inventory-IsSound s f db db' sale sold e h =
    let eq = update_inventory-eq s f db db' e in
    let db₁ : Database = record db { inventory = update_where (for_sale s) f db.inventory } in
    subst IsSound (sym eq) (record {
      valid = record {
        stocked =
            subst (λ (d : Database). IsStocked d.inventory) eq
              (update_inventory-IsStocked s f db db' e);
        unique = h.valid.unique;
        one_order = h.valid.one_order;
        one_id = h.valid.one_id;
      };
      settled = Settled-update db.orders (for_sale s) f db.inventory sale sold h.settled;
    })

-- Tables that differ in the sales or in the outbox.
pub record SameTables (db db' : Database) : Type 0 where
  pub inventory : db'.inventory ≡ db.inventory
  pub reservations : db'.reservations ≡ db.reservations
  pub orders : db'.orders ≡ db.orders

pub SameTables-IsSound : (db db' : Database) → SameTables db db' → IsSound db → IsSound db'
SameTables-IsSound db db' same h = record {
  valid = record {
    stocked = subst IsStocked (sym same.inventory) h.valid.stocked;
    unique = subst IsUnique (sym same.reservations) h.valid.unique;
    one_order = λ k. rw same.orders (h.valid.one_order k);
    one_id = λ k. rw same.orders (h.valid.one_id k);
  };
  settled = rw (same.orders, same.inventory) h.settled;
}

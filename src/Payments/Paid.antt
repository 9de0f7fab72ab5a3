-- ===== src/Payments/Paid.antt =====
-- Payments of an order one after the other, and the stock of its sale.
use flux_kart.Prelude.{
  ℕ, ◌≡◌, refl, sym, ap, ◌∙◌, Bool, true, false, some, List, [], ◌∷◌, arith, inl, inr, first,
  update_where, Option-cases, first-update,
}
use mathlib.Core.Path.{subst}
use mathlib.Core.Option.{some-injective}
use flux_kart.Redis.{ExpiringStore}
use flux_kart.Db.{
  Order, OrderStatus, ReservationStatus, InventoryRow, Database, Outcome, done, raised, is_paid,
}
use flux_kart.Db.Orders.{has_id, owned, get_order, set_order_status}
use flux_kart.Db.Reservations.{get_reservation_by_id, update_reservation_status}
use flux_kart.Db.Inventory.{
  for_sale, get_inventory, update_inventory, sell_reserved, IsStocked, update_inventory-IsStocked,
  first-update_where,
}
use flux_kart.Payments.{
  reply, Receipt, Fetched, fetch_order, pay_transaction, payment_error, pay_uncached, pay_order,
}
use flux_kart.Payments.Card.{Python, PaymentRequest}

abbrev pay_row : Order → Order
pay_row o = record o { status = OrderStatus.paid }

pub first-owned :
    (k u : ℕ) (o : Order) (rows : List Order) → first (owned k u) rows ≡ some o → o.id ≡ k
first-owned k u o [] e = cc
first-owned k u o (x ∷ rows) e = ground (arith, first-owned k u o rows)

first-pay_own :
    (k u : ℕ) (o : Order) (rows : List Order)
    → first (owned k u) rows ≡ some o
    → first (owned k u) (update_where (has_id o.id) pay_row rows) ≡ some (pay_row o)
first-pay_own k u o rows e =
    ground (arith, first-update (owned k u) (has_id o.id) pay_row o rows (λ y. refl) e)

-- The transaction marks the order, moves its units from reserved to sold, and touches no other row
-- of the orders table.
pub pay_transaction_lem :
    (f : Fetched) (db db' : Database)
    → pay_transaction f db ≡ done db'
    → (db'.orders ≡ update_where (has_id f.0.id) pay_row db.orders)
      × (db'.inventory
          ≡ update_where (for_sale f.0.sale_id) (sell_reserved f.0.quantity) db.inventory)
unfolding pay_transaction set_order_status update_reservation_status update_inventory
pay_transaction_lem f db db' e = ground arith

pay_transaction-IsStocked :
    (f : Fetched) (db db' : Database) → pay_transaction f db ≡ done db' → IsStocked db'.inventory
unfolding pay_transaction
pay_transaction-IsStocked f db db' e =
    through
      (update_reservation_status f.0.reservation_id ReservationStatus.confirmed
        (set_order_status f.0.id OrderStatus.paid db))
      e
  where
    through :
        (t : Outcome Database)
        → (elim t [
          | raised ↦ raised
          | done db₁ ↦ update_inventory f.0.sale_id (sell_reserved f.0.quantity) db₁
        ])
          ≡ done db'
        → IsStocked db'.inventory
    through raised h = absurd (ground arith)
    through (done db₁) h =
        update_inventory-IsStocked f.0.sale_id (sell_reserved f.0.quantity) db₁ db' h

pub fetch_order-get :
    (k u : ℕ) (f : Fetched) (db : Database)
    → fetch_order k u db ≡ some f
    → first (owned k u) db.orders ≡ some f.0
unfolding fetch_order get_order
fetch_order-get k u f db e = elim (Option-cases (first (owned k u) db.orders)) [
  | inl missing ↦ ground arith
  | inr (o, found) ↦ ground arith
]

pub fetch_order-reservation :
    (k u : ℕ) (f : Fetched) (db : Database)
    → fetch_order k u db ≡ some f
    → get_reservation_by_id f.0.reservation_id db ≡ some f.1
unfolding fetch_order get_order
fetch_order-reservation k u f db e = elim (Option-cases (first (owned k u) db.orders)) [
  | inl missing ↦ ground arith
  | inr (o, found) ↦ elim (Option-cases (get_reservation_by_id o.reservation_id db)) [
    | inl none_there ↦ ground arith
    | inr (r, there) ↦ ground arith
  ]
]

module _ (py : Python) (I : ExpiringStore ℕ Receipt) (key : ℕ → ℕ → List ℕ → ℕ) where
  -- What a payment that went through has found and done.
  uncached_paid :
      (up : Bool) (now u k : ℕ) (p : PaymentRequest) (x : Receipt) (db : Database) (cache : I.Db)
      → (pay_uncached py I key up now u k p db cache).0 ≡ reply x
      → (f : Fetched) × (fetch_order k u db ≡ some f)
        × (is_paid f.0.status ≡ false)
        × (pay_transaction f db ≡ done (pay_uncached py I key up now u k p db cache).1)
  unfolding pay_uncached payment_error
  uncached_paid up now u k p x db cache e = elim (Option-cases (fetch_order k u db)) [
    | inl missing ↦ absurd (ground arith)
    | inr (f, found) ↦ (f, found, ground arith, ground arith)
  ]

  paid_order_refused :
      (up : Bool) (now u k : ℕ) (p : PaymentRequest) (o : Order) (db : Database) (cache : I.Db)
      → first (owned k u) db.orders ≡ some o
      → is_paid o.status ≡ true
      → (pay_uncached py I key up now u k p db cache).1 ≡ db
  unfolding pay_uncached payment_error fetch_order get_order
  paid_order_refused up now u k p o db cache e paid = ground arith

  cached_or_refused :
      (up : Bool) (now u k : ℕ) (p : PaymentRequest) (o : Order) (db : Database) (cache : I.Db)
      → first (owned k u) db.orders ≡ some o
      → is_paid o.status ≡ true
      → (pay_order py I key up now u k p db cache).1 ≡ db
  unfolding pay_order
  cached_or_refused true now u k p o db cache e paid =
      ground (arith, paid_order_refused true now u k p o db cache e paid)
  cached_or_refused false now u k p o db cache e paid =
      paid_order_refused false now u k p o db cache e paid

  -- Once an order was paid, no later payment request of its user for it changes the tables again,
  -- whatever card it names, whatever the cache still holds and whether Redis is there or not.
  pub paid_only_once :
      (up up' : Bool) (now now' u k : ℕ) (p p' : PaymentRequest) (x : Receipt) (db : Database)
      (cache cache' : I.Db)
      → (pay_uncached py I key up now u k p db cache).0 ≡ reply x
      → let db' = (pay_uncached py I key up now u k p db cache).1 in
        (pay_order py I key up' now' u k p' db' cache').1 ≡ db'
  paid_only_once up up' now now' u k p p' x db cache cache' e =
      let (f, found, unpaid, ok) = uncached_paid up now u k p x db cache e in
      let db' = (pay_uncached py I key up now u k p db cache).1 in
      let there = fetch_order-get k u f db found in
      let (orders, _) = pay_transaction_lem f db db' ok in
      cached_or_refused up' now' u k p' (pay_row f.0) db' cache'
        (rw orders (first-pay_own k u f.0 db.orders there)) refl

  -- A payment moves exactly the units of its order from reserved to sold, in the row of its sale,
  -- and every row still passes its CHECK.
  pub payment_moves_stock :
      (up : Bool) (now u k : ℕ) (p : PaymentRequest) (x : Receipt) (o : Order) (i : InventoryRow)
      (db : Database) (cache : I.Db)
      → (pay_uncached py I key up now u k p db cache).0 ≡ reply x
      → first (owned k u) db.orders ≡ some o
      → get_inventory o.sale_id db ≡ some i
      → let db' = (pay_uncached py I key up now u k p db cache).1 in
        (get_inventory o.sale_id db' ≡ some (sell_reserved o.quantity i)) × IsStocked db'.inventory
  payment_moves_stock up now u k p x o i db cache e is_o row =
      let (f, found, unpaid, ok) = uncached_paid up now u k p x db cache e in
      let db' = (pay_uncached py I key up now u k p db cache).1 in
      let (_, stock) = pay_transaction_lem f db db' ok in
      let same : f.0 ≡ o = some-injective f.0 o (sym (fetch_order-get k u f db found) ∙ is_o) in
      (
        ap (first (for_sale o.sale_id)) (
              subst
                (λ (y : Order).
                  db'.inventory
                  ≡ update_where (for_sale y.sale_id) (sell_reserved y.quantity) db.inventory)
                same stock)
            ∙ first-update_where o.sale_id (sell_reserved o.quantity) i db.inventory (λ j. refl)
                row,
        pay_transaction-IsStocked f db db' ok,
      )

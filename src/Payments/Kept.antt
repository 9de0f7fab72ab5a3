-- ===== src/Payments/Kept.antt =====
-- What whole calls of `pay_order` and `cancel_order` keep of the tables.
use flux_kart.Prelude.{
  ℕ, ◌+◌, ◌≡◌, refl, sym, ap, ◌∙◌, Bool, true, false, some, List, inl, inr, arith, ◌==◌, ◌&&◌,
  if◌then◌else◌, update_where, count_where-update, Bool-cases, Option-cases,
}
use mathlib.Core.Path.{subst}
use flux_kart.Redis.{ExpiringStore}
use flux_kart.Db.{
  ReservationStatus, OrderStatus, Order, InventoryRow, Database, Outcome, done, raised, is_paid,
  Outcome-cases,
}
use flux_kart.Db.Inventory.{
  for_sale, update_inventory, sell_reserved, drop_reserved, IsStocked, update_inventory-IsStocked,
}
use flux_kart.Db.Orders.{has_id, of_reservation, set_order_status}
use flux_kart.Db.Reservations.{
  IsUnique, update_reservation_status, update_reservation_status-IsUnique,
}
use flux_kart.Payments.{
  Receipt, Fetched, fetch_order, pay_transaction, cancel_transaction, cancel_order, payment_error,
  pay_uncached, pay_order,
}
use flux_kart.Payments.Card.{Python, PaymentRequest, card_last4}
use flux_kart.Payments.Paid.{fetch_order-get}
use flux_kart.System.{IsValid, IsSound, units_paid}
use flux_kart.System.Tables.{
  units_paid-one, Settled-orders, Settled-update, Settled-sell, update_inventory-eq,
}

-- The three UPDATEs that both transactions make.
abbrev transaction :
    OrderStatus
    → ReservationStatus
    → (InventoryRow → InventoryRow)
    → Order
    → Database
    → Outcome Database
transaction t s change o db =
    elim (update_reservation_status o.reservation_id s (set_order_status o.id t db)) [
      | raised ↦ raised
      | done db' ↦ update_inventory o.sale_id change db'
    ]

abbrev with_status : OrderStatus → Order → Order
with_status t o = record o { status = t }

record Transacted (t : OrderStatus) (change : InventoryRow → InventoryRow) (o : Order)
    (db db' : Database) : Type 0 where
  orders : db'.orders ≡ update_where (has_id o.id) (with_status t) db.orders
  inventory : db'.inventory ≡ update_where (for_sale o.sale_id) change db.inventory
  unique : IsUnique db.reservations → IsUnique db'.reservations
  stocked : IsStocked db'.inventory

transaction_lem :
    (t : OrderStatus) (s : ReservationStatus) (change : InventoryRow → InventoryRow) (o : Order)
    (db db' : Database)
    → transaction t s change o db ≡ done db'
    → Transacted t change o db db'
transaction_lem t s change o db db' e =
    through (update_reservation_status o.reservation_id s (set_order_status o.id t db)) refl e
  where
    through :
        (out : Outcome Database)
        → update_reservation_status o.reservation_id s (set_order_status o.id t db) ≡ out
        → (elim out [ raised ↦ raised | done d ↦ update_inventory o.sale_id change d ]) ≡ done db'
        → Transacted t change o db db'
    through raised marked e = absurd (ground arith)
    through (done d) marked e =
        let moved = update_inventory-eq o.sale_id change d db' e in
        let kept : (d.orders ≡ update_where (has_id o.id) (with_status t) db.orders)
            × (d.inventory ≡ db.inventory) =
          unfold update_reservation_status set_order_status in ground arith in
        record {
          orders = ap (λ (x : Database). x.orders) moved ∙ kept.0;
          inventory =
              ap (λ (x : Database). x.inventory) moved
              ∙ ap (update_where (for_sale o.sale_id) change) kept.1;
          unique = λ u.
              subst (λ (x : Database). IsUnique x.reservations) (sym moved)
                (update_reservation_status-IsUnique o.reservation_id s (set_order_status o.id t db)
                  d marked (unfold set_order_status in u));
          stocked = update_inventory-IsStocked o.sale_id change d db' e;
        }

Transacted-IsValid :
    (t : OrderStatus) (change : InventoryRow → InventoryRow) (o : Order) (db db' : Database)
    → Transacted t change o db db'
    → IsValid db
    → IsValid db'
Transacted-IsValid t change o db db' m h = record {
  stocked = m.stocked;
  unique = m.unique h.unique;
  one_order = λ k. rw m.orders (
      omega (
        arith,
        count_where-update (of_reservation k) (has_id o.id) (with_status t) db.orders (λ x. refl),
        h.one_order k,
      ));
  one_id = λ k. rw m.orders (
      omega (
        arith,
        count_where-update (has_id k) (has_id o.id) (with_status t) db.orders (λ x. refl),
        h.one_id k,
      ));
}

module _ (k u : ℕ) (f : Fetched) (db db' : Database) (found : fetch_order k u db ≡ some f)
    (unpaid : is_paid f.0.status ≡ false) (h : IsSound db) where
  units_after :
      (t : OrderStatus) (s : ℕ)
      → units_paid s (update_where (has_id f.0.id) (with_status t) db.orders)
        ≡ units_paid s db.orders + (if f.0.sale_id == s && is_paid t then f.0.quantity else 0)
  units_after t s =
      units_paid-one k u s t f.0 db.orders (fetch_order-get k u f db found) (h.valid.one_id f.0.id)
        unpaid

  pay_transaction-IsSound : pay_transaction f db ≡ done db' → IsSound db'
  unfolding pay_transaction
  pay_transaction-IsSound e =
      let m =
        transaction_lem OrderStatus.paid ReservationStatus.confirmed (sell_reserved f.0.quantity)
          f.0 db db' e in
      record {
        valid =
            Transacted-IsValid OrderStatus.paid (sell_reserved f.0.quantity) f.0 db db' m h.valid;
        settled =
            rw (m.orders, m.inventory)
              (Settled-sell db.orders f.0.sale_id f.0.quantity
                (update_where (has_id f.0.id) (with_status OrderStatus.paid) db.orders) db.inventory
                (λ s. ground (arith, units_after OrderStatus.paid s)) h.settled);
      }

  cancel_transaction-IsSound : cancel_transaction f db ≡ done db' → IsSound db'
  unfolding cancel_transaction
  cancel_transaction-IsSound e =
      let m =
        transaction_lem OrderStatus.failed ReservationStatus.cancelled (drop_reserved f.0.quantity)
          f.0 db db' e in
      let orders = update_where (has_id f.0.id) (with_status OrderStatus.failed) db.orders in
      record {
        valid =
            Transacted-IsValid OrderStatus.failed (drop_reserved f.0.quantity) f.0 db db' m h.valid;
        settled =
            rw (m.orders, m.inventory)
              (Settled-orders db.orders orders
                (update_where (for_sale f.0.sale_id) (drop_reserved f.0.quantity) db.inventory)
                (λ s. ground (arith, units_after OrderStatus.failed s))
                (Settled-update db.orders (for_sale f.0.sale_id) (drop_reserved f.0.quantity)
                  db.inventory (λ i. refl) (λ i. refl) h.settled));
      }

pub cancel_order-IsSound : (u k : ℕ) (db : Database) → IsSound db → IsSound (cancel_order u k db).1
unfolding cancel_order
cancel_order-IsSound u k db h = elim (Option-cases (fetch_order k u db)) [
  | inl missing ↦ same (ground (arith, missing))
  | inr (f, found) ↦ elim (Bool-cases (is_paid f.0.status)) [
    | inl paid ↦ same (ground (arith, found, paid))
    | inr unpaid ↦ elim (Outcome-cases (cancel_transaction f db)) [
      | inl fails ↦ same (ground (arith, found, unpaid, fails))
      | inr (db', e) ↦
          subst IsSound
            (let gone : db' ≡ (cancel_order u k db).1 = ground (arith, found, unpaid, e) in gone)
            (cancel_transaction-IsSound k u f db db' found unpaid h e)
    ]
  ]
]
  where
    same : (cancel_order u k db).1 ≡ db → IsSound (cancel_order u k db).1
    same e = subst IsSound (sym e) h

module _ (py : Python) (I : ExpiringStore ℕ Receipt) (key : ℕ → ℕ → List ℕ → ℕ) where
  pay_uncached-IsSound :
      (up : Bool) (now u k : ℕ) (p : PaymentRequest) (db : Database) (cache : I.Db)
      → IsSound db
      → IsSound (pay_uncached py I key up now u k p db cache).1
  unfolding pay_uncached
  pay_uncached-IsSound up now u k p db cache h = elim (Option-cases (fetch_order k u db)) [
    | inl missing ↦ same (ground (arith, missing))
    | inr (f, found) ↦ elim (Option-cases (payment_error py I key now p f)) [
      | inr (code, refused) ↦ same (ground (arith, found, refused))
      | inl fine ↦ elim (Outcome-cases (pay_transaction f db)) [
        | inl fails ↦ same (ground (arith, found, fine, fails))
        | inr (db', e) ↦
            let gone : db' ≡ (pay_uncached py I key up now u k p db cache).1 =
              ground (arith, found, fine, e) in
            let unpaid : is_paid f.0.status ≡ false = unfold payment_error in ground arith in
            subst IsSound gone (pay_transaction-IsSound k u f db db' found unpaid h e)
      ]
    ]
  ]
    where
      same :
          (pay_uncached py I key up now u k p db cache).1 ≡ db
          → IsSound (pay_uncached py I key up now u k p db cache).1
      same e = subst IsSound (sym e) h

  pub pay_order-IsSound :
      (up : Bool) (now u k : ℕ) (p : PaymentRequest) (db : Database) (cache : I.Db)
      → IsSound db
      → IsSound (pay_order py I key up now u k p db cache).1
  unfolding pay_order
  pay_order-IsSound true now u k p db cache h =
      elim (Option-cases (I.get cache now (key u k (card_last4 p)))) [
        | inl missing ↦
            let same : (pay_order py I key true now u k p db cache).1
                ≡ (pay_uncached py I key true now u k p db cache).1 =
              ground (arith, missing) in
            subst IsSound (sym same) (pay_uncached-IsSound true now u k p db cache h)
        | inr (cached, there) ↦
            let same : (pay_order py I key true now u k p db cache).1 ≡ db =
              ground (arith, there) in
            subst IsSound (sym same) h
      ]
  pay_order-IsSound false now u k p db cache h = pay_uncached-IsSound false now u k p db cache h

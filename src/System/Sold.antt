-- ===== src/System/Sold.antt =====
-- The stock of a sale against its orders, over the life of the tables.
use flux_kart.Prelude.{
  ℕ, ◌+◌, ◌≤◌, ◌≡◌, sym, ap, ◌∙◌, some, List, [], ◌∷◌, arith, first, Bool-cases, inl, inr,
}
use flux_kart.Redis.{ExpiringStore}
use flux_kart.Db.{Order, InventoryRow, Database}
use flux_kart.Db.Inventory.{get_inventory, for_sale, first-IsStocked}
use flux_kart.ReservationService.{Services}
use flux_kart.Payments.{Receipt}
use flux_kart.Payments.Card.{Python}
use flux_kart.System.{IsValid, IsSound, Settled, units_paid}
use flux_kart.System.Steps.{Reach, reachable-IsSound}

-- The tables after the migrations.
abbrev pub empty : Database
empty = record { sales = []; inventory = []; reservations = []; orders = []; outbox_events = [] }

pub empty-IsSound : IsSound empty
empty-IsSound = record {
  valid = record {
    stocked = tt;
    unique = record { one_active = λ u s. omega arith; one_key = λ k. omega arith };
    one_order = λ k. omega arith;
    one_id = λ k. omega arith;
  };
  settled = tt;
}

pub first-Settled :
    (s : ℕ) (i : InventoryRow) (orders : List Order) (rows : List InventoryRow)
    → Settled orders rows
    → first (for_sale s) rows ≡ some i
    → i.sold_quantity ≡ units_paid s orders
first-Settled s i orders [] h e = absurd (ground arith)
first-Settled s i orders (x ∷ rows) h e = elim (Bool-cases (for_sale s x)) [
  | inl hit ↦
      let same : x ≡ i = ground arith in
      let sale : x.sale_id ≡ s = ground arith in
      ap (λ (y : InventoryRow). y.sold_quantity) (sym same)
      ∙ h.0
      ∙ ap (λ k. units_paid k orders) sale
  | inr miss ↦ first-Settled s i orders rows h.1 (ground arith)
]

module _ (S : Services) (py : Python) (I : ExpiringStore ℕ Receipt) (key : ℕ → ℕ → List ℕ → ℕ)
    (price : ℕ → ℕ → ℕ) where
  -- From empty tables, whatever calls are made one after the other and whatever fails in them (all
  -- calls that write the tables but the deletion of a user, with new ids for orders and sales): the
  -- sold units of a sale's row are exactly the units of its paid orders, and with the reserved ones
  -- they are at most its total.
  pub sold_is_paid :
      (db : Database) (s : ℕ) (i : InventoryRow)
      → Reach S py I key price empty db
      → get_inventory s db ≡ some i
      → (i.sold_quantity ≡ units_paid s db.orders)
        × (units_paid s db.orders + i.reserved_quantity ≤ i.total_quantity)
  sold_is_paid db s i r row =
      let sound = reachable-IsSound S py I key price empty-IsSound r in
      let sold = first-Settled s i db.orders db.inventory sound.settled row in
      (sold, omega (arith, sold, first-IsStocked s i db.inventory sound.valid.stocked row))

  -- From empty tables, over the same calls: every row of the inventory passes its CHECK, no user has
  -- two active reservations for one sale, no idempotency key has two reservations, and no
  -- reservation and no id has two orders.
  pub reachable-IsValid : (db : Database) → Reach S py I key price empty db → IsValid db
  reachable-IsValid db r = (reachable-IsSound S py I key price empty-IsSound r).valid

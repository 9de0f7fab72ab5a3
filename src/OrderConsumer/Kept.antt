-- ===== src/OrderConsumer/Kept.antt =====
-- What a delivery keeps of the tables, at whatever statement PostgreSQL fails.
use flux_kart.Prelude.{
  ℕ, ◌≡◌, refl, sym, Option, none, some, ◌⊎◌, inl, inr, arith, [], ◌∷◌, ◌++◌, count_where,
  count_where-append,
}
use mathlib.Core.Path.{subst}
use flux_kart.Db.{
  ReservationStatus, Reservation, Payload, Database, Outcome, done, raised, Outcome-cases,
}
use flux_kart.Db.Reservations.{
  get_reservation_by_id, confirm_reservation, confirm_reservation-IsUnique,
}
use flux_kart.Db.Orders.{create_order, has_id, of_reservation, new_order}
use flux_kart.Db.Inventory.{update_inventory, add_reserved}
use flux_kart.OrderConsumer.{
  Fault, at_fetch, at_order, at_confirm, at_inventory, sync_inventory, after_order,
  create_and_confirm, by_status, fetched, process_order_message,
}
use flux_kart.System.{IsSound}
use flux_kart.System.Tables.{Settled-orders, units_paid-append, update_inventory-IsSound}

-- An INSERT of an order under a new id.
create_order-IsSound :
    (id u s r q c p : ℕ) (db db' : Database)
    → count_where (has_id id) db.orders ≡ 0
    → create_order id u s r q c p db ≡ done db'
    → IsSound db
    → IsSound db'
unfolding create_order
create_order-IsSound id u s r q c p db db' fresh e h =
    let o = new_order id u s r q c p in
    let db₁ : Database = record db { orders = db.orders ++ o ∷ [] } in
    let eq : db' ≡ db₁ = ground arith in
    let free : count_where (of_reservation r) db.orders ≡ 0 = ground arith in
    subst IsSound (sym eq) (record {
      valid = record {
        stocked = h.valid.stocked;
        unique = h.valid.unique;
        one_order = λ k.
            ground (
              arith,
              count_where-append (of_reservation k) db.orders (o ∷ []),
              h.valid.one_order k,
            );
        one_id =
            λ k. ground (arith, count_where-append (has_id k) db.orders (o ∷ []), h.valid.one_id k);
      };
      settled =
          Settled-orders db.orders (db.orders ++ o ∷ []) db.inventory
            (λ k. ground (arith, units_paid-append k db.orders (o ∷ []))) h.settled;
    })

confirm_reservation-IsSound :
    (k : ℕ) (db : Database) → IsSound db → IsSound (confirm_reservation k db)
unfolding confirm_reservation
confirm_reservation-IsSound k db h = record {
  valid = record {
    stocked = h.valid.stocked;
    unique = confirm_reservation-IsUnique k db h.valid.unique;
    one_order = h.valid.one_order;
    one_id = h.valid.one_id;
  };
  settled = h.settled;
}

-- Either of two tables.
either : (db db₁ out : Database) → (out ≡ db) ⊎ (out ≡ db₁) → IsSound db → IsSound db₁ → IsSound out
either db db₁ out (inl same) h h' = subst IsSound (sym same) h
either db db₁ out (inr other) h h' = subst IsSound (sym other) h'

sync_inventory-IsSound :
    (f : Fault) (r : Reservation) (db : Database) → IsSound db → IsSound (sync_inventory f r db).1
unfolding sync_inventory
sync_inventory-IsSound f r db h =
    elim (Outcome-cases (update_inventory r.sale_id (add_reserved r.quantity) db)) [
      | inl fails ↦ either db db (sync_inventory f r db).1 (inl (ground (arith, fails))) h h
      | inr (db', e) ↦ either db db' (sync_inventory f r db).1 (if_reached f db' e) h (
          update_inventory-IsSound r.sale_id (add_reserved r.quantity) db db' (λ i. refl)
            (λ i. refl) e h)
    ]
  where
    if_reached :
        (f : Fault) (db' : Database)
        → update_inventory r.sale_id (add_reserved r.quantity) db ≡ done db'
        → ((sync_inventory f r db).1 ≡ db) ⊎ ((sync_inventory f r db).1 ≡ db')
    if_reached at_inventory db' e = inl refl
    if_reached f db' e = inr (ground arith)

after_order-IsSound :
    (f : Fault) (k : ℕ) (r : Reservation) (o : Outcome Database) (db : Database)
    → IsSound db
    → ((db' : Database) → o ≡ done db' → IsSound db')
    → IsSound (after_order f k r o db).1
unfolding after_order
after_order-IsSound f k r raised db h h' = h
after_order-IsSound at_confirm k r (done db') db h h' = h' db' refl
after_order-IsSound f k r (done db') db h h' =
    sync_inventory-IsSound f r (confirm_reservation k db')
      (confirm_reservation-IsSound k db' (h' db' refl))

module _ (price : ℕ → ℕ → ℕ) (id : ℕ) (body : Payload) (db : Database)
    (fresh : count_where (has_id id) db.orders ≡ 0) (sound : IsSound db) where
  create_and_confirm-IsSound :
      (f : Fault) (r : Reservation) → IsSound (create_and_confirm price f id body r db).1
  unfolding create_and_confirm
  create_and_confirm-IsSound at_order r = sound
  create_and_confirm-IsSound f r =
      after_order-IsSound f body.reservation_id r
        (create_order id r.user_id r.sale_id body.reservation_id r.quantity body.unit_price
          (price body.unit_price r.quantity) db)
        db sound
        (λ db' e.
          create_order-IsSound id r.user_id r.sale_id body.reservation_id r.quantity body.unit_price
            (price body.unit_price r.quantity) db db' fresh e sound)

  by_status-IsSound :
      (s : ReservationStatus) (f : Fault) (r : Reservation)
      → IsSound (by_status s price f id body r db).1
  unfolding by_status
  by_status-IsSound ReservationStatus.pending f r = create_and_confirm-IsSound f r
  by_status-IsSound s f r = sound

  fetched-IsSound : (f : Fault) (o : Option Reservation) → IsSound (fetched o price f id body db).1
  unfolding fetched
  fetched-IsSound f none = sound
  fetched-IsSound f (some r) = by_status-IsSound r.status f r

pub process_order_message-IsSound :
    (price : ℕ → ℕ → ℕ) (f : Fault) (id : ℕ) (body : Option Payload) (db : Database)
    → count_where (has_id id) db.orders ≡ 0
    → IsSound db
    → IsSound (process_order_message price f id body db).1
unfolding process_order_message
process_order_message-IsSound price f id none db fresh h = h
process_order_message-IsSound price at_fetch id (some body) db fresh h = h
process_order_message-IsSound price f id (some body) db fresh h =
    fetched-IsSound price id body db fresh h f (get_reservation_by_id body.reservation_id db)

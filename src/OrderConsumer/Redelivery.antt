-- ===== src/OrderConsumer/Redelivery.antt =====
-- At-least-once delivery: what a repeated or an interrupted delivery does.
use flux_kart.Prelude.{
  ℕ, ◌<◌, ◌≡◌, refl, ap, ◌∙◌, true, none, some, List, [], ◌∷◌, ◌++◌, arith, first, update_where,
  first-update, count_where, count_where-append, Option-cases, inl, inr, ◌≢◌,
}
use flux_kart.Db.{ReservationStatus, Reservation, Order, Payload, Database, is_pending}
use flux_kart.Db.Reservations.{
  has_id, pending_with, confirm_row, get_reservation_by_id, confirm_reservation,
}
use flux_kart.Db.Orders.{of_reservation, new_order, create_order}
use flux_kart.Db.Inventory.{update_inventory}
use flux_kart.OrderConsumer.{
  Verdict, processed, already_confirmed, dead_lettered, Fault, healthy, at_fetch, at_order,
  at_confirm, at_inventory, process_order_message,
}

first_id :
    (id : ℕ) (r : Reservation) (rows : List Reservation)
    → first (has_id id) rows ≡ some r
    → r.id ≡ id
first_id id r [] e = absurd (ground arith)
first_id id r (x ∷ rows) e = ground (arith, first_id id r rows)

-- Confirming the row that is found leaves it found, and confirmed.
first-confirm :
    (id : ℕ) (r : Reservation) (rows : List Reservation)
    → first (has_id id) rows ≡ some r
    → is_pending r.status ≡ true
    → first (has_id id) (update_where (pending_with id) confirm_row rows) ≡ some (confirm_row r)
first-confirm id r rows e p = ground (
  arith,
  first_id id r rows e,
  first-update (has_id id) (pending_with id) confirm_row r rows (λ y. refl) e,
)

-- A message is refused if its reservation cannot be fetched, and acknowledged otherwise.
abbrev pub redelivered : Fault → Verdict
redelivered at_fetch = dead_lettered
redelivered _ = already_confirmed

module _ (price : ℕ → ℕ → ℕ) where
  processed_rows :
      (f : Fault) (o : ℕ) (body : Payload) (r : Reservation) (db : Database)
      → get_reservation_by_id body.reservation_id db ≡ some r
      → (process_order_message price f o (some body) db).0 ≡ processed
      → (is_pending r.status ≡ true)
        × ((process_order_message price f o (some body) db).1.reservations
            ≡ update_where (pending_with body.reservation_id) confirm_row db.reservations)
  unfolding process_order_message confirm_reservation create_order update_inventory
  processed_rows f o body r db e h = ground arith

  confirmed_skips :
      (f : Fault) (o : ℕ) (body : Payload) (r : Reservation) (db : Database)
      → get_reservation_by_id body.reservation_id db ≡ some r
      → r.status ≡ ReservationStatus.confirmed
      → process_order_message price f o (some body) db ≡ (redelivered f, db)
  unfolding process_order_message
  confirmed_skips healthy o body r db e h = ground arith
  confirmed_skips at_fetch o body r db e h = refl
  confirmed_skips at_order o body r db e h = ground arith
  confirmed_skips at_confirm o body r db e h = ground arith
  confirmed_skips at_inventory o body r db e h = ground arith

  unknown_not_processed :
      (f : Fault) (o : ℕ) (body : Payload) (db : Database)
      → get_reservation_by_id body.reservation_id db ≡ none
      → (process_order_message price f o (some body) db).0 ≢ processed
  unfolding process_order_message
  unknown_not_processed f o body db e = ground arith

  -- After a message was processed and while the row of its reservation stays as it left it, another
  -- delivery for the reservation, as the outbox worker and the direct publication both send one,
  -- changes nothing, whatever else is in the tables and wherever the connection fails; it is
  -- acknowledged, unless the reservation cannot be fetched.
  pub redelivery_skips :
      (f f' : Fault) (o o' : ℕ) (body body' : Payload) (db later : Database)
      → (process_order_message price f o (some body) db).0 ≡ processed
      → body'.reservation_id ≡ body.reservation_id
      → get_reservation_by_id body.reservation_id later
        ≡ get_reservation_by_id body.reservation_id
            (process_order_message price f o (some body) db).1
      → process_order_message price f' o' (some body') later ≡ (redelivered f', later)
  unfolding get_reservation_by_id
  redelivery_skips f f' o o' body body' db later h same kept =
      elim (Option-cases (first (has_id body.reservation_id) db.reservations)) [
        | inl missing ↦ absurd (unknown_not_processed f o body db missing h)
        | inr (r, e) ↦
            let (was_pending, rows) = processed_rows f o body r db e h in
            let found = first-confirm body.reservation_id r db.reservations e was_pending in
            confirmed_skips f' o' body' (confirm_row r) later (rw same (kept ∙ rw rows found)) refl
      ]

  abbrev pub order_of : ℕ → Payload → Reservation → Order
  order_of o body r =
      new_order o r.user_id r.sale_id body.reservation_id r.quantity body.unit_price
        (price body.unit_price r.quantity)

  abbrev pub ordered : ℕ → Payload → Reservation → Database → Database
  ordered o body r db = record db { orders = db.orders ++ order_of o body r ∷ [] }

  order_interrupted :
      (o : ℕ) (body : Payload) (r : Reservation) (db : Database)
      → get_reservation_by_id body.reservation_id db ≡ some r
      → r.status ≡ ReservationStatus.pending
      → count_where (of_reservation body.reservation_id) db.orders ≡ 0
      → process_order_message price at_confirm o (some body) db
        ≡ (dead_lettered, ordered o body r db)
  unfolding process_order_message create_order
  order_interrupted o body r db e p fresh = ground arith

  order_exists :
      (f : Fault) (o : ℕ) (body : Payload) (r : Reservation) (db : Database)
      → get_reservation_by_id body.reservation_id db ≡ some r
      → r.status ≡ ReservationStatus.pending
      → 0 < count_where (of_reservation body.reservation_id) db.orders
      → process_order_message price f o (some body) db ≡ (dead_lettered, db)
  unfolding process_order_message create_order
  order_exists healthy o body r db e p used = ground arith
  order_exists at_fetch o body r db e p used = refl
  order_exists at_order o body r db e p used = ground arith
  order_exists at_confirm o body r db e p used = ground arith
  order_exists at_inventory o body r db e p used = ground arith

  -- A failure between the order and its confirmation leaves the order there and the reservation
  -- pending. While that row and the number of its orders stay so, redeliveries do not repair it: each
  -- is dead-lettered and changes nothing, whatever else is in the tables and wherever the connection
  -- fails.
  pub interrupted_order_sticks :
      (f : Fault) (o o' : ℕ) (body : Payload) (r : Reservation) (db later : Database)
      → get_reservation_by_id body.reservation_id db ≡ some r
      → r.status ≡ ReservationStatus.pending
      → count_where (of_reservation body.reservation_id) db.orders ≡ 0
      → get_reservation_by_id body.reservation_id later
        ≡ get_reservation_by_id body.reservation_id
            (process_order_message price at_confirm o (some body) db).1
      → count_where (of_reservation body.reservation_id) later.orders
        ≡ count_where
            (of_reservation body.reservation_id)
            (process_order_message price at_confirm o (some body) db).1.orders
      → let db' = (process_order_message price at_confirm o (some body) db).1 in
        (count_where (of_reservation body.reservation_id) db'.orders ≡ 1)
        × (get_reservation_by_id body.reservation_id db' ≡ some r)
        × (process_order_message price f o' (some body) later ≡ (dead_lettered, later))
  interrupted_order_sticks f o o' body r db later e p fresh kept used =
      let one : count_where (of_reservation body.reservation_id) (ordered o body r db).orders ≡ 1 =
        ground (
          arith,
          count_where-append (of_reservation body.reservation_id) db.orders
              (order_of o body r ∷ []),
        ) in
      let run = order_interrupted o body r db e p fresh in
      let ran = ap (λ (out : Verdict × Database). out.1) run in
      let there : get_reservation_by_id body.reservation_id
            (process_order_message price at_confirm o (some body) db).1
          ≡ some r =
        ap (get_reservation_by_id body.reservation_id) ran ∙ unfold get_reservation_by_id in e in
      let counted : count_where (of_reservation body.reservation_id)
            (process_order_message price at_confirm o (some body) db).1.orders
          ≡ 1 =
        ap (λ (x : Database). count_where (of_reservation body.reservation_id) x.orders) ran
        ∙ one in
      (
        counted,
        there,
        order_exists f o' body r later (kept ∙ there) p (omega (arith, used, counted)),
      )

-- ===== src/ReservationRouter/Interrupted.antt =====
-- A modification that another writer of the reservation comes between.
use flux_kart.Prelude.{ℕ, ◌≡◌, ap, ◌∙◌, Bool, false, none, some, arith, ◌==◌, count_where}
use flux_kart.Prelude.Int.{pos, ◌+ℤ◌}
use flux_kart.Inventory.{or_zero}
use flux_kart.Db.{Reservation, Database}
use flux_kart.Db.Reservations.{
  pending_with, get_pending_reservation_by_id_and_user, update_reservation_quantity,
}
use flux_kart.ReservationService.{Services, World}
use flux_kart.ReservationRouter.{
  server_error_500, move_units, rewrite_row, modify_row, modify_reservation_quantity,
}
use flux_kart.ReservationRouter.Quantity.{move_units-conserves}

module _ (S : Services) where
  rewrite_row-missing :
      (now u id q : ℕ) (db : Database)
      → count_where (pending_with id) db.reservations ≡ 0
      → rewrite_row S now u id q db ≡ (server_error_500, db)
  unfolding rewrite_row update_reservation_quantity
  rewrite_row-missing now u id q db h = ground (arith, h)

  -- Where the request has moved the units in Redis to another quantity, and the reservation stops being
  -- pending before the update of its row, the request answers 500, the tables are those of the other writer, and the counter
  -- keeps the units that were moved.
  pub interrupted_modification_keeps_units :
      (meanwhile : Database → Database) (reach : Bool) (now u id q : ℕ) (r : Reservation)
      (w : World S)
      → get_pending_reservation_by_id_and_user id u w.db ≡ some r
      → (q == r.quantity) ≡ false
      → (move_units S reach now q r w.stock).0 ≡ none
      → count_where (pending_with id) (meanwhile w.db).reservations ≡ 0
      → let (response, w') = modify_reservation_quantity S meanwhile reach now u id q w in
        (response ≡ server_error_500)
        × (w'.db ≡ meanwhile w.db)
        × (or_zero (S.counters.get w'.stock.0 r.sale_id) +ℤ pos q
            ≡ or_zero (S.counters.get w.stock.0 r.sale_id) +ℤ pos r.quantity)
  unfolding modify_reservation_quantity modify_row
  interrupted_modification_keeps_units meanwhile reach now u id q r w e other moved gone =
      let x = rewrite_row-missing now u id q (meanwhile w.db) gone in
      let st = (move_units S reach now q r w.stock).1 in
      let p : modify_reservation_quantity S meanwhile reach now u id q w
          ≡ (server_error_500, record w { stock = st; db = meanwhile w.db }) =
        ground (arith, e, other, moved, x) in
      (
        ap (λ y. y.0) p,
        ap (λ y. y.1.db) p,
        ap (λ y. or_zero (S.counters.get y.1.stock.0 r.sale_id) +ℤ pos q) p
            ∙ move_units-conserves S reach now q r w.stock moved,
      )

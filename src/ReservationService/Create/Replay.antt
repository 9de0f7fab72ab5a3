-- ===== src/ReservationService/Create/Replay.antt =====
-- A request that is sent again with its idempotency key.
use flux_kart.Prelude.{
  ◌≡◌, ◌∙◌, sym, ap, Bool, true, Option, none, some, List, [], ◌∷◌, ◌++◌, arith, first,
  Option-cases, inl, inr, count_where, length,
}
use flux_kart.Db.{Reservation}
use flux_kart.Db.Reservations.{has_key, get_reservation_by_idempotency_key}
use flux_kart.ReservationService.{
  Services, World, Request, Run, Created, reserved, was_duplicate, check_user,
}
use flux_kart.ReservationService.Create.{user_checked, create_reservation}
use flux_kart.ReservationService.Create.Recorded.{new_rows}
use flux_kart.ReservationService.Create.Outbox.{check_user-idle, create_reservation-Recorded}

first-last :
    (p : Reservation → Bool) (r : Reservation) (rows : List Reservation)
    → first p rows ≡ none
    → p r ≡ true
    → first p (rows ++ r ∷ []) ≡ some r
first-last p r [] h e = ground arith
first-last p r (x ∷ rows) h e = ground (arith, first-last p r rows)

module _ (S : Services) where
  -- Only a request whose key is new is answered with a reservation.
  reserved-new_key :
      (run : Run) (q : Request) (w : World S) (r : Reservation)
      → (create_reservation S run q w).0 ≡ reserved r
      → get_reservation_by_idempotency_key q.idempotency_key w.db ≡ none
  unfolding create_reservation user_checked
  reserved-new_key run q w r e = elim (Option-cases (check_user q w.db)) [
    | inl passed ↦ unfold check_user in ground (arith, passed)
    | inr (a, stopped) ↦
        let (idle, _) = check_user-idle S q w.db a 0 0 stopped in
        let same : a ≡ reserved r =
          ap (λ (c : Option Created). (user_checked S c run q w).0) (sym stopped) ∙ e in
        absurd (ground (arith, idle, same))
  ]

  seen_before :
      (run : Run) (q : Request) (w : World S) (r : Reservation)
      → get_reservation_by_idempotency_key q.idempotency_key w.db ≡ some r
      → create_reservation S run q w ≡ (was_duplicate r, w)
  unfolding create_reservation user_checked check_user
  seen_before run q w r e = ground (arith, e)

  -- Once a request was answered with a reservation, and while the row that its idempotency key finds
  -- stays as it is, any request with the key is answered with that reservation again and changes
  -- nothing at all, whatever else has happened and whatever fails.
  pub replay_is_duplicate :
      (run run' : Run) (q q' : Request) (w later : World S) (r : Reservation)
      → (create_reservation S run q w).0 ≡ reserved r
      → q'.idempotency_key ≡ q.idempotency_key
      → get_reservation_by_idempotency_key q.idempotency_key later.db
        ≡ get_reservation_by_idempotency_key q.idempotency_key (create_reservation S run q w).1.db
      → create_reservation S run' q' later ≡ (was_duplicate r, later)
  unfolding get_reservation_by_idempotency_key
  replay_is_duplicate run run' q q' w later r e same kept =
      let w' = (create_reservation S run q w).1 in
      let recorded = create_reservation-Recorded S run q w in
      let rows : w'.db.reservations ≡ w.db.reservations ++ r ∷ [] =
        recorded.rows ∙ ap (λ a. w.db.reservations ++ new_rows a) e in
      let keyed : count_where (has_key q.idempotency_key) (r ∷ []) ≡ 1 =
        ap (λ a. count_where (has_key q.idempotency_key) (new_rows a)) (sym e)
        ∙ recorded.keyed
        ∙ ap (λ a. length (new_rows a)) e in
      let found =
        first-last (has_key q.idempotency_key) r w.db.reservations (reserved-new_key run q w r e)
          (ground arith) in
      seen_before run' q' later r (rw same (kept ∙ rw rows found))

-- ===== src/ReservationRouter/Recover.antt =====
-- The recovery window, which a recovery uses up.
use flux_kart.Prelude.{
  ℕ, ◌≡◌, refl, ap, ◌∙◌, none, arith, if◌then◌else◌, Bool-cases, Option-cases, inl, inr,
}
use flux_kart.Db.{Reservation}
use flux_kart.ReservationService.{
  Services, World, Request, Run, reaches, Created, reserved, was_duplicate, value_error,
  queue_position, runtime_error,
}
use flux_kart.ReservationService.Create.{create_reservation}
use flux_kart.ReservationRouter.{
  Response, created_201, not_found_404, server_error_500, recover_reservation, recovered,
}

module _ (S : Services) (recovery_idempotency_key : ℕ → ℕ) where
  recovered-closed :
      (u s now : ℕ) (c : Created) (w : World S) (r : Reservation)
      → (recovered S recovery_idempotency_key u s (c, w)).0 ≡ created_201 r
      → S.recovery.get (recovered S recovery_idempotency_key u s (c, w)).1.recovery now (u, s)
        ≡ none
  unfolding recovered
  recovered-closed u s now (reserved _) w r e = S.recovery.get-del_self w.recovery now (u, s)
  recovered-closed u s now (was_duplicate _) w r e = S.recovery.get-del_self w.recovery now (u, s)
  recovered-closed u s now (value_error _) w r e = absurd (ground arith)
  recovered-closed u s now (queue_position _ _) w r e = absurd (ground arith)
  recovered-closed u s now runtime_error w r e = absurd (ground arith)

  -- Without Redis the window cannot be read.
  abbrev pub refused_recovery : Run → Response
  refused_recovery run = if reaches run.redis then not_found_404 else server_error_500

  closed-refused :
      (later : Run) (u s : ℕ) (w : World S)
      → S.recovery.get w.recovery later.now (u, s) ≡ none
      → recover_reservation S recovery_idempotency_key later u s w ≡ (refused_recovery later, w)
  unfolding recover_reservation
  closed-refused later u s w gone = elim (Bool-cases (reaches later.redis)) [
    | inl reach ↦ rw (reach, gone) refl
    | inr apart ↦ rw apart refl
  ]

  recover-closed :
      (run : Run) (u s now : ℕ) (w : World S) (r : Reservation)
      → (recover_reservation S recovery_idempotency_key run u s w).0 ≡ created_201 r
      → S.recovery.get
          (recover_reservation S recovery_idempotency_key run u s w).1.recovery
          now
          (u, s)
        ≡ none
  unfolding recover_reservation
  recover-closed run u s now w r e = elim (Bool-cases (reaches run.redis)) [
    | inr apart ↦ absurd (ground (arith, apart))
    | inl reach ↦ elim (Option-cases (S.recovery.get w.recovery run.now (u, s))) [
      | inl gone ↦ absurd (ground (arith, reach, gone))
      | inr (m, there) ↦
          let q : Request = record {
            user_id = u;
            sale_id = s;
            quantity = m.quantity;
            idempotency_key = recovery_idempotency_key m.reservation_id;
          } in
          let (c, w') = create_reservation S run q w in
          ground (arith, reach, there, recovered-closed u s now c w' r)
    ]
  ]

  -- After a recovery that gave a reservation, and while nothing writes the recovery windows, every
  -- recovery of the user for the sale changes nothing and answers 404, or 500 if Redis cannot be
  -- reached, at any time and whatever else has changed.
  pub recover_once :
      (run later : Run) (u s : ℕ) (w w' : World S) (r : Reservation)
      → (recover_reservation S recovery_idempotency_key run u s w).0 ≡ created_201 r
      → w'.recovery ≡ (recover_reservation S recovery_idempotency_key run u s w).1.recovery
      → recover_reservation S recovery_idempotency_key later u s w' ≡ (refused_recovery later, w')
  recover_once run later u s w w' r e kept =
      closed-refused later u s w' (
        ap (λ db. S.recovery.get db later.now (u, s)) kept ∙ recover-closed run u s later.now w r e)

-- ===== src/ReservationRouter/Quantity.antt =====
-- The quantity of a reservation against the counter.
use flux_kart.Prelude.{
  ℕ, ◌+◌, ◌-◌, ◌*◌, ◌≡◌, ◌≢◌, refl, ap, ◌∙◌, sym, Bool, true, false, none, some, List, [], ◌∷◌,
  arith, Bool-cases, Option-cases, inl, inr, ◌⊎◌, ◌==◌, ltb, first, update_where, count_where,
}
use mathlib.Core.Path.{subst}
use flux_kart.Prelude.Int.{ℤ, pos, ◌+ℤ◌}
use flux_kart.Inventory.{
  Stock, Reply, answer, script_error, or_zero, try_increase_reservation, release_partial_inventory,
}
use flux_kart.Inventory.Holds.{
  try_increase_reservation-counter, try_increase_reservation-refused,
  release_partial_inventory-counter,
}
use flux_kart.Db.{Reservation, Database}
use flux_kart.Db.Reservations.{
  pending_with, get_pending_reservation_by_id_and_user, update_reservation_quantity,
}
use flux_kart.UserScore.{calculate_user_score, get_ttl_for_score}
use flux_kart.ReservationService.{Services, World}
use flux_kart.ReservationRouter.{
  Response, ok_200, created_201, queued_202, server_error_500, conflict_409, bad_request_400,
  not_found_404, too_many_429, move_units, rewrite_row, modify_row, modify_reservation_quantity,
}

-- The row of a reservation after its quantity was changed.
abbrev pub with_quantity : ℕ → ℕ → Reservation → Reservation
with_quantity q t r = record r { quantity = q; expires_at = t }

first-rewritten :
    (id q t : ℕ) (rows : List Reservation) (r : Reservation)
    → first (pending_with id) rows ≡ some r
    → first (pending_with id) (update_where (pending_with id) (with_quantity q t) rows)
      ≡ some (with_quantity q t r)
first-rewritten id q t [] r e = absurd (ground arith)
first-rewritten id q t (x ∷ rows) r e = ground (arith, first-rewritten id q t rows r)

count-first :
    (id : ℕ) (rows : List Reservation)
    → count_where (pending_with id) rows ≢ 0
    → (r : Reservation) × (first (pending_with id) rows ≡ some r)
count-first id [] h = absurd (h refl)
count-first id (x ∷ rows) h = elim (Bool-cases (pending_with id x)) [
  | inl hit ↦ (x, ground (arith, hit))
  | inr other ↦
      let (r, e) = count-first id rows (λ z. h (ground (arith, z, other))) in
      (r, ground (arith, other, e))
]

-- What the second half leaves: the row that it answers has the quantity, and the other tables
-- stay; an error leaves all of them.
abbrev pub Rewritten : ℕ → Database → Response × Database → Type 0
Rewritten q db (ok_200 r, db') =
    (r.quantity ≡ q)
    × (db'.inventory ≡ db.inventory)
    × (db'.orders ≡ db.orders)
    × (db'.outbox_events ≡ db.outbox_events)
Rewritten q db (server_error_500, db') = db' ≡ db
Rewritten q db (_, db') = ⊥

-- What a modification of the row `r` leaves: the counter of the sale and the quantity of the
-- reservation keep their sum, a refusal leaves everything, and an error the tables.
abbrev pub Modified : (S : Services) → Reservation → ℕ → World S → Response × World S → Type 0
Modified S r q w (ok_200 r', w') =
    (or_zero (S.counters.get w'.stock.0 r.sale_id) +ℤ pos q
      ≡ or_zero (S.counters.get w.stock.0 r.sale_id) +ℤ pos r.quantity)
    × Rewritten q w.db (ok_200 r', w'.db)
Modified S r q w (server_error_500, w') = w'.db ≡ w.db
Modified S r q w (_, w') = w' ≡ w

Reply-cases : (x : Reply) → (x ≡ answer true) ⊎ ((x ≡ answer false) ⊎ (x ≡ script_error))
Reply-cases (answer true) = inl refl
Reply-cases (answer false) = inr (inl refl)
Reply-cases script_error = inr (inr refl)

grown : (a b : ℤ) (m n : ℕ) → ltb m n ≡ true → a +ℤ pos (n - m) ≡ b → a +ℤ pos n ≡ b +ℤ pos m
unfolding ◌+ℤ◌
grown a b m n h e = ground arith

shrunk : (a b : ℤ) (m n : ℕ) → ltb m n ≡ false → a ≡ b +ℤ pos (m - n) → a +ℤ pos n ≡ b +ℤ pos m
unfolding ◌+ℤ◌
shrunk a b m n h e = ground arith

module _ (S : Services) where
  -- The units that a move takes off the counter are those by which the quantity grows.
  pub move_units-conserves :
      (reach : Bool) (now q : ℕ) (r : Reservation) (st : Stock S.counters S.holds)
      → (move_units S reach now q r st).0 ≡ none
      → or_zero (S.counters.get (move_units S reach now q r st).1.0 r.sale_id) +ℤ pos q
        ≡ or_zero (S.counters.get st.0 r.sale_id) +ℤ pos r.quantity
  unfolding move_units
  move_units-conserves false now q r st e = absurd (ground arith)
  move_units-conserves true now q r st e = elim (Bool-cases (ltb r.quantity q)) [
    | inl more ↦
        let up =
          try_increase_reservation S.counters S.holds now r.sale_id r.id (q - r.quantity) st in
        let agreed : up.0 ≡ answer true = ground (arith, more) in
        let moved =
          try_increase_reservation-counter S.counters S.holds now r.sale_id r.id (q - r.quantity) st
            agreed in
        let st_is : (move_units S true now q r st).1 ≡ up.1 = rw (more, agreed) refl in
        ap (λ (st' : Stock S.counters S.holds). or_zero (S.counters.get st'.0 r.sale_id) +ℤ pos q)
          st_is
        ∙ grown (or_zero (S.counters.get up.1.0 r.sale_id))
            (or_zero (S.counters.get st.0 r.sale_id)) r.quantity q more moved
    | inr fewer ↦
        let down =
          release_partial_inventory S.counters S.holds now r.sale_id r.id (r.quantity - q) st in
        let moved =
          release_partial_inventory-counter S.counters S.holds now r.sale_id r.id (r.quantity - q)
            st in
        let st_is : (move_units S true now q r st).1 ≡ down.1 = ground (arith, fewer) in
        ap (λ (st' : Stock S.counters S.holds). or_zero (S.counters.get st'.0 r.sale_id) +ℤ pos q)
          st_is
        ∙ shrunk (or_zero (S.counters.get down.1.0 r.sale_id))
            (or_zero (S.counters.get st.0 r.sale_id)) r.quantity q fewer moved
  ]

  move_units-refused :
      (reach : Bool) (now q : ℕ) (r : Reservation) (st : Stock S.counters S.holds) (a : Response)
      → (move_units S reach now q r st).0 ≡ some a
      → ((a ≡ conflict_409) × ((move_units S reach now q r st).1 ≡ st)) ⊎ (a ≡ server_error_500)
  unfolding move_units
  move_units-refused false now q r st a e = inr (ground arith)
  move_units-refused true now q r st a e =
      let up = try_increase_reservation S.counters S.holds now r.sale_id r.id (q - r.quantity) st in
      let down =
        release_partial_inventory S.counters S.holds now r.sale_id r.id (r.quantity - q) st in
      let refused =
        try_increase_reservation-refused S.counters S.holds now r.sale_id r.id (q - r.quantity)
          st in
      elim (Bool-cases (ltb r.quantity q)) [
        | inl more ↦ elim (Reply-cases up.0) [
          | inl agreed ↦ absurd (ground (arith, more, agreed))
          | inr (inl no_more) ↦
              inl (ground (arith, more, no_more), rw (more, no_more) (refused no_more))
          | inr (inr failed) ↦ inr (ground (arith, more, failed))
        ]
        | inr fewer ↦ elim (Reply-cases down.0) [
          | inl agreed ↦ absurd (ground (arith, fewer, agreed))
          | inr (inl agreed) ↦ absurd (ground (arith, fewer, agreed))
          | inr (inr failed) ↦ inr (ground (arith, fewer, failed))
        ]
      ]

  rewrite_row-Rewritten :
      (now u id q : ℕ) (db : Database) → Rewritten q db (rewrite_row S now u id q db)
  unfolding rewrite_row update_reservation_quantity
  rewrite_row-Rewritten now u id q db =
      elim (Bool-cases (count_where (pending_with id) db.reservations == 0)) [
        | inl missing ↦
            let e : rewrite_row S now u id q db ≡ (server_error_500, db) =
              ground (arith, missing) in
            subst (Rewritten q db) (sym e) refl
        | inr there ↦
            let (r, found) = count-first id db.reservations (λ z. ground (arith, z, there)) in
            let t =
              now
              + get_ttl_for_score S.float (calculate_user_score S.float (S.score_row db now u))
                * 1000 in
            let e : rewrite_row S now u id q db ≡ (
              ok_200 (with_quantity q t r),
              record db {
                reservations = update_where (pending_with id) (with_quantity q t) db.reservations;
              },
            ) =
              ground (arith, there, first-rewritten id q t db.reservations r found) in
            subst (Rewritten q db) (sym e) (refl, refl, refl, refl)
      ]

  Rewritten-Modified :
      (q : ℕ) (r : Reservation) (w : World S) (st : Stock S.counters S.holds)
      (p : Response × Database)
      → (or_zero (S.counters.get st.0 r.sale_id) +ℤ pos q
          ≡ or_zero (S.counters.get w.stock.0 r.sale_id) +ℤ pos r.quantity)
      → Rewritten q w.db p
      → Modified S r q w (p.0, record w { stock = st; db = p.1 })
  Rewritten-Modified q r w st (ok_200 r', db') c h = (c, h)
  Rewritten-Modified q r w st (server_error_500, db') c h = h
  Rewritten-Modified q r w st (created_201 _, db') c h = absurd h
  Rewritten-Modified q r w st (queued_202 _ _, db') c h = absurd h
  Rewritten-Modified q r w st (bad_request_400, db') c h = absurd h
  Rewritten-Modified q r w st (not_found_404, db') c h = absurd h
  Rewritten-Modified q r w st (conflict_409, db') c h = absurd h
  Rewritten-Modified q r w st (too_many_429, db') c h = absurd h

  -- Every answer to a request to change the quantity of a reservation that stands in the table, where
  -- nothing else writes to the table meanwhile: 200 leaves counter plus quantity as it was, writes
  -- the quantity, and touches neither the inventory table nor the orders nor the outbox; 400 and 409
  -- change nothing; and 500 leaves the tables.
  pub modify_reservation_quantity-Modified :
      (reach : Bool) (now u id q : ℕ) (r : Reservation) (w : World S)
      → get_pending_reservation_by_id_and_user id u w.db ≡ some r
      → Modified S r q w (modify_reservation_quantity S (λ db. db) reach now u id q w)
  unfolding modify_reservation_quantity modify_row
  modify_reservation_quantity-Modified reach now u id q r w e =
      elim (Bool-cases (q == r.quantity)) [
        | inl same ↦
            let p : modify_reservation_quantity S (λ db. db) reach now u id q w
                ≡ (bad_request_400, w) =
              ground (arith, e, same) in
            subst (Modified S r q w) (sym p) refl
        | inr other ↦ elim (Option-cases (move_units S reach now q r w.stock).0) [
          | inl moved ↦
              let st = (move_units S reach now q r w.stock).1 in
              let x = rewrite_row S now u id q w.db in
              let p : modify_reservation_quantity S (λ db. db) reach now u id q w
                  ≡ (x.0, record w { stock = st; db = x.1 }) =
                ground (arith, e, other, moved) in
              subst (Modified S r q w) (sym p) (
                Rewritten-Modified q r w st x (move_units-conserves reach now q r w.stock moved)
                  (rewrite_row-Rewritten now u id q w.db))
          | inr (a, refused) ↦
              let st = (move_units S reach now q r w.stock).1 in
              let p : modify_reservation_quantity S (λ db. db) reach now u id q w
                  ≡ (a, record w { stock = st }) =
                ground (arith, e, other, refused) in
              subst (Modified S r q w) (sym p)
                (elim (move_units-refused reach now q r w.stock a refused) [
                  | inl (conflict, same) ↦
                      subst (λ b. Modified S r q w (b, record w { stock = st })) (sym conflict)
                        (ap (λ (st' : Stock S.counters S.holds). record w { stock = st' }) same)
                  | inr failed ↦
                      subst (λ b. Modified S r q w (b, record w { stock = st })) (sym failed) refl
                ])
        ]
      ]

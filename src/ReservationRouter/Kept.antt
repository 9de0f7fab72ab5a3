-- ===== src/ReservationRouter/Kept.antt =====
-- What a change of a quantity keeps of the tables.
use flux_kart.Prelude.{ℕ, ◌≡◌, refl, inl, inr, arith, update_where, first, ◌*◌, ◌+◌, Option-cases}
use mathlib.Core.Path.{subst}
use flux_kart.Db.{Reservation, Database, done, Outcome-cases}
use flux_kart.Db.Reservations.{
  pending_with, update_reservation_quantity, KeepsIndex, update_where-IsUnique,
}
use flux_kart.UserScore.{calculate_user_score, get_ttl_for_score}
use flux_kart.ReservationService.{Services}
use flux_kart.ReservationRouter.{rewrite_row}
use flux_kart.System.{IsSound}

update_reservation_quantity-IsSound :
    (k q t : ℕ) (db db' : Database)
    → update_reservation_quantity k q t db ≡ done db'
    → IsSound db
    → IsSound db'
unfolding update_reservation_quantity
update_reservation_quantity-IsSound k q t db db' e h =
    let db₁ : Database = record db {
      reservations = update_where (pending_with k) resized db.reservations;
    } in
    let same : db₁ ≡ db' = ground arith in
    subst IsSound same (record {
      valid = record {
        stocked = h.valid.stocked;
        unique =
            update_where-IsUnique (pending_with k) resized (λ r e. keeps r) db.reservations
              h.valid.unique;
        one_order = h.valid.one_order;
        one_id = h.valid.one_id;
      };
      settled = h.settled;
    })
  where
    resized : Reservation → Reservation
    resized r = record r { quantity = q; expires_at = t }

    keeps : (r : Reservation) → KeepsIndex resized r
    keeps r = record { user = refl; sale = refl; key = refl; activity = λ a. a }

pub rewrite_row-IsSound :
    (S : Services) (now u k q : ℕ) (db : Database)
    → IsSound db
    → IsSound (rewrite_row S now u k q db).1
unfolding rewrite_row
rewrite_row-IsSound S now u k q db h =
    let score = calculate_user_score S.float (S.score_row db now u) in
    let t = now + get_ttl_for_score S.float score * 1000 in
    elim (Outcome-cases (update_reservation_quantity k q t db)) [
      | inl fails ↦
          let same : db ≡ (rewrite_row S now u k q db).1 = ground (arith, fails) in
          subst IsSound same h
      | inr (db', e) ↦
          let same : db' ≡ (rewrite_row S now u k q db).1 =
            elim (Option-cases (first (pending_with k) db'.reservations)) [
              | inl gone ↦ ground (arith, e, gone)
              | inr (r, there) ↦ ground (arith, e, there)
            ] in
          subst IsSound same (update_reservation_quantity-IsSound k q t db db' e h)
    ]

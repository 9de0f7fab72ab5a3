-- ===== src/Db/Reservations.antt =====
-- The reservations table: the reservation statements of backend/app/db/queries/orders.py, with the
-- unique constraints of backend/alembic/versions on the idempotency key and on the active
-- reservation of a user and a sale.
use flux_kart.Prelude.{
  ℕ, ◌≤◌, ◌≡◌, refl, Bool, true, Option, List, [], ◌∷◌, ◌++◌, arith, ◌==◌, ltb, leb, ◌&&◌, ◌||◌,
  if◌then◌else◌, first, update_where, count_where, count_where-append, count_where-update,
  Bool-cases, inl, inr, sym, ◌<◌,
}
use mathlib.Core.Path.{subst}
use flux_kart.Db.{
  Reservation, ReservationStatus, Database, Outcome, done, raised, is_active, is_pending,
}

abbrev pub has_id : ℕ → Reservation → Bool
has_id reservation_id r = r.id == reservation_id

abbrev pub has_key : ℕ → Reservation → Bool
has_key idempotency_key r = r.idempotency_key == idempotency_key

abbrev pub pending_with : ℕ → Reservation → Bool
pending_with reservation_id r = has_id reservation_id r && is_pending r.status

abbrev pub is_active_for : ℕ → ℕ → Reservation → Bool
is_active_for user_id sale_id r = r.user_id == user_id && r.sale_id == sale_id && is_active r.status

unfoldable pub get_reservation_by_idempotency_key : ℕ → Database → Option Reservation
get_reservation_by_idempotency_key idempotency_key db =
    first (has_key idempotency_key) db.reservations

unfoldable pub get_active_reservation : ℕ → ℕ → Database → Option Reservation
get_active_reservation user_id sale_id db = first (is_active_for user_id sale_id) db.reservations

unfoldable pub get_reservation_by_id : ℕ → Database → Option Reservation
get_reservation_by_id reservation_id db = first (has_id reservation_id) db.reservations

unfoldable pub get_reservation_by_id_and_user : ℕ → ℕ → Database → Option Reservation
get_reservation_by_id_and_user reservation_id user_id db =
    first (λ r. r.id == reservation_id && r.user_id == user_id) db.reservations

unfoldable pub get_pending_reservation_by_id_and_user : ℕ → ℕ → Database → Option Reservation
get_pending_reservation_by_id_and_user reservation_id user_id db =
    first (λ r. r.id == reservation_id && r.user_id == user_id && is_pending r.status)
      db.reservations

abbrev new_row : ℕ → ℕ → ℕ → ℕ → ℕ → ℕ → Reservation
new_row id user_id sale_id quantity idempotency_key expires_at = record {
  id = id;
  user_id = user_id;
  sale_id = sale_id;
  quantity = quantity;
  status = ReservationStatus.pending;
  idempotency_key = idempotency_key;
  expires_at = expires_at;
}

-- INSERT INTO reservations: `id` is the one that the table's default draws. A key that is taken, or
-- a second active reservation of the user for the sale, raises.
unfoldable pub insert_reservation :
    ℕ → ℕ → ℕ → ℕ → ℕ → ℕ → Database → Outcome (Reservation × Database)
insert_reservation id user_id sale_id quantity idempotency_key expires_at db =
    let r = new_row id user_id sale_id quantity idempotency_key expires_at in
    if ltb 0 (count_where (has_key idempotency_key) db.reservations)
      || ltb 0 (count_where (is_active_for user_id sale_id) db.reservations)
    then raised
    else done (r, record db { reservations = db.reservations ++ r ∷ [] })

-- UPDATE reservations SET status = $1 WHERE id = $2: the partial unique index is checked for the
-- user and the sale of each row that is changed.
abbrev pub index_holds : List Reservation → List Reservation → Bool
index_holds rows [] = true
index_holds rows (r ∷ rest) =
    leb (count_where (is_active_for r.user_id r.sale_id) rows) 1 && index_holds rows rest

unfoldable pub update_reservation_status : ℕ → ReservationStatus → Database → Outcome Database
update_reservation_status reservation_id status db =
    let rows =
      update_where (has_id reservation_id) (λ r. record r { status = status }) db.reservations in
    if index_holds rows rows then done (record db { reservations = rows }) else raised

abbrev pub confirm_row : Reservation → Reservation
confirm_row r = record r { status = ReservationStatus.confirmed }

-- WHERE id = $1 AND status = 'pending'; no index can fail, since an active row stays active
unfoldable pub confirm_reservation : ℕ → Database → Database
confirm_reservation reservation_id db = record db {
  reservations = update_where (pending_with reservation_id) confirm_row db.reservations;
}

-- WHERE id = $3 AND status = 'pending'; no row raises ValueError
unfoldable pub update_reservation_quantity : ℕ → ℕ → ℕ → Database → Outcome Database
update_reservation_quantity reservation_id new_quantity new_expires_at db =
    if count_where (pending_with reservation_id) db.reservations == 0
    then raised
    else done (record db {
      reservations =
          update_where (pending_with reservation_id)
            (λ r. record r { quantity = new_quantity; expires_at = new_expires_at })
            db.reservations;
    })

-- No user has two active reservations for one sale, and no key stands twice.
pub record IsUnique (rows : List Reservation) : Type 0 where
  pub one_active : (u s : ℕ) → count_where (is_active_for u s) rows ≤ 1
  pub one_key : (k : ℕ) → count_where (has_key k) rows ≤ 1

-- An INSERT that goes through keeps the table unique.
pub insert_reservation-IsUnique :
    (id u s q k t : ℕ) (db : Database) (r : Reservation) (db' : Database)
    → IsUnique db.reservations
    → insert_reservation id u s q k t db ≡ done (r, db')
    → IsUnique db'.reservations
unfolding insert_reservation
insert_reservation-IsUnique id u s q k t db r db' h e = record {
  one_active = λ a b. ground (
    arith,
    count_where-append (is_active_for a b) db.reservations (new_row id u s q k t ∷ []),
    h.one_active a b,
  );
  one_key = λ j. ground (
    arith,
    count_where-append (has_key j) db.reservations (new_row id u s q k t ∷ []),
    h.one_key j,
  );
}

-- What an UPDATE must leave alone for the uniqueness to survive: the owner, the key, and it makes
-- no row active.
pub record KeepsIndex (f : Reservation → Reservation) (r : Reservation) : Type 0 where
  pub user : (f r).user_id ≡ r.user_id
  pub sale : (f r).sale_id ≡ r.sale_id
  pub key : (f r).idempotency_key ≡ r.idempotency_key
  pub activity : is_active (f r).status ≡ true → is_active r.status ≡ true

module _ (p : Reservation → Bool) (f : Reservation → Reservation)
    (keeps : (r : Reservation) → p r ≡ true → KeepsIndex f r) where
  count_active-update :
      (u s : ℕ) (rows : List Reservation)
      → count_where (is_active_for u s) (update_where p f rows)
        ≤ count_where (is_active_for u s) rows
  count_active-update u s [] = omega arith
  count_active-update u s (r ∷ rows) = ground (arith, keeps r, count_active-update u s rows)

  count_key-update :
      (k : ℕ) (rows : List Reservation)
      → count_where (has_key k) (update_where p f rows) ≤ count_where (has_key k) rows
  count_key-update k [] = omega arith
  count_key-update k (r ∷ rows) = ground (arith, keeps r, count_key-update k rows)

  pub update_where-IsUnique :
      (rows : List Reservation) → IsUnique rows → IsUnique (update_where p f rows)
  update_where-IsUnique rows h = record {
    one_active = λ u s. omega (arith, count_active-update u s rows, h.one_active u s);
    one_key = λ k. omega (arith, count_key-update k rows, h.one_key k);
  }

pub confirm_reservation-IsUnique :
    (id : ℕ) (db : Database)
    → IsUnique db.reservations
    → IsUnique (confirm_reservation id db).reservations
unfolding confirm_reservation
confirm_reservation-IsUnique id db h =
    update_where-IsUnique (pending_with id) confirm_row (λ r e. keeps r e) db.reservations h
  where
    keeps : (r : Reservation) → pending_with id r ≡ true → KeepsIndex confirm_row r
    keeps r e = record { user = refl; sale = refl; key = refl; activity = λ _. ground arith }

-- The test of the partial index on the rows after an UPDATE.
index_holds-one_active :
    (u s : ℕ) (rows rest : List Reservation)
    → index_holds rows rest ≡ true
    → 0 < count_where (is_active_for u s) rest
    → count_where (is_active_for u s) rows ≤ 1
index_holds-one_active u s rows [] h some_row = absurd (omega arith)
index_holds-one_active u s rows (r ∷ rest) h some_row = elim (Bool-cases (is_active_for u s r)) [
  | inl hit ↦
      let owner : r.user_id ≡ u = ground arith in
      let sale : r.sale_id ≡ s = ground arith in
      let one : count_where (is_active_for r.user_id r.sale_id) rows ≤ 1 = ground arith in
      subst (λ a. count_where (is_active_for a s) rows ≤ 1) owner
        (subst (λ b. count_where (is_active_for r.user_id b) rows ≤ 1) sale one)
  | inr miss ↦ index_holds-one_active u s rows rest (ground arith) (ground arith)
]

pub update_reservation_status-IsUnique :
    (k : ℕ) (t : ReservationStatus) (db db' : Database)
    → update_reservation_status k t db ≡ done db'
    → IsUnique db.reservations
    → IsUnique db'.reservations
unfolding update_reservation_status
update_reservation_status-IsUnique k t db db' e h =
    let set_status : Reservation → Reservation = λ r. record r { status = t } in
    let rows = update_where (has_id k) set_status db.reservations in
    let same : db' ≡ record db { reservations = rows } = ground arith in
    let holds : index_holds rows rows ≡ true = ground arith in
    subst (λ (d : Database). IsUnique d.reservations) (sym same)
      (record {
        one_active = λ u s. elim (Bool-cases (ltb 0 (count_where (is_active_for u s) rows))) [
          | inl some_row ↦ index_holds-one_active u s rows rows holds (ground arith)
          | inr no_row ↦ ground arith
        ];
        one_key = λ j. omega (
          arith,
          count_where-update (has_key j) (has_id k) set_status db.reservations (λ r. refl),
          h.one_key j,
        );
      })

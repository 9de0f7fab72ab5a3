-- ===== src/Db/Users.antt =====
-- The users table and backend/app/db/queries/users.py. Names and times of a user are left out.
use flux_kart.Prelude.{
  ℕ, Bool, true, false, Option, none, some, List, [], ◌∷◌, ◌++◌, ◌==◌, ltb, ◌&&◌, ◌||◌, not,
  if◌then◌else◌, first, select, update_where, count_where,
}
use flux_kart.Db.{Database, Outcome, done, raised}
use flux_kart.Admission.{Preregistration}

pub record User : Type 0 where
  pub id : ℕ
  pub email : ℕ
  pub hashed_password : ℕ
  pub is_active : Bool
  pub is_admin : Bool

abbrev pub has_user_id : ℕ → User → Bool
has_user_id user_id u = u.id == user_id

abbrev pub has_email : ℕ → User → Bool
has_email email u = u.email == email

-- `id` is the one that the table's default draws; an email that is taken raises.
unfoldable pub create_user : ℕ → ℕ → ℕ → Bool → List User → Outcome (User × List User)
create_user id email hashed_password is_admin users =
    let u : User = record {
      id = id;
      email = email;
      hashed_password = hashed_password;
      is_active = true;
      is_admin = is_admin;
    } in
    if ltb 0 (count_where (has_email email) users) || ltb 0 (count_where (has_user_id id) users)
    then raised
    else done (u, users ++ u ∷ [])

unfoldable pub get_user_by_email : ℕ → List User → Option User
get_user_by_email email users = first (has_email email) users

-- AND is_active = TRUE
unfoldable pub get_user_by_id : ℕ → List User → Option User
get_user_by_id user_id users = first (λ u. has_user_id user_id u && u.is_active) users

abbrev pub set_active : Bool → User → User
set_active is_active u = record u { is_active = is_active }

abbrev pub ordinary : ℕ → User → Bool
ordinary user_id u = has_user_id user_id u && not u.is_admin

-- AND is_admin = FALSE: the row that RETURNING gives, and the rows.
unfoldable pub admin_deactivate_user : ℕ → List User → Option User × List User
admin_deactivate_user user_id users =
    let users' = update_where (ordinary user_id) (set_active false) users in
    (first (ordinary user_id) users', users')

unfoldable pub admin_activate_user : ℕ → List User → Option User × List User
admin_activate_user user_id users =
    let users' = update_where (has_user_id user_id) (set_active true) users in
    (first (has_user_id user_id) users', users')

-- The rows that stay after the DELETEs of a user who is no administrator.
unfoldable pub admin_delete_user :
    ℕ
    → List User
    → List Preregistration
    → Database
    → Bool × List User × List Preregistration × Database
admin_delete_user user_id users preregistrations db =
    let kept : Bool × List User × List Preregistration × Database = (
      true,
      select (λ u. not (has_user_id user_id u)) users,
      select (λ p. not (p.user_id == user_id)) preregistrations,
      record db {
        orders = select (λ o. not (o.user_id == user_id)) db.orders;
        reservations = select (λ r. not (r.user_id == user_id)) db.reservations;
      },
    ) in
    let refused : Bool × List User × List Preregistration × Database =
      (false, users, preregistrations, db) in
    elim (first (has_user_id user_id) users) [
      | none ↦ refused
      | some u ↦ if u.is_admin then refused else kept
    ]

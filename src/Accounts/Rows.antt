-- ===== src/Accounts/Rows.antt =====
-- The row of a new user in the table, and after its deactivation.
use flux_kart.Prelude.{
  ℕ, ◌≡◌, refl, Bool, true, false, none, some, List, [], ◌∷◌, ◌++◌, arith, ◌&&◌, first,
  update_where, count_where,
}
use flux_kart.Db.Users.{User, has_user_id, has_email, ordinary, set_active}

pub first-append :
    (p : User → Bool) (u : User) (users : List User)
    → first p users ≡ none
    → p u ≡ true
    → first p (users ++ u ∷ []) ≡ some u
first-append p u [] h e = ground arith
first-append p u (x ∷ users) h e = ground (arith, first-append p u users)

pub fresh-active :
    (id : ℕ) (users : List User)
    → count_where (has_user_id id) users ≡ 0
    → first (λ x. has_user_id id x && x.is_active) users ≡ none
fresh-active id [] h = refl
fresh-active id (x ∷ users) h = ground (arith, fresh-active id users)

pub deactivated-email :
    (id email : ℕ) (u : User) (users : List User)
    → first (has_email email) users ≡ none
    → has_email email u ≡ true
    → ordinary id u ≡ true
    → first (has_email email) (update_where (ordinary id) (set_active false) (users ++ u ∷ []))
      ≡ some (set_active false u)
deactivated-email id email u [] h e o = ground arith
deactivated-email id email u (x ∷ users) h e o = ground (arith, deactivated-email id email u users)

pub deactivated-id :
    (id : ℕ) (u : User) (users : List User)
    → count_where (has_user_id id) users ≡ 0
    → ordinary id u ≡ true
    → first
        (λ x. has_user_id id x && x.is_active)
        (update_where (ordinary id) (set_active false) (users ++ u ∷ []))
      ≡ none
deactivated-id id u [] h o = ground arith
deactivated-id id u (x ∷ users) h o = ground (arith, deactivated-id id u users)

abbrev pub new_user : ℕ → ℕ → ℕ → User
new_user id email hashed = record {
  id = id;
  email = email;
  hashed_password = hashed;
  is_active = true;
  is_admin = false;
}

pub no_email :
    (email : ℕ) (users : List User)
    → first (has_email email) users ≡ none
    → count_where (has_email email) users ≡ 0
no_email email [] h = refl
no_email email (x ∷ users) h = ground (arith, no_email email users)

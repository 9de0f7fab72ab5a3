-- ===== src/Examples/Signing.antt =====
-- Tokens that are their claims, and a user who registers.
use flux_kart.Prelude.{
  ℕ, ◌+◌, ◌<◌, ◌≤◌, ◌≡◌, refl, true, none, some, Option, [], ◌∷◌, arith, ◌==◌, ltb, if◌then◌else◌,
}
use flux_kart.Db.Users.{User, admin_deactivate_user, get_user_by_email}
use flux_kart.Accounts.{
  Security, Claims, tokens, unauthorized_401, forbidden_403, create_access_token,
  create_refresh_token, register, login, get_current_user, refresh_token,
}
use flux_kart.Accounts.Rows.{new_user}
use flux_kart.Accounts.Session.{session_until_deactivated}

abbrev decoded : ℕ → Claims → Option Claims
decoded now c = if ltb now c.exp then some c else none

pub decoded_early : (now : ℕ) (c : Claims) → now < c.exp → decoded now c ≡ some c
decoded_early now c h = ground arith

pub decoded_late : (now : ℕ) (c : Claims) → c.exp + 1000 ≤ now → decoded now c ≡ none
decoded_late now c h = ground arith

pub same_password : (p : ℕ) → (p == p) ≡ true
same_password p = ground arith

abbrev plain : Security
plain = record {
  Token = Claims;
  hash = λ salt password. password;
  verify = λ password hashed. password == hashed;
  encode = λ c. c;
  decode = decoded;
  access_token_expire_minutes = 30;
  refresh_token_expire_days = 7;
  verify-hash = λ salt password. same_password password;
  decode-encode = decoded_early;
  decode-expired = decoded_late;
}

abbrev administrator : User
administrator = record {
  id = 1;
  email = 10;
  hashed_password = 99;
  is_active = true;
  is_admin = true;
}

session_until_deactivated_example :
    let u = new_user 2 20 55 in
    let users = (register plain 0 2 20 55 (administrator ∷ [])).1 in
    let token = create_access_token plain 1000 2 20 in
    let renewal = create_refresh_token plain 1000 2 in
    let gone = (admin_deactivate_user 2 users).1 in
    (login plain 1000 20 55 users ≡ tokens token renewal)
    × (get_current_user plain 5000 token users ≡ some u)
    × (refresh_token plain 5000 token users ≡ unauthorized_401)
    × (get_current_user plain 5000 renewal users ≡ none)
    × (refresh_token plain 5000 renewal users
        ≡ tokens (create_access_token plain 5000 2 20) (create_refresh_token plain 5000 2))
    × (get_current_user plain 5000 token gone ≡ none)
    × (refresh_token plain 5000 renewal gone ≡ unauthorized_401)
    × (login plain 5000 20 55 gone ≡ forbidden_403)
    × (get_current_user plain 1802000 token users ≡ none)
    × (refresh_token plain 604802000 renewal users ≡ unauthorized_401)
unfolding get_user_by_email
session_until_deactivated_example =
    session_until_deactivated plain 0 2 20 55 1000 5000 1802000 604802000 (administrator ∷ []) refl
      refl (omega arith) (omega arith) (omega arith) (omega arith)

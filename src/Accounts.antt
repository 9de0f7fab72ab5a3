-- ===== src/Accounts.antt =====
-- backend/app/routers/auth.py with backend/app/utils/security.py: registration, tokens and the user of
-- a request. The hashes and the signed tokens are those of libraries, and a parameter.
pub mod Rows
pub mod Session
use flux_kart.Prelude.{
  ℕ, ◌+◌, ◌*◌, ◌<◌, ◌≤◌, ◌≡◌, Bool, true, false, Option, none, some, List, [], ◌∷◌, if◌then◌else◌,
}
use flux_kart.Db.{Outcome, done, raised}
use flux_kart.Db.Users.{User, create_user, get_user_by_email, get_user_by_id}

pub data TokenType : Type 0 where
  access refresh : TokenType

-- The payload of a token: only an access token names the email.
pub record Claims : Type 0 where
  pub sub : ℕ
  pub email : Option ℕ
  pub type : TokenType
  pub exp : ℕ

-- passlib and jose, with the settings of the tokens: a password is verified against its hash, and a
-- token that was signed is decoded until it expires.
pub record Security : Type 1 where
  pub Token : Type 0
  -- the salt that bcrypt draws, and the password
  pub hash : ℕ → ℕ → ℕ
  pub verify : ℕ → ℕ → Bool
  pub encode : Claims → Token
  pub decode : ℕ → Token → Option Claims
  pub access_token_expire_minutes : ℕ
  pub refresh_token_expire_days : ℕ
  pub verify-hash : (salt password : ℕ) → verify password (hash salt password) ≡ true
  pub decode-encode : (now : ℕ) (c : Claims) → now < c.exp → decode now (encode c) ≡ some c
  -- jose compares whole seconds, so that a token is refused a second after it expired at the latest.
  pub decode-expired : (now : ℕ) (c : Claims) → c.exp + 1000 ≤ now → decode now (encode c) ≡ none

abbrev pub is_access : TokenType → Bool
is_access access = true
is_access refresh = false

pub data Registration : Type 0 where
  registered : User → Registration
  conflict_409 server_error_500 : Registration

module _ (S : Security) where
  unfoldable pub create_access_token : ℕ → ℕ → ℕ → S.Token
  create_access_token now user_id email = S.encode (record {
    sub = user_id;
    email = some email;
    type = access;
    exp = now + S.access_token_expire_minutes * 60000;
  })

  unfoldable pub create_refresh_token : ℕ → ℕ → S.Token
  create_refresh_token now user_id = S.encode (record {
    sub = user_id;
    email = none;
    type = refresh;
    exp = now + S.refresh_token_expire_days * 86400000;
  })

  -- The two tokens, or the status of the refusal.
  pub data Login : Type 0 where
    tokens : S.Token → S.Token → Login
    unauthorized_401 forbidden_403 : Login

  new_tokens : ℕ → User → Login
  unfolding create_access_token create_refresh_token
  new_tokens now u = tokens (create_access_token now u.id u.email) (create_refresh_token now u.id)

  -- POST /auth/register
  unfoldable pub register : ℕ → ℕ → ℕ → ℕ → List User → Registration × List User
  register salt id email password users = elim (get_user_by_email email users) [
    | some _ ↦ (conflict_409, users)
    | none ↦ elim (create_user id email (S.hash salt password) false users) [
      | raised ↦ (server_error_500, users)
      | done (u, users') ↦ (registered u, users')
    ]
  ]

  -- POST /auth/login
  unfoldable pub login : ℕ → ℕ → ℕ → List User → Login
  unfolding new_tokens
  login now email password users = elim (get_user_by_email email users) [
    | none ↦ unauthorized_401
    | some u ↦
        if S.verify password u.hashed_password
        then if u.is_active then new_tokens now u else forbidden_403
        else unauthorized_401
  ]

  -- `none` is 401; a token always has a `sub` here.
  unfoldable pub get_current_user : ℕ → S.Token → List User → Option User
  get_current_user now token users = elim (S.decode now token) [
    | none ↦ none
    | some c ↦ if is_access c.type then get_user_by_id c.sub users else none
  ]

  -- POST /auth/refresh
  unfoldable pub refresh_token : ℕ → S.Token → List User → Login
  unfolding new_tokens
  refresh_token now token users = elim (S.decode now token) [
    | none ↦ unauthorized_401
    | some c ↦ if is_access c.type then unauthorized_401 else elim (get_user_by_id c.sub users) [
      | none ↦ unauthorized_401
      | some u ↦ new_tokens now u
    ]
  ]

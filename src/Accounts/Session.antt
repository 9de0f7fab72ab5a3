-- ===== src/Accounts/Session.antt =====
-- A registered user from the login to the deactivation of the account.
use flux_kart.Prelude.{
  ℕ, ◌+◌, ◌*◌, ◌<◌, ◌≤◌, ◌≡◌, ◌∙◌, true, false, none, some, List, [], ◌∷◌, ◌++◌, arith, ◌&&◌,
  if◌then◌else◌, first, count_where,
}
use flux_kart.Db.Users.{
  User, has_user_id, has_email, set_active, create_user, get_user_by_email, get_user_by_id,
  admin_deactivate_user,
}
use flux_kart.Accounts.{
  Security, Claims, access, refresh, registered, tokens, unauthorized_401, forbidden_403,
  create_access_token, create_refresh_token, new_tokens, register, login, get_current_user,
  refresh_token,
}
use flux_kart.Accounts.Rows.{
  first-append, fresh-active, deactivated-email, deactivated-id, new_user, no_email,
}

module _ (S : Security) where
  register-fresh :
      (salt id email password : ℕ) (users : List User)
      → first (has_email email) users ≡ none
      → count_where (has_user_id id) users ≡ 0
      → let u = new_user id email (S.hash salt password) in
        register S salt id email password users ≡ (registered u, users ++ u ∷ [])
  unfolding register create_user get_user_by_email
  register-fresh salt id email password users e i = ground (arith, e, i, no_email email users e)

  login-active :
      (now email password : ℕ) (users : List User) (u : User)
      → first (has_email email) users ≡ some u
      → S.verify password u.hashed_password ≡ true
      → login S now email password users ≡ (
          if u.is_active
          then tokens (create_access_token S now u.id u.email) (create_refresh_token S now u.id)
          else forbidden_403)
  unfolding login new_tokens get_user_by_email
  login-active now email password users u e v = ground (arith, e, v)

  access-user :
      (now later id email : ℕ) (users : List User)
      → later < now + S.access_token_expire_minutes * 60000
      → let token = create_access_token S now id email in
        (get_current_user S later token users ≡ get_user_by_id id users)
        × (refresh_token S later token users ≡ unauthorized_401)
  unfolding get_current_user refresh_token create_access_token
  access-user now later id email users soon = ground (
    arith,
    S.decode-encode later
        (record {
          sub = id;
          email = some email;
          type = access;
          exp = now + S.access_token_expire_minutes * 60000;
        })
        soon,
  )

  refresh-user :
      (now later id : ℕ) (users : List User)
      → later < now + S.refresh_token_expire_days * 86400000
      → let token = create_refresh_token S now id in
        (get_current_user S later token users ≡ none)
        × (get_user_by_id id users ≡ none → refresh_token S later token users ≡ unauthorized_401)
        × ((u : User)
            → get_user_by_id id users ≡ some u
            → refresh_token S later token users
              ≡ tokens
                  (create_access_token S later u.id u.email)
                  (create_refresh_token S later u.id))
  unfolding get_current_user refresh_token create_refresh_token new_tokens
  refresh-user now later id users soon =
      let e =
        S.decode-encode later
          (record {
            sub = id;
            email = none;
            type = refresh;
            exp = now + S.refresh_token_expire_days * 86400000;
          })
          soon in
      (ground (arith, e), (λ gone. ground (arith, e, gone)), λ u there. ground (arith, e, there))

  -- A token of either kind that is over names no user and renews nothing.
  over-refused :
      (c : Claims) (now : ℕ) (users : List User)
      → c.exp + 1000 ≤ now
      → (get_current_user S now (S.encode c) users ≡ none)
        × (refresh_token S now (S.encode c) users ≡ unauthorized_401)
  unfolding get_current_user refresh_token
  over-refused c now users over =
      let e = S.decode-expired now c over in (ground (arith, e), ground (arith, e))

  access-over :
      (now late id email : ℕ) (users : List User)
      → now + S.access_token_expire_minutes * 60000 + 1000 ≤ late
      → get_current_user S late (create_access_token S now id email) users ≡ none
  unfolding create_access_token
  access-over now late id email users over =
      (over-refused
        (record {
          sub = id;
          email = some email;
          type = access;
          exp = now + S.access_token_expire_minutes * 60000;
        })
        late users over).0

  refresh-over :
      (now late id : ℕ) (users : List User)
      → now + S.refresh_token_expire_days * 86400000 + 1000 ≤ late
      → refresh_token S late (create_refresh_token S now id) users ≡ unauthorized_401
  unfolding create_refresh_token
  refresh-over now late id users over =
      (over-refused
        (record {
          sub = id;
          email = none;
          type = refresh;
          exp = now + S.refresh_token_expire_days * 86400000;
        })
        late users over).1

  -- A registration with a fresh email and a fresh id goes through, and the user can log in with the
  -- password. Before the tokens expire, the access token names the user and is no refresh token, and
  -- the refresh token names no user and is answered with new tokens; once the account is deactivated,
  -- neither token is accepted and the login answers 403. From a second after its time on, the access
  -- token names no user and the refresh token is answered 401.
  pub session_until_deactivated :
      (salt id email password now later over late : ℕ) (users : List User)
      → get_user_by_email email users ≡ none
      → count_where (has_user_id id) users ≡ 0
      → later < now + S.access_token_expire_minutes * 60000
      → later < now + S.refresh_token_expire_days * 86400000
      → now + S.access_token_expire_minutes * 60000 + 1000 ≤ over
      → now + S.refresh_token_expire_days * 86400000 + 1000 ≤ late
      → let u = new_user id email (S.hash salt password) in
        let users' = (register S salt id email password users).1 in
        let token = create_access_token S now id email in
        let renewal = create_refresh_token S now id in
        let gone = (admin_deactivate_user id users').1 in
        (login S now email password users' ≡ tokens token renewal)
        × (get_current_user S later token users' ≡ some u)
        × (refresh_token S later token users' ≡ unauthorized_401)
        × (get_current_user S later renewal users' ≡ none)
        × (refresh_token S later renewal users'
            ≡ tokens (create_access_token S later id email) (create_refresh_token S later id))
        × (get_current_user S later token gone ≡ none)
        × (refresh_token S later renewal gone ≡ unauthorized_401)
        × (login S later email password gone ≡ forbidden_403)
        × (get_current_user S over token users' ≡ none)
        × (refresh_token S late renewal users' ≡ unauthorized_401)
  unfolding get_user_by_email get_user_by_id admin_deactivate_user
  session_until_deactivated salt id email password now later over late users fresh free soon before
        past gone_by =
      let u = new_user id email (S.hash salt password) in
      let users' = users ++ u ∷ [] in
      let gone = (admin_deactivate_user id users').1 in
      let known = S.verify-hash salt password in
      let (named, no_refresh) = access-user now later id email users' soon in
      let there =
        first-append (λ x. has_user_id id x && x.is_active) u users (fresh-active id users free)
          (ground arith) in
      let (no_access, _, renewed) = refresh-user now later id users' before in
      rw (register-fresh salt id email password users fresh free) (
        login-active now email password users' u
            (first-append (has_email email) u users fresh (ground arith)) known,
        named ∙ there,
        no_refresh,
        no_access,
        renewed u there,
        (access-user now later id email gone soon).0
            ∙ deactivated-id id u users free (ground arith),
        (refresh-user now later id gone before).1 (deactivated-id id u users free (ground arith)),
        login-active later email password gone (set_active false u)
            (deactivated-email id email u users fresh (ground arith) (ground arith)) known,
        access-over now over id email users' past,
        refresh-over now late id users' gone_by,
      )

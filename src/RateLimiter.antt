-- ===== src/RateLimiter.antt =====
-- backend/app/middleware/rate_limiter.py: the sliding window of requests, kept by one Lua script in a
-- sorted set for each user or address and path. The script runs atomically, at the time of the API.
pub mod Removal
pub mod Window
use flux_kart.Prelude.{
  ℕ, ◌-◌, ◌*◌, Bool, true, false, Option, none, some, ltb, leb, if◌then◌else◌, ◌+◌,
}
use flux_kart.Redis.{ScoredSets}

abbrev pub reservation_limit : ℕ
reservation_limit = 5

abbrev pub reservation_window : ℕ
reservation_window = 60

abbrev pub auth_login_limit : ℕ
auth_login_limit = 100

abbrev pub auth_login_window : ℕ
auth_login_window = 60

module _ (Z : ScoredSets ℕ ℕ) where
  -- ZREMRANGEBYSCORE from 0 to `now - window`, which is below 0, and so removes nothing, early on.
  unfoldable pub remove_old : ℕ → ℕ → ℕ → Z.Db → Z.Db
  remove_old key now window db =
      if ltb now window then db else Z.zremrangebyscore db now key 0 (now - window)

  -- The script: the two numbers of its answer, and the set.
  unfoldable pub lua_script : ℕ → ℕ → ℕ → ℕ → ℕ → Z.Db → (ℕ × Bool) × Z.Db
  unfolding remove_old
  lua_script key now window limit request_id db =
      let db' = remove_old key now window db in
      let count = Z.zcard db' now key in
      if leb limit count
      then ((count, false), db')
      else ((count + 1, true), Z.pexpire (Z.zadd db' now key request_id now) now key window)

  -- `none` lets the request go on. Without Redis every request does.
  unfoldable pub check_rate_limit : Bool → ℕ → ℕ → ℕ → ℕ → ℕ → Z.Db → Option ℕ × Z.Db
  unfolding lua_script
  check_rate_limit false key now limit window_seconds request_id db = (none, db)
  check_rate_limit true key now limit window_seconds request_id db =
      let (answer, db') = lua_script key now (window_seconds * 1000) limit request_id db in
      ((if answer.1 then none else some 429), db')

  -- The key of a limit names who asks and for which path.
  unfoldable pub check_reservation_rate_limit : Bool → ℕ → ℕ → ℕ → Z.Db → Option ℕ × Z.Db
  unfolding check_rate_limit
  check_reservation_rate_limit redis_up user_key now request_id db =
      check_rate_limit redis_up user_key now reservation_limit reservation_window request_id db

  unfoldable pub check_login_rate_limit : Bool → ℕ → ℕ → ℕ → Z.Db → Option ℕ × Z.Db
  unfolding check_rate_limit
  check_login_rate_limit redis_up ip_key now request_id db =
      check_rate_limit redis_up ip_key now auth_login_limit auth_login_window request_id db

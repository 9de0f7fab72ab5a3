-- ===== src/Redis.antt =====
-- The Redis server, which the program calls and does not implement: a parameter of the model.
-- Each key prefix of the program ("inventory:", "reservation:", ...) is a store of its own, since
-- keys of different prefixes never meet. Times are milliseconds.
use flux_kart.Prelude.{
  ℕ, ◌+◌, ◌≤◌, ◌<◌, ◌≡◌, ◌≢◌, Bool, true, false, Option, none, some, List, [], ◌&&◌, not, leb,
  if◌then◌else◌, length, select, count_where,
}

-- Keys that hold a value and never expire. `set` is SET without EX; `del` is DEL.
pub record KeyStore (K V : Type 0) : Type 1 where
  pub Db : Type 0
  pub get : Db → K → Option V
  pub set : Db → K → V → Db
  pub del : Db → K → Db
  pub get-set_self : (db : Db) (k : K) (v : V) → get (set db k v) k ≡ some v
  pub get-set_ne : (db : Db) (k j : K) (v : V) → k ≢ j → get (set db k v) j ≡ get db j
  pub get-del_self : (db : Db) (k : K) → get (del db k) k ≡ none
  pub get-del_ne : (db : Db) (k j : K) → k ≢ j → get (del db k) j ≡ get db j

-- Keys that expire. `get db now k` is GET at the time `now`, and `set db k v t` is SET with an
-- EX that runs out at the time `t`: before `t` the key holds `v`, and after `t` it is gone.
pub record ExpiringStore (K V : Type 0) : Type 1 where
  pub Db : Type 0
  pub get : Db → ℕ → K → Option V
  pub set : Db → K → V → ℕ → Db
  pub del : Db → K → Db
  -- TTL: the whole seconds that the key has left.
  pub ttl : Db → ℕ → K → ℕ
  pub get-set_live :
      (db : Db) (k : K) (v : V) (t now : ℕ) → now < t → get (set db k v t) now k ≡ some v
  pub get-set_expired :
      (db : Db) (k : K) (v : V) (t now : ℕ) → t < now → get (set db k v t) now k ≡ none
  pub get-set_ne :
      (db : Db) (k j : K) (v : V) (t now : ℕ) → k ≢ j → get (set db k v t) now j ≡ get db now j
  pub get-del_self : (db : Db) (now : ℕ) (k : K) → get (del db k) now k ≡ none
  pub get-del_ne : (db : Db) (now : ℕ) (k j : K) → k ≢ j → get (del db k) now j ≡ get db now j

-- Sorted sets of members with a score, one to a key. ZADD NX adds a member that is not there and
-- leaves one that is; ZRANK is a member's place from the lowest score; ZPOPMIN takes the lowest.
pub record SortedSets (K M : Type 0) : Type 1 where
  pub Db : Type 0
  pub zcard : Db → K → ℕ
  pub zrank : Db → K → M → Option ℕ
  pub zadd_nx : Db → K → M → ℕ → Db
  pub zrem : Db → K → M → Db
  pub zpopmin : Db → K → ℕ → List M × Db
  -- DEL
  pub del : Db → K → Db
  pub zadd_nx-present :
      (db : Db) (k : K) (m : M) (n t : ℕ) → zrank db k m ≡ some n → zadd_nx db k m t ≡ db
  pub zrank-zadd_nx :
      (db : Db) (k : K) (m : M) (t : ℕ)
      → (n : ℕ) × (zrank (zadd_nx db k m t) k m ≡ some n) × (n < zcard (zadd_nx db k m t) k)
  pub zrank-zrem : (db : Db) (k : K) (m : M) → zrank (zrem db k m) k m ≡ none
  -- ZRANGE key 0 -1, and KEYS: a key that is not listed has no members.
  pub zrange : Db → K → List M
  pub keys : Db → List K
  pub zrange-zrem :
      (db : Db) (k : K) (m : M) (same : M → Bool)
      → ((n : M) → same n ≡ true → n ≡ m)
      → same m ≡ true
      → zrange (zrem db k m) k ≡ select (λ n. not (same n)) (zrange db k)
  pub zrange-zrem_ne : (db : Db) (k j : K) (m : M) → k ≢ j → zrange (zrem db k m) j ≡ zrange db j
  pub zcard-del : (db : Db) (k : K) → zcard (del db k) k ≡ 0
  pub zrange-keys :
      (db : Db) (k : K) (same : K → Bool)
      → same k ≡ true
      → count_where same (keys db) ≡ 0
      → zrange db k ≡ []

-- Sorted sets read as lists of members with their scores (ZRANGE key 0 -1 WITHSCORES at a time). A
-- write at the time `now` is seen from then on; PEXPIRE keeps the contents for `w` milliseconds.
pub record ScoredSets (K M : Type 0) : Type 1 where
  pub Db : Type 0
  pub zrange : Db → ℕ → K → List (M × ℕ)
  pub zcard : Db → ℕ → K → ℕ
  pub zremrangebyscore : Db → ℕ → K → ℕ → ℕ → Db
  pub zadd : Db → ℕ → K → M → ℕ → Db
  pub pexpire : Db → ℕ → K → ℕ → Db
  pub zcard-zrange : (db : Db) (now : ℕ) (k : K) → zcard db now k ≡ length (zrange db now k)
  pub zrange-zremrangebyscore :
      (db : Db) (now later : ℕ) (k : K) (lo hi : ℕ)
      → now ≤ later
      → zrange (zremrangebyscore db now k lo hi) later k
        ≡ select (λ m. not (leb lo m.1 && leb m.1 hi)) (zrange db later k)
  -- ZADD of a member `same` finds in no place adds one, wherever its score puts it.
  pub zrange-zadd :
      (db : Db) (now : ℕ) (k : K) (m : M) (s : ℕ) (same : M × ℕ → Bool) (p : M × ℕ → Bool)
      → ((n : M) (t : ℕ) → same (n, t) ≡ false → n ≢ m)
      → count_where same (zrange db now k) ≡ 0
      → count_where p (zrange (zadd db now k m s) now k)
        ≡ count_where p (zrange db now k) + (if p (m, s) then 1 else 0)
  pub zrange-pexpire :
      (db : Db) (now later : ℕ) (k : K) (w : ℕ)
      → now ≤ later
      → later ≤ now + w
      → zrange (pexpire db now k w) later k ≡ zrange db now k
  pub zrange-pexpire_gone :
      (db : Db) (now later : ℕ) (k : K) (w : ℕ)
      → now + w < later
      → zrange (pexpire db now k w) later k ≡ []

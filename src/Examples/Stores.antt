-- ===== src/Examples/Stores.antt =====
-- A Redis of functions, for the interfaces of the stores.
use flux_kart.Prelude.{
  ℕ, ◌+◌, ◌-◌, ◌<◌, ◌≡◌, ◌≢◌, ap, ◌∙◌, Option, none, some, arith, ◌==◌, ltb, if◌then◌else◌,
}
use Prim.Native.Nat.{◌/◌}
use flux_kart.Redis.{KeyStore, ExpiringStore}

module _ {V : Type 0} where
  abbrev pub write : (ℕ → Option V) → ℕ → Option V → ℕ → Option V
  write db k v j = if k == j then v else db j

  pub write_self : (db : ℕ → Option V) (k : ℕ) (v : Option V) → write db k v k ≡ v
  write_self db k v = ground arith

  pub write_ne : (db : ℕ → Option V) (k j : ℕ) (v : Option V) → k ≢ j → write db k v j ≡ db j
  write_ne db k j v h = ground arith

  -- The value before its time.
  abbrev pub alive : ℕ → Option (V × ℕ) → Option V
  alive now none = none
  alive now (some (v, t)) = if ltb now t then some v else none

  -- Redis rounds the milliseconds that are left to seconds.
  abbrev pub left : ℕ → Option (V × ℕ) → ℕ
  left now none = 0
  left now (some (v, t)) = (t - now + 500) / 1000

  pub alive_live : (v : V) (now t : ℕ) → now < t → alive now (some (v, t)) ≡ some v
  alive_live v now t h = ground arith

  pub alive_expired : (v : V) (now t : ℕ) → t < now → alive now (some (v, t)) ≡ none
  alive_expired v now t h = ground arith

abbrev pub key_store : (V : Type 0) → KeyStore ℕ V
key_store V = record {
  Db = ℕ → Option V;
  get = λ db k. db k;
  set = λ db k v. write db k (some v);
  del = λ db k. write db k none;
  get-set_self = λ db k v. write_self db k (some v);
  get-set_ne = λ db k j v h. write_ne db k j (some v) h;
  get-del_self = λ db k. write_self db k none;
  get-del_ne = λ db k j h. write_ne db k j none h;
}

abbrev pub expiring_store : (V : Type 0) → ExpiringStore ℕ V
expiring_store V = record {
  Db = ℕ → Option (V × ℕ);
  get = λ db now k. alive now (db k);
  set = λ db k v t. write db k (some (v, t));
  del = λ db k. write db k none;
  ttl = λ db now k. left now (db k);
  get-set_live =
      λ db k v t now h. ap (alive now) (write_self db k (some (v, t))) ∙ alive_live v now t h;
  get-set_expired =
      λ db k v t now h. ap (alive now) (write_self db k (some (v, t))) ∙ alive_expired v now t h;
  get-set_ne = λ db k j v t now h. ap (alive now) (write_ne db k j (some (v, t)) h);
  get-del_self = λ db now k. ap (alive now) (write_self db k none);
  get-del_ne = λ db now k j h. ap (alive now) (write_ne db k j none h);
}

-- The keys that name a sale and a user.
module _ {V : Type 0} where
  abbrev pub write_pair : (ℕ × ℕ → Option V) → ℕ × ℕ → Option V → ℕ × ℕ → Option V
  write_pair db (a, b) v (c, d) = if a == c then (if b == d then v else db (c, d)) else db (c, d)

  pub write_pair_self : (db : ℕ × ℕ → Option V) (k : ℕ × ℕ) (v : Option V) → write_pair db k v k ≡ v
  write_pair_self db (a, b) v = ground arith

  pub write_pair_ne :
      (db : ℕ × ℕ → Option V) (k j : ℕ × ℕ) (v : Option V) → k ≢ j → write_pair db k v j ≡ db j
  write_pair_ne db (a, b) (c, d) v h = ground arith

abbrev pub pair_store : (V : Type 0) → ExpiringStore (ℕ × ℕ) V
pair_store V = record {
  Db = ℕ × ℕ → Option (V × ℕ);
  get = λ db now k. alive now (db k);
  set = λ db k v t. write_pair db k (some (v, t));
  del = λ db k. write_pair db k none;
  ttl = λ db now k. left now (db k);
  get-set_live =
      λ db k v t now h. ap (alive now) (write_pair_self db k (some (v, t))) ∙ alive_live v now t h;
  get-set_expired = λ db k v t now h.
      ap (alive now) (write_pair_self db k (some (v, t))) ∙ alive_expired v now t h;
  get-set_ne = λ db k j v t now h. ap (alive now) (write_pair_ne db k j (some (v, t)) h);
  get-del_self = λ db now k. ap (alive now) (write_pair_self db k none);
  get-del_ne = λ db now k j h. ap (alive now) (write_pair_ne db k j none h);
}

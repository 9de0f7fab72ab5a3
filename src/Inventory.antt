-- ===== src/Inventory.antt =====
-- backend/app/services/inventory_service.py: the inventory counter of a sale and the hold of a
-- reservation, both in Redis. Each Lua script runs atomically, so it is one function on the two
-- stores. A script that Redis aborts raises in the caller and keeps the writes made before.
pub mod Accounting
pub mod Holds
use flux_kart.Prelude.{ℕ, ◌+◌, ◌-◌, ◌*◌, Bool, true, false, Option, none, some, ◌==◌, if◌then◌else◌}
use flux_kart.Prelude.Int.{ℤ, pos, ◌+ℤ◌, ◌-ℤ◌, ltb_ℤ}
use flux_kart.Redis.{KeyStore, ExpiringStore}

-- The JSON value under "reservation:{id}".
pub record Hold : Type 0 where
  pub user_id : ℕ
  pub sale_id : ℕ
  pub quantity : ℤ
  pub created_at : ℕ

-- What the script of `try_increase_reservation` or `release_partial_inventory` gives the caller.
pub data Reply : Type 0 where
  answer : Bool → Reply
  script_error : Reply

-- INCRBY takes a missing key for 0.
abbrev pub or_zero : Option ℤ → ℤ
or_zero none = pos 0
or_zero (some v) = v

-- The time at which an EX of so many seconds runs out.
abbrev pub deadline : ℕ → ℕ → ℕ
deadline now ttl_seconds = now + ttl_seconds * 1000

-- `reservation_data` of `try_reserve_inventory`.
abbrev pub new_hold : ℕ → ℕ → ℕ → ℕ → Hold
new_hold now sale_id user_id quantity = record {
  user_id = user_id;
  sale_id = sale_id;
  quantity = pos quantity;
  created_at = now;
}

module _ (C : KeyStore ℕ ℤ) (H : ExpiringStore ℕ Hold) where
  abbrev pub Stock : Type 0
  Stock = C.Db × H.Db

  -- `quantity` minus what is reserved, stopped at 0.
  unfoldable pub initialize_inventory : ℕ → ℕ → ℕ → Stock → Stock
  initialize_inventory sale_id quantity already_reserved (c, h) =
      (C.set c sale_id (pos (quantity - already_reserved)), h)

  unfoldable pub get_available_inventory : ℕ → Stock → ℤ
  get_available_inventory sale_id (c, h) = or_zero (C.get c sale_id)

  unfoldable pub try_reserve_inventory : ℕ → ℕ → ℕ → ℕ → ℕ → ℕ → Stock → Bool × Stock
  try_reserve_inventory now sale_id reservation_id user_id quantity ttl_seconds (c, h) =
      elim (C.get c sale_id) [
        | none ↦ (false, (c, h))
        | some current ↦ if ltb_ℤ current (pos quantity) then (false, (c, h)) else (
          true,
          (
            C.set c sale_id (current -ℤ pos quantity),
            H.set h reservation_id (new_hold now sale_id user_id quantity)
                (deadline now ttl_seconds),
          ),
        )
      ]

  unfoldable pub release_inventory : ℕ → ℕ → ℕ → ℕ → Stock → Stock
  release_inventory now sale_id reservation_id quantity (c, h) = elim (H.get h now reservation_id) [
    | none ↦ (c, h)
    | some _ ↦ (C.set c sale_id (or_zero (C.get c sale_id) +ℤ pos quantity), H.del h reservation_id)
  ]

  unfoldable pub confirm_reservation : ℕ → Stock → Stock
  confirm_reservation reservation_id (c, h) = (c, H.del h reservation_id)

  -- The end of both scripts below: the metadata is written back with the seconds that TTL gives,
  -- and SET refuses an EX of 0.
  rewrite_hold : ℕ → ℕ → (ℤ → ℤ) → H.Db → Reply × H.Db
  rewrite_hold now reservation_id change h = elim (H.get h now reservation_id) [
    | none ↦ (answer true, h)
    | some d ↦ if H.ttl h now reservation_id == 0 then (script_error, h) else (
      answer true,
      H.set h reservation_id (record d { quantity = change d.quantity })
          (deadline now (H.ttl h now reservation_id)),
    )
  ]

  unfoldable pub try_increase_reservation : ℕ → ℕ → ℕ → ℕ → Stock → Reply × Stock
  unfolding rewrite_hold
  try_increase_reservation now sale_id reservation_id extra (c, h) = elim (C.get c sale_id) [
    | none ↦ (answer false, (c, h))
    | some current ↦
        if ltb_ℤ current (pos extra)
        then (answer false, (c, h))
        else let (r, h') = rewrite_hold now reservation_id (λ q. q +ℤ pos extra) h in
          (r, (C.set c sale_id (current -ℤ pos extra), h'))
  ]

  unfoldable pub release_partial_inventory : ℕ → ℕ → ℕ → ℕ → Stock → Reply × Stock
  unfolding rewrite_hold
  release_partial_inventory now sale_id reservation_id released (c, h) =
      let (r, h') = rewrite_hold now reservation_id (λ q. q -ℤ pos released) h in
      (r, (C.set c sale_id (or_zero (C.get c sale_id) +ℤ pos released), h'))

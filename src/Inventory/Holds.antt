-- ===== src/Inventory/Holds.antt =====
-- The hold of a reservation: its life, and its quantity against the counter.
use flux_kart.Prelude.{ℕ, ◌<◌, ◌≡◌, true, false, none, some, arith, Option-cases, inl, inr}
use flux_kart.Prelude.Int.{ℤ, pos, ◌+ℤ◌, ◌-ℤ◌, int_laws}
use flux_kart.Redis.{KeyStore, ExpiringStore}
use flux_kart.Inventory.{
  Hold, Stock, answer, or_zero, deadline, new_hold, rewrite_hold, try_reserve_inventory,
  release_inventory, try_increase_reservation, release_partial_inventory,
}

sub-add : (a b : ℤ) → a -ℤ b +ℤ b ≡ a
sub-add a b = omega int_laws

add-sub : (a b : ℤ) → a +ℤ b -ℤ b ≡ a
add-sub a b = omega int_laws

module _ (C : KeyStore ℕ ℤ) (H : ExpiringStore ℕ Hold) where
  -- `release_inventory` gives the units back exactly once: where the hold is there the counter rises
  -- by the quantity, and every later release of that reservation, at any time, for any sale and of
  -- any quantity, changes nothing.
  pub release_once :
      (now later s t r q p : ℕ) (d : Hold) (st : Stock C H)
      → H.get st.1 now r ≡ some d
      → let released = release_inventory C H now s r q st in
        (C.get released.0 s ≡ some (or_zero (C.get st.0 s) +ℤ pos q))
        × (release_inventory C H later t r p released ≡ released)
  unfolding release_inventory
  release_once now later s t r q p d (c, h) e =
      ground (arith, C.get-set_self c s (or_zero (C.get c s) +ℤ pos q), H.get-del_self h later r)

  -- A release before the time to live of the hold runs out.
  pub release-reserve :
      (now later s r u q ttl : ℕ) (v : ℤ) (st : Stock C H)
      → C.get st.0 s ≡ some v
      → (try_reserve_inventory C H now s r u q ttl st).0 ≡ true
      → later < deadline now ttl
      → let st' =
          release_inventory C H later s r q (try_reserve_inventory C H now s r u q ttl st).1 in
        (C.get st'.0 s ≡ some v) × (H.get st'.1 later r ≡ none)
  unfolding release_inventory try_reserve_inventory
  release-reserve now later s r u q ttl v (c, h) e ok live = ground (
    arith,
    C.get-set_self c s (v -ℤ pos q),
    C.get-set_self (C.set c s (v -ℤ pos q)) s (v -ℤ pos q +ℤ pos q),
    H.get-set_live h r (new_hold now s u q) (deadline now ttl) later,
    H.get-del_self (H.set h r (new_hold now s u q) (deadline now ttl)) later r,
    sub-add v (pos q),
  )

  -- A release after that.
  release_after_expiry :
      (now later s t r u q p ttl : ℕ) (st : Stock C H)
      → (try_reserve_inventory C H now s r u q ttl st).0 ≡ true
      → deadline now ttl < later
      → let reserved = (try_reserve_inventory C H now s r u q ttl st).1 in
        release_inventory C H later t r p reserved ≡ reserved
  unfolding release_inventory try_reserve_inventory
  release_after_expiry now later s t r u q p ttl (c, h) ok late =
      ground (arith, H.get-set_expired h r (new_hold now s u q) (deadline now ttl) later)

  counter-reserve :
      (now s r u q ttl : ℕ) (v : ℤ) (st : Stock C H)
      → C.get st.0 s ≡ some v
      → (try_reserve_inventory C H now s r u q ttl st).0 ≡ true
      → C.get (try_reserve_inventory C H now s r u q ttl st).1.0 s ≡ some (v -ℤ pos q)
  unfolding try_reserve_inventory
  counter-reserve now s r u q ttl v (c, h) e ok =
      ground (arith, e, ok, C.get-set_self c s (v -ℤ pos q))

  -- A reservation that succeeds can be undone exactly until its time to live runs out: released
  -- before then, the counter is what it was and the hold is gone; after it a release, of any sale and
  -- quantity, gives nothing back, and the units stay off the counter.
  pub hold_lifetime :
      (now soon late s t r u q p ttl : ℕ) (v : ℤ) (st : Stock C H)
      → C.get st.0 s ≡ some v
      → (try_reserve_inventory C H now s r u q ttl st).0 ≡ true
      → soon < deadline now ttl
      → deadline now ttl < late
      → let reserved = (try_reserve_inventory C H now s r u q ttl st).1 in
        let released = release_inventory C H soon s r q reserved in
        (C.get released.0 s ≡ some v)
        × (H.get released.1 soon r ≡ none)
        × (release_inventory C H late t r p reserved ≡ reserved)
        × (C.get reserved.0 s ≡ some (v -ℤ pos q))
  hold_lifetime now soon late s t r u q p ttl v st e ok live past =
      let (counter, gone) = release-reserve now soon s r u q ttl v st e ok live in
      (
        counter,
        gone,
        release_after_expiry now late s t r u q p ttl st ok past,
        counter-reserve now s r u q ttl v st e ok,
      )

  try_increase_reservation_lem :
      (now later s r q : ℕ) (v : ℤ) (d : Hold) (st : Stock C H)
      → C.get st.0 s ≡ some v
      → H.get st.1 now r ≡ some d
      → later < deadline now (H.ttl st.1 now r)
      → (try_increase_reservation C H now s r q st).0 ≡ answer true
      → let st' = (try_increase_reservation C H now s r q st).1 in
        (C.get st'.0 s ≡ some (v -ℤ pos q))
        × (H.get st'.1 later r ≡ some (record d { quantity = d.quantity +ℤ pos q }))
  unfolding try_increase_reservation
  try_increase_reservation_lem now later s r q v d (c, h) e p live ok = ground (
    arith,
    C.get-set_self c s (v -ℤ pos q),
    H.get-set_live h r (record d { quantity = d.quantity +ℤ pos q }) (deadline now (H.ttl h now r))
        later,
  )

  release_partial_inventory_lem :
      (now later s r q : ℕ) (v : ℤ) (d : Hold) (st : Stock C H)
      → C.get st.0 s ≡ some v
      → H.get st.1 now r ≡ some d
      → later < deadline now (H.ttl st.1 now r)
      → (release_partial_inventory C H now s r q st).0 ≡ answer true
      → let st' = (release_partial_inventory C H now s r q st).1 in
        (C.get st'.0 s ≡ some (v +ℤ pos q))
        × (H.get st'.1 later r ≡ some (record d { quantity = d.quantity -ℤ pos q }))
  unfolding release_partial_inventory
  release_partial_inventory_lem now later s r q v d (c, h) e p live ok = ground (
    arith,
    C.get-set_self c s (v +ℤ pos q),
    H.get-set_live h r (record d { quantity = d.quantity -ℤ pos q }) (deadline now (H.ttl h now r))
        later,
  )

  -- Raising the quantity of a reservation and lowering it again by as much, each while the hold is
  -- alive and answered with success, restores the counter and the quantity held.
  pub decrease-increase :
      (t₁ t₂ t₃ s r q : ℕ) (v : ℤ) (d : Hold) (st : Stock C H)
      → C.get st.0 s ≡ some v
      → H.get st.1 t₁ r ≡ some d
      → t₂ < deadline t₁ (H.ttl st.1 t₁ r)
      → (try_increase_reservation C H t₁ s r q st).0 ≡ answer true
      → let up = (try_increase_reservation C H t₁ s r q st).1 in
        t₃ < deadline t₂ (H.ttl up.1 t₂ r)
        → (release_partial_inventory C H t₂ s r q up).0 ≡ answer true
        → let down = (release_partial_inventory C H t₂ s r q up).1 in
          (C.get down.0 s ≡ some v) × (H.get down.1 t₃ r ≡ some d)
  decrease-increase t₁ t₂ t₃ s r q v d st e p live ok live' ok' =
      let (e', p') = try_increase_reservation_lem t₁ t₂ s r q v d st e p live ok in
      let (e'', p'') =
        release_partial_inventory_lem t₂ t₃ s r q (v -ℤ pos q)
          (record d { quantity = d.quantity +ℤ pos q }) (try_increase_reservation C H t₁ s r q st).1
          e' p' live' ok' in
      (rw e'' (rw sub-add), rw p'' (rw add-sub))

  -- What the scripts that change a hold do to the counter.
  pub try_increase_reservation-counter :
      (now s r q : ℕ) (st : Stock C H)
      → (try_increase_reservation C H now s r q st).0 ≡ answer true
      → or_zero (C.get (try_increase_reservation C H now s r q st).1.0 s) +ℤ pos q
        ≡ or_zero (C.get st.0 s)
  unfolding try_increase_reservation
  try_increase_reservation-counter now s r q (c, h) e = elim (Option-cases (C.get c s)) [
    | inl missing ↦ absurd (ground (arith, missing))
    | inr (v, there) ↦ ground (arith, there, C.get-set_self c s (v -ℤ pos q), sub-add v (pos q))
  ]

  pub try_increase_reservation-refused :
      (now s r q : ℕ) (st : Stock C H)
      → (try_increase_reservation C H now s r q st).0 ≡ answer false
      → (try_increase_reservation C H now s r q st).1 ≡ st
  unfolding try_increase_reservation rewrite_hold
  try_increase_reservation-refused now s r q (c, h) e = ground arith

  pub release_partial_inventory-counter :
      (now s r q : ℕ) (st : Stock C H)
      → or_zero (C.get (release_partial_inventory C H now s r q st).1.0 s)
        ≡ or_zero (C.get st.0 s) +ℤ pos q
  unfolding release_partial_inventory
  release_partial_inventory-counter now s r q (c, h) =
      ground (arith, C.get-set_self c s (or_zero (C.get c s) +ℤ pos q))

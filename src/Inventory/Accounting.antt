-- ===== src/Inventory/Accounting.antt =====
-- The counter of a sale against the units that were taken from it and given back.
use flux_kart.Prelude.{
  ℕ, ◌+◌, ◌-◌, ◌≤◌, ◌≡◌, Bool, true, false, Option, none, some, List, [], ◌∷◌, arith, ◌==◌,
  if◌then◌else◌, ◌&&◌, not,
}
use flux_kart.Prelude.Int.{ℤ, pos, ◌+ℤ◌, ◌-ℤ◌, ltb_ℤ}
use flux_kart.Redis.{KeyStore, ExpiringStore}
use flux_kart.Inventory.{
  Hold, Stock, or_zero, try_reserve_inventory, release_inventory, confirm_reservation,
  try_increase_reservation, release_partial_inventory,
}

-- One call of the service, at a time of its own.
pub data Call : Type 0 where
  reserve : (now sale_id reservation_id user_id quantity ttl_seconds : ℕ) → Call
  release : (now sale_id reservation_id quantity : ℕ) → Call
  confirm : (reservation_id : ℕ) → Call
  increase : (now sale_id reservation_id extra : ℕ) → Call
  decrease : (now sale_id reservation_id released : ℕ) → Call

module _ (C : KeyStore ℕ ℤ) (H : ExpiringStore ℕ Hold) where
  pub step : Call → Stock C H → Stock C H
  step (reserve now s r u q ttl) st = (try_reserve_inventory C H now s r u q ttl st).1
  step (release now s r q) st = release_inventory C H now s r q st
  step (confirm r) st = confirm_reservation C H r st
  step (increase now s r q) st = (try_increase_reservation C H now s r q st).1
  step (decrease now s r q) st = (release_partial_inventory C H now s r q st).1

  pub run : List Call → Stock C H → Stock C H
  run [] st = st
  run (x ∷ xs) st = run xs (step x st)

  abbrev covers : Option ℤ → ℕ → Bool
  covers none q = false
  covers (some v) q = not (ltb_ℤ v (pos q))

  abbrev present : Option Hold → Bool
  present none = false
  present (some _) = true

  -- The units of sale `s` that a call takes, and those that it gives back.
  pub taken : ℕ → Call → Stock C H → ℕ
  taken s (reserve now t r u q ttl) st = if t == s && covers (C.get st.0 s) q then q else 0
  taken s (increase now t r q) st = if t == s && covers (C.get st.0 s) q then q else 0
  taken s _ st = 0

  pub returned : ℕ → Call → Stock C H → ℕ
  returned s (release now t r q) st = if t == s && present (H.get st.1 now r) then q else 0
  returned s (decrease now t r q) st = if t == s then q else 0
  returned s _ st = 0

  pub total_taken : ℕ → List Call → Stock C H → ℕ
  total_taken s [] st = 0
  total_taken s (x ∷ xs) st = taken s x st + total_taken s xs (step x st)

  pub total_returned : ℕ → List Call → Stock C H → ℕ
  total_returned s [] st = 0
  total_returned s (x ∷ xs) st = returned s x st + total_returned s xs (step x st)

  -- A write to the counter of another sale is not seen.
  counter-set :
      (c : C.Db) (t s : ℕ) (v : ℤ) → C.get (C.set c t v) s ≡ (if t == s then some v else C.get c s)
  counter-set c t s v = ground (arith, C.get-set_self c t v, C.get-set_ne c t s v)

  IsCounted : ℕ → ℕ → ℕ → ℕ → C.Db → Type 0
  IsCounted s n back gone c = (C.get c s ≡ some (pos (n + back - gone))) × (gone ≤ n + back)

  step-IsCounted :
      (s n : ℕ) (x : Call) (st : Stock C H)
      → C.get st.0 s ≡ some (pos n)
      → IsCounted s n (returned s x st) (taken s x st) (step x st).0
  unfolding IsCounted step taken returned try_reserve_inventory release_inventory
      confirm_reservation try_increase_reservation release_partial_inventory ◌+ℤ◌ ◌-ℤ◌
  step-IsCounted s n (reserve now t r u q ttl) (c, h) e =
      ground (arith, counter-set c t s (or_zero (C.get c t) -ℤ pos q))
  step-IsCounted s n (release now t r q) (c, h) e =
      ground (arith, counter-set c t s (or_zero (C.get c t) +ℤ pos q))
  step-IsCounted s n (confirm r) (c, h) e = ground arith
  step-IsCounted s n (increase now t r q) (c, h) e =
      ground (arith, counter-set c t s (or_zero (C.get c t) -ℤ pos q))
  step-IsCounted s n (decrease now t r q) (c, h) e =
      ground (arith, counter-set c t s (or_zero (C.get c t) +ℤ pos q))

  -- From a counter of `n` units, after any calls in any order at any times, the counter is exactly
  -- `n` plus the units given back minus the units taken, and no more units were taken than `n` plus
  -- those given back: the sale is never oversold and the counter never falls below 0.
  pub never_oversold :
      (s n : ℕ) (calls : List Call) (st : Stock C H)
      → C.get st.0 s ≡ some (pos n)
      → (C.get (run calls st).0 s
          ≡ some (pos (n + total_returned s calls st - total_taken s calls st)))
        × (total_taken s calls st ≤ n + total_returned s calls st)
  unfolding run total_taken total_returned IsCounted
  never_oversold s n [] st e = ground arith
  never_oversold s n (x ∷ xs) st e =
      let (counter, bound) = step-IsCounted s n x st e in
      ground (arith, never_oversold s (n + returned s x st - taken s x st) xs (step x st) counter)

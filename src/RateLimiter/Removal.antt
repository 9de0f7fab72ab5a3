-- ===== src/RateLimiter/Removal.antt =====
-- What the script leaves of the set: the members that are younger than the window.
use flux_kart.Prelude.{
  ℕ, ◌+◌, ◌-◌, ◌≤◌, ◌<◌, ◌≡◌, ◌≢◌, refl, ap, ◌∙◌, sym, Bool, true, false, arith, ltb, leb, ◌==◌,
  ◌&&◌, not, length, count_where, length-select, count_where-le, count_where-select,
  count_where-select-le, count_where-all, Bool-cases, inl, inr,
}
use flux_kart.Redis.{ScoredSets}
use flux_kart.RateLimiter.{remove_old}

module _ (Z : ScoredSets ℕ ℕ) (key window : ℕ) where
  abbrev pub named : ℕ → ℕ × ℕ → Bool
  named id m = m.0 == id

  unfoldable pub live : ℕ → ℕ → Bool
  live t a = ltb t (a + window)

  unfoldable pub live_member : ℕ → ℕ × ℕ → Bool
  unfolding live
  live_member t m = live t m.1

  unfoldable pub outside : ℕ → ℕ × ℕ → Bool
  outside now m = not (leb 0 m.1 && leb m.1 (now - window))

  live-outside :
      (now t : ℕ) (m : ℕ × ℕ)
      → now ≤ t
      → live_member t m ≡ true
      → window ≤ now
      → outside now m ≡ true
  unfolding live_member outside
  live-outside now t m h l w = ground arith

  outside-live :
      (now : ℕ) (m : ℕ × ℕ) → window ≤ now → outside now m ≡ true → live_member now m ≡ true
  unfolding live_member outside
  outside-live now m w o = ground arith

  early-live : (now : ℕ) (m : ℕ × ℕ) → now < window → live_member now m ≡ true
  unfolding live_member
  early-live now m w = ground arith

  pub removed-live :
      (now u t : ℕ) (db : Z.Db)
      → now ≤ u
      → u ≤ t
      → count_where (live_member t) (Z.zrange (remove_old Z key now window db) u key)
        ≡ count_where (live_member t) (Z.zrange db u key)
  unfolding remove_old outside
  removed-live now u t db h k = elim (Bool-cases (ltb now window)) [
    | inl early ↦ rw early refl
    | inr late ↦
        rw (late, Z.zrange-zremrangebyscore db now u key 0 (now - window) h)
          (count_where-select (live_member t) (outside now) (Z.zrange db u key)
            (λ m l. live-outside now t m (omega (arith, h, k)) l (ground arith)))
  ]

  pub removed-zcard :
      (now : ℕ) (db : Z.Db)
      → Z.zcard (remove_old Z key now window db) now key
        ≡ count_where (live_member now) (Z.zrange db now key)
  unfolding remove_old outside
  removed-zcard now db = elim (Bool-cases (ltb now window)) [
    | inl early ↦ rw early (
        Z.zcard-zrange db now key
        ∙ sym (
            count_where-all (live_member now) (Z.zrange db now key)
              (λ m. early-live now m (ground arith))))
    | inr late ↦ rw late (
        Z.zcard-zrange (Z.zremrangebyscore db now key 0 (now - window)) now key
        ∙ ap length (Z.zrange-zremrangebyscore db now now key 0 (now - window) (omega arith))
        ∙ length-select (outside now) (Z.zrange db now key)
        ∙ omega (
          arith,
          count_where-le (outside now) (live_member now) (Z.zrange db now key)
              (λ m o. outside-live now m (ground arith) o),
          count_where-le (live_member now) (outside now) (Z.zrange db now key)
              (λ m l. live-outside now now m (omega arith) l (ground arith)),
        ))
  ]

  pub removed-absent :
      (now id : ℕ) (db : Z.Db)
      → count_where (named id) (Z.zrange db now key) ≡ 0
      → count_where (named id) (Z.zrange (remove_old Z key now window db) now key) ≡ 0
  unfolding remove_old outside
  removed-absent now id db h = elim (Bool-cases (ltb now window)) [
    | inl early ↦ rw early h
    | inr late ↦
        rw (late, Z.zrange-zremrangebyscore db now now key 0 (now - window) (omega arith))
          (omega (arith, h, count_where-select-le (named id) (outside now) (Z.zrange db now key)))
  ]

  pub named-ne : (id n t : ℕ) → named id (n, t) ≡ false → n ≢ id
  named-ne id n t h = ground arith

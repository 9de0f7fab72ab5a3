-- ===== src/Heartbeat/Ghosts.antt =====
-- The queues after a scan against those before it.
use flux_kart.Prelude.{
  ℕ, ◌+◌, ◌<◌, ◌≡◌, ◌≢◌, refl, ap, ◌∙◌, sym, Bool, true, false, List, [], ◌∷◌, arith, ◌==◌, ◌||◌,
  not, if◌then◌else◌, select, count_where, select-select, select-same, Bool-cases, inl, inr,
}
use flux_kart.Redis.{ExpiringStore, SortedSets}
use flux_kart.Heartbeat.{is_alive, remove_ghosts, scan_queues, remove_ghost_users}

seen : List ℕ → ℕ → Bool
seen [] n = false
seen (m ∷ ms) n = n == m || seen ms n

select-true : (p : ℕ → Bool) (xs : List ℕ) → ((n : ℕ) → p n ≡ true) → select p xs ≡ xs
select-true p [] h = refl
select-true p (x ∷ xs) h = ground (arith, h x, select-true p xs h)

-- A test that only leaves out members of a list is, on that list, the one that leaves them out.
seen-all :
    (alive : ℕ → Bool) (ms xs : List ℕ)
    → ((n : ℕ) → 0 < count_where (λ x. x == n) xs → seen ms n ≡ true)
    → select (λ n. alive n || not (seen ms n)) xs ≡ select alive xs
unfolding seen
seen-all alive ms [] h = refl
seen-all alive ms (x ∷ xs) h =
    let here : seen ms x ≡ true = h x (ground arith) in
    let later = seen-all alive ms xs (λ n c. h n (ground arith)) in ground (arith, here, later)

seen_self : (xs : List ℕ) (n : ℕ) → 0 < count_where (λ x. x == n) xs → seen xs n ≡ true
unfolding seen
seen_self [] n h = ground arith
seen_self (x ∷ xs) n h = ground (arith, seen_self xs n)

module _ (Q : SortedSets ℕ ℕ) (B : ExpiringStore (ℕ × ℕ) ℕ) (now : ℕ) (beats : B.Db) where
  abbrev alive : ℕ → ℕ → Bool
  alive s = is_alive Q B now s beats

  ghosts-select :
      (s : ℕ) (ms : List ℕ) (removed : ℕ) (w : Q.Db)
      → Q.zrange (remove_ghosts Q B now s beats ms removed w).1 s
        ≡ select (λ n. alive s n || not (seen ms n)) (Q.zrange w s)
  unfolding remove_ghosts seen
  ghosts-select s [] removed w =
      sym (select-true (λ n. alive s n || not (seen [] n)) (Q.zrange w s) (λ n. ground arith))
  ghosts-select s (m ∷ ms) removed w = elim (Bool-cases (is_alive Q B now s beats m)) [
    | inl lives ↦ rw lives (
        ghosts-select s ms removed w
        ∙ select-same (λ n. alive s n || not (seen ms n)) (λ n. alive s n || not (seen (m ∷ ms) n))
            (Q.zrange w s) (λ n. ground (arith, lives)))
    | inr dead ↦ rw dead (
        ghosts-select s ms (removed + 1) (Q.zrem w s m)
        ∙ ap (select (λ n. alive s n || not (seen ms n)))
            (Q.zrange-zrem w s m (λ n. n == m) (λ n e. ground arith) (ground arith))
        ∙ select-select (λ n. alive s n || not (seen ms n)) (λ n. not (n == m))
            (λ n. alive s n || not (seen (m ∷ ms) n)) (Q.zrange w s) (λ n. ground (arith, dead)))
  ]

  ghosts-other :
      (s j : ℕ) (ms : List ℕ) (removed : ℕ) (w : Q.Db)
      → s ≢ j
      → Q.zrange (remove_ghosts Q B now s beats ms removed w).1 j ≡ Q.zrange w j
  unfolding remove_ghosts
  ghosts-other s j [] removed w h = refl
  ghosts-other s j (m ∷ ms) removed w h = ground (
    arith,
    ghosts-other s j ms removed w h,
    ghosts-other s j ms (removed + 1) (Q.zrem w s m) h,
    Q.zrange-zrem_ne w s j m h,
  )

  -- The scan of one queue leaves those who are alive.
  ghosts-alive :
      (s removed : ℕ) (w : Q.Db)
      → Q.zrange (remove_ghosts Q B now s beats (Q.zrange w s) removed w).1 s
        ≡ select (alive s) (Q.zrange w s)
  ghosts-alive s removed w =
      ghosts-select s (Q.zrange w s) removed w
      ∙ seen-all (alive s) (Q.zrange w s) (Q.zrange w s) (seen_self (Q.zrange w s))

  remove_ghosts-at :
      (s j removed : ℕ) (w : Q.Db)
      → Q.zrange (remove_ghosts Q B now j beats (Q.zrange w j) removed w).1 s
        ≡ (if s == j then select (alive s) (Q.zrange w s) else Q.zrange w s)
  remove_ghosts-at s j removed w = elim (Bool-cases (s == j)) [
    | inl same ↦ let e : s ≡ j = ground arith in rw (same, e) (ghosts-alive j removed w)
    | inr other ↦
        let apart : j ≢ s = λ e. ground arith in
        rw other (ghosts-other j s (Q.zrange w j) removed w apart)
  ]

  scan_queues-select :
      (s : ℕ) (sales : List ℕ) (removed : ℕ) (w : Q.Db)
      → Q.zrange (scan_queues Q B now beats sales removed w).1 s
        ≡ (if seen sales s then select (alive s) (Q.zrange w s) else Q.zrange w s)
  unfolding scan_queues seen
  scan_queues-select s [] removed w = refl
  scan_queues-select s (j ∷ sales) removed w =
      let scan = remove_ghosts Q B now j beats (Q.zrange w j) removed w in
      ground (
        arith,
        scan_queues-select s sales scan.0 scan.1,
        remove_ghosts-at s j removed w,
        select-select (alive s) (alive s) (alive s) (Q.zrange w s) (λ n. ground arith),
      )

  not-seen : (s : ℕ) (sales : List ℕ) → seen sales s ≡ false → count_where (λ j. j == s) sales ≡ 0
  unfolding seen
  not-seen s [] h = refl
  not-seen s (j ∷ sales) h = ground (arith, not-seen s sales)

  -- A scan that reaches Redis leaves in every queue the users whose heartbeat key lives, in the
  -- order they had.
  pub remove_ghost_users-select :
      (s : ℕ) (w : Q.Db)
      → Q.zrange (remove_ghost_users Q B true now beats w).1 s
        ≡ select (is_alive Q B now s beats) (Q.zrange w s)
  unfolding remove_ghost_users
  remove_ghost_users-select s w = elim (Bool-cases (seen (Q.keys w) s)) [
    | inl there ↦ scan_queues-select s (Q.keys w) 0 w ∙ rw there refl
    | inr absent ↦
        let empty = Q.zrange-keys w s (λ j. j == s) (ground arith) (not-seen s (Q.keys w) absent) in
        scan_queues-select s (Q.keys w) 0 w ∙ rw absent (empty ∙ ap (select (alive s)) (sym empty))
  ]

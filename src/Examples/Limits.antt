-- ===== src/Examples/Limits.antt =====
-- Sorted sets that expire, and requests at the limit of a window.
use flux_kart.Prelude.{
  ℕ, ◌+◌, ◌≤◌, ◌<◌, ◌≡◌, refl, ap, ◌∙◌, Bool, false, Option, none, some, List, [], ◌∷◌, ◌++◌, arith,
  ◌==◌, ltb, leb, not, ◌&&◌, if◌then◌else◌, length, select, count_where, count_where-append,
  Bool-cases, inl, inr,
}
use flux_kart.Redis.{ScoredSets}
use flux_kart.RateLimiter.{lua_script, remove_old}
use flux_kart.RateLimiter.Window.{Arrival, answer, let_through, in_window, window_bound}

-- The members with their scores, and the last time at which they are there.
abbrev pub Cell : Type 0
Cell = List (ℕ × ℕ) × Option ℕ

abbrev pub gone : ℕ → Option ℕ → Bool
gone now none = false
gone now (some last) = ltb last now

abbrev pub contents : ℕ → Cell → List (ℕ × ℕ)
contents now (xs, o) = if gone now o then [] else xs

abbrev pub filtered : ℕ → ℕ → Cell → Cell
filtered lo hi (xs, o) = (select (λ m. not (leb lo m.1 && leb m.1 hi)) xs, o)

abbrev pub added : ℕ → ℕ → ℕ → Cell → Cell
added now m s (xs, o) = if gone now o then ((m, s) ∷ [], none) else (xs ++ (m, s) ∷ [], o)

abbrev pub timed : ℕ → ℕ → Cell → Cell
timed now w (xs, o) = if gone now o then (xs, o) else (xs, some (now + w))

abbrev pub at : (ℕ → Cell) → ℕ → (Cell → Cell) → ℕ → Cell
at db k f j = if k == j then f (db j) else db j

pub at_self : (db : ℕ → Cell) (k : ℕ) (f : Cell → Cell) → at db k f k ≡ f (db k)
at_self db k f = ground arith

pub contents-filtered :
    (later lo hi : ℕ) (x : Cell)
    → contents later (filtered lo hi x)
      ≡ select (λ m. not (leb lo m.1 && leb m.1 hi)) (contents later x)
contents-filtered later lo hi (xs, o) = elim (Bool-cases (gone later o)) [
  | inl past ↦ rw past refl
  | inr there ↦ rw there refl
]

pub contents-added :
    (now m s : ℕ) (p : ℕ × ℕ → Bool) (x : Cell)
    → count_where p (contents now (added now m s x))
      ≡ count_where p (contents now x) + (if p (m, s) then 1 else 0)
contents-added now m s p (xs, o) = elim (Bool-cases (gone now o)) [
  | inl past ↦ rw past (ground arith)
  | inr there ↦ ground (arith, there, count_where-append p xs ((m, s) ∷ []))
]

pub contents-timed :
    (now later w : ℕ) (x : Cell)
    → now ≤ later
    → later ≤ now + w
    → contents later (timed now w x) ≡ contents now x
contents-timed now later w (xs, none) h l = ground arith
contents-timed now later w (xs, some last) h l = ground arith

pub contents-timed_out :
    (now later w : ℕ) (x : Cell) → now + w < later → contents later (timed now w x) ≡ []
contents-timed_out now later w (xs, none) h = ground arith
contents-timed_out now later w (xs, some last) h = ground arith

abbrev pub scored_sets : ScoredSets ℕ ℕ
scored_sets = record {
  Db = ℕ → Cell;
  zrange = λ db now k. contents now (db k);
  zcard = λ db now k. length (contents now (db k));
  zremrangebyscore = λ db now k lo hi. at db k (filtered lo hi);
  zadd = λ db now k m s. at db k (added now m s);
  pexpire = λ db now k w. at db k (timed now w);
  zcard-zrange = λ db now k. refl;
  zrange-zremrangebyscore = λ db now later k lo hi h.
      ap (contents later) (at_self db k (filtered lo hi)) ∙ contents-filtered later lo hi (db k);
  zrange-zadd = λ db now k m s same p h e.
      ap (λ x. count_where p (contents now x)) (at_self db k (added now m s))
      ∙ contents-added now m s p (db k);
  zrange-pexpire = λ db now later k w h l.
      ap (contents later) (at_self db k (timed now w)) ∙ contents-timed now later w (db k) h l;
  zrange-pexpire_gone = λ db now later k w h.
      ap (contents later) (at_self db k (timed now w)) ∙ contents-timed_out now later w (db k) h;
}

abbrev arrivals : List Arrival
arrivals =
    record { time = 10; id = 1 } ∷ record { time = 20; id = 2 } ∷ record { time = 30; id = 3 } ∷ []

-- The third request within a second is not let through, so two are counted.
window_bound_example :
    count_where
      (in_window scored_sets 5 1000 2 40)
      (let_through scored_sets 5 1000 2 arrivals (λ _. ([], none)) [])
    ≤ 2
unfolding answer lua_script remove_old
window_bound_example =
    window_bound scored_sets 5 1000 2 arrivals (λ _. ([], none)) 40 (λ u. refl)
      (omega arith, refl, (omega arith, refl, (omega arith, refl, tt)))

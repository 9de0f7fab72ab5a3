-- ===== src/Examples/Queues.antt =====
-- A sorted set kept as the list of its members by score, and the waiting queue on it.
use flux_kart.Prelude.{
  ℕ, zero, suc, ◌<◌, ◌≤◌, ◌≡◌, ◌≢◌, refl, ap, ◌∙◌, true, false, Option, none, some, List, [], ◌∷◌,
  arith, ◌==◌, ltb, ◌||◌, not, Bool, select, count_where, length, take, drop, if◌then◌else◌,
  Bool-cases, Option-cases, inl, inr,
}
use mathlib.Core.Path.{fun_ext}
use flux_kart.Redis.{SortedSets, ExpiringStore}
use flux_kart.QueueService.{
  enqueue, get_position, get_queue_depth, is_admitted, consume_admission, admit_user,
  enqueue_to_consume,
}
use flux_kart.Examples.Stores.{pair_store}

-- The keys, and the contents of those that are listed.
abbrev pub Sets : Type 0
Sets = List ℕ × (ℕ → List (ℕ × ℕ))

abbrev pub has : List ℕ → ℕ → Bool
has [] k = false
has (j ∷ ks) k = j == k || has ks k

abbrev pub lookup : Sets → ℕ → List (ℕ × ℕ)
lookup (ks, f) k = if has ks k then f k else []

abbrev pub put : (ℕ → List (ℕ × ℕ)) → ℕ → List (ℕ × ℕ) → ℕ → List (ℕ × ℕ)
put f k xs j = if k == j then xs else f j

abbrev pub update : Sets → ℕ → List (ℕ × ℕ) → Sets
update (ks, f) k xs = (if has ks k then ks else k ∷ ks, put f k xs)

abbrev admitted : ExpiringStore (ℕ × ℕ) ℕ
admitted = pair_store ℕ

-- Users 7 and 8 wait for sale 1.
abbrev pub crowd : Sets
crowd = (1 ∷ [], λ _. (7, 3) ∷ (8, 5) ∷ [])

abbrev next_rank : Option ℕ → Option ℕ
next_rank none = none
next_rank (some n) = some (suc n)

abbrev rank : ℕ → List (ℕ × ℕ) → Option ℕ
rank m [] = none
rank m ((x, t) ∷ xs) = let rest = rank m xs in if x == m then some 0 else next_rank rest

abbrev insert : ℕ → ℕ → List (ℕ × ℕ) → List (ℕ × ℕ)
insert m t [] = (m, t) ∷ []
insert m t ((x, u) ∷ xs) =
    let rest = insert m t xs in if ltb t u then (m, t) ∷ (x, u) ∷ xs else (x, u) ∷ rest

abbrev remove : ℕ → List (ℕ × ℕ) → List (ℕ × ℕ)
remove m [] = []
remove m ((x, t) ∷ xs) = let rest = remove m xs in if x == m then rest else (x, t) ∷ rest

abbrev insert_new : Option ℕ → ℕ → ℕ → List (ℕ × ℕ) → List (ℕ × ℕ)
insert_new none m t xs = insert m t xs
insert_new (some _) m t xs = xs

pub rank-insert :
    (m t : ℕ) (xs : List (ℕ × ℕ))
    → (n : ℕ) × (rank m (insert m t xs) ≡ some n) × (n < length (insert m t xs))
rank-insert m t [] = (0, ground arith, ground arith)
rank-insert m t ((x, u) ∷ xs) = elim (Bool-cases (ltb t u)) [
  | inl before ↦ (0, ground arith, ground arith)
  | inr after ↦ elim (Bool-cases (x == m)) [
    | inl same ↦ (0, ground arith, ground arith)
    | inr other ↦ let (n, e, low) = rank-insert m t xs in (suc n, ground arith, ground arith)
  ]
]

pub rank-bound : (m n : ℕ) (xs : List (ℕ × ℕ)) → rank m xs ≡ some n → n < length xs
rank-bound m n [] e = absurd (ground arith)
rank-bound m zero ((x, u) ∷ xs) e = omega arith
rank-bound m (suc n) ((x, u) ∷ xs) e = ground (arith, rank-bound m n xs)

pub rank-remove : (m : ℕ) (xs : List (ℕ × ℕ)) → rank m (remove m xs) ≡ none
rank-remove m [] = refl
rank-remove m ((x, u) ∷ xs) = ground (arith, rank-remove m xs)

pub rank-insert_new :
    (m t : ℕ) (xs : List (ℕ × ℕ))
    → (n : ℕ) × (rank m (insert_new (rank m xs) m t xs) ≡ some n)
      × (n < length (insert_new (rank m xs) m t xs))
rank-insert_new m t xs = elim (Option-cases (rank m xs)) [
  | inl missing ↦ rw missing (rank-insert m t xs)
  | inr (n, e) ↦ (n, ground arith, ground (arith, rank-bound m n xs e))
]

pub update_self : (db : Sets) (k : ℕ) (xs : List (ℕ × ℕ)) → lookup (update db k xs) k ≡ xs
update_self (ks, f) k xs = ground arith

pub update_ne :
    (db : Sets) (k j : ℕ) (xs : List (ℕ × ℕ)) → k ≢ j → lookup (update db k xs) j ≡ lookup db j
update_ne (ks, f) k j xs h = ground arith

pub put_same : (f : ℕ → List (ℕ × ℕ)) (k : ℕ) (xs : List (ℕ × ℕ)) → xs ≡ f k → put f k xs ≡ f
put_same f k xs e = fun_ext (λ j. ground arith)

pub update_present :
    (db : Sets) (k m n t : ℕ)
    → rank m (lookup db k) ≡ some n
    → update db k (insert_new (rank m (lookup db k)) m t (lookup db k)) ≡ db
update_present (ks, f) k m n t e = elim (Bool-cases (has ks k)) [
  | inl there ↦
      let e' : rank m (f k) ≡ some n = ground arith in
      rw there (rw e' (ap (λ g. (ks, g)) (put_same f k (f k) refl)))
  | inr absent ↦ absurd (ground arith)
]

abbrev pub members : List (ℕ × ℕ) → List ℕ
members [] = []
members ((m, t) ∷ xs) = m ∷ members xs

pub members-remove :
    (m : ℕ) (same : ℕ → Bool) (xs : List (ℕ × ℕ))
    → ((n : ℕ) → same n ≡ true → n ≡ m)
    → same m ≡ true
    → members (remove m xs) ≡ select (λ n. not (same n)) (members xs)
members-remove m same [] h e = refl
members-remove m same ((x, t) ∷ xs) h e = elim (Bool-cases (same x)) [
  | inl gone ↦
      let x_is : x ≡ m = h x gone in ground (arith, gone, x_is, members-remove m same xs h e)
  | inr stays ↦ elim (Bool-cases (x == m)) [
    | inl hit ↦ let x_is : x ≡ m = ground arith in absurd (ground (arith, stays, e, ap same x_is))
    | inr other ↦ ground (arith, stays, other, members-remove m same xs h e)
  ]
]

pub has-count :
    (ks : List ℕ) (k : ℕ) (same : ℕ → Bool)
    → same k ≡ true
    → count_where same ks ≡ 0
    → has ks k ≡ false
has-count [] k same e h = refl
has-count (j ∷ ks) k same e h = elim (Bool-cases (j == k)) [
  | inl hit ↦ let j_is : j ≡ k = ground arith in absurd (ground (arith, e, ap same j_is))
  | inr other ↦ ground (arith, other, has-count ks k same e)
]

pub lookup-absent :
    (db : Sets) (k : ℕ) (same : ℕ → Bool)
    → same k ≡ true
    → count_where same db.0 ≡ 0
    → lookup db k ≡ []
lookup-absent (ks, f) k same e h = rw (has-count ks k same e h) refl

abbrev pub sorted_sets : SortedSets ℕ ℕ
sorted_sets = record {
  Db = Sets;
  zcard = λ db k. length (lookup db k);
  zrank = λ db k m. rank m (lookup db k);
  zadd_nx = λ db k m t. update db k (insert_new (rank m (lookup db k)) m t (lookup db k));
  zrem = λ db k m. update db k (remove m (lookup db k));
  zpopmin = λ db k n. (members (take n (lookup db k)), update db k (drop n (lookup db k)));
  del = λ db k. update db k [];
  zrange = λ db k. members (lookup db k);
  keys = λ db. db.0;
  zadd_nx-present = λ db k m n t e. update_present db k m n t e;
  zrank-zadd_nx = λ db k m t.
      rw (update_self db k (insert_new (rank m (lookup db k)) m t (lookup db k)))
        (rank-insert_new m t (lookup db k));
  zrank-zrem =
      λ db k m. rw (update_self db k (remove m (lookup db k))) (rank-remove m (lookup db k));
  zrange-zrem = λ db k m same h e.
      ap members (update_self db k (remove m (lookup db k)))
      ∙ members-remove m same (lookup db k) h e;
  zrange-zrem_ne = λ db k j m h. ap members (update_ne db k j (remove m (lookup db k)) h);
  zcard-del = λ db k. ap length (update_self db k []);
  zrange-keys = λ db k same e h. ap members (lookup-absent db k same e h);
}

enqueue_to_consume_example :
    let (position, queued) = enqueue sorted_sets admitted 10 1 4 crowd in
    let (left, tokens) = admit_user sorted_sets admitted 30 1 4 (queued, λ _. none) in
    (get_position sorted_sets admitted 1 4 queued ≡ some position)
    × (1 ≤ position)
    × (position ≤ get_queue_depth sorted_sets admitted true 1 queued)
    × (enqueue sorted_sets admitted 20 1 4 queued ≡ (position, queued))
    × (get_position sorted_sets admitted 1 4 left ≡ none)
    × (is_admitted sorted_sets admitted true 40 1 4 tokens ≡ true)
    × (is_admitted sorted_sets admitted true 40 1 4
          (consume_admission sorted_sets admitted 1 4 tokens)
        ≡ false)
    × (is_admitted sorted_sets admitted true 30031 1 4 tokens ≡ false)
enqueue_to_consume_example =
    enqueue_to_consume sorted_sets admitted 10 20 30 40 30031 1 4 crowd (λ _. none) (omega arith)
      (omega arith)

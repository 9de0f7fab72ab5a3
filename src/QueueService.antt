-- ===== src/QueueService.antt =====
-- backend/app/services/queue_service.py: the waiting queue of a sale. `up` says whether Redis can be
-- reached; each operation that catches its exception has the answer of the handler.
use flux_kart.Prelude.{
  ℕ, ◌+◌, ◌*◌, ◌<◌, ◌≤◌, ◌≡◌, Bool, true, false, Option, none, some, List, leb, arith, ap,
}
use flux_kart.Redis.{ExpiringStore, SortedSets}

abbrev pub queue_threshold : ℕ
queue_threshold = 10

abbrev position_of : Option ℕ → ℕ
position_of none = 1
position_of (some rank) = rank + 1

-- EXISTS
abbrev pub present {ℓ} : {A : Type ℓ} → Option A → Bool
present none = false
present (some _) = true

module _ (Q : SortedSets ℕ ℕ) (A : ExpiringStore (ℕ × ℕ) ℕ) where
  unfoldable pub get_queue_depth : Bool → ℕ → Q.Db → ℕ
  get_queue_depth true sale_id waiting = Q.zcard waiting sale_id
  get_queue_depth false sale_id waiting = 0

  unfoldable pub is_queue_active : Bool → ℕ → Q.Db → Bool
  is_queue_active up sale_id waiting = leb queue_threshold (get_queue_depth up sale_id waiting)

  -- The caller has reached Redis already; the position counts from 1.
  unfoldable pub enqueue : ℕ → ℕ → ℕ → Q.Db → ℕ × Q.Db
  enqueue now sale_id user_id waiting =
      let waiting' = Q.zadd_nx waiting sale_id user_id now in
      (position_of (Q.zrank waiting' sale_id user_id), waiting')

  unfoldable pub get_position : ℕ → ℕ → Q.Db → Option ℕ
  get_position sale_id user_id waiting = elim (Q.zrank waiting sale_id user_id) [
    | none ↦ none
    | some rank ↦ some (rank + 1)
  ]

  unfoldable pub is_admitted : Bool → ℕ → ℕ → ℕ → A.Db → Bool
  is_admitted true now sale_id user_id admitted = present (A.get admitted now (sale_id, user_id))
  is_admitted false now sale_id user_id admitted = true

  unfoldable pub admit_user : ℕ → ℕ → ℕ → Q.Db × A.Db → Q.Db × A.Db
  admit_user now sale_id user_id (waiting, admitted) =
      (Q.zrem waiting sale_id user_id, A.set admitted (sale_id, user_id) 1 (now + 30 * 1000))

  unfoldable pub consume_admission : ℕ → ℕ → A.Db → A.Db
  consume_admission sale_id user_id admitted = A.del admitted (sale_id, user_id)

  unfoldable pub dequeue_batch : ℕ → ℕ → Q.Db → List ℕ × Q.Db
  dequeue_batch sale_id batch_size waiting = Q.zpopmin waiting sale_id batch_size

  unfoldable pub remove_from_queue : ℕ → ℕ → Q.Db → Q.Db
  remove_from_queue sale_id user_id waiting = Q.zrem waiting sale_id user_id

  enqueue_again :
      (now later s u : ℕ) (waiting : Q.Db)
      → let (position, waiting') = enqueue now s u waiting in
        (get_position s u waiting' ≡ some position)
        × (1 ≤ position)
        × (position ≤ get_queue_depth true s waiting')
        × (enqueue later s u waiting' ≡ (position, waiting'))
  unfolding enqueue get_position get_queue_depth
  enqueue_again now later s u waiting =
      let (n, e, low) = Q.zrank-zadd_nx waiting s u now in
      let same = Q.zadd_nx-present (Q.zadd_nx waiting s u now) s u n later e in
      (ground (arith, e), ground (arith, e), ground (arith, e), ground (arith, e, same))

  admit_then_consume :
      (now later s u : ℕ) (q : Q.Db × A.Db)
      → later < now + 30 * 1000
      → let (waiting, admitted) = admit_user now s u q in
        (get_position s u waiting ≡ none)
        × (is_admitted true later s u admitted ≡ true)
        × (is_admitted true later s u (consume_admission s u admitted) ≡ false)
  unfolding get_position is_admitted admit_user consume_admission
  admit_then_consume now later s u (waiting, admitted) soon = (
    ground (arith, Q.zrank-zrem waiting s u),
    ap present (A.get-set_live admitted (s, u) 1 (now + 30 * 1000) later soon),
    ap present (A.get-del_self (A.set admitted (s, u) 1 (now + 30 * 1000)) later (s, u)),
  )

  admission_ends :
      (now late s u : ℕ) (waiting : Q.Db) (tokens : A.Db)
      → now + 30 * 1000 < late
      → is_admitted true late s u (admit_user now s u (waiting, tokens)).1 ≡ false
  unfolding is_admitted admit_user
  admission_ends now late s u waiting tokens over =
      ap present (A.get-set_expired tokens (s, u) 1 (now + 30 * 1000) late over)

  -- A user who enters the queue stands in it at the position that is answered, which is between 1
  -- and its depth, and entering again moves nobody and answers the same position. Once admitted, the
  -- user leaves the queue, and is admitted at any time before 30 seconds are over, unless the
  -- admission is consumed, and not admitted at any time after.
  pub enqueue_to_consume :
      (now again later check late s u : ℕ) (waiting : Q.Db) (tokens : A.Db)
      → check < later + 30 * 1000
      → later + 30 * 1000 < late
      → let (position, queued) = enqueue now s u waiting in
        let (left, admitted) = admit_user later s u (queued, tokens) in
        (get_position s u queued ≡ some position)
        × (1 ≤ position)
        × (position ≤ get_queue_depth true s queued)
        × (enqueue again s u queued ≡ (position, queued))
        × (get_position s u left ≡ none)
        × (is_admitted true check s u admitted ≡ true)
        × (is_admitted true check s u (consume_admission s u admitted) ≡ false)
        × (is_admitted true late s u admitted ≡ false)
  enqueue_to_consume now again later check late s u waiting tokens soon over =
      let (position, queued) = enqueue now s u waiting in
      let (stands, low, high, same) = enqueue_again now again s u waiting in
      let (gone, there, used) = admit_then_consume later check s u (queued, tokens) soon in
      (stands, low, high, same, gone, there, used, admission_ends later late s u queued tokens over)

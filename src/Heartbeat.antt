-- ===== src/Heartbeat.antt =====
-- backend/app/workers/heartbeat_worker.py: users who stopped to send heartbeats leave the queues. A scan
-- looks at one time; where Redis cannot be reached it removes no one.
pub mod Ghosts
use flux_kart.Prelude.{ℕ, ◌+◌, ◌*◌, Bool, true, false, List, [], ◌∷◌, if◌then◌else◌}
use flux_kart.Redis.{ExpiringStore, SortedSets}
use flux_kart.QueueService.{present}

abbrev pub heartbeat_ttl : ℕ
heartbeat_ttl = 30

module _ (Q : SortedSets ℕ ℕ) (B : ExpiringStore (ℕ × ℕ) ℕ) where
  unfoldable pub refresh_heartbeat : ℕ → ℕ → ℕ → B.Db → B.Db
  refresh_heartbeat now sale_id user_id beats =
      B.set beats (sale_id, user_id) 1 (now + heartbeat_ttl * 1000)

  -- EXISTS queue_hb:{sale_id}:{user_id}
  abbrev pub is_alive : ℕ → ℕ → B.Db → ℕ → Bool
  is_alive now sale_id beats user_id = present (B.get beats now (sale_id, user_id))

  -- The loop over the members of one queue, with the number removed so far.
  unfoldable pub remove_ghosts : ℕ → ℕ → B.Db → List ℕ → ℕ → Q.Db → ℕ × Q.Db
  remove_ghosts now sale_id beats [] removed waiting = (removed, waiting)
  remove_ghosts now sale_id beats (member ∷ members) removed waiting =
      let kept = remove_ghosts now sale_id beats members removed waiting in
      let without =
        remove_ghosts now sale_id beats members (removed + 1) (Q.zrem waiting sale_id member) in
      if is_alive now sale_id beats member then kept else without

  unfoldable pub scan_queues : ℕ → B.Db → List ℕ → ℕ → Q.Db → ℕ × Q.Db
  scan_queues now beats [] removed waiting = (removed, waiting)
  scan_queues now beats (sale_id ∷ sales) removed waiting =
      let (removed', waiting') =
        remove_ghosts now sale_id beats (Q.zrange waiting sale_id) removed waiting in
      scan_queues now beats sales removed' waiting'

  unfoldable pub remove_ghost_users : Bool → ℕ → B.Db → Q.Db → ℕ × Q.Db
  unfolding scan_queues
  remove_ghost_users false now beats waiting = (0, waiting)
  remove_ghost_users true now beats waiting = scan_queues now beats (Q.keys waiting) 0 waiting

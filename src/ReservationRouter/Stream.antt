-- ===== src/ReservationRouter/Stream.antt =====
-- `queue_stream` of backend/app/routers/reservations.py: the events that a client receives, with Redis
-- reachable at each of the moments at which the loop looks at it.
use flux_kart.Prelude.{ℕ, Bool, true, false, Option, none, some, List, [], ◌∷◌, ◌||◌, if◌then◌else◌}
use flux_kart.Prelude.Int.{ℤ, pos, ltb_ℤ}
use flux_kart.Redis.{KeyStore, ExpiringStore, SortedSets}
use flux_kart.Db.Users.{User}
use flux_kart.Accounts.{Security, get_current_user}
use flux_kart.QueueService.{get_queue_depth, get_position, is_admitted}

pub record StreamEvent : Type 0 where
  pub position : Option ℕ
  pub total_in_queue : ℕ
  pub admitted : Bool
  pub inventory : Option ℤ
  pub sold_out : Bool

pub data Stream : Type 0 where
  denied : Stream
  events : List StreamEvent → Stream

-- inventory is not None and inventory <= 0
abbrev pub is_sold_out : Option ℤ → Bool
is_sold_out none = false
is_sold_out (some v) = ltb_ℤ v (pos 1)

module _ (C : KeyStore ℕ ℤ) (Q : SortedSets ℕ ℕ) (A : ExpiringStore (ℕ × ℕ) ℕ) where
  -- What one round of the loop finds: the time and the stores.
  pub record Moment : Type 0 where
    pub now : ℕ
    pub counters : C.Db
    pub waiting : Q.Db
    pub tokens : A.Db

  unfoldable pub stream_event : ℕ → ℕ → Moment → StreamEvent
  stream_event sale_id user_id m = record {
    position = get_position Q A sale_id user_id m.waiting;
    total_in_queue = get_queue_depth Q A true sale_id m.waiting;
    admitted = is_admitted Q A true m.now sale_id user_id m.tokens;
    inventory = C.get m.counters sale_id;
    sold_out = is_sold_out (C.get m.counters sale_id);
  }

  -- The client stays for the moments that are listed.
  unfoldable pub event_generator : ℕ → ℕ → List Moment → List StreamEvent
  event_generator sale_id user_id [] = []
  event_generator sale_id user_id (m ∷ moments) =
      let e = stream_event sale_id user_id m in
      let rest = event_generator sale_id user_id moments in
      if e.admitted || e.sold_out then e ∷ [] else e ∷ rest

  unfoldable pub queue_stream : (S : Security) → ℕ → S.Token → ℕ → List User → List Moment → Stream
  queue_stream S now token sale_id users moments = elim (get_current_user S now token users) [
    | none ↦ denied
    | some u ↦ events (event_generator sale_id u.id moments)
  ]

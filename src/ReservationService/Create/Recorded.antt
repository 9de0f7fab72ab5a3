-- ===== src/ReservationService/Create/Recorded.antt =====
-- What the steps after the checks add to the tables.
use flux_kart.Prelude.{
  ℕ, ◌≡◌, ◌∙◌, sym, refl, Bool, true, false, List, [], ◌∷◌, ◌++◌, arith, ◌+◌, ◌*◌, if◌then◌else◌,
  Bool-cases, inl, inr, count_where, length,
}
use mathlib.Core.List.{append-nil}
use flux_kart.Inventory.{Stock}
use flux_kart.Db.{Reservation, OutboxEvent, Database, Outcome, done, raised}
use flux_kart.Db.Inventory.{update_inventory}
use flux_kart.Db.Reservations.{has_key, IsUnique, insert_reservation, insert_reservation-IsUnique}
use flux_kart.Db.Outbox.{create_outbox_event}
use flux_kart.Degradation.{
  Link, up, unreachable, reply_lost, reserve_with_db_lock, try_reserve_with_fallback,
}
use flux_kart.ReservationService.{
  Services, World, Request, Run, Created, reserved, value_error, runtime_error, Score, reaches,
  failed_duplicate, no_inventory, pass_queue,
}
use flux_kart.ReservationService.Create.{
  Persisted, stored, duplicate_key, failed, event_of, persist, compensate, finish, after_persist,
  after_reserve, reserve_and_persist,
}

-- The rows that a call with this answer adds.
abbrev pub new_rows : Created → List Reservation
new_rows (reserved r) = r ∷ []
new_rows _ = []

abbrev pub new_events : ℕ → ℕ → Created → List OutboxEvent
new_events event_id unit_price (reserved r) =
    record {
      id = event_id;
      aggregate_id = r.id;
      payload = event_of r unit_price;
      published = false;
      retry_count = 0;
    }
    ∷ []
new_events event_id unit_price _ = []

-- What the tables keep and gain.
pub record Recorded (key event_id unit_price : ℕ) (answer : Created) (db db' : Database)
    : Type 0 where
  pub rows : db'.reservations ≡ db.reservations ++ new_rows answer
  pub events : db'.outbox_events ≡ db.outbox_events ++ new_events event_id unit_price answer
  pub keyed : count_where (has_key key) (new_rows answer) ≡ length (new_rows answer)
  pub unique : IsUnique db.reservations → IsUnique db'.reservations

-- A table with the same reservations and events.
pub record SameRows (db db' : Database) : Type 0 where
  pub reservations : db'.reservations ≡ db.reservations
  pub events : db'.outbox_events ≡ db.outbox_events

pub nothing_new :
    (k e p : ℕ) (answer : Created) (db db' : Database)
    → new_rows answer ≡ []
    → new_events e p answer ≡ []
    → SameRows db db'
    → Recorded k e p answer db db'
nothing_new k e p answer db db' rows events same = record {
  rows = rw rows (same.reservations ∙ sym (append-nil db.reservations));
  events = rw events (same.events ∙ sym (append-nil db.outbox_events));
  keyed = rw rows refl;
  unique = λ u. rw same.reservations u;
}

reserve_with_db_lock-SameRows :
    (s q : ℕ) (ok : Bool) (db db' : Database)
    → reserve_with_db_lock s q db ≡ done (ok, db')
    → SameRows db db'
unfolding reserve_with_db_lock update_inventory
reserve_with_db_lock-SameRows s q ok db db' e = record {
  reservations = ground arith;
  events = ground arith;
}

module _ (S : Services) where
  fallback-SameRows :
      (l : Link) (now s h u q ttl : ℕ) (ok : Bool) (w : World S) (db' : Database)
      → (try_reserve_with_fallback S.counters S.holds l now s h u q ttl w.stock w.db).0
        ≡ done (ok, db')
      → SameRows w.db db'
  unfolding try_reserve_with_fallback
  fallback-SameRows up now s h u q ttl ok w db' e = record {
    reservations = ground arith;
    events = ground arith;
  }
  fallback-SameRows unreachable now s h u q ttl ok w db' e =
      reserve_with_db_lock-SameRows s q ok w.db db' e
  fallback-SameRows reply_lost now s h u q ttl ok w db' e =
      reserve_with_db_lock-SameRows s q ok w.db db' e

  persist-inserts :
      (run : Run) (q : Request) (ttl p : ℕ) (r : Reservation) (db db' : Database)
      → persist run q ttl p db ≡ stored r db'
      → (db₁ : Database) × (insert_reservation run.row_id q.user_id q.sale_id q.quantity
            q.idempotency_key
            (run.now + ttl * 1000)
            db
          ≡ done (r, db₁))
        × (db' ≡ create_outbox_event run.event_id r.id (event_of r p) db₁)
  unfolding persist
  persist-inserts run q ttl p r db db' = through (
      insert_reservation run.row_id q.user_id q.sale_id q.quantity q.idempotency_key
        (run.now + ttl * 1000) db)
    where
      through :
          (o : Outcome (Reservation × Database))
          → (elim o [
            | raised ↦ duplicate_key
            | done (x, db₁) ↦
                if run.persist_fails
                then failed
                else stored x (create_outbox_event run.event_id x.id (event_of x p) db₁)
          ])
            ≡ stored r db'
          → (db₁ : Database) × (o ≡ done (r, db₁))
            × (db' ≡ create_outbox_event run.event_id r.id (event_of r p) db₁)
      through raised e = absurd (ground arith)
      through (done (x, db₁)) e = elim (Bool-cases run.persist_fails) [
        | inl fails ↦ absurd (ground arith)
        | inr fine ↦ (db₁, ground arith, ground arith)
      ]

  persist-Recorded :
      (run : Run) (q : Request) (ttl p : ℕ) (r : Reservation) (db db' : Database)
      → persist run q ttl p db ≡ stored r db'
      → Recorded q.idempotency_key run.event_id p (reserved r) db db'
  unfolding insert_reservation create_outbox_event
  persist-Recorded run q ttl p r db db' e =
      let (db₁, inserted, with_event) = persist-inserts run q ttl p r db db' e in
      record {
        rows = ground arith;
        events = ground arith;
        keyed = ground arith;
        unique = λ u. rw with_event (
            insert_reservation-IsUnique run.row_id q.user_id q.sale_id q.quantity q.idempotency_key
              (run.now + ttl * 1000) db r db₁ u inserted);
      }

  compensate-Recorded :
      (run : Run) (q : Request) (p : ℕ) (answer : Created) (db : Database) (w : World S)
      → new_rows answer ≡ []
      → new_events run.event_id p answer ≡ []
      → SameRows db w.db
      → let out = compensate S run q answer w in
        Recorded q.idempotency_key run.event_id p out.0 db out.1.db
  unfolding compensate
  compensate-Recorded run q p answer db w rows events same = elim (Bool-cases (reaches run.redis)) [
    | inl there ↦
        rw there (nothing_new q.idempotency_key run.event_id p answer db w.db rows events same)
    | inr gone ↦
        rw gone (nothing_new q.idempotency_key run.event_id p runtime_error db w.db refl refl same)
  ]

  pub pass_queue-db :
      (redis_up : Bool) (now : ℕ) (q : Request) (w : World S)
      → (pass_queue S redis_up now q w).1.db ≡ w.db
  unfolding pass_queue
  pass_queue-db redis_up now q w = ground arith

  after_persist-Recorded :
      (a : Persisted) (run : Run) (q : Request) (ttl recovery p : ℕ) (db : Database) (w : World S)
      → ((r : Reservation) (db' : Database)
          → a ≡ stored r db'
          → Recorded q.idempotency_key run.event_id p (reserved r) db db')
      → SameRows db w.db
      → let out = after_persist S a run q ttl recovery p w in
        Recorded q.idempotency_key run.event_id p out.0 db out.1.db
  unfolding after_persist
  after_persist-Recorded (stored r db') run q ttl recovery p db w h same =
      unfold finish in h r db' refl
  after_persist-Recorded duplicate_key run q ttl recovery p db w h same =
      compensate-Recorded run q p (value_error failed_duplicate) db w refl refl same
  after_persist-Recorded failed run q ttl recovery p db w h same =
      compensate-Recorded run q p runtime_error db w refl refl same

  -- The rows that the reservation in a new table adds to those of an old table with the same rows.
  over_same :
      (k e p : ℕ) (answer : Created) (db db₁ db₂ : Database)
      → SameRows db db₁
      → Recorded k e p answer db₁ db₂
      → Recorded k e p answer db db₂
  over_same k e p answer db db₁ db₂ same h = record {
    rows = rw (sym same.reservations) h.rows;
    events = rw (sym same.events) h.events;
    keyed = h.keyed;
    unique = λ u. h.unique (rw same.reservations u);
  }

  after_reserve-Recorded :
      (o : Outcome (Bool × Database)) (st : Stock S.counters S.holds) (run : Run) (q : Request)
      (ttl recovery p : ℕ) (w : World S)
      → ((ok : Bool) (db' : Database) → o ≡ done (ok, db') → SameRows w.db db')
      → let out = after_reserve S (o, st) run q ttl recovery p w in
        Recorded q.idempotency_key run.event_id p out.0 w.db out.1.db
  unfolding after_reserve
  after_reserve-Recorded raised st run q ttl recovery p w h =
      nothing_new q.idempotency_key run.event_id p runtime_error w.db w.db refl refl
        (record { reservations = refl; events = refl })
  after_reserve-Recorded (done (false, db')) st run q ttl recovery p w h =
      nothing_new q.idempotency_key run.event_id p (value_error no_inventory) w.db db' refl refl
        (h false db' refl)
  after_reserve-Recorded (done (true, db')) st run q ttl recovery p w h =
      after_persist-Recorded (persist run q ttl p db') run q ttl recovery p w.db
        (record w { db = db'; stock = st })
        (λ r db'' e.
          over_same q.idempotency_key run.event_id p (reserved r) w.db db' db'' (h true db' refl)
            (persist-Recorded run q ttl p r db' db'' e))
        (h true db' refl)

  pub reserve_and_persist-Recorded :
      (run : Run) (q : Request) (score : Score S) (p : ℕ) (w : World S)
      → let out = reserve_and_persist S run q score p w in
        Recorded q.idempotency_key run.event_id p out.0 w.db out.1.db
  unfolding reserve_and_persist
  reserve_and_persist-Recorded run q (score, ttl, recovery) p w =
      let (o, st) =
        try_reserve_with_fallback S.counters S.holds run.redis run.now q.sale_id run.hold_id
          q.user_id q.quantity ttl w.stock w.db in
      after_reserve-Recorded o st run q ttl recovery p w (λ ok db' e.
        fallback-SameRows run.redis run.now q.sale_id run.hold_id q.user_id q.quantity ttl ok w db'
          e)

-- ===== src/OutboxWorker/Accounted.antt =====
-- The events that are marked published against the messages that RabbitMQ has.
use flux_kart.Prelude.{
  ℕ, ◌+◌, ◌≤◌, ◌≡◌, refl, true, ◌⊎◌, inl, inr, List, [], ◌∷◌, ◌++◌, arith, leb, Bool-cases,
}
use flux_kart.Db.{OutboxEvent, Payload}
use flux_kart.Db.Outbox.{has_id, get_pending_outbox_events, mark_event_published, mark_event_failed}
use flux_kart.OutboxWorker.{
  Progress, Fate, refused, unmarked, marked, batch_size, max_retry_count, attempt_event,
  process_event, process_events, process_outbox_batch, polls,
}
use flux_kart.OutboxWorker.Matching.{
  Matches, AllMatch, IsKeyed, AllMatch-process_event, AllMatch-pending, process_events-IsKeyed,
}

abbrev pub Sent : Payload → List Payload → Type 0
Sent m [] = ⊥
Sent m (x ∷ xs) = (x ≡ m) ⊎ Sent m xs

Sent-append : (m : Payload) (xs ys : List Payload) → Sent m xs → Sent m (xs ++ ys)
Sent-append m [] ys h = elim h [ ]
Sent-append m (x ∷ xs) ys (inl e) = inl e
Sent-append m (x ∷ xs) ys (inr h) = inr (Sent-append m xs ys h)

Sent-last : (m : Payload) (xs : List Payload) → Sent m (xs ++ m ∷ [])
Sent-last m [] = inl refl
Sent-last m (x ∷ xs) = inr (Sent-last m xs)

-- A row that is marked published was sent, or has used up its retries.
abbrev pub IsAccounted : List Payload → List OutboxEvent → Type 0
IsAccounted sent [] = Unit
IsAccounted sent (e ∷ rows) =
    (e.published ≡ true → Sent e.payload sent ⊎ (max_retry_count ≤ e.retry_count))
    × IsAccounted sent rows

-- Marking the rows of one event, which was sent or is out of retries.
IsAccounted-mark :
    (e : OutboxEvent) (sent sent' : List Payload) (rows : List OutboxEvent)
    → ((m : Payload) → Sent m sent → Sent m sent')
    → Sent e.payload sent' ⊎ (max_retry_count ≤ e.retry_count)
    → Matches e rows
    → IsAccounted sent rows
    → IsAccounted sent' (mark_event_published e.id rows)
unfolding mark_event_published
IsAccounted-mark e sent sent' [] grow reason m h = tt
IsAccounted-mark e sent sent' (x ∷ rows) grow reason m h = (
  elim (Bool-cases (has_id e.id x)) [
    | inl hit ↦ rw hit (λ _. same_event hit)
    | inr miss ↦ rw miss (λ published. carried (h.0 published))
  ],
  IsAccounted-mark e sent sent' rows grow reason m.1 h.1,
)
  where
    same_event : has_id e.id x ≡ true → Sent x.payload sent' ⊎ (max_retry_count ≤ x.retry_count)
    same_event hit =
        let (payload, retries) = m.0 (ground arith) in
        elim reason [ inl there ↦ inl (rw payload there) | inr spent ↦ inr (omega arith) ]

    carried :
        Sent x.payload sent ⊎ (max_retry_count ≤ x.retry_count)
        → Sent x.payload sent' ⊎ (max_retry_count ≤ x.retry_count)
    carried (inl there) = inl (grow x.payload there)
    carried (inr spent) = inr spent

IsAccounted-fail :
    (k : ℕ) (sent sent' : List Payload) (rows : List OutboxEvent)
    → ((m : Payload) → Sent m sent → Sent m sent')
    → IsAccounted sent rows
    → IsAccounted sent' (mark_event_failed k rows)
unfolding mark_event_failed
IsAccounted-fail k sent sent' [] grow h = tt
IsAccounted-fail k sent sent' (x ∷ rows) grow h = (
  elim (Bool-cases (has_id k x)) [
    | inl hit ↦ rw hit (λ published. more (h.0 published))
    | inr miss ↦ rw miss (λ published. kept (h.0 published))
  ],
  IsAccounted-fail k sent sent' rows grow h.1,
)
  where
    kept :
        Sent x.payload sent ⊎ (max_retry_count ≤ x.retry_count)
        → Sent x.payload sent' ⊎ (max_retry_count ≤ x.retry_count)
    kept (inl there) = inl (grow x.payload there)
    kept (inr spent) = inr spent

    more :
        Sent x.payload sent ⊎ (max_retry_count ≤ x.retry_count)
        → Sent x.payload sent' ⊎ (max_retry_count ≤ x.retry_count + 1)
    more (inl there) = inl (grow x.payload there)
    more (inr spent) = inr (omega arith)

attempt_event-IsAccounted :
    (fate : Fate) (e : OutboxEvent) (p : Progress)
    → Matches e p.events
    → IsAccounted p.sent p.events
    → IsAccounted (attempt_event fate e p).sent (attempt_event fate e p).events
unfolding attempt_event
attempt_event-IsAccounted refused e p m h =
    IsAccounted-fail e.id p.sent p.sent p.events (λ x s. s) h
attempt_event-IsAccounted unmarked e p m h =
    IsAccounted-fail e.id p.sent (p.sent ++ e.payload ∷ []) p.events
      (λ x s. Sent-append x p.sent (e.payload ∷ []) s) h
attempt_event-IsAccounted marked e p m h =
    IsAccounted-mark e p.sent (p.sent ++ e.payload ∷ []) p.events
      (λ x s. Sent-append x p.sent (e.payload ∷ []) s) (inl (Sent-last e.payload p.sent)) m h

process_event-IsAccounted :
    (fates : ℕ → Fate) (e : OutboxEvent) (p : Progress)
    → Matches e p.events
    → IsAccounted p.sent p.events
    → IsAccounted (process_event fates e p).sent (process_event fates e p).events
unfolding process_event
process_event-IsAccounted fates e p m h = elim (Bool-cases (leb max_retry_count e.retry_count)) [
  | inl spent ↦
      rw spent (IsAccounted-mark e p.sent p.sent p.events (λ x s. s) (inr (ground arith)) m h)
  | inr left ↦ rw left (attempt_event-IsAccounted (fates e.id) e p m h)
]

process_events-IsAccounted :
    (fates : ℕ → Fate) (batch : List OutboxEvent) (p : Progress)
    → AllMatch batch p.events
    → IsAccounted p.sent p.events
    → IsAccounted (process_events fates batch p).sent (process_events fates batch p).events
unfolding process_events
process_events-IsAccounted fates [] p m h = h
process_events-IsAccounted fates (e ∷ batch) p m h =
    process_events-IsAccounted fates batch (process_event fates e p)
      (AllMatch-process_event fates batch e p m.1) (process_event-IsAccounted fates e p m.0 h)

-- Over any polls, whatever RabbitMQ refuses and PostgreSQL fails to mark, a table with distinct ids in which every published
-- event is accounted for stays so: an event is marked published only when its message was taken,
-- or when its retry count has reached the limit.
pub published-IsAccounted :
    (schedule : List (ℕ → Fate)) (events : List OutboxEvent) (sent : List Payload)
    → IsKeyed events
    → IsAccounted sent events
    → let (events', sent') = polls schedule events sent in IsAccounted sent' events'
unfolding polls process_outbox_batch get_pending_outbox_events
published-IsAccounted [] events sent keyed h = h
published-IsAccounted (fates ∷ rest) events sent keyed h =
    let batch = get_pending_outbox_events batch_size events in
    let start : Progress = record { events = events; sent = sent; published = 0 } in
    let p = process_events fates batch start in
    published-IsAccounted rest p.events p.sent (process_events-IsKeyed fates batch start keyed)
      (process_events-IsAccounted fates batch start (AllMatch-pending batch_size events keyed) h)

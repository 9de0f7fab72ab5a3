-- ===== src/OutboxWorker/Matching.antt =====
-- The events of a batch against the table that they were read from, while the table changes.
use flux_kart.Prelude.{
  ℕ, zero, suc, ◌+◌, ◌≤◌, ◌≡◌, refl, sym, Bool, leb, true, ◌≢◌, inl, inr, List, [], ◌∷◌, arith,
  Bool-cases, count_where, update_where, select, take,
}
use flux_kart.Db.{OutboxEvent}
use flux_kart.Db.Outbox.{has_id, is_unpublished, mark_event_published, mark_event_failed}
use flux_kart.OutboxWorker.{
  Progress, Fate, refused, unmarked, marked, max_retry_count, attempt_event, process_event,
  process_events,
}

-- Each row with the id of `event` carries its payload and at least its retries.
abbrev pub Matches : OutboxEvent → List OutboxEvent → Type 0
Matches event [] = Unit
Matches event (x ∷ rows) =
    (x.id ≡ event.id → (x.payload ≡ event.payload) × (event.retry_count ≤ x.retry_count))
    × Matches event rows

abbrev pub AllMatch : List OutboxEvent → List OutboxEvent → Type 0
AllMatch [] rows = Unit
AllMatch (event ∷ batch) rows = Matches event rows × AllMatch batch rows

-- No id stands twice.
abbrev pub IsKeyed : List OutboxEvent → Type 0
IsKeyed [] = Unit
IsKeyed (e ∷ rows) = (count_where (has_id e.id) rows ≡ 0) × IsKeyed rows

-- What one event of a batch leaves behind, for the rows of any event that matched before.
Matches-update :
    (event : OutboxEvent) (p : OutboxEvent → Bool) (f : OutboxEvent → OutboxEvent)
    (rows : List OutboxEvent)
    → ((x : OutboxEvent)
        → ((f x).id ≡ x.id) × ((f x).payload ≡ x.payload) × (x.retry_count ≤ (f x).retry_count))
    → Matches event rows
    → Matches event (update_where p f rows)
Matches-update event p f [] keeps h = tt
Matches-update event p f (x ∷ rows) keeps h =
    ground (arith, keeps x, Matches-update event p f rows keeps h.1)

Matches-mark :
    (event e : OutboxEvent) (rows : List OutboxEvent)
    → Matches event rows
    → Matches event (mark_event_published e.id rows)
unfolding mark_event_published
Matches-mark event e rows h =
    Matches-update event (has_id e.id) (λ x. record x { published = true }) rows
      (λ x. (refl, refl, omega arith)) h

Matches-fail :
    (event e : OutboxEvent) (rows : List OutboxEvent)
    → Matches event rows
    → Matches event (mark_event_failed e.id rows)
unfolding mark_event_failed
Matches-fail event e rows h =
    Matches-update event (has_id e.id) (λ x. record x { retry_count = x.retry_count + 1 }) rows
      (λ x. (refl, refl, omega arith)) h

Matches-attempt_event :
    (fate : Fate) (event e : OutboxEvent) (p : Progress)
    → Matches event p.events
    → Matches event (attempt_event fate e p).events
unfolding attempt_event
Matches-attempt_event refused event e p h = Matches-fail event e p.events h
Matches-attempt_event unmarked event e p h = Matches-fail event e p.events h
Matches-attempt_event marked event e p h = Matches-mark event e p.events h

Matches-process_event :
    (fates : ℕ → Fate) (event e : OutboxEvent) (p : Progress)
    → Matches event p.events
    → Matches event (process_event fates e p).events
unfolding process_event
Matches-process_event fates event e p h = elim (Bool-cases (leb max_retry_count e.retry_count)) [
  | inl spent ↦ rw spent (Matches-mark event e p.events h)
  | inr left ↦ rw left (Matches-attempt_event (fates e.id) event e p h)
]

pub AllMatch-process_event :
    (fates : ℕ → Fate) (batch : List OutboxEvent) (e : OutboxEvent) (p : Progress)
    → AllMatch batch p.events
    → AllMatch batch (process_event fates e p).events
AllMatch-process_event fates [] e p h = tt
AllMatch-process_event fates (event ∷ batch) e p h =
    (Matches-process_event fates event e p h.0, AllMatch-process_event fates batch e p h.1)

-- The rows of a poll's batch match the table that they were read from.
Matches-other :
    (event : OutboxEvent) (rows : List OutboxEvent)
    → count_where (has_id event.id) rows ≡ 0
    → Matches event rows
Matches-other event [] h = tt
Matches-other event (x ∷ rows) h =
    ((λ same. absurd (ground arith)), Matches-other event rows (ground arith))

abbrev AllOther : ℕ → List OutboxEvent → Type 0
AllOther k [] = Unit
AllOther k (event ∷ batch) = (event.id ≢ k) × AllOther k batch

AllOther-pending :
    (k n : ℕ) (rows : List OutboxEvent)
    → count_where (has_id k) rows ≡ 0
    → AllOther k (take n (select is_unpublished rows))
AllOther-pending k zero rows h = tt
AllOther-pending k (suc n) [] h = tt
AllOther-pending k (suc n) (x ∷ rows) h = elim (Bool-cases x.published) [
  | inl published ↦ rw published (AllOther-pending k (suc n) rows (ground arith))
  | inr waiting ↦ rw waiting (ground arith, AllOther-pending k n rows (ground arith))
]

AllMatch-cons :
    (x : OutboxEvent) (batch rows : List OutboxEvent)
    → AllOther x.id batch
    → AllMatch batch rows
    → AllMatch batch (x ∷ rows)
AllMatch-cons x [] rows other h = tt
AllMatch-cons x (event ∷ batch) rows other h =
    (((λ same. absurd (other.0 (sym same))), h.0), AllMatch-cons x batch rows other.1 h.1)

pub AllMatch-pending :
    (n : ℕ) (rows : List OutboxEvent)
    → IsKeyed rows
    → AllMatch (take n (select is_unpublished rows)) rows
AllMatch-pending zero rows h = tt
AllMatch-pending (suc n) [] h = tt
AllMatch-pending (suc n) (x ∷ rows) h = elim (Bool-cases x.published) [
  | inl published ↦ simp published (
      AllMatch-cons x (take (suc n) (select is_unpublished rows)) rows
        (AllOther-pending x.id (suc n) rows h.0) (AllMatch-pending (suc n) rows h.1))
  | inr waiting ↦ simp waiting (
    ((λ same. (refl, omega arith)), Matches-other x rows h.0),
    AllMatch-cons x (take n (select is_unpublished rows)) rows (AllOther-pending x.id n rows h.0)
        (AllMatch-pending n rows h.1),
  )
]

-- The ids of the table never change.
count-update :
    (k : ℕ) (q : OutboxEvent → Bool) (f : OutboxEvent → OutboxEvent) (rows : List OutboxEvent)
    → ((x : OutboxEvent) → (f x).id ≡ x.id)
    → count_where (has_id k) (update_where q f rows) ≡ count_where (has_id k) rows
count-update k q f [] keeps = refl
count-update k q f (x ∷ rows) keeps = ground (arith, keeps x, count-update k q f rows keeps)

IsKeyed-update :
    (q : OutboxEvent → Bool) (f : OutboxEvent → OutboxEvent) (rows : List OutboxEvent)
    → ((x : OutboxEvent) → (f x).id ≡ x.id)
    → IsKeyed rows
    → IsKeyed (update_where q f rows)
IsKeyed-update q f [] keeps h = tt
IsKeyed-update q f (x ∷ rows) keeps h =
    (ground (arith, keeps x, count-update x.id q f rows keeps), IsKeyed-update q f rows keeps h.1)

IsKeyed-mark :
    (e : OutboxEvent) (rows : List OutboxEvent)
    → IsKeyed rows
    → IsKeyed (mark_event_published e.id rows)
unfolding mark_event_published
IsKeyed-mark e rows h =
    IsKeyed-update (has_id e.id) (λ x. record x { published = true }) rows (λ x. refl) h

IsKeyed-fail :
    (e : OutboxEvent) (rows : List OutboxEvent)
    → IsKeyed rows
    → IsKeyed (mark_event_failed e.id rows)
unfolding mark_event_failed
IsKeyed-fail e rows h =
    IsKeyed-update (has_id e.id) (λ x. record x { retry_count = x.retry_count + 1 }) rows
      (λ x. refl) h

IsKeyed-attempt_event :
    (fate : Fate) (e : OutboxEvent) (p : Progress)
    → IsKeyed p.events
    → IsKeyed (attempt_event fate e p).events
unfolding attempt_event
IsKeyed-attempt_event refused e p h = IsKeyed-fail e p.events h
IsKeyed-attempt_event unmarked e p h = IsKeyed-fail e p.events h
IsKeyed-attempt_event marked e p h = IsKeyed-mark e p.events h

process_event-IsKeyed :
    (fates : ℕ → Fate) (e : OutboxEvent) (p : Progress)
    → IsKeyed p.events
    → IsKeyed (process_event fates e p).events
unfolding process_event
process_event-IsKeyed fates e p h = elim (Bool-cases (leb max_retry_count e.retry_count)) [
  | inl spent ↦ rw spent (IsKeyed-mark e p.events h)
  | inr left ↦ rw left (IsKeyed-attempt_event (fates e.id) e p h)
]

pub process_events-IsKeyed :
    (fates : ℕ → Fate) (batch : List OutboxEvent) (p : Progress)
    → IsKeyed p.events
    → IsKeyed (process_events fates batch p).events
unfolding process_events
process_events-IsKeyed fates [] p h = h
process_events-IsKeyed fates (e ∷ batch) p h =
    process_events-IsKeyed fates batch (process_event fates e p) (process_event-IsKeyed fates e p h)

-- ===== src/OutboxWorker/Delivery.antt =====
-- What the outbox guarantees of delivery, and where the retry limit ends it.
use flux_kart.Prelude.{
  ℕ, zero, suc, ◌+◌, ◌≤◌, ◌<◌, ◌≡◌, sym, ◌∙◌, ap, Bool, true, false, List, [], ◌∷◌, ◌++◌, arith,
  ltb, select, map, replicate,
}
use mathlib.Core.List.{append-nil, append_assoc}
use native.Mathlib.Nat.{add-zero}
use flux_kart.Db.{OutboxEvent, Payload}
use flux_kart.Db.Outbox.{get_pending_outbox_events}
use flux_kart.OutboxWorker.{
  Progress, Fate, refused, marked, attempt_event, batch_size, max_retry_count, process_event,
  process_events, process_outbox_batch, polls,
}

abbrev can_retry : OutboxEvent → Bool
can_retry e = ltb e.retry_count max_retry_count

abbrev payloads : List OutboxEvent → List Payload
payloads = map (λ e. e.payload)

process_events-healthy :
    (batch : List OutboxEvent) (p : Progress)
    → (process_events (λ _. marked) batch p).sent ≡ p.sent ++ payloads (select can_retry batch)
unfolding process_events process_event attempt_event
process_events-healthy [] p = sym (append-nil p.sent)
process_events-healthy (e ∷ batch) p = ground (
  arith,
  process_events-healthy batch (process_event (λ _. marked) e p),
  append_assoc p.sent (e.payload ∷ []) (payloads (select can_retry batch)),
)

-- While RabbitMQ takes every message and PostgreSQL marks every event, one poll publishes exactly the events of its batch that are
-- below the retry limit, in the order of the table, behind what was published before.
pub healthy_poll_publishes :
    (events : List OutboxEvent) (sent : List Payload)
    → (process_outbox_batch (λ _. marked) events sent).sent
      ≡ sent ++ payloads (select can_retry (get_pending_outbox_events batch_size events))
unfolding process_outbox_batch
healthy_poll_publishes events sent = process_events-healthy _ _

abbrev refuse : ℕ → Fate
refuse _ = refused

abbrev retried : ℕ → OutboxEvent → OutboxEvent
retried k e = record e { retry_count = e.retry_count + k }

refused_poll :
    (e : OutboxEvent) (sent : List Payload)
    → e.published ≡ false
    → e.retry_count < max_retry_count
    → process_outbox_batch refuse (e ∷ []) sent
      ≡ record { events = retried 1 e ∷ []; sent = sent; published = 0 }
unfolding process_outbox_batch get_pending_outbox_events process_events process_event attempt_event
refused_poll e sent waiting left = ground arith

refused_polls :
    (k : ℕ) (rest : List (ℕ → Fate)) (e : OutboxEvent) (sent : List Payload)
    → e.published ≡ false
    → e.retry_count + k ≤ max_retry_count
    → polls (replicate k refuse ++ rest) (e ∷ []) sent ≡ polls rest (retried k e ∷ []) sent
unfolding polls
refused_polls zero rest e sent waiting left = rw add-zero
refused_polls (suc k) rest e sent waiting left =
    ap (λ (p : Progress). polls (replicate k refuse ++ rest) p.events p.sent)
      (refused_poll e sent waiting (omega arith))
    ∙ refused_polls k rest (retried 1 e) sent waiting (omega arith)
    ∙ ap (λ n. polls rest (record e { retry_count = n } ∷ []) sent) (omega arith)

-- In a table of one event that was never tried, ten refused polls leave the event unpublished with ten
-- retries; the next poll marks it published although RabbitMQ may be back, and its message is never
-- sent.
pub outage_loses_event :
    (e : OutboxEvent) (sent : List Payload) (later : ℕ → Fate)
    → e.published ≡ false
    → e.retry_count ≡ 0
    → (polls (replicate max_retry_count refuse) (e ∷ []) sent
        ≡ (record e { retry_count = max_retry_count } ∷ [], sent))
      × (polls (replicate max_retry_count refuse ++ later ∷ []) (e ∷ []) sent
          ≡ (record e { published = true; retry_count = max_retry_count } ∷ [], sent))
outage_loses_event e sent later waiting fresh = (
  ap (λ schedule. polls schedule (e ∷ []) sent)
        (sym (append-nil (replicate max_retry_count refuse)))
      ∙ refused_polls max_retry_count [] e sent waiting (omega arith)
      ∙ unfold polls in ground arith,
  refused_polls max_retry_count (later ∷ []) e sent waiting (omega arith)
      ∙ unfold polls process_outbox_batch get_pending_outbox_events process_events process_event
          attempt_event in
        ground arith,
)

-- ===== src/OutboxWorker.antt =====
-- backend/app/workers/outbox_worker.py: one poll of the outbox table. `fates` says for the
-- id of each event which call of its `try` fails, which the model is given. A run of the loop is a
-- list of polls; one that an exception outside of the `try` ends early is left out.
pub mod Delivery
pub mod Matching
pub mod Accounted
use flux_kart.Prelude.{
  ℕ, zero, suc, ◌+◌, Bool, true, false, List, [], ◌∷◌, ◌++◌, leb, if◌then◌else◌,
}
use flux_kart.Db.{OutboxEvent, Payload}
use flux_kart.Db.Outbox.{get_pending_outbox_events, mark_event_published, mark_event_failed}

abbrev pub batch_size : ℕ
batch_size = 50

abbrev pub max_retry_count : ℕ
max_retry_count = 10

-- The table, the messages that the exchange has taken, and the number published in this poll.
pub record Progress : Type 0 where
  pub events : List OutboxEvent
  pub sent : List Payload
  pub published : ℕ

-- RabbitMQ refuses the message; or the exchange takes it, and PostgreSQL fails to mark the event or
-- marks it.
pub data Fate : Type 0 where
  refused unmarked marked : Fate

-- The `try`.
unfoldable pub attempt_event : Fate → OutboxEvent → Progress → Progress
unfolding mark_event_published mark_event_failed
attempt_event refused event p = record p { events = mark_event_failed event.id p.events }
attempt_event unmarked event p = record p {
  events = mark_event_failed event.id p.events;
  sent = p.sent ++ event.payload ∷ [];
}
attempt_event marked event p = record {
  events = mark_event_published event.id p.events;
  sent = p.sent ++ event.payload ∷ [];
  published = p.published + 1;
}

-- The body of the `for` loop.
unfoldable pub process_event : (ℕ → Fate) → OutboxEvent → Progress → Progress
unfolding mark_event_published attempt_event
process_event fates event p =
    if leb max_retry_count event.retry_count
    then record p { events = mark_event_published event.id p.events }
    else attempt_event (fates event.id) event p

unfoldable pub process_events : (ℕ → Fate) → List OutboxEvent → Progress → Progress
process_events fates [] p = p
process_events fates (event ∷ rest) p = process_events fates rest (process_event fates event p)

unfoldable pub process_outbox_batch : (ℕ → Fate) → List OutboxEvent → List Payload → Progress
process_outbox_batch fates events sent =
    process_events fates (get_pending_outbox_events batch_size events)
      (record { events = events; sent = sent; published = 0 })

-- The inner `while True` of `start_outbox_worker`: one poll after another.
unfoldable pub polls :
    List (ℕ → Fate) → List OutboxEvent → List Payload → List OutboxEvent × List Payload
polls [] events sent = (events, sent)
polls (fates ∷ rest) events sent =
    let p = process_outbox_batch fates events sent in polls rest p.events p.sent

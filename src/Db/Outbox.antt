-- ===== src/Db/Outbox.antt =====
-- backend/app/db/queries/outbox.py. Rows stand in the order of insertion, which is the order of
-- `created_at`, so the poll reads them from the front.
use flux_kart.Prelude.{
  ℕ, ◌+◌, Bool, true, false, List, [], ◌∷◌, ◌++◌, ◌==◌, not, select, take, update_where,
}
use flux_kart.Db.{OutboxEvent, Payload, Database}

unfoldable pub create_outbox_event : ℕ → ℕ → Payload → Database → Database
create_outbox_event id aggregate_id payload db = record db {
  outbox_events =
      db.outbox_events
      ++ record {
        id = id;
        aggregate_id = aggregate_id;
        payload = payload;
        published = false;
        retry_count = 0;
      }
        ∷ [];
}

abbrev pub is_unpublished : OutboxEvent → Bool
is_unpublished e = not e.published

abbrev pub has_id : ℕ → OutboxEvent → Bool
has_id event_id e = e.id == event_id

unfoldable pub get_pending_outbox_events : ℕ → List OutboxEvent → List OutboxEvent
get_pending_outbox_events batch_size events = take batch_size (select is_unpublished events)

unfoldable pub mark_event_published : ℕ → List OutboxEvent → List OutboxEvent
mark_event_published event_id = update_where (has_id event_id) (λ e. record e { published = true })

unfoldable pub mark_event_failed : ℕ → List OutboxEvent → List OutboxEvent
mark_event_failed event_id =
    update_where (has_id event_id) (λ e. record e { retry_count = e.retry_count + 1 })

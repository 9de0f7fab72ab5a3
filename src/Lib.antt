-- ===== src/Lib.antt =====
-- FluxKart sells limited stock in flash sales. The API reserves units of a sale in Redis, records a
-- reservation and an outbox event in PostgreSQL, and the workers turn events into orders, expire what
-- is overdue and admit users from a waiting queue. Python under backend/app/:
--
-- * services/inventory_service.py keeps the counter of a sale and the holds of reservations in Redis
--   by Lua scripts: Inventory.antt, one function for each script, with Accounting and Holds below it.
-- * db/queries/*.py and the migrations under backend/alembic/versions/: Db.antt has the tables and its
--   children the statements, named as the query functions.
-- * utils/degradation.py, which falls back to a locked row: Degradation.antt.
-- * services/reservation_service.py, `create_reservation` and its caches: ReservationService.antt
--   (what is read before the units are reserved) and ReservationService/Create.antt (the rest, and
--   the whole), with Recorded, Outbox, Failures, Holds and Replay below it.
-- * services/queue_service.py, the waiting queue: QueueService.antt.
-- * utils/user_score.py, the score that decides how long a reservation lasts: UserScore.antt.
-- * utils/circuit_breaker.py, shared by all servers: CircuitBreaker.antt.
-- * workers/outbox_worker.py, which publishes events to RabbitMQ: OutboxWorker.antt.
-- * consumers/order_consumer.py, which makes orders of messages: OrderConsumer.antt.
-- * routers/orders.py with utils/idempotency.py, payment and cancellation: Payments.antt, with
--   the cart in Payments/Cart.antt.
-- * workers/expiry_worker.py, overdue reservations, ended sales and scheduled ones: ExpiryWorker.antt.
-- * routers/auth.py with utils/security.py, registration and tokens: Accounts.antt.
-- * middleware/rate_limiter.py, the sliding window of requests: RateLimiter.antt.
-- * routers/reservations.py, the endpoints on a reservation: ReservationRouter.antt, with the
--   stream of queue positions in Stream.
-- * routers/admin.py, the calls that change a sale: SaleAdmin.antt, with the lifecycle of a sale under
--   Lifecycle, the counter against its row in Resize and the listings in Reports; routers/sales.py:
--   SalesRouter.antt.
-- * workers/reconciliation_worker.py, the counters against the tables: Reconciliation.antt.
-- * workers/admission_worker.py with db/queries/preregistrations.py: Admission.antt.
-- * workers/heartbeat_worker.py, users who left the queue: Heartbeat.antt.
-- * models/schemas.py, the bodies of requests: Bodies.antt, with the prices of sales in Bodies/Prices.
-- * routers/health.py and utils/dlq_monitor.py, with the reports of the breaker and of the queue:
--   Monitoring.antt.
-- * dependencies.py, main.py and backend/consumers/run_consumer.py, the connections: Wiring.antt.
-- * The tables under all of these: System.antt, with System/Steps.antt for the calls that write them
--   as steps of one relation, System/Sold.antt for the tables over any run, and System/Deletion.antt.
--   The modules named Kept, and ReservationService/Create/Stocked.antt, prove it for each call.
--
-- Redis.antt has the interfaces of the Redis server, whose laws are its documented behaviour; the
-- modules take them as parameters. Prelude.antt has shared names, tests, lists and integers. Examples
-- has instances of the interfaces and applies the theorems to concrete data.
--
-- Ids and keys are numbers, times are milliseconds, money is in whole cents. What an operation
-- draws or meets (the time, a uuid4(), a failing connection) is an argument. A transaction that
-- raises leaves the tables as they were. Python's floats and card helpers, and the order in which
-- RabbitMQ takes or refuses messages, are parameters. The only fuel is that of the batch loop in
-- ExpiryWorker.antt: one more round than there are due reservations is enough, since a batch that
-- is not the last expires at least one.
--
-- Not modelled: the outer loops of the other workers, logging, metrics and tracing, what is declared
-- at RabbitMQ, and the scripts that fill the stores for tests. Hashes of
-- passwords and signed tokens are a parameter.
pub mod Prelude
pub mod Redis
pub mod Inventory
pub mod Db
pub mod Degradation
pub mod OrderConsumer
pub mod OutboxWorker
pub mod CircuitBreaker
pub mod Payments
pub mod ExpiryWorker
pub mod UserScore
pub mod QueueService
pub mod ReservationService
pub mod RateLimiter
pub mod ReservationRouter
pub mod SaleAdmin
pub mod SalesRouter
pub mod Accounts
pub mod Reconciliation
pub mod Admission
pub mod Heartbeat
pub mod Examples
pub mod System
pub mod Wiring
pub mod Bodies
pub mod Monitoring

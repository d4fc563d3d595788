-- ===== src/Lib.antt =====
-- Verification of an event-driven order fulfilment platform in TypeScript: services that talk through
-- Kafka and keep their state in PostgreSQL.
--
-- The parts. A saga orchestrator drives each order through payment, inventory, fraud check and
-- shipping, and compensates when a step fails. Workers answer its commands. All of them are
-- consumers that share one handling of messages: reading an envelope, dropping duplicates,
-- retrying, and giving up into a dead-letter queue. An outbox relay sends the events that services
-- have stored in a table. The database service holds the SQL statements that they all use.
--
-- Where each part is modelled:
--   Saga.antt, Saga/Barrier.antt: src/saga/saga-orchestrator.ts, one function per case of
--     processEvent's switch (`on_payment_authorized` …), and handleCompensationCompletion.
--     Saga/Moves.antt has the table of a saga's moves and Saga/Routes.antt the routes along it;
--     Saga/Order.antt has the two compensations of a cancelled order.
--   BaseConsumer.antt: src/consumers/base-consumer.ts, handleMessage (`handle_message`) and the two
--     routes to the DLQ; the method processEvent of a concrete consumer is a parameter.
--   Emit.antt: the same file's emit.
--   Workers.antt: src/consumers/payment-consumer.ts, inventory-consumer.ts, shipping-consumer.ts.
--   Screening.antt: src/consumers/fraud-consumer.ts, notification-consumer.ts.
--   OrderService.antt: src/services/order-service.ts, createOrder.
--   Http.antt: src/app.ts, the routes POST /orders, POST /dlq/:id/replay and POST /replay;
--     Http/Switches.antt: its routes under /chaos.
--   Http/Queries.antt, Http/Status.antt, Http/Dashboard.antt: its routes that read, its probes, and
--     its metrics with getMetrics of src/services/database.ts (Database/Metrics.antt).
--   System.antt: the parts as src/index.ts wires them, an action being one handler from its start to
--     its end, and runs of actions. System/*.antt: what each part keeps, for System/Invariants.antt;
--     System/Arrival.antt follows one order, with Journey.antt, Posted.antt and
--     BaseConsumer/Handled.antt as its steps.
--   Process.antt: src/index.ts, start, createTopics and shutdown; BaseConsumer/Lifecycle.antt: start
--     and stop of a consumer; Config.antt: the topics of src/config.ts.
--   Relay/Lifecycle.antt: start, stop, trigger and the poll timer of the relay.
--   Relay.antt: src/infrastructure/outbox/outbox-relay.ts, processBatch and publishEvent.
--   Database/*.antt: src/services/database.ts, table by table: Leases.antt and Outbox.antt
--     (outbox_events and dlq_outbox), Processed.antt, Sagas.antt, Dlq.antt, EventStore.antt
--     (event_store and order_events), ReadModels.antt (the four read models and the projection's
--     marks), Orders.antt. Queries.antt: its methods that make several queries.
--   Projection.antt, Projection/Statements.antt, Projection/Notifications.antt:
--     src/application/projections/projection-consumer.ts, processEvent (`project_event`),
--     applyHistoricalEvent, the statements of each event type, and emitLiveNotifications.
--   Replay.antt: src/replay/event-replay-service.ts, replayAggregate and replayDLQ.
--   Contracts.antt, Contracts/Schema.antt, Contracts/Topics.antt: src/contracts/index.ts,
--     src/contracts/envelope.ts and the topic names of src/config.ts.
--   Chaos.antt: src/chaos/chaos-engine.ts.
--   World.antt, Exec.antt: what the methods share, and the monad of asynchronous methods, with
--     withTransaction of src/services/database.ts. Exec/Rules.antt, Exec/Worlds.antt and
--     Exec/Changes.antt have the rules for proofs.
--   Json.antt: JavaScript values. Base.antt: shared names and SQL statements on lists.
--   Tests.antt: concrete runs.
--
-- How the code is modelled. A method is a function from a world to a result and a world. The world
-- holds the tables, the messages sent, the consumer's fields, a clock, a counter of random draws,
-- and a list of outcomes: each call of the database or of Kafka takes the next one and succeeds, is
-- refused, or takes effect and reports an error. Calls past the end of the list succeed. So a
-- statement about every world is one about every pattern of failures. Each SQL statement is one
-- step; rows that a claim returns come in table order. Times are milliseconds. Numbers are natural
-- numbers. UUIDs, random numbers, the rendering of dates, Number() and includes, zod's own check of
-- a date-time and the texts of parse errors come from the environment in the world; so does what
-- PostgreSQL makes of a JavaScript value as the parameter of a text or INT column, of a stored
-- TIMESTAMP that is read back, whether a row of event_store fits its columns, and the error of a
-- statement that a constraint or a cast stops. DECIMAL and TIMESTAMP columns of the read models hold
-- texts; in the other tables a value that does not fit its column is one more call that is refused. Logging is left out. Saga contexts are records with the keys that the code uses.
--
-- Loops. The retry loop is recursion on the attempts that are left, maxRetries at the start; the
-- loop of the relay is recursion on the claimed rows, that of a replay on the events. None has other
-- fuel.
--
-- A handler runs without interruption by others: what two handlers do to the same rows at the same
-- time is modelled only for the leases of the outbox (Database/Leases/*.antt) and for the relay's
-- timers and flag, where the steps between two waits interleave. A crash in the middle of a handler
-- is not modelled.
--
-- Not modelled: createTables (one call that is given) and truncateBenchmarkData of the database
-- service, GET /chaos/status, the HTTP and WebSocket servers themselves, the realtime consumer,
-- which the process never starts, the producers (thin calls of libraries that nothing calls), the
-- payload schemas, the legacy payment, inventory and notification services, logging, and the
-- benchmarks. A percentile's index Math.floor(n * p) is n * 100p / 100, which is exact for the at
-- most 10000 durations that are kept.
pub mod Base
pub mod Json
pub mod Contracts
pub mod Database
pub mod Chaos
pub mod World
pub mod Exec
pub mod Emit
pub mod Saga
pub mod BaseConsumer
pub mod Relay
pub mod Screening
pub mod Workers
pub mod Projection
pub mod OrderService
pub mod Http
pub mod Queries
pub mod Replay
pub mod System
pub mod Config
pub mod Process
pub mod Tests

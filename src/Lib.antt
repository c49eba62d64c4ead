-- ===== src/Lib.antt =====
-- The services of the repository and what they share, as functions on the contents of their
-- databases.
--
-- The program: three services, each with a MySQL database of its own. The user service (service/user)
-- registers and authenticates users. The order service (service/order) creates, pays and cancels
-- orders. The inventory service (service/inventory) reserves and releases stock. They write events to
-- an outbox table in the transaction of the change that the event tells of; a poller publishes the
-- rows to Kafka; the consumers of the other services process each event once, under its event id.
-- order.created makes the inventory reserve stock and answer inventory.reserved or
-- inventory.reservation_failed; the latter makes the order service cancel the order; order.cancelled
-- makes the inventory release the stock.
--
-- The files:
--   Base and its children       native integers, lists, tests; names that the others share
--   Errors                      common/ecode, and what errors.Is and errors.As find in an error
--   Sql                         gorm's statements and transactions, parameters with the laws that
--                               IsTable and IsDatabase name; Sql/Memory is an engine that meets them
--   Event, Event/*              common/xevent/event.go and its JSON; Event/Delivery: round trips
--   Outbox, Outbox/*            common/xevent/outbox.go, outbox_repo.go, common/xstream/poller.go
--   Idempotent, Idempotent/*    common/xevent/idempotent.go
--   Retry, Retry/*              common/xdb/retry.go
--   Stream, Stream/Consumer     common/xstream/stream.go and recover.go; Stream/Restarts: what a
--                               consumer promises of handler and commit, as steps; Stream/Given:
--                               consume over processes that end and die; Stream/Topics: the producer
--   Client, Client/Calls        common/client/retry.go
--   Cache, Cache/Coherence      common/xcache/cache.go
--   Http, Http/Front            common/middleware/response.go, auth.go, ratelimit.go; clientip.go,
--                               cors.go, health.go, logger.go
--   Inventory, Inventory/*      service/inventory/rpc/internal: Repository (repository/inventory.go),
--                               Consumer (svc/order_event_consumer.go), Rpc (logic); the others prove
--   Order, Order/*              service/order/api/internal: Repository, Create, Update, Consumer, Api;
--                               Steps, Race and the Outcomes prove; Faults: logic/order/lab_faults.go
--                               and common/xlab, and Create with its switches
--   User, User/*                service/user/rpc/internal (Rpc) and service/user/api/internal (Api);
--                               Registration, Validation and Session prove
--   Saga, Saga/*                the services together: an outbox row, its message and its handler;
--                               Saga/System: both services and the broker as steps in any order
--   Process, Process/*          the service contexts: Connections (common/xdb/db.go, migrate.go,
--                               common/xredis), boot and start; Wiring and Shutdown prove;
--                               Gateway: the context of service/user/api
--   Config, Config/*            common/config/types.go and internal/config of the four processes
--   Log, Log/Redaction          common/xdb/gormlogger.go
--   Tests, Tests/*              the theorems at concrete services, tables and messages
--
-- State is the record Db of each service, a list of rows per table. A statement is a function from
-- the contents to new contents and a value, or an error, and may fail at any call; a block of
-- statements is a Tx, sequenced by do; a transaction that reports an error leaves the contents as they
-- were. A handler keeps the name of its function in the source, in snake case: handle_order_event for
-- handleOrderEvent. What follows a statement whose result is inspected is a helper by clauses, such as
-- reserve_locked for the lines of reserveOrdered after its locking read.
--
-- Loops: WithRetry and the interceptor of the client recurse on the attempts that are left, which
-- their bounds give, so no run is cut short; the poller and the consumer recurse on the batch and on
-- the messages that are fetched. The doublings of Event/Json that find the spacing of a float64 stop
-- after 11, enough for 64 bits. Redaction recurses on fuel, the length of the statement: each round
-- takes a character or more.
--
-- Not modelled: the isolation of concurrent transactions, beyond what other sessions may do between a
-- read outside of a transaction and the write after it; times, which nothing compares but Redis and
-- Kafka; logs of the services and metrics, but for the labels that tell outcomes apart; entry points,
-- routes, generated code. The json of a message is given by its tree, and
-- a number from 2 ^ 54 on that passes through float64 by its exact value, where Go writes the shortest
-- digits. Texts are compared exactly, where
-- the database's collation ignores case.
pub mod Base
pub mod Config
pub mod Errors
pub mod Sql
pub mod Event
pub mod Outbox
pub mod Idempotent
pub mod Inventory
pub mod Http
pub mod Client
pub mod Log
pub mod Order
pub mod Cache
pub mod Saga
pub mod Process
pub mod User
pub mod Retry
pub mod Stream
pub mod Tests

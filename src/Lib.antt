-- ===== src/Lib.antt =====
-- An order platform built on event sourcing and CQRS: a write side that turns commands into events,
-- a log of the events in MongoDB, a topic in Kafka that carries them, and consumers that make the
-- read model and the archive from the topic.
--
-- The parts, the files that model them, and how they interact:
--   * api/models/events.py is Events: event types, payloads and factories. What `uuid4()` and
--     `time.time()` return is a `Stamp`, an argument of each call.
--   * api/services/aggregate.py is Aggregate: `OrderAggregate`, its replay by `_apply`, its five
--     guards. Aggregate/Lifecycle is the abstract view: the stages of an order, the moves between
--     them, and the histories that follow them. Aggregate/Bags has the replay for events in no
--     order, as a quotient of their listings.
--   * api/services/event_store.py is EventStore, over the collection of Services/Collection. An
--     `append` inserts one document; the unique indexes are `same_index_key`, and
--     EventStore/Indexes is `setup_indexes`. A collection has
--     legal histories (EventStore/History, `IsLegal`) when the events of each order follow the
--     lifecycle, with versions that count from 1.
--   * api/services/publisher.py is Publisher, over Redis and a topic (Services/Redis,
--     Services/Kafka). Both of its kinds of failure, before and after the write, are kept.
--   * api/services/payment_gateway.py is PaymentGateway; api/models/schemas.py is Schemas.
--   * api/routers/command_router.py is Commands, one definition for each handler: load, guard,
--     append, publish. Commands/Race has the steps of concurrent handlers: one prepares an event,
--     others run, and the event is appended later or never. Commands/Race/Alone has each handler
--     as such steps. Commands/Dispatch has the five commands
--     on an order as one data type.
--   * api/routers/query_router.py is Queries: `get_order` with its cache, `get_order_events`, and in
--     Queries/Statement and Queries/Listing `list_orders`, which builds a statement with numbered
--     placeholders and runs it on its parameters, and `get_stats`. The router and the consumer share
--     the database and Redis; Queries/Invalidation has the two side by side, Queries/Sharing
--     interleaves the steps of their calls, of which each call of the consumer is one.
--   * infra/postgres_init.sql is ReadModel, with the keys that it declares in ReadModel/Keys.
--     `project_to_postgres` of consumers/main.py is Projection: one transaction on the two tables.
--     The rest of that consumer is Consumer: the deduplication, the dead letter queue, the commits.
--     Consumer/Redelivery follows records that are delivered again, Consumer/ExactlyOnce runs of
--     which some records are of one event, and Consumer/Process is the process: what it opens, the
--     loop, and its `finally`.
--   * lambda_handlers/retry_handler.py is RetryHandler; RetryHandler/Trips follows one event from the
--     topic to the dead letter queue and back, and RetryHandler/Recovery a letter to the consumer's
--     next round. consumers/archiver.py is Archiver; Archiver/Restarts starts its process again and
--     again from the committed position.
--   * api/main.py is Lifespan: what the API opens and sets up, and closes after its requests.
--   * scripts/setup_localstack.py is Provisioning: its data in Provisioning, its functions in
--     Provisioning/Steps.
--
-- Python that changes state and may raise is `Exec` (Exec): a function from a state to a result and
-- a state, since what was written before an exception stays written. tenacity's `@retry` is
-- Exec/Retry, a recursion on the number of attempts, which the code fixes at 3; every other loop is
-- a recursion on the list it reads, so that no model runs out of fuel. Exec/Finally is `try` with
-- `finally`. Exec/Message is the test on the text of an insertion's exception.
--
-- Parameters: the services and platform types are records of operations with their documented
-- behaviour as laws, which every definition that uses them takes as an argument. These are floats
-- (Float, with no law at all), NUMERIC columns (Numeric, with none), a MongoDB collection, a Redis
-- server, a Kafka topic and a REST proxy before one, a consumer group's position, a PostgreSQL
-- database, an SQS queue, an S3 bucket and the buckets of an account, the indexes of a collection, the
-- clients that a process opens and closes, and the queues, roles, functions and rules of a cloud
-- account (Services). A request that the
-- proxy accepts has written its record unless the answer reports an error code for it, which the
-- handler does not read.
-- The order in which PostgreSQL comes upon rows is a plan, which each query may choose anew. orjson
-- and FastAPI's rendering are functions of the router's record `Readers`; that `loads` reads back
-- what `dumps` wrote is a hypothesis where it is needed. A call that raises may have taken effect or
-- not. Tests/Memory, Tests/Platform and Tests/Provisioned have a value of each service. A bucket is the list of what was put into it, a
-- topic the list of its records, of one partition; a clock reading is a number, and a document's
-- expiry is one in microseconds.
--
-- Not modelled: JSON text (a record's value is what it decodes to, or nothing), logging, waits
-- between attempts, the moments at which MongoDB's TTL index deletes single documents (EventStore has
-- what is left once it has caught up) and at which Redis drops a key, the clock between the three
-- attempts of one projection (they share a reading), statuses other than the six that the projection writes, the settings in config.py and
-- the functions of dependencies.py that hand out clients; scripts/benchmark.py, smoke_test.py and
-- test_pruning.py, which are clients of the running system.
pub mod Prelude
pub mod Float
pub mod Events
pub mod Exec
pub mod Services
pub mod Aggregate
pub mod EventStore
pub mod Publisher
pub mod PaymentGateway
pub mod Schemas
pub mod Commands
pub mod Numeric
pub mod ReadModel
pub mod Projection
pub mod Consumer
pub mod Queries
pub mod RetryHandler
pub mod Archiver
pub mod Lifespan
pub mod Provisioning
pub mod Tests

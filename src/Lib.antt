-- ===== src/Lib.antt =====
-- A verification library for the UNS metadata service, the Python package src/uns_metadata_sync.
--
-- The service reads Sparkplug births, keeps the metadata of their metrics in a database, and hands
-- every change of it to Canary. Six of its parts are modelled here.
--
-- The change listener, src/uns_metadata_sync/cdc/. A logical replication client
-- (logical_replication.py) reads messages from the position that a checkpoint store
-- (checkpoint.py) gives, decodes each into changes, calls a handler with every change, and saves
-- positions as it goes. The handler of the service (service.py, `_handle_change`) looks the metric
-- up, puts an event into the diff accumulator (diffing.py), and an update into the debounce buffer
-- (debounce.py). A flush (`_flush_ready`) takes from the buffer what has been quiet for the window,
-- pops its diffs from the accumulator, and hands a payload to a sink.
--   Cdc/Checkpoint: both stores. InMemory has `InMemoryCheckpointStore`, Persistent has
--   `PersistentCheckpointStore` with its file; Saves, Durability and Resets have their laws.
--   Cdc/Diffing: `DiffAccumulator`. Merge has what each key holds, Snapshots, Replay and Drain what
--   comes out.
--   Cdc/Debounce: `DebounceBuffer`, with `flush_due` in Due. Cap and Invariant have the bound and the
--   order, Sequence and Flush what a flush takes.
--   Cdc/Replication: Backoff has `ExponentialBackoff`, Client has `LogicalReplicationClient` over an
--   interface of checkpoint stores, which Stores fills with both; Stored, Progress, Poison and Cut
--   follow the stored position through a run, and Sinks what the handler works on.
--   Cdc/Listener: `CDCListenerService`, with `_handle_change`; Emitting has `_flush_ready`. Metadata has
--   the records it looks up, Payloads what reaches the sink, Handling and Flushing how the accumulator and the buffer stay in step, Service `process_once` over the client.
--
-- The Canary writer, src/uns_metadata_sync/canary/. A bounded queue feeds one writer
-- (client.py), which waits for its circuit breaker and its token bucket, takes a batch and sends
-- it, with retries, renewed sessions (session.py) and dead letters.
--   Canary/TokenBucket, Canary/CircuitBreaker, Canary/RetryPolicy, Canary/Metrics: the classes of
--   these names in client.py.
--   Canary/Session: `SAFSessionManager`; Tokens has what `get_token` leaves behind.
--   Canary/Client: `CanaryClient`, with `_dispatch` in Sending and `_acquire_batch` and
--   `_process_next_batch` in Acquiring. Retries, Dispatch and Outcomes are about `_dispatch`, Queue about
--   `_acquire_batch`, Accounts about a whole run.
--
-- The metadata repository, src/uns_metadata_sync/db/repository.py, over the tables of
-- src/uns_metadata_sync/migrations/sql/001_release_1_1_schema.up.sql.
--   Db/Table: a table with a serial key, and the statements on it, with the unique, check and
--   foreign key constraints as tests. Upserts has what every upsert promises.
--   Db/Devices and Db/Metrics: `upsert_device` and `upsert_metric`. Db/Properties: the columns of a
--   property (`_property_column_values`) and the check constraint of their table.
--   Db/PropertyTable: `upsert_metric_property` (Single) and `upsert_metric_properties_bulk`; Equality has
--   the comparison of rows, Grouping and Last the keys, Bulk, Again and
--   Written the statement and a second run.
--   Db/MetricsBulk: `upsert_metrics_bulk`. Rows is about the statement, Reads and Ids about the
--   map that it returns.
--
-- The migrations, src/uns_metadata_sync/migrations/runner.py.
--   Migrations: `apply_migrations` over the ledger of applied versions. Migrations/Rollback has
--   `rollback_last`.
--
-- The paths and tags, src/uns_metadata_sync/path_normalizer.py and canary_id.py.
--   Uns: `normalize_device_path` and `normalize_metric_path`. Scan and Clean are about one segment,
--   Paths about the joined path.
--   Uns/CanaryId: `CanaryIdGenerator` and `metric_path_to_canary_id`. Collisions is about what the
--   generator counts, Segments and Agreement about the tags of normalised paths.
--
-- The birth service, src/uns_metadata_sync/service.py and alias_cache.py. A message that arrives
-- (`on_message`) is decoded; a birth registers aliases, every metric gets its name from them or a
-- rebirth is requested, and the frame is persisted and appended to a file.
--   Birth/AliasCache: the registry as text; RoundTrip reads it back.
--   Birth/Compression: src/uns_metadata_sync/sparkplug_b_utils.py. Birth/Payload: what a payload holds,
--   `_metric_value` and `_props_to_dict`.
--   Birth/Aliases: `_ingest_birth`, `_resolve_name` and `_may_request_rebirth`. Resolution is about the
--   names, Throttle about the requests.
--   Birth/Topics, Birth/Frames, Birth/Persistence and Birth/Messages: `_topic_parts`, the payloads of a
--   frame, `_persist_frame` over an interface of the repository, and `on_message`. Frames/Payloads is
--   about properties, Persistence/Datatypes and Messages/Numbers about datatypes, Messages/Sequences
--   about whole sequences of messages. Persistence/Database fills the interface with the upserts of Db.
--   Birth/Runtime: `ServiceRuntime`, as the calls it makes on the other parts. Plan and Shutdown are about a run,
--   Diffs about the way of a diff to the queue of the Canary client.
--
-- Base has what the components share: Python's dict as a list of entries in the order of their
-- insertion (Base/Dict), lists, text and results.
--
-- How the state and the operations correspond. A class is a record, each method a function from
-- the record to the record, with the source's name less a leading underscore; a constructor is
-- `open_...`. A method that raises gives an option, a result, or a Boolean beside the state. A lock
-- that is held for a whole method makes it one step. The clock, random numbers, HTTP answers,
-- callbacks, the json module and the database are arguments; what is sent, slept or posted is kept
-- in a list. Times are whole ticks, and so are delays, but the wait for tokens is an exact quotient;
-- where the source has floats, their rounding is left out. Log sequence numbers and counters are
-- unsigned and unbounded, as Python's are. Module _ sections carry the parameters.
--
-- Bounds and fuel. The loop that enforces the cap of the debounce buffer runs on as much fuel as
-- there are entries, and each round takes one out. `_dispatch` runs on as much fuel as the policy
-- allows attempts. `_acquire_batch` runs over the rounds that it is given, since it may wait for
-- ever. `decimal` and `str` divide at most as often as their argument says, and the loops over batches
-- have as many rounds as there are items, since a batch takes one at least.
--
-- Not modelled: the threads that run the loops, MQTT, psycopg and its SQL, httpx, the generated
-- Sparkplug classes, settings and entry points, which are input and output or libraries; and the
-- lineage writer and the payload mapper.
pub mod Base
pub mod Cdc
pub mod Canary
pub mod Db
pub mod Migrations
pub mod Uns
pub mod Birth

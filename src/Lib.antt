-- ===== src/Lib.antt =====
-- A verification library for the plugins of an ETL engine (src/agora_plugins): the leases that let
-- one worker at a time run a pipeline, the Kafka source with its dead letters and its sink, the
-- acknowledgements of the Redis stream source, and the sinks of Postgres and BigQuery.
--
-- - Common: helpers. Dict.antt models Python's `dict` as an association list in insertion order,
--   Sets.antt `set`, Outcome.antt code that raises, Keys.antt equality of keys, Sort.antt `sorted`.
-- - Distributed: src/agora_plugins/distributed. Redis.antt is the interface to Redis, its
--   client and cjson, which are foreign: the commands that the Lua scripts call, with documented
--   laws; Redis/Calls.antt says what a network does with a call, and Redis/Memory.antt is a server
--   that satisfies the laws. Keys.antt and Primary.antt are primary_lease_store.py: a lease on one
--   server, with the scripts `_ACQUIRE_SCRIPT`, `_RELEASE_SCRIPT`, `_RENEW_SCRIPT` as functions on
--   it, and the operations of RedisPrimaryLeaseStore, which pass their books and the server along.
--   Redlock.antt is redlock_quorum.py and redlock_scripts.py: the same on a list of servers, of
--   which a majority counts. Operations.antt is lease_operations.py, which sends each operation to
--   the local fallback, the one server or the majority, over books that all three share.
--   Workers.antt is `list_workers` of worker_registry.py.
-- - Kafka: src/agora_plugins/kafka. Wire.antt is _schema_registry_wire.py, on bytes as numbers, and
--   SchemaCache.antt _schema_registry_cache.py. Cursor.antt is sources/_cursor_state.py: which
--   offsets are processed, committable and checkpointed; Resume.antt is its
--   `normalize_checkpoint_offsets`. Poison.antt is sources/_poison.py with the state of
--   _poison_controller.py: what happens to a record that cannot be deserialized. Delivery.antt is
--   sources/_delivery.py, _commit_runtime.py and `_emit_record` of _stream_runtime.py, with the
--   revocation of _consumer_runtime.py: how a record that went out becomes a committed offset, over
--   the cursor and the poison books. Delivery/History.antt runs whole histories of a source.
--   Consumer.antt is the interface to the consumer, and sources/_rebalance.py, which reads its
--   assignment. Controls.antt is sources/_operator_controls.py: the assigned and the paused
--   partitions. Positioning.antt is the rest of _consumer_runtime.py, which takes the assignment and
--   seeks to the first positions, over the cursor and the controls. Compaction.antt is
--   _dlq_compaction.py, in memory and in SQLite; Scan.antt is _dlq_source_scan_runtime.py, which feeds
--   it with the messages of the dead-letter topic and yields what is live. Sink.antt is
--   sinks/kafka.py: sends, confirmations and transactions.
-- - RedisStream: src/agora_plugins/redis/sources. Acks.antt is _ack_runtime.py, with the loop that
--   reconnects of _connection_runtime.py; Reclaim.antt the turns of the loop of _stream_runtime.py.
-- - Postgres: src/agora_plugins/postgres/sinks. Preparation.antt is _write_preparation.py, which fits
--   rows to the target table; Flush.antt _flush_runtime.py and _write_strategies.py, on a database
--   whose laws (Flush/Laws.antt) are those of a transaction; Errors.antt _poison_runtime.py.
-- - BigQuery: src/agora_plugins/bigquery/sinks. StorageWrite.antt is storage_write_flush.py.
--
-- State is passed along explicitly, and what raises ends in a value that says so. Loops are
-- structural recursion; the varint encoder, which shifts until nothing is left, recurs on the well-
-- founded order of numbers. Two loops have fuel. That which reconnects has one turn more than the
-- retry policy allows attempts, which is enough. That of the scan of dead letters ends where the
-- consumer has only so many polls left that deliver messages; its fuel is then (batches that wait +
-- polls to come) * (idle polls allowed + 1) + idle polls allowed. Foreign code that may refuse (a
-- broker, a dead-letter sink, a stream) is a function that says which of its calls return, on a
-- state of its own where it keeps one. Times of Redlock are microseconds, without the rounding of
-- floats; the text of a fencing token is read back from a lease as the number that its digits show.
-- Where the answer of a call may be lost, as of a COMMIT, an XACK or an append, the laws allow a
-- call that raised to have been carried out. A source or a sink is one task: nothing else changes
-- its state while it waits.
--
-- Not modelled: logging, tracing, metrics and times; waiting and tasks; the polling loop of the
-- Kafka source and the probes of its consumer; the registry's client and codecs; the sink of the
-- Kafka dead letters; what the Redis source does with its entries; of Postgres the text of SQL, the
-- DDL, the pool, the sources and the routing of failed rows; the other plugins and sinks (S3, cron,
-- Anthropic, load jobs of BigQuery, the Redis sink and its dead letters); the registration of
-- workers and the renewal loop of leases.
pub mod BigQuery
pub mod Common
pub mod Distributed
pub mod Kafka
pub mod Postgres
pub mod RedisStream

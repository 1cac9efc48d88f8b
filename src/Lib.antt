-- ===== src/Lib.antt =====
-- Rustium, a change-data-capture runtime: the delivery core, the checkpoint store, the streaming
-- state of the PostgreSQL, MySQL and SQL Server sources, the incremental snapshots of PostgreSQL,
-- the column transformer, the JSON encoder and the fields of the Avro and Protobuf encoders, the
-- Kafka sink, and the properties files of the Debezium bridge.
--
-- The program has a source connector per database, an encoder per wire format, sinks, a store of
-- checkpoints, and a runtime that takes records from the source, delivers their events to the sink
-- and saves the position that the source may resume from.
--
-- Core: crates/rustium-core/src/event.rs, traits.rs and error.rs. Core.Position has the source
-- positions with their sort keys and `is_after`; Core.Event the events, records, batches and
-- checkpoints; Core.Error the errors and `Result`. Core.Json is `serde_json::Value` as data.
-- Runtime: crates/rustium-core/src/runtime.rs. Runtime.World has the state: the shared status,
-- the pending batch and the other locals of `run_inner`, and a trace of all that the runtime did
-- and received, newest first. Runtime.Retry has `wait_for_sink_retry` and the three operations of
-- the sink under it, Runtime.Flush `flush_batch`, Runtime.Consume `consume_record`,
-- Runtime.Shutdown the end of `run_inner` and of `run`, and Runtime.Run the loop and the whole
-- run. An asynchronous method is a function from a state to an outcome and a state.
-- Store: crates/rustium-state/src/lib.rs. Its operations, Store.Sql the statements and what SQLite
-- documents of them, Store.Map the map that a store promises, Store.Refine the calls on both, and
-- Store.Version the storage version.
-- Sources: what the streaming sources share in text, `should_skip` (Sources.Resume) and
-- `fill_unavailable` (Sources.Fill).
-- SqlServer: crates/rustium-sqlserver/src/source.rs. SqlServer.Lsn has the log sequence numbers and
-- their text, SqlServer.Stream `CdcCursor` and `StreamingState`, SqlServer.Change the event of one
-- row of the change tables, and SqlServer.Batch `read_change_batch`; below it, how pages compose
-- (Paging), what one read gives of a log (Page) and reads up to its end (Drain), what the cursor
-- leaves for the next query (Cursor), a restart (Restart) and the order of the records (Order).
-- MySql: crates/rustium-mysql/src/source.rs. MySql.Query classifies the statements of query events,
-- MySql.Stream has `StreamingState`, and MySql.Stream.Rows `convert_rows`.
-- Postgres: crates/rustium-postgresql/src/incremental_snapshot.rs, with the progress and the
-- table's schema from schema_history.rs. Postgres.Controller has the state of
-- `IncrementalSnapshotController`, Postgres.Signal the parsing of signals, Postgres.Snapshot that
-- of a transaction snapshot, Postgres.Chunk the preparation of a chunk, Postgres.Window the window
-- of a chunk up to its close, Postgres.Stop `stop_snapshot`, and Postgres.Handle `handle_signal`
-- and the calls between transactions. Postgres.Invariant has the invariant of the controller and,
-- below it, the calls that the connector makes as a relation between states.
-- Postgres.Stream: crates/rustium-postgresql/src/source.rs. `StreamingState` and, in the modules
-- below it, the events of the stream and the records made of them. Postgres.Resume has the choice
-- between checkpoint and slot, Postgres.Resume.Retry the budget of the connection's retries.
-- Postgres.History has the connector's state in a checkpoint, of schema_history.rs, and
-- Postgres.History.Relation the schema of a table from a relation message.
-- Columns: crates/rustium-column-transform/src/lib.rs, with the rules of
-- crates/rustium-config/src/lib.rs. `ColumnTransformer::new` and the transformation of an event;
-- Columns.Types reads the types of columns, and Columns.Hash the bytes that are hashed.
-- Formats: Formats.Json and Formats.Json.Encode have the Debezium encoder of
-- crates/rustium-format-json/src/lib.rs and `DataValue::to_json`, Formats.Names the names of Avro
-- fields (crates/rustium-format-avro/src/lib.rs) and Formats.Numbers the numbers of Protobuf fields
-- (crates/rustium-format-protobuf/src/lib.rs).
-- Cache: the least recently used cache that these two encoders have for parsed schemas, and the
-- Kafka sink for the ids of schemas.
-- Kafka: crates/rustium-sink-kafka/src/lib.rs. Its write, and in Kafka.Contract the settings of its
-- producer.
-- Config: crates/rustium-config/src/debezium.rs. Config.Properties has the parser of properties
-- files, and Config.Properties.Written the file that `write_managed_config` of
-- crates/rustium-debezium/src/source.rs makes for the Debezium Server that it starts.
-- Config.Statements reads lists and initial statements, and Config.Transformations the rules of
-- columns that properties give.
-- Common has what the parts share, and Tests runs of the model at concrete inputs.
--
-- The runtime meets the sink, the store, the encoder, the source's task, the clock and the
-- cancellation only through `Env`, a record of functions from the trace to an answer; a theorem
-- about every `Env` holds whatever they answer, and whenever. The rounds of the `select!` loop are a
-- list, so a theorem about every list holds for every order of ticks, records, errors and
-- cancellation. The controller meets PostgreSQL only through `Database`: the answer to a chunk's
-- query, the text of a key and the compilation of a pattern. A stream meets its driver, the hash of
-- an event's identity, the clock, the conversion of a row and the column transformer through a
-- record `Parts`, and the store meets SQLite and serde_json through `Sqlite` and `Serde`. Laws of
-- a library are records of their own (`HexLaws`, `SqliteLaws`, `SerdeLaws`). The transformer meets
-- the regular expressions and the digests through `Crates`, the JSON encoder the libraries of texts
-- through `JsonCrates`, and the Kafka sink the schema registry and the producer through `Cluster`.
--
-- A retry loop runs on fuel, one unit for each attempt. A limit of n retries allows n + 1 attempts,
-- so fuel above n is never used up; without a limit no fuel is enough, since the code may retry
-- forever. The other loops are structural. Counters of type u64 wrap around. Positions, lengths and
-- timestamps are natural numbers, a string is the list of its code points, a hash map the list of
-- its entries, and a message keeps the fixed part of its text.
--
-- Not modelled: the SQL of `prepare_chunk` and of the sources, the conversion of values read from a
-- database, the main loops of the sources and their initial snapshots, the logging and the other
-- database connectors; of the formats, the schemas, the values of Avro and Protobuf and the JSON
-- envelope of the program's own; of the configuration, its validation and most of the mapping of
-- Debezium's properties; the signals, the records that the bridge receives, the server and the
-- command line.
pub mod Common
pub mod Core
pub mod Runtime
pub mod Sources
pub mod SqlServer
pub mod MySql
pub mod Cache
pub mod Columns
pub mod Config
pub mod Formats
pub mod Kafka
pub mod Store
pub mod Postgres
pub mod Tests

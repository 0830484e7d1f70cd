-- ===== src/Lib.antt =====
-- uxc: a verification library for the parts of the program that decide: what of a poll is new, what is
-- stored and read, what arguments an operation gets, and which credential or schema an endpoint has.
--
-- How the parts interact. The daemon polls an endpoint for a managed source: a turn of its loop
-- (Daemon/PollLoop) builds the request from the checkpoint of a runner (Poll), fetches, and hands the
-- response to the runner, which picks the items that are new by the strategy of the subscription, moves
-- its checkpoint, and reports. The turn commits the items as events of the source's stream together
-- with the checkpoint, and keeps the row of the source in step (Streams), and readers page through the
-- stream. Subscriptions over HTTP streams take their events out of the text that has come
-- (Daemon/Frames), and those of MCP sessions read the session's history (Daemon/Fanout). A request goes
-- out with arguments that are read from the command line (Commands, Arguments) and coerced to the
-- schema of its operation (Coercion), under the credential of the rule that its endpoint is bound to
-- (Bindings), to an MCP session that holds the keys it claims (Daemon/Exclusive); schema documents are
-- found by a mapping (Mapping) and kept in the schema cache (Cache). The daemon writes a log of what it
-- does (DaemonLog).
--
-- Base, Base/*: the shared names, Boolean tests, lists over the native numbers, results, integers, texts
--   as lists of characters, max_by, comparisons by several keys, and what is read of a parsed URL.
-- Json: the values of serde_json, and the record Serde of what the code calls of serde_json, sha2 and
--   the floats: parameters of the model.
-- Poll, Poll/*: src/subscription_poll.rs. Poll has the configuration and the checkpoint; Validate is
--   PollSubscriptionConfig::validate; Keys is push_seen_key, filter_by_item_key and
--   filter_by_content_hash, whose loops are one, filter_by_key; Compare is compare_json_values and
--   is_newer_item; Watermark is filter_by_watermark, with scan for its loop; Cursor is
--   build_request_args, derive_cursor_from_items and increment_cursor_value; Etag is
--   should_invalidate_etag; Runner is process_response. An operation of the runner returns its result
--   beside the checkpoint that it leaves, also when it fails.
-- Streams, Streams/*: src/managed_source_streams.rs. Streams has the tables as lists of rows; Tables the
--   SQL that is used of events and streams; Retention is apply_retention_tx and trim_stream_before;
--   Append is append_event; Read is read_stream and stream_info; Sources the operations on the table of
--   sources, with the parser of a stored checkpoint as an argument; Checkpoint is append_events_and_store_poll_checkpoint; Reachable has the sequences of
--   operations. An operation takes the tables and returns the ones that it commits; the store runs one
--   operation at a time, under its lock. A file's child modules hold the proofs.
-- Daemon, Daemon/*: src/daemon.rs. PollLoop is a turn of run_managed_source_poll, with the fetch, the
--   commit, a failure and the synchronised row, and PollLoop/Import the checkpoint file of older
--   versions; the clock, the answer of the endpoint and requests to stop are arguments of a turn.
--   PollLoop/HeaderMap is of src/subscription_poll.rs. Jitter is the wait between turns; JobView the
--   report of a runner; Frames the draining of NDJSON lines and server-sent events; Fanout is
--   SessionNotificationFanout; Activity is DaemonActivity with the watchdog; Exclusive is
--   get_or_create_stdio by the exclusive keys of sessions, with what processes do as arguments, and a
--   request as one step; Exclusive/Reaper is what cleanup_idle does with these sessions.
-- Commands, Commands/*: src/main.rs, what is read of the command line around the package that parses it:
--   GlobalArgs and Globals are on normalize_global_args, Words, Inputs and External on
--   parse_external_command and normalize_operation_inputs, and Handed on what they hand to src/cli.rs.
-- DaemonLog, DaemonLog/*: src/daemon_log.rs. DaemonLog is the worker, with what the file system answers
--   as arguments; Files and Rotation are on the log and its backups, Written on one line, Worker on many;
--   Redaction is redact_value.
-- Arguments, Arguments/*: src/cli.rs, ArgumentParser. The scan of a path is one recursion over its text
--   with the state of the loop; a path is inserted into a value, which is returned.
-- Coercion, Coercion/*: src/arg_coercion.rs. Values has the coercion of single values; Walk the walk
--   over schema and value, with the calls of coerce_value on parts of the schema as a parameter of its
--   step; Fuel ties it; Prepare is prepare_execute_args. Conforms says what a value of a schema is
--   like, and Allowed that the code's test of constants and enumerations is what Conforms says. The entries of an object stay in their order.
-- Bindings, Bindings/*: src/auth/mod.rs, AuthBindings. Mapping, Mapping/*: src/schema_mapping/mod.rs.
--   The parser of URLs is an argument of both.
-- Cache, Cache/*: src/cache/mod.rs and src/cache/storage.rs, with the directory as a list of files and
--   the record Host of what the code calls of Rust's library on texts and paths.
--
-- Numbers. A u64 is a natural number; additions that saturate or wrap are written out. SQLite keeps
-- integers up to the largest i64, so the theorems on streams ask for counters and limits below it. A
-- JSON text in a column or a file stands for the value that it encodes; what is read of a checkpoint
-- that was written is read_back, since a null in a field is read as no value, and what is read of another
-- value, floats among them, is a parameter.
--
-- Fuel. Most loops are structural recursions. The draining of a buffer runs on the length of the buffer
-- and one more, which is enough since every event takes a character or more away. coerce_value runs on
-- the depth of the schema and one more, which is enough since every call goes down the schema.
--
-- Not modelled: the daemon's socket server, its dispatch of requests, its MCP sessions apart from their
-- exclusive keys, the start of its logger, the regular expressions that redact texts, and failures of
-- the database while the row of a source is synchronised; the protocol adapters; of authentication the
-- credential files, secret sources, signers and OAuth exchanges; the rest of the command line, the
-- subscriptions over other transports and e-mail: they are mostly exchanges with other processes,
-- services and files. Of the store the creation and migration of its schema and the plain listings; of
-- the cache failures of the file system and the statistics.
pub mod Arguments
pub mod Base
pub mod Bindings
pub mod Mapping
pub mod Cache
pub mod Coercion
pub mod Commands
pub mod Daemon
pub mod DaemonLog
pub mod Json
pub mod Poll
pub mod Streams

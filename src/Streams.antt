-- ===== src/Streams.antt =====
-- src/managed_source_streams.rs: the tables of the store of managed sources. A table is the list of
-- its rows, oldest first. The text that a JSON value is stored as stands for the value: `V` is the
-- type of payloads, `S` that of specifications and `C` that of poll checkpoints, of which what is read
-- may differ from what was written (`load_poll_checkpoint`).
pub mod Tables
pub mod Retention
pub mod Append
pub mod Read
pub mod Sources
pub mod Checkpoint
pub mod Reachable
mod Tests
use uxc.Base.{ℕ, String, List, Option}

-- A row of `stream_events`.
pub record EventRow (V : Type 0) : Type 0 where
  pub stream_id : String
  pub offset : ℕ
  pub ingested_at_unix : ℕ
  pub raw_payload : V

-- A row of `event_streams`.
pub record StreamRow : Type 0 where
  pub stream_id : String
  pub namespace : String
  pub source_key : String
  pub created_at_unix : ℕ
  pub retention_max_rows : ℕ
  pub retention_max_age_secs : ℕ
  pub next_event_offset : ℕ

-- `SourceRuntimeUpdate`: the columns that a running source updates.
pub record RuntimeUpdate : Type 0 where
  pub status : String
  pub updated_at_unix : ℕ
  pub started_at_unix : Option ℕ
  pub stopped_at_unix : Option ℕ
  pub last_error : Option String
  pub last_success_at_unix : Option ℕ
  pub last_event_at_unix : Option ℕ
  pub reconnect_count : ℕ
  pub written_events : ℕ

-- `ManagedSourceRecord`; the columns that a running source updates stand together in `runtime`.
pub record SourceRecord (S : Type 0) : Type 0 where
  pub namespace : String
  pub source_key : String
  pub spec_json : S
  pub spec_key : String
  pub run_id : String
  pub stream_id : String
  pub created_at_unix : ℕ
  pub runtime : RuntimeUpdate

-- A row of `managed_sources`.
pub record SourceRow (S C : Type 0) : Type 0 where
  pub source : SourceRecord S
  pub poll_checkpoint : Option C

pub record Db (V S C : Type 0) : Type 0 where
  pub sources : List (SourceRow S C)
  pub streams : List StreamRow
  pub events : List (EventRow V)

-- `PendingStreamEvent`
pub record PendingEvent (V : Type 0) : Type 0 where
  pub ingested_at_unix : ℕ
  pub payload : V

pub data StoreError : Type 0 where
  -- `query_row` without a row
  no_rows : StoreError
  -- a second row with one primary key
  primary_key : StoreError
  source_row_not_found : StoreError
  stream_mismatch : StoreError
  source_row_changed : StoreError
  cursor_out_of_range : ℕ → ℕ → StoreError

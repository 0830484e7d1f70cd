-- ===== src/Streams/Sources.antt =====
-- src/managed_source_streams.rs: the operations on the table of managed sources, whose primary key is
-- (namespace, source key), and the poll checkpoint that a row keeps for its run.
pub mod Lookup
use mathlib.Core.Option
use uxc.Base.{
  ℕ, ◌*◌, String, Bool, not, ◌&&◌, Option, none, some, List, [], ◌∷◌, ◌++◌, str_eq, ltb,
  if◌then◌else◌, is_some, length, find, keep,
}
use uxc.Streams.{StreamRow, SourceRecord, SourceRow, RuntimeUpdate, Db}
use uxc.Streams.Tables.{find_stream}

abbrev pub default_retention_max_rows : ℕ
default_retention_max_rows = 10000

abbrev pub default_retention_max_age_secs : ℕ
default_retention_max_age_secs = 7 * 24 * 60 * 60

module _ {S C : Type 0} where
  -- `where namespace = ?1 and source_key = ?2`
  abbrev pub has_key : String → String → SourceRow S C → Bool
  has_key ns key row = str_eq row.source.namespace ns && str_eq row.source.source_key key

  -- `where namespace = ?1 and source_key = ?2 and run_id = ?3`
  abbrev pub has_run : String → String → String → SourceRow S C → Bool
  has_run ns key run row = has_key ns key row && str_eq row.source.run_id run

  -- `update managed_sources set … where …`
  unfoldable pub update_where :
      (SourceRow S C → Bool)
      → (SourceRow S C → SourceRow S C)
      → List (SourceRow S C)
      → List (SourceRow S C)
  update_where p f [] = []
  update_where p f (row ∷ rows) = (if p row then f row else row) ∷ update_where p f rows

  abbrev pub set_checkpoint : Option C → SourceRow S C → SourceRow S C
  set_checkpoint c row = record row { poll_checkpoint = c }

  -- The columns that a conflict keeps are the key and `created_at_unix`.
  abbrev pub overwrite : SourceRecord S → SourceRow S C → SourceRow S C
  overwrite new row = record {
    source = record new { created_at_unix = row.source.created_at_unix };
    poll_checkpoint = none;
  }

  -- `insert into managed_sources … on conflict(namespace, source_key) do update`
  unfoldable pub upsert_row : SourceRecord S → List (SourceRow S C) → List (SourceRow S C)
  upsert_row new [] = record { source = new; poll_checkpoint = none } ∷ []
  upsert_row new (row ∷ rows) =
      if has_key new.namespace new.source_key row
      then overwrite new row ∷ rows
      else row ∷ upsert_row new rows

-- The column of a row that was found; `flatten` reads a null like a missing row.
abbrev pub checkpoint_of : {S C : Type 0} → Option (SourceRow S C) → Option C
checkpoint_of none = none
checkpoint_of (some row) = row.poll_checkpoint

abbrev pub stream_of : {S : Type 0} → SourceRecord S → StreamRow
stream_of source = record {
  stream_id = source.stream_id;
  namespace = source.namespace;
  source_key = source.source_key;
  created_at_unix = source.created_at_unix;
  retention_max_rows = default_retention_max_rows;
  retention_max_age_secs = default_retention_max_age_secs;
  next_event_offset = 1;
}

-- `insert or ignore into event_streams`
unfoldable pub insert_stream : StreamRow → List StreamRow → List StreamRow
insert_stream new ss = if is_some (find_stream new.stream_id ss) then ss else ss ++ new ∷ []

module _ {V S C : Type 0} where
  unfoldable pub get_source : String → String → Db V S C → Option (SourceRecord S)
  get_source ns key db = Option.map (λ row. row.source) (find (has_key ns key) db.sources)

  unfoldable pub upsert_source : SourceRecord S → Bool → Db V S C → Db V S C
  upsert_source source create_stream db = record db {
    sources = upsert_row source db.sources;
    streams = if create_stream then insert_stream (stream_of source) db.streams else db.streams;
  }

  unfoldable pub update_source_runtime : String → String → RuntimeUpdate → Db V S C → Db V S C
  update_source_runtime ns key update db = record db {
    sources =
        update_where (has_key ns key)
          (λ row. record row { source = record row.source { runtime = update } }) db.sources;
  }

  unfoldable pub clear_source_job :
      String → String → String → ℕ → Option ℕ → Option String → Db V S C → Db V S C
  clear_source_job ns key status updated_at stopped_at last_error db = record db {
    sources =
        update_where (has_key ns key)
          (λ row. record row {
            source = record row.source {
              runtime = record row.source.runtime {
                status = status;
                updated_at_unix = updated_at;
                stopped_at_unix = stopped_at;
                last_error = last_error;
              };
            };
          })
          db.sources;
  }

  unfoldable pub delete_source : String → String → Db V S C → Db V S C
  delete_source ns key db = record db {
    sources = keep (λ row. not (has_key ns key row)) db.sources;
  }

  -- `select poll_checkpoint_json`
  unfoldable pub poll_checkpoint_json : String → String → String → Db V S C → Option C
  poll_checkpoint_json ns key run db = checkpoint_of (find (has_run ns key run) db.sources)

  -- The text of the column is parsed; `from_str` says what is read of a text that was written.
  unfoldable pub load_poll_checkpoint :
      {A : Type 0} → (C → A) → String → String → String → Db V S C → Option A
  load_poll_checkpoint from_str ns key run db =
      Option.map from_str (poll_checkpoint_json ns key run db)

  -- With whether a row was changed.
  unfoldable pub store_poll_checkpoint_if_missing :
      String → String → String → C → Db V S C → Bool × Db V S C
  store_poll_checkpoint_if_missing ns key run checkpoint db =
      let vacant =
        λ (row : SourceRow S C). has_run ns key run row && not (is_some row.poll_checkpoint) in
      (
        ltb 0 (length (keep vacant db.sources)),
        record db { sources = update_where vacant (set_checkpoint (some checkpoint)) db.sources },
      )

  unfoldable pub clear_poll_checkpoint : String → String → String → Db V S C → Db V S C
  clear_poll_checkpoint ns key run db = record db {
    sources = update_where (has_run ns key run) (set_checkpoint none) db.sources;
  }

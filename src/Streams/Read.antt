-- ===== src/Streams/Read.antt =====
-- src/managed_source_streams.rs: `read_stream` and `stream_info`.
pub mod Pages
use mathlib.Core.Option
use uxc.Base.{
  saturating_add, ℕ, min, String, Bool, false, ◌&&◌, Option, none, some, List, [], ◌∷◌, map, ltb,
  ◌==◌, if◌then◌else◌, unwrap_or, length, take, keep,
}
use uxc.Base.Result.{Result, ok, err}
use uxc.Streams.{EventRow, StreamRow, Db, StoreError, cursor_out_of_range}
use uxc.Streams.Tables.{max?, of_stream, rows_of, order_by_offset, max_offset, find_stream}

-- `StreamReadPage`
pub record ReadPage (V : Type 0) : Type 0 where
  pub events : List (EventRow V)
  pub next_after_offset : ℕ
  pub has_more : Bool

abbrev past_end : ℕ → Option ℕ → Bool
past_end after none = false
past_end after (some latest) = ltb latest after

-- `events.last().map(|event| event.offset).unwrap_or(after_offset)`
abbrev pub last_offset : {V : Type 0} → List (EventRow V) → ℕ → ℕ
last_offset [] after = after
last_offset (e ∷ es) after = last_offset es e.offset

-- The page of the rows that the query returned.
unfoldable pub page_of : {V : Type 0} → ℕ → ℕ → List (EventRow V) → ReadPage V
page_of after limit rows =
    let more = ltb limit (length rows) in
    let events = if more then take limit rows else rows in
    record { events = events; next_after_offset = last_offset events after; has_more = more }

module _ {V S C : Type 0} where
  unfoldable pub read_stream : String → ℕ → ℕ → Db V S C → Result StoreError (ReadPage V)
  read_stream id after limit db =
      let latest = max_offset (rows_of id db.events) in
      if past_end after latest
      then err (cursor_out_of_range after (unwrap_or latest 0))
      else if limit == 0
      then ok (record { events = []; next_after_offset = after; has_more = false })
      else ok (
          page_of after limit (
            take (saturating_add limit 1)
              (order_by_offset (keep (λ e. of_stream id e && ltb after e.offset) db.events))))

-- `StreamInfoRecord`
pub record StreamInfo : Type 0 where
  pub stream_id : String
  pub namespace : String
  pub source_key : String
  pub created_at_unix : ℕ
  pub earliest_offset : Option ℕ
  pub latest_offset : Option ℕ
  pub latest_event_at_unix : Option ℕ
  pub event_count : ℕ
  pub retention_max_rows : ℕ
  pub retention_max_age_secs : ℕ

abbrev min? : Option ℕ → ℕ → ℕ
min? none n = n
min? (some m) n = min m n

-- `min(offset)` and `max(ingested_at_unix)`
unfoldable pub min_offset : {V : Type 0} → List (EventRow V) → Option ℕ
min_offset [] = none
min_offset (e ∷ es) = some (min? (min_offset es) e.offset)

unfoldable pub max_ingested_at : {V : Type 0} → List (EventRow V) → Option ℕ
max_ingested_at [] = none
max_ingested_at (e ∷ es) = some (max? (max_ingested_at es) e.ingested_at_unix)

unfoldable pub info_of : {V : Type 0} → List (EventRow V) → StreamRow → StreamInfo
info_of rows stream = record {
  stream_id = stream.stream_id;
  namespace = stream.namespace;
  source_key = stream.source_key;
  created_at_unix = stream.created_at_unix;
  earliest_offset = min_offset rows;
  latest_offset = max_offset rows;
  latest_event_at_unix = max_ingested_at rows;
  event_count = length rows;
  retention_max_rows = stream.retention_max_rows;
  retention_max_age_secs = stream.retention_max_age_secs;
}

unfoldable pub stream_info : {V S C : Type 0} → String → Db V S C → Option StreamInfo
stream_info id db =
    Option.map (λ stream. info_of (rows_of stream.stream_id db.events) stream)
      (find_stream id db.streams)

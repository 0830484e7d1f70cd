-- ===== src/Streams/Append.antt =====
-- src/managed_source_streams.rs: `append_event`, and the events of
-- `append_events_and_store_poll_checkpoint`. A transaction that fails changes nothing.
pub mod Counter
pub mod Log
use uxc.Base.{saturating_add, ℕ, String}
use uxc.Base.Result.{Result, ok, ok_or, ◌>>=◌}
use uxc.Streams.{Db, StoreError, no_rows}
use uxc.Streams.Tables.{insert_event, find_stream, set_next_offset}
use uxc.Streams.Retention.{apply_retention}

module _ {V S C : Type 0} where
  unfoldable pub append_event : String → ℕ → V → Db V S C → Result StoreError (ℕ × Db V S C)
  append_event id now payload db = do
    stream ← ok_or (find_stream id db.streams) no_rows
    let offset = stream.next_event_offset
    events ←
        insert_event
          (record {
            stream_id = id;
            offset = offset;
            ingested_at_unix = now;
            raw_payload = payload;
          })
          db.events
    db' ← apply_retention id now (record db {
      events = events;
      streams = set_next_offset id (saturating_add offset 1) db.streams;
    })
    ok (offset, db')

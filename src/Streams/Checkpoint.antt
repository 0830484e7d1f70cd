-- ===== src/Streams/Checkpoint.antt =====
-- src/managed_source_streams.rs: `append_events_and_store_poll_checkpoint`, one transaction. The store
-- that it returns is the one that it commits; a transaction that fails changes nothing.
pub mod Batch
pub mod Atomic
use uxc.Base.{
  ℕ, String, not, Option, none, some, List, [], ◌∷◌, ◌++◌, str_eq, ◌==◌, length, find, keep,
  saturating_add,
}
use uxc.Base.Result.{Result, ok, ok_or, bail_if, ◌>>=◌, ◌>>◌}
use uxc.Streams.{
  EventRow, StreamRow, Db, PendingEvent, StoreError, no_rows, source_row_not_found, stream_mismatch,
  source_row_changed,
}
use uxc.Streams.Tables.{insert_event, find_stream, set_next_offset}
use uxc.Streams.Retention.{apply_retention}
use uxc.Streams.Sources.{has_run, update_where, set_checkpoint}

-- The loop: the events of the table, the offsets given out, the next offset and the time of the last
-- event.
pub record Inserted (V : Type 0) : Type 0 where
  pub events : List (EventRow V)
  pub offsets : List ℕ
  pub next_offset : ℕ
  pub latest_ingested_at : Option ℕ

unfoldable pub insert_events :
    {V : Type 0} → String → List (PendingEvent V) → Inserted V → Result StoreError (Inserted V)
insert_events id [] at = ok at
insert_events id (p ∷ ps) at = do
  events ←
      insert_event
        (record {
          stream_id = id;
          offset = at.next_offset;
          ingested_at_unix = p.ingested_at_unix;
          raw_payload = p.payload;
        })
        at.events
  insert_events id ps (record {
    events = events;
    offsets = at.offsets ++ at.next_offset ∷ [];
    next_offset = saturating_add at.next_offset 1;
    latest_ingested_at = some p.ingested_at_unix;
  })

-- `select next_event_offset`, where there are events
unfoldable pub first_offset :
    {V : Type 0} → String → List (PendingEvent V) → List StreamRow → Result StoreError ℕ
first_offset id [] ss = ok 0
first_offset id (p ∷ ps) ss = do
  stream ← ok_or (find_stream id ss) no_rows
  ok stream.next_event_offset

module _ {V S C : Type 0} where
  -- `if let Some(now_unix) = latest_ingested_at_unix`
  unfoldable pub close : String → Option ℕ → ℕ → Db V S C → Result StoreError (Db V S C)
  close id none next db = ok db
  close id (some now) next db =
      apply_retention id now (record db { streams = set_next_offset id next db.streams })

  unfoldable pub append_events_and_store_poll_checkpoint :
      String
      → String
      → String
      → String
      → List (PendingEvent V)
      → C
      → Db V S C
      → Result StoreError (List ℕ × Db V S C)
  append_events_and_store_poll_checkpoint ns key run id pending checkpoint db = do
    row ← ok_or (find (has_run ns key run) db.sources) source_row_not_found
    bail_if (not (str_eq row.source.stream_id id)) stream_mismatch
    next ← first_offset id pending db.streams
    done ←
        insert_events id pending (record {
          events = db.events;
          offsets = [];
          next_offset = next;
          latest_ingested_at = none;
        })
    bail_if (not (length (keep (has_run ns key run) db.sources) == 1)) source_row_changed
    db' ← close id done.latest_ingested_at done.next_offset (record db {
      sources = update_where (has_run ns key run) (set_checkpoint (some checkpoint)) db.sources;
      events = done.events;
    })
    ok (done.offsets, db')

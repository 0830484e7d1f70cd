-- ===== src/Streams/Retention.antt =====
-- src/managed_source_streams.rs: `apply_retention_tx` and `trim_stream_before`.
pub mod Newest
use uxc.Base.{
  ℕ, ◌-◌, String, Bool, true, false, List, [], ◌∷◌, ltb, ◌==◌, if◌then◌else◌, length, take,
}
use uxc.Base.Result.{Result, ok, ok_or, ◌>>=◌}
use uxc.Streams.{EventRow, Db, StoreError, no_rows}
use uxc.Streams.Tables.{rows_of, delete_rows, order_by_offset, find_stream}

-- `where rowid in (…)`: the rows of one stream are told apart by their offsets, its primary key.
abbrev pub is_among : {V : Type 0} → List (EventRow V) → EventRow V → Bool
is_among [] e = false
is_among (v ∷ vs) e = if v.offset == e.offset then true else is_among vs e

-- The two deletions of `apply_retention_tx`: the rows that are too old, and of the rest the oldest
-- that are too many.
unfoldable pub delete_expired : {V : Type 0} → String → ℕ → List (EventRow V) → List (EventRow V)
delete_expired id cutoff events = delete_rows id (λ e. ltb e.ingested_at_unix cutoff) events

unfoldable pub delete_overflow : {V : Type 0} → String → ℕ → List (EventRow V) → List (EventRow V)
delete_overflow id max_rows events =
    let count = length (rows_of id events) in
    if ltb max_rows count
    then delete_rows id (is_among (take (count - max_rows) (order_by_offset (rows_of id events))))
        events
    else events

module _ {V S C : Type 0} where
  unfoldable pub apply_retention : String → ℕ → Db V S C → Result StoreError (Db V S C)
  apply_retention id now db = do
    stream ← ok_or (find_stream id db.streams) no_rows
    ok (record db {
      events =
          delete_overflow id stream.retention_max_rows
            (delete_expired id (now - stream.retention_max_age_secs) db.events);
    })

  -- `trim_stream_before`, with the number of deleted rows
  unfoldable pub trim_stream_before : String → ℕ → Db V S C → ℕ × Db V S C
  trim_stream_before id before db =
      let kept = delete_rows id (λ e. ltb e.offset before) db.events in
      (length db.events - length kept, record db { events = kept })

-- ===== src/Streams/Tables.antt =====
-- The SQL statements of src/managed_source_streams.rs on the tables of events and streams: what a
-- `where` clause selects, `order by offset asc`, `max(offset)`, an insert under a primary key.
pub mod Rows
pub mod Ascending
use uxc.Base.{
  ℕ, max, String, Bool, true, false, not, ◌&&◌, Option, none, some, List, [], ◌∷◌, ◌++◌, str_eq,
  leb, ◌==◌, if◌then◌else◌, keep,
}
use uxc.Base.Result.{Result, ok, err}
use uxc.Streams.{EventRow, StreamRow, StoreError, primary_key}

-- `where stream_id = ?1`
abbrev pub of_stream : {V : Type 0} → String → EventRow V → Bool
of_stream id e = str_eq e.stream_id id

unfoldable pub rows_of : {V : Type 0} → String → List (EventRow V) → List (EventRow V)
rows_of id events = keep (of_stream id) events

-- `delete from stream_events where stream_id = ?1 and …`
unfoldable pub delete_rows :
    {V : Type 0} → String → (EventRow V → Bool) → List (EventRow V) → List (EventRow V)
delete_rows id cond events = keep (λ e. not (of_stream id e && cond e)) events

insert_by_offset : {V : Type 0} → EventRow V → List (EventRow V) → List (EventRow V)
insert_by_offset e [] = e ∷ []
insert_by_offset e (f ∷ fs) =
    if leb e.offset f.offset then e ∷ f ∷ fs else f ∷ insert_by_offset e fs

-- `order by offset asc`
unfoldable pub order_by_offset : {V : Type 0} → List (EventRow V) → List (EventRow V)
unfolding insert_by_offset
order_by_offset [] = []
order_by_offset (e ∷ es) = insert_by_offset e (order_by_offset es)

-- `max(offset)`
abbrev pub max? : Option ℕ → ℕ → ℕ
max? none n = n
max? (some m) n = max m n

unfoldable pub max_offset : {V : Type 0} → List (EventRow V) → Option ℕ
max_offset [] = none
max_offset (e ∷ es) = some (max? (max_offset es) e.offset)

-- Whether the primary key of an event is taken.
unfoldable pub has_event : {V : Type 0} → String → ℕ → List (EventRow V) → Bool
has_event id offset [] = false
has_event id offset (e ∷ es) =
    if of_stream id e && (e.offset == offset) then true else has_event id offset es

-- `insert into stream_events`
unfoldable pub insert_event :
    {V : Type 0} → EventRow V → List (EventRow V) → Result StoreError (List (EventRow V))
unfolding has_event
insert_event e events =
    if has_event e.stream_id e.offset events then err primary_key else ok (events ++ e ∷ [])

-- `select … from event_streams where stream_id = ?1`
unfoldable pub find_stream : String → List StreamRow → Option StreamRow
find_stream id [] = none
find_stream id (s ∷ ss) = if str_eq s.stream_id id then some s else find_stream id ss

-- `update event_streams set next_event_offset = ?2 where stream_id = ?1`
unfoldable pub set_next_offset : String → ℕ → List StreamRow → List StreamRow
set_next_offset id next [] = []
set_next_offset id next (s ∷ ss) =
    (if str_eq s.stream_id id then record s { next_event_offset = next } else s)
    ∷ set_next_offset id next ss

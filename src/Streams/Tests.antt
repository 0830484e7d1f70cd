-- ===== src/Streams/Tests.antt =====
-- Each theorem on streams at an input.
use uxc.Base.{
  ℕ, ◌*◌, ◌≤◌, String, ◌≡◌, refl, inl, inr, true, none, some, [], ◌∷◌, ◌++◌, arith, str_eq,
  if◌then◌else◌, Bool-cases, length,
}
use uxc.Base.Result.{ok}
use uxc.Streams.{PendingEvent, RuntimeUpdate, SourceRecord, EventRow, StreamRow, Db}
use uxc.Streams.Sources.{upsert_source, get_source, load_poll_checkpoint}
use uxc.Streams.Sources.Lookup.{upsert_source-restarts}
use uxc.Streams.Tables.{max_offset, rows_of, find_stream}
use uxc.Streams.Checkpoint.{append_events_and_store_poll_checkpoint}
use uxc.Streams.Checkpoint.Atomic.{append_events-stores}
use uxc.Streams.Append.{append_event}
use uxc.Streams.Append.Counter.{IsWellFormed, next_offset}
use uxc.Streams.Append.Log.{append_event-retained}
use uxc.Streams.Reachable.{appends, upserts, Reachable, start, step, Reachable-IsWellFormed}
use uxc.Streams.Sources.{stream_of, upsert_row, insert_stream}
use uxc.Streams.Tables.{set_next_offset, insert_event, delete_rows}
use uxc.Streams.Retention.{apply_retention, delete_expired, delete_overflow}
use uxc.Streams.Read.{ReadPage, read_stream}
use uxc.Streams.Read.Pages.{rows_after, read_stream-pages}

abbrev event : ℕ → EventRow String
event n = record { stream_id = "s"; offset = n; ingested_at_unix = 100 * n; raw_payload = "{}" }

abbrev stream : StreamRow
stream = record {
  stream_id = "s";
  namespace = "feeds";
  source_key = "news";
  created_at_unix = 50;
  retention_max_rows = 2;
  retention_max_age_secs = 250;
  next_event_offset = 4;
}

abbrev db : Db String String String
db = record { sources = []; streams = stream ∷ []; events = event 1 ∷ event 2 ∷ event 3 ∷ [] }

db-IsWellFormed : IsWellFormed db
unfolding next_offset find_stream rows_of
db-IsWellFormed = record {
  ascending = λ id. elim (Bool-cases (str_eq "s" id)) [
    | inl same ↦
        rw same
          (omega arith, omega arith, (omega arith, omega arith, (omega arith, omega arith, tt)))
    | inr ne ↦ rw ne tt
  ];
}

append_event-retained_example :
    (db' : Db String String String) × (append_event "s" 400 "{}" db ≡ ok (4, db'))
    × ((other : String)
        → (rows_of other db'.events
            ≡ (if str_eq "s" other then event 3 ∷ event 4 ∷ [] else rows_of other db.events))
          × (next_offset other db'.streams
              ≡ (if str_eq "s" other then 5 else next_offset other db.streams)))
    × (db'.sources ≡ [])
    × IsWellFormed db'
unfolding find_stream rows_of
append_event-retained_example =
    append_event-retained "s" 400 "{}" db stream refl (omega arith) db-IsWellFormed

read_stream-pages_example :
    (page : ReadPage String) × (read_stream "s" 1 1 db ≡ ok page)
    × (page.events ++ rows_after page.next_after_offset (rows_of "s" db.events)
        ≡ event 2 ∷ event 3 ∷ [])
    × (length page.events ≤ 1)
    × (page.has_more ≡ true)
unfolding rows_of max_offset
read_stream-pages_example =
    read_stream-pages "s" 1 1 db db-IsWellFormed refl (omega arith) (omega arith)

abbrev running : RuntimeUpdate
running = record {
  status = "running";
  updated_at_unix = 70;
  started_at_unix = some 60;
  stopped_at_unix = none;
  last_error = none;
  last_success_at_unix = none;
  last_event_at_unix = none;
  reconnect_count = 0;
  written_events = 0;
}

abbrev news : String → ℕ → SourceRecord String
news run created = record {
  namespace = "feeds";
  source_key = "news";
  spec_json = "{}";
  spec_key = "k";
  run_id = run;
  stream_id = "s";
  created_at_unix = created;
  runtime = running;
}

abbrev as_is : String → String
as_is s = s

abbrev with_source : Db String String String
with_source = record db {
  sources = record { source = news "r1" 50; poll_checkpoint = some "c1" } ∷ [];
}

upsert_source-restarts_example :
    let db' = upsert_source (news "r2" 90) true with_source in
    (get_source "feeds" "news" db' ≡ some (news "r2" 50))
    × (load_poll_checkpoint as_is "feeds" "news" "r2" db' ≡ none)
unfolding get_source
upsert_source-restarts_example =
    upsert_source-restarts with_source as_is (news "r2" 90) true "feeds" "news"

abbrev pending : ℕ → PendingEvent String
pending n = record { ingested_at_unix = 100 * n; payload = "{}" }

with_source-IsWellFormed : IsWellFormed with_source
with_source-IsWellFormed = record { ascending = db-IsWellFormed.ascending }

append_events-stores_example :
    (db' : Db String String String) × (append_events_and_store_poll_checkpoint "feeds" "news" "r1"
        "s"
        (pending 4 ∷ pending 5 ∷ [])
        "c2"
        with_source
      ≡ ok (4 ∷ 5 ∷ [], db'))
    × ((other : String)
        → rows_of other db'.events
          ≡ (if str_eq "s" other then event 4 ∷ event 5 ∷ [] else rows_of other with_source.events))
    × (load_poll_checkpoint as_is "feeds" "news" "r1" db' ≡ some "c2")
    × IsWellFormed db'
unfolding rows_of find_stream
append_events-stores_example =
    append_events-stores "feeds" "news" "r1" "s" (pending 4) (pending 5 ∷ []) "c2" with_source
      (record { source = news "r1" 50; poll_checkpoint = some "c1" }) stream refl refl refl refl
      (omega arith) with_source-IsWellFormed as_is

abbrev appended_once : Db String String String
appended_once = record {
  sources = record { source = news "r1" 50; poll_checkpoint = none } ∷ [];
  streams = record (stream_of (news "r1" 50)) { next_event_offset = 2 } ∷ [];
  events = record { stream_id = "s"; offset = 1; ingested_at_unix = 400; raw_payload = "{}" } ∷ [];
}

appended_once-Reachable : Reachable appended_once
unfolding upsert_source upsert_row insert_stream find_stream append_event insert_event
    set_next_offset apply_retention delete_expired delete_overflow rows_of delete_rows
appended_once-Reachable =
    step (step start (upserts (news "r1" 50) true))
      (appends "s" 400 "{}" (stream_of (news "r1" 50)) 1 appended_once refl (omega arith) refl)

Reachable-IsWellFormed_example : IsWellFormed appended_once
Reachable-IsWellFormed_example = Reachable-IsWellFormed appended_once appended_once-Reachable

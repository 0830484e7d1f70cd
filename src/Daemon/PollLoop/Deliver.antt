-- ===== src/Daemon/PollLoop/Deliver.antt =====
-- How the items of a response reach the stream of the source.
use mathlib.Core.Option
use uxc.Base.{
  ℕ, suc, ◌+◌, ◌-◌, ◌≤◌, max, String, ◌≡◌, refl, ap, ◌∙◌, false, some, List, [], ◌∷◌, ◌++◌, arith,
  str_eq, if◌then◌else◌, unwrap_or, length, find, keep, i64_max,
}
use uxc.Base.Result.{ok}
use uxc.Json.{Value, Serde}
use uxc.Poll.{Config, Checkpoint, read_back}
use uxc.Poll.Cursor.{build_request_args}
use uxc.Poll.Runner.{process_response, CycleOutput}
use uxc.Streams.{StreamRow, SourceRow, PendingEvent}
use uxc.Streams.Tables.{rows_of, find_stream}
use uxc.Streams.Retention.Newest.{young, newest}
use uxc.Streams.Sources.{has_run, load_poll_checkpoint, update_source_runtime}
use uxc.Streams.Append.Counter.{IsWellFormed}
use uxc.Streams.Checkpoint.Batch.{stamped}
use uxc.Streams.Checkpoint.Atomic.{last_ingested_at, append_events-stores}
use uxc.Daemon.JobView.{sync_managed_source_state}
use uxc.Daemon.PollLoop.HeaderMap.{extract_header_value, parse_poll_interval_secs}
use uxc.Streams.Checkpoint.{append_events_and_store_poll_checkpoint}
use uxc.Daemon.PollLoop.{
  note_written, seen_running, Source, FetchResult, Clock, Failure, continues, Fetch, PollDb,
  PollWorld, refresh, sync, wait, commit, close_turn, take_cycle, take_response, take_fetch,
  poll_turn, is_not_modified, note_etag, events_of,
}
use uxc.Daemon.PollLoop.Stored.{poll_checkpoint_json-update}

last-events_of :
    {F : Type 0} (at : ℕ) (v : Value F) (vs : List (Value F))
    → last_ingested_at (record { ingested_at_unix = at; payload = v }) (events_of at vs) ≡ at
unfolding events_of
last-events_of at v [] = refl
last-events_of at v (x ∷ xs) = last-events_of at x xs

length-events_of :
    {F : Type 0} (at : ℕ) (vs : List (Value F)) → length (events_of at vs) ≡ length vs
unfolding events_of
length-events_of at [] = refl
length-events_of at (x ∷ xs) = ap (λ n. suc n) (length-events_of at xs)

module _ (serde : Serde) {S : Type 0} (source : Source) (config : Config)
    (message : Failure → String) (clock : Clock) (base_args : List (String × Value serde.Float))
    (fetch : Fetch serde.Float) (w : PollWorld serde S) (r : FetchResult serde.Float)
    (output : CycleOutput serde.Float) (ck : Checkpoint serde.Float) (item : Value serde.Float)
    (items : List (Value serde.Float)) (row : SourceRow S (Checkpoint serde.Float))
    (stream : StreamRow)
    (answered : fetch
        (build_request_args config w.checkpoint base_args)
        (refresh clock.before_fetch w.checkpoint)
      ≡ ok r)
    (full : is_not_modified r ≡ false)
    (processed : process_response serde config r.payload r.duration_ms (
        note_etag clock.at_response
          (extract_header_value r.response_headers "etag")
          (refresh clock.before_fetch w.checkpoint))
      ≡ (ok output, ck))
    (emitted : output.emitted_items ≡ item ∷ items)
    (current : find (has_run source.namespace source.source_key source.run_id) w.db.sources
      ≡ some row)
    (unique : length (keep (has_run source.namespace source.source_key source.run_id) w.db.sources)
      ≡ 1)
    (its_stream : row.source.stream_id ≡ source.stream_id)
    (found : find_stream source.stream_id w.db.streams ≡ some stream)
    (small : stream.next_event_offset + length (item ∷ items) ≤ i64_max)
    (wf : IsWellFormed w.db) where
  abbrev pending : PendingEvent (Value serde.Float)
  pending = record { ingested_at_unix = clock.ingested_at; payload = item }

  abbrev previous : Checkpoint serde.Float
  previous = refresh clock.before_fetch w.checkpoint

  abbrev interval : ℕ
  interval = unwrap_or (parse_poll_interval_secs r.response_headers) (max config.interval_secs 1)

  -- The world after a turn that commits a store.
  abbrev ended : PollDb serde S → PollWorld serde S
  ended db = sync serde source config message clock.at_sync (record w {
    checkpoint = ck;
    view = note_written clock.ingested_at (item ∷ items) (seen_running clock.ingested_at w.view);
    db = db;
  })

  turn-ends :
      (db : PollDb serde S)
      → commit serde source config message
          (events_of clock.ingested_at (item ∷ items))
          previous
          ck
          w.db
        ≡ ok db
      → poll_turn serde source config message clock false false base_args fetch w
        ≡ continues interval (ended db)
  unfolding poll_turn take_fetch take_response take_cycle close_turn wait
  turn-ends db e = rw (answered, full, processed, emitted, e) refl

  commit-stores :
      (offsets : List ℕ) (db : PollDb serde S)
      → append_events_and_store_poll_checkpoint source.namespace source.source_key source.run_id
          source.stream_id
          (pending ∷ events_of clock.ingested_at items)
          ck
          w.db
        ≡ ok (offsets, db)
      → commit serde source config message
          (events_of clock.ingested_at (item ∷ items))
          previous
          ck
          w.db
        ≡ ok db
  unfolding commit events_of
  commit-stores offsets db e = rw e refl

  -- When a full response is processed and emits an item or more, while the row of the source carries
  -- its run and its stream, in a well-formed store with room for the offsets: the loop goes on, with
  -- the interval that the response names or else that of the configuration, and with the new
  -- checkpoint; what the store gives back is the same checkpoint, but with no value where a field holds
  -- a null, and with what the JSON package reads of other values that it wrote. The stream holds the newest rows that retention allows of its young enough rows and the
  -- items in their order, with the next offsets one after another; the other streams stay, and the
  -- store is well-formed.
  pub poll_turn-delivers :
      (again : Value serde.Float → Value serde.Float)
      → (w' : PollWorld serde S) × (poll_turn serde source config message clock false false
            base_args fetch w
          ≡ continues
              (unwrap_or (parse_poll_interval_secs r.response_headers) (max config.interval_secs 1))
              w')
        × ((other : String)
            → rows_of other w'.db.events ≡ (
                if str_eq source.stream_id other
                then newest stream.retention_max_rows (
                    young (clock.ingested_at - stream.retention_max_age_secs) (
                      rows_of source.stream_id w.db.events
                      ++ stamped source.stream_id stream.next_event_offset
                          (events_of clock.ingested_at (item ∷ items))))
                else rows_of other w.db.events))
        × (w'.checkpoint ≡ ck)
        × (load_poll_checkpoint
              (read_back again)
              source.namespace
              source.source_key
              source.run_id
              w'.db
            ≡ some (read_back again ck))
        × IsWellFormed w'.db
  unfolding sync sync_managed_source_state update_source_runtime events_of load_poll_checkpoint
  poll_turn-delivers again =
      let s =
        append_events-stores source.namespace source.source_key source.run_id source.stream_id
          pending (events_of clock.ingested_at items) ck w.db row stream current unique its_stream
          found (omega (arith, length-events_of clock.ingested_at items)) wf (read_back again) in
      (
        ended s.0,
        turn-ends s.0 (commit-stores _ s.0 s.1),
        (λ other. s.2 other ∙ rw (last-events_of clock.ingested_at item items) refl),
        refl,
        ap (Option.map (read_back again)) (
              poll_checkpoint_json-update source.namespace source.source_key source.run_id
                source.namespace source.source_key _ s.0)
            ∙ s.3,
        record { ascending = s.4.ascending },
      )

-- ===== src/Daemon/PollLoop/Tests.antt =====
-- Each theorem on the poll loop at an input, with a small JSON package in the place of serde_json.
use Prim.Native.Nat.{compare}
use uxc.Base.{
  ℕ, String, ◌≡◌, refl, true, false, Option, none, some, [], ◌∷◌, arith, str_eq, if◌then◌else◌,
}
use uxc.Base.Result.{ok}
use uxc.Json.{Value, null, string, object, array, Fields, end, field, from_list, Serde}
use uxc.Poll.{read_back, Config, Checkpoint, fresh_checkpoint, item_key}
use uxc.Poll.Etag.{should_invalidate_etag, invalidate_since}
use uxc.Poll.Runner.{checkpoint_eq, process_response, CycleOutput, same_option}
use uxc.Streams.{StreamRow, SourceRow, RuntimeUpdate, Db}
use uxc.Streams.Append.Counter.{IsWellFormed}
use uxc.Streams.Sources.{load_poll_checkpoint}
use uxc.Streams.Tables.{rows_of, find_stream}
use uxc.Streams.Checkpoint.{
  append_events_and_store_poll_checkpoint, first_offset, insert_events, close,
}
use uxc.Streams.Sources.{update_source_runtime, update_where}
use uxc.Daemon.PollLoop.{
  take_fetch, take_response, take_not_modified, close_turn, commit, wait, sync, note_not_modified,
  note_written,
}
use uxc.Poll.Keys.{
  filter_by_item_key, filter_by_key, item_key_of, canonical_key, contains, push_seen_key,
}
use uxc.Poll.Runner.{
  items_of, filter_items, with_keys, baseline_limit, finish_cycle, next_cursor, report, output_of,
  meta_of,
}
use uxc.Base.Window.{pop_to}
use uxc.Daemon.PollLoop.{events_of}
use uxc.Daemon.JobView.{
  sync_managed_source_state, synced_state, update_subscription_view, shown_error,
  note_subscription_success, JobView,
}
use uxc.Daemon.PollLoop.{
  Source, FetchResult, Clock, Failure, PollWorld, poll_turn, refresh, note_etag, continues,
}
use uxc.Daemon.PollLoop.HeaderMap.{
  extract_header_value, get_header, find_header, parse_poll_interval_secs, parsed_interval,
  parse_u64, parse_digits,
}
use uxc.Daemon.PollLoop.Conditional.{here, turn, not_modified-unconditional}
use uxc.Daemon.PollLoop.Deliver.{poll_turn-delivers}

abbrev find_field : String → Fields ℕ → Option (Value ℕ)
find_field p end = none
find_field p (field k v fs) = if str_eq k p then some v else find_field p fs

abbrev toy_pointer : String → Value ℕ → Option (Value ℕ)
toy_pointer p (object fs) = find_field p fs
toy_pointer p _ = none

abbrev toy_to_string : Value ℕ → Option String
toy_to_string (string s) = some s
toy_to_string _ = none

abbrev toy : Serde
toy = record {
  Float = ℕ;
  pointer = toy_pointer;
  to_string = toy_to_string;
  to_vec = λ v. some [];
  sha256_hex = λ bytes. "e3b0c442";
  as_f64 = λ n. none;
  partial_cmp = λ a b. some (compare a b);
  value_eq = λ v w. same_option str_eq (toy_to_string v) (toy_to_string w);
}

abbrev item : String → Value ℕ
item id = object (field "id" (string id) end)

abbrev news : Source
news = record { namespace = "feeds"; source_key = "news"; run_id = "r1"; stream_id = "s" }

abbrev by_id : Config
by_id = record {
  interval_secs = 30;
  extract_items_pointer = "items";
  missing_extract_items_pointer_as_empty = true;
  request_cursor_arg = none;
  response_cursor_pointer = none;
  cursor_from_item_pointer = none;
  cursor_transform = none;
  initial_items_limit = none;
  checkpoint_strategy = item_key "id" none;
}

abbrev clock : Clock
clock = record { before_fetch = 1000; at_response = 1001; ingested_at = 1002; at_sync = 1003 }

abbrev page : FetchResult ℕ
page = record {
  payload = object (field "items" (array (from_list (item "a" ∷ item "b" ∷ []))) end);
  duration_ms = some 12;
  status_code = some 200;
  response_headers = ("etag", "W/2") ∷ ("X-Poll-Interval", " 90 ") ∷ [];
}

abbrev not_modified : FetchResult ℕ
not_modified = record page { payload = object end; status_code = some 304; response_headers = [] }

abbrev seen_a : Checkpoint ℕ
seen_a = record fresh_checkpoint {
  seen_keys = "a" ∷ [];
  etag = some "W/1";
  etag_set_at_unix = some 300;
}

abbrev running : RuntimeUpdate
running = record {
  status = "running";
  updated_at_unix = 70;
  started_at_unix = some 60;
  stopped_at_unix = none;
  last_error = none;
  last_success_at_unix = none;
  last_event_at_unix = none;
  reconnect_count = 0;
  written_events = 0;
}

abbrev view : JobView
view = record {
  status = "running";
  started_at_unix = some 60;
  stopped_at_unix = none;
  last_success_at_unix = none;
  last_event_at_unix = none;
  last_error = none;
  reconnect_count = 0;
  written_events = 0;
}

abbrev row : SourceRow String (Checkpoint ℕ)
row = record {
  source = record {
    namespace = "feeds";
    source_key = "news";
    spec_json = "{}";
    spec_key = "k";
    run_id = "r1";
    stream_id = "s";
    created_at_unix = 50;
    runtime = running;
  };
  poll_checkpoint = some seen_a;
}

abbrev stream : StreamRow
stream = record {
  stream_id = "s";
  namespace = "feeds";
  source_key = "news";
  created_at_unix = 50;
  retention_max_rows = 10;
  retention_max_age_secs = 600;
  next_event_offset = 4;
}

abbrev world : PollWorld toy String
world = record {
  checkpoint = seen_a;
  view = view;
  state = running;
  db = record { sources = row ∷ []; streams = stream ∷ []; events = [] };
}

abbrev message : Failure → String
message failure = "failed"

abbrev same : Value ℕ → Value ℕ
same v = v

abbrev early : Clock
early = record { before_fetch = 400; at_response = 401; ingested_at = 402; at_sync = 403 }

abbrev synced : RuntimeUpdate
synced = record running { updated_at_unix = 403; last_success_at_unix = some 401 }

-- The world after some answers with the status 304.
abbrev quiet : ℕ → PollWorld toy String
quiet n =
    let ck : Checkpoint ℕ = record seen_a { consecutive_304_count = n } in
    record world {
      checkpoint = ck;
      view = record view { last_success_at_unix = some 401 };
      state = synced;
      db = record world.db {
        sources =
            record row {
              source = record row.source { runtime = synced };
              poll_checkpoint = some ck;
            }
            ∷ [];
      };
    }

abbrev Quiet : PollWorld toy String → PollWorld toy String → Type 0
Quiet w w' =
    poll_turn toy news by_id message early false false [] (λ args ck. ok not_modified) w
    ≡ continues 30 w'

quiet_runs : Quiet world (quiet 1) × Quiet (quiet 1) (quiet 2) × Quiet (quiet 2) (quiet 3)
unfolding poll_turn take_fetch take_response take_not_modified close_turn commit wait sync
    sync_managed_source_state update_source_runtime synced_state update_where refresh
    should_invalidate_etag invalidate_since checkpoint_eq note_not_modified update_subscription_view
    shown_error note_subscription_success note_written append_events_and_store_poll_checkpoint
    first_offset insert_events close parse_poll_interval_secs parsed_interval extract_header_value
    get_header find_header
quiet_runs = (refl, refl, refl)

not_modified-unconditional_example : (refresh 500 (quiet 3).checkpoint).etag ≡ none
not_modified-unconditional_example = not_modified-unconditional toy news by_id message 500 (
    turn early false false [] (λ args ck. ok not_modified) not_modified 30
      (turn early false false [] (λ args ck. ok not_modified) not_modified 30
        (turn early false false [] (λ args ck. ok not_modified) not_modified 30 (here world) refl
          refl (quiet_runs.0))
        refl refl (quiet_runs.1))
      refl refl (quiet_runs.2))

abbrev page_output : CycleOutput ℕ
page_output = record {
  emitted_items = item "b" ∷ [];
  fetched_items = 2;
  skipped_items = 1;
  duration_ms = some 12;
  checkpoint_meta = some (record {
    cursor = none;
    watermark = none;
    tie_breaker = none;
    seen_window_len = 2;
    etag = some "W/2";
  });
  not_modified = false;
  poll_interval_secs = none;
}

abbrev seen_ab : Checkpoint ℕ
seen_ab = record fresh_checkpoint {
  seen_keys = "a" ∷ "b" ∷ [];
  etag = some "W/2";
  etag_set_at_unix = some 1001;
}

page_runs :
    process_response toy by_id page.payload page.duration_ms
      (note_etag 1001 (extract_header_value page.response_headers "etag") (refresh 1000 seen_a))
    ≡ (ok page_output, seen_ab)
unfolding refresh should_invalidate_etag invalidate_since note_etag extract_header_value get_header
    find_header process_response items_of filter_items filter_by_item_key filter_by_key item_key_of
    canonical_key contains push_seen_key pop_to with_keys baseline_limit finish_cycle next_cursor
    report output_of meta_of checkpoint_eq
page_runs = refl

world-IsWellFormed : IsWellFormed world.db
unfolding rows_of
world-IsWellFormed = record { ascending = λ id. tt }

poll_turn-delivers_example :
    (w' : PollWorld toy String) × (poll_turn toy news by_id message clock false false []
        (λ args ck. ok page)
        world
      ≡ continues 90 w')
    × ((other : String)
        → rows_of other w'.db.events ≡ (
            if str_eq "s" other
            then record {
              stream_id = "s";
              offset = 4;
              ingested_at_unix = 1002;
              raw_payload = item "b";
            }
              ∷ []
            else []))
    × (w'.checkpoint ≡ seen_ab)
    × (load_poll_checkpoint (read_back same) "feeds" "news" "r1" w'.db ≡ some seen_ab)
    × IsWellFormed w'.db
unfolding read_back parse_poll_interval_secs parsed_interval extract_header_value get_header
    find_header parse_u64 parse_digits events_of rows_of find_stream
poll_turn-delivers_example =
    poll_turn-delivers toy news by_id message clock [] (λ args ck. ok page) world page page_output
      seen_ab (item "b") [] row stream refl refl page_runs refl refl refl refl refl (omega arith)
      world-IsWellFormed same

abbrev vacant_row : SourceRow String (Checkpoint ℕ)
vacant_row = record row { poll_checkpoint = none }

abbrev vacant : Db (Value ℕ) String (Checkpoint ℕ)
vacant = record world.db { sources = vacant_row ∷ [] }

-- A cursor that is null is sent by the runner, and not by a run that is resumed.
null_is_lost : (read_back same (record seen_a { cursor = some null })).cursor ≡ none
unfolding read_back
null_is_lost = refl

-- ===== src/Daemon/PollLoop.antt =====
-- src/daemon.rs: `run_managed_source_poll`, the loop that polls for a managed source, a turn at a time.
-- What the outside does is an argument: the clock, what the fetch answers, and whether a stop was asked
-- for before the turn and while it waits. The rows of the store are the state beside the runner's
-- checkpoint; writes to the log are left out.
pub mod Import
pub mod Deliver
pub mod Conditional
pub mod ReadBack
pub mod Resume
pub mod Stored
pub mod HeaderMap
pub mod SameFields
pub mod SameCheckpoint
mod Tests
use uxc.Base.{
  ℕ, ◌+◌, min, max, String, Bool, true, false, not, ◌||◌, Option, none, some, List, [], map, ◌==◌,
  if◌then◌else◌, is_some, unwrap_or, length, is_empty, u32_max,
}
use uxc.Base.Result.{Result, ok, err, ◌>>=◌}
use uxc.Json.{Value, Serde}
use uxc.Poll.{Config, Checkpoint, PollError}
use uxc.Poll.Etag.{should_invalidate_etag}
use uxc.Poll.Cursor.{build_request_args}
use uxc.Poll.Runner.{checkpoint_eq, process_response, CycleOutput}
use uxc.Streams.{RuntimeUpdate, Db, PendingEvent, StoreError}
use uxc.Streams.Checkpoint.{append_events_and_store_poll_checkpoint}
use uxc.Daemon.JobView.{
  JobView, update_subscription_view, note_subscription_success, note_subscription_events_written,
  sync_managed_source_state, fail_managed_source,
}
use uxc.Daemon.PollLoop.HeaderMap.{Headers, extract_header_value, parse_poll_interval_secs}

-- The fields of `ManagedSourceEntry` and the run of `ManagedSourceRecord` that the loop names.
pub record Source : Type 0 where
  pub namespace : String
  pub source_key : String
  pub run_id : String
  pub stream_id : String

-- `PollFetchResult`
pub record FetchResult (F : Type 0) : Type 0 where
  pub payload : Value F
  pub duration_ms : Option ℕ
  pub status_code : Option ℕ
  pub response_headers : Headers

-- What `now_unix_secs` answers in a turn: before the fetch, at the response, and when the state is
-- synchronised or the failure recorded.
pub record Clock : Type 0 where
  pub before_fetch : ℕ
  pub at_response : ℕ
  pub ingested_at : ℕ
  pub at_sync : ℕ

-- The causes of a failure.
pub data Failure : Type 0 where
  response_rejected : PollError → Failure
  store_failed : StoreError → Failure

-- The runner's checkpoint, its view, the state of its entry, and the store.
pub record World (V S C : Type 0) : Type 0 where
  pub checkpoint : C
  pub view : JobView
  pub state : RuntimeUpdate
  pub db : Db V S C

-- How a turn ends: the loop goes on, waiting for the interval given, or returns.
pub data Outcome (W : Type 0) : Type 0 where
  continues : ℕ → W → Outcome W
  stopped : W → Outcome W
  failed : Failure → W → Outcome W

abbrev saturating_add_u32 : ℕ → ℕ → ℕ
saturating_add_u32 a b = min (a + b) u32_max

-- `fetch_managed_source_poll_dispatch`, from the arguments and the checkpoint of the request
abbrev pub Fetch : Type 0 → Type 0
Fetch F = List (String × Value F) → Checkpoint F → Result String (FetchResult F)

-- The events of the items that a response brought.
unfoldable pub events_of : {F : Type 0} → ℕ → List (Value F) → List (PendingEvent (Value F))
events_of ingested_at items =
    map (λ item. record { ingested_at_unix = ingested_at; payload = item }) items

-- The view after a response whose items are stored.
unfoldable pub note_written : {F : Type 0} → ℕ → List (Value F) → JobView → JobView
note_written ingested_at items v =
    if is_empty items then v else note_subscription_events_written ingested_at (length items) v

abbrev pub seen_running : ℕ → JobView → JobView
seen_running now v =
    update_subscription_view (some "running") none false (note_subscription_success now v)

abbrev pub is_not_modified : {F : Type 0} → FetchResult F → Bool
is_not_modified r = elim r.status_code [ none ↦ false | some code ↦ code == 304 ]

module _ {F : Type 0} where
  -- `checkpoint.etag = None; checkpoint.etag_set_at_unix = None`
  abbrev pub without_etag : Checkpoint F → Checkpoint F
  without_etag ck = record ck { etag = none; etag_set_at_unix = none }

  -- A stale ETag is cleared before the fetch.
  unfoldable pub refresh : ℕ → Checkpoint F → Checkpoint F
  refresh now ck = if is_some (should_invalidate_etag ck now) then without_etag ck else ck

  unfoldable pub note_not_modified : Checkpoint F → Checkpoint F
  note_not_modified ck = record ck {
    consecutive_304_count = saturating_add_u32 ck.consecutive_304_count 1;
  }

  unfoldable pub note_etag : ℕ → Option String → Checkpoint F → Checkpoint F
  note_etag now none ck = record ck {
    consecutive_304_count = 0;
    etag = none;
    etag_set_at_unix = none;
  }
  note_etag now (some etag) ck = record ck {
    consecutive_304_count = 0;
    etag = some etag;
    etag_set_at_unix = some now;
  }

module _ (serde : Serde) where
  open serde use {Float}

  abbrev pub PollDb : Type 0 → Type 0
  PollDb S = Db (Value Float) S (Checkpoint Float)

  abbrev pub PollWorld : Type 0 → Type 0
  PollWorld S = World (Value Float) S (Checkpoint Float)

module _ (serde : Serde) {S : Type 0} (source : Source) (config : Config)
    (message : Failure → String) where
  open serde use {Float}
  open source use {namespace, source_key, run_id, stream_id}

  -- `sync_managed_source_state`, with the status of the view to fall back on.
  unfoldable pub sync : ℕ → PollWorld serde S → PollWorld serde S
  sync now w =
      let (state, db) =
        sync_managed_source_state namespace source_key w.view.status now w.view w.db in
      record w { state = state; db = db }

  unfoldable pub fail : ℕ → Failure → PollWorld serde S → Outcome (PollWorld serde S)
  fail now failure w =
      let (state, db) =
        fail_managed_source namespace source_key (message failure) now w.state w.db in
      failed failure (record w { state = state; db = db })

  -- The loop returns when a stop was asked for.
  unfoldable pub stop : ℕ → PollWorld serde S → Outcome (PollWorld serde S)
  stop now w =
      stopped
        (sync now (record w { view = update_subscription_view (some "stopped") none false w.view }))

  -- The wait at the end of a turn.
  unfoldable pub wait : Bool → ℕ → ℕ → PollWorld serde S → Outcome (PollWorld serde S)
  wait stop_after now interval_secs w = if stop_after then stop now w else continues interval_secs w

  -- The events and the checkpoint are stored, unless there is nothing new.
  unfoldable pub commit :
      List (PendingEvent (Value Float))
      → Checkpoint Float
      → Checkpoint Float
      → PollDb serde S
      → Result StoreError (PollDb serde S)
  commit events previous ck db =
      if not (is_empty events) || not (checkpoint_eq serde ck previous)
      then (do
        (offsets, db') ←
            append_events_and_store_poll_checkpoint namespace source_key run_id stream_id events ck
              db
        ok db')
      else ok db

  -- The end of a turn with a response: the state is synchronised, and the loop waits.
  unfoldable pub close_turn :
      Clock
      → Bool
      → ℕ
      → List (Value Float)
      → PollWorld serde S
      → Result StoreError (PollDb serde S)
      → Outcome (PollWorld serde S)
  close_turn clock stop_after interval_secs items w (err e) = fail clock.at_sync (store_failed e) w
  close_turn clock stop_after interval_secs items w (ok db) =
      wait stop_after clock.at_sync interval_secs (
        sync clock.at_sync
          (record w { db = db; view = note_written clock.ingested_at items w.view }))

  -- A response that is processed; `previous` is the checkpoint before the fetch.
  unfoldable pub take_cycle :
      Clock
      → Bool
      → ℕ
      → Checkpoint Float
      → PollWorld serde S
      → Result PollError (CycleOutput Float) × Checkpoint Float
      → Outcome (PollWorld serde S)
  take_cycle clock stop_after interval_secs previous w (err e, ck) =
      fail clock.at_sync (response_rejected e) (record w { checkpoint = ck })
  take_cycle clock stop_after interval_secs previous w (ok output, ck) =
      let items = output.emitted_items in
      close_turn clock stop_after interval_secs items
        (record w { checkpoint = ck; view = seen_running clock.ingested_at w.view })
        (commit (events_of clock.ingested_at items) previous ck w.db)

  unfoldable pub take_not_modified :
      Clock → Bool → ℕ → PollWorld serde S → Outcome (PollWorld serde S)
  take_not_modified clock stop_after interval_secs w =
      let ck = note_not_modified w.checkpoint in
      close_turn clock stop_after interval_secs []
        (record w { checkpoint = ck; view = seen_running clock.at_response w.view })
        (commit [] w.checkpoint ck w.db)

  unfoldable pub take_response :
      Clock → Bool → FetchResult Float → PollWorld serde S → Outcome (PollWorld serde S)
  take_response clock stop_after r w =
      let interval_secs =
        unwrap_or (parse_poll_interval_secs r.response_headers) (max config.interval_secs 1) in
      if is_not_modified r
      then take_not_modified clock stop_after interval_secs w
      else take_cycle clock stop_after interval_secs w.checkpoint w (
          process_response serde config r.payload r.duration_ms (
            note_etag clock.at_response (extract_header_value r.response_headers "etag")
              w.checkpoint))

  -- A fetch that failed is tried again after the interval.
  unfoldable pub take_fetch :
      Clock
      → Bool
      → Result String (FetchResult Float)
      → PollWorld serde S
      → Outcome (PollWorld serde S)
  take_fetch clock stop_after (ok r) w = take_response clock stop_after r w
  take_fetch clock stop_after (err e) w =
      wait stop_after clock.at_sync (max config.interval_secs 1) (
        sync clock.at_sync
          (record w { view = update_subscription_view (some "reconnecting") (some e) true w.view }))

  -- A turn of the loop.
  unfoldable pub poll_turn :
      Clock
      → Bool
      → Bool
      → List (String × Value Float)
      → Fetch Float
      → PollWorld serde S
      → Outcome (PollWorld serde S)
  poll_turn clock stop_before stop_after base_args fetch w =
      if stop_before
      then stop clock.before_fetch w
      else (let args = build_request_args config w.checkpoint base_args in
          let ck = refresh clock.before_fetch w.checkpoint in
          take_fetch clock stop_after (fetch args ck) (record w { checkpoint = ck }))

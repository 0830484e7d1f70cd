-- ===== src/Daemon/JobView.antt =====
-- src/daemon.rs: what the runner of a managed source reports of itself, `SubscriptionJobView`, and how
-- the report reaches the row of the source. The clock is an argument.
use uxc.Base.{
  ℕ, String, Bool, ◌||◌, Option, none, some, str_eq, if◌then◌else◌, or_else, unwrap_or,
  saturating_add,
}
use uxc.Streams.{RuntimeUpdate, Db}
use uxc.Streams.Sources.{update_source_runtime, clear_source_job}

-- `SubscriptionJobView`, the part that a poll changes or that reaches the row.
pub record JobView : Type 0 where
  pub status : String
  pub started_at_unix : Option ℕ
  pub stopped_at_unix : Option ℕ
  pub last_success_at_unix : Option ℕ
  pub last_event_at_unix : Option ℕ
  pub last_error : Option String
  pub reconnect_count : ℕ
  pub written_events : ℕ

-- The error that a view shows after an update of its status.
unfoldable pub shown_error : Option String → Option String → Option String → Option String
shown_error status (some e) old = some e
shown_error none none old = old
shown_error (some status) none old = if str_eq status "running" then none else old

unfoldable pub update_subscription_view : Option String → Option String → Bool → JobView → JobView
update_subscription_view status last_error increment_reconnect v = record v {
  status = unwrap_or status v.status;
  reconnect_count =
      if increment_reconnect then saturating_add v.reconnect_count 1 else v.reconnect_count;
  last_error = shown_error status last_error v.last_error;
}

unfoldable pub note_subscription_success : ℕ → JobView → JobView
note_subscription_success timestamp_unix v = record v { last_success_at_unix = some timestamp_unix }

unfoldable pub note_subscription_events_written : ℕ → ℕ → JobView → JobView
note_subscription_events_written timestamp_unix count v = record v {
  written_events = saturating_add v.written_events count;
  last_success_at_unix = some timestamp_unix;
  last_event_at_unix = some timestamp_unix;
}

-- The status that is stored, and whether a source with it is at work.
abbrev pub stored_status : String → JobView → String
stored_status fallback_status v = if str_eq v.status "" then fallback_status else v.status

abbrev pub is_active : String → Bool
is_active status =
    str_eq status "running" || str_eq status "reconnecting" || str_eq status "starting"

-- The columns that `sync_managed_source_state` writes, to the row and to the entry's state.
unfoldable pub synced_state : String → ℕ → JobView → RuntimeUpdate
synced_state fallback_status now v =
    let status = stored_status fallback_status v in
    record {
      status = status;
      updated_at_unix = now;
      started_at_unix = v.started_at_unix;
      stopped_at_unix = if is_active status then none else or_else v.stopped_at_unix (some now);
      last_error = v.last_error;
      last_success_at_unix = v.last_success_at_unix;
      last_event_at_unix = v.last_event_at_unix;
      reconnect_count = v.reconnect_count;
      written_events = v.written_events;
    }

module _ {V S C : Type 0} where
  -- With the state of the entry.
  unfoldable pub sync_managed_source_state :
      String → String → String → ℕ → JobView → Db V S C → RuntimeUpdate × Db V S C
  sync_managed_source_state ns key fallback_status now v db =
      let state = synced_state fallback_status now v in
      (state, update_source_runtime ns key state db)

  -- With the state of the entry, too.
  unfoldable pub fail_managed_source :
      String → String → String → ℕ → RuntimeUpdate → Db V S C → RuntimeUpdate × Db V S C
  fail_managed_source ns key message now state db = (
    record state {
      status = "failed";
      updated_at_unix = now;
      stopped_at_unix = some now;
      last_error = some message;
    },
    clear_source_job ns key "failed" now (some now) (some message) db,
  )

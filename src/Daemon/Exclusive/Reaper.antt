-- ===== src/Daemon/Exclusive/Reaper.antt =====
-- src/daemon.rs: what `cleanup_idle` does with the stdio sessions. An entry of the map is seen at a time,
-- in nanoseconds since the earliest `Instant`, or not, where the session is locked.
use uxc.Base.{
  ℕ, ◌-◌, ◌*◌, String, Bool, true, false, not, ◌&&◌, Option, none, some, List, [], ◌∷◌, ltb, ◌==◌,
  if◌then◌else◌, unwrap_or,
}
use uxc.Daemon.Exclusive.{Manager, put, cleanup}

-- `LifecycleContractFetchState` and `LifecycleReapPolicy`
pub data FetchState : Type 0 where
  unsupported : FetchState
  available : FetchState
  unknown : FetchState

pub data ReapPolicy : Type 0 where
  safe_idle_reap : ReapPolicy
  stateful : ReapPolicy

-- What `cleanup_idle` reads of a `McpStdioSession`.
pub record Session : Type 0 where
  pub idle_ttl_secs : ℕ
  pub last_used : ℕ
  pub fetch_state : FetchState
  pub reap_policy : Option ReapPolicy
  pub auto_reap_allowed : Option Bool

pub record Look : Type 0 where
  pub session : Session
  pub now : ℕ

abbrev pub nanoseconds : ℕ
nanoseconds = 1000000000

unfoldable pub instant_cutoff : ℕ → ℕ → Option ℕ
instant_cutoff now age_secs =
    if ltb now (age_secs * nanoseconds) then none else some (now - age_secs * nanoseconds)

unfoldable pub allows_reap : FetchState → Option ReapPolicy → Bool → Bool
allows_reap state (some safe_idle_reap) snapshot = true
allows_reap unsupported none snapshot = true
allows_reap unsupported (some stateful) snapshot = snapshot
allows_reap available (some stateful) snapshot = snapshot
allows_reap unknown (some stateful) snapshot = false
allows_reap unknown none snapshot = false
allows_reap available none snapshot = false

abbrev pub used_before : ℕ → Option ℕ → Bool
used_before last_used none = false
used_before last_used (some cutoff) = ltb last_used cutoff

unfoldable pub should_reap : Look → Bool
should_reap look =
    let s = look.session in
    not (s.idle_ttl_secs == 0)
    && used_before s.last_used (instant_cutoff look.now s.idle_ttl_secs)
    && allows_reap s.fetch_state s.reap_policy (unwrap_or s.auto_reap_allowed false)

abbrev pub push_reaped : String → Option Look → List String → List String
push_reaped key none keys = keys
push_reaped key (some look) keys = if should_reap look then key ∷ keys else keys

-- `stdio_remove`
unfoldable pub stdio_remove : List (String × Option Look) → List String
stdio_remove [] = []
stdio_remove ((key, look) ∷ entries) = push_reaped key look (stdio_remove entries)

unfoldable pub remove_keys : List String → (String → Bool) → String → Bool
remove_keys [] stdio = stdio
remove_keys (key ∷ keys) stdio = remove_keys keys (put key false stdio)

unfoldable pub cleanup_keys : List String → Manager → Manager
cleanup_keys [] m = m
cleanup_keys (key ∷ keys) m = cleanup_keys keys (cleanup key m)

unfoldable pub cleanup_idle : List (String × Option Look) → Manager → Manager
cleanup_idle entries m =
    let keys = stdio_remove entries in
    cleanup_keys keys (record m { stdio = remove_keys keys m.stdio })

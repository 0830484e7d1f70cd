-- ===== src/Daemon/Exclusive.antt =====
-- src/daemon.rs: the exclusive keys of MCP stdio sessions. A request for a session may claim keys; the
-- sessions that hold one of them are shut down first, or the request fails. A hash map is the function
-- that looks a key up in it. What the processes do is an argument: whether a session is at work, whether
-- one that is shut down exits, and whether a new one starts.
pub mod Registry
pub mod Evicted
pub mod Owners
pub mod Registered
pub mod TakenOff
pub mod Claimed
pub mod Reaper
pub mod Reaped
mod Tests
use uxc.Base.{
  String, Bool, true, false, Option, none, some, List, [], ◌∷◌, str_eq, if◌then◌else◌, unwrap_or,
}
use uxc.Base.Text.{codes}
use uxc.Base.Max.{is_gt}
use uxc.Base.Order.{compare_text}

-- Maps from texts.
abbrev pub put : {V : Type 0} → String → V → (String → V) → String → V
put k v m j = if str_eq j k then v else m j

-- The part of `McpSessionManager` that the keys are about: which sessions there are, the owner of
-- each exclusive key, and the keys of each session.
pub record Manager : Type 0 where
  pub stdio : String → Bool
  pub stdio_exclusive_owners : String → Option String
  pub stdio_session_exclusives : String → Option (List String)

abbrev pub no_sessions : Manager
no_sessions = record {
  stdio = λ s. false;
  stdio_exclusive_owners = λ k. none;
  stdio_session_exclusives = λ s. none;
}

-- How shutting a session down ends.
pub data Shutdown : Type 0 where
  exited : Shutdown
  exit_failed : Shutdown
  busy : Shutdown

-- What becomes of a session that is there already when it is asked for.
pub data Existing : Type 0 where
  unavailable : Existing
  child_exited : Existing
  reusable : Existing

pub data ClaimError : Type 0 where
  key_in_use : String → ClaimError
  shutdown_failed : String → ClaimError
  session_unavailable : ClaimError
  connect_failed : ClaimError

abbrev pub owned_by : String → Option String → Bool
owned_by s none = false
owned_by s (some o) = str_eq o s

-- `if owners_map.get(key).is_some_and(|o| o == session_key) { owners_map.remove(key) }`, for each key
unfoldable pub release : String → List String → (String → Option String) → String → Option String
release s [] owners = owners
release s (k ∷ ks) owners =
    release s ks (if owned_by s (owners k) then put k none owners else owners)

unfoldable pub claim : String → List String → (String → Option String) → String → Option String
claim s [] owners = owners
claim s (k ∷ ks) owners = claim s ks (put k (some s) owners)

-- `cleanup_stdio_exclusive_for_session_key`
unfoldable pub cleanup : String → Manager → Manager
cleanup s m = record m {
  stdio_session_exclusives = put s none m.stdio_session_exclusives;
  stdio_exclusive_owners =
      release s (unwrap_or (m.stdio_session_exclusives s) []) m.stdio_exclusive_owners;
}

-- `register_stdio_exclusive_keys`
unfoldable pub register : String → List String → Manager → Manager
register s [] m = m
register s (k ∷ ks) m =
    let m' = cleanup s m in
    record m' {
      stdio_session_exclusives = put s (some (k ∷ ks)) m'.stdio_session_exclusives;
      stdio_exclusive_owners = claim s (k ∷ ks) m'.stdio_exclusive_owners;
    }

-- A session is taken off the map, with what it holds.
unfoldable pub remove_session : String → Manager → Manager
remove_session s m = cleanup s (record m { stdio = put s false m.stdio })

-- `sort` and `dedup`
abbrev insert_sorted : String → List String → List String
insert_sorted x [] = x ∷ []
insert_sorted x (y ∷ ys) =
    let rest = insert_sorted x ys in
    if is_gt (compare_text (codes x) (codes y)) then y ∷ rest else x ∷ y ∷ ys

abbrev pub sort : List String → List String
sort [] = []
sort (x ∷ xs) = insert_sorted x (sort xs)

abbrev pub push_other : String → List String → List String
push_other x [] = x ∷ []
push_other x (y ∷ ys) = if str_eq x y then y ∷ ys else x ∷ y ∷ ys

abbrev pub dedup : List String → List String
dedup [] = []
dedup (x ∷ xs) = push_other x (dedup xs)

abbrev pub push_owner : String → Option String → List String → List String
push_owner s none owners = owners
push_owner s (some o) owners = if str_eq o s then owners else o ∷ owners

-- The other sessions that own a key, in the order of the keys.
unfoldable pub other_owners : String → List String → Manager → List String
other_owners s [] m = []
other_owners s (k ∷ ks) m = push_owner s (m.stdio_exclusive_owners k) (other_owners s ks m)

-- Without an owner that is no more: its entries for the keys asked for are dropped first.
abbrev pub drop_stale : String → List String → Manager → Manager
drop_stale owner keys m =
    cleanup owner
      (record m { stdio_exclusive_owners = release owner keys m.stdio_exclusive_owners })

abbrev pub shut_down : Shutdown → String → Manager → Option ClaimError × Manager
shut_down exited owner m = (none, remove_session owner m)
shut_down exit_failed owner m = (some (shutdown_failed owner), m)
shut_down busy owner m = (some (key_in_use owner), m)

-- `?`: what comes next, unless there was an error.
abbrev pub and_then :
    Option ClaimError × Manager
    → (Manager → Option ClaimError × Manager)
    → Option ClaimError × Manager
and_then (none, m) next = next m
and_then (some e, m) next = (some e, m)

-- One turn of the loop of `evict_stdio_exclusive_conflicts`.
unfoldable pub evict_one :
    (String → Shutdown) → List String → String → Manager → Option ClaimError × Manager
evict_one shutdown keys owner m =
    if m.stdio owner then shut_down (shutdown owner) owner m else (none, drop_stale owner keys m)

unfoldable pub evict_all :
    (String → Shutdown) → List String → List String → Manager → Option ClaimError × Manager
evict_all shutdown keys [] m = (none, m)
evict_all shutdown keys (owner ∷ owners) m =
    and_then (evict_one shutdown keys owner m) (evict_all shutdown keys owners)

unfoldable pub evict_stdio_exclusive_conflicts :
    (String → Shutdown) → String → List String → Manager → Option ClaimError × Manager
evict_stdio_exclusive_conflicts shutdown s keys m =
    evict_all shutdown keys (dedup (sort (other_owners s keys m))) m

-- A new process: the session is there once it has started.
unfoldable pub start_session : Bool → String → List String → Manager → Option ClaimError × Manager
start_session starts s keys m =
    if starts
    then (none, register s keys (record m { stdio = put s true m.stdio }))
    else (some connect_failed, m)

-- `try_reuse_existing_stdio_session`, and a new session where it finds none.
unfoldable pub reuse_or_start :
    Bool → Existing → String → List String → Manager → Option ClaimError × Manager
reuse_or_start starts unavailable s keys m = (some session_unavailable, m)
reuse_or_start starts child_exited s keys m = start_session starts s keys (remove_session s m)
reuse_or_start starts reusable s keys m = (none, register s keys m)

unfoldable pub take_session :
    Bool → Existing → String → List String → Manager → Option ClaimError × Manager
take_session starts existing s keys m =
    if m.stdio s then reuse_or_start starts existing s keys m else start_session starts s keys m

-- `get_or_create_stdio`, by the keys.
unfoldable pub get_or_create_stdio :
    (String → Shutdown)
    → Bool
    → Existing
    → String
    → List String
    → Manager
    → Option ClaimError × Manager
get_or_create_stdio shutdown starts existing s keys m =
    and_then (evict_stdio_exclusive_conflicts shutdown s keys m)
      (take_session starts existing s keys)

-- ===== src/Daemon/Activity.antt =====
-- src/daemon.rs: `DaemonActivity`, by which a daemon finds that no client uses it, and the watch on its
-- socket. The clock is an argument.
pub mod Idle
use uxc.Base.{ℕ, ◌+◌, ◌-◌, String, Bool, ◌&&◌, Option, none, some, leb, ◌==◌, if◌then◌else◌}

-- `DaemonActivity`
pub record Activity : Type 0 where
  pub open_connections : ℕ
  pub last_activity : ℕ

unfoldable pub new : ℕ → Activity
new now = record { open_connections = 0; last_activity = now }

unfoldable pub open_connection : ℕ → Activity → Activity
open_connection now a = record { open_connections = a.open_connections + 1; last_activity = now }

-- The drop of a `DaemonConnectionGuard`.
unfoldable pub drop_guard : Activity → Activity
drop_guard a = record a { open_connections = a.open_connections - 1 }

-- `idle_for`; `elapsed` stops at 0.
unfoldable pub idle_for : ℕ → ℕ → Activity → Bool
idle_for timeout now a = (a.open_connections == 0) && leb timeout (now - a.last_activity)

-- What `stat` says of the socket: its inode, or the kind of its failure.
pub data Stat : Type 0 where
  inode : ℕ → Stat
  not_found : Stat
  other_failure : Stat

-- `DaemonSocketWatch`
pub data SocketWatch : Type 0 where
  healthy : SocketWatch
  orphaned : String → SocketWatch
  transient_error : SocketWatch

unfoldable pub classify_daemon_socket_watch : Stat → ℕ → SocketWatch
classify_daemon_socket_watch (inode ino) expected_ino =
    if ino == expected_ino then healthy else orphaned "socket path is now owned by another daemon"
classify_daemon_socket_watch not_found expected_ino =
    orphaned "daemon state dir or socket no longer exists"
classify_daemon_socket_watch other_failure expected_ino = transient_error

-- What the watchdog does after a tick.
pub data Watchdog : Type 0 where
  watches : Watchdog
  exits : Watchdog
  requests_stop : Watchdog

unfoldable pub watch_idle : Option ℕ → ℕ → Activity → Watchdog
watch_idle none now a = watches
watch_idle (some timeout) now a = if idle_for timeout now a then requests_stop else watches

unfoldable pub watch_socket : SocketWatch → Option ℕ → ℕ → Activity → Watchdog
watch_socket (orphaned reason) idle_timeout now a = exits
watch_socket healthy idle_timeout now a = watch_idle idle_timeout now a
watch_socket transient_error idle_timeout now a = watch_idle idle_timeout now a

-- A turn of the watchdog's loop in a daemon that has not been stopped.
unfoldable pub watchdog_tick : Stat → ℕ → Option ℕ → ℕ → Activity → Watchdog
watchdog_tick stat socket_ino idle_timeout now a =
    watch_socket (classify_daemon_socket_watch stat socket_ino) idle_timeout now a

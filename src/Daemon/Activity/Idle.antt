-- ===== src/Daemon/Activity/Idle.antt =====
-- When a daemon is idle: the connections that it has taken, and their guards.
use uxc.Base.{
  ℕ, suc, ◌-◌, ◌≤◌, ◌≡◌, refl, ◌≢◌, ◌↔◌, inl, inr, true, Option, none, some, arith, ◌==◌,
  Bool-cases,
}
use Prim.{absurd}
use uxc.Daemon.Activity.{
  inode, not_found, other_failure, requests_stop, exits, other_failure, inode, Stat,
  classify_daemon_socket_watch, watch_idle, watch_socket, watchdog_tick, Activity, new,
  open_connection, drop_guard, idle_for,
}

-- What a daemon can come to, with the number of its connections that are not finished and the time
-- when it started or took the last one. A connection's guard is dropped once, when it finishes.
pub data Reachable : ℕ → ℕ → Activity → Type 0 where
  starts : (now : ℕ) → Reachable 0 now (new now)
  opens :
      {n t : ℕ} {a : Activity} (now : ℕ)
      → Reachable n t a
      → Reachable (suc n) now (open_connection now a)
  finishes : {n t : ℕ} {a : Activity} → Reachable (suc n) t a → Reachable n t (drop_guard a)

counted :
    {n t : ℕ} {a : Activity} → Reachable n t a → (a.open_connections ≡ n) × (a.last_activity ≡ t)
unfolding new open_connection drop_guard
counted (starts now) = (refl, refl)
counted (opens now r) = (omega (arith, (counted r).0), refl)
counted (finishes r) = (omega (arith, (counted r).0), (counted r).1)

idle_for-Reachable :
    {n t : ℕ} {a : Activity} (timeout now : ℕ)
    → Reachable n t a
    → (idle_for timeout now a ≡ true) ↔ ((n ≡ 0) × (timeout ≤ now - t))
unfolding idle_for
idle_for-Reachable timeout now r =
    let c = counted r in
    (λ h. (ground (arith, h, c), ground (arith, h, c)), λ h. ground (arith, h, c))

-- The socket is not the daemon's any more.
abbrev Gone : Stat → ℕ → Type 0
Gone (inode ino) socket_ino = ino ≢ socket_ino
Gone not_found socket_ino = Unit
Gone other_failure socket_ino = ⊥

-- A timeout is set, no connection is unfinished, and it has passed since the last one was taken.
abbrev Idle : Option ℕ → ℕ → ℕ → ℕ → Type 0
Idle none n t now = ⊥
Idle (some timeout) n t now = (n ≡ 0) × (timeout ≤ now - t)

watch_idle-Idle :
    {n t : ℕ} {a : Activity} (idle_timeout : Option ℕ) (now : ℕ)
    → Reachable n t a
    → (watch_idle idle_timeout now a ≢ exits)
      × ((watch_idle idle_timeout now a ≡ requests_stop) ↔ Idle idle_timeout n t now)
unfolding watch_idle
watch_idle-Idle none now r = (λ e. ground (arith, e), (λ e. ground (arith, e), λ b. absurd b))
watch_idle-Idle {a = a} (some timeout) now r =
    let c = idle_for-Reachable timeout now r in
    elim (Bool-cases (idle_for timeout now a)) [
      | inl e ↦ rw e (λ x. ground (arith, x), (λ x. c.0 e, λ i. refl))
      | inr e ↦
          rw e (λ x. ground (arith, x), (λ x. ground (arith, x), λ i. ground (arith, c.1 i, e)))
    ]

-- Whatever connections were taken and finished, in whatever order, a tick of the watchdog makes the
-- process exit just when the socket is gone or another's; otherwise it asks for a stop just when a
-- timeout is set, no connection is unfinished and the timeout has passed since the daemon took the
-- last one.
pub watchdog_tick-Reachable :
    {n t : ℕ} {a : Activity} (stat : Stat) (socket_ino now : ℕ) (idle_timeout : Option ℕ)
    → Reachable n t a
    → ((watchdog_tick stat socket_ino idle_timeout now a ≡ exits) ↔ Gone stat socket_ino)
      × ((watchdog_tick stat socket_ino idle_timeout now a ≡ requests_stop)
          ↔ ((¬ Gone stat socket_ino) × Idle idle_timeout n t now))
unfolding watchdog_tick watch_socket classify_daemon_socket_watch
watchdog_tick-Reachable (inode ino) socket_ino now idle_timeout r =
    let w = watch_idle-Idle idle_timeout now r in
    elim (Bool-cases (ino == socket_ino)) [
      | inl e ↦ rw e (
        (λ x. absurd (w.0 x), λ g. absurd (g (ground (arith, e)))),
        (λ x. ((λ g. g (ground (arith, e))), w.1.0 x), λ g. w.1.1 g.1),
      )
      | inr e ↦ rw e (
        (λ x. λ q. ground (arith, e, q), λ g. refl),
        (λ x. ground (arith, x), λ g. absurd (g.0 (λ q. ground (arith, e, q)))),
      )
    ]
watchdog_tick-Reachable not_found socket_ino now idle_timeout r =
    ((λ e. tt, λ g. refl), (λ e. ground (arith, e), λ g. absurd (g.0 tt)))
watchdog_tick-Reachable other_failure socket_ino now idle_timeout r =
    let w = watch_idle-Idle idle_timeout now r in
    ((λ e. absurd (w.0 e), λ g. absurd g), (λ e. (λ g. g, w.1.0 e), λ g. w.1.1 g.1))

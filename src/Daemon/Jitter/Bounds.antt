-- ===== src/Daemon/Jitter/Bounds.antt =====
-- The bounds of the waits.
use native.Mathlib.Nat.{mod-lt}
use uxc.Base.{ℕ, ◌+◌, ◌*◌, ◌≤◌, ◌<◌, String, arith, u64_max}
use uxc.Daemon.Jitter.{
  interval_ms, jitter_window_ms, initial_poll_delay_ms, wait_of, poll_wait_ms,
  stable_managed_source_hash,
}

window_bounds :
    (interval_secs : ℕ)
    → (0 < jitter_window_ms interval_secs)
      × (4 * jitter_window_ms interval_secs ≤ interval_ms interval_secs)
      × (jitter_window_ms interval_secs ≤ 30000)
      × (interval_ms interval_secs ≤ u64_max)
unfolding jitter_window_ms interval_ms
window_bounds n = omega arith

wait_of_bounds :
    (interval_secs hash : ℕ)
    → (7 * interval_ms interval_secs ≤ 8 * wait_of interval_secs hash)
      × (8 * wait_of interval_secs hash ≤ 9 * interval_ms interval_secs + 8)
      × (interval_ms interval_secs ≤ wait_of interval_secs hash + 15000)
      × (wait_of interval_secs hash ≤ interval_ms interval_secs + 15000)
unfolding wait_of
wait_of_bounds n h =
    let w = window_bounds n in
    let l = mod-lt h {m = jitter_window_ms n + 1} (omega arith) in ground (arith, w, l)

-- The wait between two polls is positive, within an eighth of the interval and within 15 seconds of it,
-- up to a millisecond, whatever the source and the round; the first poll starts within a quarter of the
-- interval and within 30 seconds. The interval is taken as a second at least.
pub poll_wait_ms_bounds :
    (namespace source_key : String) (interval_secs poll_round : ℕ)
    → let wait = poll_wait_ms namespace source_key interval_secs poll_round in
      let delay = initial_poll_delay_ms namespace source_key interval_secs in
      let i = interval_ms interval_secs in
      (0 < wait)
      × (7 * i ≤ 8 * wait)
      × (8 * wait ≤ 9 * i + 8)
      × (i ≤ wait + 15000)
      × (wait ≤ i + 15000)
      × (4 * delay < i)
      × (delay < 30000)
unfolding poll_wait_ms initial_poll_delay_ms
poll_wait_ms_bounds namespace source_key n poll_round =
    let w = window_bounds n in
    let b = wait_of_bounds n (stable_managed_source_hash namespace source_key poll_round) in
    let l =
      mod-lt (stable_managed_source_hash namespace source_key 0) {m = jitter_window_ms n} w.0 in
    omega arith

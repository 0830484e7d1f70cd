-- ===== src/Daemon/Tests.antt =====
-- The theorems on the fan-out, the watchdog and the waits at inputs.
use uxc.Base.{ℕ, ◌+◌, ◌-◌, ◌*◌, ◌≤◌, ◌<◌, String, ◌≡◌, ◌↔◌, some, [], ◌∷◌, arith}
use uxc.Daemon.Fanout.{Fanout, empty_fanout, extend, since}
use uxc.Daemon.Fanout.Since.{WellFormed, since-extend}
use uxc.Daemon.Activity.{
  new, open_connection, drop_guard, other_failure, requests_stop, exits, watchdog_tick,
}
use uxc.Daemon.Activity.Idle.{starts, opens, finishes, watchdog_tick-Reachable}
use uxc.Daemon.Jitter.{poll_wait_ms, initial_poll_delay_ms, interval_ms}
use uxc.Daemon.Jitter.Bounds.{poll_wait_ms_bounds}

abbrev three_sent : Fanout String
three_sent = record empty_fanout { next_seq = 3 }

three_sent-WellFormed : WellFormed three_sent
unfolding WellFormed
three_sent-WellFormed = (omega arith, tt)

since-extend_example :
    (since 3 (extend ("a" ∷ "b" ∷ []) three_sent) ≡ ("a" ∷ "b" ∷ [], 5))
    × WellFormed (extend ("a" ∷ "b" ∷ []) three_sent)
since-extend_example = since-extend ("a" ∷ "b" ∷ []) three_sent three_sent-WellFormed (omega arith)

watchdog_tick-Reachable_example :
    let a = drop_guard (open_connection 70 (new 5)) in
    ((watchdog_tick other_failure 42 (some 10) 100 a ≡ exits) ↔ ⊥)
    × ((watchdog_tick other_failure 42 (some 10) 100 a ≡ requests_stop)
        ↔ ((¬ ⊥) × ((let n : ℕ = 0 in n ≡ 0) × (10 ≤ 100 - 70))))
watchdog_tick-Reachable_example =
    watchdog_tick-Reachable other_failure 42 100 (some 10) (finishes (opens 70 (starts 5)))

poll_wait_ms_bounds_example :
    let wait = poll_wait_ms "feeds" "news" 60 3 in
    let delay = initial_poll_delay_ms "feeds" "news" 60 in
    let i = interval_ms 60 in
    (0 < wait)
    × (7 * i ≤ 8 * wait)
    × (8 * wait ≤ 9 * i + 8)
    × (i ≤ wait + 15000)
    × (wait ≤ i + 15000)
    × (4 * delay < i)
    × (delay < 30000)
poll_wait_ms_bounds_example = poll_wait_ms_bounds "feeds" "news" 60 3

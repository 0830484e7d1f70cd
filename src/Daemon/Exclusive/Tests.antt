-- ===== src/Daemon/Exclusive/Tests.antt =====
-- The theorems on exclusive keys at inputs: one session takes the keys of another, and is reaped.
use uxc.Base.{String, ◌≡◌, ◌↔◌, refl, Bool, true, false, Option, none, some, List, [], ◌∷◌}
use uxc.Base.Max.{In}
use uxc.Daemon.Exclusive.{
  Manager, no_sessions, Shutdown, exited, busy, key_in_use, reusable, ClaimError, release, claim,
  cleanup, register, remove_session, other_owners, evict_one, evict_all,
  evict_stdio_exclusive_conflicts, start_session, reuse_or_start, take_session, get_or_create_stdio,
}
use uxc.Daemon.Exclusive.TakenOff.{OnlyExited}
use uxc.Daemon.Exclusive.Claimed.{fresh, asked, Claims, Reachable, Reachable-get_or_create_stdio}
use uxc.Daemon.Exclusive.Reaper.{
  Look, unsupported, instant_cutoff, allows_reap, should_reap, stdio_remove, remove_keys,
  cleanup_keys, cleanup_idle,
}
use uxc.Daemon.Exclusive.Reaped.{Reapable, cleanup_idle-Reapable}

abbrev ask : Shutdown → String → List String → Manager → Option ClaimError × Manager
ask how s keys m = get_or_create_stdio (λ t. how) true reusable s keys m

abbrev one_session : Manager
one_session = (ask exited "a" ("profile" ∷ "port" ∷ []) no_sessions).1

abbrev port_owner : Option ClaimError × Manager → Option ClaimError × Option String × Bool
port_owner (o, m) = (o, m.stdio_exclusive_owners "port", m.stdio "a")

taken : port_owner (ask exited "b" ("port" ∷ []) one_session) ≡ (none, some "b", false)
unfolding get_or_create_stdio take_session reuse_or_start start_session
    evict_stdio_exclusive_conflicts evict_all evict_one other_owners remove_session register cleanup
    claim release
taken = refl

refused :
    port_owner (ask busy "b" ("port" ∷ []) one_session) ≡ (some (key_in_use "a"), some "a", true)
unfolding get_or_create_stdio take_session reuse_or_start start_session
    evict_stdio_exclusive_conflicts evict_all evict_one other_owners remove_session register cleanup
    claim release
refused = refl

Reachable-get_or_create_stdio_example :
    Claims "b" ("port" ∷ []) one_session (ask exited "b" ("port" ∷ []) one_session)
    × OnlyExited
        (λ t. exited)
        "b"
        ("port" ∷ [])
        one_session
        (ask exited "b" ("port" ∷ []) one_session).1
Reachable-get_or_create_stdio_example =
    Reachable-get_or_create_stdio (λ t. exited) true reusable "b" ("port" ∷ [])
      (asked (λ t. exited) true reusable "a" ("profile" ∷ "port" ∷ []) fresh)

abbrev idle_look : Look
idle_look = record {
  session = record {
    idle_ttl_secs = 10;
    last_used = 5;
    fetch_state = unsupported;
    reap_policy = none;
    auto_reap_allowed = none;
  };
  now = 20000000000;
}

abbrev looks : List (String × Option Look)
looks = ("a", some idle_look) ∷ ("b", none) ∷ []

reaped : (cleanup_idle looks one_session).stdio_exclusive_owners "port" ≡ none
unfolding cleanup_idle cleanup_keys remove_keys stdio_remove should_reap allows_reap instant_cutoff
    get_or_create_stdio take_session start_session evict_stdio_exclusive_conflicts evict_all
    other_owners register cleanup claim release
reaped = refl

one_session-live : one_session.stdio "a" ≡ true
unfolding get_or_create_stdio take_session start_session evict_stdio_exclusive_conflicts evict_all
    other_owners register cleanup
one_session-live = refl

cleanup_idle-Reapable_example :
    Reachable (cleanup_idle looks one_session)
    × (((cleanup_idle looks one_session).stdio "a" ≡ false)
        ↔ ((look : Look) × In ("a", some look) looks × Reapable look))
cleanup_idle-Reapable_example =
    cleanup_idle-Reapable looks "a"
      (asked (λ t. exited) true reusable "a" ("profile" ∷ "port" ∷ []) fresh) one_session-live

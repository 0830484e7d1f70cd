-- ===== src/Daemon/Exclusive/Reaped.antt =====
-- Which sessions are reaped.
use uxc.Base.{
  ℕ, ◌+◌, ◌*◌, ◌<◌, String, ◌≡◌, refl, sym, ap, ◌∙◌, subst, Bool, true, false, not, ◌&&◌, Option,
  none, some, List, [], ◌∷◌, ltb, ◌==◌, unwrap_or, arith, Bool-cases, inl, inr, ◌⊎◌, ◌↔◌,
  false-ne-true, true-ne-false, some-ne-none, some-injective,
}
use uxc.Base.Max.{In}
use uxc.Daemon.Exclusive.{Manager, put, cleanup, remove_session}
use uxc.Daemon.Exclusive.Registry.{put-here, put-elsewhere, String-cases, In-cases}
use uxc.Daemon.Exclusive.Claimed.{Reachable, removed}
use uxc.Daemon.Exclusive.Reaper.{
  FetchState, unsupported, available, unknown, ReapPolicy, safe_idle_reap, stateful, Look,
  nanoseconds, instant_cutoff, allows_reap, used_before, should_reap, stdio_remove, remove_keys,
  cleanup_keys, cleanup_idle,
}

-- The contract of the session lets it be reaped: it is safe to, or the server knows no contract, or the
-- session is stateful and its last snapshot allows it.
pub data Permits : FetchState → Option ReapPolicy → Option Bool → Type 0 where
  is_safe :
      {state : FetchState} {snapshot : Option Bool} → Permits state (some safe_idle_reap) snapshot
  no_contract : {snapshot : Option Bool} → Permits unsupported none snapshot
  idle_unsupported : Permits unsupported (some stateful) (some true)
  idle_available : Permits available (some stateful) (some true)

-- The session has a time limit, which has passed since it was last used, and may be reaped.
abbrev pub Reapable : Look → Type 0
Reapable look =
    (0 < look.session.idle_ttl_secs)
    × (look.session.last_used + look.session.idle_ttl_secs * nanoseconds < look.now)
    × Permits look.session.fetch_state look.session.reap_policy look.session.auto_reap_allowed

removed_all : List String → Manager → Manager
removed_all [] m = m
removed_all (key ∷ keys) m = removed_all keys (remove_session key m)

cleanup_keys-removed_all :
    (keys : List String) (m : Manager)
    → cleanup_keys keys (record m { stdio = remove_keys keys m.stdio }) ≡ removed_all keys m
unfolding cleanup_keys remove_keys removed_all remove_session cleanup
cleanup_keys-removed_all [] m = refl
cleanup_keys-removed_all (key ∷ keys) m = cleanup_keys-removed_all keys (remove_session key m)

removed_all-Reachable :
    (keys : List String) {m : Manager} → Reachable m → Reachable (removed_all keys m)
unfolding removed_all
removed_all-Reachable [] r = r
removed_all-Reachable (key ∷ keys) r = removed_all-Reachable keys (removed key r)

remove_keys-In :
    (keys : List String) (stdio : String → Bool) (t : String)
    → (In t keys ⊎ (stdio t ≡ false))
    → remove_keys keys stdio t ≡ false
unfolding remove_keys
remove_keys-In [] stdio t (inl i) = absurd i
remove_keys-In [] stdio t (inr e) = e
remove_keys-In (key ∷ keys) stdio t h =
    remove_keys-In keys (put key false stdio) t (elim (String-cases t key) [
      | inl q ↦ inr (put-here key t false stdio q)
      | inr n ↦ elim h [
        | inl (inl q) ↦ absurd (n q)
        | inl (inr i) ↦ inl i
        | inr e ↦ inr (put-elsewhere key t false stdio n ∙ e)
      ]
    ])

remove_keys-others :
    (keys : List String) (stdio : String → Bool) (t : String)
    → ¬ In t keys
    → remove_keys keys stdio t ≡ stdio t
unfolding remove_keys
remove_keys-others [] stdio t n = refl
remove_keys-others (key ∷ keys) stdio t n =
    remove_keys-others keys (put key false stdio) t (λ i. n (inr i))
    ∙ put-elsewhere key t false stdio (λ q. n (inl q))

cleanup_keys-stdio : (keys : List String) (m : Manager) → (cleanup_keys keys m).stdio ≡ m.stdio
unfolding cleanup_keys cleanup
cleanup_keys-stdio [] m = refl
cleanup_keys-stdio (key ∷ keys) m = cleanup_keys-stdio keys (cleanup key m)

used_before-instant_cutoff :
    (now last_used ttl : ℕ)
    → (used_before last_used (instant_cutoff now ttl) ≡ true)
      ↔ (last_used + ttl * nanoseconds < now)
unfolding instant_cutoff
used_before-instant_cutoff now last_used ttl = elim (Bool-cases (ltb now (ttl * nanoseconds))) [
  | inl q ↦ rw (instant_cutoff, q) (λ e. absurd (false-ne-true e), λ h. absurd (ground arith))
  | inr q ↦ rw (instant_cutoff, q) (λ e. ground arith, λ h. ground arith)
]

allows_reap-Permits :
    (state : FetchState) (policy : Option ReapPolicy) (snapshot : Option Bool)
    → allows_reap state policy (unwrap_or snapshot false) ≡ true
    → Permits state policy snapshot
unfolding allows_reap
allows_reap-Permits state (some safe_idle_reap) o e = is_safe
allows_reap-Permits unsupported none o e = no_contract
allows_reap-Permits available none o e = absurd (false-ne-true e)
allows_reap-Permits unknown none o e = absurd (false-ne-true e)
allows_reap-Permits unknown (some stateful) o e = absurd (false-ne-true e)
allows_reap-Permits unsupported (some stateful) none e = absurd (false-ne-true e)
allows_reap-Permits unsupported (some stateful) (some true) e = idle_unsupported
allows_reap-Permits unsupported (some stateful) (some false) e = absurd (false-ne-true e)
allows_reap-Permits available (some stateful) none e = absurd (false-ne-true e)
allows_reap-Permits available (some stateful) (some true) e = idle_available
allows_reap-Permits available (some stateful) (some false) e = absurd (false-ne-true e)

Permits-allows_reap :
    {state : FetchState} {policy : Option ReapPolicy} {snapshot : Option Bool}
    → Permits state policy snapshot
    → allows_reap state policy (unwrap_or snapshot false) ≡ true
unfolding allows_reap
Permits-allows_reap is_safe = refl
Permits-allows_reap no_contract = refl
Permits-allows_reap idle_unsupported = refl
Permits-allows_reap idle_available = refl

and_iff : (a b : Bool) → (a && b ≡ true) ↔ ((a ≡ true) × (b ≡ true))
and_iff a b = ground arith

not_zero_iff : (n : ℕ) → (not (n == 0) ≡ true) ↔ (0 < n)
not_zero_iff n = ground arith

should_reap-Reapable : (look : Look) → (should_reap look ≡ true) ↔ Reapable look
unfolding should_reap
should_reap-Reapable look =
    let s = look.session in
    let since = used_before-instant_cutoff look.now s.last_used s.idle_ttl_secs in
    (
      λ e.
          let x = (and_iff _ _).0 e in
          let y = (and_iff _ _).0 x.0 in
          (
            (not_zero_iff s.idle_ttl_secs).0 y.0,
            since.0 y.1,
            allows_reap-Permits s.fetch_state s.reap_policy s.auto_reap_allowed x.1,
          ),
      λ h. (and_iff _ _).1 (
        (and_iff _ _).1 ((not_zero_iff s.idle_ttl_secs).1 h.0, since.1 h.1),
        Permits-allows_reap h.2,
      ),
    )

-- The sessions that are found reapable.
stdio_remove-In :
    (entries : List (String × Option Look)) (t : String)
    → In t (stdio_remove entries) ↔ ((look : Look) × In (t, some look) entries × Reapable look)
unfolding stdio_remove
stdio_remove-In [] t = (λ i. absurd i, λ (l, i, r). absurd i)
stdio_remove-In ((key, none) ∷ entries) t =
    let rest = stdio_remove-In entries t in
    (
      λ i. let x = rest.0 i in (x.0, inr x.1, x.2),
      λ (l, i, r). elim i [
        | inl q ↦ absurd (some-ne-none (ap (λ x. x.1) q))
        | inr j ↦ rest.1 (l, j, r)
      ],
    )
stdio_remove-In ((key, some look) ∷ entries) t =
    let rest = stdio_remove-In entries t in
    let here = should_reap-Reapable look in
    elim (Bool-cases (should_reap look)) [
      | inl e ↦ rw e (
        λ i. elim i [
          | inl q ↦ (look, inl (ap (λ x. (x, some look)) q), here.0 e)
          | inr j ↦ (let x = rest.0 j in (x.0, inr x.1, x.2))
        ],
        λ (l, i, r). elim i [ inl q ↦ inl (ap (λ x. x.0) q) | inr j ↦ inr (rest.1 (l, j, r)) ],
      )
      | inr e ↦ rw e (
        λ i. let x = rest.0 i in (x.0, inr x.1, x.2),
        λ (l, i, r). elim i [
          | inl q ↦ absurd (
              true-ne-false
                (sym (here.1 (subst Reapable (some-injective (ap (λ x. x.1) q)) r)) ∙ e))
          | inr j ↦ rest.1 (l, j, r)
        ],
      )
    ]

-- In every state that requests for sessions, and removals of sessions, reach: a look at the sessions
-- takes a session off the map exactly when it was found not locked, with a time limit that had passed
-- since its last use, and with a contract that lets it be reaped. Nothing else counts: the code does
-- not ask whether a subscription holds the session, although docs/decisions/daemon-session-lifecycle.md
-- says that such a session is not reaped. The state that is left is again one that requests and removals
-- reach, so each session owns exactly the keys that it holds.
pub cleanup_idle-Reapable :
    (entries : List (String × Option Look)) {m : Manager} (t : String)
    → Reachable m
    → m.stdio t ≡ true
    → Reachable (cleanup_idle entries m)
      × (((cleanup_idle entries m).stdio t ≡ false)
          ↔ ((look : Look) × In (t, some look) entries × Reapable look))
unfolding cleanup_idle
cleanup_idle-Reapable entries {m} t r live =
    let keys = stdio_remove entries in
    let found = stdio_remove-In entries t in
    let after : (cleanup_idle entries m).stdio t ≡ remove_keys keys m.stdio t =
      ap (λ f. f t) (cleanup_keys-stdio keys (record m { stdio = remove_keys keys m.stdio })) in
    (
      subst Reachable (sym (cleanup_keys-removed_all keys m)) (removed_all-Reachable keys r),
      (
        λ e. elim (In-cases t keys) [
          | inl i ↦ found.0 i
          | inr n ↦
              absurd (
                true-ne-false
                  (sym live ∙ sym (remove_keys-others keys m.stdio t n) ∙ sym after ∙ e))
        ],
        λ h. after ∙ remove_keys-In keys m.stdio t (inl (found.1 h)),
      ),
    )

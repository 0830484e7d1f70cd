-- ===== src/Daemon/Exclusive/Claimed.antt =====
-- Who has an exclusive key after it was asked for.
use uxc.Base.{none-ne-some, some-ne-none}
use uxc.Base.{
  String, ◌≡◌, refl, ◌∙◌, Bool, true, false, Option, none, some, List, Bool-cases, inl, inr,
}
use uxc.Base.Max.{In}
use uxc.Daemon.Exclusive.{
  Manager, no_sessions, put, remove_session, Shutdown, Existing, unavailable, child_exited,
  reusable, ClaimError, and_then, sort, dedup, other_owners, evict_stdio_exclusive_conflicts,
  start_session, reuse_or_start, take_session, get_or_create_stdio,
}
use uxc.Daemon.Exclusive.Registry.{put-here, put-elsewhere, String-cases, Agrees}
use uxc.Daemon.Exclusive.Owners.{other_owners-In, sort-In, dedup-In}
use uxc.Daemon.Exclusive.Evicted.{remove_session-IsGone, Evicts, evict_all-Evicts}
use uxc.Daemon.Exclusive.TakenOff.{remove_session-stdio, OnlyExited, get_or_create_stdio-OnlyExited}
use uxc.Daemon.Exclusive.Registered.{
  Free, HasKeys, register-stdio, register-Agrees, register-HasKeys,
}

-- What taking a session leaves, where the keys are free: the registry agrees; without an error the
-- session is there with its keys, and the other sessions are as they were.
abbrev Takes : String → List String → Manager → Option ClaimError × Manager → Type 0
Takes s keys m (o, m') =
    Agrees m'
    × (o ≡ none
        → (m'.stdio s ≡ true)
          × HasKeys s keys m'
          × ((t : String) → ¬ (t ≡ s) → m'.stdio t ≡ m.stdio t))

start_session-Takes :
    (starts : Bool) (s : String) (keys : List String) (m : Manager)
    → Agrees m
    → Free s keys m
    → Takes s keys m (start_session starts s keys m)
unfolding start_session
start_session-Takes false s keys m h free = (h, λ q. absurd (some-ne-none q))
start_session-Takes true s keys m h free =
    let m' = record m { stdio = put s true m.stdio } in
    (
      register-Agrees s keys m' h free,
      λ q. (
        register-stdio s s keys m' ∙ put-here s s true m.stdio refl,
        register-HasKeys s keys m' h free,
        λ t n. register-stdio s t keys m' ∙ put-elsewhere s t true m.stdio n,
      ),
    )

remove_session-Free :
    (s : String) (keys : List String) (m : Manager)
    → Agrees m
    → Free s keys m
    → Free s keys (remove_session s m)
remove_session-Free s keys m h free k t i e = free k t i ((remove_session-IsGone s m h).1.0 k t e)

reuse_or_start-Takes :
    (starts : Bool) (existing : Existing) (s : String) (keys : List String) (m : Manager)
    → m.stdio s ≡ true
    → Agrees m
    → Free s keys m
    → Takes s keys m (reuse_or_start starts existing s keys m)
unfolding reuse_or_start
reuse_or_start-Takes starts unavailable s keys m live h free = (h, λ q. absurd (some-ne-none q))
reuse_or_start-Takes starts child_exited s keys m live h free =
    let r =
      start_session-Takes starts s keys (remove_session s m) (remove_session-IsGone s m h).0
        (remove_session-Free s keys m h free) in
    (r.0, λ q. ((r.1 q).0, (r.1 q).1, λ t n. (r.1 q).2 t n ∙ remove_session-stdio s t m n))
reuse_or_start-Takes starts reusable s keys m live h free = (
  register-Agrees s keys m h free,
  λ q. (
    register-stdio s s keys m ∙ live,
    register-HasKeys s keys m h free,
    λ t n. register-stdio s t keys m,
  ),
)

take_session-Takes :
    (starts : Bool) (existing : Existing) (s : String) (keys : List String) (m : Manager)
    → Agrees m
    → Free s keys m
    → Takes s keys m (take_session starts existing s keys m)
unfolding take_session
take_session-Takes starts existing s keys m h free = elim (Bool-cases (m.stdio s)) [
  | inl e ↦ rw e (reuse_or_start-Takes starts existing s keys m e h free)
  | inr e ↦ rw e (start_session-Takes starts s keys m h free)
]

-- What asking for a session with keys leaves: the registry agrees; without an error the session is
-- there with its keys, and the sessions that had one of them are gone.
abbrev pub Claims : String → List String → Manager → Option ClaimError × Manager → Type 0
Claims s keys m (o, m') =
    Agrees m'
    × (o ≡ none
        → (m'.stdio s ≡ true)
          × HasKeys s keys m'
          × ((k t : String)
              → In k keys
              → ¬ (t ≡ s)
              → m.stdio_exclusive_owners k ≡ some t
              → m'.stdio t ≡ false))

and_then-Claims :
    (starts : Bool) (existing : Existing) (s : String) (keys : List String) (m : Manager)
    (first : Option ClaimError × Manager)
    → Evicts m (λ t. In t (dedup (sort (other_owners s keys m)))) first
    → Claims s keys m (and_then first (take_session starts existing s keys))
and_then-Claims starts existing s keys m (some e, m') h = (h.0, λ q. absurd (some-ne-none q))
and_then-Claims starts existing s keys m (none, m') h =
    let gone =
      λ (k t : String) (i : In k keys) (n : ¬ (t ≡ s)) (e : m.stdio_exclusive_owners k ≡ some t).
        h.2 refl t (
          dedup-In t (sort (other_owners s keys m))
            (sort-In t (other_owners s keys m) (other_owners-In s t k keys m i n e))) in
    let free : Free s keys m' = λ k t i e. elim (String-cases t s) [
      | inl q ↦ q
      | inr n ↦ absurd ((gone k t i n (h.1.0 k t e)).0 k e)
    ] in
    let r = take_session-Takes starts existing s keys m' h.0 free in
    (r.0, λ q. ((r.1 q).0, (r.1 q).1, λ k t i n e. (r.1 q).2 t n ∙ (gone k t i n e).1))

get_or_create_stdio-Claims :
    (shutdown : String → Shutdown) (starts : Bool) (existing : Existing) (s : String)
    (keys : List String) (m : Manager)
    → Agrees m
    → Claims s keys m (get_or_create_stdio shutdown starts existing s keys m)
unfolding get_or_create_stdio evict_stdio_exclusive_conflicts
get_or_create_stdio-Claims shutdown starts existing s keys m h =
    and_then-Claims starts existing s keys m _
      (evict_all-Evicts shutdown keys (dedup (sort (other_owners s keys m))) m h)

-- What requests for sessions, and the removal of sessions that are idle or killed, lead to.
pub data Reachable : Manager → Type 0 where
  fresh : Reachable no_sessions
  asked :
      {m : Manager} (shutdown : String → Shutdown) (starts : Bool) (existing : Existing)
      (s : String) (keys : List String)
      → Reachable m
      → Reachable (get_or_create_stdio shutdown starts existing s keys m).1
  removed : {m : Manager} (s : String) → Reachable m → Reachable (remove_session s m)

Reachable-Agrees : {m : Manager} → Reachable m → Agrees m
Reachable-Agrees fresh = λ k t. (λ e. absurd (none-ne-some e), λ i. absurd i)
Reachable-Agrees (asked {m} shutdown starts existing s keys r) =
    (get_or_create_stdio-Claims shutdown starts existing s keys m (Reachable-Agrees r)).0
Reachable-Agrees (removed {m} s r) = (remove_session-IsGone s m (Reachable-Agrees r)).0

-- In every state that requests for sessions and removals of sessions reach, and for every request with
-- exclusive keys, also one that fails: afterwards each session owns exactly the keys that it holds, so
-- no key has two holders; and another session is taken off the map only if it owned a key that was asked
-- for and its shutdown came to its exit, so one that is at work is not. A request without an error
-- leaves its session there as the owner of each of its keys and the only holder, and every other session
-- that owned one of them is gone.
pub Reachable-get_or_create_stdio :
    {m : Manager} (shutdown : String → Shutdown) (starts : Bool) (existing : Existing) (s : String)
    (keys : List String)
    → Reachable m
    → Claims s keys m (get_or_create_stdio shutdown starts existing s keys m)
      × OnlyExited shutdown s keys m (get_or_create_stdio shutdown starts existing s keys m).1
Reachable-get_or_create_stdio {m} shutdown starts existing s keys r = (
  get_or_create_stdio-Claims shutdown starts existing s keys m (Reachable-Agrees r),
  get_or_create_stdio-OnlyExited shutdown starts existing s keys m,
)

-- ===== src/Daemon/Exclusive/Evicted.antt =====
-- What is left after the owners of some keys are shut down.
use uxc.Base.{some-ne-none}
use uxc.Base.{
  String, ◌≡◌, refl, sym, ◌∙◌, false, Option, none, some, List, [], ◌∷◌, unwrap_or, Bool-cases, inl,
  inr, subst,
}
use uxc.Base.Max.{In}
use uxc.Daemon.Exclusive.{
  Manager, put, release, cleanup, remove_session, Shutdown, exited, exit_failed, busy, ClaimError,
  shut_down, drop_stale, evict_one, evict_all, and_then,
}
use uxc.Daemon.Exclusive.Registry.{
  put-here, put-elsewhere, String-cases, release-was, release-others, Agrees, AgreesBut,
  Agrees-AgreesBut, cleanup-none, cleanup-Agrees,
}

-- No key has got another owner, and no session has come.
abbrev pub OnlyLess : Manager → Manager → Type 0
OnlyLess m m' =
    ((k t : String) → m'.stdio_exclusive_owners k ≡ some t → m.stdio_exclusive_owners k ≡ some t)
    × ((t : String) → m.stdio t ≡ false → m'.stdio t ≡ false)

-- A session owns nothing, and is no more.
abbrev pub IsGone : String → Manager → Type 0
IsGone s m = ((k : String) → ¬ (m.stdio_exclusive_owners k ≡ some s)) × (m.stdio s ≡ false)

pub cleanup-owners :
    (s : String) (m : Manager) (k t : String)
    → (cleanup s m).stdio_exclusive_owners k ≡ some t
    → m.stdio_exclusive_owners k ≡ some t
unfolding cleanup
cleanup-owners s m k t e =
    (release-was s (unwrap_or (m.stdio_session_exclusives s) []) m.stdio_exclusive_owners k t e).0

cleanup-stdio : (s t : String) (m : Manager) → (cleanup s m).stdio t ≡ m.stdio t
unfolding cleanup
cleanup-stdio s t m = refl

cleanup-unowned :
    (s : String) (m : Manager)
    → AgreesBut s m
    → (k : String) → ¬ ((cleanup s m).stdio_exclusive_owners k ≡ some s)
cleanup-unowned s m h k e = cleanup-none s m k ((cleanup-Agrees s m h k s).0 e)

-- A session that is taken off the map is gone.
pub remove_session-IsGone :
    (s : String) (m : Manager)
    → Agrees m
    → Agrees (remove_session s m) × OnlyLess m (remove_session s m) × IsGone s (remove_session s m)
unfolding remove_session
remove_session-IsGone s m h =
    let m' = record m { stdio = put s false m.stdio } in
    let but : AgreesBut s m' = Agrees-AgreesBut s m h in
    (
      cleanup-Agrees s m' but,
      (
        λ k t e. cleanup-owners s m' k t e,
        λ t e. cleanup-stdio s t m' ∙ elim (String-cases t s) [
          | inl q ↦ put-here s t false m.stdio q
          | inr n ↦ put-elsewhere s t false m.stdio n ∙ e
        ],
      ),
      (cleanup-unowned s m' but, cleanup-stdio s s m' ∙ put-here s s false m.stdio refl),
    )

drop_stale-IsGone :
    (s : String) (keys : List String) (m : Manager)
    → m.stdio s ≡ false
    → Agrees m
    → Agrees (drop_stale s keys m)
      × OnlyLess m (drop_stale s keys m)
      × IsGone s (drop_stale s keys m)
drop_stale-IsGone s keys m gone h =
    let m' = record m { stdio_exclusive_owners = release s keys m.stdio_exclusive_owners } in
    let but : AgreesBut s m' = λ k t. (
      λ e. (h k t).0 (release-was s keys m.stdio_exclusive_owners k t e).0,
      λ n i. release-others s keys m.stdio_exclusive_owners k t n ((h k t).1 i),
    ) in
    (
      cleanup-Agrees s m' but,
      (
        λ k t e. (release-was s keys m.stdio_exclusive_owners k t (cleanup-owners s m' k t e)).0,
        λ t e. cleanup-stdio s t m' ∙ e,
      ),
      (cleanup-unowned s m' but, cleanup-stdio s s m' ∙ gone),
    )

-- A step of the eviction: the registry agrees, has only less, and where there is no error the sessions
-- asked for are gone.
abbrev pub Evicts : Manager → (String → Type 0) → Option ClaimError × Manager → Type 0
Evicts m P (o, m') = Agrees m' × OnlyLess m m' × (o ≡ none → (s : String) → P s → IsGone s m')

shut_down-Evicts :
    (how : Shutdown) (s : String) (m : Manager)
    → Agrees m
    → Evicts m (λ t. t ≡ s) (shut_down how s m)
shut_down-Evicts exited s m h =
    let r = remove_session-IsGone s m h in
    (r.0, r.1, λ e t q. subst (λ x. IsGone x (remove_session s m)) (sym q) r.2)
shut_down-Evicts exit_failed s m h = (h, (λ k t e. e, λ t e. e), λ e t q. absurd (some-ne-none e))
shut_down-Evicts busy s m h = (h, (λ k t e. e, λ t e. e), λ e t q. absurd (some-ne-none e))

evict_one-Evicts :
    (shutdown : String → Shutdown) (keys : List String) (s : String) (m : Manager)
    → Agrees m
    → Evicts m (λ t. t ≡ s) (evict_one shutdown keys s m)
unfolding evict_one
evict_one-Evicts shutdown keys s m h = elim (Bool-cases (m.stdio s)) [
  | inl e ↦ rw e (shut_down-Evicts (shutdown s) s m h)
  | inr e ↦
      let r = drop_stale-IsGone s keys m e h in
      rw e (r.0, r.1, λ q t p. subst (λ x. IsGone x (drop_stale s keys m)) (sym p) r.2)
]

OnlyLess-IsGone : (s : String) (m m' : Manager) → OnlyLess m m' → IsGone s m → IsGone s m'
OnlyLess-IsGone s m m' l g = (λ k e. g.0 k (l.0 k s e), l.1 s g.1)

OnlyLess-trans : (a b c : Manager) → OnlyLess a b → OnlyLess b c → OnlyLess a c
OnlyLess-trans a b c l k = (λ j t e. l.0 j t (k.0 j t e), λ t e. k.1 t (l.1 t e))

-- One step and then others.
and_then-Evicts :
    (s : String) (ss : List String) (m : Manager) (first : Option ClaimError × Manager)
    (next : Manager → Option ClaimError × Manager)
    → Evicts m (λ t. t ≡ s) first
    → ((m' : Manager) → Agrees m' → Evicts m' (λ t. In t ss) (next m'))
    → Evicts m (λ t. In t (s ∷ ss)) (and_then first next)
and_then-Evicts s ss m (some e, m') next h k = (h.0, h.1, λ q t i. absurd (some-ne-none q))
and_then-Evicts s ss m (none, m') next h k =
    let r = k m' h.0 in
    (
      r.0,
      OnlyLess-trans m m' (next m').1 h.1 r.1,
      λ q t i. elim i [
        | inl p ↦ OnlyLess-IsGone t m' (next m').1 r.1 (h.2 refl t p)
        | inr j ↦ r.2 q t j
      ],
    )

pub evict_all-Evicts :
    (shutdown : String → Shutdown) (keys ss : List String) (m : Manager)
    → Agrees m
    → Evicts m (λ t. In t ss) (evict_all shutdown keys ss m)
unfolding evict_all
evict_all-Evicts shutdown keys [] m h = (h, (λ k t e. e, λ t e. e), λ q t i. absurd i)
evict_all-Evicts shutdown keys (s ∷ ss) m h =
    and_then-Evicts s ss m (evict_one shutdown keys s m) (evict_all shutdown keys ss)
      (evict_one-Evicts shutdown keys s m h) (evict_all-Evicts shutdown keys ss)

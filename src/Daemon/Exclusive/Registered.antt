-- ===== src/Daemon/Exclusive/Registered.antt =====
-- A session that registers keys which no other session owns has them.
use uxc.Base.{some-injective}
use uxc.Base.{
  String, ◌≡◌, refl, sym, ap, ◌∙◌, Option, some, List, [], ◌∷◌, unwrap_or, inl, inr, ◌↔◌, subst,
}
use uxc.Base.Max.{In}
use uxc.Daemon.Exclusive.{Manager, put, claim, cleanup, register}
use uxc.Daemon.Exclusive.Registry.{
  put-here, put-elsewhere, String-cases, claim-In, claim-out, In-cases, Holds, Agrees,
  Agrees-AgreesBut, cleanup-none, cleanup-Agrees,
}
use uxc.Daemon.Exclusive.Evicted.{cleanup-owners}

-- No other session owns one of the keys.
abbrev pub Free : String → List String → Manager → Type 0
Free s keys m = (k t : String) → In k keys → m.stdio_exclusive_owners k ≡ some t → t ≡ s

pub register-stdio :
    (s t : String) (keys : List String) (m : Manager) → (register s keys m).stdio t ≡ m.stdio t
unfolding register cleanup
register-stdio s t [] m = refl
register-stdio s t (k ∷ ks) m = refl

-- The session owns the keys, and no other session holds one.
abbrev pub HasKeys : String → List String → Manager → Type 0
HasKeys s keys m =
    (k : String)
    → In k keys
    → (m.stdio_exclusive_owners k ≡ some s) × ((t : String) → Holds m t k → t ≡ s)

module _ (s : String) (keys : List String) (m : Manager) (h : Agrees m) (free : Free s keys m) where
  cleaned-Agrees : Agrees (cleanup s m)
  cleaned-Agrees = cleanup-Agrees s m (Agrees-AgreesBut s m h)

  -- The keys of the sessions after a registration.
  abbrev claimed : String → Option (List String)
  claimed = put s (some keys) (cleanup s m).stdio_session_exclusives

  claimed-here : (k t : String) → t ≡ s → In k (unwrap_or (claimed t) []) ↔ In k keys
  claimed-here k t q =
      let e = put-here s t (some keys) (cleanup s m).stdio_session_exclusives q in
      (
        λ i. subst (λ o. In k (unwrap_or o [])) e i,
        λ i. subst (λ o. In k (unwrap_or o [])) (sym e) i,
      )

  claimed-elsewhere :
      (k t : String) → ¬ (t ≡ s) → In k (unwrap_or (claimed t) []) ↔ Holds (cleanup s m) t k
  claimed-elsewhere k t n =
      let e = put-elsewhere s t (some keys) (cleanup s m).stdio_session_exclusives n in
      (
        λ i. subst (λ o. In k (unwrap_or o [])) e i,
        λ i. subst (λ o. In k (unwrap_or o [])) (sym e) i,
      )

  claim-to :
      (k t : String)
      → claim s keys (cleanup s m).stdio_exclusive_owners k ≡ some t
      → In k (unwrap_or (claimed t) [])
  claim-to k t e = elim (In-cases k keys) [
    | inl i ↦
        let q = some-injective (sym e ∙ claim-In s keys (cleanup s m).stdio_exclusive_owners k i) in
        (claimed-here k t q).1 i
    | inr n ↦
        let was = sym (claim-out s keys (cleanup s m).stdio_exclusive_owners k n) ∙ e in
        let held = (cleaned-Agrees k t).0 was in
        let other : ¬ (t ≡ s) =
          λ q. cleanup-none s m k (subst (λ x. Holds (cleanup s m) x k) q held) in
        (claimed-elsewhere k t other).1 held
  ]

  claim-from :
      (k t : String)
      → In k (unwrap_or (claimed t) [])
      → claim s keys (cleanup s m).stdio_exclusive_owners k ≡ some t
  claim-from k t i = elim (String-cases t s) [
    | inl q ↦
        claim-In s keys (cleanup s m).stdio_exclusive_owners k ((claimed-here k t q).0 i)
        ∙ ap some (sym q)
    | inr n ↦
        let was = (cleaned-Agrees k t).1 ((claimed-elsewhere k t n).0 i) in
        claim-out s keys (cleanup s m).stdio_exclusive_owners k
          (λ j. n (free k t j (cleanup-owners s m k t was)))
        ∙ was
  ]

pub register-Agrees :
    (s : String) (keys : List String) (m : Manager)
    → Agrees m
    → Free s keys m
    → Agrees (register s keys m)
unfolding register
register-Agrees s [] m h free = h
register-Agrees s (k0 ∷ ks) m h free =
    λ k t. (claim-to s (k0 ∷ ks) m h free k t, claim-from s (k0 ∷ ks) m h free k t)

register-owner :
    (s : String) (keys : List String) (m : Manager) (k : String)
    → In k keys
    → (register s keys m).stdio_exclusive_owners k ≡ some s
unfolding register
register-owner s [] m k i = absurd i
register-owner s (k0 ∷ ks) m k i = claim-In s (k0 ∷ ks) (cleanup s m).stdio_exclusive_owners k i

pub register-HasKeys :
    (s : String) (keys : List String) (m : Manager)
    → Agrees m
    → Free s keys m
    → HasKeys s keys (register s keys m)
register-HasKeys s keys m h free k i =
    let mine = register-owner s keys m k i in
    (mine, λ t held. some-injective (sym ((register-Agrees s keys m h free k t).1 held) ∙ mine))

-- ===== src/Daemon/Exclusive/Registry.antt =====
-- The owners of the keys and the keys of the sessions agree, and letting keys go keeps it so.
use uxc.Base.{false-ne-true, none-ne-some, some-injective, true-ne-false}
use uxc.Base.{
  String, ◌≡◌, refl, sym, ap, ◌∙◌, ◌↔◌, true, Option, none, some, List, [], ◌∷◌, str_eq, eq_iff,
  if◌then◌else◌, unwrap_or, Bool-cases, inl, inr, ◌⊎◌, subst,
}
use uxc.Base.Max.{In}
use uxc.Daemon.Exclusive.{Manager, put, owned_by, release, claim, cleanup}

pub put-here : {V : Type 0} (k j : String) (v : V) (m : String → V) → j ≡ k → put k v m j ≡ v
put-here k j v m e = rw ((eq_iff j k).1 e) refl

pub put-elsewhere :
    {V : Type 0} (k j : String) (v : V) (m : String → V) → ¬ (j ≡ k) → put k v m j ≡ m j
put-elsewhere k j v m n = elim (Bool-cases (str_eq j k)) [
  | inl e ↦ absurd (n ((eq_iff j k).0 e))
  | inr e ↦ rw e refl
]

pub String-cases : (s t : String) → (s ≡ t) ⊎ ¬ (s ≡ t)
String-cases s t = elim (Bool-cases (str_eq s t)) [
  | inl e ↦ inl ((eq_iff s t).0 e)
  | inr e ↦ inr (λ q. true-ne-false (sym ((eq_iff s t).1 q) ∙ e))
]

owned_by-eq : (s : String) (o : Option String) → owned_by s o ≡ true → o ≡ some s
owned_by-eq s none e = absurd (false-ne-true e)
owned_by-eq s (some o) e = rw ((eq_iff o s).0 e) refl

eq-owned_by : (s : String) (o : Option String) → o ≡ some s → owned_by s o ≡ true
eq-owned_by s o e = subst (λ p. owned_by s p ≡ true) (sym e) ((eq_iff s s).1 refl)

-- One key of a release.
let_go : String → String → (String → Option String) → String → Option String
let_go s j owners = if owned_by s (owners j) then put j none owners else owners

let_go-was :
    (s j : String) (owners : String → Option String) (k t : String)
    → let_go s j owners k ≡ some t
    → (owners k ≡ some t) × ¬ ((k ≡ j) × (t ≡ s))
unfolding let_go
let_go-was s j owners k t e = elim (Bool-cases (owned_by s (owners j))) [
  | inl o ↦ elim (String-cases k j) [
    | inl q ↦ absurd (none-ne-some (sym (put-here j k none owners q) ∙ rw o at e))
    | inr n ↦ (sym (put-elsewhere j k none owners n) ∙ rw o at e, λ h. n h.0)
  ]
  | inr o ↦
      let was : owners k ≡ some t = rw o at e in
      (
        was,
        λ h. true-ne-false (
            sym (eq-owned_by s (owners j) (subst (λ x. owners x ≡ some s) h.0 (was ∙ ap some h.1)))
            ∙ o),
      )
]

let_go-others :
    (s j : String) (owners : String → Option String) (k t : String)
    → ¬ (t ≡ s)
    → owners k ≡ some t
    → let_go s j owners k ≡ some t
unfolding let_go
let_go-others s j owners k t n e = elim (Bool-cases (owned_by s (owners j))) [
  | inl o ↦ elim (String-cases k j) [
    | inl q ↦ absurd (
        n (
          some-injective
            (sym e ∙ subst (λ x. owners x ≡ some s) (sym q) (owned_by-eq s (owners j) o))))
    | inr m ↦ rw o (put-elsewhere j k none owners m ∙ e)
  ]
  | inr o ↦ rw o e
]

-- What is left after a release was there, and is not of the session for a key that was released.
pub release-was :
    (s : String) (ks : List String) (owners : String → Option String) (k t : String)
    → release s ks owners k ≡ some t
    → (owners k ≡ some t) × ¬ (In k ks × (t ≡ s))
unfolding release let_go
release-was s [] owners k t e = (e, λ h. h.0)
release-was s (j ∷ ks) owners k t e =
    let r = release-was s ks (let_go s j owners) k t e in
    let one = let_go-was s j owners k t r.0 in
    (one.0, λ h. elim (h.0) [ inl q ↦ one.1 (q, h.1) | inr i ↦ r.1 (i, h.1) ])

-- The entries of others stay.
pub release-others :
    (s : String) (ks : List String) (owners : String → Option String) (k t : String)
    → ¬ (t ≡ s)
    → owners k ≡ some t
    → release s ks owners k ≡ some t
unfolding release let_go
release-others s [] owners k t n e = e
release-others s (j ∷ ks) owners k t n e =
    release-others s ks (let_go s j owners) k t n (let_go-others s j owners k t n e)

claim-keeps :
    (s : String) (ks : List String) (owners : String → Option String) (k : String)
    → owners k ≡ some s
    → claim s ks owners k ≡ some s
unfolding claim
claim-keeps s [] owners k e = e
claim-keeps s (j ∷ ks) owners k e =
    claim-keeps s ks (put j (some s) owners) k (elim (String-cases k j) [
      | inl q ↦ put-here j k (some s) owners q
      | inr n ↦ put-elsewhere j k (some s) owners n ∙ e
    ])

pub claim-In :
    (s : String) (ks : List String) (owners : String → Option String) (k : String)
    → In k ks
    → claim s ks owners k ≡ some s
unfolding claim
claim-In s [] owners k i = absurd i
claim-In s (j ∷ ks) owners k (inl q) =
    claim-keeps s ks (put j (some s) owners) k (put-here j k (some s) owners q)
claim-In s (j ∷ ks) owners k (inr i) = claim-In s ks (put j (some s) owners) k i

pub claim-out :
    (s : String) (ks : List String) (owners : String → Option String) (k : String)
    → ¬ In k ks
    → claim s ks owners k ≡ owners k
unfolding claim
claim-out s [] owners k n = refl
claim-out s (j ∷ ks) owners k n =
    claim-out s ks (put j (some s) owners) k (λ i. n (inr i))
    ∙ put-elsewhere j k (some s) owners (λ q. n (inl q))

pub In-cases : (k : String) (ks : List String) → In k ks ⊎ ¬ In k ks
In-cases k [] = inr (λ i. i)
In-cases k (j ∷ ks) = elim (String-cases k j) [
  | inl q ↦ inl (inl q)
  | inr n ↦ elim (In-cases k ks) [
    | inl i ↦ inl (inr i)
    | inr m ↦ inr (λ h. elim h [ inl q ↦ n q | inr i ↦ m i ])
  ]
]

-- A session holds a key.
abbrev pub Holds : Manager → String → String → Type 0
Holds m s k = In k (unwrap_or (m.stdio_session_exclusives s) [])

-- A session owns exactly the keys that it holds.
abbrev pub Agrees : Manager → Type 0
Agrees m = (k t : String) → (m.stdio_exclusive_owners k ≡ some t) ↔ Holds m t k

-- The same, but that one session may hold keys of which it is not the owner.
abbrev pub AgreesBut : String → Manager → Type 0
AgreesBut s m =
    (k t : String)
    → (m.stdio_exclusive_owners k ≡ some t → Holds m t k)
      × (¬ (t ≡ s) → Holds m t k → m.stdio_exclusive_owners k ≡ some t)

pub Agrees-AgreesBut : (s : String) (m : Manager) → Agrees m → AgreesBut s m
Agrees-AgreesBut s m h k t = ((h k t).0, λ n. (h k t).1)

-- After a clean-up a session holds nothing.
pub cleanup-none : (s : String) (m : Manager) (k : String) → ¬ Holds (cleanup s m) s k
unfolding cleanup
cleanup-none s m k i =
    subst (λ o. In k (unwrap_or o [])) (put-here s s none m.stdio_session_exclusives refl) i

pub cleanup-Agrees : (s : String) (m : Manager) → AgreesBut s m → Agrees (cleanup s m)
unfolding cleanup
cleanup-Agrees s m h k t = elim (String-cases t s) [
  | inl q ↦ (
    λ e.
        let r =
          release-was s (unwrap_or (m.stdio_session_exclusives s) []) m.stdio_exclusive_owners k t
            e in
        absurd (r.1 (subst (λ x. Holds m x k) q ((h k t).0 r.0), q)),
    λ i.
        absurd
          (subst (λ o. In k (unwrap_or o [])) (put-here s t none m.stdio_session_exclusives q) i),
  )
  | inr n ↦
      let same = put-elsewhere s t none m.stdio_session_exclusives n in
      (
        λ e.
            subst (λ o. In k (unwrap_or o [])) (sym same)
              ((h k t).0
                (release-was s (unwrap_or (m.stdio_session_exclusives s) [])
                  m.stdio_exclusive_owners k t e).0),
        λ i.
            release-others s (unwrap_or (m.stdio_session_exclusives s) []) m.stdio_exclusive_owners
              k t n ((h k t).1 n (subst (λ o. In k (unwrap_or o [])) same i)),
      )
]

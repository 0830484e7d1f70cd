-- ===== src/Daemon/Exclusive/TakenOff.antt =====
-- Which sessions a request for a session takes off the map.
use uxc.Base.{
  String, ◌≡◌, refl, sym, ap, ◌∙◌, Bool, true, false, Option, none, some, List, [], ◌∷◌, str_eq,
  Bool-cases, inl, inr, ◌⊎◌, true-ne-false,
}
use uxc.Base.Max.{In, is_gt}
use uxc.Base.Text.{codes}
use uxc.Base.Order.{compare_text}
use uxc.Daemon.Exclusive.{
  Manager, put, cleanup, remove_session, Shutdown, exited, exit_failed, busy, Existing, unavailable,
  child_exited, reusable, ClaimError, and_then, sort, insert_sorted, dedup, push_other, push_owner,
  other_owners, shut_down, drop_stale, evict_one, evict_all, evict_stdio_exclusive_conflicts,
  start_session, reuse_or_start, take_session, get_or_create_stdio,
}
use uxc.Daemon.Exclusive.Registry.{put-elsewhere, String-cases}
use uxc.Daemon.Exclusive.Registered.{register-stdio}

In-insert_sorted : (t x : String) (xs : List String) → In t (insert_sorted x xs) → (t ≡ x) ⊎ In t xs
In-insert_sorted t x [] i = i
In-insert_sorted t x (y ∷ ys) i = elim (Bool-cases (is_gt (compare_text (codes x) (codes y)))) [
  | inl e ↦ elim (rw e at i) [
    | inl q ↦ inr (inl q)
    | inr j ↦ elim (In-insert_sorted t x ys j) [ inl q ↦ inl q | inr k ↦ inr (inr k) ]
  ]
  | inr e ↦ rw e at i
]

In-sort : (t : String) (xs : List String) → In t (sort xs) → In t xs
In-sort t [] i = i
In-sort t (x ∷ xs) i = elim (In-insert_sorted t x (sort xs) i) [
  | inl q ↦ inl q
  | inr j ↦ inr (In-sort t xs j)
]

In-push_other : (t x : String) (xs : List String) → In t (push_other x xs) → (t ≡ x) ⊎ In t xs
In-push_other t x [] i = i
In-push_other t x (y ∷ ys) i = elim (Bool-cases (str_eq x y)) [
  | inl e ↦ inr (rw e at i)
  | inr e ↦ rw e at i
]

In-dedup : (t : String) (xs : List String) → In t (dedup xs) → In t xs
In-dedup t [] i = i
In-dedup t (x ∷ xs) i = elim (In-push_other t x (dedup xs) i) [
  | inl q ↦ inl q
  | inr j ↦ inr (In-dedup t xs j)
]

In-push_owner :
    (s t : String) (o : Option String) (ss : List String)
    → In t (push_owner s o ss)
    → (o ≡ some t) ⊎ In t ss
In-push_owner s t none ss i = inr i
In-push_owner s t (some o) ss i = elim (Bool-cases (str_eq o s)) [
  | inl e ↦ inr (rw e at i)
  | inr e ↦ elim (rw e at i) [ inl q ↦ inl (ap some (sym q)) | inr j ↦ inr j ]
]

-- A session owns one of the keys.
abbrev pub OwnsOne : String → List String → Manager → Type 0
OwnsOne t keys m = (k : String) × In k keys × (m.stdio_exclusive_owners k ≡ some t)

In-other_owners :
    (s t : String) (keys : List String) (m : Manager)
    → In t (other_owners s keys m)
    → OwnsOne t keys m
unfolding other_owners
In-other_owners s t [] m i = absurd i
In-other_owners s t (k ∷ keys) m i =
    elim (In-push_owner s t (m.stdio_exclusive_owners k) (other_owners s keys m) i) [
      | inl e ↦ (k, inl refl, e)
      | inr j ↦ (let r = In-other_owners s t keys m j in (r.0, inr r.1, r.2))
    ]

-- The other sessions stay on the map.
pub remove_session-stdio :
    (s t : String) (m : Manager) → ¬ (t ≡ s) → (remove_session s m).stdio t ≡ m.stdio t
unfolding remove_session cleanup
remove_session-stdio s t m n = put-elsewhere s t false m.stdio n

start_session-stdio :
    (starts : Bool) (s t : String) (keys : List String) (m : Manager)
    → ¬ (t ≡ s)
    → (start_session starts s keys m).1.stdio t ≡ m.stdio t
unfolding start_session
start_session-stdio false s t keys m n = refl
start_session-stdio true s t keys m n =
    register-stdio s t keys (record m { stdio = put s true m.stdio })
    ∙ put-elsewhere s t true m.stdio n

take_session-stdio :
    (starts : Bool) (existing : Existing) (s t : String) (keys : List String) (m : Manager)
    → ¬ (t ≡ s)
    → (take_session starts existing s keys m).1.stdio t ≡ m.stdio t
unfolding take_session reuse_or_start
take_session-stdio starts existing s t keys m n = elim (Bool-cases (m.stdio s)) [
  | inl e ↦ rw (take_session, e) (reused existing)
  | inr e ↦ rw (take_session, e) (start_session-stdio starts s t keys m n)
]
  where
    reused : (x : Existing) → (reuse_or_start starts x s keys m).1.stdio t ≡ m.stdio t
    reused unavailable = refl
    reused child_exited =
        start_session-stdio starts s t keys (remove_session s m) n ∙ remove_session-stdio s t m n
    reused reusable = register-stdio s t keys m

-- A session was on the map, and is not any more.
abbrev Leaves : String → Manager → Manager → Type 0
Leaves t m m' = (m.stdio t ≡ true) × (m'.stdio t ≡ false)

stays : (t : String) (m m' : Manager) → m'.stdio t ≡ m.stdio t → Leaves t m m' → ⊥
stays t m m' e (a, b) = true-ne-false (sym a ∙ sym e ∙ b)

shut_down-Leaves :
    (how : Shutdown) (s t : String) (m : Manager)
    → Leaves t m (shut_down how s m).1
    → (t ≡ s) × (how ≡ exited)
shut_down-Leaves exited s t m h = elim (String-cases t s) [
  | inl q ↦ (q, refl)
  | inr n ↦ absurd (stays t m (remove_session s m) (remove_session-stdio s t m n) h)
]
shut_down-Leaves exit_failed s t m h = absurd (stays t m m refl h)
shut_down-Leaves busy s t m h = absurd (stays t m m refl h)

evict_one-Leaves :
    (shutdown : String → Shutdown) (keys : List String) (s t : String) (m : Manager)
    → Leaves t m (evict_one shutdown keys s m).1
    → (t ≡ s) × (shutdown t ≡ exited)
unfolding evict_one cleanup
evict_one-Leaves shutdown keys s t m h = elim (Bool-cases (m.stdio s)) [
  | inl e ↦
      let r = shut_down-Leaves (shutdown s) s t m (rw (evict_one, e) at h) in
      (r.0, ap shutdown r.0 ∙ r.1)
  | inr e ↦ absurd (stays t m (drop_stale s keys m) refl (rw (evict_one, e) at h))
]

and_then-Leaves :
    (t : String) (m : Manager) (first : Option ClaimError × Manager)
    (next : Manager → Option ClaimError × Manager)
    → Leaves t m (and_then first next).1
    → Leaves t m first.1 ⊎ Leaves t first.1 (next first.1).1
and_then-Leaves t m (some e, m') next h = inl h
and_then-Leaves t m (none, m') next h = elim (Bool-cases (m'.stdio t)) [
  | inl e ↦ inr (e, h.1)
  | inr e ↦ inl (h.0, e)
]

evict_all-Leaves :
    (shutdown : String → Shutdown) (keys ss : List String) (t : String) (m : Manager)
    → Leaves t m (evict_all shutdown keys ss m).1
    → In t ss × (shutdown t ≡ exited)
unfolding evict_all
evict_all-Leaves shutdown keys [] t m h = absurd (stays t m m refl h)
evict_all-Leaves shutdown keys (s ∷ ss) t m h =
    elim (and_then-Leaves t m (evict_one shutdown keys s m) (evict_all shutdown keys ss) h) [
      | inl a ↦ (let r = evict_one-Leaves shutdown keys s t m a in (inl r.0, r.1))
      | inr a ↦
          (let r = evict_all-Leaves shutdown keys ss t (evict_one shutdown keys s m).1 a in
            (inr r.0, r.1))
    ]

-- Another session is taken off the map only where it owned a key that was asked for, and was shut down
-- and exited.
abbrev pub OnlyExited : (String → Shutdown) → String → List String → Manager → Manager → Type 0
OnlyExited shutdown s keys m m' =
    (t : String)
    → ¬ (t ≡ s)
    → m.stdio t ≡ true
    → m'.stdio t ≡ false
    → (shutdown t ≡ exited) × OwnsOne t keys m

pub get_or_create_stdio-OnlyExited :
    (shutdown : String → Shutdown) (starts : Bool) (existing : Existing) (s : String)
    (keys : List String) (m : Manager)
    → OnlyExited shutdown s keys m (get_or_create_stdio shutdown starts existing s keys m).1
unfolding get_or_create_stdio evict_stdio_exclusive_conflicts
get_or_create_stdio-OnlyExited shutdown starts existing s keys m t n live gone =
    let owners = dedup (sort (other_owners s keys m)) in
    let first = evict_all shutdown keys owners m in
    elim (and_then-Leaves t m first (take_session starts existing s keys) (live, gone)) [
      | inl a ↦
          (let r = evict_all-Leaves shutdown keys owners t m a in
            (
              r.1,
              In-other_owners s t keys m (
                  In-sort t (other_owners s keys m)
                    (In-dedup t (sort (other_owners s keys m)) r.0)),
            ))
      | inr a ↦ absurd (
          stays t first.1 (take_session starts existing s keys first.1).1
            (take_session-stdio starts existing s t keys first.1 n) a)
    ]

-- ===== src/Daemon/Exclusive/Owners.antt =====
-- The owners of the keys that are asked for are all met by the eviction.
use uxc.Base.{none-ne-some, some-injective}
use uxc.Base.{
  String, ◌≡◌, sym, ◌∙◌, Option, none, some, List, [], ◌∷◌, str_eq, eq_iff, Bool-cases, inl, inr,
  ◌⊎◌, subst,
}
use uxc.Base.Max.{In, is_gt}
use uxc.Base.Text.{codes}
use uxc.Base.Order.{compare_text}
use uxc.Daemon.Exclusive.{Manager, sort, insert_sorted, dedup, push_other, push_owner, other_owners}

insert_sorted-In : (t x : String) (xs : List String) → (t ≡ x) ⊎ In t xs → In t (insert_sorted x xs)
insert_sorted-In t x [] i = i
insert_sorted-In t x (y ∷ ys) i = elim (Bool-cases (is_gt (compare_text (codes x) (codes y)))) [
  | inl e ↦ rw e (elim i [
    | inl q ↦ inr (insert_sorted-In t x ys (inl q))
    | inr (inl q) ↦ inl q
    | inr (inr j) ↦ inr (insert_sorted-In t x ys (inr j))
  ])
  | inr e ↦ rw e i
]

pub sort-In : (t : String) (xs : List String) → In t xs → In t (sort xs)
sort-In t [] i = i
sort-In t (x ∷ xs) (inl q) = insert_sorted-In t x (sort xs) (inl q)
sort-In t (x ∷ xs) (inr i) = insert_sorted-In t x (sort xs) (inr (sort-In t xs i))

push_other-In : (t x : String) (xs : List String) → (t ≡ x) ⊎ In t xs → In t (push_other x xs)
push_other-In t x [] i = i
push_other-In t x (y ∷ ys) i = elim (Bool-cases (str_eq x y)) [
  | inl e ↦ rw e (elim i [ inl q ↦ inl (q ∙ (eq_iff x y).0 e) | inr j ↦ j ])
  | inr e ↦ rw e i
]

pub dedup-In : (t : String) (xs : List String) → In t xs → In t (dedup xs)
dedup-In t [] i = i
dedup-In t (x ∷ xs) (inl q) = push_other-In t x (dedup xs) (inl q)
dedup-In t (x ∷ xs) (inr i) = push_other-In t x (dedup xs) (inr (dedup-In t xs i))

push_owner-here :
    (s t : String) (o : Option String) (ss : List String)
    → ¬ (t ≡ s)
    → o ≡ some t
    → In t (push_owner s o ss)
push_owner-here s t none ss n e = absurd (none-ne-some e)
push_owner-here s t (some o) ss n e = elim (Bool-cases (str_eq o s)) [
  | inl q ↦ absurd (n (sym (some-injective e) ∙ (eq_iff o s).0 q))
  | inr q ↦ rw q (inl (sym (some-injective e)))
]

push_owner-keeps :
    (s t : String) (o : Option String) (ss : List String) → In t ss → In t (push_owner s o ss)
push_owner-keeps s t none ss i = i
push_owner-keeps s t (some o) ss i = elim (Bool-cases (str_eq o s)) [
  | inl q ↦ rw q i
  | inr q ↦ rw q (inr i)
]

pub other_owners-In :
    (s t k : String) (keys : List String) (m : Manager)
    → In k keys
    → ¬ (t ≡ s)
    → m.stdio_exclusive_owners k ≡ some t
    → In t (other_owners s keys m)
unfolding other_owners
other_owners-In s t k [] m i n e = absurd i
other_owners-In s t k (j ∷ keys) m (inl q) n e =
    push_owner-here s t (m.stdio_exclusive_owners j) (other_owners s keys m) n
      (subst (λ x. m.stdio_exclusive_owners x ≡ some t) q e)
other_owners-In s t k (j ∷ keys) m (inr i) n e =
    push_owner-keeps s t (m.stdio_exclusive_owners j) (other_owners s keys m)
      (other_owners-In s t k keys m i n e)

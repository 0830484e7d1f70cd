-- ===== src/Base/Max.antt =====
-- `Iterator::max_by`: the last of the greatest elements.
use Prim.Native.Nat.{Ordering}
use mathlib.Core.Path.{◌≡◌, refl, sym, subst, ap, ◌∙◌}
use mathlib.Core.Logic.{◌⊎◌, inl, inr, ◌↔◌}
use mathlib.Core.Bool.{Bool, true, false}
use mathlib.Core.Option.{Option, none, some}
use mathlib.Core.List.{List, [], ◌∷◌, ◌++◌, map}
use uxc.Base.Tests.{if◌then◌else◌, Bool-cases}
use uxc.Base.Lists.{All, keep}

abbrev pub is_gt : Ordering → Bool
is_gt Ordering.gt = true
is_gt _ = false

abbrev pub In : {A : Type 0} → A → List A → Type 0
In x [] = ⊥
In x (y ∷ ys) = (x ≡ y) ⊎ In x ys

In-kept :
    {A : Type 0} (p : A → Bool) (x y : A) (ys : List A)
    → p y ≡ true
    → (In x (keep p ys) → In x ys × (p x ≡ true))
    → (x ≡ y) ⊎ In x (keep p ys)
    → ((x ≡ y) ⊎ In x ys) × (p x ≡ true)
In-kept p x y ys e r (inl q) = (inl q, rw q e)
In-kept p x y ys e r (inr i) = (inr (r i).0, (r i).1)

-- What is kept by a test is there and passes it, and conversely.
pub In-keep :
    {A : Type 0} (p : A → Bool) (x : A) (xs : List A) → In x (keep p xs) → In x xs × (p x ≡ true)
In-keep p x [] h = absurd h
In-keep p x (y ∷ ys) h = elim (Bool-cases (p y)) [
  | inl e ↦ In-kept p x y ys e (In-keep p x ys) (rw e at h)
  | inr e ↦ let r = In-keep p x ys (rw e at h) in (inr r.0, r.1)
]

pub keep-In :
    {A : Type 0} (p : A → Bool) (x : A) (xs : List A) → In x xs → p x ≡ true → In x (keep p xs)
keep-In p x [] i e = i
keep-In p x (y ∷ ys) (inl q) e = let t : p y ≡ true = (rw (← q) e) in rw t (inl q)
keep-In p x (y ∷ ys) (inr i) e = elim (Bool-cases (p y)) [
  | inl t ↦ rw t (inr (keep-In p x ys i e))
  | inr t ↦ rw t (keep-In p x ys i e)
]

pub In-All : {A : Type 0} (P : A → Type 0) (x : A) (xs : List A) → All P xs → In x xs → P x
In-All P x [] h i = absurd i
In-All P x (y ∷ ys) h (inl q) = subst P (sym q) h.0
In-All P x (y ∷ ys) h (inr i) = In-All P x ys h.1 i

-- The members of lists put together, and of images.
pub In-append : {A : Type 0} (x : A) (xs ys : List A) → In x (xs ++ ys) ↔ (In x xs ⊎ In x ys)
In-append x [] ys = (inr, λ h. elim h [ inl i ↦ absurd i | inr i ↦ i ])
In-append x (y ∷ xs) ys =
    let r = In-append x xs ys in
    (
      λ h. elim h [
        | inl q ↦ inl (inl q)
        | inr i ↦ elim (r.0 i) [ inl j ↦ inl (inr j) | inr j ↦ inr j ]
      ],
      λ h. elim h [
        | inl (inl q) ↦ inl q
        | inl (inr i) ↦ inr (r.1 (inl i))
        | inr i ↦ inr (r.1 (inr i))
      ],
    )

pub In-map :
    {A B : Type 0} (f : A → B) (y : B) (xs : List A)
    → In y (map f xs) ↔ ((x : A) × In x xs × (y ≡ f x))
In-map f y [] = (λ h. absurd h, λ h. absurd h.1)
In-map f y (x ∷ xs) =
    let r = In-map f y xs in
    (
      λ h. elim h [ inl q ↦ (x, inl refl, q) | inr i ↦ let j = r.0 i in (j.0, inr j.1, j.2) ],
      λ h. elim (h.1) [ inl q ↦ inl (h.2 ∙ ap f q) | inr i ↦ inr (r.1 (h.0, i, h.2)) ],
    )

module _ {A : Type 0} (cmp : A → A → Ordering) where
  abbrev pub later : A → A → A
  later best x = if is_gt (cmp best x) then best else x

  unfoldable pub max_from : A → List A → A
  max_from best [] = best
  max_from best (x ∷ xs) = max_from (later best x) xs

  unfoldable pub max_by : List A → Option A
  max_by [] = none
  max_by (x ∷ xs) = some (max_from x xs)

module _ {A : Type 0} (cmp : A → A → Ordering) (Le : A → A → Type 0) (le_refl : (a : A) → Le a a)
    (le_trans : (a b c : A) → Le a b → Le b c → Le a c)
    (le_of : (a b : A) → is_gt (cmp a b) ≡ false → Le a b)
    (ge_of : (a b : A) → is_gt (cmp a b) ≡ true → Le b a) where
  later-Le : (b x : A) → Le b (later cmp b x) × Le x (later cmp b x)
  later-Le b x = elim (Bool-cases (is_gt (cmp b x))) [
    | inl e ↦ rw e (le_refl b, ge_of b x e)
    | inr e ↦ rw e (le_of b x e, le_refl x)
  ]

  max_from-Le :
      (b : A) (xs : List A) → Le b (max_from cmp b xs) × All (λ x. Le x (max_from cmp b xs)) xs
  unfolding max_from
  max_from-Le b [] = (le_refl b, tt)
  max_from-Le b (x ∷ xs) =
      let l = later-Le b x in
      let r = max_from-Le (later cmp b x) xs in
      (le_trans b _ _ l.0 r.0, (le_trans x _ _ l.1 r.0, r.1))

  later-is : (b x : A) → (later cmp b x ≡ b) ⊎ (later cmp b x ≡ x)
  later-is b x = elim (Bool-cases (is_gt (cmp b x))) [
    | inl e ↦ inl (rw e refl)
    | inr e ↦ inr (rw e refl)
  ]

  max_from-In : (b : A) (xs : List A) → (max_from cmp b xs ≡ b) ⊎ In (max_from cmp b xs) xs
  unfolding max_from
  max_from-In b [] = inl refl
  max_from-In b (x ∷ xs) = elim (max_from-In (later cmp b x) xs) [
    | inl q ↦ elim (later-is b x) [ inl l ↦ inl (q ∙ l) | inr l ↦ inr (inl (q ∙ l)) ]
    | inr i ↦ inr (inr i)
  ]

  -- The result is one of the elements and none is above it; there is none of no elements.
  abbrev pub Greatest : List A → Option A → Type 0
  Greatest xs none = xs ≡ []
  Greatest xs (some m) = In m xs × ((x : A) → In x xs → Le x m)

  pub max_by-Greatest : (xs : List A) → Greatest xs (max_by cmp xs)
  unfolding max_by
  max_by-Greatest [] = refl
  max_by-Greatest (x ∷ xs) =
      let r = max_from-Le x xs in
      (max_from-In x xs, λ y i. In-All (λ z. Le z _) y (x ∷ xs) (r.0, r.1) i)

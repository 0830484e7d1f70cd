-- ===== src/Base/Order.antt =====
-- Orders by several keys: integers, numbers, and texts by their characters.
use Prim.Native.Nat.{ℕ, compare, Ordering, ◌<◌}
use mathlib.Core.Path.{◌≡◌, refl, sym, subst, ◌∙◌}
use mathlib.Core.Logic.{◌⊎◌, inl, inr}
use mathlib.Core.Bool.{Bool, true, false}
use mathlib.Core.List.{List, [], ◌∷◌}
use native.Mathlib.Omega.{arith}
use uxc.Base.Int.{ℤ, pos, negsuc, compare_ℤ}
use uxc.Base.Tests.{if◌then◌else◌, ◌==◌, Bool-cases}
use uxc.Base.Max.{is_gt}

abbrev pub is_eq : Ordering → Bool
is_eq Ordering.eq = true
is_eq _ = false

-- `Ord::cmp` of texts: by characters, a prefix first.
abbrev pub compare_text : List ℕ → List ℕ → Ordering
compare_text [] [] = Ordering.eq
compare_text [] (b ∷ bs) = Ordering.lt
compare_text (a ∷ as') [] = Ordering.gt
compare_text (a ∷ as') (b ∷ bs) = if a == b then compare_text as' bs else compare a b

abbrev pub ◌<ℤ◌ : ℤ → ℤ → Type 0
◌<ℤ◌ (pos a) (pos b) = a < b
◌<ℤ◌ (pos a) (negsuc b) = ⊥
◌<ℤ◌ (negsuc a) (pos b) = Unit
◌<ℤ◌ (negsuc a) (negsuc b) = b < a

-- One text stands before another, or is the same.
abbrev pub TextLe : List ℕ → List ℕ → Type 0
TextLe [] bs = Unit
TextLe (a ∷ as') [] = ⊥
TextLe (a ∷ as') (b ∷ bs) = (a < b) ⊎ ((a ≡ b) × TextLe as' bs)

pub TextLe-refl : (as' : List ℕ) → TextLe as' as'
TextLe-refl [] = tt
TextLe-refl (a ∷ as') = inr (refl, TextLe-refl as')

pub TextLe-trans : (as' bs cs : List ℕ) → TextLe as' bs → TextLe bs cs → TextLe as' cs
TextLe-trans [] bs cs h k = tt
TextLe-trans (a ∷ as') [] cs h k = absurd h
TextLe-trans (a ∷ as') (b ∷ bs) [] h k = absurd k
TextLe-trans (a ∷ as') (b ∷ bs) (c ∷ cs) (inl h) (inl k) = inl (omega arith)
TextLe-trans (a ∷ as') (b ∷ bs) (c ∷ cs) (inl h) (inr k) = inl (omega (arith, k.0))
TextLe-trans (a ∷ as') (b ∷ bs) (c ∷ cs) (inr h) (inl k) = inl (omega (arith, h.0))
TextLe-trans (a ∷ as') (b ∷ bs) (c ∷ cs) (inr h) (inr k) =
    inr (h.0 ∙ k.0, TextLe-trans as' bs cs h.1 k.1)

pub <ℤ-trans : (a b c : ℤ) → ◌<ℤ◌ a b → ◌<ℤ◌ b c → ◌<ℤ◌ a c
<ℤ-trans (pos a) (pos b) (pos c) h k = omega arith
<ℤ-trans (pos a) (pos b) (negsuc c) h k = absurd k
<ℤ-trans (pos a) (negsuc b) c h k = absurd h
<ℤ-trans (negsuc a) (pos b) (pos c) h k = tt
<ℤ-trans (negsuc a) (pos b) (negsuc c) h k = absurd k
<ℤ-trans (negsuc a) (negsuc b) (pos c) h k = tt
<ℤ-trans (negsuc a) (negsuc b) (negsuc c) h k = omega arith

-- What a comparison says.
pub compare_ℤ-lt : (a b : ℤ) → compare_ℤ a b ≡ Ordering.lt → ◌<ℤ◌ a b
compare_ℤ-lt (pos a) (pos b) e = ground arith
compare_ℤ-lt (pos a) (negsuc b) e = cc
compare_ℤ-lt (negsuc a) (pos b) e = tt
compare_ℤ-lt (negsuc a) (negsuc b) e = ground arith

pub compare_ℤ-gt : (a b : ℤ) → compare_ℤ a b ≡ Ordering.gt → ◌<ℤ◌ b a
compare_ℤ-gt (pos a) (pos b) e = ground arith
compare_ℤ-gt (pos a) (negsuc b) e = tt
compare_ℤ-gt (negsuc a) (pos b) e = cc
compare_ℤ-gt (negsuc a) (negsuc b) e = ground arith

pub compare_ℤ-eq : (a b : ℤ) → compare_ℤ a b ≡ Ordering.eq → a ≡ b
compare_ℤ-eq (pos a) (pos b) e = ground arith
compare_ℤ-eq (pos a) (negsuc b) e = cc
compare_ℤ-eq (negsuc a) (pos b) e = cc
compare_ℤ-eq (negsuc a) (negsuc b) e = ground arith

pub compare_text-TextLe :
    (as' bs : List ℕ)
    → (is_gt (compare_text as' bs) ≡ false → TextLe as' bs)
      × (is_gt (compare_text as' bs) ≡ true → TextLe bs as')
compare_text-TextLe [] [] = (λ e. tt, λ e. tt)
compare_text-TextLe [] (b ∷ bs) = (λ e. tt, λ e. cc)
compare_text-TextLe (a ∷ as') [] = (λ e. cc, λ e. tt)
compare_text-TextLe (a ∷ as') (b ∷ bs) =
    let ih = compare_text-TextLe as' bs in
    elim (Bool-cases (a == b)) [
      | inl t ↦
          let q : a ≡ b = ground (arith, t) in rw t (λ e. inr (q, ih.0 e), λ e. inr (sym q, ih.1 e))
      | inr t ↦ rw t (λ e. inl (ground (arith, e, t)), λ e. inl (ground (arith, e)))
    ]

pub Ordering-cases : (o : Ordering) → (o ≡ Ordering.lt) ⊎ ((o ≡ Ordering.eq) ⊎ (o ≡ Ordering.gt))
Ordering-cases Ordering.lt = inl refl
Ordering-cases Ordering.eq = inr (inl refl)
Ordering-cases Ordering.gt = inr (inr refl)

-- First by a key, and where that is equal by what is left.
abbrev pub or_by : Ordering → Ordering → Ordering
or_by Ordering.eq o = o
or_by Ordering.lt o = Ordering.lt
or_by Ordering.gt o = Ordering.gt

abbrev pub Lex : {K : Type 0} → (K → K → Type 0) → K → K → Type 0 → Type 0
Lex Lt a b P = Lt a b ⊎ ((a ≡ b) × P)

pub Lex-trans :
    {K P Q R : Type 0} (Lt : K → K → Type 0)
    → ((a b c : K) → Lt a b → Lt b c → Lt a c)
    → (P → Q → R)
    → (a b c : K) → Lex Lt a b P
    → Lex Lt b c Q
    → Lex Lt a c R
Lex-trans Lt trans f a b c (inl h) (inl k) = inl (trans a b c h k)
Lex-trans Lt trans f a b c (inl h) (inr k) = inl (subst (Lt a) k.0 h)
Lex-trans Lt trans f a b c (inr h) (inl k) = inl (subst (λ x. Lt x c) (sym h.0) k)
Lex-trans Lt trans f a b c (inr h) (inr k) = inr (h.0 ∙ k.0, f h.1 k.1)

-- What a comparison by several keys says, from what its parts say.
pub or_by-Lex :
    {K P Q : Type 0} (Lt : K → K → Type 0) (c : K → K → Ordering) (a b : K) (o : Ordering)
    → (c a b ≡ Ordering.lt → Lt a b)
      × (c a b ≡ Ordering.eq → a ≡ b)
      × (c a b ≡ Ordering.gt → Lt b a)
    → (is_gt o ≡ false → P) × (is_gt o ≡ true → Q)
    → (is_gt (or_by (c a b) o) ≡ false → Lex Lt a b P)
      × (is_gt (or_by (c a b) o) ≡ true → Lex Lt b a Q)
or_by-Lex Lt c a b o laws rest = elim (Ordering-cases (c a b)) [
  | inl e ↦ rw e (λ t. inl (laws.0 e), λ t. cc)
  | inr (inl e) ↦ rw e (λ t. inr (laws.1 e, rest.0 t), λ t. inr (sym (laws.1 e), rest.1 t))
  | inr (inr e) ↦ rw e (λ t. cc, λ t. inl (laws.2 e))
]

pub compare_ℤ_laws :
    (a b : ℤ)
    → (compare_ℤ a b ≡ Ordering.lt → ◌<ℤ◌ a b)
      × (compare_ℤ a b ≡ Ordering.eq → a ≡ b)
      × (compare_ℤ a b ≡ Ordering.gt → ◌<ℤ◌ b a)
compare_ℤ_laws a b = (compare_ℤ-lt a b, compare_ℤ-eq a b, compare_ℤ-gt a b)

pub compare_laws :
    (a b : ℕ)
    → (compare a b ≡ Ordering.lt → a < b)
      × (compare a b ≡ Ordering.eq → a ≡ b)
      × (compare a b ≡ Ordering.gt → b < a)
compare_laws a b = (λ e. ground (arith, e), λ e. ground (arith, e), λ e. ground (arith, e))

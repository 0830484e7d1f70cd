-- ===== src/Base/SameText.antt =====
-- What the tests on texts say.
use uxc.Base.Tests.{false-ne-true, none-ne-some}
use Prim.Native.Nat.{ℕ}
use mathlib.Core.Path.{◌≡◌, refl, sym, subst}
use mathlib.Core.Logic.{inl, inr, ◌↔◌}
use mathlib.Core.Bool.{Bool, true, false, ◌&&◌}
use mathlib.Core.Option.{some}
use mathlib.Core.List.{List, [], ◌∷◌, ◌++◌}
use native.Mathlib.Omega.{arith}
use uxc.Base.Tests.{◌==◌, Bool-cases, Option-cases}
use uxc.Base.Text.{same_text, strip_prefix, starts_with}

pub &&-true : (a b : Bool) → (a && b) ≡ true → (a ≡ true) × (b ≡ true)
&&-true true b e = (refl, e)
&&-true false b e = cc

pub &&_intro : (a b : Bool) → a ≡ true → b ≡ true → (a && b) ≡ true
&&_intro a b e f = rw (e, f) refl

pub same_text-eq : (s t : List ℕ) → same_text s t ≡ true → s ≡ t
same_text-eq [] [] e = refl
same_text-eq [] (b ∷ t) e = cc
same_text-eq (a ∷ s) [] e = cc
same_text-eq (a ∷ s) (b ∷ t) e =
    let h = &&-true (a == b) (same_text s t) e in
    let q : a ≡ b = ground (arith, h.0) in rw (q, same_text-eq s t h.1) refl

pub same_text_refl : (s : List ℕ) → same_text s s ≡ true
same_text_refl [] = refl
same_text_refl (a ∷ s) = &&_intro (a == a) (same_text s s) (ground arith) (same_text_refl s)

pub eq-same_text : (s t : List ℕ) → s ≡ t → same_text s t ≡ true
eq-same_text s t e = subst (λ x. same_text s x ≡ true) e (same_text_refl s)

pub strip_prefix-eq : (p t r : List ℕ) → strip_prefix p t ≡ some r → t ≡ p ++ r
strip_prefix-eq [] t r e = cc
strip_prefix-eq (a ∷ p) [] r e = cc
strip_prefix-eq (a ∷ p) (b ∷ t) r e = elim (Bool-cases (a == b)) [
  | inl h ↦ let q : a ≡ b = ground (arith, h) in rw (q, strip_prefix-eq p t r (rw h at e)) refl
  | inr h ↦ absurd (none-ne-some (rw h at e))
]

strip_prefix-append_self : (p r : List ℕ) → strip_prefix p (p ++ r) ≡ some r
strip_prefix-append_self [] r = refl
strip_prefix-append_self (a ∷ p) r =
    let q : (a == a) ≡ true = ground arith in rw q (strip_prefix-append_self p r)

-- A text starts with a prefix exactly when it is the prefix and a rest.
pub starts_with_iff : (p t : List ℕ) → (starts_with p t ≡ true) ↔ ((r : List ℕ) × (p ++ r ≡ t))
starts_with_iff p t = (
  λ e. elim (Option-cases (strip_prefix p t)) [
    | inl q ↦ absurd (false-ne-true (rw (q, starts_with) at e))
    | inr (r, q) ↦ (r, sym (strip_prefix-eq p t r q))
  ],
  λ h.
      subst (λ x. starts_with p x ≡ true) h.1
        (rw (starts_with, strip_prefix-append_self p h.0) refl),
)

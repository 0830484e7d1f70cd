-- ===== src/Base/Find.antt =====
-- Where a text is found does not change when more text follows, and is inside the text.
use uxc.Base.Tests.{false-ne-true, none-ne-some, some-injective}
use Prim.Native.Nat.{ℕ, zero, suc, ◌+◌, ◌-◌, ◌≤◌, ◌<◌}
use mathlib.Core.Path.{◌≡◌, refl, sym, ap, ◌∙◌}
use mathlib.Core.Logic.{inl, inr}
use mathlib.Core.Bool.{true, false}
use mathlib.Core.Option.{Option, none, some}
use mathlib.Core.List.{List, [], ◌∷◌, ◌++◌}
use native.Mathlib.Omega.{arith}
use uxc.Base.Tests.{◌==◌, Bool-cases, Option-cases}
use uxc.Base.Lists.{length, take, drop, drop-append, All}
use uxc.Base.Text.{strip_prefix, starts_with, suc_pos, find_text}

abbrev map_append : Option (List ℕ) → List ℕ → Option (List ℕ)
map_append none c = none
map_append (some r) c = some (r ++ c)

strip_prefix-append :
    (ps b c : List ℕ)
    → length ps ≤ length b
    → strip_prefix ps (b ++ c) ≡ map_append (strip_prefix ps b) c
strip_prefix-append [] b c l = refl
strip_prefix-append (p ∷ ps) [] c l = absurd (omega arith)
strip_prefix-append (p ∷ ps) (x ∷ b) c l = elim (Bool-cases (p == x)) [
  | inl e ↦ rw e (strip_prefix-append ps b c (omega arith))
  | inr e ↦ rw e refl
]

starts_with-append :
    (ps b c : List ℕ) → length ps ≤ length b → starts_with ps (b ++ c) ≡ starts_with ps b
starts_with-append ps b c l = elim (Option-cases (strip_prefix ps b)) [
  | inl e ↦ rw (starts_with, strip_prefix-append ps b c l, e) refl
  | inr (r, e) ↦ rw (starts_with, strip_prefix-append ps b c l, e) refl
]

length-strip_prefix : (ps b r : List ℕ) → strip_prefix ps b ≡ some r → length ps ≤ length b
length-strip_prefix [] b r e = omega arith
length-strip_prefix (p ∷ ps) [] r e = cc
length-strip_prefix (p ∷ ps) (x ∷ b) r e = elim (Bool-cases (p == x)) [
  | inl t ↦ omega (arith, length-strip_prefix ps b r (rw t at e))
  | inr t ↦ absurd (none-ne-some (rw t at e))
]

length-starts_with : (ps b : List ℕ) → starts_with ps b ≡ true → length ps ≤ length b
length-starts_with ps b e = elim (Option-cases (strip_prefix ps b)) [
  | inl t ↦ absurd (false-ne-true (rw (t, starts_with) at e))
  | inr (r, t) ↦ length-strip_prefix ps b r t
]

suc_pos-some : (o : Option ℕ) (p : ℕ) → suc_pos o ≡ some p → (q : ℕ) × (o ≡ some q) × (p ≡ suc q)
suc_pos-some none p e = cc
suc_pos-some (some q) p e = (q, refl, cc)

found_here :
    (ps : List ℕ) (c : ℕ) (b : List ℕ)
    → starts_with ps (c ∷ b) ≡ true
    → find_text ps (c ∷ b) ≡ some 0
unfolding find_text
found_here ps c b e = rw (find_text, e) refl

found_later :
    (ps : List ℕ) (c : ℕ) (b : List ℕ)
    → starts_with ps (c ∷ b) ≡ false
    → find_text ps (c ∷ b) ≡ suc_pos (find_text ps b)
unfolding find_text
found_later ps c b e = rw (find_text, e) refl

-- What is found lies inside the text.
pub find_text-le : (ps b : List ℕ) (p : ℕ) → find_text ps b ≡ some p → p + length ps ≤ length b
unfolding find_text
find_text-le [] [] p e = let q : p ≡ 0 = sym (some-injective e) in omega arith
find_text-le (x ∷ ps) [] p e = cc
find_text-le ps (c ∷ b) p e = elim (Bool-cases (starts_with ps (c ∷ b))) [
  | inl t ↦
      let z : p ≡ 0 = sym (some-injective (sym (found_here ps c b t) ∙ e)) in
      omega (arith, length-starts_with ps (c ∷ b) t)
  | inr t ↦
      let d = suc_pos-some (find_text ps b) p (sym (found_later ps c b t) ∙ e) in
      omega (arith, find_text-le ps b d.0 d.1, d.2)
]

-- More text behind it does not change where a text is found.
pub find_text-append :
    (ps b c : List ℕ) (p : ℕ)
    → 0 < length ps
    → find_text ps b ≡ some p
    → find_text ps (b ++ c) ≡ some p
unfolding find_text
find_text-append [] b c p l e = absurd (omega arith)
find_text-append (x ∷ ps) [] c p l e = cc
find_text-append (x ∷ ps) (a ∷ b) c p l e =
    let le = find_text-le (x ∷ ps) (a ∷ b) p e in
    let same = starts_with-append (x ∷ ps) (a ∷ b) c (omega arith) in
    elim (Bool-cases (starts_with (x ∷ ps) (a ∷ b))) [
      | inl t ↦ found_here (x ∷ ps) a (b ++ c) (same ∙ t) ∙ sym (found_here (x ∷ ps) a b t) ∙ e
      | inr t ↦
          let d = suc_pos-some (find_text (x ∷ ps) b) p (sym (found_later (x ∷ ps) a b t) ∙ e) in
          found_later (x ∷ ps) a (b ++ c) (same ∙ t)
          ∙ ap suc_pos (find_text-append (x ∷ ps) b c d.0 l d.1)
          ∙ ap (λ n. some n) (sym d.2)
    ]

pub take-append_inside : (n : ℕ) (b c : List ℕ) → n ≤ length b → take n (b ++ c) ≡ take n b
take-append_inside zero b c l = refl
take-append_inside (suc n) [] c l = absurd (omega arith)
take-append_inside (suc n) (x ∷ b) c l = ap (◌∷◌ x) (take-append_inside n b c (omega arith))

pub drop-append_inside : (n : ℕ) (b c : List ℕ) → n ≤ length b → drop n (b ++ c) ≡ drop n b ++ c
drop-append_inside n b c l = let z : n - length b ≡ 0 = omega arith in drop-append n b c ∙ rw z refl

-- A text that begins with a character which does not occur is not found.
pub find_text-absent :
    (x : ℕ) (ps b : List ℕ) → All (λ c. (x == c) ≡ false) b → find_text (x ∷ ps) b ≡ none
unfolding find_text
find_text-absent x ps [] h = refl
find_text-absent x ps (c ∷ b) h =
    found_later (x ∷ ps) c b (rw (starts_with, h.0) refl) ∙ ap suc_pos (find_text-absent x ps b h.1)

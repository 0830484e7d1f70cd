-- ===== src/Poll/Watermark/Largest.antt =====
-- The largest of some integers bounds them, and never falls.
use uxc.Base.{
  ◌∙◌, ap, inr, inl, Bool-cases, ◌≡◌, refl, true, false, List, [], ◌∷◌, map, Option, none, some,
  arith, All, keep,
}
use uxc.Base.Int.{ℤ, pos, negsuc}
use uxc.Poll.Watermark.Integers.{above, larger, largest}

above_self : (z : ℤ) → above (some z) z ≡ false
above_self (pos a) = ground arith
above_self (negsuc a) = ground arith

above_trans :
    (c z y : ℤ) → above (some c) z ≡ true → above (some c) y ≡ false → above (some z) y ≡ false
above_trans (pos c) (pos z) (pos y) h k = ground arith
above_trans (pos c) (pos z) (negsuc y) h k = ground arith
above_trans (pos c) (negsuc z) y h k = cc
above_trans (negsuc c) (pos z) (pos y) h k = cc
above_trans (negsuc c) (pos z) (negsuc y) h k = ground arith
above_trans (negsuc c) (negsuc z) (pos y) h k = cc
above_trans (negsuc c) (negsuc z) (negsuc y) h k = ground arith

above-larger : (c : Option ℤ) (z y : ℤ) → above c y ≡ false → above (larger c z) y ≡ false
above-larger none z y h = cc
above-larger (some c) z y h = elim (Bool-cases (above (some c) z)) [
  | inl e ↦ rw e (above_trans c z y e h)
  | inr e ↦ rw e h
]

above-larger_self : (c : Option ℤ) (z : ℤ) → above (larger c z) z ≡ false
above-larger_self none z = above_self z
above-larger_self (some c) z = elim (Bool-cases (above (some c) z)) [
  | inl e ↦ rw e (above_self z)
  | inr e ↦ rw e e
]

larger_kept : (c : Option ℤ) (z : ℤ) → above c z ≡ false → larger c z ≡ c
larger_kept c z h = rw h

-- What was not above the start is not above the largest.
pub above-largest :
    (c : Option ℤ) (zs : List ℤ) (y : ℤ) → above c y ≡ false → above (largest c zs) y ≡ false
above-largest c [] y h = h
above-largest c (z ∷ zs) y h = above-largest (larger c z) zs y (above-larger c z y h)

module _ {A : Type 0} (m : A → ℤ) where
  -- None of the integers is above the largest.
  pub largest_bounds :
      (c : Option ℤ) (xs : List A) → All (λ x. above (largest c (map m xs)) (m x) ≡ false) xs
  largest_bounds c [] = tt
  largest_bounds c (x ∷ xs) = (
    above-largest (larger c (m x)) (map m xs) (m x) (above-larger_self c (m x)),
    largest_bounds (larger c (m x)) xs,
  )

  pub keep_none :
      (c : Option ℤ) (xs : List A)
      → All (λ x. above c (m x) ≡ false) xs
      → keep (λ x. above c (m x)) xs ≡ []
  keep_none c [] h = refl
  keep_none c (x ∷ xs) h = rw (h.0) (keep_none c xs h.1)

  pub largest_kept :
      (c : Option ℤ) (xs : List A) → All (λ x. above c (m x) ≡ false) xs → largest c (map m xs) ≡ c
  largest_kept c [] h = refl
  largest_kept c (x ∷ xs) h =
      ap (λ d. largest d (map m xs)) (larger_kept c (m x) h.0) ∙ largest_kept c xs h.1

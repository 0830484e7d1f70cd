-- ===== src/Daemon/PollLoop/SameFields.antt =====
-- What the comparisons of the fields of a checkpoint say.
use uxc.Base.{
  ℕ, String, ◌≡◌, refl, ap, Bool, true, false, Option, none, some, List, [], ◌∷◌, arith, str_eq,
  eq_iff, ◌==◌,
}
use uxc.Poll.Runner.{same_bool, same_option, same_list}
use uxc.Base.SameText.{&&-true}

ap2-cons : {A : Type 0} {x y : A} {xs ys : List A} → x ≡ y → xs ≡ ys → (x ∷ xs) ≡ (y ∷ ys)
ap2-cons e f = cc

pub nat-eq : (m n : ℕ) → (m == n) ≡ true → m ≡ n
nat-eq m n e = ground arith

pub nat_refl : (m : ℕ) → (m == m) ≡ true
nat_refl m = ground arith

pub bool-eq : (a b : Bool) → same_bool a b ≡ true → a ≡ b
bool-eq true true e = refl
bool-eq true false e = cc
bool-eq false true e = cc
bool-eq false false e = refl

pub bool_refl : (a : Bool) → same_bool a a ≡ true
bool_refl true = refl
bool_refl false = refl

pub str-eq : (s t : String) → str_eq s t ≡ true → s ≡ t
str-eq s t e = (eq_iff s t).0 e

module _ {A : Type 0} (eq : A → A → Bool) where
  pub same_option_refl : ((a : A) → eq a a ≡ true) → (o : Option A) → same_option eq o o ≡ true
  same_option_refl h none = refl
  same_option_refl h (some a) = h a

  pub same_option_sym :
      ((a b : A) → eq a b ≡ true → eq b a ≡ true)
      → (o p : Option A) → same_option eq o p ≡ true
      → same_option eq p o ≡ true
  same_option_sym h none none e = refl
  same_option_sym h none (some b) e = cc
  same_option_sym h (some a) none e = cc
  same_option_sym h (some a) (some b) e = h a b e

  pub same_option_trans :
      ((a b c : A) → eq a b ≡ true → eq b c ≡ true → eq a c ≡ true)
      → (o p q : Option A) → same_option eq o p ≡ true
      → same_option eq p q ≡ true
      → same_option eq o q ≡ true
  same_option_trans h none none q e f = f
  same_option_trans h none (some b) q e f = cc
  same_option_trans h (some a) none q e f = cc
  same_option_trans h (some a) (some b) none e f = f
  same_option_trans h (some a) (some b) (some c) e f = h a b c e f

  pub same_option-eq :
      ((a b : A) → eq a b ≡ true → a ≡ b) → (o p : Option A) → same_option eq o p ≡ true → o ≡ p
  same_option-eq h none none e = refl
  same_option-eq h none (some b) e = cc
  same_option-eq h (some a) none e = cc
  same_option-eq h (some a) (some b) e = ap (λ x. some x) (h a b e)

  pub same_list-eq :
      ((a b : A) → eq a b ≡ true → a ≡ b) → (xs ys : List A) → same_list eq xs ys ≡ true → xs ≡ ys
  same_list-eq h [] [] e = refl
  same_list-eq h [] (y ∷ ys) e = cc
  same_list-eq h (x ∷ xs) [] e = cc
  same_list-eq h (x ∷ xs) (y ∷ ys) e =
      let p = &&-true (eq x y) (same_list eq xs ys) e in
      ap2-cons (h x y p.0) (same_list-eq h xs ys p.1)

  pub same_list_refl : ((a : A) → eq a a ≡ true) → (xs : List A) → same_list eq xs xs ≡ true
  same_list_refl h [] = refl
  same_list_refl h (x ∷ xs) = rw (h x) (same_list_refl h xs)

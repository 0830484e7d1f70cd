-- ===== src/Base/Window.antt =====
-- A buffer that drops its oldest elements while it holds more than it may.
use Prim.Native.Nat.{ℕ, suc, ◌-◌, ◌≤◌, ◌<◌}
use mathlib.Core.Path.{◌≡◌, sym}
use mathlib.Core.Logic.{inl, inr}
use mathlib.Core.List.{List, [], ◌∷◌}
use native.Mathlib.Omega.{arith}
use uxc.Base.Tests.{ltb, ltb→lt, if◌then◌else◌, Bool-cases}
use uxc.Base.Lists.{length, drop}

module _ {ℓ} {A : Type ℓ} where
  -- `while buffer.len() > limit { buffer.pop_front() }`
  unfoldable pub pop_to : ℕ → List A → List A
  pop_to limit [] = []
  pop_to limit (x ∷ xs) = if ltb limit (length (x ∷ xs)) then pop_to limit xs else x ∷ xs

  drop-suc_sub :
      (limit : ℕ) (x : A) (xs : List A)
      → limit < suc (length xs)
      → drop (suc (length xs) - limit) (x ∷ xs) ≡ drop (length xs - limit) xs
  drop-suc_sub limit x xs h =
      let e : suc (length xs) - limit ≡ suc (length xs - limit) = omega arith in rw e

  pub drop_all_fit :
      (limit : ℕ) (xs : List A) → length xs ≤ limit → drop (length xs - limit) xs ≡ xs
  drop_all_fit limit xs h = let e : length xs - limit ≡ 0 = omega arith in rw e

  -- The loop drops as many elements from the front as there are too many.
  pub pop_to-drop : (limit : ℕ) (xs : List A) → pop_to limit xs ≡ drop (length xs - limit) xs
  unfolding pop_to
  pop_to-drop limit [] = sym (drop_all_fit limit [] (omega arith))
  pop_to-drop limit (x ∷ xs) = elim (Bool-cases (ltb limit (suc (length xs)))) [
    | inl e ↦ rw (e, drop-suc_sub limit x xs (ltb→lt _ _ e)) (pop_to-drop limit xs)
    | inr e ↦ rw e (sym (drop_all_fit limit (x ∷ xs) (ground arith)))
  ]

-- ===== src/Poll/Cursor/Largest.antt =====
-- The cursor that is taken from the items of a page.
use uxc.Base.{String, ◌≡◌, refl, ap, ◌∙◌, false, Option, none, some, List, [], ◌∷◌, map, arith, All}
use uxc.Base.Int.{ℤ}
use uxc.Base.Result.{ok}
use uxc.Json.{Value, Serde}
use uxc.Poll.Watermark.Integers.{int, int?, above, larger, largest, compare_json_values-int}
use uxc.Poll.Watermark.Largest.{largest_bounds}
use uxc.Poll.Cursor.{later, derive_cursor_loop, derive_cursor_from_items}

module _ (serde : Serde) (p : String) (m : Value serde.Float → ℤ) where
  open serde use {Float, pointer}

  later-int : (c : Option ℤ) (z : ℤ) → later serde (int? c) (int z) ≡ int? (larger c z)
  unfolding later
  later-int none z = refl
  later-int (some c) z = rw (compare_json_values-int serde z c) (ground arith)

  derive_cursor_loop-cons :
      (x v : Value Float) (xs : List (Value Float)) (c : Option (Value Float))
      → pointer p x ≡ some v
      → derive_cursor_loop serde p (x ∷ xs) c ≡ derive_cursor_loop serde p xs (later serde c v)
  unfolding derive_cursor_loop
  derive_cursor_loop-cons x v xs c e = rw (e, derive_cursor_loop) refl

  derive_cursor_loop-largest :
      (items : List (Value Float)) (c : Option ℤ)
      → All (λ x. pointer p x ≡ some (int (m x))) items
      → derive_cursor_loop serde p items (int? c) ≡ ok (int? (largest c (map m items)))
  unfolding derive_cursor_loop
  derive_cursor_loop-largest [] c h = refl
  derive_cursor_loop-largest (x ∷ xs) c h =
      derive_cursor_loop-cons x (int (m x)) xs (int? c) h.0
      ∙ ap (derive_cursor_loop serde p xs) (later-int c (m x))
      ∙ derive_cursor_loop-largest xs (larger c (m x)) h.1

  -- When every item has an integer at the pointer, the cursor is the largest of them, which no other
  -- passes; an empty page gives none.
  pub derive_cursor_from_items-largest :
      (items : List (Value Float))
      → All (λ x. pointer p x ≡ some (int (m x))) items
      → (derive_cursor_from_items serde items p ≡ ok (int? (largest none (map m items))))
        × All (λ x. above (largest none (map m items)) (m x) ≡ false) items
  unfolding derive_cursor_from_items
  derive_cursor_from_items-largest items h =
      (derive_cursor_loop-largest items none h, largest_bounds m none items)

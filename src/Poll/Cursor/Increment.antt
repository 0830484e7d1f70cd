-- ===== src/Poll/Cursor/Increment.antt =====
-- The `increment` transform of a cursor.
use uxc.Base.{i64_max, u64_max, ℕ, ◌+◌, ◌≤◌, ◌≡◌, refl, arith, ◌==◌, if◌then◌else◌}
use uxc.Base.Int.{negsuc, suc_ℤ}
use uxc.Base.Result.{Result, ok, err}
use uxc.Json.{pos_int, neg_int, float, Value, number, from_i64}
use uxc.Poll.{PollError, increment_overflows_i64, increment_overflows_u64, increment_not_integer}
use uxc.Poll.Cursor.{increment_cursor_value}

abbrev overflow_of : {F : Type 0} → ℕ → Result PollError (Value F) → Result PollError (Value F)
overflow_of n other =
    if n == i64_max
    then err increment_overflows_i64
    else if n == u64_max
    then err increment_overflows_u64
    else other

-- A `u64` cursor is increased by one, but for the largest `i64` and the largest `u64`, which are
-- overflow errors (the first although its successor is a `u64`); a negative cursor is increased by
-- one; a float is refused.
pub increment_cursor_value_lem :
    {F : Type 0} (n m : ℕ) (f : F)
    → n ≤ u64_max
    → (increment_cursor_value (number (pos_int n))
        ≡ overflow_of {F = F} n (ok (number (pos_int (n + 1)))))
      × (increment_cursor_value (number (neg_int m))
          ≡ overflow_of {F = F} 0 (ok (number (from_i64 (suc_ℤ (negsuc m))))))
      × (increment_cursor_value (number (float f)) ≡ err increment_not_integer)
unfolding increment_cursor_value
increment_cursor_value_lem n m f h = (ground arith, refl, refl)

-- ===== src/Poll/Cursor.antt =====
-- src/subscription_poll.rs: the cursor that is sent, and the one that is taken from a page.
pub mod Increment
pub mod Largest
pub mod Args
use uxc.Base.{
  ℕ, ◌+◌, String, List, [], ◌∷◌, Option, none, some, or_else, str_eq, ltb, i64_max, u64_max,
  if◌then◌else◌,
}
use uxc.Base.Int.{ℤ, pos, negsuc, suc_ℤ}
use uxc.Base.Result.{Result, ok, err, ok_or, ◌>>=◌}
use uxc.Json.{
  pos_int, Value, null, bool, number, string, array, object, as_i64, as_u64, from_i64, Serde,
}
use uxc.Poll.{
  Config, Checkpoint, CursorTransform, increment, PollError, item_cursor_unresolved,
  increment_overflows_i64, increment_overflows_u64, increment_not_integer, increment_not_numeric,
}
use uxc.Poll.Compare.{compare_json_values, is_greater}

-- `HashMap::insert`
unfoldable pub insert_arg : {V : Type 0} → String → V → List (String × V) → List (String × V)
insert_arg k v [] = (k, v) ∷ []
insert_arg k v ((j, w) ∷ args) = if str_eq j k then (k, v) ∷ args else (j, w) ∷ insert_arg k v args

-- `HashMap::get`
unfoldable pub get_arg : {V : Type 0} → String → List (String × V) → Option V
get_arg k [] = none
get_arg k ((j, w) ∷ args) = if str_eq j k then some w else get_arg k args

abbrev pub value_type_name : {F : Type 0} → Value F → String
value_type_name null = "null"
value_type_name (bool b) = "bool"
value_type_name (number n) = "number"
value_type_name (string s) = "string"
value_type_name (array xs) = "array"
value_type_name (object fs) = "object"

-- `i64::checked_add(1)` and `u64::checked_add(1)`
checked_suc_i64 : ℤ → Option ℤ
checked_suc_i64 (pos n) = if ltb n i64_max then some (pos (n + 1)) else none
checked_suc_i64 (negsuc n) = some (suc_ℤ (negsuc n))

checked_suc_u64 : ℕ → Option ℕ
checked_suc_u64 n = if ltb n u64_max then some (n + 1) else none

module _ {F : Type 0} where
  unfoldable pub request_cursor_value : Checkpoint F → Option (Value F)
  request_cursor_value c = or_else c.cursor c.watermark

  unfoldable pub with_cursor :
      Option String → Option (Value F) → List (String × Value F) → List (String × Value F)
  with_cursor none cursor args = args
  with_cursor (some arg) none args = args
  with_cursor (some arg) (some v) args = insert_arg arg v args

  unfoldable pub build_request_args :
      Config → Checkpoint F → List (String × Value F) → List (String × Value F)
  unfolding with_cursor
  build_request_args config c base_args =
      with_cursor config.request_cursor_arg (request_cursor_value c) base_args

  increment_signed : Option ℤ → Option ℕ → Result PollError (Value F)
  increment_signed (some a) u = do
    b ← ok_or (checked_suc_i64 a) increment_overflows_i64
    ok (number (from_i64 b))
  increment_signed none (some n) = do
    m ← ok_or (checked_suc_u64 n) increment_overflows_u64
    ok (number (pos_int m))
  increment_signed none none = err increment_not_integer

  unfoldable pub increment_cursor_value : Value F → Result PollError (Value F)
  unfolding increment_signed checked_suc_i64 checked_suc_u64
  increment_cursor_value (number n) = increment_signed (as_i64 n) (as_u64 n)
  increment_cursor_value other = err (increment_not_numeric (value_type_name other))

  unfoldable pub transform_cursor_value :
      Option CursorTransform → Value F → Result PollError (Value F)
  transform_cursor_value none v = ok v
  transform_cursor_value (some increment) v = increment_cursor_value v

module _ (serde : Serde) where
  open serde use {Float, pointer}

  -- `cursor.is_none_or(|current| compare(candidate, current) == Greater)`
  unfoldable pub later : Option (Value Float) → Value Float → Option (Value Float)
  later none candidate = some candidate
  later (some current) candidate =
      if is_greater (compare_json_values serde candidate current)
      then some candidate
      else some current

  unfoldable pub derive_cursor_loop :
      String → List (Value Float) → Option (Value Float) → Result PollError (Option (Value Float))
  derive_cursor_loop p [] cursor = ok cursor
  derive_cursor_loop p (item ∷ items) cursor = elim (pointer p item) [
    | none ↦ err (item_cursor_unresolved p)
    | some candidate ↦ derive_cursor_loop p items (later cursor candidate)
  ]

  unfoldable pub derive_cursor_from_items :
      List (Value Float) → String → Result PollError (Option (Value Float))
  derive_cursor_from_items items p = derive_cursor_loop p items none

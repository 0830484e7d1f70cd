-- ===== src/Poll/Compare.antt =====
-- src/subscription_poll.rs: the order of JSON values, and when an item is newer than a checkpoint.
use Prim.Native.Nat.{compare, Ordering}
use Prim.Native.String.{compare as compare_text}
use uxc.Base.{ℕ, Bool, true, false, Option, none, some, unwrap_or}
use uxc.Base.Int.{ℤ, pos, negsuc, compare_ℤ}
use uxc.Json.{Number, Value, bool, number, string, as_i64, as_u64, Serde}

abbrev pub is_greater : Ordering → Bool
is_greater Ordering.gt = true
is_greater Ordering.lt = false
is_greater Ordering.eq = false

-- `bool::cmp`
abbrev compare_bool : Bool → Bool → Ordering
compare_bool false false = Ordering.eq
compare_bool false true = Ordering.lt
compare_bool true false = Ordering.gt
compare_bool true true = Ordering.eq

module _ (serde : Serde) where
  open serde use {Float, to_string, as_f64, partial_cmp}

  compare_floats : Option Float → Option Float → Ordering
  compare_floats (some a) (some b) = unwrap_or (partial_cmp a b) Ordering.eq
  compare_floats none b = Ordering.eq
  compare_floats (some a) none = Ordering.eq

  compare_unsigned : Number Float → Number Float → Option ℕ → Option ℕ → Ordering
  compare_unsigned left right (some a) (some b) = compare a b
  compare_unsigned left right none b = compare_floats (as_f64 left) (as_f64 right)
  compare_unsigned left right (some a) none = compare_floats (as_f64 left) (as_f64 right)

  compare_signed : Number Float → Number Float → Option ℤ → Option ℤ → Ordering
  compare_signed left right (some a) (some b) = compare_ℤ a b
  compare_signed left right (some (negsuc a)) none = Ordering.lt
  compare_signed left right none (some (negsuc b)) = Ordering.gt
  compare_signed left right (some (pos a)) none =
      compare_unsigned left right (as_u64 left) (as_u64 right)
  compare_signed left right none (some (pos b)) =
      compare_unsigned left right (as_u64 left) (as_u64 right)
  compare_signed left right none none = compare_unsigned left right (as_u64 left) (as_u64 right)

  unfoldable pub compare_json_numbers : Number Float → Number Float → Ordering
  unfolding compare_signed compare_unsigned compare_floats
  compare_json_numbers left right = compare_signed left right (as_i64 left) (as_i64 right)

  compare_as_text : Value Float → Value Float → Ordering
  compare_as_text left right =
      compare_text (unwrap_or (to_string left) "") (unwrap_or (to_string right) "")

  unfoldable pub compare_json_values : Value Float → Value Float → Ordering
  unfolding compare_as_text
  compare_json_values (number a) (number b) = compare_json_numbers a b
  compare_json_values (string a) (string b) = compare_text a b
  compare_json_values (bool a) (bool b) = compare_bool a b
  compare_json_values left right = compare_as_text left right

  unfoldable pub newer_tie : Option (Value Float) → Option (Value Float) → Bool
  newer_tie (some next) (some current) = is_greater (compare_json_values next current)
  newer_tie none current = false
  newer_tie (some next) none = false

  unfoldable pub newer_by : Ordering → Option (Value Float) → Option (Value Float) → Bool
  newer_by Ordering.gt tie current_tie = true
  newer_by Ordering.lt tie current_tie = false
  newer_by Ordering.eq tie current_tie = newer_tie tie current_tie

  unfoldable pub is_newer_item :
      Value Float → Option (Value Float) → Option (Value Float) → Option (Value Float) → Bool
  unfolding newer_by newer_tie
  is_newer_item watermark tie none current_tie = true
  is_newer_item watermark tie (some current) current_tie =
      newer_by (compare_json_values watermark current) tie current_tie

-- ===== src/Coercion/Values.antt =====
-- src/arg_coercion.rs: what a schema says of the type of a value, and the coercion of single values.
use uxc.Base.{
  String, Bool, true, false, Option, none, some, List, [], ◌∷◌, str_eq, if◌then◌else◌, is_some,
  or_else,
}
use uxc.Base.Int.{ℤ}
use uxc.Base.Result.{Result, ok, err, ◌>>=◌, ok_or}
use uxc.Base.Text.{same_ignoring_case}
use uxc.Json.{
  Number, float, Value, null, bool, number, string, array, object, Items, Fields, end, field,
  as_array, from_i64,
}

pub data CoercionError : Type 0 where
  wrong_type : CoercionError
  missing_field : String → CoercionError
  unknown_field : String → CoercionError
  no_branch : CoercionError
  not_constant : CoercionError
  not_in_enum : CoercionError
  not_an_object : CoercionError
  out_of_fuel : CoercionError

-- `serde_json::from_str`, `str::parse`, `Number::from_f64`, `Number::to_string`, and `==` on values.
pub record Parsers (F : Type 0) : Type 0 where
  pub from_str : String → Option (Value F)
  pub parse_i64 : String → Option ℤ
  pub parse_f64 : String → Option F
  pub from_f64 : F → Option (Number F)
  pub number_text : Number F → String
  pub value_eq : Value F → Value F → Bool

module _ {F : Type 0} where
  abbrev pub find_field : String → Fields F → Option (Value F)
  find_field key end = none
  find_field key (field k v fs) = if str_eq k key then some v else find_field key fs

  -- `Value::get`
  abbrev pub get : String → Value F → Option (Value F)
  get key (object fs) = find_field key fs
  get key _ = none

  abbrev pub as_str : Value F → Option String
  as_str (string s) = some s
  as_str _ = none

  abbrev pub as_fields : Option (Value F) → Fields F
  as_fields (some (object fs)) = fs
  as_fields _ = end

  abbrev pub as_items : Option (Value F) → Option (List (Value F))
  as_items none = none
  as_items (some v) = as_array v

  -- `filter_map(Value::as_str)`
  abbrev pub texts : List (Value F) → List String
  texts [] = []
  texts (string s ∷ vs) = s ∷ texts vs
  texts (_ ∷ vs) = texts vs

  abbrev pub is_integer : Number F → Bool
  is_integer (float f) = false
  is_integer _ = true

  abbrev type_text : Option (Value F) → Option String
  type_text (some v) = as_str v
  type_text none = none

  unfoldable pub schema_type : Value F → Option String
  schema_type schema = or_else (type_text (get "type" schema)) (
      if is_some (get "properties" schema)
      then some "object"
      else if is_some (get "items" schema)
      then some "array"
      else none)

-- The types that the match on the schema's type knows.
pub data Kind : Type 0 where
  object_kind array_kind integer_kind number_kind boolean_kind null_kind string_kind any_kind : Kind

unfoldable pub kind_named : String → Kind
kind_named t =
    if str_eq t "object"
    then object_kind
    else if str_eq t "array"
    then array_kind
    else if str_eq t "integer"
    then integer_kind
    else if str_eq t "number"
    then number_kind
    else if str_eq t "boolean"
    then boolean_kind
    else if str_eq t "null"
    then null_kind
    else if str_eq t "string"
    then string_kind
    else any_kind

module _ {F : Type 0} (parsers : Parsers F) where
  open parsers use {from_str, parse_i64, parse_f64, from_f64, number_text, value_eq}

  abbrev pub R : Type 0 → Type 0
  R A = Result CoercionError A

  -- The entries of an argument that is to be an object, or of the object that its text holds.
  unfoldable pub object_of : Value F → R (Fields F)
  object_of (object fs) = ok fs
  object_of (string raw) = elim (from_str raw) [
    | some (object fs) ↦ ok fs
    | some _ ↦ err wrong_type
    | none ↦ err wrong_type
  ]
  object_of _ = err wrong_type

  unfoldable pub array_of : Value F → R (Items F)
  array_of (array xs) = ok xs
  array_of (string raw) = elim (from_str raw) [
    | some (array xs) ↦ ok xs
    | some _ ↦ err wrong_type
    | none ↦ err wrong_type
  ]
  array_of _ = err wrong_type

  unfoldable pub coerce_integer : Value F → R (Value F)
  coerce_integer (number n) = if is_integer n then ok (number n) else err wrong_type
  coerce_integer (string raw) = do i ← ok_or (parse_i64 raw) wrong_type; ok (number (from_i64 i))
  coerce_integer _ = err wrong_type

  unfoldable pub coerce_number : Value F → R (Value F)
  coerce_number (number n) = ok (number n)
  coerce_number (string raw) = do
    f ← ok_or (parse_f64 raw) wrong_type
    n ← ok_or (from_f64 f) wrong_type
    ok (number n)
  coerce_number _ = err wrong_type

  unfoldable pub bool_of : String → R Bool
  bool_of raw =
      if same_ignoring_case raw "true"
      then ok true
      else if same_ignoring_case raw "false"
      then ok false
      else err wrong_type

  unfoldable pub coerce_boolean : Value F → R (Value F)
  coerce_boolean (bool b) = ok (bool b)
  coerce_boolean (string raw) = do b ← bool_of raw; ok (bool b)
  coerce_boolean _ = err wrong_type

  unfoldable pub coerce_null : Value F → R (Value F)
  coerce_null null = ok null
  coerce_null (string raw) = if same_ignoring_case raw "null" then ok null else err wrong_type
  coerce_null _ = err wrong_type

  unfoldable pub coerce_string : Value F → R (Value F)
  coerce_string (string s) = ok (string s)
  coerce_string (number n) = ok (string (number_text n))
  coerce_string (bool b) = ok (string (if b then "true" else "false"))
  coerce_string null = ok (string "null")
  coerce_string _ = err wrong_type

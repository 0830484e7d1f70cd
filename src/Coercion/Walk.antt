-- ===== src/Coercion/Walk.antt =====
-- src/arg_coercion.rs: the walk of `coerce_value` over a schema and a value.
use uxc.Base.{
  ℕ, zero, suc, String, Bool, false, not, ◌||◌, Option, none, some, List, [], ◌∷◌, if◌then◌else◌,
  is_some, or_else, unwrap_or,
}
use uxc.Base.Result.{Result, ok, err, ◌>>=◌, ◌>>◌, bail_if, ok_or}
use uxc.Base.Text.{same_ignoring_case}
use uxc.Json.{
  Value, null, bool, number, string, array, object, Items, nil, cons, Fields, end, field, from_i64,
}
use uxc.Coercion.Values.{
  CoercionError, missing_field, unknown_field, no_branch, not_constant, not_in_enum, out_of_fuel,
  wrong_type, Parsers, find_field, get, as_fields, as_items, texts, is_integer, schema_type, Kind,
  object_kind, array_kind, integer_kind, number_kind, boolean_kind, null_kind, string_kind,
  any_kind, kind_named, R, object_of, array_of, coerce_integer, coerce_number, bool_of,
  coerce_boolean, coerce_null, coerce_string,
}

abbrev pub named : Option String → Kind
named none = any_kind
named (some t) = kind_named t

module _ {F : Type 0} where
  -- The branches of `oneOf`, or else of `anyOf`.
  unfoldable pub union_of : Value F → Option (List (Value F))
  union_of schema = or_else (as_items (get "oneOf" schema)) (as_items (get "anyOf" schema))

  unfoldable pub kind_of : Value F → Kind
  kind_of schema = named (schema_type schema)

  unfoldable pub property : String → Value F → Option (Value F)
  property key schema = find_field key (as_fields (get "properties" schema))

  unfoldable pub required_of : Value F → List String
  required_of schema = texts (unwrap_or (as_items (get "required" schema)) [])

  abbrev pub contains_key : String → Fields F → Bool
  contains_key key fs = is_some (find_field key fs)

  abbrev pub on_list : (Value F → Bool) → List (Value F) → Bool
  on_list p [] = false
  on_list p (v ∷ vs) = p v || on_list p vs

  -- Every required field is there.
  unfoldable pub check_required : List String → Fields F → Result CoercionError (Unit {0})
  check_required [] fs = ok tt
  check_required (key ∷ keys) fs = do
    bail_if (not (contains_key key fs)) (missing_field key)
    check_required keys fs

module _ {F : Type 0} (parsers : Parsers F) where
  open parsers use {parse_i64, parse_f64, from_f64, value_eq}

  unfoldable pub coerce_literal_to_match : String → Value F → R parsers (Value F)
  coerce_literal_to_match raw (string s) = ok (string raw)
  coerce_literal_to_match raw (bool b) = do b' ← bool_of parsers raw; ok (bool b')
  coerce_literal_to_match raw null =
      if same_ignoring_case raw "null" then ok null else err wrong_type
  coerce_literal_to_match raw (number n) =
      if is_integer n
      then (do i ← ok_or (parse_i64 raw) wrong_type; ok (number (from_i64 i)))
      else (do
        f ← ok_or (parse_f64 raw) wrong_type
        n' ← ok_or (from_f64 f) wrong_type
        ok (number n'))
  coerce_literal_to_match raw _ = err wrong_type

  -- A result, or what comes after an error.
  abbrev pub or_next : R parsers (Value F) → R parsers (Value F) → R parsers (Value F)
  or_next (ok v) later = ok v
  or_next (err e) later = later

  abbrev pub equals : R parsers (Value F) → Value F → Bool
  equals (ok v) candidate = value_eq v candidate
  equals (err e) candidate = false

  -- The text of an argument stands for a value of the enumeration.
  unfoldable pub spells : Value F → List (Value F) → Bool
  spells (string raw) candidates =
      on_list (λ candidate. equals (coerce_literal_to_match raw candidate) candidate) candidates
  spells _ candidates = false

  unfoldable pub check_const : Value F → Option (Value F) → R parsers (Unit {0})
  check_const value none = ok tt
  check_const value (some constant) = bail_if (not (value_eq value constant)) not_constant

  unfoldable pub check_enum : Value F → Option (List (Value F)) → R parsers (Unit {0})
  check_enum value none = ok tt
  check_enum value (some candidates) =
      if on_list (λ candidate. value_eq candidate value) candidates
      then ok tt
      else bail_if (not (spells value candidates)) not_in_enum

  unfoldable pub validate_const_and_enum : Value F → Value F → R parsers (Unit {0})
  validate_const_and_enum value schema = do
    check_const value (get "const" schema)
    check_enum value (as_items (get "enum" schema))

  -- The steps of the walk, given the walk for the parts of the schema.
  module _ (strict_unknown_fields enforce_required_fields : Bool)
      (rec : Value F → Value F → R parsers (Value F)) where
    -- The first branch that accepts the value.
    unfoldable pub coerce_union : Value F → List (Value F) → R parsers (Value F)
    coerce_union value [] = err no_branch
    coerce_union value (branch ∷ branches) =
        or_next (rec value branch) (coerce_union value branches)

    -- The value of an entry, given the schema of its property.
    unfoldable pub coerce_entry : String → Value F → Option (Value F) → R parsers (Value F)
    coerce_entry key raw (some prop_schema) = rec raw prop_schema
    coerce_entry key raw none = if strict_unknown_fields then err (unknown_field key) else ok raw

    unfoldable pub coerce_entries : Value F → Fields F → R parsers (Fields F)
    coerce_entries schema end = ok end
    coerce_entries schema (field key raw rest) = do
      v ← coerce_entry key raw (property key schema)
      vs ← coerce_entries schema rest
      ok (field key v vs)

    unfoldable pub coerce_object : Value F → Value F → R parsers (Value F)
    coerce_object value schema = do
      fs ← object_of parsers value
      if enforce_required_fields then check_required (required_of schema) fs else ok tt
      output ← coerce_entries schema fs
      ok (object output)

    unfoldable pub coerce_item : Value F → Option (Value F) → R parsers (Value F)
    coerce_item item none = ok item
    coerce_item item (some item_schema) = rec item item_schema

    unfoldable pub coerce_items : Option (Value F) → Items F → R parsers (Items F)
    coerce_items item_schema nil = ok nil
    coerce_items item_schema (cons item items) = do
      v ← coerce_item item item_schema
      vs ← coerce_items item_schema items
      ok (cons v vs)

    unfoldable pub coerce_array : Value F → Value F → R parsers (Value F)
    coerce_array value schema = do
      xs ← array_of parsers value
      output ← coerce_items (get "items" schema) xs
      ok (array output)

    unfoldable pub coerce_kind : Kind → Value F → Value F → R parsers (Value F)
    coerce_kind object_kind value schema = coerce_object value schema
    coerce_kind array_kind value schema = coerce_array value schema
    coerce_kind integer_kind value schema = coerce_integer parsers value
    coerce_kind number_kind value schema = coerce_number parsers value
    coerce_kind boolean_kind value schema = coerce_boolean parsers value
    coerce_kind null_kind value schema = coerce_null parsers value
    coerce_kind string_kind value schema = coerce_string parsers value
    coerce_kind any_kind value schema = ok value

    unfoldable pub coerce_typed : Value F → Value F → R parsers (Value F)
    coerce_typed value schema = do
      coerced ← coerce_kind (kind_of schema) value schema
      validate_const_and_enum coerced schema
      ok coerced

    unfoldable pub coerce_step : Value F → Value F → R parsers (Value F)
    coerce_step value schema = elim (union_of schema) [
      | some branches ↦ coerce_union value branches
      | none ↦ coerce_typed value schema
    ]

  module _ (strict_unknown_fields enforce_required_fields : Bool) where
    -- `coerce_value` on fuel.
    unfoldable pub walk : ℕ → Value F → Value F → R parsers (Value F)
    walk zero value schema = err out_of_fuel
    walk (suc fuel) value schema =
        coerce_step strict_unknown_fields enforce_required_fields (walk fuel) value schema

-- ===== src/Coercion/Tests.antt =====
-- The theorems on coercion at inputs, with small parsers in the place of serde_json's and Rust's.
use uxc.Base.{some-injective}
use uxc.Base.{false-ne-true}
use uxc.Base.{
  ℕ, String, Bool, ◌≡◌, ◌∙◌, sym, ap, subst, refl, Option, none, some, [], ◌∷◌, true, false, inl,
  inr, str_eq, ◌==◌,
}
use uxc.Base.Int.{ℤ, pos}
use uxc.Base.Result.{ok}
use uxc.Base.Text.{codes}
use uxc.Json.{
  pos_int, float, Value, bool, number, string, array, object, Fields, end, field, from_list,
}
use uxc.Daemon.PollLoop.HeaderMap.{parse_u64, parse_digits}
use uxc.Coercion.Values.{Parsers, schema_type, kind_named, object_of, coerce_integer}
use uxc.Coercion.Walk.{
  union_of, kind_of, property, required_of, check_required, spells, check_const, check_enum,
  validate_const_and_enum, coerce_literal_to_match, coerce_entry, coerce_entries, coerce_object,
  coerce_kind, coerce_typed, coerce_step, walk,
}
use uxc.Coercion.Fuel.{depth, coerce_value}
use uxc.Coercion.Conforms.{IsAllowed, Conforms, by_entries, by_kind}
use uxc.Coercion.Keeps.{Conforms-coerce_value}
use uxc.Coercion.Prepare.{
  json_rpc, OperationDetail, insert_field, object_schema, jsonrpc_params, normalize_jsonrpc_schema,
  normalize_operation_schema, coerce_execute_args, prepare_execute_args_from_detail,
  prepare_execute_args,
}
use uxc.Coercion.Prepared.{Prepared, prepare_execute_args-Prepared}

abbrev as_pos : Option ℕ → Option ℤ
as_pos none = none
as_pos (some n) = some (pos n)

abbrev toy_eq : Value ℕ → Value ℕ → Bool
toy_eq (string s) (string t) = str_eq s t
toy_eq (number (pos_int m)) (number (pos_int n)) = m == n
toy_eq _ _ = false

abbrev toy : Parsers ℕ
toy = record {
  from_str = λ s. none;
  parse_i64 = λ s. as_pos (parse_u64 (codes s));
  parse_f64 = λ s. parse_u64 (codes s);
  from_f64 = λ f. some (float f);
  number_text = λ n. "0";
  value_eq = toy_eq;
}

abbrev integer_schema : Value ℕ
integer_schema = object (field "type" (string "integer") end)

abbrev count_param : Value ℕ
count_param = object (
    field "name" (string "count")
      (field "required" (bool true) (field "schema" integer_schema end)))

abbrev tag_param : Value ℕ
tag_param = object (
    field "name" (string "tag") (
      field "schema"
        (object (field "enum" (array (from_list (string "a" ∷ number (pos_int 2) ∷ []))) end)) end))

abbrev detail : OperationDetail ℕ
detail = record {
  parameters = [];
  input_schema =
      some (object (field "params" (array (from_list (count_param ∷ tag_param ∷ []))) end));
}

abbrev raw_args : Fields ℕ
raw_args = field "count" (string "3") (field "tag" (string "2") end)

abbrev out_args : Fields ℕ
out_args = field "count" (number (pos_int 3)) (field "tag" (string "2") end)

-- The text "2" stands for the number of the enumeration, and stays a text.
prepared : prepare_execute_args toy json_rpc (some detail) raw_args ≡ ok out_args
unfolding prepare_execute_args prepare_execute_args_from_detail normalize_operation_schema
    normalize_jsonrpc_schema jsonrpc_params insert_field object_schema coerce_execute_args
    coerce_value depth walk coerce_step union_of coerce_typed kind_of kind_named schema_type
    coerce_kind coerce_object object_of required_of check_required coerce_entries coerce_entry
    property coerce_integer parse_u64 parse_digits validate_const_and_enum check_const check_enum
    spells coerce_literal_to_match
prepared = refl

prepare_execute_args-Prepared_example : Prepared toy json_rpc (some detail) raw_args out_args
prepare_execute_args-Prepared_example =
    prepare_execute_args-Prepared toy json_rpc (some detail) raw_args out_args prepared

abbrev point_schema : Value ℕ
point_schema = object (
    field "properties" (object (field "x" integer_schema end))
      (field "required" (array (from_list (string "x" ∷ []))) end))

abbrev point : Value ℕ
point = object (field "x" (number (pos_int 4)) end)

seven : Conforms toy false true false integer_schema (number (pos_int 4))
unfolding union_of kind_of kind_named schema_type validate_const_and_enum check_const check_enum
seven = by_kind refl (pos_int 4, refl, refl) (tt, tt)

point-IsAllowed : IsAllowed toy false true point_schema point
point-IsAllowed = (tt, tt)

point-Conforms : Conforms toy false true false point_schema point
unfolding union_of kind_of kind_named schema_type validate_const_and_enum check_const check_enum
    required_of property
point-Conforms =
    by_entries (field "x" (number (pos_int 4)) end) refl refl refl (λ t. (refl, tt))
      (λ key v p i q. elim i [
        | inl (k, w) ↦
            subst (λ (x : Value ℕ). Conforms toy false true false x v)
              (some-injective (ap (λ (x : String). property x point_schema) (sym k) ∙ q))
              (subst (Conforms toy false true false integer_schema) (sym w) seven)
        | inr n ↦ absurd n
      ])
      (λ t. absurd (false-ne-true t)) point-IsAllowed

Conforms-coerce_value_example : coerce_value toy false true point point_schema ≡ ok point
Conforms-coerce_value_example = Conforms-coerce_value toy false true point-Conforms

-- ===== src/Coercion/Prepared.antt =====
-- What the arguments of an operation are like when they are prepared.
use uxc.Base.{◌≡◌, refl, sym, Option, none, some, Option-cases, inl, inr, ◌⊎◌, true, subst}
use uxc.Base.Result.{ok, ok-injective, err-ne-ok, >>=-eq-ok}
use uxc.Json.{Value, null, bool, number, string, array, object, Fields, end, field}
use uxc.Coercion.Values.{Parsers, not_an_object}
use uxc.Coercion.Fuel.{coerce_value}
use uxc.Coercion.Conforms.{Conforms}
use uxc.Coercion.Sound.{coerce_value-Conforms}
use uxc.Coercion.Prepare.{
  ProtocolType, OperationDetail, NormalizedSchema, normalize_operation_schema, entries_of,
  coerce_execute_args, prepare_execute_args_from_detail, prepare_execute_args,
}

-- The schema of an operation whose description may have failed.
abbrev pub schema_of :
    {F : Type 0} → ProtocolType → Option (OperationDetail F) → Option (NormalizedSchema F)
schema_of protocol none = none
schema_of protocol (some detail) = normalize_operation_schema protocol detail

module _ {F : Type 0} (parsers : Parsers F) where
  -- The arguments are as they were, as there are none or there is no schema; or they conform to it.
  abbrev pub Prepared : ProtocolType → Option (OperationDetail F) → Fields F → Fields F → Type 0
  Prepared protocol detail raw out =
      ((out ≡ raw) × ((raw ≡ end) ⊎ (schema_of protocol detail ≡ none)))
      ⊎ ((n : NormalizedSchema F) × (schema_of protocol detail ≡ some n)
          × Conforms parsers n.strict_unknown_fields n.enforce_required_fields true n.root
              (object out))

  entries_of-object :
      (v : Value F) (out : Fields F) → entries_of parsers v ≡ ok out → v ≡ object out
  entries_of-object (object fs) out e = rw (ok-injective e) refl
  entries_of-object null out e = absurd (err-ne-ok not_an_object out e)
  entries_of-object (bool b) out e = absurd (err-ne-ok not_an_object out e)
  entries_of-object (number n) out e = absurd (err-ne-ok not_an_object out e)
  entries_of-object (string s) out e = absurd (err-ne-ok not_an_object out e)
  entries_of-object (array xs) out e = absurd (err-ne-ok not_an_object out e)

  coerced-Conforms :
      (raw out : Fields F) (n : NormalizedSchema F)
      → coerce_execute_args parsers raw n ≡ ok out
      → Conforms parsers n.strict_unknown_fields n.enforce_required_fields true n.root (object out)
  unfolding coerce_execute_args
  coerced-Conforms raw out n e =
      let strict = n.strict_unknown_fields in
      let enforce = n.enforce_required_fields in
      let a = >>=-eq-ok (coerce_value parsers strict enforce (object raw) n.root) _ e in
      subst (Conforms parsers strict enforce true n.root) (entries_of-object a.0 out a.2)
        (coerce_value-Conforms parsers strict enforce (object raw) n.root a.0 a.1)

  -- When the arguments of an operation are prepared without an error, either they are as they were, and
  -- there were none or the operation has no schema (also when its description failed), or it has one
  -- and they conform to it, with the required fields where it enforces them. A value conforms to a
  -- constant that it equals, and to an enumeration that holds an equal value, or, as the code has it, a
  -- value that the text of the argument is read as: that text is let through as a text.
  pub prepare_execute_args-Prepared :
      (protocol : ProtocolType) (detail : Option (OperationDetail F)) (raw_args out : Fields F)
      → prepare_execute_args parsers protocol detail raw_args ≡ ok out
      → Prepared protocol detail raw_args out
  unfolding prepare_execute_args prepare_execute_args_from_detail
  prepare_execute_args-Prepared protocol none raw out e = inl (sym (ok-injective e), inr refl)
  prepare_execute_args-Prepared protocol (some detail) end out e =
      inl (sym (ok-injective e), inl refl)
  prepare_execute_args-Prepared protocol (some detail) (field k v fs) out e =
      elim (Option-cases (normalize_operation_schema protocol detail)) [
        | inl q ↦ inl (sym (ok-injective (rw (q, prepare_execute_args_from_detail) at e)), inr q)
        | inr (n, q) ↦ inr (
          n,
          q,
          coerced-Conforms (field k v fs) out n (rw (q, prepare_execute_args_from_detail) at e),
        )
      ]

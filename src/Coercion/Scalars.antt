-- ===== src/Coercion/Scalars.antt =====
-- The coercion of single values gives values of the type, and leaves those that are of the type.
use uxc.Base.{◌≡◌, refl, sym, true, Bool-cases, inl, inr}
use uxc.Base.Int.{ℤ, pos, negsuc}
use uxc.Base.Result.{ok, ok-injective, err-ne-ok, >>=-eq-ok, ok_or}
use uxc.Base.Text.{same_ignoring_case}
use uxc.Json.{Value, null, bool, number, string, array, object, from_i64}
use uxc.Coercion.Values.{
  wrong_type, Parsers, integer_kind, number_kind, boolean_kind, null_kind, string_kind, is_integer,
  bool_of, coerce_integer, coerce_number, coerce_boolean, coerce_null, coerce_string,
}
use uxc.Coercion.Conforms.{IsOf}

is_integer-from_i64 : (F : Type 0) (i : ℤ) → is_integer {F = F} (from_i64 i) ≡ true
is_integer-from_i64 F (pos n) = refl
is_integer-from_i64 F (negsuc n) = refl

module _ {F : Type 0} (parsers : Parsers F) where
  open parsers use {parse_i64, parse_f64, from_f64}

  pub coerce_integer-IsOf : (v w : Value F) → coerce_integer parsers v ≡ ok w → IsOf integer_kind w
  unfolding coerce_integer
  coerce_integer-IsOf (number n) w e = elim (Bool-cases (is_integer n)) [
    | inl t ↦ (n, sym (ok-injective (rw t at e)), t)
    | inr t ↦ absurd (err-ne-ok _ w (rw t at e))
  ]
  coerce_integer-IsOf (string raw) w e =
      let r = >>=-eq-ok (ok_or (parse_i64 raw) wrong_type) _ e in
      (from_i64 r.0, sym (ok-injective r.2), is_integer-from_i64 F r.0)
  coerce_integer-IsOf null w e = absurd (err-ne-ok _ w e)
  coerce_integer-IsOf (bool b) w e = absurd (err-ne-ok _ w e)
  coerce_integer-IsOf (array xs) w e = absurd (err-ne-ok _ w e)
  coerce_integer-IsOf (object fs) w e = absurd (err-ne-ok _ w e)

  pub coerce_number-IsOf : (v w : Value F) → coerce_number parsers v ≡ ok w → IsOf number_kind w
  unfolding coerce_number
  coerce_number-IsOf (number n) w e = (n, sym (ok-injective e))
  coerce_number-IsOf (string raw) w e =
      let r = >>=-eq-ok (ok_or (parse_f64 raw) wrong_type) _ e in
      let q = >>=-eq-ok (ok_or (from_f64 r.0) wrong_type) _ r.2 in (q.0, sym (ok-injective q.2))
  coerce_number-IsOf null w e = absurd (err-ne-ok _ w e)
  coerce_number-IsOf (bool b) w e = absurd (err-ne-ok _ w e)
  coerce_number-IsOf (array xs) w e = absurd (err-ne-ok _ w e)
  coerce_number-IsOf (object fs) w e = absurd (err-ne-ok _ w e)

  pub coerce_boolean-IsOf : (v w : Value F) → coerce_boolean parsers v ≡ ok w → IsOf boolean_kind w
  unfolding coerce_boolean
  coerce_boolean-IsOf (bool b) w e = (b, sym (ok-injective e))
  coerce_boolean-IsOf (string raw) w e =
      let r = >>=-eq-ok (bool_of parsers raw) _ e in (r.0, sym (ok-injective r.2))
  coerce_boolean-IsOf null w e = absurd (err-ne-ok _ w e)
  coerce_boolean-IsOf (number n) w e = absurd (err-ne-ok _ w e)
  coerce_boolean-IsOf (array xs) w e = absurd (err-ne-ok _ w e)
  coerce_boolean-IsOf (object fs) w e = absurd (err-ne-ok _ w e)

  pub coerce_null-IsOf : (v w : Value F) → coerce_null parsers v ≡ ok w → IsOf null_kind w
  unfolding coerce_null
  coerce_null-IsOf null w e = sym (ok-injective e)
  coerce_null-IsOf (string raw) w e = elim (Bool-cases (same_ignoring_case raw "null")) [
    | inl t ↦ sym (ok-injective (rw t at e))
    | inr t ↦ absurd (err-ne-ok _ w (rw t at e))
  ]
  coerce_null-IsOf (bool b) w e = absurd (err-ne-ok _ w e)
  coerce_null-IsOf (number n) w e = absurd (err-ne-ok _ w e)
  coerce_null-IsOf (array xs) w e = absurd (err-ne-ok _ w e)
  coerce_null-IsOf (object fs) w e = absurd (err-ne-ok _ w e)

  pub coerce_string-IsOf : (v w : Value F) → coerce_string parsers v ≡ ok w → IsOf string_kind w
  unfolding coerce_string
  coerce_string-IsOf (string s) w e = (s, sym (ok-injective e))
  coerce_string-IsOf (number n) w e = (_, sym (ok-injective e))
  coerce_string-IsOf (bool b) w e = (_, sym (ok-injective e))
  coerce_string-IsOf null w e = (_, sym (ok-injective e))
  coerce_string-IsOf (array xs) w e = absurd (err-ne-ok _ w e)
  coerce_string-IsOf (object fs) w e = absurd (err-ne-ok _ w e)

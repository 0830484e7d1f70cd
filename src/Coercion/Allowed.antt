-- ===== src/Coercion/Allowed.antt =====
-- What `validate_const_and_enum` accepts.
use uxc.Base.{
  String, ◌≡◌, refl, Bool, true, false, Option, none, some, List, [], ◌∷◌, ◌↔◌, inl, inr,
  Bool-cases, false-ne-true, sym, subst,
}
use uxc.Base.Result.{ok, err, err-ne-ok, ok-injective, >>=-eq-ok}
use uxc.Json.{Value, null, bool, number, string, array, object}
use uxc.Coercion.Values.{Parsers, R, get, as_items, not_constant, not_in_enum}
use uxc.Coercion.Walk.{
  on_list, coerce_literal_to_match, equals, spells, check_const, check_enum,
  validate_const_and_enum,
}
use uxc.Coercion.Conforms.{IsBranch, IsConstant, Reads, IsListed, IsAllowed}

module _ {F : Type 0} where
  string-injective : (s t : String) → ◌≡◌ {A = Value F} (string s) (string t) → s ≡ t
  string-injective s t e = cc

  on_list-IsBranch :
      (p : Value F → Bool) (cs : List (Value F))
      → (on_list p cs ≡ true) ↔ ((c : Value F) × IsBranch c cs × (p c ≡ true))
  on_list-IsBranch p [] = (λ e. absurd (false-ne-true e), λ h. absurd h.1)
  on_list-IsBranch p (c ∷ cs) =
      let rest = on_list-IsBranch p cs in
      elim (Bool-cases (p c)) [
        | inl q ↦ rw q (λ e. (c, inl refl, q), λ h. refl)
        | inr q ↦ rw q (
          λ e. let r = rest.0 e in (r.0, inr r.1, r.2),
          λ (d, i, r). elim i [
            | inl s ↦ absurd (false-ne-true (rw (s, q) at r))
            | inr j ↦ rest.1 (d, j, r)
          ],
        )
      ]

module _ {F : Type 0} (parsers : Parsers F) (strict enforce : Bool) where
  open parsers use {value_eq}

  const_iff :
      (value : Value F) (o : Option (Value F))
      → (check_const parsers value o ≡ ok tt) ↔ IsConstant parsers strict enforce o value
  unfolding check_const
  const_iff value none = (λ e. tt {0}, λ h. refl)
  const_iff value (some c) = elim (Bool-cases (value_eq value c)) [
    | inl q ↦ rw (q, check_const) (λ e. refl, λ h. refl)
    | inr q ↦
        rw (q, check_const)
          (λ e. absurd (err-ne-ok not_constant tt e), λ h. absurd (false-ne-true h))
  ]

  equals_iff :
      (r : R parsers (Value F)) (c : Value F)
      → (equals parsers r c ≡ true) ↔ ((v : Value F) × (r ≡ ok v) × (value_eq v c ≡ true))
  equals_iff (ok v) c = (λ e. (v, refl, e), λ (w, q, h). rw (ok-injective q) h)
  equals_iff (err x) c = (λ e. absurd (false-ne-true e), λ (w, q, h). absurd (err-ne-ok x w q))

  no_text :
      (value : Value F) (cs : List (Value F))
      → ((raw : String) → value ≡ string raw → ⊥)
      → ((let b : Bool = false in b) ≡ true)
        ↔ ((c : Value F) × IsBranch c cs × Reads parsers strict enforce value c)
  no_text value cs n =
      (λ e. absurd (false-ne-true e), λ (c, i, (raw, v, q, r, h)). absurd (n raw q))

  spells-Reads :
      (value : Value F) (cs : List (Value F))
      → (spells parsers value cs ≡ true)
        ↔ ((c : Value F) × IsBranch c cs × Reads parsers strict enforce value c)
  unfolding spells
  spells-Reads (string raw) cs =
      let p = λ (c : Value F). equals parsers (coerce_literal_to_match parsers raw c) c in
      let found = on_list-IsBranch p cs in
      (
        λ e.
            let r = found.0 e in
            let q = (equals_iff (coerce_literal_to_match parsers raw r.0) r.0).0 r.2 in
            (r.0, r.1, (raw, q.0, refl, q.1, q.2)),
        λ (c, i, (t, v, q, r, h)).
            let same : t ≡ raw = string-injective t raw (sym q) in
            found.1 (
              c,
              i,
              (equals_iff (coerce_literal_to_match parsers raw c) c).1
                  (v, subst (λ x. coerce_literal_to_match parsers x c ≡ ok v) same r, h),
            ),
      )
  spells-Reads null cs = no_text null cs (λ raw e. cc)
  spells-Reads (bool b) cs = no_text (bool b) cs (λ raw e. cc)
  spells-Reads (number n) cs = no_text (number n) cs (λ raw e. cc)
  spells-Reads (array xs) cs = no_text (array xs) cs (λ raw e. cc)
  spells-Reads (object fs) cs = no_text (object fs) cs (λ raw e. cc)

  enum_iff :
      (value : Value F) (o : Option (List (Value F)))
      → (check_enum parsers value o ≡ ok tt) ↔ IsListed parsers strict enforce o value
  unfolding check_enum
  enum_iff value none = (λ e. tt {0}, λ h. refl)
  enum_iff value (some cs) =
      let listed = on_list-IsBranch (λ c. value_eq c value) cs in
      let read = spells-Reads value cs in
      elim (Bool-cases (on_list (λ c. value_eq c value) cs)) [
        | inl q ↦ rw (q, check_enum) (λ e. let r = listed.0 q in (r.0, r.1, inl r.2), λ h. refl)
        | inr q ↦ elim (Bool-cases (spells parsers value cs)) [
          | inl s ↦ rw (q, s, check_enum) (λ e. let r = read.0 s in (r.0, r.1, inr r.2), λ h. refl)
          | inr s ↦
              rw (q, s, check_enum)
                (
                  λ e. absurd (err-ne-ok not_in_enum tt e),
                  λ (c, i, h). elim h [
                    | inl v ↦ absurd (false-ne-true (rw q at (listed.1 (c, i, v))))
                    | inr v ↦ absurd (false-ne-true (rw s at (read.1 (c, i, v))))
                  ],
                )
        ]
      ]

  -- The code accepts exactly the values that are allowed.
  pub validate_const_and_enum-IsAllowed :
      (value schema : Value F)
      → (validate_const_and_enum parsers value schema ≡ ok tt)
        ↔ IsAllowed parsers strict enforce schema value
  unfolding validate_const_and_enum
  validate_const_and_enum-IsAllowed value schema =
      let c = const_iff value (get "const" schema) in
      let l = enum_iff value (as_items (get "enum" schema)) in
      (
        λ e.
            let a = >>=-eq-ok (check_const parsers value (get "const" schema)) _ e in
            (c.0 a.1, l.0 a.2),
        λ h. rw (c.1 h.0, l.1 h.1) refl,
      )

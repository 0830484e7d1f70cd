-- ===== src/Coercion/Keeps.antt =====
-- Coercion leaves a value that conforms to the schema as it is.
use uxc.Base.{false-ne-true, none-ne-some}
use uxc.Base.{
  String, ◌≡◌, refl, ◌∙◌, Bool, true, false, Option, none, some, List, [], ◌∷◌, Bool-cases, inl,
  inr,
}
use uxc.Base.Result.{ok}
use uxc.Json.{Value, array, object, Items, nil, cons, Fields, end, field}
use uxc.Coercion.Values.{
  Parsers, R, get, Kind, object_kind, array_kind, integer_kind, number_kind, boolean_kind,
  null_kind, string_kind, any_kind, object_of, array_of, coerce_integer, coerce_number,
  coerce_boolean, coerce_null, coerce_string,
}
use uxc.Coercion.Walk.{
  union_of, kind_of, property, required_of, check_required, coerce_entry, coerce_entries,
  coerce_object, coerce_item, coerce_items, coerce_array, coerce_kind, coerce_typed, coerce_step,
}
use uxc.Coercion.Fuel.{coerce_value, coerce_value-step}
use uxc.Coercion.Allowed.{validate_const_and_enum-IsAllowed}
use uxc.Coercion.Conforms.{
  HasEntry, HasItem, HasKeys, IsOf, IsAllowed, Conforms, by_branch, by_entries, by_items, by_kind,
}

HasKeys-check_required :
    {F : Type 0} (keys : List String) (fs : Fields F)
    → HasKeys keys fs
    → check_required keys fs ≡ ok tt
unfolding check_required
HasKeys-check_required [] fs h = refl
HasKeys-check_required (key ∷ keys) fs h = rw (h.0) (HasKeys-check_required keys fs h.1)

module _ {F : Type 0} (parsers : Parsers F) (strict enforce : Bool)
    (rec : Value F → Value F → R parsers (Value F)) where
  entry-keep :
      (key : String) (v : Value F) (o : Option (Value F))
      → ((p : Value F) → o ≡ some p → rec v p ≡ ok v)
      → (strict ≡ true → (p : Value F) × (o ≡ some p))
      → coerce_entry parsers strict enforce rec key v o ≡ ok v
  unfolding coerce_entry
  entry-keep key v none kids known = elim (Bool-cases strict) [
    | inl t ↦ absurd (none-ne-some (known t).1)
    | inr t ↦ rw t refl
  ]
  entry-keep key v (some p) kids known = kids p refl

  entries-keep :
      (s : Value F) (fs : Fields F)
      → ((key : String) (v p : Value F)
          → HasEntry key v fs
          → property key s ≡ some p
          → rec v p ≡ ok v)
      → (strict ≡ true
          → (key : String) (v : Value F) → HasEntry key v fs
          → (p : Value F) × (property key s ≡ some p))
      → coerce_entries parsers strict enforce rec s fs ≡ ok fs
  unfolding coerce_entries
  entries-keep s end kids known = refl
  entries-keep s (field key v fs) kids known =
      rw
        (
          entry-keep key v (property key s) (λ p q. kids key v p (inl (refl, refl)) q)
              (λ t. known t key v (inl (refl, refl))),
          entries-keep s fs (λ k w p i q. kids k w p (inr i) q) (λ t k w i. known t k w (inr i)),
        )
        refl

  items-keep :
      (o : Option (Value F)) (xs : Items F)
      → ((v p : Value F) → HasItem v xs → o ≡ some p → rec v p ≡ ok v)
      → coerce_items parsers strict enforce rec o xs ≡ ok xs
  unfolding coerce_items coerce_item
  items-keep o nil kids = refl
  items-keep none (cons v xs) kids = rw (items-keep none xs (λ w p i q. kids w p (inr i) q)) refl
  items-keep (some p) (cons v xs) kids =
      rw (kids v p (inl refl) refl, items-keep (some p) xs (λ w p' i q. kids w p' (inr i) q)) refl

  object-keep :
      (s : Value F) (fs : Fields F)
      → (enforce ≡ true → HasKeys (required_of s) fs)
      → coerce_entries parsers strict enforce rec s fs ≡ ok fs
      → coerce_object parsers strict enforce rec (object fs) s ≡ ok (object fs)
  unfolding coerce_object object_of
  object-keep s fs req h = elim (Bool-cases enforce) [
    | inl t ↦ rw (h, t, HasKeys-check_required (required_of s) fs (req t)) refl
    | inr t ↦ rw (h, t) refl
  ]

  array-keep :
      (s : Value F) (xs : Items F)
      → coerce_items parsers strict enforce rec (get "items" s) xs ≡ ok xs
      → coerce_array parsers strict enforce rec (array xs) s ≡ ok (array xs)
  unfolding coerce_array array_of
  array-keep s xs h = rw h refl

  kind-keep :
      (k : Kind) (v s : Value F) → IsOf k v → coerce_kind parsers strict enforce rec k v s ≡ ok v
  unfolding coerce_kind coerce_integer coerce_number coerce_boolean coerce_null coerce_string
  kind-keep object_kind v s h = absurd h
  kind-keep array_kind v s h = absurd h
  kind-keep integer_kind v s h = rw (h.1, h.2) refl
  kind-keep number_kind v s h = rw (h.1) refl
  kind-keep boolean_kind v s h = rw (h.1) refl
  kind-keep null_kind v s h = rw h refl
  kind-keep string_kind v s h = rw (h.1) refl
  kind-keep any_kind v s h = refl

  step-keep :
      (v s : Value F)
      → union_of s ≡ none
      → coerce_kind parsers strict enforce rec (kind_of s) v s ≡ ok v
      → IsAllowed parsers strict enforce s v
      → coerce_step parsers strict enforce rec v s ≡ ok v
  unfolding coerce_step coerce_typed
  step-keep v s u h allowed =
      rw
        (
          u,
          coerce_step,
          coerce_typed,
          h,
          (validate_const_and_enum-IsAllowed parsers strict enforce v s).1 allowed,
        )
        refl

module _ {F : Type 0} (parsers : Parsers F) (strict enforce : Bool) where
  -- A value that conforms to a schema, where no schema by cases is used, is left as it is.
  pub Conforms-coerce_value :
      {schema value : Value F}
      → Conforms parsers strict enforce false schema value
      → coerce_value parsers strict enforce value schema ≡ ok value
  unfolding coerce_kind
  Conforms-coerce_value (by_branch bs b t u i c) = absurd (false-ne-true t)
  Conforms-coerce_value {schema} {value} (by_entries fs q u k req kids known allowed) =
      coerce_value-step parsers strict enforce value schema
      ∙ step-keep parsers strict enforce _ value schema u
          (rw (k, q)
            (object-keep parsers strict enforce _ schema fs req (
              entries-keep parsers strict enforce _ schema fs
                (λ key v p i r. Conforms-coerce_value (kids key v p i r)) known)))
          allowed
  Conforms-coerce_value {schema} {value} (by_items xs q u k kids allowed) =
      coerce_value-step parsers strict enforce value schema
      ∙ step-keep parsers strict enforce _ value schema u
          (rw (k, q)
            (array-keep parsers strict enforce _ schema xs (
              items-keep parsers strict enforce _ (get "items" schema) xs
                (λ v p i r. Conforms-coerce_value (kids v p i r)))))
          allowed
  Conforms-coerce_value {schema} {value} (by_kind u h allowed) =
      coerce_value-step parsers strict enforce value schema
      ∙ step-keep parsers strict enforce _ value schema u
          (kind-keep parsers strict enforce _ (kind_of schema) value schema h) allowed

-- ===== src/Coercion/Conforms.antt =====
-- What a value must be like for a schema, and that coercion gives just such values.
use uxc.Base.{String, ◌≡◌, Bool, true, Option, none, some, List, [], ◌∷◌, ◌⊎◌}
use uxc.Base.Result.{ok}
use uxc.Json.{
  Number, Value, null, bool, number, string, array, object, Items, nil, cons, Fields, end, field,
}
use uxc.Coercion.Values.{
  Parsers, get, as_items, Kind, object_kind, array_kind, integer_kind, number_kind, boolean_kind,
  null_kind, string_kind, any_kind, is_integer,
}
use uxc.Coercion.Walk.{
  union_of, kind_of, property, required_of, contains_key, coerce_literal_to_match,
}

module _ {F : Type 0} where
  abbrev pub IsBranch : Value F → List (Value F) → Type 0
  IsBranch b [] = ⊥
  IsBranch b (c ∷ cs) = (b ≡ c) ⊎ IsBranch b cs

  abbrev pub HasEntry : String → Value F → Fields F → Type 0
  HasEntry key v end = ⊥
  HasEntry key v (field k w fs) = ((key ≡ k) × (v ≡ w)) ⊎ HasEntry key v fs

  abbrev pub HasItem : Value F → Items F → Type 0
  HasItem v nil = ⊥
  HasItem v (cons w xs) = (v ≡ w) ⊎ HasItem v xs

  -- Every key of a list is there.
  abbrev pub HasKeys : List String → Fields F → Type 0
  HasKeys [] fs = Unit
  HasKeys (key ∷ keys) fs = (contains_key key fs ≡ true) × HasKeys keys fs

  -- A value of a type without parts.
  abbrev pub IsOf : Kind → Value F → Type 0
  IsOf integer_kind v = (n : Number F) × (v ≡ number n) × (is_integer n ≡ true)
  IsOf number_kind v = (n : Number F) × (v ≡ number n)
  IsOf boolean_kind v = (b : Bool) × (v ≡ bool b)
  IsOf null_kind v = v ≡ null
  IsOf string_kind v = (s : String) × (v ≡ string s)
  IsOf any_kind v = Unit
  IsOf object_kind v = ⊥
  IsOf array_kind v = ⊥

module _ {F : Type 0} (parsers : Parsers F) (strict enforce : Bool) where
  open parsers use {value_eq}

  abbrev pub IsConstant : Option (Value F) → Value F → Type 0
  IsConstant none value = Unit
  IsConstant (some constant) value = value_eq value constant ≡ true

  -- A text that reads as a value, as the code reads texts.
  abbrev pub Reads : Value F → Value F → Type 0
  Reads value candidate =
      (raw : String) × (v : Value F) × (value ≡ string raw)
      × (coerce_literal_to_match parsers raw candidate ≡ ok v)
      × (value_eq v candidate ≡ true)

  abbrev pub IsListed : Option (List (Value F)) → Value F → Type 0
  IsListed none value = Unit
  IsListed (some candidates) value =
      (candidate : Value F) × IsBranch candidate candidates
      × ((value_eq candidate value ≡ true) ⊎ Reads value candidate)

  -- A value is the constant of the schema, and a value of its enumeration or the text of one, which the
  -- code lets through as a text; where the schema has them.
  abbrev pub IsAllowed : Value F → Value F → Type 0
  IsAllowed schema value =
      IsConstant (get "const" schema) value × IsListed (as_items (get "enum" schema)) value

  -- The values that fit a schema; `unions` says whether schemas by cases are among those that are used.
  pub data Conforms (unions : Bool) : Value F → Value F → Type 0 where
    by_branch :
        {schema value : Value F} (branches : List (Value F)) (branch : Value F)
        → unions ≡ true
        → union_of schema ≡ some branches
        → IsBranch branch branches
        → Conforms unions branch value
        → Conforms unions schema value
    by_entries :
        {schema value : Value F} (fs : Fields F)
        → value ≡ object fs
        → union_of schema ≡ none
        → kind_of schema ≡ object_kind
        → (enforce ≡ true → HasKeys (required_of schema) fs)
        → ((key : String) (v p : Value F)
            → HasEntry key v fs
            → property key schema ≡ some p
            → Conforms unions p v)
        → (strict ≡ true
            → (key : String) (v : Value F) → HasEntry key v fs
            → (p : Value F) × (property key schema ≡ some p))
        → IsAllowed schema value
        → Conforms unions schema value
    by_items :
        {schema value : Value F} (xs : Items F)
        → value ≡ array xs
        → union_of schema ≡ none
        → kind_of schema ≡ array_kind
        → ((v p : Value F) → HasItem v xs → get "items" schema ≡ some p → Conforms unions p v)
        → IsAllowed schema value
        → Conforms unions schema value
    by_kind :
        {schema value : Value F}
        → union_of schema ≡ none
        → IsOf (kind_of schema) value
        → IsAllowed schema value
        → Conforms unions schema value

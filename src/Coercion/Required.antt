-- ===== src/Coercion/Required.antt =====
-- The required fields of an object, found before its entries are coerced.
use uxc.Base.{String, ◌≡◌, refl, ◌∙◌, List, [], ◌∷◌, Bool-cases, inl, inr, str_eq}
use uxc.Base.Result.{ok, err-ne-ok}
use uxc.Json.{Value, Fields, field}
use uxc.Coercion.Walk.{contains_key, check_required}
use uxc.Coercion.Conforms.{HasKeys}

pub check_required-HasKeys :
    {F : Type 0} (keys : List String) (fs : Fields F)
    → check_required keys fs ≡ ok tt
    → HasKeys keys fs
unfolding check_required
check_required-HasKeys [] fs e = tt
check_required-HasKeys (key ∷ keys) fs e = elim (Bool-cases (contains_key key fs)) [
  | inl t ↦ (t, check_required-HasKeys keys fs (rw t at e))
  | inr t ↦ absurd (err-ne-ok _ _ (rw t at e))
]

pub HasKeys-same :
    {F : Type 0} (keys : List String) (fs gs : Fields F)
    → ((key : String) → contains_key key gs ≡ contains_key key fs)
    → HasKeys keys fs
    → HasKeys keys gs
HasKeys-same [] fs gs h k = tt
HasKeys-same (key ∷ keys) fs gs h k = (h key ∙ k.0, HasKeys-same keys fs gs h k.1)

pub contains_key-field :
    {F : Type 0} (key k : String) (v w : Value F) (fs gs : Fields F)
    → contains_key key fs ≡ contains_key key gs
    → contains_key key (field k v fs) ≡ contains_key key (field k w gs)
contains_key-field key k v w fs gs h = elim (Bool-cases (str_eq k key)) [
  | inl e ↦ rw e refl
  | inr e ↦ rw e h
]

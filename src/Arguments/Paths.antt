-- ===== src/Arguments/Paths.antt =====
-- Looking a path up in the arguments, and paths that are apart.
use uxc.Base.{
  ℕ, zero, suc, String, ◌≡◌, ◌≢◌, refl, sym, ap, Option, none, some, List, [], ◌∷◌, str_eq, eq_iff,
  Bool-cases, inl, inr, none-ne-some,
}
use uxc.Json.{Value, array, object, Items, nil, cons, Fields, end, field}
use uxc.Coercion.Values.{find_field}
use uxc.Coercion.Prepare.{insert_field}
use uxc.Arguments.{PathSegment, key, index, item_at, set_item}

-- Two paths that part: neither is a beginning of the other.
pub data Apart : List PathSegment → List PathSegment → Type 0 where
  by_key : {k j : String} {ps qs : List PathSegment} → j ≢ k → Apart (key k ∷ ps) (key j ∷ qs)
  by_index : {i j : ℕ} {ps qs : List PathSegment} → j ≢ i → Apart (index i ∷ ps) (index j ∷ qs)
  behind : {s : PathSegment} {ps qs : List PathSegment} → Apart ps qs → Apart (s ∷ ps) (s ∷ qs)

module _ {F : Type 0} where
  abbrev pub fields_of : Value F → Fields F
  fields_of (object fs) = fs
  fields_of _ = end

  abbrev pub items_of : Value F → Items F
  items_of (array xs) = xs
  items_of _ = nil

  -- The value at a path.
  abbrev pub value_at : List PathSegment → Value F → Option (Value F)
  value_at [] v = some v
  value_at (key k ∷ segments) v = elim (find_field k (fields_of v)) [
    | none ↦ none
    | some w ↦ value_at segments w
  ]
  value_at (index i ∷ segments) v = elim (item_at i (items_of v)) [
    | none ↦ none
    | some w ↦ value_at segments w
  ]

  pub find_field-insert_field :
      (k : String) (v : Value F) (fs : Fields F) → find_field k (insert_field k v fs) ≡ some v
  unfolding insert_field
  find_field-insert_field k v end = rw ((eq_iff k k).1 refl) refl
  find_field-insert_field k v (field j w fs) = elim (Bool-cases (str_eq j k)) [
    | inl e ↦ rw (e, (eq_iff k k).1 refl) refl
    | inr e ↦ rw (e, e) (find_field-insert_field k v fs)
  ]

  pub find_field-other :
      (k j : String) (v : Value F) (fs : Fields F)
      → j ≢ k
      → find_field j (insert_field k v fs) ≡ find_field j fs
  unfolding insert_field
  find_field-other k j v end n = elim (Bool-cases (str_eq k j)) [
    | inl e ↦ absurd (n (sym ((eq_iff k j).0 e)))
    | inr e ↦ rw e refl
  ]
  find_field-other k j v (field i w fs) n = elim (Bool-cases (str_eq i k)) [
    | inl e ↦ elim (Bool-cases (str_eq k j)) [
      | inl q ↦ absurd (n (sym ((eq_iff k j).0 q)))
      | inr q ↦ rw (e, q, (eq_iff i k).0 e, q) refl
    ]
    | inr e ↦ elim (Bool-cases (str_eq i j)) [
      | inl q ↦ rw (e, q) refl
      | inr q ↦ rw (e, q) (find_field-other k j v fs n)
    ]
  ]

  pub item_at-set_item : (i : ℕ) (v : Value F) (xs : Items F) → item_at i (set_item i v xs) ≡ some v
  item_at-set_item zero v nil = refl
  item_at-set_item zero v (cons x xs) = refl
  item_at-set_item (suc i) v nil = item_at-set_item i v nil
  item_at-set_item (suc i) v (cons x xs) = item_at-set_item i v xs

  pub item_at-other :
      (i j : ℕ) (v w : Value F) (xs : Items F)
      → j ≢ i
      → item_at j xs ≡ some w
      → item_at j (set_item i v xs) ≡ some w
  item_at-other i j v w nil n e = absurd (none-ne-some e)
  item_at-other zero zero v w (cons x xs) n e = absurd (n refl)
  item_at-other zero (suc j) v w (cons x xs) n e = e
  item_at-other (suc i) zero v w (cons x xs) n e = e
  item_at-other (suc i) (suc j) v w (cons x xs) n e = item_at-other i j v w xs (λ q. n (ap suc q)) e

-- ===== src/Coercion/Fuel.antt =====
-- The walk goes down the schema: fuel above its depth is enough.
use uxc.Base.{some-injective}
use uxc.Base.{
  ℕ, zero, suc, ◌<◌, ◌≤◌, max, String, ◌≡◌, refl, Bool, Option, none, some, List, [], ◌∷◌, arith,
  or_else, All, Option-cases, inl, inr, subst, ◌⊎◌,
}
use uxc.Base.Result.{Result-cases}
use uxc.Json.{
  Value, null, bool, number, string, array, object, Items, nil, cons, Fields, end, field, to_list,
}
use uxc.Coercion.Values.{
  Kind, object_kind, array_kind, integer_kind, number_kind, boolean_kind, null_kind, string_kind,
  any_kind, Parsers, find_field, get, as_fields, as_items, R, object_of, array_of,
}
use uxc.Coercion.Walk.{
  union_of, property, coerce_union, coerce_entry, coerce_entries, coerce_object, coerce_item,
  coerce_items, coerce_array, coerce_kind, coerce_typed, coerce_step, walk, kind_of,
}

unfoldable mutual
  pub depth : {F : Type 0} → Value F → ℕ
  depth null = 0
  depth (bool b) = 0
  depth (number n) = 0
  depth (string s) = 0
  depth (array xs) = suc (depth_items xs)
  depth (object fs) = suc (depth_fields fs)

  pub depth_items : {F : Type 0} → Items F → ℕ
  depth_items nil = 0
  depth_items (cons v xs) = max (depth v) (depth_items xs)

  pub depth_fields : {F : Type 0} → Fields F → ℕ
  depth_fields end = 0
  depth_fields (field k v fs) = max (depth v) (depth_fields fs)

or_else-some :
    {A : Type 0} (o p : Option A) (a : A) → or_else o p ≡ some a → (o ≡ some a) ⊎ (p ≡ some a)
or_else-some none p a e = inr e
or_else-some (some b) p a e = inl e

module _ {F : Type 0} where
  find_field-depth :
      (key : String) (fs : Fields F) (v : Value F)
      → find_field key fs ≡ some v
      → depth v ≤ depth_fields fs
  unfolding depth
  find_field-depth key end v e = cc
  find_field-depth key (field k w fs) v e = ground (arith, find_field-depth key fs v)

  get-depth : (key : String) (s v : Value F) → get key s ≡ some v → depth v < depth s
  unfolding depth
  get-depth key (object fs) v e = omega (arith, find_field-depth key fs v e)
  get-depth key null v e = cc
  get-depth key (bool b) v e = cc
  get-depth key (number n) v e = cc
  get-depth key (string s) v e = cc
  get-depth key (array xs) v e = cc

  All-depth : (n : ℕ) (xs : Items F) → depth_items xs < n → All (λ v. depth v < n) (to_list xs)
  unfolding depth
  All-depth n nil h = tt
  All-depth n (cons v xs) h = (omega arith, All-depth n xs (omega arith))

  as_items-depth :
      (n : ℕ) (o : Option (Value F)) (vs : List (Value F))
      → ((v : Value F) → o ≡ some v → depth v < n)
      → as_items o ≡ some vs
      → All (λ v. depth v < n) vs
  unfolding depth
  as_items-depth n (some (array xs)) vs h e =
      subst (All (λ v. depth v < n)) (some-injective e)
        (All-depth n xs (let l = h (array xs) refl in omega arith))
  as_items-depth n none vs h e = cc
  as_items-depth n (some null) vs h e = cc
  as_items-depth n (some (bool b)) vs h e = cc
  as_items-depth n (some (number k)) vs h e = cc
  as_items-depth n (some (string s)) vs h e = cc
  as_items-depth n (some (object fs)) vs h e = cc

  union_of-depth :
      (s : Value F) (bs : List (Value F)) → union_of s ≡ some bs → All (λ b. depth b < depth s) bs
  unfolding union_of
  union_of-depth s bs e = elim (or_else-some _ _ bs e) [
    | inl q ↦ as_items-depth (depth s) _ bs (get-depth "oneOf" s) q
    | inr q ↦ as_items-depth (depth s) _ bs (get-depth "anyOf" s) q
  ]

  as_fields-depth :
      (n : ℕ) (key : String) (o : Option (Value F)) (p : Value F)
      → ((v : Value F) → o ≡ some v → depth v < n)
      → find_field key (as_fields o) ≡ some p
      → depth p < n
  unfolding depth
  as_fields-depth n key (some (object fs)) p h e =
      let l = h (object fs) refl in omega (arith, find_field-depth key fs p e)
  as_fields-depth n key none p h e = cc
  as_fields-depth n key (some null) p h e = cc
  as_fields-depth n key (some (bool b)) p h e = cc
  as_fields-depth n key (some (number k)) p h e = cc
  as_fields-depth n key (some (string s)) p h e = cc
  as_fields-depth n key (some (array xs)) p h e = cc

  property-depth : (key : String) (s p : Value F) → property key s ≡ some p → depth p < depth s
  unfolding property
  property-depth key s p e = as_fields-depth (depth s) key _ p (get-depth "properties" s) e

  All-map :
      {P Q : Value F → Type 0} (vs : List (Value F))
      → ((v : Value F) → P v → Q v)
      → All P vs
      → All Q vs
  All-map [] f h = tt
  All-map (v ∷ vs) f h = (f v h.0, All-map vs f h.1)

module _ {F : Type 0} (parsers : Parsers F) (strict enforce : Bool)
    (rec rec' : Value F → Value F → R parsers (Value F)) where
  union-cong :
      (v : Value F) (bs : List (Value F))
      → All (λ b. rec v b ≡ rec' v b) bs
      → coerce_union parsers strict enforce rec v bs ≡ coerce_union parsers strict enforce rec' v bs
  unfolding coerce_union
  union-cong v [] h = refl
  union-cong v (b ∷ bs) h = rw (h.0, union-cong v bs h.1) refl

  entry-cong :
      (key : String) (raw : Value F) (o : Option (Value F))
      → ((p : Value F) → o ≡ some p → rec raw p ≡ rec' raw p)
      → coerce_entry parsers strict enforce rec key raw o
        ≡ coerce_entry parsers strict enforce rec' key raw o
  unfolding coerce_entry
  entry-cong key raw none h = refl
  entry-cong key raw (some p) h = h p refl

  entries-cong :
      (s : Value F) (fs : Fields F)
      → ((key : String) (v p : Value F) → property key s ≡ some p → rec v p ≡ rec' v p)
      → coerce_entries parsers strict enforce rec s fs
        ≡ coerce_entries parsers strict enforce rec' s fs
  unfolding coerce_entries
  entries-cong s end h = refl
  entries-cong s (field key raw fs) h =
      rw (entry-cong key raw (property key s) (h key raw), entries-cong s fs h) refl

  items-cong :
      (o : Option (Value F)) (xs : Items F)
      → ((v p : Value F) → o ≡ some p → rec v p ≡ rec' v p)
      → coerce_items parsers strict enforce rec o xs ≡ coerce_items parsers strict enforce rec' o xs
  unfolding coerce_items coerce_item
  items-cong o nil h = refl
  items-cong none (cons v xs) h = rw (items-cong none xs h) refl
  items-cong (some p) (cons v xs) h = rw (h v p refl, items-cong (some p) xs h) refl

  kind-cong :
      (k : Kind) (v s : Value F)
      → ((w p : Value F) → depth p < depth s → rec w p ≡ rec' w p)
      → coerce_kind parsers strict enforce rec k v s ≡ coerce_kind parsers strict enforce rec' k v s
  unfolding coerce_kind coerce_object coerce_array
  kind-cong object_kind v s h = elim (Result-cases (object_of parsers v)) [
    | inl (fs, e) ↦
        rw (coerce_object, e, entries-cong s fs (λ key w p q. h w p (property-depth key s p q)))
          refl
    | inr (x, e) ↦ rw (coerce_object, e) refl
  ]
  kind-cong array_kind v s h = elim (Result-cases (array_of parsers v)) [
    | inl (xs, e) ↦
        rw
          (
            coerce_array,
            e,
            items-cong (get "items" s) xs (λ w p q. h w p (get-depth "items" s p q)),
          )
          refl
    | inr (x, e) ↦ rw (coerce_array, e) refl
  ]
  kind-cong integer_kind v s h = refl
  kind-cong number_kind v s h = refl
  kind-cong boolean_kind v s h = refl
  kind-cong null_kind v s h = refl
  kind-cong string_kind v s h = refl
  kind-cong any_kind v s h = refl

  step-cong :
      (v s : Value F)
      → ((w p : Value F) → depth p < depth s → rec w p ≡ rec' w p)
      → coerce_step parsers strict enforce rec v s ≡ coerce_step parsers strict enforce rec' v s
  unfolding coerce_step coerce_typed
  step-cong v s h = elim (Option-cases (union_of s)) [
    | inl e ↦ rw (e, coerce_step, coerce_typed, kind-cong (kind_of s) v s h) refl
    | inr (bs, e) ↦
        rw (e, coerce_step) (union-cong v bs (All-map bs (λ b l. h v b l) (union_of-depth s bs e)))
  ]

module _ {F : Type 0} (parsers : Parsers F) (strict enforce : Bool) where
  walk-fuel :
      (n m : ℕ) (v s : Value F)
      → depth s < n
      → depth s < m
      → walk parsers strict enforce n v s ≡ walk parsers strict enforce m v s
  unfolding walk
  walk-fuel zero m v s l k = absurd (omega arith)
  walk-fuel (suc n) zero v s l k = absurd (omega arith)
  walk-fuel (suc n) (suc m) v s l k =
      step-cong parsers strict enforce (walk parsers strict enforce n)
        (walk parsers strict enforce m) v s (λ w p d. walk-fuel n m w p (omega arith) (omega arith))

  -- `coerce_value`, on the depth of the schema.
  unfoldable pub coerce_value : Value F → Value F → R parsers (Value F)
  coerce_value value schema = walk parsers strict enforce (suc (depth schema)) value schema

  -- For every value and every schema, the walk on the depth of the schema as fuel is one step of the
  -- walk, with the walk itself for the parts of the schema: the fuel never runs out.
  pub coerce_value-step :
      (value schema : Value F)
      → coerce_value value schema ≡ coerce_step parsers strict enforce coerce_value value schema
  unfolding coerce_value walk
  coerce_value-step v s =
      step-cong parsers strict enforce (walk parsers strict enforce (depth s)) coerce_value v s
        (λ w p d. walk-fuel (depth s) (suc (depth p)) w p (omega arith) (omega arith))

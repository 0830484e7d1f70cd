-- ===== src/Coercion/Sound.antt =====
-- Coercion that succeeds gives a value that conforms to the schema.
use uxc.Base.{
  ℕ, zero, suc, String, ◌≡◌, refl, sym, ap, ◌∙◌, Bool, true, Option, none, some, List, [], ◌∷◌,
  Option-cases, inl, inr, subst, if◌then◌else◌,
}
use uxc.Base.Result.{ok, Result-cases, ok-injective, err-ne-ok, >>=-eq-ok}
use uxc.Json.{Value, Items, nil, cons, Fields, end, field}
use uxc.Coercion.Values.{
  unknown_field, Parsers, R, get, Kind, object_kind, array_kind, integer_kind, number_kind,
  boolean_kind, null_kind, string_kind, any_kind, object_of, array_of,
}
use uxc.Coercion.Walk.{
  union_of, kind_of, property, required_of, contains_key, check_required, validate_const_and_enum,
  coerce_union, coerce_entry, coerce_entries, coerce_object, coerce_item, coerce_items,
  coerce_array, coerce_kind, coerce_typed, coerce_step, walk,
}
use uxc.Coercion.Fuel.{coerce_value}
use uxc.Coercion.Allowed.{validate_const_and_enum-IsAllowed}
use uxc.Coercion.Conforms.{
  IsBranch, HasEntry, HasItem, IsAllowed, Conforms, by_branch, by_entries, by_items, by_kind,
}
use uxc.Coercion.Scalars.{
  coerce_integer-IsOf, coerce_number-IsOf, coerce_boolean-IsOf, coerce_null-IsOf,
  coerce_string-IsOf,
}
use uxc.Coercion.Required.{check_required-HasKeys, HasKeys-same, contains_key-field}

module _ {F : Type 0} (parsers : Parsers F) (strict enforce : Bool)
    (rec : Value F → Value F → R parsers (Value F))
    (sound : (v s w : Value F) → rec v s ≡ ok w → Conforms parsers strict enforce true s w) where
  union-IsBranch :
      (v : Value F) (bs : List (Value F)) (w : Value F)
      → coerce_union parsers strict enforce rec v bs ≡ ok w
      → (b : Value F) × IsBranch b bs × (rec v b ≡ ok w)
  unfolding coerce_union
  union-IsBranch v [] w e = absurd (err-ne-ok _ w e)
  union-IsBranch v (b ∷ bs) w e = elim (Result-cases (rec v b)) [
    | inl (u, r) ↦ (b, inl refl, r ∙ (rw r at e))
    | inr (x, r) ↦ let q = union-IsBranch v bs w (rw r at e) in (q.0, inr q.1, q.2)
  ]

  entry-Conforms :
      (key : String) (raw : Value F) (o : Option (Value F)) (v : Value F)
      → coerce_entry parsers strict enforce rec key raw o ≡ ok v
      → ((p : Value F) → o ≡ some p → Conforms parsers strict enforce true p v)
        × (strict ≡ true → (p : Value F) × (o ≡ some p))
  unfolding coerce_entry
  entry-Conforms key raw none v e =
      (λ p q. cc, λ t. absurd (err-ne-ok (unknown_field key) v (rw t at e)))
  entry-Conforms key raw (some p) v e =
      (λ p' q. sound raw p' v (subst (λ (x : Value F). rec raw x ≡ ok v) (cc) e), λ t. (p, refl))

  Entries : Value F → Fields F → Fields F → Type 0
  Entries s fs out =
      ((key : String) (v p : Value F)
        → HasEntry key v out
        → property key s ≡ some p
        → Conforms parsers strict enforce true p v)
      × (strict ≡ true
          → (key : String) (v : Value F) → HasEntry key v out
          → (p : Value F) × (property key s ≡ some p))
      × ((key : String) → contains_key key out ≡ contains_key key fs)

  Entries-field :
      (s : Value F) (key : String) (raw v : Value F) (fs vs : Fields F)
      → ((p : Value F) → property key s ≡ some p → Conforms parsers strict enforce true p v)
        × (strict ≡ true → (p : Value F) × (property key s ≡ some p))
      → Entries s fs vs
      → Entries s (field key raw fs) (field key v vs)
  unfolding Entries
  Entries-field s key raw v fs vs h ih = (
    λ key' v' p i q. elim i [
      | inl (k, w) ↦
          subst (Conforms parsers strict enforce true p) (sym w)
            (h.0 p (ap (λ (x : String). property x s) (sym k) ∙ q))
      | inr later ↦ ih.0 key' v' p later q
    ],
    λ t key' v' i. elim i [
      | inl (k, w) ↦ let r = h.1 t in (r.0, ap (λ (x : String). property x s) k ∙ r.1)
      | inr later ↦ ih.1 t key' v' later
    ],
    λ key'. contains_key-field key' key v raw vs fs (ih.2 key'),
  )

  coerce_entries-Conforms :
      (s : Value F) (fs out : Fields F)
      → coerce_entries parsers strict enforce rec s fs ≡ ok out
      → Entries s fs out
  unfolding coerce_entries Entries
  coerce_entries-Conforms s end out e =
      subst (Entries s end) (ok-injective e)
        (λ key v p i q. absurd i, λ t key v i. absurd i, λ key. refl)
  coerce_entries-Conforms s (field key raw fs) out e =
      let a = >>=-eq-ok (coerce_entry parsers strict enforce rec key raw (property key s)) _ e in
      let b = >>=-eq-ok (coerce_entries parsers strict enforce rec s fs) _ a.2 in
      subst (Entries s (field key raw fs)) (ok-injective b.2) (
        Entries-field s key raw a.0 fs b.0 (entry-Conforms key raw (property key s) a.0 a.1)
          (coerce_entries-Conforms s fs b.0 b.1))

  ItemsConform : Option (Value F) → Items F → Type 0
  ItemsConform o out =
      (v p : Value F) → HasItem v out → o ≡ some p → Conforms parsers strict enforce true p v

  item-Conforms :
      (raw : Value F) (o : Option (Value F)) (v p : Value F)
      → coerce_item parsers strict enforce rec raw o ≡ ok v
      → o ≡ some p
      → Conforms parsers strict enforce true p v
  unfolding coerce_item
  item-Conforms raw none v p e q = cc
  item-Conforms raw (some p') v p e q =
      sound raw p v (subst (λ (x : Value F). rec raw x ≡ ok v) (cc) e)

  items-Conforms :
      (o : Option (Value F)) (xs out : Items F)
      → coerce_items parsers strict enforce rec o xs ≡ ok out
      → ItemsConform o out
  unfolding coerce_items ItemsConform
  items-Conforms o nil out e = subst (ItemsConform o) (ok-injective e) (λ v p i q. absurd i)
  items-Conforms o (cons raw xs) out e =
      let a = >>=-eq-ok (coerce_item parsers strict enforce rec raw o) _ e in
      let b = >>=-eq-ok (coerce_items parsers strict enforce rec o xs) _ a.2 in
      subst (ItemsConform o) (ok-injective b.2) (λ v p i q. elim i [
        | inl w ↦
            subst (Conforms parsers strict enforce true p) (sym w) (item-Conforms raw o a.0 p a.1 q)
        | inr later ↦ items-Conforms o xs b.0 b.1 v p later q
      ])

  object-Conforms :
      (v s w : Value F)
      → union_of s ≡ none
      → kind_of s ≡ object_kind
      → coerce_object parsers strict enforce rec v s ≡ ok w
      → IsAllowed parsers strict enforce s w
      → Conforms parsers strict enforce true s w
  unfolding coerce_object Entries
  object-Conforms v s w u k e allowed =
      let a = >>=-eq-ok (object_of parsers v) _ e in
      let b = >>=-eq-ok (if enforce then check_required (required_of s) a.0 else ok tt) _ a.2 in
      let c = >>=-eq-ok (coerce_entries parsers strict enforce rec s a.0) _ b.2 in
      let h = coerce_entries-Conforms s a.0 c.0 c.1 in
      by_entries c.0 (sym (ok-injective c.2)) u k
        (λ t.
          HasKeys-same (required_of s) a.0 c.0 h.2
            (check_required-HasKeys (required_of s) a.0 (rw t at b.1)))
        h.0 h.1 allowed

  array-Conforms :
      (v s w : Value F)
      → union_of s ≡ none
      → kind_of s ≡ array_kind
      → coerce_array parsers strict enforce rec v s ≡ ok w
      → IsAllowed parsers strict enforce s w
      → Conforms parsers strict enforce true s w
  unfolding coerce_array ItemsConform
  array-Conforms v s w u k e allowed =
      let a = >>=-eq-ok (array_of parsers v) _ e in
      let c = >>=-eq-ok (coerce_items parsers strict enforce rec (get "items" s) a.0) _ a.2 in
      by_items c.0 (sym (ok-injective c.2)) u k (items-Conforms (get "items" s) a.0 c.0 c.1) allowed

  kind-Conforms :
      (k : Kind) (v s w : Value F)
      → union_of s ≡ none
      → kind_of s ≡ k
      → coerce_kind parsers strict enforce rec k v s ≡ ok w
      → IsAllowed parsers strict enforce s w
      → Conforms parsers strict enforce true s w
  unfolding coerce_kind
  kind-Conforms object_kind v s w u k e a = object-Conforms v s w u k e a
  kind-Conforms array_kind v s w u k e a = array-Conforms v s w u k e a
  kind-Conforms integer_kind v s w u k e a = by_kind u (rw k (coerce_integer-IsOf parsers v w e)) a
  kind-Conforms number_kind v s w u k e a = by_kind u (rw k (coerce_number-IsOf parsers v w e)) a
  kind-Conforms boolean_kind v s w u k e a = by_kind u (rw k (coerce_boolean-IsOf parsers v w e)) a
  kind-Conforms null_kind v s w u k e a = by_kind u (rw k (coerce_null-IsOf parsers v w e)) a
  kind-Conforms string_kind v s w u k e a = by_kind u (rw k (coerce_string-IsOf parsers v w e)) a
  kind-Conforms any_kind v s w u k e a = by_kind u (rw k tt) a

  step-Conforms :
      (v s w : Value F)
      → coerce_step parsers strict enforce rec v s ≡ ok w
      → Conforms parsers strict enforce true s w
  unfolding coerce_step coerce_typed
  step-Conforms v s w e = elim (Option-cases (union_of s)) [
    | inl u ↦
        let a =
          >>=-eq-ok (coerce_kind parsers strict enforce rec (kind_of s) v s) _
            (rw (u, coerce_step, coerce_typed) at e) in
        let b = >>=-eq-ok (validate_const_and_enum parsers a.0 s) _ a.2 in
        kind-Conforms (kind_of s) v s w u refl (a.1 ∙ b.2) (
          subst (λ (x : Value F). IsAllowed parsers strict enforce s x) (ok-injective b.2)
            ((validate_const_and_enum-IsAllowed parsers strict enforce a.0 s).0 b.1))
    | inr (bs, u) ↦
        let q = union-IsBranch v bs w (rw (u, coerce_step) at e) in
        by_branch bs q.0 refl u q.1 (sound v q.0 w q.2)
  ]

module _ {F : Type 0} (parsers : Parsers F) (strict enforce : Bool) where
  walk-Conforms :
      (n : ℕ) (v s w : Value F)
      → walk parsers strict enforce n v s ≡ ok w
      → Conforms parsers strict enforce true s w
  unfolding walk
  walk-Conforms zero v s w e = absurd (err-ne-ok _ w e)
  walk-Conforms (suc n) v s w e =
      step-Conforms parsers strict enforce (walk parsers strict enforce n) (walk-Conforms n) v s w e

  -- When coercion succeeds, the value that it gives conforms to the schema: for a schema by cases to one
  -- of its branches; otherwise it has the type of the schema, is allowed by its constant and its
  -- enumeration, has the required fields where they are enforced, and its entries and items conform to
  -- the schemas of their properties and items.
  pub coerce_value-Conforms :
      (value schema coerced : Value F)
      → coerce_value parsers strict enforce value schema ≡ ok coerced
      → Conforms parsers strict enforce true schema coerced
  unfolding coerce_value
  coerce_value-Conforms value schema coerced e = walk-Conforms _ value schema coerced e

-- ===== src/Arguments/Inserted.antt =====
-- Inserting a value at a path.
use uxc.Base.{
  ℕ, String, ◌≡◌, refl, sym, ap, ◌∙◌, some, List, [], ◌∷◌, inl, inr, unwrap_or, subst, Option-cases,
  none-ne-some,
}
use uxc.Base.Result.{ok, >>=-eq-ok, ok-injective, err-ne-ok}
use uxc.Json.{Value, null, bool, number, string, array, object, Items, Fields}
use uxc.Coercion.Values.{find_field}
use uxc.Coercion.Prepare.{insert_field}
use uxc.Arguments.{
  PathSegment, key, index, conflict, object_at, array_at, item_at, set_item, insert_segments,
}
use uxc.Arguments.Paths.{
  Apart, by_key, by_index, behind, fields_of, items_of, value_at, find_field-insert_field,
  find_field-other, item_at-set_item, item_at-other,
}

module _ {F : Type 0} where
  object_at-fields :
      (s : PathSegment) (t : Value F) (fs : Fields F) → object_at s t ≡ ok fs → fields_of t ≡ fs
  object_at-fields s (object fs) gs e = ok-injective e
  object_at-fields s null gs e = ok-injective e
  object_at-fields s (bool b) gs e = absurd (err-ne-ok (conflict s) gs e)
  object_at-fields s (number n) gs e = absurd (err-ne-ok (conflict s) gs e)
  object_at-fields s (string x) gs e = absurd (err-ne-ok (conflict s) gs e)
  object_at-fields s (array xs) gs e = absurd (err-ne-ok (conflict s) gs e)

  array_at-items :
      (s : PathSegment) (t : Value F) (xs : Items F) → array_at s t ≡ ok xs → items_of t ≡ xs
  array_at-items s (array xs) ys e = ok-injective e
  array_at-items s null ys e = ok-injective e
  array_at-items s (bool b) ys e = absurd (err-ne-ok (conflict s) ys e)
  array_at-items s (number n) ys e = absurd (err-ne-ok (conflict s) ys e)
  array_at-items s (string x) ys e = absurd (err-ne-ok (conflict s) ys e)
  array_at-items s (object fs) ys e = absurd (err-ne-ok (conflict s) ys e)

  -- What an insertion below a key, or below an index, is made of.
  under_key :
      (k : String) (ps : List PathSegment) (v t t' : Value F)
      → insert_segments (key k ∷ ps) v t ≡ ok t'
      → (entry : Value F) × (insert_segments ps v (unwrap_or (find_field k (fields_of t)) null)
          ≡ ok entry)
        × (object (insert_field k entry (fields_of t)) ≡ t')
  unfolding insert_segments
  under_key k ps v t t' e =
      let a = >>=-eq-ok (object_at (key k) t) _ e in
      let b = >>=-eq-ok (insert_segments ps v (unwrap_or (find_field k a.0) null)) _ a.2 in
      let q = object_at-fields (key k) t a.0 a.1 in (b.0, rw q b.1, rw q (ok-injective b.2))

  under_index :
      (i : ℕ) (ps : List PathSegment) (v t t' : Value F)
      → insert_segments (index i ∷ ps) v t ≡ ok t'
      → (item : Value F) × (insert_segments ps v (unwrap_or (item_at i (items_of t)) null)
          ≡ ok item)
        × (array (set_item i item (items_of t)) ≡ t')
  unfolding insert_segments
  under_index i ps v t t' e =
      let a = >>=-eq-ok (array_at (index i) t) _ e in
      let b = >>=-eq-ok (insert_segments ps v (unwrap_or (item_at i a.0) null)) _ a.2 in
      let q = array_at-items (index i) t a.0 a.1 in (b.0, rw q b.1, rw q (ok-injective b.2))

  at_key :
      (k : String) (ps : List PathSegment) (t w : Value F)
      → find_field k (fields_of t) ≡ some w
      → value_at (key k ∷ ps) t ≡ value_at ps w
  at_key k ps t w e = rw (e, value_at) refl

  at_index :
      (i : ℕ) (ps : List PathSegment) (t w : Value F)
      → item_at i (items_of t) ≡ some w
      → value_at (index i ∷ ps) t ≡ value_at ps w
  at_index i ps t w e = rw (e, value_at) refl

  -- The first step of a path that leads to a value.
  key_step :
      (k : String) (ps : List PathSegment) (t w : Value F)
      → value_at (key k ∷ ps) t ≡ some w
      → (x : Value F) × (find_field k (fields_of t) ≡ some x) × (value_at ps x ≡ some w)
  key_step k ps t w e = elim (Option-cases (find_field k (fields_of t))) [
    | inl q ↦ absurd (none-ne-some (rw (q, value_at) at e))
    | inr (x, q) ↦ (x, q, rw (q, value_at) at e)
  ]

  index_step :
      (i : ℕ) (ps : List PathSegment) (t w : Value F)
      → value_at (index i ∷ ps) t ≡ some w
      → (x : Value F) × (item_at i (items_of t) ≡ some x) × (value_at ps x ≡ some w)
  index_step i ps t w e = elim (Option-cases (item_at i (items_of t))) [
    | inl q ↦ absurd (none-ne-some (rw (q, value_at) at e))
    | inr (x, q) ↦ (x, q, rw (q, value_at) at e)
  ]

  -- The value that is inserted is found at its path.
  pub value_at-insert_segments :
      (ps : List PathSegment) (v t t' : Value F)
      → insert_segments ps v t ≡ ok t'
      → value_at ps t' ≡ some v
  unfolding insert_segments
  value_at-insert_segments [] v t t' e = ap some (sym (ok-injective e))
  value_at-insert_segments (key k ∷ ps) v t t' e =
      let u = under_key k ps v t t' e in
      subst (λ x. value_at (key k ∷ ps) x ≡ some v) u.2
        (at_key k ps (object (insert_field k u.0 (fields_of t))) u.0
            (find_field-insert_field k u.0 (fields_of t))
          ∙ value_at-insert_segments ps v _ u.0 u.1)
  value_at-insert_segments (index i ∷ ps) v t t' e =
      let u = under_index i ps v t t' e in
      subst (λ x. value_at (index i ∷ ps) x ≡ some v) u.2
        (at_index i ps (array (set_item i u.0 (items_of t))) u.0
            (item_at-set_item i u.0 (items_of t))
          ∙ value_at-insert_segments ps v _ u.0 u.1)

  -- What is at a path that is apart from it stays.
  pub value_at-apart :
      {ps qs : List PathSegment} (v t t' w : Value F)
      → Apart ps qs
      → insert_segments ps v t ≡ ok t'
      → value_at qs t ≡ some w
      → value_at qs t' ≡ some w
  value_at-apart v t t' w (by_key {k} {j} {ps} {qs} n) e f =
      let u = under_key k ps v t t' e in
      let x = key_step j qs t w f in
      subst (λ y. value_at (key j ∷ qs) y ≡ some w) u.2
        (at_key j qs (object (insert_field k u.0 (fields_of t))) x.0
            (find_field-other k j u.0 (fields_of t) n ∙ x.1)
          ∙ x.2)
  value_at-apart v t t' w (by_index {i} {j} {ps} {qs} n) e f =
      let u = under_index i ps v t t' e in
      let x = index_step j qs t w f in
      subst (λ y. value_at (index j ∷ qs) y ≡ some w) u.2
        (at_index j qs (array (set_item i u.0 (items_of t))) x.0
            (item_at-other i j u.0 x.0 (items_of t) n x.1)
          ∙ x.2)
  value_at-apart v t t' w (behind {s = key k} {ps = ps} {qs = qs} a) e f =
      let u = under_key k ps v t t' e in
      let x = key_step k qs t w f in
      let inside : insert_segments ps v x.0 ≡ ok u.0 = rw x.1 at u.1 in
      subst (λ y. value_at (key k ∷ qs) y ≡ some w) u.2
        (at_key k qs (object (insert_field k u.0 (fields_of t))) u.0
            (find_field-insert_field k u.0 (fields_of t))
          ∙ value_at-apart v x.0 u.0 w a inside x.2)
  value_at-apart v t t' w (behind {s = index i} {ps = ps} {qs = qs} a) e f =
      let u = under_index i ps v t t' e in
      let x = index_step i qs t w f in
      let inside : insert_segments ps v x.0 ≡ ok u.0 = rw x.1 at u.1 in
      subst (λ y. value_at (index i ∷ qs) y ≡ some w) u.2
        (at_index i qs (array (set_item i u.0 (items_of t))) u.0
            (item_at-set_item i u.0 (items_of t))
          ∙ value_at-apart v x.0 u.0 w a inside x.2)

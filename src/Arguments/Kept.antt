-- ===== src/Arguments/Kept.antt =====
-- The arguments of a command line do not lose one another.
use uxc.Base.{
  String, ◌≡◌, sym, ap, ◌∙◌, Option, none, some, List, [], ◌∷◌, ◌++◌, All, subst, unwrap_or,
}
use uxc.Base.Result.{ok, >>=-eq-ok, ok-injective, err-ne-ok}
use uxc.Json.{Value, null, object, Fields, end}
use uxc.Coercion.Values.{find_field}
use uxc.Arguments.{
  PathSegment, key, index, empty_key, root_not_key, insert_at, insert_segments, parse_segments,
  insert_argument_path, parse_assignment, insert_assignment, insert_all, parse_arguments,
}
use uxc.Arguments.Paths.{Apart, value_at}
use uxc.Arguments.Inserted.{value_at-insert_segments, value_at-apart}

module _ {F : Type 0} where
  -- At the root, an insertion is one into the object of the arguments.
  insert_at-object :
      (root root' : Fields F) (v : Value F) (ps : List PathSegment)
      → insert_at root v ps ≡ ok root'
      → insert_segments ps v (object root) ≡ ok (object root')
  unfolding insert_segments
  insert_at-object root root' v [] e = absurd (err-ne-ok empty_key root' e)
  insert_at-object root root' v (index i ∷ ps) e = absurd (err-ne-ok root_not_key root' e)
  insert_at-object root root' v (key k ∷ ps) e =
      let a = >>=-eq-ok (insert_segments ps v (unwrap_or (find_field k root) null)) _ e in
      rw a.1 (ap (λ x. ok (object x)) (ok-injective a.2))

module _ {F : Type 0} (from_str : String → Option (Value F)) where
  -- An argument puts a value at a path.
  abbrev pub Assigns : String → List PathSegment → Value F → Type 0
  Assigns arg ps v =
      (k : String) × (parse_assignment from_str arg ≡ ok (some (k, v))) × (parse_segments k ≡ ok ps)

  -- What an argument puts is at a path that is apart from another's.
  abbrev pub ApartFrom : List PathSegment → String → Type 0
  ApartFrom qs arg = (ps : List PathSegment) (v : Value F) → Assigns arg ps v → Apart ps qs

  -- One argument, taken apart.
  one_argument :
      (root root' : Fields F) (k : String) (v : Value F)
      → insert_argument_path root k v ≡ ok root'
      → (ps : List PathSegment) × (parse_segments k ≡ ok ps)
        × (insert_segments ps v (object root) ≡ ok (object root'))
  unfolding insert_argument_path
  one_argument root root' k v e =
      let a = >>=-eq-ok (parse_segments k) _ e in (a.0, a.1, insert_at-object root root' v a.0 a.2)

  assignment-keeps :
      (arg : String) (o : Option (String × Value F)) (root root' : Fields F) (qs : List PathSegment)
      (w : Value F)
      → parse_assignment from_str arg ≡ ok o
      → insert_assignment from_str root o ≡ ok root'
      → ApartFrom qs arg
      → value_at qs (object root) ≡ some w
      → value_at qs (object root') ≡ some w
  assignment-keeps arg none root root' qs w p e apart f =
      subst (λ x. value_at qs (object x) ≡ some w) (ok-injective e) f
  assignment-keeps arg (some (k, v)) root root' qs w p e apart f =
      let a = one_argument root root' k v e in
      value_at-apart v (object root) (object root') w (apart a.0 v (k, p, a.1)) a.2 f

  insert_all-keeps :
      (args : List String) (root root' : Fields F) (qs : List PathSegment) (w : Value F)
      → insert_all from_str root args ≡ ok root'
      → All (ApartFrom qs) args
      → value_at qs (object root) ≡ some w
      → value_at qs (object root') ≡ some w
  unfolding insert_all
  insert_all-keeps [] root root' qs w e apart f =
      subst (λ x. value_at qs (object x) ≡ some w) (ok-injective e) f
  insert_all-keeps (arg ∷ args) root root' qs w e apart f =
      let a = >>=-eq-ok (parse_assignment from_str arg) _ e in
      let b = >>=-eq-ok (insert_assignment from_str root a.0) _ a.2 in
      insert_all-keeps args b.0 root' qs w b.2 apart.1
        (assignment-keeps arg a.0 root b.0 qs w a.1 b.1 apart.0 f)

  insert_all-append :
      (before args : List String) (root root' : Fields F)
      → insert_all from_str root (before ++ args) ≡ ok root'
      → (middle : Fields F) × (insert_all from_str middle args ≡ ok root')
  unfolding insert_all
  insert_all-append [] args root root' e = (root, e)
  insert_all-append (arg ∷ before) args root root' e =
      let a = >>=-eq-ok (parse_assignment from_str arg) _ e in
      let b = >>=-eq-ok (insert_assignment from_str root a.0) _ a.2 in
      insert_all-append before args b.0 root' b.2

  assigned :
      (arg : String) (root root' : Fields F) (args : List String) (ps : List PathSegment)
      (v : Value F)
      → insert_all from_str root (arg ∷ args) ≡ ok root'
      → Assigns arg ps v
      → All (ApartFrom ps) args
      → value_at ps (object root') ≡ some v
  unfolding insert_all
  assigned arg root root' args ps v e (k, p, q) apart =
      let b = >>=-eq-ok (insert_argument_path root k v) _ (rw p at e) in
      let a = one_argument root b.0 k v b.1 in
      let same : a.0 ≡ ps = ok-injective (sym a.1 ∙ q) in
      insert_all-keeps args b.0 root' ps v b.2 apart (
        subst (λ x. value_at x (object b.0) ≡ some v) same
          (value_at-insert_segments a.0 v (object root) (object b.0) a.2))

  -- When arguments that come without a JSON payload are accepted, the value of each is found at its
  -- path, if the arguments after it are for paths apart from its own, of which neither is the beginning
  -- of the other.
  pub value_at-parse_arguments :
      (before args : List String) (arg : String) (parsed : Fields F) (ps : List PathSegment)
      (v : Value F)
      → parse_arguments from_str (before ++ arg ∷ args) none ≡ ok parsed
      → Assigns arg ps v
      → All (ApartFrom ps) args
      → value_at ps (object parsed) ≡ some v
  unfolding parse_arguments
  value_at-parse_arguments before args arg parsed ps v e assigns apart =
      let m = insert_all-append before (arg ∷ args) end parsed e in
      assigned arg m.0 parsed args ps v m.1 assigns apart

-- ===== src/Arguments/Tests.antt =====
-- The theorem on arguments at a command line.
use uxc.Base.{
  ℕ, String, ◌≡◌, ◌≢◌, refl, sym, ap, ◌∙◌, Option, none, some, List, [], ◌∷◌, subst, some-injective,
  eq_iff, true-ne-false,
}
use uxc.Base.Result.{ok, err, ok-injective}
use uxc.Json.{Value, null, string, array, object, Fields, end, field, from_list}
use uxc.Coercion.Prepare.{insert_field}
use uxc.Daemon.PollLoop.HeaderMap.{parse_u64, parse_digits}
use uxc.Arguments.{
  PathSegment, key, index, invalid_json, empty_segment, parse_index, scan, parse_segments,
  insert_segments, insert_argument_path, split_json, split_text, parse_assignment, insert_all,
  parse_arguments,
}
use uxc.Arguments.Paths.{Apart, by_key, behind, value_at}
use uxc.Arguments.Kept.{Assigns, ApartFrom, value_at-parse_arguments}

abbrev no_json : String → Option (Value ℕ)
no_json s = none

abbrev by_index : List PathSegment
by_index = key "f" ∷ key "a" ∷ index 1 ∷ []

abbrev parsed : Fields ℕ
parsed = field "q" (string "z") (
    field "f"
      (object (field "a" (array (from_list (null ∷ string "x" ∷ []))) (field "b" (string "2") end)))
      end)

accepted : parse_arguments no_json ("q=z" ∷ "f.a[1]=x" ∷ "f.b=2" ∷ []) none ≡ ok parsed
unfolding parse_arguments insert_all parse_assignment split_json split_text insert_argument_path
    parse_segments scan parse_index parse_u64 parse_digits insert_segments insert_field
accepted = refl

-- A value that holds `:=` is taken for JSON, under a key that holds `=`.
misread : parse_assignment no_json "q=a:=b" ≡ err invalid_json
unfolding parse_assignment split_json
misread = refl

dot_at_end : parse_segments "a." ≡ err empty_segment
unfolding parse_segments scan
dot_at_end = refl

assigns : Assigns no_json "f.a[1]=x" by_index (string "x")
unfolding parse_assignment split_json split_text parse_segments scan parse_index parse_u64
    parse_digits
assigns = ("f.a[1]", refl, refl)

read : parse_assignment no_json "f.b=2" ≡ ok (some ("f.b", string "2"))
unfolding parse_assignment split_json split_text
read = refl

split : parse_segments "f.b" ≡ ok (key "f" ∷ key "b" ∷ [])
unfolding parse_segments scan
split = refl

a-ne-b : ◌≢◌ {A = String} "a" "b"
a-ne-b q = true-ne-false (sym ((eq_iff "a" "b").1 q))

apart : ApartFrom no_json by_index "f.b=2"
apart ps v (k, p, q) =
    let same_key : ◌≡◌ {A = String} "f.b" k =
      ap (λ x. x.0) (some-injective (ok-injective (sym read ∙ p))) in
    let same : (key "f" ∷ key "b" ∷ []) ≡ ps =
      ok-injective (sym split ∙ subst (λ x. parse_segments x ≡ ok ps) (sym same_key) q) in
    subst (λ x. Apart x by_index) same (behind (by_key a-ne-b))

value_at-parse_arguments_example : value_at by_index (object parsed) ≡ some (string "x")
value_at-parse_arguments_example =
    value_at-parse_arguments no_json ("q=z" ∷ []) ("f.b=2" ∷ []) "f.a[1]=x" parsed by_index
      (string "x") accepted assigns (apart, tt)

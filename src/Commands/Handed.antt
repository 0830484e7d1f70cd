-- ===== src/Commands/Handed.antt =====
-- What a command hands on to the argument parser of src/cli.rs.
use uxc.Base.{
  String, ◌≡◌, refl, true, false, Option, none, some, List, [], ◌∷◌, All, Bool-cases, Option-cases,
  inl, inr, some-ne-none, false-ne-true,
}
use uxc.Base.Result.{ok, err-ne-ok, ok-injective, >>=-eq-ok}
use uxc.Json.{Value, Fields, end}
use uxc.Commands.{assigns, execute, parse_external_command}
use uxc.Commands.External.{parse_external_command_iff}
use uxc.Arguments.{
  split_text, split_json, is_char, parse_assignment, invalid_json, insert_all, insert_assignment,
  parse_arguments,
}

split_text-assigns :
    (s : String) → assigns s ≡ true → (p : String × String) × (split_text s ≡ some p)
unfolding split_text
split_text-assigns String.[] e = absurd (false-ne-true e)
split_text-assigns (String.◌∷◌ c s) e = elim (Bool-cases (is_char 61 c)) [
  | inl q ↦ ((String.[], s), rw q refl)
  | inr q ↦
      let p = split_text-assigns s (rw q at e) in ((String.◌∷◌ c p.0.0, p.0.1), rw (q, p.1) refl)
]

module _ {F : Type 0} (from_str : String → Option (Value F)) where
  -- A key and a value are read of an argument.
  abbrev pub IsRead : String → Type 0
  IsRead a = (k : String) × (v : Value F) × (parse_assignment from_str a ≡ ok (some (k, v)))

  parse_assignment-assigns :
      (a : String) (o : Option (String × Value F))
      → assigns a ≡ true
      → parse_assignment from_str a ≡ ok o
      → IsRead a
  unfolding parse_assignment
  parse_assignment-assigns a none h e = absurd (elim (Option-cases (split_json a)) [
    | inl q ↦
        let t = split_text-assigns a h in
        some-ne-none (ok-injective (rw (parse_assignment, q, t.1) at e))
    | inr (p, q) ↦ elim (Option-cases (from_str p.1)) [
      | inl r ↦ err-ne-ok invalid_json none (rw (parse_assignment, q, r) at e)
      | inr (v, r) ↦ some-ne-none (ok-injective (rw (parse_assignment, q, r) at e))
    ]
  ])
  parse_assignment-assigns a (some (k, v)) h e = (k, v, e)

  insert_all-IsRead :
      (args : List String) (root out : Fields F)
      → All (λ a. assigns a ≡ true) args
      → insert_all from_str root args ≡ ok out
      → All IsRead args
  unfolding insert_all
  insert_all-IsRead [] root out h e = tt
  insert_all-IsRead (a ∷ args) root out h e =
      let p = >>=-eq-ok (parse_assignment from_str a) _ e in
      let q = >>=-eq-ok (insert_assignment from_str root p.0) _ p.2 in
      (parse_assignment-assigns a p.0 h.0 p.1, insert_all-IsRead args q.0 out h.1 q.2)

  -- When a command runs an operation without a JSON payload, and the argument parser accepts the
  -- arguments that the command hands on, the parser reads a key and a value of every one of them: none
  -- is passed over, as texts that are no assignments are.
  pub parse_arguments-parse_external_command :
      (op : String) (tokens args : List String) (parsed : Fields F)
      → parse_external_command from_str (op ∷ tokens) false ≡ ok (execute op args none)
      → parse_arguments from_str args none ≡ ok parsed
      → All IsRead args
  unfolding parse_arguments
  parse_arguments-parse_external_command op tokens args parsed e f =
      insert_all-IsRead args end parsed
        ((parse_external_command_iff from_str op tokens args none).0 e).3 f

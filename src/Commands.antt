-- ===== src/Commands.antt =====
-- src/main.rs: what is read of the command line around the package that parses it. The global options
-- are moved to its front, and the words behind an endpoint say which operation runs on which arguments.
-- The parser of JSON is an argument.
pub mod GlobalArgs
pub mod Globals
pub mod Words
pub mod Plain
pub mod Inputs
pub mod External
pub mod Handed
mod Tests
use uxc.Base.{
  ℕ, String, Bool, true, false, not, ◌&&◌, ◌||◌, Option, none, some, List, [], ◌∷◌, ◌++◌, ◌==◌,
  str_eq, if◌then◌else◌, is_some, or_else,
}
use uxc.Base.Result.{Result, ok, err, ◌>>=◌, ◌>>◌, bail_if}
use uxc.Base.Text.{codes, starts_with}
use uxc.Json.{Value, object}

abbrev pub begins : String → String → Bool
begins prefix s = starts_with (codes prefix) (codes s)

abbrev pub one_of : List String → String → Bool
one_of [] s = false
one_of (t ∷ ts) s = str_eq s t || one_of ts s

abbrev pub begins_one_of : List String → String → Bool
begins_one_of [] s = false
begins_one_of (t ∷ ts) s = begins t s || begins_one_of ts s

pub data EndpointCommand : Type 0 where
  host_help : EndpointCommand
  codegen_schema : EndpointCommand
  describe : String → EndpointCommand
  execute : String → List String → Option String → EndpointCommand

pub data CommandError : Type 0 where
  operation_required : CommandError
  missing_args_value : CommandError
  missing_input_json_value : CommandError
  unknown_argument : String → CommandError
  unexpected_argument : String → CommandError
  payload_not_object : CommandError
  two_payloads : CommandError
  json_as_args : String → CommandError
  invalid_args_value : String → CommandError

abbrev pub has_char : ℕ → List ℕ → Bool
has_char c [] = false
has_char c (d ∷ ds) = (d == c) || has_char c ds

-- `contains('=')` and `starts_with('-')`
abbrev pub assigns : String → Bool
assigns s = has_char 61 (codes s)

abbrev pub is_dash : String → Bool
is_dash s = begins "-" s

pub data WordKind : Type 0 where
  help_word : WordKind
  args_option : WordKind
  json_option : WordKind
  assignment : WordKind
  positional : WordKind
  unknown : WordKind

-- The arms of the match in `parse_external_command`, in their order.
unfoldable pub word_kind : String → WordKind
word_kind t =
    if one_of ("-h" ∷ "--help" ∷ []) t
    then help_word
    else if one_of ("-a" ∷ "--args" ∷ []) t
    then args_option
    else if str_eq t "--input-json"
    then json_option
    else if assigns t && not (is_dash t)
    then assignment
    else if not (is_dash t)
    then positional
    else unknown

-- What the loop has gathered.
pub record Gathered : Type 0 where
  pub args : List String
  pub input_json : Option String
  pub positionals : List String

abbrev pub nothing : Gathered
nothing = record { args = []; input_json = none; positionals = [] }

abbrev pub push_arg : String → Gathered → Gathered
push_arg t g = record g { args = g.args ++ t ∷ [] }

abbrev pub push_positional : String → Gathered → Gathered
push_positional t g = record g { positionals = g.positionals ++ t ∷ [] }

abbrev pub with_json : String → Gathered → Gathered
with_json t g = record g { input_json = some t }

-- `none` where help was asked for.
unfoldable pub gather : List String → Gathered → Result CommandError (Option Gathered)
gather [] g = ok (some g)
gather (t ∷ []) g = elim (word_kind t) [
  | help_word ↦ ok none
  | args_option ↦ err missing_args_value
  | json_option ↦ err missing_input_json_value
  | assignment ↦ ok (some (push_arg t g))
  | positional ↦ ok (some (push_positional t g))
  | unknown ↦ err (unknown_argument t)
]
gather (t ∷ v ∷ ts) g = elim (word_kind t) [
  | help_word ↦ ok none
  | args_option ↦ gather ts (push_arg v g)
  | json_option ↦ gather ts (with_json v g)
  | assignment ↦ gather (v ∷ ts) (push_arg t g)
  | positional ↦ gather (v ∷ ts) (push_positional t g)
  | unknown ↦ err (unknown_argument t)
]

module _ {F : Type 0} (from_str : String → Option (Value F)) where
  abbrev pub object_payload : Option (Value F) → String → Result CommandError String
  object_payload (some (object fs)) token = ok token
  object_payload (some _) token = err payload_not_object
  object_payload none token = err (unknown_argument token)

  -- A word that is no assignment: the one JSON payload.
  unfoldable pub take_payload : Option String → String → Result CommandError String
  take_payload payload token = do
    bail_if (is_dash token) (unknown_argument token)
    bail_if (is_some payload) (unexpected_argument token)
    object_payload (from_str token) token

  unfoldable pub take_positionals :
      List String → List String → Option String → Result CommandError (List String × Option String)
  take_positionals [] args payload = ok (args, payload)
  take_positionals (token ∷ tokens) args payload = elim (assigns token && not (is_dash token)) [
    | true ↦ take_positionals tokens (args ++ token ∷ []) payload
    | false ↦ (do p ← take_payload payload token; take_positionals tokens args (some p))
  ]

  unfoldable pub check_args : List String → Result CommandError (Unit {0})
  check_args [] = ok tt
  check_args (arg ∷ args) = do
    bail_if (not (assigns arg))
        (if is_some (from_str arg) then json_as_args arg else invalid_args_value arg)
    check_args args

  unfoldable pub normalize_operation_inputs :
      List String → Option String → List String → Result CommandError (List String × Option String)
  normalize_operation_inputs args explicit positionals = do
    taken ← take_positionals positionals args none
    bail_if (is_some explicit && is_some taken.1) two_payloads
    check_args taken.0
    ok (taken.0, or_else explicit taken.1)

  abbrev pub finish : String → Option Gathered → Result CommandError EndpointCommand
  finish operation_id none = ok (describe operation_id)
  finish operation_id (some g) = do
    inputs ← normalize_operation_inputs g.args g.input_json g.positionals
    ok (execute operation_id inputs.0 inputs.1)

  unfoldable pub parse_external_command : List String → Bool → Result CommandError EndpointCommand
  parse_external_command [] global_help = err operation_required
  parse_external_command (operation_id ∷ tokens) true = ok (describe operation_id)
  parse_external_command (operation_id ∷ tokens) false = do
    gathered ← gather tokens nothing
    finish operation_id gathered

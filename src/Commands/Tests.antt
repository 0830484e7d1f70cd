-- ===== src/Commands/Tests.antt =====
-- The theorems on the command line at inputs.
use uxc.Base.{
  String, ◌≡◌, refl, false, Option, none, some, List, [], ◌∷◌, All, ◌↔◌, str_eq, if◌then◌else◌,
}
use uxc.Base.Result.{ok, err}
use uxc.Json.{Value, string, object, field, end}
use uxc.Commands.GlobalArgs.{global_kind, split_globals, normalize_global_args}
use uxc.Commands.{
  execute, missing_args_value, word_kind, gather, take_payload, take_positionals, check_args,
  normalize_operation_inputs, parse_external_command,
}
use uxc.Commands.Globals.{Complete, no_more, a_flag, an_option, another}
use uxc.Arguments.{
  parse_arguments, parse_assignment, insert_all, insert_argument_path, parse_segments, scan,
  insert_segments, split_json, split_text,
}
use uxc.Coercion.Prepare.{insert_field}
use uxc.Commands.Handed.{IsRead, parse_arguments-parse_external_command}
use uxc.Commands.External.{Runs, parse_external_command_iff}

abbrev raw : List String
raw = "host" ∷ "--auth" ∷ "me" ∷ "op" ∷ "--text" ∷ "q=1" ∷ []

in_order :
    normalize_global_args ("uxc" ∷ raw)
    ≡ "uxc" ∷ "--auth" ∷ "me" ∷ "--text" ∷ "host" ∷ "op" ∷ "q=1" ∷ []
unfolding normalize_global_args split_globals global_kind
in_order = refl

-- An option at the end that lacks its value gets the endpoint for it.
endpoint_as_value :
    normalize_global_args ("uxc" ∷ "host" ∷ "--auth" ∷ []) ≡ "uxc" ∷ "--auth" ∷ "host" ∷ []
unfolding normalize_global_args split_globals global_kind
endpoint_as_value = refl

raw-Complete : Complete raw
unfolding global_kind
raw-Complete =
    another refl (an_option refl refl (another refl (a_flag refl (another refl no_more))))

abbrev only_braces : String → Option (Value (Unit {0}))
only_braces s = if str_eq s "{}" then some (object end) else none

abbrev words : List String
words = "search" ∷ "-a" ∷ "q=1" ∷ "n=2" ∷ "{}" ∷ []

runs :
    parse_external_command only_braces words false
    ≡ ok (execute "search" ("q=1" ∷ "n=2" ∷ []) (some "{}"))
unfolding parse_external_command gather word_kind normalize_operation_inputs take_positionals
    take_payload check_args
runs = refl

lacks_value :
    parse_external_command only_braces ("search" ∷ "-a" ∷ []) false ≡ err missing_args_value
unfolding parse_external_command gather word_kind
lacks_value = refl

parse_external_command_iff_example :
    (parse_external_command only_braces words false
      ≡ ok (execute "search" ("q=1" ∷ "n=2" ∷ []) (some "{}")))
    ↔ Runs only_braces ("-a" ∷ "q=1" ∷ "n=2" ∷ "{}" ∷ []) ("q=1" ∷ "n=2" ∷ []) (some "{}")
parse_external_command_iff_example =
    parse_external_command_iff only_braces "search" ("-a" ∷ "q=1" ∷ "n=2" ∷ "{}" ∷ [])
      ("q=1" ∷ "n=2" ∷ []) (some "{}")

-- An assignment in front of a payload is accepted, and then has no effect.
dropped :
    (parse_external_command only_braces ("search" ∷ "q=1" ∷ "{}" ∷ []) false
      ≡ ok (execute "search" ("q=1" ∷ []) (some "{}")))
    × (parse_arguments only_braces ("q=1" ∷ []) (some "{}") ≡ ok end)
unfolding parse_external_command gather word_kind normalize_operation_inputs take_positionals
    take_payload check_args parse_arguments
dropped = (refl, refl)

abbrev plain_words : List String
plain_words = "search" ∷ "-a" ∷ "q=1" ∷ "n=2" ∷ []

plain_runs :
    parse_external_command only_braces plain_words false
    ≡ ok (execute "search" ("q=1" ∷ "n=2" ∷ []) none)
unfolding parse_external_command gather word_kind normalize_operation_inputs take_positionals
    take_payload check_args
plain_runs = refl

parses :
    parse_arguments only_braces ("q=1" ∷ "n=2" ∷ []) none
    ≡ ok (field "q" (string "1") (field "n" (string "2") end))
unfolding parse_arguments insert_all parse_assignment insert_argument_path parse_segments scan
    insert_segments split_json split_text insert_field
parses = refl

parse_arguments-parse_external_command_example : All (IsRead only_braces) ("q=1" ∷ "n=2" ∷ [])
parse_arguments-parse_external_command_example =
    parse_arguments-parse_external_command only_braces "search" ("-a" ∷ "q=1" ∷ "n=2" ∷ [])
      ("q=1" ∷ "n=2" ∷ []) (field "q" (string "1") (field "n" (string "2") end)) plain_runs parses

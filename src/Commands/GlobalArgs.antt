-- ===== src/Commands/GlobalArgs.antt =====
-- src/main.rs: `normalize_global_args`, which moves the global options to the front.
use uxc.Base.{String, Bool, true, false, ◌||◌, List, [], ◌∷◌, ◌++◌, if◌then◌else◌}
use uxc.Commands.{begins, one_of, begins_one_of}

-- The three tests on an argument in `normalize_global_args`.
abbrev pub is_global_bool : String → Bool
is_global_bool = one_of ("--text" ∷ "--no-cache" ∷ "--refresh-schema" ∷ [])

abbrev pub is_global_kv : String → Bool
is_global_kv = one_of (
    "--format" ∷ "--auth" ∷ "--cache-ttl" ∷ "--schema-url" ∷ "--daemon-exclusive"
    ∷ "--daemon-idle-ttl" ∷ "--inject-env" ∷ "--mcp-capabilities" ∷ "--mcp-continuation" ∷ [])

abbrev pub is_global_inline : String → Bool
is_global_inline = begins_one_of (
    "--format=" ∷ "--auth=" ∷ "--cache-ttl=" ∷ "--schema-url=" ∷ "--daemon-exclusive="
    ∷ "--daemon-idle-ttl=" ∷ "--inject-env=" ∷ "--mcp-capabilities=" ∷ "--mcp-continuation=" ∷ [])

pub data GlobalKind : Type 0 where
  flag : GlobalKind
  option : GlobalKind
  other : GlobalKind

unfoldable pub global_kind : String → GlobalKind
global_kind arg =
    if is_global_bool arg || is_global_inline arg
    then flag
    else if is_global_kv arg
    then option
    else other

abbrev pub dashed : String → Bool
dashed s = begins "--" s

-- The global arguments and the rest.
abbrev pub Split : Type 0
Split = List String × List String

abbrev pub to_global : String → Split → Split
to_global arg (globals, rest) = (arg ∷ globals, rest)

abbrev pub to_rest : String → Split → Split
to_rest arg (globals, rest) = (globals, arg ∷ rest)

-- The loop; an option takes the argument behind it, unless that begins with two dashes.
unfoldable pub split_globals : List String → Split
split_globals [] = ([], [])
split_globals (arg ∷ []) = elim (global_kind arg) [
  | flag ↦ to_global arg ([], [])
  | option ↦ to_global arg ([], [])
  | other ↦ to_rest arg ([], [])
]
split_globals (arg ∷ value ∷ args) = elim (global_kind arg) [
  | flag ↦ to_global arg (split_globals (value ∷ args))
  | option ↦ elim (dashed value) [
    | true ↦ to_global arg (split_globals (value ∷ args))
    | false ↦ to_global arg (to_global value (split_globals args))
  ]
  | other ↦ to_rest arg (split_globals (value ∷ args))
]

unfoldable pub normalize_global_args : List String → List String
normalize_global_args [] = []
normalize_global_args (program ∷ args) =
    let parts = split_globals args in program ∷ (parts.0 ++ parts.1)

-- ===== src/Mapping.antt =====
-- src/schema_mapping/mod.rs: which schema a service is described by, where its endpoint does not serve
-- one. The rules of the user's file and the parser of URLs are arguments.
pub mod Keys
pub mod Chosen
mod Tests
use Prim.Native.Nat.{compare}
use uxc.Base.{
  ℕ, Ordering, Bool, true, false, ◌&&◌, Option, none, some, List, [], ◌∷◌, ◌++◌, map, is_empty,
  keep, if◌then◌else◌,
}
use uxc.Base.Int.{ℤ, compare_ℤ, pos}
use uxc.Base.Text.{ascii_lower, byte_len, codes, same_text, starts_with, trim}
use uxc.Base.Url.{Target}
use uxc.Base.Max.{max_by}
use uxc.Base.Order.{or_by}

abbrev pub Text : Type 0
Text = List ℕ

pub data MappingSource : Type 0 where
  builtin : MappingSource
  user_config : MappingSource

abbrev pub rank : MappingSource → ℤ
rank builtin = pos 0
rank user_config = pos 1

pub record ResolvedSchemaMapping : Type 0 where
  pub schema_url : Text
  pub source : MappingSource

pub record OpenApiMappingRule : Type 0 where
  pub host : Text
  pub path_prefix : Option Text
  pub schema_url : Text
  pub enabled : Bool
  pub priority : ℤ

pub record CandidateRule : Type 0 where
  pub source : MappingSource
  pub rule : OpenApiMappingRule

abbrev to_lower : Text → Text
to_lower t = map ascii_lower t

abbrev pub normalized_host : OpenApiMappingRule → Text
normalized_host rule = to_lower (trim rule.host)

abbrev pub with_slash : Text → Option Text
with_slash p =
    if is_empty p then none else if starts_with (codes "/") p then some p else some (47 ∷ p)

abbrev pub trimmed_prefix : Option Text → Option Text
trimmed_prefix none = none
trimmed_prefix (some p) = with_slash (trim p)

abbrev pub normalized_path_prefix : OpenApiMappingRule → Option Text
normalized_path_prefix rule = trimmed_prefix rule.path_prefix

abbrev pub path_allowed : Option Text → Text → Bool
path_allowed none path = true
path_allowed (some prefix) path = starts_with prefix path

abbrev pub host_allowed : Text → Option Text → Bool
host_allowed wanted none = false
host_allowed wanted (some host) = same_text wanted (to_lower host)

unfoldable pub matches : OpenApiMappingRule → Target → Bool
matches rule target =
    host_allowed (normalized_host rule) target.host_str
    && path_allowed (normalized_path_prefix rule) target.path

abbrev pub prefix_len : Option Text → ℕ
prefix_len none = 0
prefix_len (some prefix) = byte_len prefix

-- The order of the keys that `max_by_key` compares.
abbrev pub compare_keys : CandidateRule → CandidateRule → Ordering
compare_keys a b = or_by (compare_ℤ (rank a.source) (rank b.source)) (
    or_by (compare_ℤ a.rule.priority b.rule.priority) (
      compare (prefix_len (normalized_path_prefix a.rule))
        (prefix_len (normalized_path_prefix b.rule))))

abbrev pub candidate : MappingSource → OpenApiMappingRule → CandidateRule
candidate source rule = record { source = source; rule = rule }

abbrev pub applies : Target → CandidateRule → Bool
applies target c = c.rule.enabled && matches c.rule target

abbrev pub resolved : Option CandidateRule → Option ResolvedSchemaMapping
resolved none = none
resolved (some c) = some (record { schema_url = c.rule.schema_url; source = c.source })

abbrev pub resolve_target :
    Option Target → List OpenApiMappingRule → List OpenApiMappingRule → Option ResolvedSchemaMapping
resolve_target none user_rules builtin_rules = none
resolve_target (some target) user_rules builtin_rules =
    let candidates =
      map (candidate user_config) user_rules ++ map (candidate builtin) builtin_rules in
    resolved (max_by compare_keys (keep (applies target) candidates))

unfoldable pub resolve_from_rules :
    (Text → Option Target)
    → Text
    → List OpenApiMappingRule
    → List OpenApiMappingRule
    → Option ResolvedSchemaMapping
resolve_from_rules parse_url target_url user_rules builtin_rules =
    resolve_target (parse_url target_url) user_rules builtin_rules

abbrev slash_rule : Text → Text → OpenApiMappingRule
slash_rule host url = record {
  host = host;
  path_prefix = some (codes "/");
  schema_url = url;
  enabled = true;
  priority = pos 1000;
}

unfoldable pub builtin_openapi_rules : List OpenApiMappingRule
builtin_openapi_rules =
    slash_rule (codes "api.github.com") (
      codes
        "https://raw.githubusercontent.com/github/rest-api-description/main/descriptions/api.github.com/api.github.com.json")
    ∷ slash_rule (codes "api.telegram.org") (
        codes
          "https://raw.githubusercontent.com/holon-run/uxc/main/skills/telegram-openapi-skill/references/telegram-bot.openapi.json")
    ∷ []

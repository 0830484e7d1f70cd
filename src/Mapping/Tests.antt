-- ===== src/Mapping/Tests.antt =====
-- The theorem on schema mappings at an input: a rule of the user's of low priority comes before the
-- built-in one.
use uxc.Base.{◌≡◌, refl, true, Option, some, [], ◌∷◌}
use uxc.Base.Int.{pos}
use uxc.Base.Text.{codes}
use uxc.Base.Url.{Target}
use uxc.Base.Max.{max_by, max_from}
use uxc.Mapping.{
  Text, user_config, ResolvedSchemaMapping, OpenApiMappingRule, matches, resolve_from_rules,
  builtin_openapi_rules,
}
use uxc.Mapping.Chosen.{Chosen, resolve_from_rules-Chosen}

abbrev url : Text
url = codes "https://api.github.com"

abbrev target : Target
target = record {
  host_str = some (codes "api.github.com");
  scheme_str = codes "https";
  path = codes "/";
}

abbrev parse_one : Text → Option Target
parse_one t = some target

abbrev custom : OpenApiMappingRule
custom = record {
  host = codes " API.github.com";
  path_prefix = some (codes "/");
  schema_url = codes "https://example.com/custom.json";
  enabled = true;
  priority = pos 1;
}

abbrev to_custom : ResolvedSchemaMapping
to_custom = record { schema_url = codes "https://example.com/custom.json"; source = user_config }

overrides : resolve_from_rules parse_one url (custom ∷ []) builtin_openapi_rules ≡ some to_custom
unfolding resolve_from_rules builtin_openapi_rules matches max_by max_from
overrides = refl

resolve_from_rules-Chosen_example :
    Chosen target
      (custom ∷ [])
      builtin_openapi_rules
      (resolve_from_rules parse_one url (custom ∷ []) builtin_openapi_rules)
resolve_from_rules-Chosen_example =
    resolve_from_rules-Chosen parse_one url (custom ∷ []) builtin_openapi_rules target refl

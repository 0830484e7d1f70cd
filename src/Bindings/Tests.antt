-- ===== src/Bindings/Tests.antt =====
-- The theorems on bindings at inputs.
use uxc.Base.{◌≡◌, refl, Bool, true, false, Option, none, some, List, [], ◌∷◌, ◌++◌}
use uxc.Base.Int.{pos}
use uxc.Base.Result.{ok}
use uxc.Base.Text.{codes}
use uxc.Base.Max.{max_by, max_from}
use uxc.Base.Url.{Target}
use uxc.Bindings.{
  Text, AuthBindingRule, to_lower, matching_rule, validate_binding_id, normalize_path_prefix,
  normalized, add_binding, remove_binding, compare_binding_rules, matches,
}
use uxc.Bindings.Best.{Fits, IsBest, matching_rule-IsBest}
use uxc.Bindings.Added.{remove_binding-add_binding}

abbrev whole : AuthBindingRule Bool
whole = record {
  id = codes "whole";
  host = codes "api.x.io";
  path_prefix = none;
  scheme = none;
  credential = codes "c1";
  signer = none;
  priority = pos 0;
  enabled = true;
}

abbrev part : AuthBindingRule Bool
part = record whole {
  id = codes "part";
  path_prefix = some (codes "/v1");
  scheme = some (codes "https");
}

abbrev off : AuthBindingRule Bool
off = record part { id = codes "off"; priority = pos 9; enabled = false }

abbrev endpoint : Text
endpoint = codes "https://API.x.io/v1/users"

abbrev target : Target
target = record {
  host_str = some (codes "API.x.io");
  scheme_str = codes "https";
  path = codes "/v1/users";
}

abbrev parse_one : Text → Option Target
parse_one t = some target

abbrev three : List (AuthBindingRule Bool)
three = off ∷ part ∷ whole ∷ []

chosen : matching_rule parse_one endpoint three ≡ some part
unfolding matching_rule max_by max_from compare_binding_rules matches
chosen = refl

matching_rule-IsBest_example :
    IsBest
      (Fits (to_lower (codes "API.x.io")) (to_lower (codes "https")) (codes "/v1/users"))
      three
      (matching_rule parse_one endpoint three)
matching_rule-IsBest_example =
    matching_rule-IsBest parse_one endpoint three target (codes "API.x.io") refl refl

abbrev raw : AuthBindingRule Bool
raw = record part { host = codes " API.x.io"; path_prefix = some (codes "v1 "); signer = some true }

abbrev stored : AuthBindingRule Bool
stored = record part { host = codes "api.x.io"; signer = some true }

abbrev added_two : List (AuthBindingRule Bool)
added_two = whole ∷ stored ∷ []

added : add_binding (λ b. b) raw (whole ∷ []) ≡ ok added_two
unfolding add_binding validate_binding_id normalized normalize_path_prefix
added = refl

remove_binding-add_binding_example :
    (added_two ≡ (whole ∷ []) ++ normalized raw ∷ [])
    × (remove_binding raw.id added_two ≡ ok (whole ∷ []))
remove_binding-add_binding_example =
    remove_binding-add_binding (λ b. b) raw (whole ∷ []) added_two added

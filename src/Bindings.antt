-- ===== src/Bindings.antt =====
-- src/auth/mod.rs: the rules that bind endpoints to credentials. A text is the list of its characters. The
-- parser of URLs and the check of a signer's configuration are parameters; the file of the rules is left
-- out.
pub mod Best
pub mod Added
mod Tests
use Prim.Native.Nat.{compare}
use uxc.Base.{
  ℕ, Ordering, Bool, true, false, not, ◌&&◌, ◌||◌, Option, none, some, List, [], ◌∷◌, ◌++◌, map,
  leb, ◌==◌, if◌then◌else◌, is_empty, keep, length,
}
use uxc.Base.Int.{ℤ, compare_ℤ}
use uxc.Base.Result.{Result, ok, err, ◌>>=◌, ◌>>◌, bail_if}
use uxc.Base.Text.{ascii_lower, byte_len, codes, same_text, starts_with, trim}
use uxc.Base.Url.{Target}
use uxc.Base.Max.{max_by}
use uxc.Base.Order.{is_eq, compare_text}

abbrev pub Text : Type 0
Text = List ℕ

pub record AuthBindingRule (S : Type 0) : Type 0 where
  pub id : Text
  pub host : Text
  pub path_prefix : Option Text
  pub scheme : Option Text
  pub credential : Text
  pub signer : Option S
  pub priority : ℤ
  pub enabled : Bool

pub data BindingError : Type 0 where
  empty_id : BindingError
  invalid_id : Text → BindingError
  already_exists : Text → BindingError
  not_found : Text → BindingError
  invalid_signer : BindingError

abbrev pub to_lower : Text → Text
to_lower t = map ascii_lower t

-- `is_ascii_alphanumeric`, `_` or `-`
abbrev is_id_char : ℕ → Bool
is_id_char c =
    (leb 48 c && leb c 57)
    || (leb 65 c && leb c 90)
    || (leb 97 c && leb c 122)
    || (c == 95)
    || (c == 45)

abbrev all_chars : (ℕ → Bool) → Text → Bool
all_chars p [] = true
all_chars p (c ∷ cs) = p c && all_chars p cs

unfoldable pub validate_binding_id : Text → Result BindingError (Unit {0})
validate_binding_id id = do
  bail_if (is_empty id) empty_id
  bail_if (not (all_chars is_id_char id)) (invalid_id id)

unfoldable pub normalize_path_prefix : Text → Text
normalize_path_prefix prefix =
    let trimmed = trim prefix in
    if is_empty trimmed
    then codes "/"
    else if starts_with (codes "/") trimmed
    then trimmed
    else 47 ∷ trimmed

abbrev pub map_text : (Text → Text) → Option Text → Option Text
map_text f none = none
map_text f (some t) = some (f t)

abbrev pub prefix_len : Option Text → ℕ
prefix_len none = 0
prefix_len (some prefix) = byte_len prefix

abbrev pub allows : (Text → Bool) → Option Text → Bool
allows p none = true
allows p (some t) = p t

module _ {S : Type 0} where
  unfoldable pub compare_binding_rules : AuthBindingRule S → AuthBindingRule S → Ordering
  compare_binding_rules a b =
      let by_priority = compare_ℤ a.priority b.priority in
      let by_length = compare (prefix_len a.path_prefix) (prefix_len b.path_prefix) in
      if not (is_eq by_priority)
      then by_priority
      else if not (is_eq by_length)
      then by_length
      else compare_text a.id b.id

  -- The filters of `matching_rule`; `host` and `scheme` are in lower case.
  unfoldable pub matches : Text → Text → Text → AuthBindingRule S → Bool
  matches host scheme path rule =
      rule.enabled
      && same_text (to_lower rule.host) (to_lower host)
      && allows (λ s. same_text (to_lower s) (to_lower scheme)) rule.scheme
      && allows (λ prefix. starts_with prefix path) rule.path_prefix

  abbrev pub matching_host :
      Text → Text → Option Text → List (AuthBindingRule S) → Option (AuthBindingRule S)
  matching_host scheme path none rules = none
  matching_host scheme path (some host) rules =
      max_by compare_binding_rules (keep (matches (to_lower host) (to_lower scheme) path) rules)

  abbrev pub matching_target : Option Target → List (AuthBindingRule S) → Option (AuthBindingRule S)
  matching_target none rules = none
  matching_target (some t) rules = matching_host t.scheme_str t.path t.host_str rules

  unfoldable pub matching_rule :
      (Text → Option Target) → Text → List (AuthBindingRule S) → Option (AuthBindingRule S)
  matching_rule parse_url endpoint rules = matching_target (parse_url endpoint) rules

  abbrev pub has_id : Text → List (AuthBindingRule S) → Bool
  has_id id [] = false
  has_id id (r ∷ rs) = same_text r.id id || has_id id rs

  unfoldable pub normalized : AuthBindingRule S → AuthBindingRule S
  normalized rule = record rule {
    host = to_lower (trim rule.host);
    scheme = map_text (λ s. to_lower (trim s)) rule.scheme;
    path_prefix = map_text normalize_path_prefix rule.path_prefix;
  }

  abbrev pub check_signer : (S → Bool) → Option S → Result BindingError (Unit {0})
  check_signer valid none = ok tt
  check_signer valid (some s) = bail_if (not (valid s)) invalid_signer

  unfoldable pub add_binding :
      (S → Bool)
      → AuthBindingRule S
      → List (AuthBindingRule S)
      → Result BindingError (List (AuthBindingRule S))
  add_binding valid rule rules = do
    validate_binding_id rule.id
    bail_if (has_id rule.id rules) (already_exists rule.id)
    check_signer valid rule.signer
    ok (rules ++ normalized rule ∷ [])

  unfoldable pub remove_binding :
      Text → List (AuthBindingRule S) → Result BindingError (List (AuthBindingRule S))
  remove_binding id rules =
      let left = keep (λ rule. not (same_text rule.id id)) rules in
      if length left == length rules then err (not_found id) else ok left

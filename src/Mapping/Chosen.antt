-- ===== src/Mapping/Chosen.antt =====
-- The rule that `resolve_from_rules` takes.
use uxc.Base.{
  ◌≡◌, refl, sym, ap, subst, true, Option, none, some, List, ◌++◌, map, keep, inl, inr, ◌⊎◌, ◌↔◌,
  arith, ◌&&◌,
}
use uxc.Base.Int.{pos}
use uxc.Base.Url.{Target}
use uxc.Base.SameText.{&&-true, &&_intro, same_text-eq, eq-same_text, starts_with_iff}
use uxc.Base.Max.{In, In-keep, keep-In, In-append, In-map, Greatest, max_by-Greatest}
use uxc.Mapping.{
  Text, builtin, user_config, ResolvedSchemaMapping, OpenApiMappingRule, CandidateRule, candidate,
  to_lower, normalized_host, normalized_path_prefix, path_allowed, host_allowed, matches,
  compare_keys, applies, resolved, resolve_target, resolve_from_rules,
}
use uxc.Mapping.Keys.{RuleLe, KeyLe, KeyLe-refl, KeyLe-trans, compare_keys-KeyLe}

abbrev pub PathAllowed : Option Text → Text → Type 0
PathAllowed none path = Unit
PathAllowed (some prefix) path = (rest : Text) × (prefix ++ rest ≡ path)

-- A rule is for a URL: it is enabled, names the URL's host without regard to case, and the URL's path
-- begins with its prefix, if it has one.
abbrev pub Applies : Target → OpenApiMappingRule → Type 0
Applies target rule =
    (rule.enabled ≡ true)
    × ((host : Text) × (target.host_str ≡ some host) × (normalized_host rule ≡ to_lower host))
    × PathAllowed (normalized_path_prefix rule) target.path

path_allowed_iff :
    (p : Option Text) (path : Text) → (path_allowed p path ≡ true) ↔ PathAllowed p path
path_allowed_iff none path = (λ e. tt {0}, λ e. refl)
path_allowed_iff (some p) path = starts_with_iff p path

host_allowed_iff :
    (wanted : Text) (o : Option Text)
    → (host_allowed wanted o ≡ true) ↔ ((host : Text) × (o ≡ some host) × (wanted ≡ to_lower host))
host_allowed_iff wanted none = (λ e. cc, λ h. cc)
host_allowed_iff wanted (some t) = (
  λ e. (t, refl, same_text-eq wanted (to_lower t) e),
  λ h. subst (λ o. host_allowed wanted o ≡ true) (sym h.1) (eq-same_text wanted (to_lower h.0) h.2),
)

applies_iff :
    (target : Target) (c : CandidateRule) → (applies target c ≡ true) ↔ Applies target c.rule
unfolding matches
applies_iff target c =
    let h = host_allowed_iff (normalized_host c.rule) target.host_str in
    let p = path_allowed_iff (normalized_path_prefix c.rule) target.path in
    let k1 = c.rule.enabled in
    let k2 = host_allowed (normalized_host c.rule) target.host_str in
    let k3 = path_allowed (normalized_path_prefix c.rule) target.path in
    (
      λ e. let a = &&-true k1 (k2 && k3) e in let b = &&-true k2 k3 a.1 in (a.0, h.0 b.0, p.0 b.1),
      λ f. &&_intro k1 (k2 && k3) f.0 (&&_intro k2 k3 (h.1 f.1) (p.1 f.2)),
    )

abbrev pub NoneApply : Target → List OpenApiMappingRule → Type 0
NoneApply target rules = (r : OpenApiMappingRule) → In r rules → ¬ Applies target r

abbrev pub BestOf : Target → List OpenApiMappingRule → OpenApiMappingRule → Type 0
BestOf target rules best =
    In best rules
    × Applies target best
    × ((r : OpenApiMappingRule) → In r rules → Applies target r → RuleLe r best)

-- The user's rules come first: a rule that is built in is taken only where none of the user's applies.
abbrev pub Chosen :
    Target
    → List OpenApiMappingRule
    → List OpenApiMappingRule
    → Option ResolvedSchemaMapping
    → Type 0
Chosen target user_rules builtin_rules none =
    NoneApply target user_rules × NoneApply target builtin_rules
Chosen target user_rules builtin_rules (some m) =
    (r : OpenApiMappingRule) × (m.schema_url ≡ r.schema_url)
    × (((m.source ≡ user_config) × BestOf target user_rules r)
        ⊎ ((m.source ≡ builtin) × NoneApply target user_rules × BestOf target builtin_rules r))

-- Where the candidates come from.
module _ (user_rules builtin_rules : List OpenApiMappingRule) where
  abbrev candidates : List CandidateRule
  candidates = map (candidate user_config) user_rules ++ map (candidate builtin) builtin_rules

  In-candidates :
      (m : CandidateRule)
      → In m candidates
      → ((r : OpenApiMappingRule) × In r user_rules × (m ≡ candidate user_config r))
        ⊎ ((r : OpenApiMappingRule) × In r builtin_rules × (m ≡ candidate builtin r))
  In-candidates m i = elim ((In-append m (map (candidate user_config) user_rules) _).0 i) [
    | inl j ↦ inl ((In-map (candidate user_config) m user_rules).0 j)
    | inr j ↦ inr ((In-map (candidate builtin) m builtin_rules).0 j)
  ]

  user-In : (r : OpenApiMappingRule) → In r user_rules → In (candidate user_config r) candidates
  user-In r i =
      (In-append _ (map (candidate user_config) user_rules) _).1
        (inl ((In-map (candidate user_config) _ user_rules).1 (r, i, refl)))

  builtin-In : (r : OpenApiMappingRule) → In r builtin_rules → In (candidate builtin r) candidates
  builtin-In r i =
      (In-append _ (map (candidate user_config) user_rules) _).1
        (inr ((In-map (candidate builtin) _ builtin_rules).1 (r, i, refl)))

  module _ (target : Target) where
    -- No candidate that applies has a greater key.
    abbrev Above : CandidateRule → Type 0
    Above m = (c : CandidateRule) → In c candidates → Applies target c.rule → KeyLe c m

    user-BestOf :
        (r : OpenApiMappingRule)
        → Above (candidate user_config r)
        → (s : OpenApiMappingRule) → In s user_rules
        → Applies target s
        → RuleLe s r
    user-BestOf r above s i f = elim (above (candidate user_config s) (user-In s i) f) [
      | inl h ↦ absurd (omega (arith, h))
      | inr h ↦ h.1
    ]

    builtin-BestOf :
        (r : OpenApiMappingRule)
        → Above (candidate builtin r)
        → (s : OpenApiMappingRule) → In s builtin_rules
        → Applies target s
        → RuleLe s r
    builtin-BestOf r above s i f = elim (above (candidate builtin s) (builtin-In s i) f) [
      | inl h ↦ absurd (omega (arith, h))
      | inr h ↦ h.1
    ]

    builtin-NoneApply :
        (r : OpenApiMappingRule) → Above (candidate builtin r) → NoneApply target user_rules
    builtin-NoneApply r above s i f = elim (above (candidate user_config s) (user-In s i) f) [
      | inl h ↦ absurd (omega (arith, h))
      | inr h ↦ absurd (one-zero h.0)
    ]
      where
        one-zero : pos 1 ≡ pos 0 → ⊥
        one-zero q = cc

    Greatest-Chosen :
        (o : Option CandidateRule)
        → Greatest compare_keys KeyLe KeyLe-refl KeyLe-trans
            (λ a b. (compare_keys-KeyLe a b).0)
            (λ a b. (compare_keys-KeyLe a b).1)
            (keep (applies target) candidates)
            o
        → Chosen target user_rules builtin_rules (resolved o)
    Greatest-Chosen none g =
        let none_in = λ (c : CandidateRule) (i : In c candidates) (f : Applies target c.rule).
          subst (In c) g (keep-In (applies target) c candidates i ((applies_iff target c).1 f)) in
        (
          λ r i f. none_in (candidate user_config r) (user-In r i) f,
          λ r i f. none_in (candidate builtin r) (builtin-In r i) f,
        )
    Greatest-Chosen (some m) g =
        let k = In-keep (applies target) m candidates g.0 in
        let fits = (applies_iff target m).0 k.1 in
        let above : Above m =
          λ c i f. g.1 c (keep-In (applies target) c candidates i ((applies_iff target c).1 f)) in
        elim (In-candidates m k.0) [
          | inl (r, i, q) ↦ (
            r,
            ap (λ c. c.rule.schema_url) q,
            inl (
              ap (λ c. c.source) q,
              (i, subst (λ c. Applies target c.rule) q fits, user-BestOf r (subst Above q above)),
            ),
          )
          | inr (r, i, q) ↦ (
            r,
            ap (λ c. c.rule.schema_url) q,
            inr (
              ap (λ c. c.source) q,
              builtin-NoneApply r (subst Above q above),
              (
                i,
                subst (λ c. Applies target c.rule) q fits,
                builtin-BestOf r (subst Above q above),
              ),
            ),
          )
        ]

-- For an endpoint that parses, the schema that is taken is that of the best rule of the user's that
-- applies (no rule of the user's that applies has a higher priority, nor the same and a longer path
-- prefix); of the best built-in rule where none of the user's applies; and there is none exactly where
-- no rule applies.
pub resolve_from_rules-Chosen :
    (parse_url : Text → Option Target) (url : Text)
    (user_rules builtin_rules : List OpenApiMappingRule) (target : Target)
    → parse_url url ≡ some target
    → Chosen target user_rules builtin_rules
        (resolve_from_rules parse_url url user_rules builtin_rules)
unfolding resolve_from_rules
resolve_from_rules-Chosen parse_url url user_rules builtin_rules target e =
    rw (e, resolve_target)
      (Greatest-Chosen user_rules builtin_rules target _ (
        max_by-Greatest compare_keys KeyLe KeyLe-refl KeyLe-trans
          (λ a b. (compare_keys-KeyLe a b).0) (λ a b. (compare_keys-KeyLe a b).1) _))

-- ===== src/Bindings/Best.antt =====
-- Which rule an endpoint gets.
use uxc.Base.{
  ◌<◌, ◌≡◌, refl, Ordering, Bool, true, false, not, Option, none, some, List, ◌++◌, keep, inr, ◌↔◌,
  arith, subst, if◌then◌else◌, ◌&&◌,
}
use Prim.Native.Nat.{compare}
use uxc.Base.Int.{compare_ℤ}
use uxc.Base.Text.{same_text, starts_with}
use uxc.Base.SameText.{&&-true, &&_intro, same_text-eq, eq-same_text, starts_with_iff}
use uxc.Base.Max.{In, In-keep, keep-In, is_gt, Greatest, max_by-Greatest}
use uxc.Base.Order.{
  is_eq, compare_text, or_by, ◌<ℤ◌, <ℤ-trans, TextLe, TextLe-refl, TextLe-trans, Lex, Lex-trans,
  or_by-Lex, compare_ℤ_laws, compare_laws, compare_text-TextLe,
}
use uxc.Base.Url.{Target}
use uxc.Bindings.{
  Text, AuthBindingRule, to_lower, prefix_len, compare_binding_rules, allows, matches,
  matching_rule, matching_target, matching_host,
}

abbrev pub Allows : (Text → Type 0) → Option Text → Type 0
Allows P none = Unit
Allows P (some t) = P t

allows-Allows :
    (p : Text → Bool) (P : Text → Type 0) (o : Option Text)
    → ((t : Text) → (p t ≡ true) ↔ P t)
    → (allows p o ≡ true) ↔ Allows P o
allows-Allows p P none h = (λ e. tt {0}, λ e. refl)
allows-Allows p P (some t) h = h t

same_text_iff : (s t : Text) → (same_text s t ≡ true) ↔ (s ≡ t)
same_text_iff s t = (same_text-eq s t, eq-same_text s t)

module _ {S : Type 0} where
  -- A rule stands behind another, or is as good: by priority, then by the length of the path prefix,
  -- then by its name.
  abbrev pub BindingLe : AuthBindingRule S → AuthBindingRule S → Type 0
  BindingLe a b =
      Lex ◌<ℤ◌ a.priority b.priority
        (Lex ◌<◌ (prefix_len a.path_prefix) (prefix_len b.path_prefix) (TextLe a.id b.id))

  BindingLe-refl : (a : AuthBindingRule S) → BindingLe a a
  BindingLe-refl a = inr (refl, inr (refl, TextLe-refl a.id))

  BindingLe-trans : (a b c : AuthBindingRule S) → BindingLe a b → BindingLe b c → BindingLe a c
  BindingLe-trans a b c =
      Lex-trans ◌<ℤ◌ <ℤ-trans
        (Lex-trans ◌<◌ (λ x y z h k. omega arith) (TextLe-trans a.id b.id c.id)
          (prefix_len a.path_prefix) (prefix_len b.path_prefix) (prefix_len c.path_prefix))
        a.priority b.priority c.priority

  compare-or_by :
      (a b : AuthBindingRule S)
      → compare_binding_rules a b
        ≡ or_by (compare_ℤ a.priority b.priority) (
            or_by
              (compare (prefix_len a.path_prefix) (prefix_len b.path_prefix))
              (compare_text a.id b.id))
  unfolding compare_binding_rules
  compare-or_by a b =
      go (compare_ℤ a.priority b.priority)
        (compare (prefix_len a.path_prefix) (prefix_len b.path_prefix)) (compare_text a.id b.id)
    where
      go :
          (o p q : Ordering)
          → (if not (is_eq o) then o else if not (is_eq p) then p else q) ≡ or_by o (or_by p q)
      go Ordering.lt p q = refl
      go Ordering.gt p q = refl
      go Ordering.eq Ordering.lt q = refl
      go Ordering.eq Ordering.gt q = refl
      go Ordering.eq Ordering.eq q = refl

  compare-BindingLe :
      (a b : AuthBindingRule S)
      → (is_gt (compare_binding_rules a b) ≡ false → BindingLe a b)
        × (is_gt (compare_binding_rules a b) ≡ true → BindingLe b a)
  compare-BindingLe a b = rw (compare-or_by a b) (
      or_by-Lex ◌<ℤ◌ compare_ℤ a.priority b.priority _ (compare_ℤ_laws _ _) (
        or_by-Lex ◌<◌ compare (prefix_len a.path_prefix) (prefix_len b.path_prefix) _
          (compare_laws _ _) (compare_text-TextLe a.id b.id)))

  -- A rule that is for an endpoint: it is enabled, and names the host, the scheme or none (without
  -- regard to case) and a text that the path begins with, or none.
  abbrev pub Fits : Text → Text → Text → AuthBindingRule S → Type 0
  Fits host scheme path rule =
      (rule.enabled ≡ true)
      × (to_lower rule.host ≡ to_lower host)
      × Allows (λ s. to_lower s ≡ to_lower scheme) rule.scheme
      × Allows (λ p. (rest : Text) × (p ++ rest ≡ path)) rule.path_prefix

  matches-Fits :
      (host scheme path : Text) (rule : AuthBindingRule S)
      → (matches host scheme path rule ≡ true) ↔ Fits host scheme path rule
  unfolding matches
  matches-Fits host scheme path rule =
      let s =
        allows-Allows (λ x. same_text (to_lower x) (to_lower scheme))
          (λ x. to_lower x ≡ to_lower scheme) rule.scheme
          (λ x. same_text_iff (to_lower x) (to_lower scheme)) in
      let p =
        allows-Allows (λ x. starts_with x path) (λ x. (rest : Text) × (x ++ rest ≡ path))
          rule.path_prefix (λ x. starts_with_iff x path) in
      let k1 = rule.enabled in
      let k2 = same_text (to_lower rule.host) (to_lower host) in
      let k3 = allows (λ x. same_text (to_lower x) (to_lower scheme)) rule.scheme in
      let k4 = allows (λ x. starts_with x path) rule.path_prefix in
      let h = same_text_iff (to_lower rule.host) (to_lower host) in
      (
        λ e.
            let a = &&-true (k1 && k2 && k3) k4 e in
            let b = &&-true (k1 && k2) k3 a.0 in
            let c = &&-true k1 k2 b.0 in (c.0, h.0 c.1, s.0 b.1, p.0 a.1),
        λ f.
            &&_intro (k1 && k2 && k3) k4
              (&&_intro (k1 && k2) k3 (&&_intro k1 k2 f.0 (h.1 f.1)) (s.1 f.2)) (p.1 f.3),
      )

  -- The best of the rules that fit, or none where none fits.
  abbrev pub IsBest :
      (AuthBindingRule S → Type 0) → List (AuthBindingRule S) → Option (AuthBindingRule S) → Type 0
  IsBest P rules none = (r : AuthBindingRule S) → In r rules → ¬ P r
  IsBest P rules (some best) =
      In best rules × P best × ((r : AuthBindingRule S) → In r rules → P r → BindingLe r best)

  Greatest-IsBest :
      (p : AuthBindingRule S → Bool) (P : AuthBindingRule S → Type 0)
      (rules : List (AuthBindingRule S)) (o : Option (AuthBindingRule S))
      → ((r : AuthBindingRule S) → (p r ≡ true) ↔ P r)
      → Greatest compare_binding_rules BindingLe BindingLe-refl BindingLe-trans
          (λ a b. (compare-BindingLe a b).0)
          (λ a b. (compare-BindingLe a b).1)
          (keep p rules)
          o
      → IsBest P rules o
  Greatest-IsBest p P rules none h g = λ r i f. subst (In r) g (keep-In p r rules i ((h r).1 f))
  Greatest-IsBest p P rules (some best) h g =
      let k = In-keep p best rules g.0 in
      (k.0, (h best).0 k.1, λ r i f. g.1 r (keep-In p r rules i ((h r).1 f)))

  -- For an endpoint whose URL has a host, the rule that is chosen is the best of those that fit: no rule
  -- that fits has a higher priority, nor the same and a longer path prefix, nor these the same and a
  -- later name; and no rule is chosen exactly when none fits.
  pub matching_rule-IsBest :
      (parse_url : Text → Option Target) (endpoint : Text) (rules : List (AuthBindingRule S))
      (target : Target) (host : Text)
      → parse_url endpoint ≡ some target
      → target.host_str ≡ some host
      → IsBest
          (Fits (to_lower host) (to_lower target.scheme_str) target.path)
          rules
          (matching_rule parse_url endpoint rules)
  unfolding matching_rule
  matching_rule-IsBest parse_url endpoint rules target host e f =
      rw (e, matching_target, f, matching_host)
        (Greatest-IsBest _ _ rules _
          (matches-Fits (to_lower host) (to_lower target.scheme_str) target.path)
          (max_by-Greatest compare_binding_rules BindingLe BindingLe-refl BindingLe-trans
            (λ a b. (compare-BindingLe a b).0) (λ a b. (compare-BindingLe a b).1) _))

-- ===== src/Bindings/Added.antt =====
-- Adding a rule and removing it.
use uxc.Base.{true-ne-false}
use uxc.Base.{
  ◌≡◌, refl, sym, Bool, true, false, not, List, [], ◌∷◌, ◌++◌, keep, All, keep-All, keep-append,
  length, length-append, arith, ◌==◌, inl, inr, Bool-cases,
}
use mathlib.Core.List.{append-nil}
use uxc.Base.Result.{ok, bail_if, >>=-eq-ok, ok-injective}
use uxc.Base.Text.{same_text}
use uxc.Base.SameText.{same_text_refl}
use uxc.Bindings.{
  Text, AuthBindingRule, already_exists, validate_binding_id, has_id, normalized, add_binding,
  remove_binding, check_signer,
}

bail-false : {E : Type 0} (b : Bool) (e : E) → bail_if b e ≡ ok tt → b ≡ false
bail-false true e q = cc
bail-false false e q = refl

module _ {S : Type 0} where
  others_kept :
      (id : Text) (rules : List (AuthBindingRule S))
      → has_id id rules ≡ false
      → All (λ r. not (same_text r.id id) ≡ true) rules
  others_kept id [] e = tt
  others_kept id (r ∷ rs) e = elim (Bool-cases (same_text r.id id)) [
    | inl t ↦ absurd (true-ne-false (rw t at e))
    | inr t ↦ (rw t refl, others_kept id rs (rw t at e))
  ]

  keep-added :
      (rule : AuthBindingRule S) (rules : List (AuthBindingRule S))
      → has_id rule.id rules ≡ false
      → keep (λ r. not (same_text r.id rule.id)) (rules ++ normalized rule ∷ []) ≡ rules
  unfolding normalized
  keep-added rule rules e =
      rw
        (
          keep-append (λ r. not (same_text r.id rule.id)) rules (normalized rule ∷ []),
          same_text_refl rule.id,
          keep-All (λ r. not (same_text r.id rule.id)) rules (others_kept rule.id rules e),
        )
        (append-nil rules)

  grew :
      (rules : List (AuthBindingRule S)) (r : AuthBindingRule S)
      → (length rules == length (rules ++ r ∷ [])) ≡ false
  grew rules r = rw (length-append rules (r ∷ [])) (ground arith)

  -- A rule that is added was not there by its name; it is put at the end, and removing it by its name
  -- gives the rules as they were.
  pub remove_binding-add_binding :
      (valid : S → Bool) (rule : AuthBindingRule S) (rules added : List (AuthBindingRule S))
      → add_binding valid rule rules ≡ ok added
      → (added ≡ rules ++ normalized rule ∷ []) × (remove_binding rule.id added ≡ ok rules)
  unfolding add_binding remove_binding
  remove_binding-add_binding valid rule rules added e =
      let a = >>=-eq-ok (validate_binding_id rule.id) _ e in
      let b = >>=-eq-ok (bail_if (has_id rule.id rules) (already_exists rule.id)) _ a.2 in
      let c = >>=-eq-ok (check_signer valid rule.signer) _ b.2 in
      let fresh = bail-false (has_id rule.id rules) (already_exists rule.id) b.1 in
      let same = sym (ok-injective c.2) in
      let n : (length rules == length (rules ++ normalized rule ∷ [])) ≡ false =
        grew rules (normalized rule) in
      (same, rw (same, keep-added rule rules fresh, n) refl)

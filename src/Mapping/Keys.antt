-- ===== src/Mapping/Keys.antt =====
-- The order of the keys that `max_by_key` compares.
use Prim.Native.Nat.{compare}
use uxc.Base.{ℕ, ◌≤◌, ◌≡◌, refl, true, false, inr, arith}
use uxc.Base.Int.{compare_ℤ}
use uxc.Base.Max.{is_gt}
use uxc.Base.Order.{◌<ℤ◌, <ℤ-trans, Lex, Lex-trans, or_by-Lex, compare_ℤ_laws}
use uxc.Mapping.{
  rank, OpenApiMappingRule, CandidateRule, normalized_path_prefix, prefix_len, compare_keys,
}

-- By priority, then by the length of the path prefix.
abbrev pub RuleLe : OpenApiMappingRule → OpenApiMappingRule → Type 0
RuleLe a b =
    Lex ◌<ℤ◌ a.priority b.priority
      (prefix_len (normalized_path_prefix a) ≤ prefix_len (normalized_path_prefix b))

abbrev pub KeyLe : CandidateRule → CandidateRule → Type 0
KeyLe a b = Lex ◌<ℤ◌ (rank a.source) (rank b.source) (RuleLe a.rule b.rule)

pub KeyLe-refl : (a : CandidateRule) → KeyLe a a
KeyLe-refl a = inr (refl, inr (refl, omega arith))

pub KeyLe-trans : (a b c : CandidateRule) → KeyLe a b → KeyLe b c → KeyLe a c
KeyLe-trans a b c =
    Lex-trans ◌<ℤ◌ <ℤ-trans
      (Lex-trans ◌<ℤ◌ <ℤ-trans (λ h k. omega arith) a.rule.priority b.rule.priority c.rule.priority)
      (rank a.source) (rank b.source) (rank c.source)

compare-le :
    (m n : ℕ) → (is_gt (compare m n) ≡ false → m ≤ n) × (is_gt (compare m n) ≡ true → n ≤ m)
compare-le m n = (λ e. ground (arith, e), λ e. ground (arith, e))

pub compare_keys-KeyLe :
    (a b : CandidateRule)
    → (is_gt (compare_keys a b) ≡ false → KeyLe a b) × (is_gt (compare_keys a b) ≡ true → KeyLe b a)
compare_keys-KeyLe a b =
    or_by-Lex ◌<ℤ◌ compare_ℤ (rank a.source) (rank b.source) _ (compare_ℤ_laws _ _) (
      or_by-Lex ◌<ℤ◌ compare_ℤ a.rule.priority b.rule.priority _ (compare_ℤ_laws _ _) (
        compare-le (prefix_len (normalized_path_prefix a.rule))
          (prefix_len (normalized_path_prefix b.rule))))

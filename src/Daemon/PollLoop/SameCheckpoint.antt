-- ===== src/Daemon/PollLoop/SameCheckpoint.antt =====
-- The comparison of poll checkpoints, `==`, and how clearing a stale ETag respects it.
use uxc.Base.{
  ℕ, ◌-◌, ◌≤◌, String, ◌≡◌, refl, sym, ◌∙◌, inl, inr, Bool, true, false, ◌||◌, Option, none, some,
  arith, str_eq, leb, ◌==◌, if◌then◌else◌, Bool-cases, Option-cases, is_some, str_eq_self,
}
use uxc.Json.{Value, Serde}
use uxc.Poll.{Checkpoint}
use uxc.Poll.Etag.{
  should_invalidate_etag, invalidate_since, etag_ttl_secs, etag_max_consecutive_304,
}
use uxc.Poll.Runner.{checkpoint_eq, same_option}
use uxc.Daemon.PollLoop.{refresh, without_etag}
use uxc.Base.SameText.{&&-true}
use uxc.Daemon.PollLoop.SameFields.{
  nat-eq, nat_refl, bool-eq, bool_refl, str-eq, same_option_refl, same_option_sym,
  same_option_trans, same_option-eq, same_list-eq, same_list_refl,
}

-- What the code relies on of `==` on JSON values, which is an `Eq`.
pub record IsEquality (serde : Serde) : Type 0 where
  pub reflexive : (v : Value serde.Float) → serde.value_eq v v ≡ true
  pub symmetric : (v w : Value serde.Float) → serde.value_eq v w ≡ true → serde.value_eq w v ≡ true
  pub transitive :
      (u v w : Value serde.Float)
      → serde.value_eq u v ≡ true
      → serde.value_eq v w ≡ true
      → serde.value_eq u w ≡ true

-- Whether an ETag is stale, from the fields that it depends on.
abbrev pub is_stale : Option String → Option ℕ → ℕ → ℕ → Bool
is_stale none set_at count now = false
is_stale (some tag) none count now = true
is_stale (some tag) (some set_at) count now =
    leb etag_ttl_secs (now - set_at) || leb etag_max_consecutive_304 count

is_stale_later :
    (t u : ℕ) (etag : Option String) (set_at : Option ℕ) (count : ℕ)
    → t ≤ u
    → is_stale etag set_at count t ≡ true
    → is_stale etag set_at count u ≡ true
is_stale_later t u none set_at count l e = e
is_stale_later t u (some tag) none count l e = e
is_stale_later t u (some tag) (some set_at) count l e = ground arith

module _ {F : Type 0} where
  is_stale_since :
      (now : ℕ) (ck : Checkpoint F) (tag : String) (set_at : Option ℕ)
      → is_some (invalidate_since ck now set_at)
        ≡ is_stale (some tag) set_at ck.consecutive_304_count now
  unfolding invalidate_since
  is_stale_since now ck tag none = refl
  is_stale_since now ck tag (some set_at) = ground arith

  is_stale_lem :
      (now : ℕ) (ck : Checkpoint F)
      → is_some (should_invalidate_etag ck now)
        ≡ is_stale ck.etag ck.etag_set_at_unix ck.consecutive_304_count now
  unfolding should_invalidate_etag
  is_stale_lem now ck = elim (Option-cases ck.etag) [
    | inl e ↦ rw (e, should_invalidate_etag) refl
    | inr (tag, e) ↦ rw (e, should_invalidate_etag) (is_stale_since now ck tag ck.etag_set_at_unix)
  ]

  pub refresh_lem :
      (now : ℕ) (ck : Checkpoint F)
      → refresh now ck ≡ (
          if is_stale ck.etag ck.etag_set_at_unix ck.consecutive_304_count now
          then without_etag ck
          else ck)
  unfolding refresh
  refresh_lem now ck = rw (is_stale_lem now ck) refl

  -- A later clearing makes an earlier one idle.
  pub refresh-refresh :
      (t u : ℕ) (ck : Checkpoint F) → t ≤ u → refresh u (refresh t ck) ≡ refresh u ck
  refresh-refresh t u ck l =
      let stale = is_stale ck.etag ck.etag_set_at_unix ck.consecutive_304_count in
      elim (Bool-cases (stale t)) [
        | inl e ↦
            rw
              (
                refresh_lem t ck,
                e,
                refresh_lem u ck,
                refresh_lem u (without_etag ck),
                is_stale_later t u ck.etag ck.etag_set_at_unix ck.consecutive_304_count l e,
              )
              refl
        | inr e ↦ rw (refresh_lem t ck, e) refl
      ]

module _ (serde : Serde) where
  open serde use {Float, value_eq}

  -- What a checkpoint's `==` compares.
  record Alike (a b : Checkpoint Float) : Type 0 where
    cursor : same_option value_eq a.cursor b.cursor ≡ true
    watermark : same_option value_eq a.watermark b.watermark ≡ true
    tie_breaker : same_option value_eq a.tie_breaker b.tie_breaker ≡ true
    seen_keys : a.seen_keys ≡ b.seen_keys
    etag : a.etag ≡ b.etag
    etag_set_at_unix : a.etag_set_at_unix ≡ b.etag_set_at_unix
    count : a.consecutive_304_count ≡ b.consecutive_304_count
    baseline_done : a.baseline_done ≡ b.baseline_done

  Alike-of : (a b : Checkpoint Float) → checkpoint_eq serde a b ≡ true → Alike a b
  unfolding checkpoint_eq
  Alike-of a b e =
      let r8 = &&-true _ _ e in
      let r7 = &&-true _ _ r8.0 in
      let r6 = &&-true _ _ r7.0 in
      let r5 = &&-true _ _ r6.0 in
      let r4 = &&-true _ _ r5.0 in
      let r3 = &&-true _ _ r4.0 in
      let r2 = &&-true _ _ r3.0 in
      record {
        cursor = r2.0;
        watermark = r2.1;
        tie_breaker = r3.1;
        seen_keys = same_list-eq str_eq str-eq _ _ r4.1;
        etag = same_option-eq str_eq str-eq _ _ r5.1;
        etag_set_at_unix = same_option-eq ◌==◌ nat-eq _ _ r6.1;
        count = nat-eq _ _ r7.1;
        baseline_done = bool-eq _ _ r8.1;
      }

  eq-of_Alike : (a b : Checkpoint Float) → Alike a b → checkpoint_eq serde a b ≡ true
  unfolding checkpoint_eq
  eq-of_Alike a b h =
      rw
        (
          h.cursor,
          h.watermark,
          h.tie_breaker,
          h.seen_keys,
          h.etag,
          h.etag_set_at_unix,
          h.count,
          h.baseline_done,
          same_list_refl str_eq str_eq_self b.seen_keys,
          same_option_refl str_eq str_eq_self b.etag,
          same_option_refl ◌==◌ nat_refl b.etag_set_at_unix,
          nat_refl b.consecutive_304_count,
        )
        (bool_refl b.baseline_done)

  module _ (laws : IsEquality serde) where
    pub checkpoint_eq_refl : (a : Checkpoint Float) → checkpoint_eq serde a a ≡ true
    checkpoint_eq_refl a = eq-of_Alike a a (record {
      cursor = same_option_refl value_eq laws.reflexive a.cursor;
      watermark = same_option_refl value_eq laws.reflexive a.watermark;
      tie_breaker = same_option_refl value_eq laws.reflexive a.tie_breaker;
      seen_keys = refl;
      etag = refl;
      etag_set_at_unix = refl;
      count = refl;
      baseline_done = refl;
    })

    pub checkpoint_eq_sym :
        (a b : Checkpoint Float) → checkpoint_eq serde a b ≡ true → checkpoint_eq serde b a ≡ true
    checkpoint_eq_sym a b e =
        let h = Alike-of a b e in
        eq-of_Alike b a (record {
          cursor = same_option_sym value_eq laws.symmetric _ _ h.cursor;
          watermark = same_option_sym value_eq laws.symmetric _ _ h.watermark;
          tie_breaker = same_option_sym value_eq laws.symmetric _ _ h.tie_breaker;
          seen_keys = sym h.seen_keys;
          etag = sym h.etag;
          etag_set_at_unix = sym h.etag_set_at_unix;
          count = sym h.count;
          baseline_done = sym h.baseline_done;
        })

    pub checkpoint_eq_trans :
        (a b c : Checkpoint Float)
        → checkpoint_eq serde a b ≡ true
        → checkpoint_eq serde b c ≡ true
        → checkpoint_eq serde a c ≡ true
    checkpoint_eq_trans a b c e f =
        let h = Alike-of a b e in
        let k = Alike-of b c f in
        eq-of_Alike a c (record {
          cursor = same_option_trans value_eq laws.transitive _ _ _ h.cursor k.cursor;
          watermark = same_option_trans value_eq laws.transitive _ _ _ h.watermark k.watermark;
          tie_breaker =
              same_option_trans value_eq laws.transitive _ _ _ h.tie_breaker k.tie_breaker;
          seen_keys = h.seen_keys ∙ k.seen_keys;
          etag = h.etag ∙ k.etag;
          etag_set_at_unix = h.etag_set_at_unix ∙ k.etag_set_at_unix;
          count = h.count ∙ k.count;
          baseline_done = h.baseline_done ∙ k.baseline_done;
        })

  -- Clearing a stale ETag of two equal checkpoints leaves them equal.
  pub refresh-eq :
      (now : ℕ) (a b : Checkpoint Float)
      → checkpoint_eq serde a b ≡ true
      → checkpoint_eq serde (refresh now a) (refresh now b) ≡ true
  refresh-eq now a b e =
      let h = Alike-of a b e in
      let s : is_stale a.etag a.etag_set_at_unix a.consecutive_304_count now
          ≡ is_stale b.etag b.etag_set_at_unix b.consecutive_304_count now =
        rw (h.etag, h.etag_set_at_unix, h.count) refl in
      elim (Bool-cases (is_stale b.etag b.etag_set_at_unix b.consecutive_304_count now)) [
        | inl t ↦
            rw (refresh_lem now a, refresh_lem now b, s, t)
              (eq-of_Alike (without_etag a) (without_etag b) (record {
                cursor = h.cursor;
                watermark = h.watermark;
                tie_breaker = h.tie_breaker;
                seen_keys = h.seen_keys;
                etag = refl;
                etag_set_at_unix = refl;
                count = h.count;
                baseline_done = h.baseline_done;
              }))
        | inr t ↦ rw (refresh_lem now a, refresh_lem now b, s, t) e
      ]

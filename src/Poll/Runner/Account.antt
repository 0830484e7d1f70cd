-- ===== src/Poll/Runner/Account.antt =====
-- The parts of a cycle that succeeded.
use uxc.Base.{ℕ, ◌≡◌, refl, sym, ap, ◌∙◌, List, Option}
use uxc.Base.Result.{Result, ok, err, ok-injective, err-ne-ok}
use uxc.Json.{Value, Serde}
use uxc.Poll.{Config, Checkpoint, PollError}
use uxc.Poll.Runner.{
  CycleOutput, items_of, filter_items, baseline_limit, mark_baseline, process_response, output_of,
  finish_cycle, report,
}

module _ (serde : Serde) where
  open serde use {Float}

  -- The parts of a cycle that succeeded.
  pub record Ran (config : Config) (response : Value Float) (duration_ms : Option ℕ)
      (before : Checkpoint Float) (out : CycleOutput Float) (after : Checkpoint Float)
      : Type 0 where
    pub items : List (Value Float)
    pub emitted : List (Value Float)
    pub filtered : Checkpoint Float
    pub cursor : Option (Value Float)
    pub read : items_of serde config response ≡ ok items
    pub filter :
        filter_items serde config.checkpoint_strategy (baseline_limit config before) items before
        ≡ (ok emitted, filtered)
    pub out_eq : out ≡ output_of serde items emitted duration_ms before after
    pub after_eq :
        after ≡ record (mark_baseline (baseline_limit config before) filtered) { cursor = cursor }

  process_response-fails :
      (config : Config) (response : Value Float) (d : Option ℕ) (before : Checkpoint Float)
      (x : PollError)
      → items_of serde config response ≡ err x
      → process_response serde config response d before ≡ (err x, before)
  unfolding process_response
  process_response-fails config response d before x e = rw (e, process_response) refl

  process_response-reads :
      (config : Config) (response : Value Float) (d : Option ℕ) (before : Checkpoint Float)
      (items : List (Value Float))
      → items_of serde config response ≡ ok items
      → process_response serde config response d before
        ≡ finish_cycle serde config response d items before (
            filter_items serde config.checkpoint_strategy
              (baseline_limit config before)
              items
              before)
  unfolding process_response
  process_response-reads config response d before items e = rw (e, process_response) refl

  module _ (config : Config) (response : Value Float) (d : Option ℕ) (before : Checkpoint Float)
      (out : CycleOutput Float) (after : Checkpoint Float) where
    report-Ran :
        (items emitted : List (Value Float)) (ck : Checkpoint Float)
        (r : Result PollError (Option (Value Float)))
        → items_of serde config response ≡ ok items
        → filter_items serde config.checkpoint_strategy (baseline_limit config before) items before
          ≡ (ok emitted, ck)
        → report serde items emitted d before (mark_baseline (baseline_limit config before) ck) r
          ≡ (ok out, after)
        → Ran config response d before out after
    unfolding report
    report-Ran items emitted ck (err x) p q e = absurd (err-ne-ok x out (ap (λ t. t.0) e))
    report-Ran items emitted ck (ok c) p q e = record {
      items = items;
      emitted = emitted;
      filtered = ck;
      cursor = c;
      read = p;
      filter = q;
      out_eq =
          sym (ok-injective (ap (λ t. t.0) e))
          ∙ ap (output_of serde items emitted d before) (ap (λ t. t.1) e);
      after_eq = sym (ap (λ t. t.1) e);
    }

    finish_cycle-Ran :
        (items : List (Value Float)) (f : Result PollError (List (Value Float)) × Checkpoint Float)
        → items_of serde config response ≡ ok items
        → filter_items serde config.checkpoint_strategy (baseline_limit config before) items before
          ≡ f
        → finish_cycle serde config response d items before f ≡ (ok out, after)
        → Ran config response d before out after
    unfolding finish_cycle
    finish_cycle-Ran items (err x, ck) p q e = absurd (err-ne-ok x out (ap (λ t. t.0) e))
    finish_cycle-Ran items (ok emitted, ck) p q e = report-Ran items emitted ck _ p q e

    pub process_response-Ran :
        process_response serde config response d before ≡ (ok out, after)
        → Ran config response d before out after
    process_response-Ran e = go (items_of serde config response) refl
      where
        go :
            (r : Result PollError (List (Value Float)))
            → items_of serde config response ≡ r
            → Ran config response d before out after
        go (err x) p = absurd (
            err-ne-ok x out
              (ap (λ t. t.0) (sym (process_response-fails config response d before x p) ∙ e)))
        go (ok items) p =
            finish_cycle-Ran items
              (filter_items serde config.checkpoint_strategy (baseline_limit config before) items
                before)
              p refl (sym (process_response-reads config response d before items p) ∙ e)

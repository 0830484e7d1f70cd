-- ===== src/Poll/Runner/Baseline.antt =====
-- What a successful cycle reports, what a cycle leaves alone, and the first look.
use uxc.Base.{
  ℕ, ◌+◌, ◌≤◌, ◌≡◌, refl, sym, ap, ◌∙◌, subst, ◌≢◌, true, false, Option, none, some, List, arith,
  length,
}
use uxc.Base.Result.{Result, ok, err}
use uxc.Json.{Value, Serde}
use uxc.Poll.{
  Config, Checkpoint, Strategy, cursor_only, item_key, watermark, content_hash, PollError,
}
use uxc.Poll.Keys.Emitted.{Within}
use uxc.Poll.Runner.{
  Scan, CycleOutput, items_of, filter_items, filter_by_watermark, finish_scan, baseline_limit,
  mark_baseline, process_response, output_of,
}
use uxc.Poll.Runner.Account.{Ran, process_response-Ran}
use uxc.Poll.Runner.Emitted.{filter_items-emitted}

-- The ETag, the count of 304 responses and the baseline mark are the same.
pub record SameMarks {F : Type 0} (a b : Checkpoint F) : Type 0 where
  pub etag : a.etag ≡ b.etag
  pub set_at : a.etag_set_at_unix ≡ b.etag_set_at_unix
  pub count : a.consecutive_304_count ≡ b.consecutive_304_count
  pub baseline : a.baseline_done ≡ b.baseline_done

module _ (serde : Serde) where
  open serde use {Float}

  finish_scan-SameMarks :
      (r : Result PollError (Unit {0})) (s : Scan Float) (ck : Checkpoint Float)
      → SameMarks ((finish_scan serde r s ck).1) ck
  unfolding finish_scan
  finish_scan-SameMarks (ok _) s ck = record {
    etag = refl;
    set_at = refl;
    count = refl;
    baseline = refl;
  }
  finish_scan-SameMarks (err e) s ck = record {
    etag = refl;
    set_at = refl;
    count = refl;
    baseline = refl;
  }

  filter_items-SameMarks :
      (s : Strategy) (limit : Option ℕ) (items : List (Value Float)) (ck : Checkpoint Float)
      → SameMarks ((filter_items serde s limit items ck).1) ck
  unfolding filter_items filter_by_watermark
  filter_items-SameMarks cursor_only limit items ck = record {
    etag = refl;
    set_at = refl;
    count = refl;
    baseline = refl;
  }
  filter_items-SameMarks (item_key p w) limit items ck = record {
    etag = refl;
    set_at = refl;
    count = refl;
    baseline = refl;
  }
  filter_items-SameMarks (watermark p tie w) limit items ck = finish_scan-SameMarks _ _ ck
  filter_items-SameMarks (content_hash w) limit items ck = record {
    etag = refl;
    set_at = refl;
    count = refl;
    baseline = refl;
  }

  baseline_limit_first :
      (config : Config) (ck : Checkpoint Float) (limit : ℕ)
      → config.initial_items_limit ≡ some limit
      → ck.baseline_done ≡ false
      → baseline_limit config ck ≡ some limit
  unfolding baseline_limit
  baseline_limit_first config ck limit l b = ground arith

  baseline_limit_later :
      (config : Config) (ck : Checkpoint Float)
      → ck.baseline_done ≡ true
      → baseline_limit config ck ≡ none
  unfolding baseline_limit
  baseline_limit_later config ck b = ground arith

  module _ (config : Config) (response : Value Float) (d : Option ℕ) (before : Checkpoint Float)
      (out : CycleOutput Float) (after : Checkpoint Float) where
    -- A cycle that succeeds reports the items of the page as fetched, each of them either emitted or
    -- skipped.
    pub process_response-accounts :
        process_response serde config response d before ≡ (ok out, after)
        → (items : List (Value Float)) × (items_of serde config response ≡ ok items)
          × (out.fetched_items ≡ length items)
          × (length out.emitted_items + out.skipped_items ≡ length items)
    unfolding output_of
    process_response-accounts e =
        let r = process_response-Ran serde config response d before out after e in
        let n =
          (filter_items-emitted serde config.checkpoint_strategy (baseline_limit config before)
            r.items r.emitted before r.filtered r.filter).0 in
        (
          r.items,
          r.read,
          ap (λ o. o.fetched_items) r.out_eq,
          omega (
            arith,
            n,
            ap (λ o. o.skipped_items) r.out_eq,
            ap (λ o. length o.emitted_items) r.out_eq,
          ),
        )

    done_after :
        (limit : ℕ)
        → config.initial_items_limit ≡ some limit
        → before.baseline_done ≡ false
        → Ran serde config response d before out after
        → after.baseline_done ≡ true
    done_after limit l b r =
        ap (λ k. k.baseline_done) r.after_eq
        ∙ ap (λ m. (mark_baseline m r.filtered).baseline_done)
            (baseline_limit_first config before limit l b)

    stays_done :
        before.baseline_done ≡ true
        → Ran serde config response d before out after
        → after.baseline_done ≡ true
    stays_done b r =
        ap (λ k. k.baseline_done) r.after_eq
        ∙ ap (λ m. (mark_baseline m r.filtered).baseline_done)
            (baseline_limit_later config before b)
        ∙ ap (λ f. f.1.baseline_done) (sym r.filter)
        ∙ (filter_items-SameMarks config.checkpoint_strategy (baseline_limit config before) r.items
            before).baseline
        ∙ b

    -- With a limit for the first look and a strategy that is not by cursor alone, a first cycle that
    -- succeeds, also on an empty page, emits that many items at most, and the limit applies no more
    -- afterwards.
    pub first_look_once :
        (limit : ℕ)
        → config.initial_items_limit ≡ some limit
        → config.checkpoint_strategy ≢ cursor_only
        → before.baseline_done ≡ false
        → process_response serde config response d before ≡ (ok out, after)
        → (length out.emitted_items ≤ limit) × (baseline_limit config after ≡ none)
    unfolding output_of
    first_look_once limit l s b e =
        let r = process_response-Ran serde config response d before out after e in
        let n =
          (filter_items-emitted serde config.checkpoint_strategy (baseline_limit config before)
              r.items r.emitted before r.filtered r.filter).1
            s in
        (
          omega (
            arith,
            ap (λ o. length o.emitted_items) r.out_eq,
            subst (λ m. Within m (length r.emitted)) (baseline_limit_first config before limit l b)
                n,
          ),
          baseline_limit_later config after (done_after limit l b r),
        )

    -- Once the first look is done it stays done: no later cycle that succeeds is limited.
    pub later_looks_unlimited :
        before.baseline_done ≡ true
        → process_response serde config response d before ≡ (ok out, after)
        → (baseline_limit config before ≡ none) × (baseline_limit config after ≡ none)
    later_looks_unlimited b e =
        let r = process_response-Ran serde config response d before out after e in
        (baseline_limit_later config before b, baseline_limit_later config after (stays_done b r))

-- ===== src/Poll/Runner.antt =====
-- src/subscription_poll.rs: `PollSubscriptionRunner`. Its state is the checkpoint; an operation
-- returns its result beside the checkpoint that it leaves, also when it fails.
pub mod Account
pub mod Emitted
pub mod Baseline
pub mod Watermarks
use uxc.Base.{
  ℕ, ◌-◌, String, Bool, true, false, ◌&&◌, not, List, [], ◌∷◌, Option, none, some, is_some,
  unwrap_or, length, ◌==◌, str_eq, if◌then◌else◌,
}
use uxc.Base.Result.{Result, ok, err, ok_or, ◌>>=◌}
use uxc.Json.{Value, as_array, Serde}
use uxc.Poll.{
  Config, Checkpoint, fresh_checkpoint, Strategy, cursor_only, item_key, watermark, content_hash,
  PollError, items_unresolved, items_not_array, response_cursor_unresolved,
}
use uxc.Poll.Validate.{validate}
use uxc.Poll.Keys.{filter_by_item_key, filter_by_content_hash}
use uxc.Poll.Watermark.{Scan, scan, marks_of}
use uxc.Poll.Cursor.{derive_cursor_from_items, transform_cursor_value}

-- What the cycle reports of the checkpoint, if it changed.
pub record CheckpointMeta (F : Type 0) : Type 0 where
  pub cursor : Option (Value F)
  pub watermark : Option (Value F)
  pub tie_breaker : Option (Value F)
  pub seen_window_len : ℕ
  pub etag : Option String

-- `PollCycleOutput`
pub record CycleOutput (F : Type 0) : Type 0 where
  pub emitted_items : List (Value F)
  pub fetched_items : ℕ
  pub skipped_items : ℕ
  pub duration_ms : Option ℕ
  pub checkpoint_meta : Option (CheckpointMeta F)
  pub not_modified : Bool
  pub poll_interval_secs : Option ℕ

-- `seen_window.unwrap_or(1024)`
abbrev pub window_of : Option ℕ → ℕ
window_of w = unwrap_or w 1024

-- `PollSubscriptionRunner::new`
unfoldable pub new : {F : Type 0} → Config → Result PollError (Config × Checkpoint F)
new c = do _ ← validate c; ok (c, fresh_checkpoint)

unfoldable pub baseline_limit : {F : Type 0} → Config → Checkpoint F → Option ℕ
baseline_limit config ck =
    if is_some config.initial_items_limit && not ck.baseline_done
    then config.initial_items_limit
    else none

-- `self.checkpoint.baseline_done = true` under `baseline_limit.is_some()`
abbrev pub mark_baseline : {F : Type 0} → Option ℕ → Checkpoint F → Checkpoint F
mark_baseline none ck = ck
mark_baseline (some limit) ck = record ck { baseline_done = true }

abbrev pub same_option : {A : Type 0} → (A → A → Bool) → Option A → Option A → Bool
same_option eq none none = true
same_option eq none (some b) = false
same_option eq (some a) none = false
same_option eq (some a) (some b) = eq a b

abbrev pub same_list : {A : Type 0} → (A → A → Bool) → List A → List A → Bool
same_list eq [] [] = true
same_list eq [] (b ∷ bs) = false
same_list eq (a ∷ as') [] = false
same_list eq (a ∷ as') (b ∷ bs) = eq a b && same_list eq as' bs

abbrev pub same_bool : Bool → Bool → Bool
same_bool true b = b
same_bool false b = not b

module _ (serde : Serde) where
  open serde use {Float, pointer, value_eq}

  -- `==` on `PollCheckpointState`
  unfoldable pub checkpoint_eq : Checkpoint Float → Checkpoint Float → Bool
  checkpoint_eq a b =
      same_option value_eq a.cursor b.cursor
      && same_option value_eq a.watermark b.watermark
      && same_option value_eq a.tie_breaker b.tie_breaker
      && same_list str_eq a.seen_keys b.seen_keys
      && same_option str_eq a.etag b.etag
      && same_option ◌==◌ a.etag_set_at_unix b.etag_set_at_unix
      && (a.consecutive_304_count == b.consecutive_304_count)
      && same_bool a.baseline_done b.baseline_done

  unfoldable pub items_of : Config → Value Float → Result PollError (List (Value Float))
  items_of config response = elim (pointer config.extract_items_pointer response) [
    | some v ↦ ok_or (as_array v) items_not_array
    | none ↦
        if config.missing_extract_items_pointer_as_empty
        then ok []
        else err (items_unresolved config.extract_items_pointer)
  ]

  -- The end of `filter_by_watermark`.
  unfoldable pub finish_scan :
      Result PollError (Unit {0})
      → Scan Float
      → Checkpoint Float
      → Result PollError (List (Value Float)) × Checkpoint Float
  finish_scan (err e) s ck = (err e, record ck { seen_keys = s.seen })
  finish_scan (ok _) s ck = (
    ok s.emitted,
    record ck { seen_keys = s.seen; watermark = s.max_watermark; tie_breaker = s.max_tiebreaker },
  )

  unfoldable pub filter_by_watermark :
      String
      → Option String
      → ℕ
      → Option ℕ
      → List (Value Float)
      → Checkpoint Float
      → Result PollError (List (Value Float)) × Checkpoint Float
  unfolding finish_scan
  filter_by_watermark p tie window limit items ck =
      let start : Scan Float = record {
        emitted = [];
        seen = ck.seen_keys;
        max_watermark = ck.watermark;
        max_tiebreaker = ck.tie_breaker;
      } in
      let (r, s) =
        scan serde window limit ck.watermark ck.tie_breaker (marks_of serde p tie) items start in
      finish_scan r s ck

  unfoldable pub with_keys :
      Result PollError (List (Value Float)) × List String
      → Checkpoint Float
      → Result PollError (List (Value Float)) × Checkpoint Float
  with_keys (r, seen) ck = (r, record ck { seen_keys = seen })

  unfoldable pub filter_items :
      Strategy
      → Option ℕ
      → List (Value Float)
      → Checkpoint Float
      → Result PollError (List (Value Float)) × Checkpoint Float
  unfolding with_keys
  filter_items cursor_only limit items ck = (ok items, ck)
  filter_items (item_key p w) limit items ck =
      with_keys (filter_by_item_key serde p (window_of w) limit items ck.seen_keys) ck
  filter_items (watermark p tie w) limit items ck =
      filter_by_watermark p tie (window_of w) limit items ck
  filter_items (content_hash w) limit items ck =
      with_keys (filter_by_content_hash serde (window_of w) limit items ck.seen_keys) ck

  -- The cursor that the checkpoint holds after the cycle.
  unfoldable pub next_cursor :
      Config
      → Value Float
      → List (Value Float)
      → Option (Value Float)
      → Result PollError (Option (Value Float))
  next_cursor config response items cursor = elim config.response_cursor_pointer [
    | some p ↦ (do v ← ok_or (pointer p response) (response_cursor_unresolved p); ok (some v))
    | none ↦ elim config.cursor_from_item_pointer [
      | none ↦ ok cursor
      | some p ↦ (do
        found ← derive_cursor_from_items serde items p
        elim found [
          | none ↦ ok cursor
          | some c ↦ (do c' ← transform_cursor_value config.cursor_transform c; ok (some c'))
        ])
    ]
  ]

  unfoldable pub meta_of : Checkpoint Float → CheckpointMeta Float
  meta_of ck = record {
    cursor = ck.cursor;
    watermark = ck.watermark;
    tie_breaker = ck.tie_breaker;
    seen_window_len = length ck.seen_keys;
    etag = ck.etag;
  }

  unfoldable pub output_of :
      List (Value Float)
      → List (Value Float)
      → Option ℕ
      → Checkpoint Float
      → Checkpoint Float
      → CycleOutput Float
  output_of items emitted duration_ms before after = record {
    emitted_items = emitted;
    fetched_items = length items;
    skipped_items = length items - length emitted;
    duration_ms = duration_ms;
    checkpoint_meta = if checkpoint_eq after before then none else some (meta_of after);
    not_modified = false;
    poll_interval_secs = none;
  }

  -- The cursor is stored, and the cycle reported, unless the cursor cannot be had.
  unfoldable pub report :
      List (Value Float)
      → List (Value Float)
      → Option ℕ
      → Checkpoint Float
      → Checkpoint Float
      → Result PollError (Option (Value Float))
      → Result PollError (CycleOutput Float) × Checkpoint Float
  report items emitted duration_ms before marked (err e) = (err e, marked)
  report items emitted duration_ms before marked (ok cursor) =
      let after = record marked { cursor = cursor } in
      (ok (output_of items emitted duration_ms before after), after)

  -- After the filter: the baseline mark, the cursor and the report.
  unfoldable pub finish_cycle :
      Config
      → Value Float
      → Option ℕ
      → List (Value Float)
      → Checkpoint Float
      → Result PollError (List (Value Float)) × Checkpoint Float
      → Result PollError (CycleOutput Float) × Checkpoint Float
  finish_cycle config response duration_ms items before (err e, ck) = (err e, ck)
  finish_cycle config response duration_ms items before (ok emitted, ck) =
      let marked = mark_baseline (baseline_limit config before) ck in
      report items emitted duration_ms before marked
        (next_cursor config response items marked.cursor)

  unfoldable pub process_response :
      Config
      → Value Float
      → Option ℕ
      → Checkpoint Float
      → Result PollError (CycleOutput Float) × Checkpoint Float
  process_response config response duration_ms ck = elim (items_of config response) [
    | err e ↦ (err e, ck)
    | ok items ↦
        finish_cycle config response duration_ms items ck
          (filter_items config.checkpoint_strategy (baseline_limit config ck) items ck)
  ]

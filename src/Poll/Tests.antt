-- ===== src/Poll/Tests.antt =====
-- Each theorem on polling at an input, with a small JSON package in the place of serde_json.
use Prim.Native.Nat.{compare}
use uxc.Base.{
  ℕ, ◌+◌, ◌≤◌, String, ◌≡◌, refl, ◌≢◌, ◌↔◌, Bool, true, false, Option, none, some, List, [], ◌∷◌,
  arith, str_eq, ◌==◌, if◌then◌else◌, length, All,
}
use uxc.Poll.Validate.{validate, IsValid}
use uxc.Poll.Validate.Exact.{validate-IsValid_iff}
use uxc.Poll.Compare.{compare_json_numbers, newer_tie, newer_by, is_newer_item, compare_json_values}
use uxc.Poll.Watermark.{scan_item, scan, marks_of}
use uxc.Poll.Watermark.Integers.{int, above, int_marks}
use uxc.Poll.Cursor.{transform_cursor_value, later, derive_cursor_loop, derive_cursor_from_items}
use uxc.Poll.Cursor.Largest.{derive_cursor_from_items-largest}
use uxc.Poll.Runner.{
  checkpoint_eq, meta_of, output_of, report, next_cursor, finish_scan, finish_cycle, baseline_limit,
  CycleOutput, filter_by_watermark, process_response, items_of, filter_items,
}
use uxc.Poll.Runner.Watermarks.{at_watermark, filter_by_watermark-int}
use uxc.Poll.Runner.Baseline.{process_response-accounts, first_look_once}
use uxc.Base.Result.{ok}
use uxc.Base.Int.{ℤ, pos}
use uxc.Json.{
  Value, null, number, string, array, object, Number, pos_int, neg_int, float, Fields, end, field,
  from_list, Serde,
}
use uxc.Poll.{Config, Checkpoint, fresh_checkpoint, cursor_only, watermark}
use uxc.Poll.Keys.{contains, filter_by_key, item_key_of, canonical_key}
use uxc.Poll.Keys.Fresh.{fresh, filter_by_key-fresh, filter_by_key_again}

abbrev find_field : String → Fields ℕ → Option (Value ℕ)
find_field p end = none
find_field p (field k v fs) = if str_eq k p then some v else find_field p fs

abbrev toy_pointer : String → Value ℕ → Option (Value ℕ)
toy_pointer p (object fs) = find_field p fs
toy_pointer p _ = none

abbrev toy_to_string : Value ℕ → Option String
toy_to_string (string s) = some s
toy_to_string _ = none

abbrev toy_value_eq : Value ℕ → Value ℕ → Bool
toy_value_eq (string s) (string t) = str_eq s t
toy_value_eq (number (pos_int m)) (number (pos_int n)) = m == n
toy_value_eq null null = true
toy_value_eq _ _ = false

abbrev toy_as_f64 : Number ℕ → Option ℕ
toy_as_f64 (float f) = some f
toy_as_f64 (pos_int n) = some n
toy_as_f64 (neg_int n) = none

abbrev toy : Serde
toy = record {
  Float = ℕ;
  pointer = toy_pointer;
  to_string = toy_to_string;
  to_vec = λ v. some [];
  sha256_hex = λ bytes. "e3b0c442";
  as_f64 = toy_as_f64;
  partial_cmp = λ a b. some (compare a b);
  value_eq = toy_value_eq;
}

abbrev item : String → ℕ → Value ℕ
item id n = object (field "id" (string id) (field "at" (number (pos_int n)) end))

abbrev page : List (Value ℕ)
page = item "a" 3 ∷ item "b" 5 ∷ item "a" 4 ∷ []

abbrev text_of : Option (Value ℕ) → String
text_of (some (string s)) = s
text_of _ = ""

abbrev int_of : Option (Value ℕ) → ℤ
int_of (some (number (pos_int n))) = pos n
int_of _ = pos 0

abbrev id_of : Value ℕ → String
id_of v = text_of (toy_pointer "id" v)

page_keys : All (λ x. item_key_of toy "id" x ≡ ok (id_of x)) page
unfolding item_key_of canonical_key
page_keys = (refl, (refl, (refl, tt)))

filter_by_key-fresh_example :
    filter_by_key (item_key_of toy "id") 8 (some 1) page [] ("b" ∷ [])
    ≡ (ok (item "a" 3 ∷ []), "b" ∷ "a" ∷ [])
unfolding fresh contains
filter_by_key-fresh_example =
    filter_by_key-fresh (item_key_of toy "id") 8 (some 1) id_of page ("b" ∷ []) page_keys
      (omega arith)

filter_by_key_again_example :
    let seen = (filter_by_key (item_key_of toy "id") 8 (some 1) page [] []).1 in
    filter_by_key (item_key_of toy "id") 2 none page [] seen ≡ (ok [], seen)
filter_by_key_again_example =
    filter_by_key_again (item_key_of toy "id") id_of 8 2 (some 1) none page [] page_keys
      (omega arith)

abbrev at_of : Value ℕ → ℤ
at_of v = int_of (toy_pointer "at" v)

page_marks : All (λ x. marks_of toy "at" none x ≡ ok (int_marks toy (at_of x))) page
unfolding marks_of
page_marks = (refl, (refl, (refl, tt)))

filter_by_watermark-int_example :
    filter_by_watermark toy "at" none 8
      (some 1)
      page
      (at_watermark toy "at" at_of fresh_checkpoint (some (pos 3)))
    ≡ (ok (item "b" 5 ∷ []), at_watermark toy "at" at_of fresh_checkpoint (some (pos 5)))
filter_by_watermark-int_example =
    filter_by_watermark-int toy "at" at_of 8 (some 1) page fresh_checkpoint (some (pos 3))
      page_marks

derive_cursor_from_items-largest_example :
    (derive_cursor_from_items toy page "at" ≡ ok (some (int (pos 5))))
    × All (λ x. above (some (pos 5)) (at_of x) ≡ false) page
derive_cursor_from_items-largest_example =
    derive_cursor_from_items-largest toy "at" at_of page (refl, (refl, (refl, tt)))

abbrev by_watermark : Config
by_watermark = record {
  interval_secs = 30;
  extract_items_pointer = "items";
  missing_extract_items_pointer_as_empty = true;
  request_cursor_arg = some "since";
  response_cursor_pointer = none;
  cursor_from_item_pointer = some "at";
  cursor_transform = none;
  initial_items_limit = some 1;
  checkpoint_strategy = watermark "at" none none;
}

validate-IsValid_example : (validate by_watermark ≡ ok tt) ↔ IsValid by_watermark
validate-IsValid_example = validate-IsValid_iff by_watermark

abbrev held : Checkpoint ℕ
held = record {
  cursor = none;
  watermark = some (int (pos 7));
  tie_breaker = none;
  seen_keys = [];
  etag = some "W/1";
  etag_set_at_unix = some 1000;
  consecutive_304_count = 2;
  baseline_done = true;
}

abbrev response : Value ℕ
response = object (field "items" (array (from_list page)) end)

abbrev first_output : CycleOutput ℕ
first_output = record {
  emitted_items = item "a" 3 ∷ [];
  fetched_items = 3;
  skipped_items = 2;
  duration_ms = none;
  checkpoint_meta = some (record {
    cursor = some (int (pos 5));
    watermark = some (int (pos 5));
    tie_breaker = none;
    seen_window_len = 0;
    etag = none;
  });
  not_modified = false;
  poll_interval_secs = none;
}

abbrev second_output : CycleOutput ℕ
second_output = record first_output {
  emitted_items = [];
  skipped_items = 3;
  checkpoint_meta = none;
}

abbrev first_checkpoint : Checkpoint ℕ
first_checkpoint = record fresh_checkpoint {
  cursor = some (int (pos 5));
  watermark = some (int (pos 5));
  baseline_done = true;
}

watermark-ne-cursor_only : by_watermark.checkpoint_strategy ≢ cursor_only
watermark-ne-cursor_only e = cc

first_cycle_runs :
    process_response toy by_watermark response none fresh_checkpoint
    ≡ (ok first_output, first_checkpoint)
unfolding process_response items_of filter_items filter_by_watermark finish_cycle baseline_limit
    finish_scan scan scan_item marks_of is_newer_item newer_by newer_tie compare_json_values
    compare_json_numbers next_cursor report output_of meta_of derive_cursor_from_items
    derive_cursor_loop later transform_cursor_value checkpoint_eq
first_cycle_runs = refl

second_cycle_runs :
    process_response toy by_watermark response none first_checkpoint
    ≡ (ok second_output, first_checkpoint)
unfolding process_response items_of filter_items filter_by_watermark finish_cycle baseline_limit
    finish_scan scan scan_item marks_of is_newer_item newer_by newer_tie compare_json_values
    compare_json_numbers next_cursor report output_of meta_of derive_cursor_from_items
    derive_cursor_loop later transform_cursor_value checkpoint_eq
second_cycle_runs = refl

process_response-accounts_example :
    (items : List (Value ℕ)) × (items_of toy by_watermark response ≡ ok items)
    × (3 ≡ length items)
    × (1 + 2 ≡ length items)
process_response-accounts_example =
    process_response-accounts toy by_watermark response none fresh_checkpoint first_output
      first_checkpoint first_cycle_runs

first_look_once_example : (1 ≤ 1) × (baseline_limit by_watermark first_checkpoint ≡ none)
first_look_once_example =
    first_look_once toy by_watermark response none fresh_checkpoint first_output first_checkpoint 1
      refl (λ e. watermark-ne-cursor_only e) refl first_cycle_runs

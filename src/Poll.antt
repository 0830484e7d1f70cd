-- ===== src/Poll.antt =====
-- src/subscription_poll.rs: the data of a polling subscription. A runner is a configuration and a
-- checkpoint; its operations are in the child modules.
pub mod Validate
pub mod Keys
pub mod Compare
pub mod Watermark
pub mod Cursor
pub mod Etag
pub mod Runner
mod Tests
use uxc.Base.{ℕ, String, Bool, false, List, [], Option, none, some}
use uxc.Json.{Value, null}

-- `PollCursorTransform`
pub data CursorTransform : Type 0 where
  increment : CursorTransform

-- `PollCheckpointStrategy`
pub data Strategy : Type 0 where
  cursor_only : Strategy
  item_key : String → Option ℕ → Strategy
  watermark : String → Option String → Option ℕ → Strategy
  content_hash : Option ℕ → Strategy

-- `PollSubscriptionConfig`
pub record Config : Type 0 where
  pub interval_secs : ℕ
  pub extract_items_pointer : String
  pub missing_extract_items_pointer_as_empty : Bool
  pub request_cursor_arg : Option String
  pub response_cursor_pointer : Option String
  pub cursor_from_item_pointer : Option String
  pub cursor_transform : Option CursorTransform
  pub initial_items_limit : Option ℕ
  pub checkpoint_strategy : Strategy

-- `PollCheckpointState`
pub record Checkpoint (F : Type 0) : Type 0 where
  pub cursor : Option (Value F)
  pub watermark : Option (Value F)
  pub tie_breaker : Option (Value F)
  pub seen_keys : List String
  pub etag : Option String
  pub etag_set_at_unix : Option ℕ
  pub consecutive_304_count : ℕ
  pub baseline_done : Bool

-- `PollCheckpointState::default`
abbrev pub fresh_checkpoint : {F : Type 0} → Checkpoint F
fresh_checkpoint = record {
  cursor = none;
  watermark = none;
  tie_breaker = none;
  seen_keys = [];
  etag = none;
  etag_set_at_unix = none;
  consecutive_304_count = 0;
  baseline_done = false;
}

-- The messages of `bail!`, `anyhow!` and `with_context`, with the pointer that they quote.
pub data PollError : Type 0 where
  interval_secs_zero : PollError
  request_cursor_arg_empty : PollError
  response_cursor_pointer_empty : PollError
  cursor_from_item_pointer_empty : PollError
  cursor_from_item_needs_arg : PollError
  cursor_transform_needs_pointer : PollError
  cursor_pointers_exclusive : PollError
  initial_items_limit_needs_keys : PollError
  cursor_only_needs_arg : PollError
  cursor_only_needs_pointer : PollError
  item_key_pointer_empty : PollError
  watermark_pointer_empty : PollError
  items_unresolved : String → PollError
  items_not_array : PollError
  item_key_unresolved : String → PollError
  watermark_unresolved : String → PollError
  tiebreaker_unresolved : String → PollError
  response_cursor_unresolved : String → PollError
  item_cursor_unresolved : String → PollError
  not_serializable : PollError
  increment_overflows_i64 : PollError
  increment_overflows_u64 : PollError
  increment_not_integer : PollError
  increment_not_numeric : String → PollError

-- What serde_json reads of a checkpoint that it wrote: a field that holds `null` is read like one that
-- is not there. `again` is what it reads of another value that it wrote: a float may come back as one
-- beside it, as the feature `float_roundtrip` of the package is not asked for.
abbrev pub without_null : {F : Type 0} → (Value F → Value F) → Option (Value F) → Option (Value F)
without_null again none = none
without_null again (some null) = none
without_null again (some v) = some (again v)

unfoldable pub read_back : {F : Type 0} → (Value F → Value F) → Checkpoint F → Checkpoint F
read_back again ck = record ck {
  cursor = without_null again ck.cursor;
  watermark = without_null again ck.watermark;
  tie_breaker = without_null again ck.tie_breaker;
}

-- ===== src/Poll/Validate.antt =====
-- src/subscription_poll.rs: `PollSubscriptionConfig::validate`, and what a valid configuration has.
pub mod Exact
use uxc.Base.{
  ◌<◌, String, ◌≡◌, ◌≢◌, Bool, true, false, not, ◌&&◌, Option, none, some, ◌==◌, str_eq, is_some,
}
use uxc.Base.Result.{Result, ok, bail_if, ◌>>=◌, ◌>>◌}
use uxc.Poll.{
  Strategy, cursor_only, item_key, watermark, content_hash, Config, PollError, interval_secs_zero,
  request_cursor_arg_empty, response_cursor_pointer_empty, cursor_from_item_pointer_empty,
  cursor_from_item_needs_arg, cursor_transform_needs_pointer, cursor_pointers_exclusive,
  initial_items_limit_needs_keys, cursor_only_needs_arg, cursor_only_needs_pointer,
  item_key_pointer_empty, watermark_pointer_empty,
}

-- `is_some_and(|s| s.is_empty())`
abbrev pub is_some_empty : Option String → Bool
is_some_empty none = false
is_some_empty (some s) = str_eq s ""

abbrev pub is_cursor_only : Strategy → Bool
is_cursor_only cursor_only = true
is_cursor_only _ = false

unfoldable pub validate_strategy : Config → Strategy → Result PollError (Unit {0})
validate_strategy c cursor_only = do
  bail_if (not (is_some c.request_cursor_arg)) cursor_only_needs_arg
  bail_if (not (is_some c.response_cursor_pointer) && not (is_some c.cursor_from_item_pointer))
      cursor_only_needs_pointer
  ok tt
validate_strategy c (item_key pointer window) = do
  bail_if (str_eq pointer "") item_key_pointer_empty
  ok tt
validate_strategy c (watermark pointer tiebreaker window) = do
  bail_if (str_eq pointer "") watermark_pointer_empty
  ok tt
validate_strategy c (content_hash window) = ok tt

unfoldable pub validate_cursor : Config → Result PollError (Unit {0})
validate_cursor c = do
  bail_if (is_some_empty c.request_cursor_arg) request_cursor_arg_empty
  bail_if (is_some_empty c.response_cursor_pointer) response_cursor_pointer_empty
  bail_if (is_some_empty c.cursor_from_item_pointer) cursor_from_item_pointer_empty
  bail_if (is_some c.cursor_from_item_pointer && not (is_some c.request_cursor_arg))
      cursor_from_item_needs_arg
  bail_if (is_some c.cursor_transform && not (is_some c.cursor_from_item_pointer))
      cursor_transform_needs_pointer
  bail_if (is_some c.response_cursor_pointer && is_some c.cursor_from_item_pointer)
      cursor_pointers_exclusive
  ok tt

unfoldable pub validate : Config → Result PollError (Unit {0})
validate c = do
  bail_if (c.interval_secs == 0) interval_secs_zero
  validate_cursor c
  bail_if (is_some c.initial_items_limit && is_cursor_only c.checkpoint_strategy)
      initial_items_limit_needs_keys
  validate_strategy c c.checkpoint_strategy

-- A text that is there is not empty.
abbrev pub NonEmpty : Option String → Type 0
NonEmpty none = Unit
NonEmpty (some s) = s ≢ ""

abbrev pub FitsStrategy : Config → Strategy → Type 0
FitsStrategy c cursor_only =
    (is_some c.request_cursor_arg ≡ true)
    × (is_some c.response_cursor_pointer ≢ is_some c.cursor_from_item_pointer)
    × (c.initial_items_limit ≡ none)
FitsStrategy c (item_key pointer window) = pointer ≢ ""
FitsStrategy c (watermark pointer tiebreaker window) = pointer ≢ ""
FitsStrategy c (content_hash window) = Unit

-- A configuration that a runner can work with.
pub record IsValid (c : Config) : Type 0 where
  pub interval : 0 < c.interval_secs
  pub arg_text : NonEmpty c.request_cursor_arg
  pub response_text : NonEmpty c.response_cursor_pointer
  pub item_text : NonEmpty c.cursor_from_item_pointer
  -- a cursor taken from items is sent somewhere, and not taken from the response too
  pub item_cursor :
      is_some c.cursor_from_item_pointer ≡ true
      → (is_some c.request_cursor_arg ≡ true) × (c.response_cursor_pointer ≡ none)
  pub transform : c.cursor_from_item_pointer ≡ none → c.cursor_transform ≡ none
  pub strategy : FitsStrategy c c.checkpoint_strategy

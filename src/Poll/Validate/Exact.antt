-- ===== src/Poll/Validate/Exact.antt =====
-- Which configurations `validate` accepts.
use uxc.Base.{
  ◌<◌, String, ◌≡◌, refl, ◌↔◌, Bool, true, false, not, ◌&&◌, Option, none, some, arith, eq_iff,
  is_some,
}
use uxc.Base.Result.{ok, bail_if}
use uxc.Poll.{Strategy, cursor_only, item_key, watermark, content_hash, Config, PollError}
use uxc.Poll.Validate.{
  is_some_empty, is_cursor_only, NonEmpty, FitsStrategy, IsValid, validate_strategy,
  validate_cursor, validate,
}

bail_if-eq-ok : (b : Bool) (e : PollError) → bail_if b e ≡ ok tt → b ≡ false
bail_if-eq-ok true e h = cc
bail_if-eq-ok false e h = refl

NonEmpty-of_test : (o : Option String) → is_some_empty o ≡ false → NonEmpty o
NonEmpty-of_test none h = tt
NonEmpty-of_test (some s) h = λ e. ground (arith, eq_iff s "")

test_of_NonEmpty : (o : Option String) → NonEmpty o → is_some_empty o ≡ false
test_of_NonEmpty none h = refl
test_of_NonEmpty (some s) h = ground (arith, eq_iff s "")

validate_parts :
    (c : Config)
    → validate c ≡ ok tt
    → (0 < c.interval_secs)
      × (validate_cursor c ≡ ok tt)
      × ((is_some c.initial_items_limit && is_cursor_only c.checkpoint_strategy) ≡ false)
      × (validate_strategy c c.checkpoint_strategy ≡ ok tt)
unfolding validate
validate_parts c h = ground arith

validate_cursor_parts :
    (c : Config)
    → validate_cursor c ≡ ok tt
    → (is_some_empty c.request_cursor_arg ≡ false)
      × (is_some_empty c.response_cursor_pointer ≡ false)
      × (is_some_empty c.cursor_from_item_pointer ≡ false)
      × ((is_some c.cursor_from_item_pointer && not (is_some c.request_cursor_arg)) ≡ false)
      × ((is_some c.cursor_transform && not (is_some c.cursor_from_item_pointer)) ≡ false)
      × ((is_some c.response_cursor_pointer && is_some c.cursor_from_item_pointer) ≡ false)
unfolding validate_cursor
validate_cursor_parts c h = ground arith

validate_strategy-FitsStrategy :
    (c : Config) (s : Strategy)
    → (is_some c.initial_items_limit && is_cursor_only s) ≡ false
    → (is_some c.response_cursor_pointer && is_some c.cursor_from_item_pointer) ≡ false
    → validate_strategy c s ≡ ok tt
    → FitsStrategy c s
unfolding validate_strategy
validate_strategy-FitsStrategy c cursor_only l x h = (ground arith, λ e. ground arith, ground arith)
validate_strategy-FitsStrategy c (item_key pointer window) l x h =
    λ e. ground (arith, eq_iff pointer "")
validate_strategy-FitsStrategy c (watermark pointer tie window) l x h =
    λ e. ground (arith, eq_iff pointer "")
validate_strategy-FitsStrategy c (content_hash window) l x h = tt

validate-IsValid : (c : Config) → validate c ≡ ok tt → IsValid c
validate-IsValid c h =
    let p = validate_parts c h in
    let q = validate_cursor_parts c (p.1) in
    record {
      interval = p.0;
      arg_text = NonEmpty-of_test c.request_cursor_arg q.0;
      response_text = NonEmpty-of_test c.response_cursor_pointer q.1;
      item_text = NonEmpty-of_test c.cursor_from_item_pointer q.2;
      item_cursor = λ i. (ground arith, ground arith);
      transform = λ i. ground arith;
      strategy = validate_strategy-FitsStrategy c c.checkpoint_strategy p.2 q.5 p.3;
    }

validate_cursor-eq-ok : (c : Config) → IsValid c → validate_cursor c ≡ ok tt
unfolding validate_cursor
validate_cursor-eq-ok c v =
    let a = test_of_NonEmpty c.request_cursor_arg v.arg_text in
    let b = test_of_NonEmpty c.response_cursor_pointer v.response_text in
    let d = test_of_NonEmpty c.cursor_from_item_pointer v.item_text in
    rw (a, b, d) (ground (arith, v.item_cursor, v.transform))

validate_strategy-eq-ok :
    (c : Config) (s : Strategy) → FitsStrategy c s → validate_strategy c s ≡ ok tt
unfolding validate_strategy
validate_strategy-eq-ok c cursor_only f = ground (arith, f.1)
validate_strategy-eq-ok c (item_key pointer window) f = ground (arith, eq_iff pointer "", f)
validate_strategy-eq-ok c (watermark pointer tie window) f = ground (arith, eq_iff pointer "", f)
validate_strategy-eq-ok c (content_hash window) f = refl

limit_fits :
    (c : Config) (s : Strategy)
    → FitsStrategy c s
    → (is_some c.initial_items_limit && is_cursor_only s) ≡ false
limit_fits c cursor_only f = rw (f.2)
limit_fits c (item_key pointer window) f = ground arith
limit_fits c (watermark pointer tie window) f = ground arith
limit_fits c (content_hash window) f = ground arith

IsValid-validate : (c : Config) → IsValid c → validate c ≡ ok tt
unfolding validate
IsValid-validate c v =
    let a = validate_cursor-eq-ok c v in
    let b = limit_fits c c.checkpoint_strategy v.strategy in
    let d = validate_strategy-eq-ok c c.checkpoint_strategy v.strategy in
    rw (a, b, d) (ground (arith, v.interval))

-- `validate` succeeds on a configuration exactly when: the interval is positive; the argument for the
-- cursor, the pointer to it in the response and the pointer to it in an item are no empty texts, where
-- they are given; a pointer to the cursor in an item comes with an argument and without a pointer to it
-- in the response; a transform of the cursor comes with a pointer to it in an item; the strategy by
-- cursor has an argument, one of the two pointers and no limit on the first look; and the strategies by
-- key and by watermark have a pointer that is no empty text. Other texts, the pointer to the items
-- and that to a tie-breaker among them, may be empty.
pub validate-IsValid_iff : (c : Config) → (validate c ≡ ok tt) ↔ IsValid c
validate-IsValid_iff c = (validate-IsValid c, IsValid-validate c)

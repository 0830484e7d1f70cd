-- ===== src/Poll/Runner/Watermarks.antt =====
-- `filter_by_watermark` on pages whose watermarks are integers, with no tie-breaker.
use uxc.Base.{◌∙◌, String, ℕ, ◌≡◌, List, [], map, Option, none, All, keep}
use uxc.Base.Int.{ℤ}
use uxc.Base.Result.{ok}
use uxc.Json.{Value, Serde}
use uxc.Poll.{Checkpoint}
use uxc.Poll.Keys.Fresh.{room, room-nil}
use uxc.Poll.Watermark.{marks_of}
use uxc.Poll.Watermark.Integers.{int?, int_marks, above, largest, scan-int}
use uxc.Poll.Watermark.Largest.{largest_bounds, keep_none, largest_kept}
use uxc.Poll.Runner.{filter_by_watermark}

module _ (serde : Serde) (p : String) (m : Value serde.Float → ℤ) where
  open serde use {Float}

  abbrev pub at_watermark : Checkpoint Float → Option ℤ → Checkpoint Float
  at_watermark ck c = record ck { watermark = int? c; tie_breaker = none }

  -- On a page of integer watermarks with no tie-breaker, exactly the items above the watermark are
  -- emitted, in order and up to the limit of a first look, and the watermark becomes the largest of
  -- the page and the old one, also over the items beyond the limit; no key is recorded.
  pub filter_by_watermark-int :
      (window : ℕ) (limit : Option ℕ) (items : List (Value Float)) (ck : Checkpoint Float)
      (c : Option ℤ)
      → All (λ x. marks_of serde p none x ≡ ok (int_marks serde (m x))) items
      → filter_by_watermark serde p none window limit items (at_watermark ck c) ≡ (
        ok (room limit 0 (keep (λ x. above c (m x)) items)),
        at_watermark ck (largest c (map m items)),
      )
  unfolding filter_by_watermark
  filter_by_watermark-int window limit items ck c h =
      rw (scan-int serde window limit c none (marks_of serde p none) m items [] ck.seen_keys c h)

  -- Such a page that is polled again emits nothing and leaves the checkpoint as it is.
  pub filter_by_watermark_again :
      (window : ℕ) (limit limit' : Option ℕ) (items : List (Value Float)) (ck : Checkpoint Float)
      (c : Option ℤ)
      → All (λ x. marks_of serde p none x ≡ ok (int_marks serde (m x))) items
      → let ck' = (filter_by_watermark serde p none window limit items (at_watermark ck c)).1 in
        filter_by_watermark serde p none window limit' items ck' ≡ (ok [], ck')
  filter_by_watermark_again window limit limit' items ck c h =
      let b = largest_bounds m c items in
      rw (filter_by_watermark-int window limit items ck c h) (
        filter_by_watermark-int window limit' items ck (largest c (map m items)) h
        ∙ rw (
          keep_none m (largest c (map m items)) items b,
          largest_kept m (largest c (map m items)) items b,
          room-nil limit' 0,
        ))

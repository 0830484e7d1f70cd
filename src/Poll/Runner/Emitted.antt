-- ===== src/Poll/Runner/Emitted.antt =====
-- How much the filters of the strategies emit.
use uxc.Base.{
  ℕ, ◌≤◌, String, ◌≡◌, refl, sym, ap, subst, ◌≢◌, Option, none, some, List, [], arith, length,
}
use uxc.Base.Result.{Result, ok, err, ok-injective, err-ne-ok}
use uxc.Json.{Value, Serde}
use uxc.Poll.{Checkpoint, Strategy, cursor_only, item_key, watermark, content_hash, PollError}
use uxc.Poll.Keys.{
  filter_by_key, item_key_of, hash_of_content, filter_by_item_key, filter_by_content_hash,
}
use uxc.Poll.Keys.Emitted.{Within, filter_by_key-emitted}
use uxc.Poll.Watermark.{Scan, scan, marks_of}
use uxc.Poll.Watermark.Emitted.{scan-emitted}
use uxc.Poll.Runner.{filter_items, filter_by_watermark, finish_scan, window_of}

module _ (serde : Serde) where
  open serde use {Float}

  Within-zero : (limit : Option ℕ) → Within limit 0
  Within-zero none = tt
  Within-zero (some l) = omega arith

  keyed-emitted :
      (key_of : Value Float → Result PollError String) (window : ℕ) (limit : Option ℕ)
      (items out : List (Value Float)) (seen : List String)
      → (filter_by_key key_of window limit items [] seen).0 ≡ ok out
      → (length out ≤ length items) × Within limit (length out)
  keyed-emitted key_of window limit items out seen e =
      let (n, w) =
        filter_by_key-emitted key_of window limit items [] out seen
          ((filter_by_key key_of window limit items [] seen).1)
          (λ i. (e i, (filter_by_key key_of window limit items [] seen).1)) (Within-zero limit) in
      (omega (arith, n), w)

  emitted-finish_scan :
      (r : Result PollError (Unit {0})) (s : Scan Float) (ck : Checkpoint Float)
      (out : List (Value Float))
      → (finish_scan serde r s ck).0 ≡ ok out
      → out ≡ s.emitted
  unfolding finish_scan
  emitted-finish_scan (ok _) s ck out e = sym (ok-injective e)
  emitted-finish_scan (err x) s ck out e = absurd (err-ne-ok x out e)

  watermark-emitted :
      (p : String) (tie : Option String) (window : ℕ) (limit : Option ℕ)
      (items out : List (Value Float)) (ck : Checkpoint Float)
      → (filter_by_watermark serde p tie window limit items ck).0 ≡ ok out
      → (length out ≤ length items) × Within limit (length out)
  unfolding filter_by_watermark
  watermark-emitted p tie window limit items out ck e =
      let start : Scan Float = record {
        emitted = [];
        seen = ck.seen_keys;
        max_watermark = ck.watermark;
        max_tiebreaker = ck.tie_breaker;
      } in
      let run =
        scan serde window limit ck.watermark ck.tie_breaker (marks_of serde p tie) items start in
      let (n, w) =
        scan-emitted serde window limit ck.watermark ck.tie_breaker (marks_of serde p tie) items
          start (Within-zero limit) in
      subst (λ l. (length l ≤ length items) × Within limit (length l))
        (sym (emitted-finish_scan (run.0) (run.1) ck out e)) (omega (arith, n), w)

  -- What a filter emits is part of the page, and within the limit of a first look.
  pub filter_items-emitted :
      (s : Strategy) (limit : Option ℕ) (items out : List (Value Float)) (ck ck' : Checkpoint Float)
      → filter_items serde s limit items ck ≡ (ok out, ck')
      → (length out ≤ length items) × (s ≢ cursor_only → Within limit (length out))
  unfolding filter_items filter_by_item_key filter_by_content_hash
  filter_items-emitted cursor_only limit items out ck ck' e = (
    subst (λ l. length l ≤ length items) (ok-injective (ap (λ t. t.0) e)) (omega arith),
    λ n. absurd (n refl),
  )
  filter_items-emitted (item_key p w) limit items out ck ck' e =
      let r =
        keyed-emitted (item_key_of serde p) (window_of w) limit items out ck.seen_keys
          (ap (λ t. t.0) e) in
      (r.0, λ _. r.1)
  filter_items-emitted (watermark p tie w) limit items out ck ck' e =
      let r = watermark-emitted p tie (window_of w) limit items out ck (ap (λ t. t.0) e) in
      (r.0, λ _. r.1)
  filter_items-emitted (content_hash w) limit items out ck ck' e =
      let r =
        keyed-emitted (hash_of_content serde) (window_of w) limit items out ck.seen_keys
          (ap (λ t. t.0) e) in
      (r.0, λ _. r.1)

-- ===== src/Poll/Watermark/Integers.antt =====
-- `filter_by_watermark` on pages whose watermarks are integers, with no tie-breaker.
use Prim.Native.Nat.{Ordering}
use uxc.Base.{
  ℕ, String, ◌≡◌, refl, ap, ◌∙◌, Bool, true, false, not, List, [], ◌∷◌, ◌++◌, Option, none, some,
  arith, length, All, keep, if◌then◌else◌,
}
use mathlib.Core.List.{map, append-nil}
use uxc.Base.Int.{ℤ, pos, negsuc, compare_ℤ}
use uxc.Base.Result.{Result, ok}
use uxc.Json.{Value, number, from_i64, Serde}
use uxc.Poll.{PollError}
use uxc.Poll.Keys.{emit_one}
use uxc.Poll.Keys.Fresh.{room, room-nil, emit-room}
use uxc.Poll.Compare.{
  compare_json_numbers, compare_json_values, newer_by, newer_tie, is_newer_item, is_greater,
}
use uxc.Poll.Watermark.{Scan, Marks, scan_item, scan}

-- An integer as a JSON value.
abbrev pub int : {F : Type 0} → ℤ → Value F
int z = number (from_i64 z)

abbrev pub int? : {F : Type 0} → Option ℤ → Option (Value F)
int? none = none
int? (some z) = some (int z)

-- Larger than the largest so far, if there is one.
abbrev pub above : Option ℤ → ℤ → Bool
above none z = true
above (some c) z = is_greater (compare_ℤ z c)

abbrev pub larger : Option ℤ → ℤ → Option ℤ
larger c z = if above c z then some z else c

abbrev pub largest : Option ℤ → List ℤ → Option ℤ
largest c [] = c
largest c (z ∷ zs) = largest (larger c z) zs

-- The room that is left, after an item that may be new.
emit-keep :
    {A : Type 0} (new : Bool) (limit : Option ℕ) (x : A) (em ys : List A)
    → emit_one (not new) limit x em ++ room limit (length (emit_one (not new) limit x em)) ys
      ≡ em ++ room limit (length em) (if new then x ∷ ys else ys)
emit-keep true limit x em ys = emit-room limit x em ys
emit-keep false limit x em ys = refl

module _ (serde : Serde) where
  open serde use {Float}

  -- Integers are compared as such, on the whole range of `u64` and `i64`.
  pub compare_json_values-int :
      (a b : ℤ) → compare_json_values serde (int a) (int b) ≡ compare_ℤ a b
  unfolding compare_json_values compare_json_numbers
  compare_json_values-int (pos a) (pos b) = ground arith
  compare_json_values-int (pos a) (negsuc b) = ground arith
  compare_json_values-int (negsuc a) (pos b) = ground arith
  compare_json_values-int (negsuc a) (negsuc b) = ground arith

  newer_by-none :
      (o : Ordering) (tie : Option (Value Float)) → newer_by serde o none tie ≡ is_greater o
  unfolding newer_by newer_tie
  newer_by-none Ordering.lt tie = refl
  newer_by-none Ordering.eq tie = refl
  newer_by-none Ordering.gt tie = refl

  is_newer_item-above :
      (z : ℤ) (c : Option ℤ) (tie : Option (Value Float))
      → is_newer_item serde (int z) none (int? c) tie ≡ above c z
  unfolding is_newer_item
  is_newer_item-above z none tie = refl
  is_newer_item-above z (some c) tie =
      newer_by-none (compare_json_values serde (int z) (int c)) tie
      ∙ ap is_greater (compare_json_values-int z c)

  -- The marks of an item whose watermark is an integer.
  abbrev pub int_marks : ℤ → Marks Float
  int_marks z = record { watermark = int z; tiebreaker = none; seen_key = none }

  abbrev pub state : List (Value Float) → List String → Option ℤ → Scan Float
  state emitted seen c = record {
    emitted = emitted;
    seen = seen;
    max_watermark = int? c;
    max_tiebreaker = none;
  }

  module _ (window : ℕ) (limit : Option ℕ) (cur : Option ℤ) (cur_tie : Option (Value Float)) where
    scan_item-int :
        (x : Value Float) (z : ℤ) (em : List (Value Float)) (sn : List String) (c : Option ℤ)
        → scan_item serde window limit (int? cur) cur_tie x (int_marks z) (state em sn c)
          ≡ state (emit_one (not (above cur z)) limit x em) sn (larger c z)
    unfolding scan_item
    scan_item-int x z em sn c =
        rw (is_newer_item-above z cur cur_tie, is_newer_item-above z c none) (ground arith)

    module _ (read : Value Float → Result PollError (Marks Float)) (m : Value Float → ℤ) where
      scan-cons :
          (x : Value Float) (xs : List (Value Float)) (s : Scan Float) (k : Marks Float)
          → read x ≡ ok k
          → scan serde window limit (int? cur) cur_tie read (x ∷ xs) s
            ≡ scan serde window limit
                (int? cur)
                cur_tie
                read
                xs
                (scan_item serde window limit (int? cur) cur_tie x k s)
      unfolding scan
      scan-cons x xs s k e = rw (e, scan) refl

      pub scan-int :
          (items em : List (Value Float)) (sn : List String) (c : Option ℤ)
          → All (λ x. read x ≡ ok (int_marks (m x))) items
          → scan serde window limit (int? cur) cur_tie read items (state em sn c) ≡ (
            ok tt,
            state
                (em ++ room limit (length em) (keep (λ x. above cur (m x)) items))
                sn
                (largest c (map m items)),
          )
      unfolding scan
      scan-int [] em sn c h = rw (room-nil limit (length em), append-nil)
      scan-int (x ∷ xs) em sn c h =
          scan-cons x xs (state em sn c) (int_marks (m x)) h.0
          ∙ rw (scan_item-int x (m x) em sn c) (
              scan-int xs (emit_one (not (above cur (m x))) limit x em) sn (larger c (m x)) h.1
              ∙ ap (λ l. (ok tt, state l sn (largest (larger c (m x)) (map m xs))))
                  (emit-keep (above cur (m x)) limit x em (keep (λ y. above cur (m y)) xs)))

-- ===== src/Poll/Watermark/Emitted.antt =====
-- How much `filter_by_watermark` emits.
use uxc.Base.{
  inr, inl, Bool-cases, ℕ, suc, ◌+◌, ◌≤◌, ◌≡◌, refl, List, [], ◌∷◌, Option, arith, length, not,
}
use uxc.Base.Result.{Result, ok, err}
use uxc.Json.{Value, Serde}
use uxc.Poll.{PollError}
use uxc.Poll.Keys.Emitted.{Within, length-emit_one, emit_one-Within}
use uxc.Poll.Compare.{is_newer_item}
use uxc.Poll.Watermark.{Scan, already_seen, Marks, scan_item, scan}

module _ (serde : Serde) (window : ℕ) (limit : Option ℕ)
    (current current_tie : Option (Value serde.Float)) where
  open serde use {Float}

  scan_item-emitted :
      (x : Value Float) (k : Marks Float) (s : Scan Float)
      → Within limit (length s.emitted)
      → (length (scan_item serde window limit current current_tie x k s).emitted
          ≤ length s.emitted + 1)
        × Within limit (length (scan_item serde window limit current current_tie x k s).emitted)
  unfolding scan_item
  scan_item-emitted x k s h =
      let new = is_newer_item serde k.watermark k.tiebreaker current current_tie in
      elim (Bool-cases (already_seen serde k.seen_key s.seen)) [
        | inl e ↦ rw e (omega arith, h)
        | inr e ↦ rw e (
          length-emit_one (not new) limit x s.emitted,
          emit_one-Within (not new) limit x s.emitted h,
        )
      ]

  module _ (read : Value Float → Result PollError (Marks Float)) where
    pub scan-emitted :
        (items : List (Value Float)) (s : Scan Float)
        → Within limit (length s.emitted)
        → (length ((scan serde window limit current current_tie read items s).1).emitted
            ≤ length s.emitted + length items)
          × Within limit
              (length ((scan serde window limit current current_tie read items s).1).emitted)
    unfolding scan
    scan-emitted [] s h = (omega arith, h)
    scan-emitted (x ∷ xs) s h = go (read x) refl (λ t. scan-emitted xs t)
      where
        go :
            (r : Result PollError (Marks Float))
            → read x ≡ r
            → ((t : Scan Float)
                → Within limit (length t.emitted)
                → (length ((scan serde window limit current current_tie read xs t).1).emitted
                    ≤ length t.emitted + length xs)
                  × Within limit
                      (length ((scan serde window limit current current_tie read xs t).1).emitted))
            → (length ((scan serde window limit current current_tie read (x ∷ xs) s).1).emitted
                ≤ length s.emitted + suc (length xs))
              × Within limit
                  (length ((scan serde window limit current current_tie read (x ∷ xs) s).1).emitted)
        go (err e) p ih = rw (p, scan) (omega arith, h)
        go (ok k) p ih =
            let one = scan_item-emitted x k s h in
            let rest = ih (scan_item serde window limit current current_tie x k s) one.1 in
            rw (p, scan) (omega (arith, rest.0, one.0), rest.1)

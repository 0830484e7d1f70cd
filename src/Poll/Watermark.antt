-- ===== src/Poll/Watermark.antt =====
-- src/subscription_poll.rs: `filter_by_watermark`. The loop carries the items emitted, the seen
-- keys and the largest watermark with its tie-breaker; the last two reach the checkpoint only at
-- the end of the page, the seen keys at once.
pub mod Integers
pub mod Largest
pub mod Emitted
use uxc.Base.{ℕ, String, Bool, false, not, List, [], ◌∷◌, ◌++◌, Option, none, some, if◌then◌else◌}
use uxc.Base.Result.{Result, ok, err, ok_or, ◌>>=◌}
use uxc.Json.{Value, Serde}
use uxc.Poll.{PollError, watermark_unresolved, tiebreaker_unresolved, not_serializable}
use uxc.Poll.Keys.{contains, push_seen_key, emit_one}
use uxc.Poll.Compare.{is_newer_item}

-- The mutable variables of the loop.
pub record Scan (F : Type 0) : Type 0 where
  pub emitted : List (Value F)
  pub seen : List String
  pub max_watermark : Option (Value F)
  pub max_tiebreaker : Option (Value F)

-- What the loop reads of one item.
pub record Marks (F : Type 0) : Type 0 where
  pub watermark : Value F
  pub tiebreaker : Option (Value F)
  pub seen_key : Option String

module _ (serde : Serde) where
  open serde use {Float, pointer, to_string}

  unfoldable pub canonical_pair : Value Float → Value Float → Result PollError String
  canonical_pair left right = do
    l ← ok_or (to_string left) not_serializable
    r ← ok_or (to_string right) not_serializable
    ok (Prim.Native.String.◌++◌ l (Prim.Native.String.◌++◌ ":" r))

  tiebreaker_of : Option String → Value Float → Result PollError (Option (Value Float))
  tiebreaker_of none item = ok none
  tiebreaker_of (some p) item = do
    tie ← ok_or (pointer p item) (tiebreaker_unresolved p)
    ok (some tie)

  seen_key_of : Value Float → Option (Value Float) → Result PollError (Option String)
  seen_key_of mark none = ok none
  seen_key_of mark (some tie) = do key ← canonical_pair mark tie; ok (some key)

  unfoldable pub marks_of : String → Option String → Value Float → Result PollError (Marks Float)
  unfolding tiebreaker_of seen_key_of
  marks_of watermark_pointer tiebreaker_pointer item = do
    mark ← ok_or (pointer watermark_pointer item) (watermark_unresolved watermark_pointer)
    tie ← tiebreaker_of tiebreaker_pointer item
    key ← seen_key_of mark tie
    ok (record { watermark = mark; tiebreaker = tie; seen_key = key })

  -- `if let Some(key) = seen_key { if seen_keys.contains(key) { continue } }`
  abbrev pub already_seen : Option String → List String → Bool
  already_seen none seen = false
  already_seen (some key) seen = contains seen key

  abbrev pub remember : Option String → List String → ℕ → List String
  remember none seen window = seen
  remember (some key) seen window = push_seen_key seen key window

  module _ (window : ℕ) (limit : Option ℕ) (current current_tie : Option (Value Float)) where
    -- One turn of the loop for an item that has its marks.
    unfoldable pub scan_item : Value Float → Marks Float → Scan Float → Scan Float
    scan_item item m s =
        let newer = is_newer_item serde m.watermark m.tiebreaker current current_tie in
        let largest =
          is_newer_item serde m.watermark m.tiebreaker s.max_watermark s.max_tiebreaker in
        if already_seen m.seen_key s.seen then s else record {
          emitted = emit_one (not newer) limit item s.emitted;
          seen = if newer then remember m.seen_key s.seen window else s.seen;
          max_watermark = if largest then some m.watermark else s.max_watermark;
          max_tiebreaker = if largest then m.tiebreaker else s.max_tiebreaker;
        }

    -- The loop, over what reads an item.
    unfoldable pub scan :
        (Value Float → Result PollError (Marks Float))
        → List (Value Float)
        → Scan Float
        → Result PollError (Unit {0}) × Scan Float
    scan read [] s = (ok tt, s)
    scan read (item ∷ items) s = elim (read item) [
      | err e ↦ (err e, s)
      | ok m ↦ scan read items (scan_item item m s)
    ]

-- ===== src/Daemon/Frames.antt =====
-- src/daemon.rs: how the events of an HTTP subscription are taken out of the text that has come so far,
-- by lines (NDJSON) and by the blocks of server-sent events. A text is the list of its characters;
-- positions count characters where the code counts bytes. The parser of JSON is an argument: `none` is
-- an error.
pub mod Chunks
pub mod Cuts
pub mod Stream
mod Tests
use uxc.Base.{
  ℕ, zero, suc, ◌+◌, ◌*◌, String, ◌||◌, Option, none, some, List, [], ◌∷◌, ◌++◌, ltb, ◌==◌,
  if◌then◌else◌, is_some, or_else, length, take, drop, is_empty,
}
use uxc.Base.Result.{Result, ok, err}
use uxc.Base.Text.{
  codes, byte_len, find_text, strip_prefix, trim_end_matches, trim, trim_start, same_text,
}

abbrev pub Text : Type 0
Text = List ℕ

-- `SUBSCRIPTION_MAX_BUFFER_BYTES`
abbrev pub max_buffer_bytes : ℕ
max_buffer_bytes = 1024 * 1024

pub data FrameError : Type 0 where
  not_json : Text → FrameError
  buffer_exceeded : String → FrameError

unfoldable pub ensure_subscription_buffer_limit : ℕ → String → Result FrameError (Unit {0})
ensure_subscription_buffer_limit len kind =
    if ltb max_buffer_bytes len then err (buffer_exceeded kind) else ok tt

-- The front of a buffer before a position, and what is left behind a delimiter there.
unfoldable pub cut_at : Option (ℕ × ℕ) → Text → Option (Text × Text)
cut_at none buffer = none
cut_at (some (pos, len)) buffer = some (take pos buffer, drop (pos + len) buffer)

abbrev with_len : ℕ → Option ℕ → Option (ℕ × ℕ)
with_len len none = none
with_len len (some pos) = some (pos, len)

unfoldable pub sse_delimiter : Text → Option (ℕ × ℕ)
sse_delimiter input =
    or_else (with_len 4 (find_text (codes "\r\n\r\n") input))
      (with_len 2 (find_text (codes "\n\n") input))

unfoldable pub next_block : Text → Option (Text × Text)
next_block buffer = cut_at (sse_delimiter buffer) buffer

unfoldable pub next_line : Text → Option (Text × Text)
next_line buffer = cut_at (with_len 1 (find_text (codes "\n") buffer)) buffer

abbrev onto_first : ℕ → List Text → List Text
onto_first c [] = (c ∷ []) ∷ []
onto_first c (l ∷ ls) = (c ∷ l) ∷ ls

-- `str::lines`, without the carriage returns that are trimmed next.
abbrev pub lines : Text → List Text
lines [] = []
lines (c ∷ cs) = if c == 10 then [] ∷ lines cs else onto_first c (lines cs)

unfoldable pub data_of : Option Text → List Text → List Text
data_of none rest = rest
data_of (some data_text) rest = trim_start data_text ∷ rest

-- The data of a block's lines; empty lines, comments and other fields are passed over.
unfoldable pub data_lines : List Text → List Text
data_lines [] = []
data_lines (raw ∷ ls) =
    let line = trim_end_matches 13 raw in
    let rest = data_lines ls in
    if is_empty line || is_some (strip_prefix (codes ":") line)
    then rest
    else data_of (strip_prefix (codes "data:") line) rest

-- `join("\n")`
abbrev pub join_lines : List Text → Text
join_lines [] = []
join_lines (l ∷ []) = l
join_lines (l ∷ k ∷ ls) = l ++ 10 ∷ join_lines (k ∷ ls)

module _ {V : Type 0} (from_str : Text → Option V) where
  unfoldable pub parse : Text → Result FrameError (Option V)
  parse text = elim (from_str text) [ none ↦ err (not_json text) | some v ↦ ok (some v) ]

  -- A block without data, or with the end mark, is passed over.
  unfoldable pub handle_data : List Text → Result FrameError (Option V)
  handle_data [] = ok none
  handle_data (l ∷ ls) =
      let payload = join_lines (l ∷ ls) in
      if same_text payload (codes "[DONE]") then ok none else parse payload

  unfoldable pub handle_block : Text → Result FrameError (Option V)
  handle_block chunk = handle_data (data_lines (lines chunk))

  unfoldable pub handle_line : Text → Result FrameError (Option V)
  handle_line frame =
      let line = trim (trim_end_matches 13 frame) in if is_empty line then ok none else parse line

-- `events.push(value)`, unless the frame is passed over
abbrev pub push_value : {V : Type 0} → Option V → List V → List V
push_value none events = events
push_value (some v) events = events ++ v ∷ []

module _ {V : Type 0} (next : Text → Option (Text × Text))
    (handle : Text → Result FrameError (Option V)) (kind : String) where
  unfoldable pub end_of_buffer : Text → List V → Result FrameError (List V)
  end_of_buffer buffer events = elim (ensure_subscription_buffer_limit (byte_len buffer) kind) [
    | err e ↦ err e
    | ok _ ↦ ok events
  ]

  -- The loop of both functions, on fuel: the result and the buffer that is left.
  unfoldable pub drain_frames : ℕ → Text → List V → Option (Result FrameError (List V) × Text)
  drain_frames zero buffer events = none
  drain_frames (suc fuel) buffer events = elim (next buffer) [
    | none ↦ some (end_of_buffer buffer events, buffer)
    | some (frame, rest) ↦ elim (handle frame) [
      | err e ↦ some (err e, rest)
      | ok value ↦ drain_frames fuel rest (push_value value events)
    ]
  ]

  unfoldable pub drain : Text → Option (Result FrameError (List V) × Text)
  drain buffer = drain_frames (suc (length buffer)) buffer []

module _ {V : Type 0} (from_str : Text → Option V) where
  unfoldable pub drain_sse_json_events : Text → Option (Result FrameError (List V) × Text)
  drain_sse_json_events buffer = drain next_block (handle_block from_str) "sse" buffer

  unfoldable pub drain_ndjson_events : Text → Option (Result FrameError (List V) × Text)
  drain_ndjson_events buffer = drain next_line (handle_line from_str) "ndjson" buffer

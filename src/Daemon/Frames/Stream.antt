-- ===== src/Daemon/Frames/Stream.antt =====
-- What a stream of events gives does not depend on the pieces in which its text came.
use uxc.Base.{◌<◌, ◌≡◌, sym, ◌∙◌, Option, some, List, [], ◌++◌, arith, length, All-drop, subst}
use uxc.Base.Result.{Result, ok}
use uxc.Base.Text.{codes}
use uxc.Daemon.Frames.{
  Text, FrameError, next_block, next_line, handle_block, handle_line, drain_sse_json_events,
  drain_ndjson_events, drain,
}
use uxc.Daemon.Frames.Chunks.{with_events, loop_total, drain_chunks}
use uxc.Daemon.Frames.Cuts.{
  cut_by-append, cut_by-shorter, cut_by-rest, next_line-cut, next_block-cut, next_block-shorter,
  NoReturns, NoReturns-front,
}

next_line-shorter : (b f r : Text) → next_line b ≡ some (f, r) → length r < length b
next_line-shorter b f r e =
    cut_by-shorter (codes "\n") b f r (omega arith) (sym (next_line-cut b) ∙ e)

next_line-append :
    (b c f r : Text) → Unit {0} → next_line b ≡ some (f, r) → next_line (b ++ c) ≡ some (f, r ++ c)
next_line-append b c f r g e =
    next_line-cut (b ++ c)
    ∙ cut_by-append (codes "\n") b c f r (omega arith) (sym (next_line-cut b) ∙ e)

next_block-append :
    (b c f r : Text)
    → NoReturns (b ++ c)
    → next_block b ≡ some (f, r)
    → next_block (b ++ c) ≡ some (f, r ++ c)
next_block-append b c f r g e =
    next_block-cut (b ++ c) g
    ∙ cut_by-append (codes "\n\n") b c f r (omega arith)
        (sym (next_block-cut b (NoReturns-front b c g)) ∙ e)

next_block-rest : (b f r : Text) → next_block b ≡ some (f, r) → NoReturns b → NoReturns r
next_block-rest b f r e g =
    subst NoReturns (cut_by-rest (codes "\n\n") b f r (sym (next_block-cut b g) ∙ e)).1
      (All-drop _ (cut_by-rest (codes "\n\n") b f r (sym (next_block-cut b g) ∙ e)).0 b g)

module _ {V : Type 0} (from_str : Text → Option V) where
  -- The draining has a result for every buffer, by blocks and by lines, whatever the parser of JSON
  -- says: the fuel, one more than the length of the buffer, is enough.
  drain_events_total :
      (buffer : Text)
      → ((r : Result FrameError (List V) × Text) × (drain_sse_json_events from_str buffer ≡ some r))
        × ((r : Result FrameError (List V) × Text) × (drain_ndjson_events from_str buffer ≡ some r))
  unfolding drain_sse_json_events drain_ndjson_events drain
  drain_events_total buffer = (
    loop_total next_block (handle_block from_str) "sse" next_block-shorter _ buffer []
        (omega arith),
    loop_total next_line (handle_line from_str) "ndjson" next_line-shorter _ buffer []
        (omega arith),
  )

  -- However the text of an NDJSON stream is cut in two: when the first part is drained without an
  -- error, the events of the whole are those of the first part and then those of what it left with
  -- the second part behind it, and the whole leaves or fails with what that leaves or fails with.
  pub drain_ndjson_events-append :
      (first second rest : Text) (events : List V)
      → drain_ndjson_events from_str first ≡ some (ok events, rest)
      → drain_ndjson_events from_str (first ++ second)
        ≡ with_events events (drain_ndjson_events from_str (rest ++ second))
  unfolding drain_ndjson_events
  drain_ndjson_events-append first second rest events e =
      drain_chunks next_line (handle_line from_str) "ndjson" next_line-shorter (λ t. Unit {0})
        (λ b f r q g. g) next_line-append first second events rest tt e

  -- The same of a stream of server-sent events whose text has no carriage return.
  pub drain_sse_json_events-append :
      (first second rest : Text) (events : List V)
      → NoReturns (first ++ second)
      → drain_sse_json_events from_str first ≡ some (ok events, rest)
      → drain_sse_json_events from_str (first ++ second)
        ≡ with_events events (drain_sse_json_events from_str (rest ++ second))
  unfolding drain_sse_json_events
  drain_sse_json_events-append first second rest events g e =
      drain_chunks next_block (handle_block from_str) "sse" next_block-shorter NoReturns
        next_block-rest next_block-append first second events rest g e

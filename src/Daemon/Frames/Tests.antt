-- ===== src/Daemon/Frames/Tests.antt =====
-- The theorems on the frames at inputs, with the numbers in the place of JSON values.
use uxc.Base.{◌≡◌, refl, some, [], ◌∷◌, ◌++◌, arith}
use uxc.Base.Result.{ok, err}
use uxc.Base.Text.{codes, find_text}
use uxc.Daemon.Frames.{
  not_json, cut_at, sse_delimiter, next_block, next_line, data_of, data_lines, parse, handle_data,
  handle_block, handle_line, end_of_buffer, ensure_subscription_buffer_limit, drain_frames, drain,
  drain_sse_json_events, drain_ndjson_events,
}
use uxc.Daemon.Frames.Chunks.{with_events}
use uxc.Daemon.Frames.Stream.{drain_ndjson_events-append, drain_sse_json_events-append}
use uxc.Daemon.PollLoop.HeaderMap.{parse_u64, parse_digits}

first_lines : drain_ndjson_events parse_u64 (codes "1\n2") ≡ some (ok (1 ∷ []), codes "2")
unfolding drain_ndjson_events drain drain_frames next_line handle_line cut_at find_text parse
    parse_u64 parse_digits end_of_buffer ensure_subscription_buffer_limit
first_lines = refl

drain_ndjson_events-append_example :
    drain_ndjson_events parse_u64 (codes "1\n2" ++ codes "3\n4")
    ≡ with_events (1 ∷ []) (drain_ndjson_events parse_u64 (codes "2" ++ codes "3\n4"))
drain_ndjson_events-append_example =
    drain_ndjson_events-append parse_u64 (codes "1\n2") (codes "3\n4") (codes "2") (1 ∷ [])
      first_lines

first_blocks :
    drain_sse_json_events parse_u64 (codes "data: 1\n\ndata") ≡ some (ok (1 ∷ []), codes "data")
unfolding drain_sse_json_events drain drain_frames next_block sse_delimiter handle_block handle_data
    data_lines data_of cut_at find_text parse parse_u64 parse_digits end_of_buffer
    ensure_subscription_buffer_limit
first_blocks = refl

drain_sse_json_events-append_example :
    drain_sse_json_events parse_u64 (codes "data: 1\n\ndata" ++ codes ": 2\n\n")
    ≡ with_events (1 ∷ []) (drain_sse_json_events parse_u64 (codes "data" ++ codes ": 2\n\n"))
drain_sse_json_events-append_example =
    drain_sse_json_events-append parse_u64 (codes "data: 1\n\ndata") (codes ": 2\n\n")
      (codes "data") (1 ∷ []) (ground arith) first_blocks

-- Two events with different ends of lines are taken for one.
mixed_ends :
    drain_sse_json_events parse_u64 (codes "data: 1\n\ndata: 2\r\n\r\n")
    ≡ some (err (not_json (codes "1\n2")), [])
unfolding drain_sse_json_events drain drain_frames next_block sse_delimiter handle_block handle_data
    data_lines data_of cut_at find_text parse parse_u64 parse_digits end_of_buffer
    ensure_subscription_buffer_limit
mixed_ends = refl

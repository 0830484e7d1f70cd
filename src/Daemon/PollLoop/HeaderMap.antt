-- ===== src/Daemon/PollLoop/HeaderMap.antt =====
-- src/subscription_poll.rs: the headers of a response. A map of headers is the list of its entries, in
-- the order in which the map is iterated.
use uxc.Base.Text.{lower_codes, same_text, codes, trim_start, trim_end}
use uxc.Base.{
  ℕ, ◌+◌, ◌-◌, ◌*◌, min, max, String, ◌&&◌, Option, none, some, List, [], ◌∷◌, leb, ◌==◌,
  if◌then◌else◌, or_else, u64_max,
}

abbrev pub Headers : Type 0
Headers = List (String × String)

-- `HashMap::get`, with the characters of the key
unfoldable pub get_header : List ℕ → Headers → Option String
get_header name [] = none
get_header name (h ∷ hs) = if same_text (codes h.0) name then some h.1 else get_header name hs

-- `iter().find(|(key, _)| key.eq_ignore_ascii_case(name))`
unfoldable pub find_header : String → Headers → Option String
find_header name [] = none
find_header name (h ∷ hs) =
    if same_text (lower_codes h.0) (lower_codes name) then some h.1 else find_header name hs

unfoldable pub extract_header_value : Headers → String → Option String
extract_header_value headers name =
    or_else (get_header (lower_codes name) headers) (find_header name headers)

-- The digits of `str::parse::<u64>`, after the number read so far.
unfoldable pub parse_digits : List ℕ → ℕ → Option ℕ
parse_digits [] n = some n
parse_digits (c ∷ cs) n =
    let m = n * 10 + (c - 48) in
    let rest = parse_digits cs m in if leb 48 c && leb c 57 && leb m u64_max then rest else none

-- `str::parse::<u64>`: a sign `+` may stand before the digits, of which there is one at least.
unfoldable pub parse_u64 : List ℕ → Option ℕ
parse_u64 [] = none
parse_u64 (c ∷ []) = parse_digits (c ∷ []) 0
parse_u64 (c ∷ d ∷ cs) = if c == 43 then parse_digits (d ∷ cs) 0 else parse_digits (c ∷ d ∷ cs) 0

abbrev pub clamp : ℕ → ℕ → ℕ → ℕ
clamp low high n = max low (min n high)

abbrev pub clamp_interval : Option ℕ → Option ℕ
clamp_interval none = none
clamp_interval (some n) = some (clamp 1 3600 n)

unfoldable pub parsed_interval : Option String → Option ℕ
parsed_interval none = none
parsed_interval (some raw) = clamp_interval (parse_u64 (trim_end (trim_start (codes raw))))

unfoldable pub parse_poll_interval_secs : Headers → Option ℕ
parse_poll_interval_secs headers = parsed_interval (extract_header_value headers "x-poll-interval")

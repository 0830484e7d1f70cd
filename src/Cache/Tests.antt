-- ===== src/Cache/Tests.antt =====
-- Each theorem on the cache at an input, with small functions in the place of Rust's library.
use uxc.Base.{◌+◌, Bool, ℕ, String, true, Option, none, some, [], ◌∷◌, str_eq, if◌then◌else◌}
use uxc.Cache.Listing.{ListEntry}
use uxc.Json.{null}
use uxc.Cache.{Entry, Host, Cache}

abbrev small_hash : String → String
small_hash url = if str_eq url "https://a.example" then "a1" else "b2"

abbrev small_extension : String → Option String
small_extension name =
    if str_eq name "a1.json"
    then some "json"
    else if str_eq name "b2.json"
    then some "json"
    else none

abbrev small_host : Host
small_host = record {
  hash_hex = small_hash;
  to_lowercase = λ s. s;
  trim = λ s. s;
  contains = str_eq;
  starts_with = str_eq;
  ends_with = str_eq;
  all_normal = λ s. true;
  extension = small_extension;
  strip_suffix = λ s suffix. none;
}

abbrev cache : Cache ℕ
cache = record { enabled = true; ttl = 60; files = []; hits = 4; misses = 2 }

abbrev filled : Cache ℕ
filled = record cache {
  files =
      record { name = "b2.json"; content = none }
      ∷ record { name = "a1.json"; content = none }
      ∷ [];
}

abbrev entry : ℕ → Entry ℕ
entry at = record {
  url = "https://a.example";
  schema = null;
  fetched_at = at;
  expires_at = at + 60;
  etag = none;
  protocol = "openapi";
}

abbrev two_entries : Cache ℕ
two_entries = record cache {
  files =
      record { name = "a1.json"; content = some (entry 100) }
      ∷ record { name = "b2.json"; content = some (entry 200) }
      ∷ [];
}

abbrev is_stale : ListEntry → Bool
is_stale e = e.stale

-- ===== src/Cache/Listing.antt =====
-- src/cache/storage.rs: `list_entries`.
pub mod Sorted
use uxc.Base.{ℕ, String, Bool, Option, none, some, List, [], ◌∷◌, leb, if◌then◌else◌}
use uxc.Cache.{cache_key_to_id, Host, Entry, File, Cache, is_json, is_expired}

-- `CacheListEntry`
pub record ListEntry : Type 0 where
  pub key : String
  pub url : String
  pub protocol : String
  pub fetched_at : ℕ
  pub expires_at : ℕ
  pub stale : Bool
  pub size_bytes : ℕ

-- `sort_by_key(|entry| Reverse(entry.fetched_at))`, which is stable
unfoldable pub insert_newest : ListEntry → List ListEntry → List ListEntry
insert_newest e [] = e ∷ []
insert_newest e (f ∷ fs) =
    if leb f.fetched_at e.fetched_at then e ∷ f ∷ fs else f ∷ insert_newest e fs

unfoldable pub sort_newest : List ListEntry → List ListEntry
unfolding insert_newest
sort_newest [] = []
sort_newest (e ∷ es) = insert_newest e (sort_newest es)

-- The size of an entry, the length of its JSON text, is a parameter.
module _ {F : Type 0} (host : Host) (size : Entry F → ℕ) (now : ℕ) where
  abbrev pub listed : String → Entry F → ListEntry
  listed name e = record {
    key = cache_key_to_id host name;
    url = e.url;
    protocol = e.protocol;
    fetched_at = e.fetched_at;
    expires_at = e.expires_at;
    stale = is_expired e now;
    size_bytes = size e;
  }

  abbrev list_content : String → Option (Entry F) → List ListEntry → List ListEntry
  list_content name none rest = rest
  list_content name (some e) rest = listed name e ∷ rest

  -- The loop of `list_entries`.
  unfoldable pub collect : List (File F) → List ListEntry
  collect [] = []
  collect (f ∷ fs) =
      if is_json host f then list_content f.name f.content (collect fs) else collect fs

  unfoldable pub list_entries : Cache F → List ListEntry
  list_entries c = sort_newest (collect c.files)

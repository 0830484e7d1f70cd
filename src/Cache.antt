-- ===== src/Cache.antt =====
-- src/cache/mod.rs and src/cache/storage.rs: the schema cache. The cache directory is the list of its
-- files in the order in which it is read; a file holds an entry, or text that does not parse. What
-- fails in the file system is not modelled: a write, a removal and a reading of the directory succeed.
pub mod Found
pub mod Listing
mod Tests
use uxc.Base.{
  ◌^◌, ◌%◌, ℕ, ◌+◌, String, Bool, true, false, not, ◌&&◌, ◌||◌, Option, none, some, List, [], ◌∷◌,
  ◌++◌, str_eq, leb, if◌then◌else◌, unwrap_or, find, keep,
}
use uxc.Base.Result.{Result, ok, bail_if, ◌>>=◌, ◌>>◌}
use uxc.Json.{Value}

-- The operations on texts and paths, and the hash of a url in lower-case hexadecimal, that the code
-- calls of Rust's library.
pub record Host : Type 0 where
  pub hash_hex : String → String
  pub to_lowercase : String → String
  pub trim : String → String
  pub contains : String → String → Bool
  pub starts_with : String → String → Bool
  pub ends_with : String → String → Bool
  -- whether all components of a path are normal
  pub all_normal : String → Bool
  -- `Path::extension`
  pub extension : String → Option String
  pub strip_suffix : String → String → Option String

-- `CacheEntry`
pub record Entry (F : Type 0) : Type 0 where
  pub url : String
  pub schema : Value F
  pub fetched_at : ℕ
  pub expires_at : ℕ
  pub etag : Option String
  pub protocol : String

-- A file of the directory: `none` is a file that does not parse.
pub record File (F : Type 0) : Type 0 where
  pub name : String
  pub content : Option (Entry F)

-- `CacheReadPolicy`
pub data ReadPolicy : Type 0 where
  normal_ttl : ReadPolicy
  allow_stale : ReadPolicy

-- `CacheHit`
pub record Hit (F : Type 0) : Type 0 where
  pub schema : Value F
  pub fetched_at : ℕ
  pub stale : Bool

-- `CacheLookup`
pub data Lookup (F : Type 0) : Type 0 where
  hit : Hit F → Lookup F
  miss : Lookup F
  bypassed : Lookup F

-- `CacheResult`
pub data CacheResult (F : Type 0) : Type 0 where
  result_hit : Value F → CacheResult F
  result_miss : CacheResult F
  result_bypassed : CacheResult F

-- `SchemaCache`: its configuration, the directory and the counters of hits and misses.
pub record Cache (F : Type 0) : Type 0 where
  pub enabled : Bool
  pub ttl : ℕ
  pub files : List (File F)
  pub hits : ℕ
  pub misses : ℕ

pub data CacheError : Type 0 where
  key_empty : CacheError
  key_has_dots : CacheError
  key_has_separators : CacheError
  key_has_colon : CacheError
  key_not_a_file : CacheError

abbrev pub is_named : {F : Type 0} → String → File F → Bool
is_named name f = str_eq f.name name

-- `load_entry`: no file, a file that does not parse, an entry
pub data Loaded (F : Type 0) : Type 0 where
  absent : Loaded F
  unreadable : Loaded F
  loaded : Entry F → Loaded F

abbrev loaded_of : {F : Type 0} → Option (File F) → Loaded F
loaded_of none = absent
loaded_of (some f) = elim f.content [ none ↦ unreadable | some e ↦ loaded e ]

abbrev pub is_expired : {F : Type 0} → Entry F → ℕ → Bool
is_expired e now = leb e.expires_at now

abbrev has_json : Option String → Bool
has_json none = false
has_json (some ext) = str_eq ext "json"

abbrev is_normal_ttl : ReadPolicy → Bool
is_normal_ttl normal_ttl = true
is_normal_ttl allow_stale = false

module _ {F : Type 0} where
  unfoldable pub load_entry : String → List (File F) → Loaded F
  load_entry name files = loaded_of (find (is_named name) files)

  -- A file that is there is replaced.
  unfoldable pub save_entry : String → Entry F → List (File F) → List (File F)
  save_entry name e [] = record { name = name; content = some e } ∷ []
  save_entry name e (f ∷ fs) =
      if is_named name f
      then record { name = name; content = some e } ∷ fs
      else f ∷ save_entry name e fs

  unfoldable pub delete_entry : String → List (File F) → List (File F)
  delete_entry name files = keep (λ f. not (is_named name f)) files

  abbrev record_hit : Cache F → Cache F
  record_hit c = record c { hits = c.hits + 1 }

  abbrev record_miss : Cache F → Cache F
  record_miss c = record c { misses = c.misses + 1 }

  -- The match of `get_with_policy` on what was loaded.
  unfoldable pub look_up : ReadPolicy → ℕ → Loaded F → Cache F → Lookup F × Cache F
  look_up policy now absent c = (miss, record_miss c)
  look_up policy now unreadable c = (miss, record_miss c)
  look_up policy now (loaded e) c =
      if is_expired e now && is_normal_ttl policy then (miss, record_miss c) else (
        hit (record { schema = e.schema; fetched_at = e.fetched_at; stale = is_expired e now }),
        record_hit c,
      )

  -- `CacheEntry::new`. The sum is one of 64-bit integers, which wraps.
  abbrev pub new_entry : String → Value F → ℕ → ℕ → String → Entry F
  new_entry url schema ttl now protocol = record {
    url = url;
    schema = schema;
    fetched_at = now;
    expires_at = (now + ttl) % 2 ^ 64;
    etag = none;
    protocol = protocol;
  }

  abbrev result_of : Lookup F → CacheResult F
  result_of (hit h) = result_hit h.schema
  result_of miss = result_miss
  result_of bypassed = result_bypassed

module _ (host : Host) where
  open host use {
    hash_hex, to_lowercase, trim, contains, starts_with, ends_with, all_normal, extension,
    strip_suffix,
  }

  -- `generate_cache_key`
  unfoldable pub cache_key : String → String
  cache_key url = Prim.Native.String.◌++◌ (hash_hex url) ".json"

  -- `cache_key_to_id`
  unfoldable pub cache_key_to_id : String → String
  cache_key_to_id key = unwrap_or (strip_suffix key ".json") key

  unfoldable pub detect_protocol : String → String
  detect_protocol url =
      let lower = to_lowercase url in
      if contains lower "grpc" || starts_with lower "grpc://"
      then "grpc"
      else if contains lower "graphql" || ends_with lower "/graphql"
      then "graphql"
      else if contains lower "mcp" || contains lower "model-context-protocol"
      then "mcp"
      else "openapi"

  unfoldable pub normalize_cache_key_input : String → Result CacheError String
  normalize_cache_key_input key = do
    let trimmed = trim key
    bail_if (str_eq trimmed "") key_empty
    bail_if (contains trimmed "..") key_has_dots
    bail_if (contains trimmed "/" || contains trimmed "\\") key_has_separators
    bail_if (contains trimmed ":") key_has_colon
    bail_if (not (all_normal trimmed)) key_not_a_file
    ok (if ends_with trimmed ".json" then trimmed else Prim.Native.String.◌++◌ trimmed ".json")

  abbrev pub is_json : {F : Type 0} → File F → Bool
  is_json f = has_json (extension f.name)

  module _ {F : Type 0} where
    unfoldable pub get_with_policy : String → ReadPolicy → ℕ → Cache F → Lookup F × Cache F
    get_with_policy url policy now c =
        if not c.enabled
        then (bypassed, c)
        else look_up policy now (load_entry (cache_key url) c.files) c

    unfoldable pub get : String → ℕ → Cache F → CacheResult F × Cache F
    get url now c = let (found, c') = get_with_policy url normal_ttl now c in (result_of found, c')

    unfoldable pub put_with_ttl : String → Value F → ℕ → ℕ → Cache F → Cache F
    put_with_ttl url schema ttl now c = if not c.enabled then c else record c {
      files =
          save_entry (cache_key url) (new_entry url schema ttl now (detect_protocol url)) c.files;
    }

    unfoldable pub put : String → Value F → ℕ → Cache F → Cache F
    put url schema now c = if not c.enabled then c else put_with_ttl url schema c.ttl now c

    unfoldable pub invalidate : String → Cache F → Cache F
    invalidate url c = record c { files = delete_entry (cache_key url) c.files }

    unfoldable pub invalidate_by_key : String → Cache F → Result CacheError (Cache F)
    invalidate_by_key key c = do
      normalized ← normalize_cache_key_input key
      ok (record c { files = delete_entry normalized c.files })

    unfoldable pub clear : Cache F → Cache F
    clear c = record c { files = keep (λ f. not (is_json f)) c.files; hits = 0; misses = 0 }

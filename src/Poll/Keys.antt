-- ===== src/Poll/Keys.antt =====
-- src/subscription_poll.rs: the window of seen keys, and the two filters that record a key for
-- every item, `filter_by_item_key` and `filter_by_content_hash`. A filter returns its result, and
-- the seen keys as it leaves them, also when it fails.
pub mod Window
pub mod Fresh
pub mod Emitted
use uxc.Base.{
  ℕ, String, Bool, true, false, List, [], ◌∷◌, ◌++◌, Option, none, some, length, leb, str_eq,
  if◌then◌else◌,
}
use uxc.Base.Window.{pop_to}
use uxc.Base.Result.{Result, ok, err, ok_or, ◌>>=◌}
use uxc.Json.{Value, Serde}
use uxc.Poll.{PollError, item_key_unresolved, not_serializable}

-- `VecDeque::contains`
unfoldable pub contains : List String → String → Bool
contains [] key = false
contains (k ∷ keys) key = if str_eq k key then true else contains keys key

unfoldable pub push_seen_key : List String → String → ℕ → List String
push_seen_key buffer key window = pop_to window (buffer ++ key ∷ [])

-- `baseline_limit.is_some_and(|limit| emitted.len() >= limit)`
abbrev pub reached {ℓ} : {A : Type ℓ} → Option ℕ → List A → Bool
reached none emitted = false
reached (some limit) emitted = leb limit (length emitted)

-- An item that is new is emitted, unless the limit is reached.
abbrev pub emit_one {ℓ} : {A : Type ℓ} → Bool → Option ℕ → A → List A → List A
emit_one old limit item emitted =
    if old then emitted else if reached limit emitted then emitted else emitted ++ item ∷ []

-- The loop of the two filters, over what computes the key of an item.
module _ {A : Type 0} (key_of : A → Result PollError String) (window : ℕ) (limit : Option ℕ) where
  unfoldable pub filter_by_key :
      List A → List A → List String → Result PollError (List A) × List String
  filter_by_key [] emitted seen = (ok emitted, seen)
  filter_by_key (item ∷ items) emitted seen = elim (key_of item) [
    | err e ↦ (err e, seen)
    | ok key ↦
        filter_by_key items (emit_one (contains seen key) limit item emitted)
          (if contains seen key then seen else push_seen_key seen key window)
  ]

module _ (serde : Serde) where
  open serde use {Float, pointer, to_string, to_vec, sha256_hex}

  unfoldable pub canonical_key : Value Float → Result PollError String
  canonical_key v = ok_or (to_string v) not_serializable

  unfoldable pub item_key_of : String → Value Float → Result PollError String
  item_key_of p item = do v ← ok_or (pointer p item) (item_key_unresolved p); canonical_key v

  unfoldable pub hash_of_content : Value Float → Result PollError String
  hash_of_content item = do bytes ← ok_or (to_vec item) not_serializable; ok (sha256_hex bytes)

  unfoldable pub filter_by_item_key :
      String
      → ℕ
      → Option ℕ
      → List (Value Float)
      → List String
      → Result PollError (List (Value Float)) × List String
  filter_by_item_key p window limit items seen =
      filter_by_key (item_key_of p) window limit items [] seen

  unfoldable pub filter_by_content_hash :
      ℕ
      → Option ℕ
      → List (Value Float)
      → List String
      → Result PollError (List (Value Float)) × List String
  filter_by_content_hash window limit items seen =
      filter_by_key hash_of_content window limit items [] seen

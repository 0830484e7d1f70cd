-- ===== src/Poll/Etag.antt =====
-- src/subscription_poll.rs: when a stored ETag is cleared before the next fetch.
pub mod Stale
use uxc.Base.{ℕ, ◌-◌, Option, none, some, leb, if◌then◌else◌}
use uxc.Poll.{Checkpoint}

-- `MANAGED_SOURCE_ETAG_TTL_SECS`
abbrev pub etag_ttl_secs : ℕ
etag_ttl_secs = 600

-- `MANAGED_SOURCE_ETAG_MAX_CONSECUTIVE_304`
abbrev pub etag_max_consecutive_304 : ℕ
etag_max_consecutive_304 = 3

-- `EtagInvalidationReason`
pub data InvalidationReason : Type 0 where
  ttl_expired : InvalidationReason
  consecutive_304_exceeded : InvalidationReason

module _ {F : Type 0} where
  unfoldable pub invalidate_since : Checkpoint F → ℕ → Option ℕ → Option InvalidationReason
  invalidate_since c now none = some ttl_expired
  invalidate_since c now (some set_at) =
      if leb etag_ttl_secs (now - set_at)
      then some ttl_expired
      else if leb etag_max_consecutive_304 c.consecutive_304_count
      then some consecutive_304_exceeded
      else none

  unfoldable pub should_invalidate_etag : Checkpoint F → ℕ → Option InvalidationReason
  unfolding invalidate_since
  should_invalidate_etag c now = elim c.etag [
    | none ↦ none
    | some etag ↦ invalidate_since c now c.etag_set_at_unix
  ]

-- ===== src/Poll/Etag/Stale.antt =====
-- When the stored ETag counts as fresh.
use uxc.Base.{ℕ, ◌+◌, ◌<◌, String, ◌≡◌, ◌↔◌, Option, none, some, arith}
use uxc.Poll.{Checkpoint}
use uxc.Poll.Etag.{invalidate_since, should_invalidate_etag}

-- Less than ten minutes old, and answered by fewer than three 304 responses in a row.
abbrev pub FreshEtag : {F : Type 0} → Checkpoint F → ℕ → Option ℕ → Type 0
FreshEtag ck now none = ⊥
FreshEtag ck now (some set_at) = (now < set_at + 600) × (ck.consecutive_304_count < 3)

fresh_of_kept :
    {F : Type 0} (ck : Checkpoint F) (now : ℕ) (set_at : Option ℕ)
    → invalidate_since ck now set_at ≡ none
    → FreshEtag ck now set_at
unfolding invalidate_since
fresh_of_kept ck now none h = cc
fresh_of_kept ck now (some t) h = (ground arith, ground arith)

kept_of_fresh :
    {F : Type 0} (ck : Checkpoint F) (now : ℕ) (set_at : Option ℕ)
    → FreshEtag ck now set_at
    → invalidate_since ck now set_at ≡ none
unfolding invalidate_since
kept_of_fresh ck now none h = absurd h
kept_of_fresh ck now (some t) h = ground arith

-- An ETag is kept for the next request exactly while it is fresh: one without a time stamp is not,
-- and a clock that was set back does not age it.
pub should_invalidate_etag_iff :
    {F : Type 0} (ck : Checkpoint F) (now : ℕ) (tag : String)
    → ck.etag ≡ some tag
    → (should_invalidate_etag ck now ≡ none) ↔ FreshEtag ck now ck.etag_set_at_unix
unfolding should_invalidate_etag
should_invalidate_etag_iff ck now tag e = (
  λ h. fresh_of_kept ck now ck.etag_set_at_unix (rw (e, should_invalidate_etag) at h),
  λ f. rw (e, should_invalidate_etag) (kept_of_fresh ck now ck.etag_set_at_unix f),
)

-- ===== src/Cache/Found.antt =====
-- What a lookup in the cache finds after the operations that write it.
use uxc.Base.{
  ℕ, String, ◌≡◌, refl, sym, ap, ◌∙◌, inl, inr, Bool, true, false, not, ◌&&◌, some, List, [], ◌∷◌,
  arith, str_eq, eq_iff, leb, if◌then◌else◌, Bool-cases, keep,
}
use mathlib.Core.Bool.{true≢false}
use uxc.Cache.{
  is_normal_ttl, has_json, Host, Entry, File, ReadPolicy, normal_ttl, allow_stale, Lookup, hit,
  miss, Cache, Loaded, absent, unreadable, loaded, is_named, is_json, is_expired, load_entry,
  delete_entry, look_up, cache_key, get_with_policy, invalidate, clear,
}

module _ {F : Type 0} where
  load_entry-delete_entry :
      (name other : String) (files : List (File F))
      → load_entry other (delete_entry name files)
        ≡ (if str_eq name other then absent else load_entry other files)
  unfolding load_entry delete_entry
  load_entry-delete_entry name other [] = ground arith
  load_entry-delete_entry name other (f ∷ fs) = ground (
    arith,
    load_entry-delete_entry name other fs,
    eq_iff f.name name,
    eq_iff f.name other,
    eq_iff name other,
  )

  load_entry-skip :
      (name : String) (f : File F) (fs : List (File F))
      → is_named name f ≡ false
      → load_entry name (f ∷ fs) ≡ load_entry name fs
  unfolding load_entry
  load_entry-skip name f fs h = rw h

  is_named_not :
      (host : Host) (name : String) (f : File F)
      → host.extension name ≡ some "json"
      → is_json host f ≡ false
      → is_named name f ≡ false
  is_named_not host name f h j = elim (Bool-cases (str_eq f.name name)) [
    | inl same ↦
        absurd
          (true≢false (sym (ap has_json (ap host.extension ((eq_iff f.name name).0 same) ∙ h)) ∙ j))
    | inr ne ↦ ne
  ]

  load_entry-clear :
      (host : Host) (name : String) (files : List (File F))
      → host.extension name ≡ some "json"
      → load_entry name (keep (λ f. not (is_json host f)) files) ≡ absent
  unfolding load_entry
  load_entry-clear host name [] h = refl
  load_entry-clear host name (f ∷ fs) h = elim (Bool-cases (is_json host f)) [
    | inl json ↦ rw json (load_entry-clear host name fs h)
    | inr other ↦ rw other (
        load_entry-skip name f _ (is_named_not host name f h other)
        ∙ load_entry-clear host name fs h)
  ]

  -- What is found of an entry.
  abbrev pub found : ReadPolicy → ℕ → Entry F → Lookup F
  found normal_ttl now e =
      if leb e.expires_at now
      then miss
      else hit (record { schema = e.schema; fetched_at = e.fetched_at; stale = false })
  found allow_stale now e =
      hit (record { schema = e.schema; fetched_at = e.fetched_at; stale = leb e.expires_at now })

  look_up-same :
      (policy : ReadPolicy) (now : ℕ) (l : Loaded F) (c c' : Cache F)
      → (look_up policy now l c).0 ≡ (look_up policy now l c').0
  unfolding look_up
  look_up-same policy now absent c c' = refl
  look_up-same policy now unreadable c c' = refl
  look_up-same policy now (loaded e) c c' =
      elim (Bool-cases (is_expired e now && is_normal_ttl policy)) [
        | inl old ↦ rw old refl
        | inr new ↦ rw new refl
      ]

  absent_if :
      (b : Bool) (policy : ReadPolicy) (now : ℕ) (l : Loaded F) (c c' : Cache F)
      → (look_up policy now (if b then absent else l) c').0
        ≡ (if b then miss else (look_up policy now l c).0)
  unfolding look_up
  absent_if true policy now l c c' = refl
  absent_if false policy now l c c' = look_up-same policy now l c' c

module _ {F : Type 0} (host : Host) (c : Cache F) where
  get_with_policy-enabled :
      (url : String) (policy : ReadPolicy) (now : ℕ)
      → c.enabled ≡ true
      → get_with_policy host url policy now c
        ≡ look_up policy now (load_entry (cache_key host url) c.files) c
  unfolding get_with_policy
  get_with_policy-enabled url policy now on = rw on refl

  -- After a url is invalidated, a lookup of it finds nothing, by either policy and at any time; a url
  -- with another file name is found as before. The cache is enabled.
  pub get_with_policy-invalidate :
      (url other : String) (now : ℕ) (policy : ReadPolicy)
      → c.enabled ≡ true
      → (get_with_policy host other policy now (invalidate host url c)).0 ≡ (
          if str_eq (cache_key host url) (cache_key host other)
          then miss
          else (get_with_policy host other policy now c).0)
  unfolding get_with_policy invalidate
  get_with_policy-invalidate url other now policy on =
      rw (on, load_entry-delete_entry (cache_key host url) (cache_key host other) c.files)
        (absent_if (str_eq (cache_key host url) (cache_key host other)) policy now _ _ _)

  -- After the cache is cleared, a lookup finds nothing and is the first miss that is counted, when the
  -- url's file name has the extension json. The cache is enabled.
  pub get_with_policy-clear :
      (url : String) (now : ℕ) (policy : ReadPolicy)
      → c.enabled ≡ true
      → host.extension (cache_key host url) ≡ some "json"
      → get_with_policy host url policy now (clear host c)
        ≡ (miss, record (clear host c) { misses = 1 })
  unfolding get_with_policy clear look_up
  get_with_policy-clear url now policy on ext =
      rw (on, load_entry-clear host (cache_key host url) c.files ext) refl

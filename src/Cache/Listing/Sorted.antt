-- ===== src/Cache/Listing/Sorted.antt =====
-- The order of the listing of the cache.
use uxc.Base.{
  ℕ, ◌≤◌, ◌≡◌, refl, ◌∙◌, inl, inr, Bool, List, [], ◌∷◌, arith, leb, Bool-cases, length, keep,
}
use uxc.Cache.{Host, Entry, Cache}
use uxc.Cache.Listing.{ListEntry, insert_newest, sort_newest, collect, list_entries}

-- The times of the fetches fall along the entries, from `hi` down.
abbrev pub Falling : ℕ → List ListEntry → Type 0
Falling hi [] = Unit {0}
Falling hi (e ∷ es) = (e.fetched_at ≤ hi) × Falling e.fetched_at es

abbrev NewestFirst : List ListEntry → Type 0
NewestFirst [] = Unit {0}
NewestFirst (e ∷ es) = Falling e.fetched_at es

insert_newest-Falling :
    (hi : ℕ) (e : ListEntry) (es : List ListEntry)
    → Falling hi es
    → e.fetched_at ≤ hi
    → Falling hi (insert_newest e es)
unfolding insert_newest
insert_newest-Falling hi e [] d h = (h, tt)
insert_newest-Falling hi e (f ∷ fs) d h = elim (Bool-cases (leb f.fetched_at e.fetched_at)) [
  | inl le ↦ rw le (h, (ground arith, d.1))
  | inr gt ↦ rw gt (d.0, insert_newest-Falling f.fetched_at e fs d.1 (ground arith))
]

insert_newest-NewestFirst :
    (e : ListEntry) (es : List ListEntry) → NewestFirst es → NewestFirst (insert_newest e es)
unfolding insert_newest
insert_newest-NewestFirst e [] d = tt
insert_newest-NewestFirst e (f ∷ fs) d = elim (Bool-cases (leb f.fetched_at e.fetched_at)) [
  | inl le ↦ rw le (ground arith, d)
  | inr gt ↦ rw gt (insert_newest-Falling f.fetched_at e fs d (ground arith))
]

sort_newest-NewestFirst : (es : List ListEntry) → NewestFirst (sort_newest es)
unfolding sort_newest
sort_newest-NewestFirst [] = tt
sort_newest-NewestFirst (e ∷ es) =
    insert_newest-NewestFirst e (sort_newest es) (sort_newest-NewestFirst es)

-- How many entries pass a test, whatever their order.
abbrev pub count : (ListEntry → Bool) → List ListEntry → ℕ
count p es = length (keep p es)

count-insert_newest :
    (p : ListEntry → Bool) (e : ListEntry) (es : List ListEntry)
    → count p (insert_newest e es) ≡ count p (e ∷ es)
unfolding insert_newest
count-insert_newest p e [] = refl
count-insert_newest p e (f ∷ fs) = ground (arith, count-insert_newest p e fs)

count-sort_newest :
    (p : ListEntry → Bool) (es : List ListEntry) → count p (sort_newest es) ≡ count p es
unfolding sort_newest
count-sort_newest p [] = refl
count-sort_newest p (e ∷ es) =
    count-insert_newest p e (sort_newest es) ∙ ground (arith, count-sort_newest p es)

-- The listing has the newest entries first, and has every entry that a file with the extension json
-- holds exactly as often as the files do: of each test, as many entries pass.
list_entries-NewestFirst :
    {F : Type 0} (host : Host) (size : Entry F → ℕ) (now : ℕ) (c : Cache F) (p : ListEntry → Bool)
    → NewestFirst (list_entries host size now c)
      × (count p (list_entries host size now c) ≡ count p (collect host size now c.files))
unfolding list_entries
list_entries-NewestFirst host size now c p = (sort_newest-NewestFirst _, count-sort_newest p _)

-- ===== src/Poll/Keys/Fresh.antt =====
-- What the filters of Poll/Keys emit and record: the items whose keys are new, first come, when
-- the window has room for the page.
use uxc.Base.{
  sym, ap, subst, eq_iff, max, ℕ, suc, ◌+◌, ◌-◌, ◌≤◌, String, ◌≡◌, refl, ◌∙◌, inl, inr, true, false,
  List, [], ◌∷◌, ◌++◌, map, arith, length, length-append, take, All, Option, none, some, Bool-cases,
  if◌then◌else◌, leb,
}
use mathlib.Core.List.{append-nil, append_assoc}
use uxc.Base.Result.{err, Result, ok}
use uxc.Poll.{PollError}
use uxc.Poll.Keys.{contains, push_seen_key, reached, filter_by_key}
use uxc.Poll.Keys.Window.{filter_by_key-cons, push_seen_key-drop, contains-append, push_fits}

-- The items whose keys stand neither in `seen` nor before them in the list.
unfoldable pub fresh : {A : Type 0} → (A → String) → List A → List String → List A
fresh k [] seen = []
fresh k (x ∷ xs) seen =
    let rest = fresh k xs (seen ++ k x ∷ []) in
    let other = fresh k xs seen in if contains seen (k x) then other else x ∷ rest

-- How many more may be emitted.
abbrev pub room : {A : Type 0} → Option ℕ → ℕ → List A → List A
room none n xs = xs
room (some limit) n xs = take (limit - n) xs

pub room-nil : {A : Type 0} (limit : Option ℕ) (n : ℕ) → room {A = A} limit n [] ≡ []
room-nil {A} none n = refl
room-nil {A} (some l) n = elim (l - n) as (λ m. take {A = A} m [] ≡ []) [
  | ℕ.zero ↦ refl
  | suc m ↦ refl
]

room-suc :
    {A : Type 0} (l n : ℕ) (x : A) (ys : List A)
    → leb l n ≡ false
    → take (l - n) (x ∷ ys) ≡ x ∷ take (l - (n + 1)) ys
room-suc l n x ys h = let e : l - n ≡ suc (l - (n + 1)) = ground arith in rw e

room_full : {A : Type 0} (l n : ℕ) (ys : List A) → leb l n ≡ true → take (l - n) ys ≡ []
room_full l n ys h = let e : l - n ≡ 0 = ground arith in rw e

-- One item more is emitted if there is room.
pub emit-room :
    {A : Type 0} (limit : Option ℕ) (x : A) (emitted ys : List A)
    → (if reached limit emitted then emitted else emitted ++ x ∷ [])
        ++ room limit (length (if reached limit emitted then emitted else emitted ++ x ∷ [])) ys
      ≡ emitted ++ room limit (length emitted) (x ∷ ys)
emit-room none x emitted ys = append_assoc emitted (x ∷ []) ys
emit-room (some l) x emitted ys = elim (Bool-cases (leb l (length emitted))) [
  | inl full ↦
      rw (full, room_full l (length emitted) ys full, room_full l (length emitted) (x ∷ ys) full)
        refl
  | inr more ↦
      rw (more, room-suc l (length emitted) x ys more, length-append emitted (x ∷ []))
        (append_assoc emitted (x ∷ []) (take (l - (length emitted + 1)) ys))
]

module _ {A : Type 0} (key_of : A → Result PollError String) (window : ℕ) (limit : Option ℕ)
    (k : A → String) where
  filter_by_key-fresh_from :
      (items emitted : List A) (seen : List String)
      → All (λ x. key_of x ≡ ok (k x)) items
      → length seen + length items ≤ window
      → filter_by_key key_of window limit items emitted seen ≡ (
        ok (emitted ++ room limit (length emitted) (fresh k items seen)),
        seen ++ map k (fresh k items seen),
      )
  unfolding filter_by_key fresh
  filter_by_key-fresh_from [] emitted seen h w =
      rw (room-nil limit (length emitted), append-nil, append-nil)
  filter_by_key-fresh_from (x ∷ xs) emitted seen h w = elim (Bool-cases (contains seen (k x))) [
    | inl old ↦
        filter_by_key-cons key_of window limit x xs emitted seen (k x) h.0
        ∙ rw old (filter_by_key-fresh_from xs emitted seen h.1 (omega arith))
    | inr new ↦
        filter_by_key-cons key_of window limit x xs emitted seen (k x) h.0
        ∙ rw (new, push_fits seen (k x) window (omega arith))
            (rw (
              filter_by_key-fresh_from xs
                  (if reached limit emitted then emitted else emitted ++ x ∷ []) (seen ++ k x ∷ [])
                  h.1 (omega (arith, length-append seen (k x ∷ []))),
              emit-room limit x emitted (fresh k xs (seen ++ k x ∷ [])),
              append_assoc,
            ))
  ]

  -- When every item has a key and the window has room for the page, a filter emits the items whose
  -- keys are neither seen nor repeated, up to the limit of a first look, and records the keys of all
  -- of them, also of those beyond the limit.
  pub filter_by_key-fresh :
      (items : List A) (seen : List String)
      → All (λ x. key_of x ≡ ok (k x)) items
      → length seen + length items ≤ window
      → filter_by_key key_of window limit items [] seen
        ≡ (ok (room limit 0 (fresh k items seen)), seen ++ map k (fresh k items seen))
  filter_by_key-fresh items seen h w = filter_by_key-fresh_from items [] seen h w

  filter_by_key_covered :
      (items emitted : List A) (seen : List String)
      → All (λ x. key_of x ≡ ok (k x)) items
      → All (λ x. contains seen (k x) ≡ true) items
      → filter_by_key key_of window limit items emitted seen ≡ (ok emitted, seen)
  unfolding filter_by_key
  filter_by_key_covered [] emitted seen h c = refl
  filter_by_key_covered (x ∷ xs) emitted seen h c =
      filter_by_key-cons key_of window limit x xs emitted seen (k x) h.0
      ∙ rw (c.0) (filter_by_key_covered xs emitted seen h.1 c.1)

contains_left :
    (xs ys : List String) (key : String) → contains xs key ≡ true → contains (xs ++ ys) key ≡ true
contains_left xs ys key h = rw (contains-append xs ys key, h) refl

contains_last : (xs : List String) (key : String) → contains (xs ++ key ∷ []) key ≡ true
unfolding contains
contains_last [] key = ground (arith, eq_iff key key)
contains_last (x ∷ xs) key = ground (arith, contains_last xs key)

fresh_old :
    {A : Type 0} (k : A → String) (x : A) (xs : List A) (seen : List String)
    → contains seen (k x) ≡ true
    → fresh k (x ∷ xs) seen ≡ fresh k xs seen
unfolding fresh
fresh_old k x xs seen e = rw e

fresh_new :
    {A : Type 0} (k : A → String) (x : A) (xs : List A) (seen : List String)
    → contains seen (k x) ≡ false
    → fresh k (x ∷ xs) seen ≡ x ∷ fresh k xs (seen ++ k x ∷ [])
unfolding fresh
fresh_new k x xs seen e = rw e

-- Every key of the page is recorded.
fresh_covers :
    {A : Type 0} (k : A → String) (items : List A) (seen : List String)
    → All (λ x. contains (seen ++ map k (fresh k items seen)) (k x) ≡ true) items
fresh_covers k [] seen = tt
fresh_covers {A} k (x ∷ xs) seen = elim (Bool-cases (contains seen (k x))) [
  | inl old ↦
      subst Covers (ap (λ l. seen ++ map k l) (sym (fresh_old k x xs seen old)))
        (contains_left seen _ (k x) old, fresh_covers k xs seen)
  | inr new ↦
      let seen' = seen ++ k x ∷ [] in
      let rest = fresh k xs seen' in
      subst Covers
        (append_assoc seen (k x ∷ []) (map k rest)
          ∙ ap (λ l. seen ++ map k l) (sym (fresh_new k x xs seen new)))
        (contains_left seen' (map k rest) (k x) (contains_last seen (k x)), fresh_covers k xs seen')
]
  where
    Covers : List String → Type 0
    Covers keys = All (λ y. contains keys (k y) ≡ true) (x ∷ xs)

module _ {A : Type 0} (key_of : A → Result PollError String) (k : A → String) where
  -- A page that is polled again emits nothing and records nothing, whatever the window and the limit
  -- of the second poll, when the window of the first had room for the page.
  pub filter_by_key_again :
      (window window' : ℕ) (limit limit' : Option ℕ) (items : List A) (seen : List String)
      → All (λ x. key_of x ≡ ok (k x)) items
      → length seen + length items ≤ window
      → let seen' = (filter_by_key key_of window limit items [] seen).1 in
        filter_by_key key_of window' limit' items [] seen' ≡ (ok [], seen')
  filter_by_key_again window window' limit limit' items seen h w =
      rw (filter_by_key-fresh key_of window limit k items seen h w)
        (filter_by_key_covered key_of window' limit' k items [] _ h (fresh_covers k items seen))

module _ {A : Type 0} (key_of : A → Result PollError String) (window : ℕ) (limit : Option ℕ) where
  seen_step :
      (seen : List String) (key : String)
      → length (if contains seen key then seen else push_seen_key seen key window)
        ≤ max window (length seen)
  seen_step seen key = elim (Bool-cases (contains seen key)) [
    | inl old ↦ rw old (omega arith)
    | inr new ↦ rw new (omega (arith, (push_seen_key-drop seen key window).1))
  ]

  -- The window of seen keys never outgrows the configured one, unless it was restored longer, and then
  -- it does not grow; nor on a page that fails halfway.
  pub filter_by_key_bounded :
      (items emitted : List A) (seen : List String)
      → length ((filter_by_key key_of window limit items emitted seen).1) ≤ max window (length seen)
  unfolding filter_by_key
  filter_by_key_bounded [] emitted seen = omega arith
  filter_by_key_bounded (x ∷ xs) emitted seen =
      go (key_of x) refl (λ em sn. filter_by_key_bounded xs em sn)
    where
      go :
          (r : Result PollError String)
          → key_of x ≡ r
          → ((em : List A) (sn : List String)
              → length ((filter_by_key key_of window limit xs em sn).1) ≤ max window (length sn))
          → length ((filter_by_key key_of window limit (x ∷ xs) emitted seen).1)
            ≤ max window (length seen)
      go (err e) p ih = rw (p, filter_by_key) (omega arith)
      go (ok key) p ih =
          rw (p, filter_by_key)
            (omega (
              arith,
              seen_step seen key,
              ih
                  (if contains seen key
                    then emitted
                    else if reached limit emitted
                    then emitted
                    else emitted ++ x ∷ [])
                  (if contains seen key then seen else push_seen_key seen key window),
            ))

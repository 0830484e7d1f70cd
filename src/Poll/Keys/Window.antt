-- ===== src/Poll/Keys/Window.antt =====
-- The window of seen keys: how long it gets, and what it holds.
use uxc.Base.{
  if◌then◌else◌, Option, ℕ, ◌+◌, ◌-◌, ◌≤◌, ◌<◌, String, ◌≡◌, refl, ◌∙◌, List, [], ◌∷◌, ◌++◌, arith,
  length, length-append, length-drop, drop, ◌||◌,
}
use uxc.Base.Window.{pop_to-drop, drop_all_fit}
use uxc.Base.Result.{Result, ok, err}
use uxc.Poll.{PollError}
use uxc.Poll.Keys.{contains, push_seen_key, emit_one, filter_by_key}

-- After a push the buffer holds the newest keys, in order, and at most `window` of them, however
-- long it was before.
pub push_seen_key-drop :
    (buffer : List String) (key : String) (window : ℕ)
    → (push_seen_key buffer key window ≡ drop (length buffer + 1 - window) (buffer ++ key ∷ []))
      × (length (push_seen_key buffer key window) ≤ window)
unfolding push_seen_key
push_seen_key-drop buffer key window =
    rw (pop_to-drop window (buffer ++ key ∷ []), length-append buffer (key ∷ []))
      (
        refl,
        omega (
          arith,
          length-drop (length buffer + 1 - window) (buffer ++ key ∷ []),
          length-append buffer (key ∷ []),
        ),
      )

pub push_fits :
    (buffer : List String) (key : String) (window : ℕ)
    → length buffer < window
    → push_seen_key buffer key window ≡ buffer ++ key ∷ []
unfolding push_seen_key
push_fits buffer key window h =
    pop_to-drop window (buffer ++ key ∷ [])
    ∙ drop_all_fit window (buffer ++ key ∷ []) (omega (arith, length-append buffer (key ∷ [])))

pub contains-append :
    (xs ys : List String) (k : String) → contains (xs ++ ys) k ≡ (contains xs k || contains ys k)
unfolding contains
contains-append [] ys k = refl
contains-append (x ∷ xs) ys k = ground (arith, contains-append xs ys k)

module _ {A : Type 0} (key_of : A → Result PollError String) (window : ℕ) (limit : Option ℕ) where
  -- One turn of the loop, for an item that has a key and for one that has none.
  pub filter_by_key-cons :
      (x : A) (xs emitted : List A) (seen : List String) (key : String)
      → key_of x ≡ ok key
      → filter_by_key key_of window limit (x ∷ xs) emitted seen
        ≡ filter_by_key key_of window limit xs
            (emit_one (contains seen key) limit x emitted)
            (if contains seen key then seen else push_seen_key seen key window)
  unfolding filter_by_key
  filter_by_key-cons x xs emitted seen key e = rw (e, filter_by_key) refl

  pub filter_by_key-fails :
      (x : A) (xs emitted : List A) (seen : List String) (e : PollError)
      → key_of x ≡ err e
      → filter_by_key key_of window limit (x ∷ xs) emitted seen ≡ (err e, seen)
  unfolding filter_by_key
  filter_by_key-fails x xs emitted seen e p = rw (p, filter_by_key) refl

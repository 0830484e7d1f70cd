-- ===== src/Streams/Tables/Rows.antt =====
-- Which rows of a stream an insert and a deletion leave, and the other streams' rows.
use mathlib.Core.Option
use uxc.Base.{
  keep-append, ℕ, String, ◌≡◌, refl, ◌≢◌, Bool, true, not, ◌&&◌, List, [], ◌∷◌, ◌++◌, arith, str_eq,
  eq_iff, if◌then◌else◌, keep,
}
use uxc.Streams.{EventRow, StreamRow}
use uxc.Streams.Tables.{of_stream, rows_of, delete_rows, find_stream, set_next_offset}

module _ {ℓ} {A : Type ℓ} where
  -- a test that lets all pass that the other lets pass
  pub keep_weaker :
      (p q : A → Bool) (xs : List A)
      → ((x : A) → p x ≡ true → q x ≡ true)
      → keep p (keep q xs) ≡ keep p xs
  keep_weaker p q [] h = refl
  keep_weaker p q (x ∷ xs) h = ground (arith, keep_weaker p q xs h, h x)

  pub keep_and : (p q : A → Bool) (xs : List A) → keep (λ x. p x && q x) xs ≡ keep q (keep p xs)
  keep_and p q [] = refl
  keep_and p q (x ∷ xs) = ground (arith, keep_and p q xs)

module _ {V : Type 0} where
  pub rows_of-append :
      (id : String) (events : List (EventRow V)) (e : EventRow V)
      → rows_of id (events ++ e ∷ []) ≡ rows_of id events ++ (if of_stream id e then e ∷ [] else [])
  unfolding rows_of
  rows_of-append id events e = keep-append (of_stream id) events (e ∷ [])

  -- A deletion from a stream is one from its rows, and leaves the rows of another stream.
  pub rows_of-delete_rows :
      (id : String) (cond : EventRow V → Bool) (events : List (EventRow V))
      → rows_of id (delete_rows id cond events) ≡ keep (λ e. not (cond e)) (rows_of id events)
  unfolding rows_of delete_rows
  rows_of-delete_rows id cond [] = refl
  rows_of-delete_rows id cond (e ∷ es) = ground (arith, rows_of-delete_rows id cond es)

  pub rows_of-delete_rows_ne :
      (id other : String) (cond : EventRow V → Bool) (events : List (EventRow V))
      → id ≢ other
      → rows_of other (delete_rows id cond events) ≡ rows_of other events
  unfolding rows_of delete_rows
  rows_of-delete_rows_ne id other cond [] n = refl
  rows_of-delete_rows_ne id other cond (e ∷ es) n = ground (
    arith,
    rows_of-delete_rows_ne id other cond es n,
    eq_iff e.stream_id id,
    eq_iff e.stream_id other,
  )

pub find_stream-set_next_offset :
    (id other : String) (next : ℕ) (ss : List StreamRow)
    → find_stream other (set_next_offset id next ss) ≡ (
        if str_eq id other
        then Option.map
            (λ (s : StreamRow). record s { next_event_offset = next })
            (find_stream other ss)
        else find_stream other ss)
unfolding find_stream set_next_offset
find_stream-set_next_offset id other next [] = ground arith
find_stream-set_next_offset id other next (s ∷ ss) = ground (
  arith,
  find_stream-set_next_offset id other next ss,
  eq_iff s.stream_id id,
  eq_iff s.stream_id other,
  eq_iff id other,
)

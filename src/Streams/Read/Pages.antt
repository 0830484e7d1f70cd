-- ===== src/Streams/Read/Pages.antt =====
-- A reader of a stream gets each row once, whatever the size of its pages.
use uxc.Base.{
  ℕ, zero, suc, ◌≤◌, ◌<◌, String, ◌≡◌, refl, sym, ap, ◌∙◌, inl, inr, false, ◌&&◌, List, [], ◌∷◌,
  ◌++◌, arith, ltb, ◌==◌, Bool-cases, length, take, drop, keep, take-append-drop, length-take,
  saturating_add, i64_max,
}
use uxc.Base.Result.{ok}
use uxc.Streams.{EventRow, Db}
use uxc.Streams.Tables.{of_stream, rows_of, order_by_offset, max_offset}
use uxc.Streams.Tables.Rows.{keep_and, keep_weaker}
use uxc.Streams.Tables.Ascending.{
  Ascending-keep, Ascending, order_by_offset-Ascending, keep_after_last, last_offset-le,
}
use uxc.Streams.Append.Counter.{IsWellFormed, next_offset}
use uxc.Streams.Read.{ReadPage, past_end, last_offset, page_of, read_stream}

module _ {V : Type 0} where
  abbrev pub rows_after : ℕ → List (EventRow V) → List (EventRow V)
  rows_after after rows = keep (λ e. ltb after e.offset) rows

  rows_after-Ascending :
      (lo hi after : ℕ) (es : List (EventRow V))
      → Ascending lo hi es
      → Ascending (suc after) hi (rows_after after es)
  rows_after-Ascending lo hi after [] a = tt
  rows_after-Ascending lo hi after (e ∷ es) a = elim (Bool-cases (ltb after e.offset)) [
    | inl h ↦ rw h (ground arith, a.1, Ascending-keep (suc e.offset) hi _ es a.2)
    | inr h ↦ rw h (rows_after-Ascending (suc e.offset) hi after es a.2)
  ]

  take-take-suc : (n : ℕ) (es : List (EventRow V)) → take n (take (suc n) es) ≡ take n es
  take-take-suc zero es = refl
  take-take-suc (suc n) [] = refl
  take-take-suc (suc n) (e ∷ es) = ap (◌∷◌ e) (take-take-suc n es)

  take_fits :
      (n : ℕ) (es : List (EventRow V)) → length (take (suc n) es) ≤ n → take (suc n) es ≡ take n es
  take_fits zero [] h = refl
  take_fits zero (e ∷ es) h = absurd (omega arith)
  take_fits (suc n) [] h = refl
  take_fits (suc n) (e ∷ es) h = ap (◌∷◌ e) (take_fits n es (omega arith))

  length-take_more :
      (n : ℕ) (es : List (EventRow V)) → ltb n (length (take (suc n) es)) ≡ ltb n (length es)
  length-take_more n es = ground (arith, length-take (suc n) es)

  page_of-take :
      (after limit : ℕ) (es : List (EventRow V))
      → page_of after limit (take (suc limit) es) ≡ record {
        events = take limit es;
        next_after_offset = last_offset (take limit es) after;
        has_more = ltb limit (length es);
      }
  unfolding page_of
  page_of-take after limit es =
      let m = length-take_more limit es in
      elim (Bool-cases (ltb limit (length (take (suc limit) es)))) [
        | inl h ↦ rw (sym m, h, take-take-suc limit es) refl
        | inr h ↦ rw (sym m, h, take_fits limit es (ground arith)) refl
      ]

  after_last :
      (after n : ℕ) (rows : List (EventRow V))
      → after ≤ n
      → rows_after n (rows_after after rows) ≡ rows_after n rows
  after_last after n rows h =
      keep_weaker (λ e. ltb n e.offset) (λ e. ltb after e.offset) rows (λ e l. ground arith)

module _ {V S C : Type 0} (id : String) (after limit : ℕ) (db : Db V S C) (wf : IsWellFormed db)
    (in_range : past_end after (max_offset (rows_of id db.events)) ≡ false) (some_rows : 0 < limit)
    (small : limit < i64_max) where
  abbrev unread : List (EventRow V)
  unread = rows_after after (rows_of id db.events)

  unread-Ascending : Ascending (suc after) (next_offset id db.streams) unread
  unread-Ascending =
      rows_after-Ascending 0 (next_offset id db.streams) after (rows_of id db.events)
        (wf.ascending id)

  queried : order_by_offset (keep (λ e. of_stream id e && ltb after e.offset) db.events) ≡ unread
  unfolding rows_of
  queried =
      ap order_by_offset (keep_and (of_stream id) (λ e. ltb after e.offset) db.events)
      ∙ order_by_offset-Ascending (suc after) (next_offset id db.streams) unread unread-Ascending

  read_stream-take :
      read_stream id after limit db ≡ ok (page_of after limit (take (suc limit) unread))
  unfolding read_stream
  read_stream-take =
      let z : (limit == 0) ≡ false = ground arith in
      let m : saturating_add limit 1 ≡ suc limit = omega arith in rw (in_range, z, m, queried) refl

  unread_rest :
      rows_after (last_offset (take limit unread) after) (rows_of id db.events) ≡ drop limit unread
  unread_rest =
      sym (
        after_last after (last_offset (take limit unread) after) (rows_of id db.events) (
          last_offset-le (suc after) (next_offset id db.streams) limit after unread unread-Ascending
            (omega arith)))
      ∙ keep_after_last (suc after) (next_offset id db.streams) limit after unread unread-Ascending
          (omega arith)

  -- In a well-formed store, a read with a positive limit from an offset that is not past the newest row
  -- succeeds. Its page and the rows behind the offset that it returns for the next read are together
  -- the rows behind the offset it was asked for, in order, so no row is lost or read twice. The page is
  -- no longer than the limit, and says that there is more exactly when more rows than that were there.
  pub read_stream-pages :
      (page : ReadPage V) × (read_stream id after limit db ≡ ok page)
      × (page.events ++ rows_after page.next_after_offset (rows_of id db.events)
          ≡ rows_after after (rows_of id db.events))
      × (length page.events ≤ limit)
      × (page.has_more ≡ ltb limit (length (rows_after after (rows_of id db.events))))
  read_stream-pages = (
    record {
      events = take limit unread;
      next_after_offset = last_offset (take limit unread) after;
      has_more = ltb limit (length unread);
    },
    read_stream-take ∙ ap ok (page_of-take after limit unread),
    ap (◌++◌ (take limit unread)) unread_rest ∙ take-append-drop limit unread,
    omega (arith, length-take limit unread),
    refl,
  )

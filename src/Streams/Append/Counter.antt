-- ===== src/Streams/Append/Counter.antt =====
-- The counter of a stream and the offsets below it, the invariant of the store.
use mathlib.Core.List.{append-nil}
use uxc.Base.{saturating_add, i64_max, str_eq-ne, str_eq_self}
use uxc.Base.{
  ℕ, suc, ◌<◌, String, ◌≡◌, refl, sym, ap, ◌∙◌, ◌≢◌, inl, inr, Bool, true, false, Option, none,
  some, List, [], ◌∷◌, ◌++◌, arith, str_eq, eq_iff, ◌==◌, if◌then◌else◌, Bool-cases,
}
use uxc.Base.Result.{ok}
use uxc.Streams.{EventRow, StreamRow, Db}
use uxc.Streams.Tables.{rows_of, has_event, insert_event, find_stream, set_next_offset}
use uxc.Streams.Tables.Rows.{rows_of-append, find_stream-set_next_offset}
use uxc.Streams.Tables.Ascending.{Ascending}

-- The offset that the next event of a stream gets; a stream that is not there has no room at all.
abbrev pub next_of : Option StreamRow → ℕ
next_of none = 0
next_of (some s) = s.next_event_offset

unfoldable pub next_offset : String → List StreamRow → ℕ
next_offset id ss = next_of (find_stream id ss)

-- In every stream the offsets ascend and lie below the next offset, and a stream that is not there
-- has no events.
pub record IsWellFormed {V S C : Type 0} (db : Db V S C) : Type 0 where
  pub ascending : (id : String) → Ascending 0 (next_offset id db.streams) (rows_of id db.events)

has_offset : {V : Type 0} → ℕ → List (EventRow V) → Bool
has_offset n [] = false
has_offset n (e ∷ es) = if e.offset == n then true else has_offset n es

module _ {V : Type 0} where
  has_event-has_offset :
      (id : String) (n : ℕ) (events : List (EventRow V))
      → has_event id n events ≡ has_offset n (rows_of id events)
  unfolding has_event has_offset rows_of
  has_event-has_offset id n [] = refl
  has_event-has_offset id n (e ∷ es) = ground (arith, has_event-has_offset id n es)

  has_offset_above :
      (lo n : ℕ) (es : List (EventRow V)) → Ascending lo n es → has_offset n es ≡ false
  unfolding has_offset
  has_offset_above lo n [] a = refl
  has_offset_above lo n (e ∷ es) a = ground (arith, has_offset_above (suc e.offset) n es a.2)

  -- A row at the next offset is inserted at the end.
  pub insert_event_next :
      (e : EventRow V) (events : List (EventRow V))
      → Ascending 0 e.offset (rows_of e.stream_id events)
      → insert_event e events ≡ ok (events ++ e ∷ [])
  unfolding insert_event
  insert_event_next e events a =
      rw (has_event-has_offset e.stream_id e.offset events, has_offset_above 0 e.offset _ a)

  pub rows_of-append_self :
      (e : EventRow V) (events : List (EventRow V))
      → rows_of e.stream_id (events ++ e ∷ []) ≡ rows_of e.stream_id events ++ e ∷ []
  rows_of-append_self e events =
      rows_of-append e.stream_id events e ∙ ground (arith, eq_iff e.stream_id e.stream_id)

  pub rows_of-append_ne :
      (other : String) (e : EventRow V) (events : List (EventRow V))
      → e.stream_id ≢ other
      → rows_of other (events ++ e ∷ []) ≡ rows_of other events
  rows_of-append_ne other e events n =
      rows_of-append other events e
      ∙ rw (str_eq-ne e.stream_id other n) (append-nil (rows_of other events))

pub saturating_add-suc : (n : ℕ) → n < i64_max → saturating_add n 1 ≡ suc n
saturating_add-suc n h = omega arith

pub ne_str : (s t : String) → str_eq s t ≡ false → s ≢ t
ne_str s t h = ground (arith, eq_iff s t)

-- What differs at one stream only.
pub by_stream :
    {A : Type 0} (id other : String) (f g : String → A) (a : A)
    → f id ≡ a
    → (id ≢ other → f other ≡ g other)
    → f other ≡ (if str_eq id other then a else g other)
by_stream id other f g a p q = elim (Bool-cases (str_eq id other)) [
  | inl same ↦ rw same (ap f (sym ((eq_iff id other).0 same)) ∙ p)
  | inr ne ↦ rw ne (q (ne_str id other ne))
]

pub find_stream-set_self :
    (id : String) (next : ℕ) (ss : List StreamRow) (s : StreamRow)
    → find_stream id ss ≡ some s
    → find_stream id (set_next_offset id next ss) ≡ some (record s { next_event_offset = next })
find_stream-set_self id next ss s e =
    find_stream-set_next_offset id id next ss ∙ rw (str_eq_self id, e) refl

pub next_offset-set_ne :
    (id other : String) (next : ℕ) (ss : List StreamRow)
    → id ≢ other
    → next_offset other (set_next_offset id next ss) ≡ next_offset other ss
unfolding next_offset
next_offset-set_ne id other next ss n =
    let p : find_stream other (set_next_offset id next ss) ≡ find_stream other ss =
      find_stream-set_next_offset id other next ss ∙ rw (str_eq-ne id other n) refl in
    ap next_of p

pub next_offset_found :
    (id : String) (ss : List StreamRow) (s : StreamRow)
    → find_stream id ss ≡ some s
    → next_offset id ss ≡ s.next_event_offset
unfolding next_offset
next_offset_found id ss s e = ap next_of e

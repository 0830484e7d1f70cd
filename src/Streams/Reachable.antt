-- ===== src/Streams/Reachable.antt =====
-- src/managed_source_streams.rs: the stores that sequences of operations reach from the empty one. The
-- operations that fail change nothing and are no steps.
use uxc.Base.{
  ◌==◌, not, ℕ, ◌+◌, ◌≤◌, ◌<◌, String, ◌≡◌, refl, sym, ap, ◌∙◌, subst, inl, inr, Bool, true, false,
  Option, none, some, List, [], ◌∷◌, ◌++◌, arith, str_eq, eq_iff, ltb, if◌then◌else◌, Bool-cases,
  Option-cases, is_some, or_else, length, find, keep, i64_max,
}
use uxc.Base.Result.{ok, ok-injective, ok_or, bail_if, >>=-eq-ok}
use uxc.Streams.{
  EventRow, StreamRow, SourceRecord, SourceRow, RuntimeUpdate, Db, PendingEvent,
  source_row_not_found, stream_mismatch, source_row_changed,
}
use uxc.Streams.Tables.{rows_of, delete_rows, find_stream}
use uxc.Streams.Tables.Rows.{rows_of-delete_rows, rows_of-delete_rows_ne}
use uxc.Streams.Tables.Ascending.{Ascending, Ascending-keep}
use uxc.Streams.Retention.{trim_stream_before}
use uxc.Streams.Append.{append_event}
use uxc.Streams.Append.Counter.{IsWellFormed, next_offset, next_of, ne_str}
use uxc.Streams.Append.Log.{append_event-retained}
use uxc.Streams.Sources.{
  has_run, stream_of, insert_stream, upsert_source, update_source_runtime, clear_source_job,
  delete_source, store_poll_checkpoint_if_missing, clear_poll_checkpoint,
}
use uxc.Streams.Checkpoint.{
  append_events_and_store_poll_checkpoint, first_offset, insert_events, close,
}
use uxc.Streams.Checkpoint.Atomic.{append_events-stores}

abbrev pub empty_db : {V S C : Type 0} → Db V S C
empty_db = record { sources = []; streams = []; events = [] }

-- One operation that succeeds. A counter that SQLite can store bounds the offsets.
pub data Step {V S C : Type 0} (db : Db V S C) : Db V S C → Type 0 where
  upserts :
      (source : SourceRecord S) (create_stream : Bool)
      → Step db (upsert_source source create_stream db)
  updates :
      (ns key : String) (update : RuntimeUpdate) → Step db (update_source_runtime ns key update db)
  clears_job :
      (ns key status : String) (at : ℕ) (stopped : Option ℕ) (e : Option String)
      → Step db (clear_source_job ns key status at stopped e db)
  deletes : (ns key : String) → Step db (delete_source ns key db)
  stores_checkpoint :
      (ns key run : String) (c : C) → Step db ((store_poll_checkpoint_if_missing ns key run c db).1)
  clears_checkpoint : (ns key run : String) → Step db (clear_poll_checkpoint ns key run db)
  trims : (id : String) (before : ℕ) → Step db ((trim_stream_before id before db).1)
  appends :
      (id : String) (now : ℕ) (payload : V) (stream : StreamRow) (offset : ℕ) (db' : Db V S C)
      → find_stream id db.streams ≡ some stream
      → stream.next_event_offset < i64_max
      → append_event id now payload db ≡ ok (offset, db')
      → Step db db'
  commits :
      (ns key run id : String) (p : PendingEvent V) (ps : List (PendingEvent V)) (c : C)
      (row : SourceRow S C) (stream : StreamRow) (offsets : List ℕ) (db' : Db V S C)
      → find (has_run ns key run) db.sources ≡ some row
      → length (keep (has_run ns key run) db.sources) ≡ 1
      → row.source.stream_id ≡ id
      → find_stream id db.streams ≡ some stream
      → stream.next_event_offset + length (p ∷ ps) ≤ i64_max
      → append_events_and_store_poll_checkpoint ns key run id (p ∷ ps) c db ≡ ok (offsets, db')
      → Step db db'
  -- A commit of a checkpoint alone.
  commits_checkpoint :
      (ns key run id : String) (c : C) (offsets : List ℕ) (db' : Db V S C)
      → append_events_and_store_poll_checkpoint ns key run id [] c db ≡ ok (offsets, db')
      → Step db db'

pub data Reachable {V S C : Type 0} : Db V S C → Type 0 where
  start : Reachable empty_db
  step : {db db' : Db V S C} → Reachable db → Step db db' → Reachable db'

find_stream-append :
    (id : String) (new : StreamRow) (ss : List StreamRow)
    → find_stream id (ss ++ new ∷ [])
      ≡ or_else (find_stream id ss) (if str_eq new.stream_id id then some new else none)
unfolding find_stream
find_stream-append id new [] = refl
find_stream-append id new (s ∷ ss) = ground (arith, find_stream-append id new ss)

module _ {V : Type 0} where
  no_rows_below : (rows : List (EventRow V)) (hi : ℕ) → Ascending 0 0 rows → Ascending 0 hi rows
  no_rows_below [] hi a = tt
  no_rows_below (e ∷ es) hi a = absurd (omega (arith, a.1))

  next_offset-insert_stream :
      (id : String) (new : StreamRow) (ss : List StreamRow) (rows : List (EventRow V))
      → Ascending 0 (next_offset id ss) rows
      → Ascending 0 (next_offset id (insert_stream new ss)) rows
  unfolding next_offset insert_stream
  next_offset-insert_stream id new ss rows a =
      elim (Bool-cases (is_some (find_stream new.stream_id ss))) [
        | inl there ↦ rw there a
        | inr missing ↦ rw missing (elim (Option-cases (find_stream id ss)) [
          | inl nothing ↦ no_rows_below rows _ (subst (λ o. Ascending 0 (next_of o) rows) nothing a)
          | inr found ↦
              let p : find_stream id (ss ++ new ∷ []) ≡ find_stream id ss =
                find_stream-append id new ss ∙ rw (found.1) refl in
              subst (λ o. Ascending 0 (next_of o) rows) (sym p) a
        ])
      ]

module _ {V S C : Type 0} where
  -- Operations on the sources alone.
  same_tables :
      (db db' : Db V S C)
      → db'.streams ≡ db.streams
      → db'.events ≡ db.events
      → IsWellFormed db
      → IsWellFormed db'
  same_tables db db' p q wf = record { ascending = λ id. rw (p, q) (wf.ascending id) }

  upserted :
      {db : Db V S C} (id : String) (create_stream : Bool) (source : SourceRecord S)
      → IsWellFormed db
      → Ascending 0
          (next_offset id
            (if create_stream then insert_stream (stream_of source) db.streams else db.streams))
          (rows_of id db.events)
  upserted {db} id true source wf =
      next_offset-insert_stream id (stream_of source) db.streams (rows_of id db.events)
        (wf.ascending id)
  upserted id false source wf = wf.ascending id

  trimmed :
      (db : Db V S C) (id : String) (before : ℕ)
      → IsWellFormed db
      → IsWellFormed ((trim_stream_before id before db).1)
  unfolding trim_stream_before
  trimmed db id before wf = record {
    ascending = λ other. elim (Bool-cases (str_eq id other)) [
      | inl same ↦
          subst
            (λ o.
              Ascending 0 (next_offset o db.streams)
                (rows_of o (delete_rows id (λ e. ltb e.offset before) db.events)))
            ((eq_iff id other).0 same)
            (rw (rows_of-delete_rows id (λ e. ltb e.offset before) db.events) (
              Ascending-keep 0 (next_offset id db.streams) _ (rows_of id db.events)
                (wf.ascending id)))
      | inr ne ↦
          rw
            (rows_of-delete_rows_ne id other (λ e. ltb e.offset before) db.events
              (ne_str id other ne))
            (wf.ascending other)
    ];
  }

  -- A commit without events leaves streams and events alone.
  commit_checkpoint-tables :
      (ns key run id : String) (c : C) (offsets : List ℕ) (db db' : Db V S C)
      → append_events_and_store_poll_checkpoint ns key run id [] c db ≡ ok (offsets, db')
      → (db'.streams ≡ db.streams) × (db'.events ≡ db.events)
  unfolding append_events_and_store_poll_checkpoint first_offset insert_events close
  commit_checkpoint-tables ns key run id c offsets db db' e =
      let a = >>=-eq-ok (ok_or (find (has_run ns key run) db.sources) source_row_not_found) _ e in
      let b = >>=-eq-ok (bail_if (not (str_eq a.0.source.stream_id id)) stream_mismatch) _ a.2 in
      let d =
        >>=-eq-ok
          (bail_if (not (length (keep (has_run ns key run) db.sources) == 1)) source_row_changed) _
          b.2 in
      (
        ap (λ r. r.1.streams) (sym (ok-injective d.2)),
        ap (λ r. r.1.events) (sym (ok-injective d.2)),
      )

  Step-IsWellFormed : (db db' : Db V S C) → Step db db' → IsWellFormed db → IsWellFormed db'
  unfolding upsert_source update_source_runtime clear_source_job delete_source
      store_poll_checkpoint_if_missing clear_poll_checkpoint
  Step-IsWellFormed db _ (upserts source create_stream) wf = record {
    ascending = λ id. upserted id create_stream source wf;
  }
  Step-IsWellFormed db _ (updates ns key update) wf = same_tables db _ refl refl wf
  Step-IsWellFormed db _ (clears_job ns key status at stopped e) wf = same_tables db _ refl refl wf
  Step-IsWellFormed db _ (deletes ns key) wf = same_tables db _ refl refl wf
  Step-IsWellFormed db _ (stores_checkpoint ns key run c) wf = same_tables db _ refl refl wf
  Step-IsWellFormed db _ (clears_checkpoint ns key run) wf = same_tables db _ refl refl wf
  Step-IsWellFormed db _ (trims id before) wf = trimmed db id before wf
  Step-IsWellFormed db db' (appends id now payload stream offset _ found small e) wf =
      let r = append_event-retained id now payload db stream found small wf in
      subst IsWellFormed (ap (λ t. t.1) (ok-injective (sym r.1 ∙ e))) r.4
  Step-IsWellFormed db db'
        (commits ns key run id p ps c row stream offsets _ current unique its found small e) wf =
      let r =
        append_events-stores ns key run id p ps c db row stream current unique its found small wf
          (λ (x : C). x) in
      subst IsWellFormed (ap (λ t. t.1) (ok-injective (sym r.1 ∙ e))) r.4
  Step-IsWellFormed db db' (commits_checkpoint ns key run id c offsets _ e) wf =
      let t = commit_checkpoint-tables ns key run id c offsets db db' e in
      same_tables db db' t.0 t.1 wf

  -- In every store that operations reach from the empty one, the offsets of each stream ascend strictly
  -- and lie below the stream's counter, and a stream that is not there has no events; while the offsets
  -- stay within the integers that SQLite stores.
  pub Reachable-IsWellFormed : (db : Db V S C) → Reachable db → IsWellFormed db
  unfolding rows_of
  Reachable-IsWellFormed _ start = record { ascending = λ id. tt }
  Reachable-IsWellFormed db' (step {db} r s) =
      Step-IsWellFormed db db' s (Reachable-IsWellFormed db r)

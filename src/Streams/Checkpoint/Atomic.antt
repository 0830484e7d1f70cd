-- ===== src/Streams/Checkpoint/Atomic.antt =====
-- What the transaction that stores events with a poll checkpoint commits.
use mathlib.Core.Option
use uxc.Base.{
  ℕ, ◌+◌, ◌-◌, ◌≤◌, String, ◌≡◌, refl, sym, ap, ◌∙◌, subst, inl, inr, true, none, some, List, [],
  ◌∷◌, ◌++◌, str_eq, eq_iff, if◌then◌else◌, Bool-cases, length, find, keep, str_eq_self, i64_max,
}
use uxc.Base.Result.{ok}
use uxc.Streams.{StreamRow, SourceRow, Db, PendingEvent}
use uxc.Streams.Tables.{rows_of, find_stream, set_next_offset}
use uxc.Streams.Tables.Ascending.{Ascending}
use uxc.Streams.Retention.{apply_retention}
use uxc.Streams.Retention.Newest.{young, newest}
use uxc.Streams.Sources.{
  has_run, update_where, set_checkpoint, checkpoint_of, poll_checkpoint_json, load_poll_checkpoint,
}
use uxc.Streams.Sources.Lookup.{checkpoint-set}
use uxc.Streams.Append.Counter.{
  IsWellFormed, next_offset, find_stream-set_self, next_offset-set_ne, next_offset_found, ne_str,
}
use uxc.Streams.Checkpoint.{first_offset, close, append_events_and_store_poll_checkpoint}
use uxc.Streams.Checkpoint.Batch.{
  stamped, offsets_from, last_time, insert_events-stamped, Ascending-stamped, rows_of-stamped,
  apply_retention-IsWellFormed,
}

-- The time of the last of some events.
abbrev pub last_ingested_at : {V : Type 0} → PendingEvent V → List (PendingEvent V) → ℕ
last_ingested_at p [] = p.ingested_at_unix
last_ingested_at p (q ∷ ps) = last_ingested_at q ps

last_time-last :
    {V : Type 0} (p : PendingEvent V) (ps : List (PendingEvent V))
    → last_time (some p.ingested_at_unix) ps ≡ some (last_ingested_at p ps)
last_time-last p [] = refl
last_time-last p (q ∷ ps) = last_time-last q ps

module _ {V S C : Type 0} (ns key run id : String) (p : PendingEvent V) (ps : List (PendingEvent V))
    (checkpoint : C) (db : Db V S C) (row : SourceRow S C) (stream : StreamRow)
    (current : find (has_run ns key run) db.sources ≡ some row)
    (unique : length (keep (has_run ns key run) db.sources) ≡ 1)
    (its_stream : row.source.stream_id ≡ id) (found : find_stream id db.streams ≡ some stream)
    (small : stream.next_event_offset + length (p ∷ ps) ≤ i64_max) (wf : IsWellFormed db) where
  abbrev next : ℕ
  next = stream.next_event_offset + length (p ∷ ps)

  abbrev batch_db : Db V S C
  batch_db = record {
    sources = update_where (has_run ns key run) (set_checkpoint (some checkpoint)) db.sources;
    streams = set_next_offset id next db.streams;
    events = db.events ++ stamped id stream.next_event_offset (p ∷ ps);
  }

  abbrev batch_stream : StreamRow
  batch_stream = record stream { next_event_offset = next }

  batch_found : find_stream id batch_db.streams ≡ some batch_stream
  batch_found = find_stream-set_self id next db.streams stream found

  Ascending-here : Ascending 0 stream.next_event_offset (rows_of id db.events)
  Ascending-here =
      subst (λ n. Ascending 0 n (rows_of id db.events))
        (next_offset_found id db.streams stream found) (wf.ascending id)

  batch-Ascending :
      (other : String)
      → Ascending 0 (next_offset other batch_db.streams) (rows_of other batch_db.events)
  batch-Ascending other =
      let r = rows_of-stamped id other stream.next_event_offset db.events (p ∷ ps) in
      elim (Bool-cases (str_eq id other)) [
        | inl same ↦
            subst (λ o. Ascending 0 (next_offset o batch_db.streams) (rows_of o batch_db.events))
              ((eq_iff id other).0 same)
              (let q = next_offset_found id batch_db.streams batch_stream batch_found in
                let r' =
                  rows_of-stamped id id stream.next_event_offset db.events (p ∷ ps)
                  ∙ rw (str_eq_self id) refl in
                subst (λ n. Ascending 0 n (rows_of id batch_db.events)) (sym q)
                  (subst (Ascending 0 next) (sym r') (
                    Ascending-stamped id stream.next_event_offset (rows_of id db.events) (p ∷ ps)
                      Ascending-here)))
        | inr ne ↦
            (let n = ne_str id other ne in
              subst (λ k. Ascending 0 k (rows_of other batch_db.events))
                (sym (next_offset-set_ne id other next db.streams n))
                (subst (Ascending 0 (next_offset other db.streams)) (sym (r ∙ rw ne refl))
                  (wf.ascending other)))
      ]

  batch_self :
      rows_of id batch_db.events
      ≡ rows_of id db.events ++ stamped id stream.next_event_offset (p ∷ ps)
  batch_self =
      rows_of-stamped id id stream.next_event_offset db.events (p ∷ ps) ∙ rw (str_eq_self id) refl

  batch_rows :
      (other : String)
      → (if str_eq id other
          then newest stream.retention_max_rows (
              young
                (last_ingested_at p ps - stream.retention_max_age_secs)
                (rows_of id batch_db.events))
          else rows_of other batch_db.events)
        ≡ (if str_eq id other
            then newest stream.retention_max_rows (
                young
                  (last_ingested_at p ps - stream.retention_max_age_secs)
                  (rows_of id db.events ++ stamped id stream.next_event_offset (p ∷ ps)))
            else rows_of other db.events)
  batch_rows other = elim (Bool-cases (str_eq id other)) [
    | inl same ↦ rw same (
        ap
          (λ rows.
            newest stream.retention_max_rows
              (young (last_ingested_at p ps - stream.retention_max_age_secs) rows))
          batch_self)
    | inr ne ↦
        rw ne (rows_of-stamped id other stream.next_event_offset db.events (p ∷ ps) ∙ rw ne refl)
  ]

  append_events-opens :
      (db' : Db V S C)
      → apply_retention id (last_ingested_at p ps) batch_db ≡ ok db'
      → append_events_and_store_poll_checkpoint ns key run id (p ∷ ps) checkpoint db
        ≡ ok (offsets_from stream.next_event_offset (p ∷ ps), db')
  unfolding append_events_and_store_poll_checkpoint first_offset close
  append_events-opens db' e =
      let s : str_eq row.source.stream_id id ≡ true =
        (eq_iff row.source.stream_id id).1 its_stream in
      rw
        (
          current,
          s,
          found,
          insert_events-stamped id (p ∷ ps) db.events [] stream.next_event_offset none
              Ascending-here small,
          unique,
          last_time-last p ps,
          e,
        )
        refl

  -- When a source's row carries the run and the stream, on a well-formed store with room for the
  -- offsets, a batch of one event or more is committed with the checkpoint. The events get the next
  -- offsets, one after another. The stream then holds, in order, the newest rows that retention allows
  -- at the time of the last event, of the young enough rows among the old ones and the batch; the rows
  -- of other streams stay. The run's checkpoint is what is read of the new one's text, and the store is
  -- well-formed again.
  pub append_events-stores :
      {A : Type 0} (from_str : C → A)
      → (db' : Db V S C) × (append_events_and_store_poll_checkpoint ns key run id
            (p ∷ ps)
            checkpoint
            db
          ≡ ok (offsets_from stream.next_event_offset (p ∷ ps), db'))
        × ((other : String)
            → rows_of other db'.events ≡ (
                if str_eq id other
                then newest stream.retention_max_rows (
                    young
                      (last_ingested_at p ps - stream.retention_max_age_secs)
                      (rows_of id db.events ++ stamped id stream.next_event_offset (p ∷ ps)))
                else rows_of other db.events))
        × (load_poll_checkpoint from_str ns key run db' ≡ some (from_str checkpoint))
        × IsWellFormed db'
  unfolding load_poll_checkpoint poll_checkpoint_json
  append_events-stores from_str =
      let r =
        apply_retention-IsWellFormed id (last_ingested_at p ps) batch_db batch_stream batch_found
          (record { ascending = batch-Ascending }) in
      let column : checkpoint_of (find (has_run ns key run) r.0.sources) ≡ some checkpoint =
        ap (λ rows. checkpoint_of (find (has_run ns key run) rows)) r.4
        ∙ checkpoint-set ns key run (some checkpoint) db.sources
        ∙ rw current refl in
      (
        r.0,
        append_events-opens r.0 r.1,
        (λ other. r.2 other ∙ batch_rows other),
        ap (Option.map from_str) column,
        r.5,
      )

-- ===== src/Streams/Append/Log.antt =====
-- `append_event` adds a row at the next offset, under the invariant of the store.
use uxc.Base.{saturating_add, i64_max}
use uxc.Base.{
  ℕ, suc, ◌-◌, ◌<◌, String, ◌≡◌, refl, ap, ◌∙◌, subst, ◌≢◌, inl, inr, some, List, [], ◌∷◌, ◌++◌,
  arith, str_eq, eq_iff, if◌then◌else◌, Bool-cases, length,
}
use uxc.Base.Result.{ok}
use uxc.Streams.{EventRow, StreamRow, Db}
use uxc.Streams.Tables.{rows_of, find_stream, set_next_offset}
use uxc.Streams.Tables.Ascending.{Ascending, Ascending-append, Ascending-keep, Ascending-drop}
use uxc.Streams.Retention.{apply_retention}
use uxc.Streams.Retention.Newest.{young, newest, apply_retention-newest}
use uxc.Streams.Append.{append_event}
use uxc.Streams.Append.Counter.{
  next_of, next_offset, IsWellFormed, insert_event_next, rows_of-append_self, rows_of-append_ne,
  saturating_add-suc, ne_str, by_stream, find_stream-set_self, next_offset-set_ne,
  next_offset_found,
}

module _ {V S C : Type 0} (id : String) (now : ℕ) (payload : V) (db : Db V S C) (stream : StreamRow)
    (found : find_stream id db.streams ≡ some stream) (small : stream.next_event_offset < i64_max)
    (wf : IsWellFormed db) where
  abbrev appended : EventRow V
  appended = record {
    stream_id = id;
    offset = stream.next_event_offset;
    ingested_at_unix = now;
    raw_payload = payload;
  }

  abbrev appended_db : Db V S C
  appended_db = record db {
    events = db.events ++ appended ∷ [];
    streams = set_next_offset id (saturating_add stream.next_event_offset 1) db.streams;
  }

  Ascending-here : Ascending 0 stream.next_event_offset (rows_of id db.events)
  Ascending-here =
      subst (λ n. Ascending 0 n (rows_of id db.events))
        (next_offset_found id db.streams stream found) (wf.ascending id)

  appended-Ascending : Ascending 0 (suc stream.next_event_offset) (rows_of id appended_db.events)
  appended-Ascending = rw (rows_of-append_self appended db.events) (
      Ascending-append 0 stream.next_event_offset (rows_of id db.events) appended Ascending-here
        (omega arith) (omega arith))

  append_event_opens :
      (db' : Db V S C)
      → apply_retention id now appended_db ≡ ok db'
      → append_event id now payload db ≡ ok (stream.next_event_offset, db')
  unfolding append_event
  append_event_opens db' e =
      rw (found, append_event)
        (rw (insert_event_next appended db.events Ascending-here) (rw e refl))

  counter-here :
      (ss : List StreamRow)
      → ss ≡ appended_db.streams
      → next_offset id ss ≡ suc stream.next_event_offset
  unfolding next_offset
  counter-here ss q =
      ap (next_offset id) q
      ∙ ap next_of (
          find_stream-set_self id (saturating_add stream.next_event_offset 1) db.streams stream
            found)
      ∙ saturating_add-suc stream.next_event_offset small

  Ascending-same :
      (db' : Db V S C)
      → (rows_of id db'.events
          ≡ newest stream.retention_max_rows
              (young (now - stream.retention_max_age_secs) (rows_of id appended_db.events)))
      → db'.streams ≡ appended_db.streams
      → Ascending 0 (next_offset id db'.streams) (rows_of id db'.events)
  Ascending-same db' here ss =
      let kept = young (now - stream.retention_max_age_secs) (rows_of id appended_db.events) in
      rw (counter-here db'.streams ss, here)
        (Ascending-drop 0 (suc stream.next_event_offset) (length kept - stream.retention_max_rows)
          kept
          (Ascending-keep 0 (suc stream.next_event_offset) _ (rows_of id appended_db.events)
            appended-Ascending))

  Ascending-other :
      (db' : Db V S C) (other : String)
      → id ≢ other
      → rows_of other db'.events ≡ rows_of other db.events
      → db'.streams ≡ appended_db.streams
      → Ascending 0 (next_offset other db'.streams) (rows_of other db'.events)
  Ascending-other db' other n there ss =
      let c : next_offset other db'.streams ≡ next_offset other db.streams =
        ap (next_offset other) ss
        ∙ next_offset-set_ne id other (saturating_add stream.next_event_offset 1) db.streams n in
      rw (c, there) (wf.ascending other)

  append_event-keeps :
      (db' : Db V S C)
      → (rows_of id db'.events
          ≡ newest stream.retention_max_rows
              (young (now - stream.retention_max_age_secs) (rows_of id appended_db.events)))
      → ((other : String) → id ≢ other → rows_of other db'.events ≡ rows_of other db.events)
      → db'.streams ≡ appended_db.streams
      → IsWellFormed db'
  append_event-keeps db' here there ss = record {
    ascending = λ other. elim (Bool-cases (str_eq id other)) [
      | inl same ↦
          subst (λ o. Ascending 0 (next_offset o db'.streams) (rows_of o db'.events))
            ((eq_iff id other).0 same) (Ascending-same db' here ss)
      | inr ne ↦ let n = ne_str id other ne in Ascending-other db' other n (there other n) ss
    ];
  }

  -- On a well-formed store, an append to a stream that exists and whose counter is below the largest
  -- i64 succeeds. It returns the counter as the event's offset and adds one to the counter. The stream
  -- then holds, in order, the newest rows that retention allows, of the young enough rows among the old
  -- ones and the new one. The rows and counters of other streams and the sources stay as they were, and
  -- the store is well-formed again.
  pub append_event-retained :
      (db' : Db V S C) × (append_event id now payload db ≡ ok (stream.next_event_offset, db'))
      × ((other : String)
          → (rows_of other db'.events ≡ (
              if str_eq id other
              then newest stream.retention_max_rows (
                  young
                    (now - stream.retention_max_age_secs)
                    (rows_of id db.events ++ appended ∷ []))
              else rows_of other db.events))
            × (next_offset other db'.streams ≡ (
                if str_eq id other
                then suc stream.next_event_offset
                else next_offset other db.streams)))
      × (db'.sources ≡ db.sources)
      × IsWellFormed db'
  append_event-retained =
      let next = saturating_add stream.next_event_offset 1 in
      let after : StreamRow = record stream { next_event_offset = next } in
      let r =
        apply_retention-newest id now 0 (suc stream.next_event_offset) appended_db after
          (find_stream-set_self id next db.streams stream found) appended-Ascending in
      let db' = r.0 in
      let others : (other : String)
          → id ≢ other
          → rows_of other db'.events ≡ rows_of other db.events =
        λ other n. r.3 other n ∙ rows_of-append_ne other appended db.events n in
      (
        db',
        append_event_opens db' r.1,
        (λ other. (
          by_stream id other (λ o. rows_of o db'.events) (λ o. rows_of o db.events) _
              (r.2
                ∙ ap
                    (λ l.
                      newest stream.retention_max_rows
                        (young (now - stream.retention_max_age_secs) l))
                    (rows_of-append_self appended db.events))
              (others other),
          by_stream id other (λ o. next_offset o db'.streams) (λ o. next_offset o db.streams) _
              (counter-here db'.streams r.4)
              (λ n. ap (next_offset other) r.4 ∙ next_offset-set_ne id other next db.streams n),
        )),
        r.5,
        append_event-keeps db' r.2 others r.4,
      )

-- ===== src/Streams/Checkpoint/Batch.antt =====
-- The batch of events that is stored with a poll checkpoint.
use mathlib.Core.List.{append-nil, append_assoc}
use uxc.Base.{
  ℕ, suc, ◌+◌, ◌-◌, ◌≤◌, String, ◌≡◌, refl, ap, ◌∙◌, subst, ◌≢◌, inl, inr, Option, some, List, [],
  ◌∷◌, ◌++◌, arith, str_eq, eq_iff, if◌then◌else◌, Bool-cases, length, str_eq_self, str_eq-ne,
  i64_max,
}
use uxc.Base.Result.{ok}
use uxc.Streams.{EventRow, StreamRow, Db, PendingEvent}
use uxc.Streams.Tables.{of_stream, rows_of, find_stream}
use uxc.Base.{keep-append}
use uxc.Streams.Tables.Ascending.{Ascending, Ascending-append, Ascending-keep, Ascending-drop}
use uxc.Streams.Retention.{apply_retention}
use uxc.Streams.Retention.Newest.{young, newest, apply_retention-newest}
use uxc.Streams.Append.Counter.{
  IsWellFormed, next_offset, insert_event_next, rows_of-append_self, saturating_add-suc, by_stream,
  ne_str,
}
use uxc.Streams.Checkpoint.{insert_events}

-- The rows of the pending events, from an offset on.
abbrev pub stamped : {V : Type 0} → String → ℕ → List (PendingEvent V) → List (EventRow V)
stamped id n [] = []
stamped id n (p ∷ ps) =
    record {
      stream_id = id;
      offset = n;
      ingested_at_unix = p.ingested_at_unix;
      raw_payload = p.payload;
    }
    ∷ stamped id (suc n) ps

abbrev pub offsets_from : {V : Type 0} → ℕ → List (PendingEvent V) → List ℕ
offsets_from n [] = []
offsets_from n (p ∷ ps) = n ∷ offsets_from (suc n) ps

abbrev pub last_time : {V : Type 0} → Option ℕ → List (PendingEvent V) → Option ℕ
last_time t [] = t
last_time t (p ∷ ps) = last_time (some p.ingested_at_unix) ps

module _ {V : Type 0} (id : String) where
  pub insert_events-stamped :
      (ps : List (PendingEvent V)) (events : List (EventRow V)) (offsets : List ℕ) (n : ℕ)
      (t : Option ℕ)
      → Ascending 0 n (rows_of id events)
      → n + length ps ≤ i64_max
      → insert_events id ps
          (record { events = events; offsets = offsets; next_offset = n; latest_ingested_at = t })
        ≡ ok (record {
          events = events ++ stamped id n ps;
          offsets = offsets ++ offsets_from n ps;
          next_offset = n + length ps;
          latest_ingested_at = last_time t ps;
        })
  unfolding insert_events
  insert_events-stamped [] events offsets n t a h =
      let z : n + 0 ≡ n = omega arith in rw (append-nil events, append-nil offsets, z)
  insert_events-stamped (p ∷ ps) events offsets n t a h =
      let e : EventRow V = record {
        stream_id = id;
        offset = n;
        ingested_at_unix = p.ingested_at_unix;
        raw_payload = p.payload;
      } in
      let here : Ascending 0 (suc n) (rows_of id (events ++ e ∷ [])) =
        rw (rows_of-append_self e events)
          (Ascending-append 0 n (rows_of id events) e a (omega arith) (omega arith)) in
      let rest =
        insert_events-stamped ps (events ++ e ∷ []) (offsets ++ n ∷ []) (suc n)
          (some p.ingested_at_unix) here (omega arith) in
      rw (insert_event_next e events a, saturating_add-suc n (omega arith))
        (rest
          ∙ rw
              (
                append_assoc events (e ∷ []) (stamped id (suc n) ps),
                append_assoc offsets (n ∷ []) (offsets_from (suc n) ps),
                (let z : n + suc (length ps) ≡ suc n + length ps = omega arith in z),
              )
              refl)

  pub stamped_here :
      (n : ℕ) (ps : List (PendingEvent V)) → rows_of id (stamped id n ps) ≡ stamped id n ps
  unfolding rows_of
  stamped_here n [] = refl
  stamped_here n (p ∷ ps) = ground (arith, stamped_here (suc n) ps, str_eq_self id)

  pub stamped_other :
      (other : String) (n : ℕ) (ps : List (PendingEvent V))
      → id ≢ other
      → rows_of other (stamped id n ps) ≡ []
  unfolding rows_of
  stamped_other other n [] ne = refl
  stamped_other other n (p ∷ ps) ne =
      ground (arith, stamped_other other (suc n) ps ne, str_eq-ne id other ne)

  pub Ascending-stamped :
      (n : ℕ) (rows : List (EventRow V)) (ps : List (PendingEvent V))
      → Ascending 0 n rows
      → Ascending 0 (n + length ps) (rows ++ stamped id n ps)
  Ascending-stamped n rows [] a = let z : n + 0 ≡ n = omega arith in rw (append-nil rows, z) a
  Ascending-stamped n rows (p ∷ ps) a =
      let e : EventRow V = record {
        stream_id = id;
        offset = n;
        ingested_at_unix = p.ingested_at_unix;
        raw_payload = p.payload;
      } in
      let z : suc n + length ps ≡ n + suc (length ps) = omega arith in
      subst (λ l. Ascending 0 l (rows ++ e ∷ stamped id (suc n) ps)) z
        (subst (Ascending 0 (suc n + length ps))
          (append_assoc rows (e ∷ []) (stamped id (suc n) ps))
          (Ascending-stamped (suc n) (rows ++ e ∷ []) ps
            (Ascending-append 0 n rows e a (omega arith) (omega arith))))

  pub rows_of-stamped :
      (other : String) (n : ℕ) (events : List (EventRow V)) (ps : List (PendingEvent V))
      → rows_of other (events ++ stamped id n ps)
        ≡ (if str_eq id other then rows_of id events ++ stamped id n ps else rows_of other events)
  unfolding rows_of
  rows_of-stamped other n events ps =
      by_stream id other (λ o. rows_of o (events ++ stamped id n ps)) (λ o. rows_of o events) _
        (keep-append (of_stream id) events (stamped id n ps)
          ∙ ap (◌++◌ (rows_of id events)) (stamped_here n ps))
        (λ ne.
          keep-append (of_stream other) events (stamped id n ps)
          ∙ ap (◌++◌ (rows_of other events)) (stamped_other other n ps ne)
          ∙ append-nil (rows_of other events))

module _ {V S C : Type 0} (id : String) (now : ℕ) (db : Db V S C) (stream : StreamRow)
    (found : find_stream id db.streams ≡ some stream) (wf : IsWellFormed db) where
  retained-Ascending :
      (db' : Db V S C)
      → db'.streams ≡ db.streams
      → (rows_of id db'.events
          ≡ newest stream.retention_max_rows
              (young (now - stream.retention_max_age_secs) (rows_of id db.events)))
      → ((other : String) → id ≢ other → rows_of other db'.events ≡ rows_of other db.events)
      → (other : String) → Ascending 0 (next_offset other db'.streams) (rows_of other db'.events)
  retained-Ascending db' ss here there other =
      let kept = young (now - stream.retention_max_age_secs) (rows_of id db.events) in
      let next = next_offset id db.streams in
      let at_id : Ascending 0 (next_offset id db'.streams) (rows_of id db'.events) =
        rw (ss, here)
          (Ascending-drop 0 next (length kept - stream.retention_max_rows) kept
            (Ascending-keep 0 next _ (rows_of id db.events) (wf.ascending id))) in
      elim (Bool-cases (str_eq id other)) [
        | inl same ↦
            subst (λ o. Ascending 0 (next_offset o db'.streams) (rows_of o db'.events))
              ((eq_iff id other).0 same) at_id
        | inr ne ↦ rw (ss, there other (ne_str id other ne)) (wf.ascending other)
      ]

  -- Retention keeps a store well-formed.
  pub apply_retention-IsWellFormed :
      (db' : Db V S C) × (apply_retention id now db ≡ ok db')
      × ((other : String)
          → rows_of other db'.events ≡ (
              if str_eq id other
              then newest stream.retention_max_rows
                  (young (now - stream.retention_max_age_secs) (rows_of id db.events))
              else rows_of other db.events))
      × (db'.streams ≡ db.streams)
      × (db'.sources ≡ db.sources)
      × IsWellFormed db'
  apply_retention-IsWellFormed =
      let r =
        apply_retention-newest id now 0 (next_offset id db.streams) db stream found
          (wf.ascending id) in
      let db' = r.0 in
      (
        db',
        r.1,
        (λ other.
            by_stream id other (λ o. rows_of o db'.events) (λ o. rows_of o db.events) _ r.2
              (r.3 other)),
        r.4,
        r.5,
        record { ascending = retained-Ascending db' r.4 r.2 r.3 },
      )

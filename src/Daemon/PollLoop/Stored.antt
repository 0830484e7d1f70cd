-- ===== src/Daemon/PollLoop/Stored.antt =====
-- The stored checkpoint of a run, after the operations of the store that the loop calls.
use uxc.Base.{
  ℕ, String, ◌≡◌, refl, sym, ap, ◌∙◌, inl, inr, Bool, Option, none, some, List, [], ◌∷◌, arith,
  str_eq, ◌==◌, Bool-cases, Option-cases, length, find, keep,
}
use uxc.Base.Result.{◌>>=◌, Result, ok, ok-injective, err-ne-ok, Result-cases}
use uxc.Streams.{StoreError, EventRow, SourceRow, RuntimeUpdate, Db, PendingEvent}
use uxc.Streams.Tables.{find_stream, set_next_offset}
use uxc.Streams.Retention.{apply_retention}
use uxc.Streams.Sources.{
  has_run, update_where, set_checkpoint, checkpoint_of, poll_checkpoint_json, update_source_runtime,
  clear_source_job,
}
use uxc.Streams.Sources.Lookup.{checkpoint-set}
use uxc.Streams.Checkpoint.{
  insert_events, first_offset, close, append_events_and_store_poll_checkpoint,
}

module _ {S C : Type 0} where
  -- An update of other columns than the key, the run and the checkpoint.
  checkpoint-update_where :
      (ns key run : String) (p : SourceRow S C → Bool) (f : SourceRow S C → SourceRow S C)
      (rows : List (SourceRow S C))
      → ((row : SourceRow S C) → has_run ns key run (f row) ≡ has_run ns key run row)
      → ((row : SourceRow S C) → (f row).poll_checkpoint ≡ row.poll_checkpoint)
      → checkpoint_of (find (has_run ns key run) (update_where p f rows))
        ≡ checkpoint_of (find (has_run ns key run) rows)
  unfolding update_where
  checkpoint-update_where ns key run p f [] h g = refl
  checkpoint-update_where ns key run p f (row ∷ rows) h g =
      ground (arith, checkpoint-update_where ns key run p f rows h g, h row, g row)

module _ {V S C : Type 0} where
  pub poll_checkpoint_json-update :
      (ns key run ns' key' : String) (update : RuntimeUpdate) (db : Db V S C)
      → poll_checkpoint_json ns key run (update_source_runtime ns' key' update db)
        ≡ poll_checkpoint_json ns key run db
  unfolding poll_checkpoint_json update_source_runtime
  poll_checkpoint_json-update ns key run ns' key' update db =
      checkpoint-update_where ns key run _ _ db.sources (λ row. refl) (λ row. refl)

  pub poll_checkpoint_json-clear :
      (ns key run ns' key' status : String) (at : ℕ) (stopped : Option ℕ) (e : Option String)
      (db : Db V S C)
      → poll_checkpoint_json ns key run (clear_source_job ns' key' status at stopped e db)
        ≡ poll_checkpoint_json ns key run db
  unfolding poll_checkpoint_json clear_source_job
  poll_checkpoint_json-clear ns key run ns' key' status at stopped e db =
      checkpoint-update_where ns key run _ _ db.sources (λ row. refl) (λ row. refl)

  close-sources :
      (id : String) (t : Option ℕ) (next : ℕ) (db db' : Db V S C)
      → close id t next db ≡ ok db'
      → db'.sources ≡ db.sources
  unfolding close apply_retention
  close-sources id none next db db' e = ap (λ d. d.sources) (sym (ok-injective e))
  close-sources id (some now) next db db' e =
      elim (Option-cases (find_stream id (set_next_offset id next db.streams))) [
        | inl n ↦ absurd (err-ne-ok _ db' (rw (n, close, apply_retention) at e))
        | inr (s, f) ↦
            ap (λ d. d.sources) (sym (ok-injective (rw (f, close, apply_retention) at e)))
      ]

  committed :
      (ns key run id : String) (t : Option ℕ) (next : ℕ) (db : Db V S C) (offsets : List ℕ) (c : C)
      (events : List (EventRow V)) (row : SourceRow S C) (r : List ℕ × Db V S C)
      → find (has_run ns key run) db.sources ≡ some row
      → (do
        db' ← close id t next (record db {
          sources = update_where (has_run ns key run) (set_checkpoint (some c)) db.sources;
          events = events;
        })
        (let o : Result StoreError (List ℕ × Db V S C) = ok (offsets, db') in o))
        ≡ ok r
      → poll_checkpoint_json ns key run r.1 ≡ some c
  unfolding poll_checkpoint_json
  committed ns key run id t next db offsets c events row r found e =
      let db0 = record db {
        sources = update_where (has_run ns key run) (set_checkpoint (some c)) db.sources;
        events = events;
      } in
      elim (Result-cases (close id t next db0)) [
        | inr (x, f) ↦ absurd (err-ne-ok x r (rw f at e))
        | inl (db', f) ↦
            ap (λ d. checkpoint_of (find (has_run ns key run) d.1.sources))
              (sym (ok-injective (rw f at e)))
            ∙ ap (λ rows. checkpoint_of (find (has_run ns key run) rows))
                (close-sources id t next db0 db' f)
            ∙ checkpoint-set ns key run (some c) db.sources
            ∙ rw found refl
      ]

  -- A transaction that succeeds stores the checkpoint.
  pub poll_checkpoint_json-append :
      (ns key run id : String) (ps : List (PendingEvent V)) (c : C) (db : Db V S C)
      (r : List ℕ × Db V S C)
      → append_events_and_store_poll_checkpoint ns key run id ps c db ≡ ok r
      → poll_checkpoint_json ns key run r.1 ≡ some c
  unfolding append_events_and_store_poll_checkpoint
  poll_checkpoint_json-append ns key run id ps c db r e =
      elim (Option-cases (find (has_run ns key run) db.sources)) [
        | inl n ↦ absurd (err-ne-ok _ r (rw (n, append_events_and_store_poll_checkpoint) at e))
        | inr (row, f) ↦ elim (Bool-cases (str_eq row.source.stream_id id)) [
          | inr b ↦ absurd (err-ne-ok _ r (rw (f, b, append_events_and_store_poll_checkpoint) at e))
          | inl b ↦ elim (Result-cases (first_offset id ps db.streams)) [
            | inr (x, n) ↦
                absurd (err-ne-ok _ r (rw (f, b, n, append_events_and_store_poll_checkpoint) at e))
            | inl (next, n) ↦
                elim (Result-cases (
                  insert_events id ps (record {
                    events = db.events;
                    offsets = [];
                    next_offset = next;
                    latest_ingested_at = none;
                  }))) [
                    | inr (x, i) ↦ absurd (
                        err-ne-ok _ r
                          (rw (f, b, n, i, append_events_and_store_poll_checkpoint) at e))
                    | inl (done, i) ↦
                        elim (Bool-cases (length (keep (has_run ns key run) db.sources) == 1)) [
                          | inr u ↦ absurd (
                              err-ne-ok _ r
                                (rw (f, b, n, i, u, append_events_and_store_poll_checkpoint) at e))
                          | inl u ↦
                              committed ns key run id done.latest_ingested_at done.next_offset db
                                done.offsets c done.events row r f
                                (rw (f, b, n, i, u, append_events_and_store_poll_checkpoint) at e)
                        ]
                  ]
          ]
        ]
      ]

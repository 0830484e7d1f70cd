-- ===== src/Streams/Retention/Newest.antt =====
-- What retention and trimming leave of a stream, and of the other streams.
use uxc.Base.{
  ℕ, ◌-◌, String, ◌≡◌, refl, sym, ap, ◌∙◌, subst, ◌≢◌, inl, inr, not, some, List, arith, ltb,
  Bool-cases, length, take, drop, keep,
}
use uxc.Base.Result.{ok}
use uxc.Streams.{EventRow, StreamRow, Db}
use uxc.Streams.Tables.{rows_of, find_stream}
use uxc.Streams.Tables.Rows.{rows_of-delete_rows, rows_of-delete_rows_ne}
use uxc.Streams.Tables.Ascending.{Ascending, Ascending-keep, order_by_offset-Ascending, keep-drop}
use uxc.Streams.Retention.{is_among, delete_expired, delete_overflow, apply_retention}

-- The rows that are young enough, and of these the newest, as many as may stay.
abbrev pub young : {V : Type 0} → ℕ → List (EventRow V) → List (EventRow V)
young cutoff rows = keep (λ e. not (ltb e.ingested_at_unix cutoff)) rows

abbrev pub newest : {V : Type 0} → ℕ → List (EventRow V) → List (EventRow V)
newest max_rows rows = drop (length rows - max_rows) rows

module _ {V : Type 0} where
  pub rows_of-delete_overflow :
      (id : String) (max_rows lo hi : ℕ) (events : List (EventRow V))
      → Ascending lo hi (rows_of id events)
      → rows_of id (delete_overflow id max_rows events) ≡ newest max_rows (rows_of id events)
  unfolding delete_overflow
  rows_of-delete_overflow id max_rows lo hi events a =
      let rows = rows_of id events in
      elim (Bool-cases (ltb max_rows (length rows))) [
        | inl more ↦ rw more (
            rows_of-delete_rows id _ events
            ∙ ap (λ l. keep (λ e. not (is_among (take (length rows - max_rows) l) e)) rows)
                (order_by_offset-Ascending lo hi rows a)
            ∙ keep-drop lo hi (length rows - max_rows) rows a)
        | inr fits ↦ rw fits (let z : length rows - max_rows ≡ 0 = ground arith in rw z)
      ]

  pub rows_of-delete_overflow_ne :
      (id other : String) (max_rows : ℕ) (events : List (EventRow V))
      → id ≢ other
      → rows_of other (delete_overflow id max_rows events) ≡ rows_of other events
  unfolding delete_overflow
  rows_of-delete_overflow_ne id other max_rows events n =
      elim (Bool-cases (ltb max_rows (length (rows_of id events)))) [
        | inl more ↦ rw more (rows_of-delete_rows_ne id other _ events n)
        | inr fits ↦ rw fits
      ]

module _ {V S C : Type 0} where
  -- Retention keeps of a stream whose offsets ascend the newest rows, as many as the stream may have,
  -- of those that are young enough, in order and nothing else; the other streams, the sources and the
  -- offset counters stay as they are.
  pub apply_retention-newest :
      (id : String) (now lo hi : ℕ) (db : Db V S C) (stream : StreamRow)
      → find_stream id db.streams ≡ some stream
      → Ascending lo hi (rows_of id db.events)
      → (db' : Db V S C) × (apply_retention id now db ≡ ok db')
        × (rows_of id db'.events
            ≡ newest stream.retention_max_rows
                (young (now - stream.retention_max_age_secs) (rows_of id db.events)))
        × ((other : String) → id ≢ other → rows_of other db'.events ≡ rows_of other db.events)
        × (db'.streams ≡ db.streams)
        × (db'.sources ≡ db.sources)
  unfolding apply_retention delete_expired
  apply_retention-newest id now lo hi db stream e a =
      let cutoff = now - stream.retention_max_age_secs in
      let kept = delete_expired id cutoff db.events in
      let q : rows_of id kept ≡ young cutoff (rows_of id db.events) =
        rows_of-delete_rows id _ db.events in
      (
        record db { events = delete_overflow id stream.retention_max_rows kept },
        rw (e, apply_retention) refl,
        rows_of-delete_overflow id stream.retention_max_rows lo hi kept
              (subst (Ascending lo hi) (sym q) (Ascending-keep lo hi _ (rows_of id db.events) a))
            ∙ ap (newest stream.retention_max_rows) q,
        (λ other n.
            rows_of-delete_overflow_ne id other stream.retention_max_rows kept n
            ∙ rows_of-delete_rows_ne id other _ db.events n),
        refl,
        refl,
      )

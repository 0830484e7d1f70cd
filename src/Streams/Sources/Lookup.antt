-- ===== src/Streams/Sources/Lookup.antt =====
-- What a source and its poll checkpoint read as, after the operations that write them.
use mathlib.Core.Option
use uxc.Base.{
  String, ◌≡◌, refl, ap, ◌∙◌, Bool, true, false, not, ◌&&◌, Option, none, some, List, [], ◌∷◌,
  arith, str_eq, eq_iff, if◌then◌else◌, Option-cases, is_some, unwrap_or, find, str_eq_self,
}
use uxc.Streams.{SourceRecord, SourceRow, Db}
use uxc.Streams.Sources.{
  has_key, has_run, update_where, set_checkpoint, upsert_row, checkpoint_of, get_source,
  upsert_source, poll_checkpoint_json, load_poll_checkpoint, store_poll_checkpoint_if_missing,
  clear_poll_checkpoint,
}

-- The record that an upsert leaves, given the one that was there.
abbrev pub merged : {S : Type 0} → SourceRecord S → Option (SourceRecord S) → SourceRecord S
merged new none = new
merged new (some old) = record new { created_at_unix = old.created_at_unix }

if_same : {C : Type 0} (b : Bool) → (let o : Option C = if b then none else none in o) ≡ none
if_same true = refl
if_same false = refl

module _ {S C : Type 0} where
  find-upsert_row :
      (new : SourceRecord S) (ns key : String) (rows : List (SourceRow S C))
      → Option.map (λ row. row.source) (find (has_key ns key) (upsert_row new rows)) ≡ (
          if str_eq new.namespace ns && str_eq new.source_key key
          then some (merged new (Option.map (λ row. row.source) (find (has_key ns key) rows)))
          else Option.map (λ row. row.source) (find (has_key ns key) rows))
  unfolding upsert_row
  find-upsert_row new ns key [] = ground arith
  find-upsert_row new ns key (row ∷ rows) = ground (
    arith,
    find-upsert_row new ns key rows,
    eq_iff new.namespace ns,
    eq_iff new.source_key key,
    eq_iff row.source.namespace ns,
    eq_iff row.source.source_key key,
    eq_iff row.source.namespace new.namespace,
    eq_iff row.source.source_key new.source_key,
  )

  checkpoint-upsert_row :
      (new : SourceRecord S) (rows : List (SourceRow S C))
      → checkpoint_of (find (has_run new.namespace new.source_key new.run_id) (upsert_row new rows))
        ≡ none
  unfolding upsert_row
  checkpoint-upsert_row new [] =
      ground (arith, str_eq_self new.namespace, str_eq_self new.source_key, str_eq_self new.run_id)
  checkpoint-upsert_row new (row ∷ rows) = ground (
    arith,
    checkpoint-upsert_row new rows,
    str_eq_self new.namespace,
    str_eq_self new.source_key,
    str_eq_self new.run_id,
    eq_iff row.source.namespace new.namespace,
    eq_iff row.source.source_key new.source_key,
  )

  -- The checkpoint that a run has after one is stored if missing.
  abbrev pub kept_or : C → Option (SourceRow S C) → Option C
  kept_or c none = none
  kept_or c (some row) = some (unwrap_or row.poll_checkpoint c)

  checkpoint-store :
      (ns key run : String) (c : C) (rows : List (SourceRow S C))
      → checkpoint_of (
          find (has_run ns key run) (
            update_where
              (λ row. has_run ns key run row && not (is_some row.poll_checkpoint))
              (set_checkpoint (some c))
              rows))
        ≡ kept_or c (find (has_run ns key run) rows)
  unfolding update_where
  checkpoint-store ns key run c [] = refl
  checkpoint-store ns key run c (row ∷ rows) =
      ground (arith, checkpoint-store ns key run c rows, Option-cases row.poll_checkpoint)

  pub checkpoint-set :
      (ns key run : String) (c : Option C) (rows : List (SourceRow S C))
      → checkpoint_of
          (find (has_run ns key run) (update_where (has_run ns key run) (set_checkpoint c) rows))
        ≡ (if is_some (find (has_run ns key run) rows) then c else none)
  unfolding update_where
  checkpoint-set ns key run c [] = refl
  checkpoint-set ns key run c (row ∷ rows) = ground (arith, checkpoint-set ns key run c rows)

  kept_or-empty :
      (c : C) (o : Option (SourceRow S C))
      → checkpoint_of o ≡ none
      → kept_or c o ≡ (if is_some o then some c else none)
  kept_or-empty c none e = refl
  kept_or-empty c (some row) e = rw e refl

  find-update_where :
      (ns key : String) (p : SourceRow S C → Bool) (c : Option C) (rows : List (SourceRow S C))
      → Option.map
          (λ row. row.source)
          (find (has_key ns key) (update_where p (set_checkpoint c) rows))
        ≡ Option.map (λ row. row.source) (find (has_key ns key) rows)
  unfolding update_where
  find-update_where ns key p c [] = refl
  find-update_where ns key p c (row ∷ rows) = ground (arith, find-update_where ns key p c rows)

  find_run-update_where :
      (ns key run : String) (c : Option C) (rows : List (SourceRow S C))
      → is_some
          (find (has_run ns key run) (update_where (has_run ns key run) (set_checkpoint c) rows))
        ≡ is_some (find (has_run ns key run) rows)
  unfolding update_where
  find_run-update_where ns key run c [] = refl
  find_run-update_where ns key run c (row ∷ rows) =
      ground (arith, find_run-update_where ns key run c rows)

module _ {V S C : Type 0} (db : Db V S C) where
  -- After an upsert, the source of that key reads as the record, but with the creation time of the
  -- source that was there, if there was one; the sources of other keys read as before; and the run that
  -- the record names starts without a poll checkpoint.
  pub upsert_source-restarts :
      {A : Type 0} (from_str : C → A) (source : SourceRecord S) (create_stream : Bool)
      (ns key : String)
      → let db' = upsert_source source create_stream db in
        (get_source ns key db' ≡ (
          if str_eq source.namespace ns && str_eq source.source_key key
          then some (merged source (get_source ns key db))
          else get_source ns key db))
        × (load_poll_checkpoint from_str source.namespace source.source_key source.run_id db'
            ≡ none)
  unfolding upsert_source get_source load_poll_checkpoint poll_checkpoint_json
  upsert_source-restarts from_str source create_stream ns key = (
    find-upsert_row source ns key db.sources,
    ap (Option.map from_str) (checkpoint-upsert_row source db.sources),
  )

  -- To store a poll checkpoint if it is missing gives a run that exists the checkpoint that it has, or
  -- else the new one, and a run that does not exist none; no source, stream or event changes.
  pub store_poll_checkpoint_if_missing-keeps :
      (ns key run : String) (c : C) (ns' key' : String)
      → let db' = (store_poll_checkpoint_if_missing ns key run c db).1 in
        (poll_checkpoint_json ns key run db' ≡ kept_or c (find (has_run ns key run) db.sources))
        × (get_source ns' key' db' ≡ get_source ns' key' db)
        × (db'.streams ≡ db.streams)
        × (db'.events ≡ db.events)
  unfolding store_poll_checkpoint_if_missing get_source poll_checkpoint_json
  store_poll_checkpoint_if_missing-keeps ns key run c ns' key' = (
    checkpoint-store ns key run c db.sources,
    find-update_where ns' key' _ (some c) db.sources,
    refl,
    refl,
  )

  -- After a run's checkpoint is cleared it has none, and the next one that is stored if missing is the
  -- run's checkpoint, when the run exists.
  pub clear_poll_checkpoint-store :
      (ns key run : String) (c : C)
      → let cleared = clear_poll_checkpoint ns key run db in
        (poll_checkpoint_json ns key run cleared ≡ none)
        × (poll_checkpoint_json ns key run
              ((store_poll_checkpoint_if_missing ns key run c cleared).1)
            ≡ (if is_some (find (has_run ns key run) db.sources) then some c else none))
  unfolding store_poll_checkpoint_if_missing clear_poll_checkpoint poll_checkpoint_json
  clear_poll_checkpoint-store ns key run c =
      let old = db.sources in
      let rows = update_where (has_run ns key run) (set_checkpoint none) old in
      let cleared : checkpoint_of (find (has_run ns key run) rows) ≡ none =
        checkpoint-set ns key run none old ∙ if_same (is_some (find (has_run ns key run) old)) in
      (
        cleared,
        checkpoint-store ns key run c rows
            ∙ kept_or-empty c (find (has_run ns key run) rows) cleared
            ∙ ap (λ b. if b then some c else none) (find_run-update_where ns key run none old),
      )

-- ===== src/Daemon/PollLoop/Import.antt =====
-- src/daemon.rs: `load_or_import_legacy_managed_source_checkpoint`, with the checkpoint file that older
-- versions wrote.
use mathlib.Core.Option
use uxc.Base.{◌≡◌, Option, none, some, if◌then◌else◌}
use uxc.Base.Result.{Result, ok, err}
use uxc.Streams.{Db}
use uxc.Streams.Sources.{load_poll_checkpoint, store_poll_checkpoint_if_missing}
use uxc.Daemon.PollLoop.{Source}

-- The legacy file: not there, not readable, not a checkpoint, or a checkpoint.
pub data LegacyFile (C : Type 0) : Type 0 where
  missing : LegacyFile C
  unreadable : LegacyFile C
  malformed : LegacyFile C
  holds : C → LegacyFile C

pub data ImportError : Type 0 where
  read_failed : ImportError
  not_a_checkpoint : ImportError

-- What an import returns, beside the store and the file that it leaves.
pub record Imported (V S C : Type 0) : Type 0 where
  pub result : Result ImportError (Option C)
  pub db : Db V S C
  pub file : LegacyFile C

-- `from_str` says what is read of a text.
module _ {V S C : Type 0} (from_str : C → C) (source : Source) where
  open source use {namespace, source_key, run_id}

  unfoldable pub import_file : LegacyFile C → Db V S C → Imported V S C
  import_file missing db = record { result = ok none; db = db; file = missing }
  import_file unreadable db = record { result = err read_failed; db = db; file = unreadable }
  import_file malformed db = record { result = err not_a_checkpoint; db = db; file = malformed }
  import_file (holds text) db =
      let checkpoint = from_str text in
      let (imported, db') =
        store_poll_checkpoint_if_missing namespace source_key run_id checkpoint db in
      record {
        result = ok (some checkpoint);
        db = db';
        file = if imported then missing else holds text;
      }

  unfoldable pub load_or_import : LegacyFile C → Db V S C → Imported V S C
  load_or_import file db = elim (load_poll_checkpoint from_str namespace source_key run_id db) [
    | some checkpoint ↦ record { result = ok (some checkpoint); db = db; file = file }
    | none ↦ import_file file db
  ]

  unfoldable pub Settled : Option C → Db V S C → Imported V S C → Type 0
  Settled ck db i =
      (load_poll_checkpoint from_str namespace source_key run_id i.db ≡ ck)
      × (i.db.streams ≡ db.streams)
      × (i.db.events ≡ db.events)
      × (load_or_import i.file i.db ≡ i)

-- ===== src/Daemon/PollLoop/Resume.antt =====
-- A run that is resumed from the store goes on like the one that was at work.
use mathlib.Core.Option
use uxc.Base.{ℕ, ◌≡◌, true, Option, none, some}
use uxc.Base.Result.{Result}
use uxc.Json.{Value, Serde}
use uxc.Poll.{Checkpoint, fresh_checkpoint, read_back}
use uxc.Poll.Runner.{checkpoint_eq}
use uxc.Streams.Sources.{load_poll_checkpoint}
use uxc.Daemon.PollLoop.{Source, Outcome, continues, stopped, failed, PollDb, PollWorld, refresh}

-- The checkpoint that a new runner starts from.
abbrev pub restored : {F : Type 0} → Option (Checkpoint F) → Checkpoint F
restored none = fresh_checkpoint
restored (some ck) = ck

-- The world that a turn leaves.
abbrev pub left : {W : Type 0} → Outcome W → W
left (continues interval_secs w) = w
left (stopped w) = w
left (failed failure w) = w

module _ (serde : Serde) {S : Type 0} (source : Source)
    (again : Value serde.Float → Value serde.Float) where
  open serde use {Float}

  abbrev pub stored_checkpoint : PollDb serde S → Option (Checkpoint Float)
  stored_checkpoint db =
      load_poll_checkpoint (read_back again) source.namespace source.source_key source.run_id db

  -- A run that is resumed from the store at a time has, once it has cleared a stale ETag, a checkpoint
  -- equal to that of the runner.
  unfoldable pub Resumes : ℕ → PollWorld serde S → Type 0
  Resumes t w =
      checkpoint_eq serde (refresh t (restored (stored_checkpoint w.db))) (refresh t w.checkpoint)
      ≡ true

  -- What a turn from a store comes to: the loop can be resumed, or it failed and left the store's
  -- checkpoint and events as they were.
  abbrev pub Safe : ℕ → PollDb serde S → Outcome (PollWorld serde S) → Type 0
  Safe t db (continues interval_secs w) = Resumes t w
  Safe t db (stopped w) = Resumes t w
  Safe t db (failed failure w) =
      (stored_checkpoint w.db ≡ stored_checkpoint db) × (w.db.events ≡ db.events)

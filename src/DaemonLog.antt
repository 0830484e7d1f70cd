-- ===== src/DaemonLog.antt =====
-- src/daemon_log.rs: the worker that writes the lines of the daemon's log and rotates its files, and the
-- redaction of JSON values. A file is the text that it holds; what the file system answers to a command
-- is an argument, and so is the redaction of texts.
pub mod Files
pub mod Rotation
pub mod Appended
pub mod Written
pub mod Worker
pub mod Redaction
mod Tests
use uxc.Base.{
  ℕ, zero, suc, ◌-◌, ◌+◌, String, Bool, true, false, not, ◌&&◌, ◌||◌, Option, none, some, List, [],
  ◌∷◌, ◌++◌, take, ◌==◌, leb, ltb, if◌then◌else◌, is_some, unwrap_or, saturating_add,
}
use uxc.Base.Result.{Result, ok, err}
use uxc.Base.Text.{codes, byte_len}

abbrev pub Text : Type 0
Text = List ℕ

-- The log at 0, and its backups at 1 and above, where there is such a file.
abbrev pub Files : Type 0
Files = ℕ → Option Text

abbrev pub put : ℕ → Option Text → Files → Files
put i file files j = if j == i then file else files j

abbrev pub text_of : Option Text → Text
text_of file = unwrap_or file []

pub data LogError : Type 0 where
  open_failed : LogError
  write_failed : LogError
  flush_failed : LogError
  metadata_failed : LogError
  remove_failed : ℕ → LogError
  rename_failed : ℕ → LogError
  earlier_write_failed : LogError → LogError

-- What the file system answers while one command is handled, and the clock in milliseconds. A write that
-- fails has put some characters of the line in the file.
pub record Answers : Type 0 where
  pub reopens : Bool
  pub write_fails_after : Option ℕ
  pub flushes : Bool
  pub metadata : Bool
  pub removes : ℕ → Bool
  pub renames : ℕ → Bool
  pub opens : Bool
  pub now : ℕ
  pub flushed_at : ℕ

-- `LoggerInner`, with the files: whether the log is open, and what the worker remembers.
pub record Logger : Type 0 where
  pub files : Files
  pub file : Bool
  pub pending_bytes : ℕ
  pub last_flush : ℕ
  pub last_error : Option LogError

abbrev pub Done : Type 0
Done = Result LogError (Unit {0})

-- The next step, on what the last one left, unless that failed.
abbrev pub next : {S : Type 0} → S × Done → (S → S × Done) → S × Done
next (s, err e) f = (s, err e)
next (s, ok u) f = f s

abbrev pub log_flush_bytes : ℕ
log_flush_bytes = 65536

abbrev pub log_flush_interval : ℕ
log_flush_interval = 1000

-- `rename_replace`, of the file at `i` to the place above it
unfoldable pub remove_existing : Answers → ℕ → Files → Files × Done
remove_existing a i files =
    if is_some (files i)
    then (if a.removes i then (put i none files, ok tt) else (files, err (remove_failed i)))
    else (files, ok tt)

unfoldable pub rename : Answers → ℕ → Files → Files × Done
rename a i files =
    if a.renames i
    then (put (suc i) (files i) (put i none files), ok tt)
    else (files, err (rename_failed i))

unfoldable pub rename_replace : Answers → ℕ → Files → Files × Done
rename_replace a i files = next (remove_existing a (suc i) files) (rename a i)

abbrev pub move_existing : Answers → ℕ → Files → Files × Done
move_existing a i files = if is_some (files i) then rename_replace a i files else (files, ok tt)

-- The backups from the given one down to the first.
unfoldable pub shift_backups : Answers → ℕ → Files → Files × Done
shift_backups a zero files = (files, ok tt)
shift_backups a (suc i) files = next (move_existing a (suc i) files) (shift_backups a i)

unfoldable pub rotate_log_if_needed : Answers → ℕ → Files → Files × Done
rotate_log_if_needed a backups files =
    next (shift_backups a (backups - 1) files) (move_existing a 0)

unfoldable pub should_rotate : Answers → ℕ → Files → Result LogError Bool
should_rotate a max_bytes files = elim (files 0) [
  | none ↦ ok false
  | some t ↦ if a.metadata then ok (ltb max_bytes (byte_len t)) else err metadata_failed
]

-- Opening to append creates the file.
unfoldable pub open_log_file : Bool → Logger → Logger × Done
open_log_file opens l =
    if opens
    then (record l { files = put 0 (some (text_of (l.files 0))) l.files; file = true }, ok tt)
    else (l, err open_failed)

unfoldable pub reopen : Answers → Logger → Logger × Done
reopen a l = if l.file then (l, ok tt) else open_log_file a.reopens l

abbrev pub line_text : String → Text
line_text line = codes line ++ 10 ∷ []

abbrev pub append : Text → Files → Files
append t files = put 0 (some (text_of (files 0) ++ t)) files

unfoldable pub write_text : Answers → String → Logger → Logger × Done
write_text a line l = elim a.write_fails_after [
  | some n ↦ (record l { files = append (take n (line_text line)) l.files }, err write_failed)
  | none ↦ (
    record l {
      files = append (line_text line) l.files;
      pending_bytes = saturating_add l.pending_bytes (byte_len (codes line) + 1);
    },
    ok tt,
  )
]

unfoldable pub flush_locked : Answers → Logger → Logger × Done
flush_locked a l =
    if l.pending_bytes == 0
    then (l, ok tt)
    else if l.file && not a.flushes
    then (l, err flush_failed)
    else (record l { pending_bytes = 0; last_flush = a.flushed_at }, ok tt)

unfoldable pub flush_when_due : Answers → Logger → Logger × Done
flush_when_due a l =
    if leb log_flush_bytes l.pending_bytes || leb log_flush_interval (a.now - l.last_flush)
    then flush_locked a l
    else (l, ok tt)

unfoldable pub rotate_open : Answers → ℕ → Logger → Logger × Done
rotate_open a backups l =
    let r = rotate_log_if_needed a backups l.files in
    next (record l { files = r.0; file = false }, r.1) (open_log_file a.opens)

unfoldable pub rotate_when_large : Answers → ℕ → ℕ → Logger → Logger × Done
rotate_when_large a max_bytes backups l = elim (should_rotate a max_bytes l.files) [
  | err e ↦ (l, err e)
  | ok false ↦ (l, ok tt)
  | ok true ↦ next (flush_locked a l) (rotate_open a backups)
]

unfoldable pub write_log_line : Answers → ℕ → ℕ → String → Logger → Logger × Done
write_log_line a max_bytes backups line l =
    next (next (next (reopen a l) (write_text a line)) (flush_when_due a))
      (rotate_when_large a max_bytes backups)

pub data LoggerCommand : Type 0 where
  write : String → LoggerCommand
  flush : LoggerCommand

abbrev pub after_write : Logger × Done → Logger
after_write (l, ok u) = l
after_write (l, err e) = record l { last_error = some e }

-- A flush that succeeds reports an earlier error, and forgets it.
abbrev pub after_flush : Logger × Done → Logger × Done
after_flush (l, err e) = (l, err e)
after_flush (l, ok u) = (
  record l { last_error = none },
  elim l.last_error [ none ↦ ok tt | some e ↦ err (earlier_write_failed e) ],
)

-- The commands in the order in which they come, with the replies to the flushes.
unfoldable pub handle_all : ℕ → ℕ → List (Answers × LoggerCommand) → Logger → Logger × List Done
handle_all max_bytes backups [] l = (l, [])
handle_all max_bytes backups ((a, write line) ∷ cs) l =
    handle_all max_bytes backups cs (after_write (write_log_line a max_bytes backups line l))
handle_all max_bytes backups ((a, flush) ∷ cs) l =
    let r = after_flush (flush_locked a l) in
    let rest = handle_all max_bytes backups cs r.0 in (rest.0, r.1 ∷ rest.1)

-- Flushed once more when the senders are gone.
unfoldable pub logger_worker :
    ℕ → ℕ → List (Answers × LoggerCommand) → Answers → Logger → Logger × List Done
logger_worker max_bytes backups cs a l =
    let r = handle_all max_bytes backups cs l in ((flush_locked a r.0).0, r.1)

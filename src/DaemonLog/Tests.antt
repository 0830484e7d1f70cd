-- ===== src/DaemonLog/Tests.antt =====
-- The theorems on the daemon's log at a small limit and with two backups.
use uxc.Base.{
  ℕ, zero, suc, ◌≡◌, refl, true, false, String, none, some, List, [], ◌∷◌, ◌++◌, take, ◌≤◌,
}
use uxc.Base.Result.{ok, err}
use uxc.Base.Text.{codes, byte_len, find_text}
use uxc.Json.{Value, bool, string, object, end, field}
use uxc.DaemonLog.{
  Answers, Logger, Files, text_of, line_text, remove_existing, rename, rename_replace,
  shift_backups, rotate_log_if_needed, should_rotate, open_log_file, reopen, write_text,
  flush_locked, flush_when_due, rotate_open, rotate_when_large, write_log_line, write, flush,
  handle_all, logger_worker, write_failed, earlier_write_failed,
}
use uxc.DaemonLog.Appended.{Kept}
use uxc.DaemonLog.Written.{write_log_line-Kept, write_log_line-KeptSome}
use uxc.DaemonLog.Worker.{writes, Logs, logger_worker-Logs}
use uxc.DaemonLog.Redaction.{
  is_sensitive, redact_value, Alike, objects, sensitive_field, open_field, no_fields, same,
  redact_value_hides,
}

abbrev works : Answers
works = record {
  reopens = true;
  write_fails_after = none;
  flushes = true;
  metadata = true;
  removes = λ i. true;
  renames = λ i. true;
  opens = true;
  now = 0;
  flushed_at = 0;
}

abbrev disk_full : Answers
disk_full = record works { write_fails_after = some 1 }

abbrev three_files : Files
three_files zero = some (codes "c")
three_files (suc zero) = some (codes "b")
three_files (suc (suc zero)) = some (codes "a")
three_files (suc (suc (suc i))) = none

abbrev start : Logger
start = record {
  files = three_files;
  file = false;
  pending_bytes = 0;
  last_flush = 0;
  last_error = none;
}

abbrev after : Logger
after = (write_log_line works 2 2 "de" start).0

-- The log got longer than the limit: it is the first backup now, and the oldest is gone.
rotated :
    text_of (after.files 0) ∷ text_of (after.files 1) ∷ text_of (after.files 2) ∷ []
    ≡ [] ∷ (codes "c" ++ line_text "de") ∷ codes "b" ∷ []
unfolding write_log_line reopen open_log_file write_text flush_when_due rotate_when_large
    should_rotate flush_locked rotate_open rotate_log_if_needed shift_backups rename_replace
    remove_existing rename
rotated = refl

succeeds : write_log_line works 2 2 "de" start ≡ (after, ok tt)
unfolding write_log_line reopen open_log_file write_text flush_when_due rotate_when_large
    should_rotate flush_locked rotate_open rotate_log_if_needed shift_backups rename_replace
    remove_existing rename
succeeds = refl

write_log_line-Kept_example :
    Kept 2 (line_text "de") start.files after.files × (byte_len (text_of (after.files 0)) ≤ 2)
write_log_line-Kept_example = write_log_line-Kept works 2 1 "de" start after succeeds

write_log_line-KeptSome_example :
    (n : ℕ) × Kept 2
      (take n (line_text "de"))
      start.files
      (write_log_line disk_full 2 2 "de" start).0.files
write_log_line-KeptSome_example = write_log_line-KeptSome disk_full 2 1 "de" start

abbrev two_lines : List (Answers × String)
two_lines = (works, "de") ∷ (works, "f") ∷ []

abbrev stopped : Logger
stopped = (logger_worker 2 2 (writes two_lines ++ (works, flush) ∷ []) works start).0

confirms :
    logger_worker 2 2 (writes two_lines ++ (works, flush) ∷ []) works start ≡ (stopped, ok tt ∷ [])
unfolding logger_worker handle_all write_log_line reopen open_log_file write_text flush_when_due
    rotate_when_large should_rotate flush_locked rotate_open rotate_log_if_needed shift_backups
    rename_replace remove_existing rename
confirms = refl

logger_worker-Logs_example : Logs 2 2 two_lines start.files stopped.files
logger_worker-Logs_example = logger_worker-Logs 2 1 two_lines works works start stopped confirms

-- The error of an earlier write is reported once.
reports :
    (logger_worker 2 2
      ((disk_full, write "de") ∷ (works, flush) ∷ (works, flush) ∷ [])
      works
      start).1
    ≡ err (earlier_write_failed write_failed) ∷ ok tt ∷ []
unfolding logger_worker handle_all write_log_line reopen open_log_file write_text flush_when_due
    rotate_when_large should_rotate flush_locked
reports = refl

abbrev as_is : String → String
as_is s = s

abbrev credentials : String → Value (Unit {0})
credentials secret = object (field "x-token" (string secret) (field "ok" (bool true) end))

alike : Alike as_is as_is (credentials "abc") (credentials "xyz")
unfolding is_sensitive find_text
alike = objects (sensitive_field refl (open_field same no_fields))

redact_value_hides_example :
    redact_value as_is as_is (credentials "abc") ≡ redact_value as_is as_is (credentials "xyz")
redact_value_hides_example =
    redact_value_hides as_is as_is (credentials "abc") (credentials "xyz") alike

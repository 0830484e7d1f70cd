-- ===== src/DaemonLog/Appended.antt =====
-- What stands in the files of the log, with a text added at the end.
use uxc.Base.{ℕ, zero, suc, ◌≡◌, refl, sym, ap, ◌∙◌, some, [], ◌++◌, arith, ◌⊎◌, inl, inr}
use mathlib.Core.List.{append-nil}
use uxc.DaemonLog.{Text, Files, put, text_of, Answers, Logger, flush_locked, flush_when_due}
use uxc.DaemonLog.Files.{contents, contents_same, put-same, put-other}
use uxc.DaemonLog.Rotation.{Rotated}

-- A text is added at the end of the log, and the oldest backup stays.
abbrev pub Appended : ℕ → Text → Files → Files → Type 0
Appended b t f g =
    (contents (suc (suc b)) g ≡ contents (suc (suc b)) f ++ t)
    × (text_of (g (suc b)) ≡ text_of (f (suc b)))

-- The files hold what they held, with a text behind it, less at most the oldest backup.
unfoldable pub Kept : ℕ → Text → Files → Files → Type 0
Kept backups t f g =
    (lost : Text) × (contents (suc backups) f ++ t ≡ lost ++ contents (suc backups) g)
    × ((lost ≡ []) ⊎ (lost ≡ text_of (f backups)))

pub Appended-Kept : (b : ℕ) (t : Text) (f g : Files) → Appended b t f g → Kept (suc b) t f g
unfolding Kept
Appended-Kept b t f g (e, o) = ([], sym e, inl refl)

pub Rotated-Kept :
    (b : ℕ) (t : Text) (f g h : Files) → Appended b t f g → Rotated (suc b) g h → Kept (suc b) t f h
unfolding Kept Rotated
Rotated-Kept b t f g h (e, o) (lost, q, inl r) = (lost, sym e ∙ q, inl r)
Rotated-Kept b t f g h (e, o) (lost, q, inr r) = (lost, sym e ∙ q, inr (r ∙ o))

pub opened_text : (f : Files) (j : ℕ) → text_of (put 0 (some (text_of (f 0))) f j) ≡ text_of (f j)
opened_text f zero = ap text_of (put-same 0 (some (text_of (f 0))) f)
opened_text f (suc j) = ap text_of (put-other 0 (suc j) (some (text_of (f 0))) f (ground arith))

-- Opening leaves the texts as they are.
pub opened_same : (n : ℕ) (f : Files) → contents n (put 0 (some (text_of (f 0))) f) ≡ contents n f
opened_same n f = contents_same n (put 0 (some (text_of (f 0))) f) f (λ j lt. opened_text f j)

pub Kept-open :
    (b : ℕ) (t : Text) (f g : Files) → Kept b t f g → Kept b t f (put 0 (some (text_of (g 0))) g)
unfolding Kept
Kept-open b t f g (lost, e, o) = (lost, e ∙ ap (λ x. lost ++ x) (sym (opened_same (suc b) g)), o)

pub flush_locked-files : (a : Answers) (l : Logger) → (flush_locked a l).0.files ≡ l.files
unfolding flush_locked
flush_locked-files a l = ground arith

pub flush_when_due-files : (a : Answers) (l : Logger) → (flush_when_due a l).0.files ≡ l.files
unfolding flush_when_due
flush_when_due-files a l = ground (arith, flush_locked-files a l)

pub unchanged : (b : ℕ) (f : Files) → Appended b [] f f
unchanged b f = (sym (append-nil (contents (suc (suc b)) f)), refl)

pub opened : (b : ℕ) (f : Files) → Appended b [] f (put 0 (some (text_of (f 0))) f)
opened b f = (
  opened_same (suc (suc b)) f ∙ sym (append-nil (contents (suc (suc b)) f)),
  opened_text f (suc b),
)

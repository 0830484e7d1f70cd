-- ===== src/DaemonLog/Written.antt =====
-- What a line that is written adds to the log, and what a rotation behind it leaves.
use uxc.Base.{
  ℕ, suc, ◌≤◌, ◌≡◌, refl, sym, ap, ◌∙◌, true, false, none, some, [], ◌∷◌, ◌++◌, arith, String,
  subst, Bool-cases, Option-cases, inl, inr, take, length, ltb,
}
use uxc.Base.Result.{ok, err-ne-ok, ok-injective, Result-cases}
use uxc.Base.Text.{byte_len}
use mathlib.Core.List.{append-nil}
use uxc.DaemonLog.{
  Text, Files, text_of, Answers, Logger, Done, next, append, line_text, open_log_file, reopen,
  write_text, flush_locked, flush_when_due, rotate_open, rotate_when_large, should_rotate,
  write_log_line, rotate_log_if_needed, open_failed, write_failed, metadata_failed,
}
use uxc.DaemonLog.Files.{contents, contents-append, put-other}
use uxc.DaemonLog.Rotation.{Ends, Ends-next, Ends-weaken, rotate_log_if_needed-Rotated}
use uxc.DaemonLog.Appended.{
  Appended, Kept, Appended-Kept, Rotated-Kept, Kept-open, flush_locked-files, flush_when_due-files,
  unchanged, opened,
}

take_all : (t : Text) → take (length t) t ≡ t
take_all [] = refl
take_all (x ∷ t) = ap (◌∷◌ x) (take_all t)

reopened :
    (a : Answers) (b : ℕ) (l : Logger)
    → Ends (λ k. Appended b [] l.files k.files) (λ k. Appended b [] l.files k.files) (reopen a l)
unfolding reopen open_log_file
reopened a b l = elim (Bool-cases l.file) [
  | inl q ↦ rw q (unchanged b l.files, λ r. unchanged b l.files)
  | inr q ↦ elim (Bool-cases a.reopens) [
    | inl o ↦ rw (q, o) (opened b l.files, λ r. opened b l.files)
    | inr o ↦ rw (q, o) (unchanged b l.files, λ r. absurd (err-ne-ok open_failed tt r))
  ]
]

-- A log that is not rotated is no longer than its limit.
should_rotate_lem :
    (a : Answers) (max_bytes : ℕ) (f : Files)
    → should_rotate a max_bytes f ≡ ok false
    → byte_len (text_of (f 0)) ≤ max_bytes
unfolding should_rotate
should_rotate_lem a max_bytes f e = elim (Option-cases (f 0)) [
  | inl q ↦ rw q (omega arith)
  | inr (t, q) ↦ elim (Bool-cases a.metadata) [
    | inl m ↦
        let small : ltb max_bytes (byte_len t) ≡ false =
          ok-injective (rw (q, m, should_rotate) at e) in
        rw q (ground arith)
    | inr m ↦ absurd (err-ne-ok metadata_failed false (rw (q, m, should_rotate) at e))
  ]
]

module _ (a : Answers) (b : ℕ) (line : String) (f : Files) where
  abbrev Part : Logger → Type 0
  Part l = (n : ℕ) × Appended b (take n (line_text line)) f l.files

  abbrev AllOfIt : Logger → Type 0
  AllOfIt l = Appended b (line_text line) f l.files

  added : (t : Text) (l : Logger) → Appended b [] f l.files → Appended b t f (append t l.files)
  added t l (e, o) = (
    contents-append (suc b) t l.files
        ∙ ap (λ x. x ++ t) (e ∙ append-nil (contents (suc (suc b)) f)),
    ap text_of (put-other 0 (suc b) (some (text_of (l.files 0) ++ t)) l.files (ground arith)) ∙ o,
  )

  whole : (l : Logger) → AllOfIt l → Part l
  whole l h = (
    length (line_text line),
    subst (λ t. Appended b t f l.files) (sym (take_all (line_text line))) h,
  )

  wrote : (l : Logger) → Appended b [] f l.files → Ends Part AllOfIt (write_text a line l)
  unfolding write_text
  wrote l h = elim (Option-cases a.write_fails_after) [
    | inl q ↦
        let k = added (line_text line) l h in
        rw q ((length (line_text line), rw (take_all (line_text line)) k), λ r. k)
    | inr (n, q) ↦
        rw q ((n, added (take n (line_text line)) l h), λ r. absurd (err-ne-ok write_failed tt r))
  ]

  flushed : (l : Logger) → AllOfIt l → Ends Part AllOfIt (flush_when_due a l)
  flushed l h =
      let k = subst (λ g. Appended b (line_text line) f g) (sym (flush_when_due-files a l)) h in
      (whole (flush_when_due a l).0 k, λ r. k)

  module _ (max_bytes : ℕ) where
    abbrev KeptAll : Logger → Type 0
    KeptAll l = Kept (suc b) (line_text line) f l.files

    abbrev Small : Logger → Type 0
    Small l = byte_len (text_of (l.files 0)) ≤ max_bytes

    rotated : (l : Logger) → AllOfIt l → Ends KeptAll Small (rotate_open a (suc b) l)
    unfolding rotate_open open_log_file
    rotated l h =
        Ends-next KeptAll (λ k. k.files 0 ≡ none) Small
          (let r = rotate_log_if_needed a (suc b) l.files in
            (record l { files = r.0; file = false }, r.1))
          (open_log_file a.opens)
          (let r = rotate_log_if_needed-Rotated a b l.files in
            (Rotated-Kept b (line_text line) f l.files _ h r.0, r.1))
          (λ k s e. elim (Bool-cases a.opens) [
            | inl o ↦ rw o (Kept-open (suc b) (line_text line) f k.files s, λ r. rw e (omega arith))
            | inr o ↦ rw o (s, λ r. absurd (err-ne-ok open_failed tt r))
          ])

    flushed_first : (l : Logger) → AllOfIt l → Ends KeptAll AllOfIt (flush_locked a l)
    flushed_first l h =
        let k = subst (λ g. Appended b (line_text line) f g) (sym (flush_locked-files a l)) h in
        (Appended-Kept b (line_text line) f (flush_locked a l).0.files k, λ r. k)

    rotated_when_large :
        (l : Logger) → AllOfIt l → Ends KeptAll Small (rotate_when_large a max_bytes (suc b) l)
    unfolding rotate_when_large
    rotated_when_large l h =
        let kept = Appended-Kept b (line_text line) f l.files h in
        elim (Result-cases (should_rotate a max_bytes l.files)) [
          | inr (x, q) ↦ rw (rotate_when_large, q) (kept, λ r. absurd (err-ne-ok x tt r))
          | inl (false, q) ↦
              rw (rotate_when_large, q) (kept, λ r. should_rotate_lem a max_bytes l.files q)
          | inl (true, q) ↦
              rw (rotate_when_large, q)
                (Ends-next KeptAll AllOfIt Small (flush_locked a l) (rotate_open a (suc b))
                  (flushed_first l h) (λ k s w. rotated k w))
        ]

Ends-both :
    {S : Type 0} (P Q R : S → Type 0) (r : S × Done)
    → ((s : S) → P s → Q s)
    → Ends P R r
    → Ends Q (λ s. P s × R s) r
Ends-both P Q R (s, d) k h = (k s h.0, λ q. (h.0, h.1 q))

module _ (a : Answers) (max_bytes b : ℕ) (line : String) (l : Logger) where
  -- The line, or its beginning.
  abbrev KeptSome : Logger → Type 0
  KeptSome k = (n : ℕ) × Kept (suc b) (take n (line_text line)) l.files k.files

  abbrev Complete : Logger → Type 0
  Complete k = KeptAll a b line l.files max_bytes k × Small a b line l.files max_bytes k

  abbrev UpTo : Logger → Type 0
  UpTo = Part a b line l.files

  abbrev Whole : Logger → Type 0
  Whole = AllOfIt a b line l.files

  abbrev first_steps : Logger × Done
  first_steps = next (next (reopen a l) (write_text a line)) (flush_when_due a)

  first-Ends : Ends UpTo Whole first_steps
  first-Ends =
      Ends-next UpTo Whole Whole (next (reopen a l) (write_text a line)) (flush_when_due a)
        (Ends-next UpTo (λ k. Appended b [] l.files k.files) Whole (reopen a l) (write_text a line)
          (Ends-weaken (λ k. Appended b [] l.files k.files) UpTo
            (λ k. Appended b [] l.files k.files) (reopen a l) (λ k h. (0, h)) (reopened a b l))
          (λ k p h. wrote a b line l.files k h))
        (λ k p h. flushed a b line l.files k h)

  last-Ends :
      (k : Logger) → Whole k → Ends KeptSome Complete (rotate_when_large a max_bytes (suc b) k)
  last-Ends k h =
      Ends-both (KeptAll a b line l.files max_bytes) KeptSome (Small a b line l.files max_bytes)
        (rotate_when_large a max_bytes (suc b) k)
        (λ s kept. (length (line_text line), rw (take_all (line_text line)) kept))
        (rotated_when_large a b line l.files max_bytes k h)

  write_log_line-Ends : Ends KeptSome Complete (write_log_line a max_bytes (suc b) line l)
  unfolding write_log_line
  write_log_line-Ends =
      Ends-next KeptSome Whole Complete first_steps (rotate_when_large a max_bytes (suc b))
        (Ends-weaken UpTo KeptSome Whole first_steps
          (λ k h. (h.0, Appended-Kept b (take h.0 (line_text line)) l.files k.files h.1))
          first-Ends)
        (λ k p h. last-Ends k h)

  -- However the writing of a line ends, the files hold what they held, with a beginning of the line
  -- behind it, less at most the oldest backup.
  pub write_log_line-KeptSome :
      (n : ℕ) × Kept
        (suc b)
        (take n (line_text line))
        l.files
        (write_log_line a max_bytes (suc b) line l).0.files
  write_log_line-KeptSome = write_log_line-Ends.0

  -- Where it succeeds, the whole line stands at the end, and the log is no longer than its limit.
  pub write_log_line-Kept :
      (k : Logger)
      → write_log_line a max_bytes (suc b) line l ≡ (k, ok tt)
      → Kept (suc b) (line_text line) l.files k.files × (byte_len (text_of (k.files 0)) ≤ max_bytes)
  write_log_line-Kept k e = (subst (Ends KeptSome Complete) e write_log_line-Ends).1 refl

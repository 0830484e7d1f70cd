-- ===== src/DaemonLog/Worker.antt =====
-- What a flush without an error says of the lines before it.
use uxc.Base.{
  ◌≤◌, if◌then◌else◌, Bool, true, false, arith, ℕ, suc, ◌≡◌, refl, sym, ap, ◌∙◌, Option, none, some,
  List, [], ◌∷◌, ◌++◌, String, Option-cases, inl, inr, some-ne-none, subst,
}
use uxc.Base.Result.{ok, err, err-ne-ok, Result-cases}
use uxc.Base.Text.{byte_len}
use uxc.DaemonLog.{
  text_of, Files, Answers, next, open_log_file, reopen, write_text, flush_when_due, rotate_open,
  rotate_when_large, should_rotate, rotate_log_if_needed, Logger, Done, LogError, line_text,
  write_log_line, flush_locked, LoggerCommand, write, flush, after_write, after_flush, handle_all,
  logger_worker, earlier_write_failed,
}
use uxc.DaemonLog.Rotation.{Ends, Ends-next}
use uxc.DaemonLog.Appended.{Kept, flush_locked-files}
use uxc.DaemonLog.Written.{write_log_line-Kept}

abbrev pub writes : List (Answers × String) → List (Answers × LoggerCommand)
writes [] = []
writes ((a, line) ∷ ws) = (a, write line) ∷ writes ws

-- The lines are written one after another: each stands at the end of what the files held before it,
-- with at most the oldest backup gone, and leaves a log that keeps to its limit.
pub data Logs (max_bytes backups : ℕ) : List (Answers × String) → Files → Files → Type 0 where
  nothing_more : {f : Files} → Logs max_bytes backups [] f f
  one_line :
      {a : Answers} {line : String} {ws : List (Answers × String)} {f g h : Files}
      → Kept backups (line_text line) f g
      → byte_len (text_of (g 0)) ≤ max_bytes
      → Logs max_bytes backups ws g h
      → Logs max_bytes backups ((a, line) ∷ ws) f h

-- Only the worker itself notes and forgets an error.
module _ (e : Option LogError) where
  abbrev Noted : Logger → Type 0
  Noted l = l.last_error ≡ e

  steady : (s : Logger × Done) → Noted s.0 → Ends Noted Noted s
  steady s h = (h, λ r. h)

  open-Noted : (opens : Bool) (l : Logger) → Noted l → Noted (open_log_file opens l).0
  unfolding open_log_file
  open-Noted true l h = h
  open-Noted false l h = h

  open_unless-Noted :
      (b opens : Bool) (l : Logger)
      → Noted l
      → Noted (if b then (l, ok tt) else open_log_file opens l).0
  open_unless-Noted true opens l h = h
  open_unless-Noted false opens l h = open-Noted opens l h

  reopen-Noted : (a : Answers) (l : Logger) → Noted l → Noted (reopen a l).0
  unfolding reopen
  reopen-Noted a l h = open_unless-Noted l.file a.reopens l h

  write_text-Noted :
      (a : Answers) (line : String) (l : Logger) → Noted l → Noted (write_text a line l).0
  unfolding write_text
  write_text-Noted a line l h = ground arith

  flush_locked-Noted : (a : Answers) (l : Logger) → Noted l → Noted (flush_locked a l).0
  unfolding flush_locked
  flush_locked-Noted a l h = ground arith

  flush_when_due-Noted : (a : Answers) (l : Logger) → Noted l → Noted (flush_when_due a l).0
  unfolding flush_when_due
  flush_when_due-Noted a l h = ground (arith, flush_locked-Noted a l h)

  rotate_when_large-Noted :
      (a : Answers) (max_bytes b : ℕ) (l : Logger)
      → Noted l
      → Ends Noted Noted (rotate_when_large a max_bytes b l)
  unfolding rotate_when_large rotate_open
  rotate_when_large-Noted a max_bytes b l h =
      elim (Result-cases (should_rotate a max_bytes l.files)) [
        | inr (x, q) ↦ rw (rotate_when_large, q) (h, λ r. h)
        | inl (false, q) ↦ rw (rotate_when_large, q) (h, λ r. h)
        | inl (true, q) ↦
            rw (rotate_when_large, q)
              (Ends-next Noted Noted Noted (flush_locked a l) (rotate_open a b)
                (steady (flush_locked a l) (flush_locked-Noted a l h))
                (λ k s t.
                  let r = rotate_log_if_needed a b k.files in
                  Ends-next Noted Noted Noted (record k { files = r.0; file = false }, r.1)
                    (open_log_file a.opens) (s, λ z. s)
                    (λ j u v. steady (open_log_file a.opens j) (open-Noted a.opens j u))))
      ]

  write_log_line-Noted :
      (a : Answers) (max_bytes b : ℕ) (line : String) (l : Logger)
      → Noted l
      → Noted (write_log_line a max_bytes b line l).0
  unfolding write_log_line
  write_log_line-Noted a max_bytes b line l h =
      (Ends-next Noted Noted Noted (next (next (reopen a l) (write_text a line)) (flush_when_due a))
        (rotate_when_large a max_bytes b)
        (Ends-next Noted Noted Noted (next (reopen a l) (write_text a line)) (flush_when_due a)
          (Ends-next Noted Noted Noted (reopen a l) (write_text a line)
            (steady (reopen a l) (reopen-Noted a l h))
            (λ k s t. steady (write_text a line k) (write_text-Noted a line k s)))
          (λ k s t. steady (flush_when_due a k) (flush_when_due-Noted a k s)))
        (λ k s t. rotate_when_large-Noted a max_bytes b k s)).0

after_flush_lem :
    (s : Logger × Done)
    → (after_flush s).1 ≡ ok tt
    → (s.0.last_error ≡ none) × ((after_flush s).0.files ≡ s.0.files)
after_flush_lem (l, err e) q = absurd (err-ne-ok e tt q)
after_flush_lem (l, ok u) q = elim (Option-cases l.last_error) [
  | inl z ↦ (z, refl)
  | inr (e, z) ↦ absurd (err-ne-ok (earlier_write_failed e) tt (rw z at q))
]

confirmed :
    (a : Answers) (l m : Logger) (rs : List Done)
    → (let r : Logger × List Done =
          ((after_flush (flush_locked a l)).0, (after_flush (flush_locked a l)).1 ∷ rs) in
        r)
      ≡ (m, ok tt ∷ [])
    → (l.last_error ≡ none) × (m.files ≡ l.files)
confirmed a l m rs e =
    let files : (after_flush (flush_locked a l)).0.files ≡ m.files = ap (λ x. x.0.files) e in
    let reply : (after_flush (flush_locked a l)).1 ≡ ok tt = cc in
    let h = after_flush_lem (flush_locked a l) reply in
    (sym (flush_locked-Noted l.last_error a l refl) ∙ h.0, sym files ∙ h.1 ∙ flush_locked-files a l)

after_write_ok : (w : Logger × Done) → w.1 ≡ ok tt → after_write w ≡ w.0
after_write_ok (l, err e) q = absurd (err-ne-ok e tt q)
after_write_ok (l, ok u) q = refl

after_write_err :
    (w : Logger × Done) (x : LogError) → w.1 ≡ err x → (after_write w).last_error ≡ some x
after_write_err (l, err e) x q = cc
after_write_err (l, ok u) x q = absurd (err-ne-ok x u (sym q))

handle_all-Logs :
    (max_bytes b : ℕ) (ws : List (Answers × String)) (a : Answers) (l m : Logger)
    → handle_all max_bytes (suc b) (writes ws ++ (a, flush) ∷ []) l ≡ (m, ok tt ∷ [])
    → (l.last_error ≡ none) × Logs max_bytes (suc b) ws l.files m.files
unfolding handle_all
handle_all-Logs max_bytes b [] a l m e =
    let c = confirmed a l m [] e in
    (c.0, subst (Logs max_bytes (suc b) [] l.files) (sym c.1) nothing_more)
handle_all-Logs max_bytes b ((z, line) ∷ ws) a l m e =
    let w = write_log_line z max_bytes (suc b) line l in
    let rest = handle_all-Logs max_bytes b ws a (after_write w) m e in
    elim (Result-cases w.1) [
      | inl (u, q) ↦
          let same = after_write_ok w q in
          let kept = write_log_line-Kept z max_bytes b line l w.0 (ap (λ r. (w.0, r)) q) in
          (
            sym (write_log_line-Noted l.last_error z max_bytes (suc b) line l refl)
                ∙ ap (λ k. k.last_error) (sym same)
                ∙ rest.0,
            one_line kept.0 kept.1
                (subst (λ k. Logs max_bytes (suc b) ws k.files m.files) same rest.1),
          )
      | inr (x, q) ↦ absurd (some-ne-none (sym (after_write_err w x q) ∙ rest.0))
    ]

-- Where lines are written and then flushed, and the flush ends without an error: no write failed, and
-- line after line, each was put whole at the end of all that the files held, of which at most the oldest
-- backup went with it, while the other texts stayed in their order and the log kept to its limit. The
-- files are those that the last line left.
pub logger_worker-Logs :
    (max_bytes b : ℕ) (ws : List (Answers × String)) (a z : Answers) (l m : Logger)
    → logger_worker max_bytes (suc b) (writes ws ++ (a, flush) ∷ []) z l ≡ (m, ok tt ∷ [])
    → Logs max_bytes (suc b) ws l.files m.files
unfolding logger_worker
logger_worker-Logs max_bytes b ws a z l m e =
    let r = handle_all max_bytes (suc b) (writes ws ++ (a, flush) ∷ []) l in
    let reply : r.1 ≡ ok tt ∷ [] = ap (λ x. x.1) e in
    let files : m.files ≡ r.0.files = sym (ap (λ x. x.0.files) e) ∙ flush_locked-files z r.0 in
    let h = (handle_all-Logs max_bytes b ws a l r.0 (ap (λ x. (r.0, x)) reply)).1 in
    subst (Logs max_bytes (suc b) ws l.files) (sym files) h

-- ===== src/DaemonLog/Rotation.antt =====
-- A rotation loses nothing but the oldest backup, also where the file system fails within it.
use uxc.Base.{
  ℕ, zero, suc, ◌-◌, ◌<◌, ◌≡◌, refl, sym, ap, ◌∙◌, none, [], ◌++◌, arith, Bool-cases, Option-cases,
  ◌⊎◌, inl, inr,
}
use uxc.Base.Result.{ok, err, err-ne-ok}
use uxc.DaemonLog.{
  Text, Files, put, text_of, Answers, Done, next, remove_existing, rename, rename_replace,
  move_existing, shift_backups, rotate_log_if_needed, remove_failed, rename_failed,
}
use uxc.DaemonLog.Files.{contents, contents-put-none, contents-moved, put-same}

-- What holds after steps, however they end, and what besides where they succeed.
abbrev pub Ends : {S : Type 0} → (S → Type 0) → (S → Type 0) → S × Done → Type 0
Ends P R (s, r) = P s × (r ≡ ok tt → R s)

pub Ends-next :
    {S : Type 0} (P R T : S → Type 0) (r : S × Done) (f : S → S × Done)
    → Ends P R r
    → ((s : S) → P s → R s → Ends P T (f s))
    → Ends P T (next r f)
Ends-next P R T (s, err e) f h k = (h.0, λ q. absurd (err-ne-ok e tt q))
Ends-next P R T (s, ok u) f h k = k s h.0 (h.1 refl)

pub Ends-weaken :
    {S : Type 0} (P Q R : S → Type 0) (r : S × Done)
    → ((s : S) → P s → Q s)
    → Ends P R r
    → Ends Q R r
Ends-weaken P Q R (s, d) k h = (k s h.0, h.1)

-- The texts of the files up to the oldest backup, of which the oldest file's may have gone.
unfoldable pub Rotated : ℕ → Files → Files → Type 0
Rotated backups f g =
    (lost : Text) × (contents (suc backups) f ≡ lost ++ contents (suc backups) g)
    × ((lost ≡ []) ⊎ (lost ≡ text_of (f backups)))

same-Rotated :
    (backups : ℕ) (f g : Files)
    → contents (suc backups) g ≡ contents (suc backups) f
    → Rotated backups f g
unfolding Rotated
same-Rotated backups f g e = ([], sym e, inl refl)

then-Rotated :
    (backups : ℕ) (f g h : Files)
    → Rotated backups f g
    → contents (suc backups) h ≡ contents (suc backups) g
    → Rotated backups f h
unfolding Rotated
then-Rotated backups f g h (lost, e, o) q = (lost, e ∙ ap (λ t. lost ++ t) (sym q), o)

without_oldest :
    (b : ℕ) (f g : Files)
    → contents (suc (suc b)) g ≡ contents (suc (suc b)) (put (suc b) none f)
    → Rotated (suc b) f g
unfolding Rotated
without_oldest b f g e = (
  text_of (f (suc b)),
  contents-put-none (suc b) f ∙ ap (λ t. text_of (f (suc b)) ++ t) (sym e),
  inr refl,
)

Free : ℕ → Files → Type 0
Free i g = g i ≡ none

rename-Ends :
    (a : Answers) (n i : ℕ) (f : Files)
    → suc i < n
    → f (suc i) ≡ none
    → Ends (λ g. contents n g ≡ contents n f) (Free i) (rename a i f)
unfolding rename Free
rename-Ends a n i f lt e = elim (Bool-cases (a.renames i)) [
  | inl q ↦ rw q (contents-moved n i f lt e, λ r. ground arith)
  | inr q ↦ rw q (refl, λ r. absurd (err-ne-ok (rename_failed i) tt r))
]

-- A file moves to a place that is free.
move-Ends :
    (a : Answers) (n i : ℕ) (f : Files)
    → suc i < n
    → f (suc i) ≡ none
    → Ends (λ g. contents n g ≡ contents n f) (Free i) (move_existing a i f)
unfolding rename_replace remove_existing Free
move-Ends a n i f lt e = elim (Option-cases (f i)) [
  | inl q ↦ rw q (refl, λ r. q)
  | inr (t, q) ↦ rw (q, e) (rename-Ends a n i f lt e)
]

-- The oldest backup gives way to the one below it.
at_top : (a : Answers) (b : ℕ) (f : Files) → Ends (Rotated (suc b) f) (Free b) (move_existing a b f)
unfolding rename_replace remove_existing Free
at_top a b f = elim (Option-cases (f b)) [
  | inl q ↦ rw q (same-Rotated (suc b) f f refl, λ r. q)
  | inr (t, q) ↦ elim (Option-cases (f (suc b))) [
    | inl e ↦
        Ends-weaken (λ g. contents (suc (suc b)) g ≡ contents (suc (suc b)) f) (Rotated (suc b) f)
          (Free b) (move_existing a b f) (same-Rotated (suc b) f)
          (move-Ends a (suc (suc b)) b f (omega arith) e)
    | inr (u, e) ↦ elim (Bool-cases (a.removes (suc b))) [
      | inl r ↦
          rw (q, e, r)
            (Ends-weaken
              (λ g. contents (suc (suc b)) g ≡ contents (suc (suc b)) (put (suc b) none f))
              (Rotated (suc b) f) (Free b) (rename a b (put (suc b) none f)) (without_oldest b f)
              (rename-Ends a (suc (suc b)) b (put (suc b) none f) (omega arith)
                (put-same (suc b) none f)))
      | inr r ↦
          rw (q, e, r)
            (same-Rotated (suc b) f f refl, λ z. absurd (err-ne-ok (remove_failed (suc b)) tt z))
    ]
  ]
]

shift_backups-Ends :
    (a : Answers) (b i : ℕ) (f g : Files)
    → i < b
    → g (suc i) ≡ none
    → Rotated b f g
    → Ends (Rotated b f) (Free 1) (shift_backups a i g)
unfolding shift_backups Free
shift_backups-Ends a b zero f g lt e r = (r, λ z. e)
shift_backups-Ends a b (suc i) f g lt e r =
    Ends-next (Rotated b f) (Free (suc i)) (Free 1) (move_existing a (suc i) g) (shift_backups a i)
      (Ends-weaken (λ h. contents (suc b) h ≡ contents (suc b) g) (Rotated b f) (Free (suc i))
        (move_existing a (suc i) g) (λ h. then-Rotated b f g h r)
        (move-Ends a (suc b) (suc i) g (omega (arith, lt)) e))
      (λ h s free. shift_backups-Ends a b i f h (omega (arith, lt)) free s)

-- However a rotation ends, at most the oldest backup has gone, and the other texts are as they were, in
-- their order; where it succeeds there is no log any more.
pub rotate_log_if_needed-Rotated :
    (a : Answers) (b : ℕ) (f : Files)
    → Ends (Rotated (suc b) f) (λ g. g 0 ≡ none) (rotate_log_if_needed a (suc b) f)
unfolding rotate_log_if_needed shift_backups Free
rotate_log_if_needed-Rotated a zero f = at_top a 0 f
rotate_log_if_needed-Rotated a (suc b) f =
    let below : suc (suc b) - 1 ≡ suc b = omega arith in
    rw below (
      Ends-next (Rotated (suc (suc b)) f) (Free 1) (Free 0)
        (next (move_existing a (suc b) f) (shift_backups a b)) (move_existing a 0)
        (Ends-next (Rotated (suc (suc b)) f) (Free (suc b)) (Free 1) (move_existing a (suc b) f)
          (shift_backups a b) (at_top a (suc b) f)
          (λ h s free. shift_backups-Ends a (suc (suc b)) b f h (omega arith) free s))
        (λ h s free.
          Ends-weaken (λ k. contents (suc (suc (suc b))) k ≡ contents (suc (suc (suc b))) h)
            (Rotated (suc (suc b)) f) (Free 0) (move_existing a 0 h)
            (λ k. then-Rotated (suc (suc b)) f h k s)
            (move-Ends a (suc (suc (suc b))) 0 h (omega arith) free)))

-- ===== src/DaemonLog/Files.antt =====
-- What the files of the log hold together.
use uxc.Base.{
  ℕ, zero, suc, ◌<◌, ◌≡◌, refl, sym, ap, ◌∙◌, false, Option, none, some, [], ◌++◌, ◌==◌, arith,
  subst, Bool-cases, inl, inr,
}
use mathlib.Core.List.{append-nil, append_assoc}
use uxc.DaemonLog.{Text, Files, put, text_of, append}

-- The text of the first files, the oldest in front.
unfoldable pub contents : ℕ → Files → Text
contents zero files = []
contents (suc n) files = text_of (files n) ++ contents n files

pub contents_same :
    (n : ℕ) (f g : Files)
    → ((j : ℕ) → j < n → text_of (f j) ≡ text_of (g j))
    → contents n f ≡ contents n g
unfolding contents
contents_same zero f g h = refl
contents_same (suc n) f g h =
    rw (h n (omega arith), contents_same n f g (λ j lt. h j (omega arith))) refl

pub put-same : (i : ℕ) (o : Option Text) (f : Files) → put i o f i ≡ o
put-same i o f = ground arith

pub put-other : (i j : ℕ) (o : Option Text) (f : Files) → ((j == i) ≡ false) → put i o f j ≡ f j
put-other i j o f e = rw e

-- Without the oldest file.
pub contents-put-none :
    (n : ℕ) (f : Files) → contents (suc n) f ≡ text_of (f n) ++ contents (suc n) (put n none f)
unfolding contents
contents-put-none n f = rw (put-same n none f) (
    ap (λ t. text_of (f n) ++ t)
      (contents_same n f (put n none f)
        (λ j lt. ap text_of (sym (put-other n j none f (ground arith))))))

-- The log is the newest: what is written to it stands at the end.
pub contents-append :
    (n : ℕ) (t : Text) (f : Files) → contents (suc n) (append t f) ≡ contents (suc n) f ++ t
unfolding contents
contents-append zero t f = rw (append-nil (text_of (f 0)), append-nil (text_of (f 0) ++ t)) refl
contents-append (suc n) t f =
    rw (put-other 0 (suc n) (some (text_of (f 0) ++ t)) f (ground arith)) (
      ap (λ x. text_of (f (suc n)) ++ x) (contents-append n t f)
      ∙ sym (append_assoc (text_of (f (suc n))) (contents (suc n) f) t))

-- What moves to a place that is free keeps its place among the texts.
abbrev pub moved : ℕ → Files → Files
moved i f = put (suc i) (f i) (put i none f)

at_place :
    (i : ℕ) (f : Files)
    → f (suc i) ≡ none
    → contents (suc (suc i)) (moved i f) ≡ contents (suc (suc i)) f
unfolding contents
at_place i f e =
    rw
      (
        put-same (suc i) (f i) (put i none f),
        put-other (suc i) i (f i) (put i none f) (ground arith),
        put-same i none f,
        e,
      )
      (ap (λ t. text_of (f i) ++ t)
        (contents_same i (moved i f) f (λ j lt. ap text_of (
          put-other (suc i) j (f i) (put i none f) (ground arith)
          ∙ put-other i j none f (ground arith)))))

pub contents-moved :
    (n i : ℕ) (f : Files) → suc i < n → f (suc i) ≡ none → contents n (moved i f) ≡ contents n f
unfolding contents
contents-moved zero i f lt e = absurd (omega (arith, lt))
contents-moved (suc n) i f lt e = elim (Bool-cases (n == suc i)) [
  | inl q ↦
      let n_is : n ≡ suc i = ground arith in
      subst (λ k. contents (suc k) (moved i f) ≡ contents (suc k) f) (sym n_is) (at_place i f e)
  | inr q ↦
      rw
        (
          put-other (suc i) n (f i) (put i none f) q,
          put-other i n none f (ground arith),
          contents-moved n i f (ground arith) e,
        )
        refl
]

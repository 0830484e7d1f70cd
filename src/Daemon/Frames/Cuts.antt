-- ===== src/Daemon/Frames/Cuts.antt =====
-- Where a buffer is cut: inside it, and at the same place when more text follows.
use uxc.Base.{none-ne-some}
use uxc.Base.{
  ℕ, ◌+◌, ◌<◌, ◌≤◌, ◌≡◌, refl, ap, ◌∙◌, false, Option, none, some, [], ◌∷◌, ◌++◌, arith, ◌==◌,
  Option-cases, or_else, length, take, drop, length-drop, All, inl, inr,
}
use uxc.Base.Text.{codes, find_text}
use uxc.Base.Find.{
  find_text-le, find_text-append, take-append_inside, drop-append_inside, find_text-absent,
}
use uxc.Daemon.Frames.{Text, cut_at, with_len, sse_delimiter, next_block, next_line}

-- The front of a text before a delimiter, and what is behind it.
abbrev pub cut_by : Text → Text → Option (Text × Text)
cut_by delimiter b = cut_at (with_len (length delimiter) (find_text delimiter b)) b

-- A text without carriage returns.
abbrev pub NoReturns : Text → Type 0
NoReturns t = All (λ c. (13 == c) ≡ false) t

pair-eq :
    (f r f' r' : Text)
    → ◌≡◌ {A = Option (Text × Text)} (some (f, r)) (some (f', r'))
    → (f ≡ f') × (r ≡ r')
pair-eq f r f' r' e = (cc, cc)

cut_at-some :
    (o : Option (ℕ × ℕ)) (b f r : Text)
    → cut_at o b ≡ some (f, r)
    → (d : ℕ × ℕ) × (o ≡ some d) × (take d.0 b ≡ f) × (drop (d.0 + d.1) b ≡ r)
unfolding cut_at
cut_at-some none b f r e = absurd (none-ne-some e)
cut_at-some (some d) b f r e = let p = pair-eq _ _ f r e in (d, refl, p.0, p.1)

with_len-some :
    (len : ℕ) (o : Option ℕ) (d : ℕ × ℕ) → with_len len o ≡ some d → (o ≡ some d.0) × (len ≡ d.1)
with_len-some len none d e = cc
with_len-some len (some p) d e = (cc, cc)

-- A cut at a place inside a text leaves less.
cut-shorter :
    (o : Option (ℕ × ℕ)) (b f r : Text)
    → ((d : ℕ × ℕ) → o ≡ some d → (d.0 + d.1 ≤ length b) × (0 < d.1))
    → cut_at o b ≡ some (f, r)
    → length r < length b
cut-shorter o b f r inside e =
    let d = cut_at-some o b f r e in
    let i = inside d.0 d.1 in
    omega (arith, ap (λ (t : Text). length t) d.3, length-drop (d.0.0 + d.0.1) b, i)

with_len-inside :
    (delimiter b : Text) (d : ℕ × ℕ)
    → 0 < length delimiter
    → with_len (length delimiter) (find_text delimiter b) ≡ some d
    → (d.0 + d.1 ≤ length b) × (0 < d.1)
with_len-inside delimiter b d l e =
    let w = with_len-some _ _ d e in omega (arith, find_text-le delimiter b d.0 w.0, w.1)

pub cut_by-shorter :
    (delimiter b f r : Text)
    → 0 < length delimiter
    → cut_by delimiter b ≡ some (f, r)
    → length r < length b
cut_by-shorter delimiter b f r l e =
    cut-shorter _ b f r (λ d q. with_len-inside delimiter b d l q) e

pub cut_by-append :
    (delimiter b c f r : Text)
    → 0 < length delimiter
    → cut_by delimiter b ≡ some (f, r)
    → cut_by delimiter (b ++ c) ≡ some (f, r ++ c)
unfolding cut_at
cut_by-append delimiter b c f r l e =
    let d = cut_at-some _ b f r e in
    let w = with_len-some _ _ d.0 d.1 in
    let i = with_len-inside delimiter b d.0 l d.1 in
    let t = take-append_inside d.0.0 b c (omega arith) in
    let u = drop-append_inside (d.0.0 + d.0.1) b c (omega arith) in
    rw (find_text-append delimiter b c d.0.0 l w.0, w.1, t, u, d.2, d.3) refl

pub cut_by-rest :
    (delimiter b f r : Text) → cut_by delimiter b ≡ some (f, r) → (n : ℕ) × (drop n b ≡ r)
cut_by-rest delimiter b f r e = let d = cut_at-some _ b f r e in (d.0.0 + d.0.1, d.3)

pub NoReturns-front : (b c : Text) → NoReturns (b ++ c) → NoReturns b
NoReturns-front [] c h = tt
NoReturns-front (x ∷ b) c h = (h.0, NoReturns-front b c h.1)

pub next_line-cut : (b : Text) → next_line b ≡ cut_by (codes "\n") b
unfolding next_line
next_line-cut b = refl

pub next_block-cut : (b : Text) → NoReturns b → next_block b ≡ cut_by (codes "\n\n") b
unfolding next_block sse_delimiter
next_block-cut b h = rw (find_text-absent 13 (10 ∷ 13 ∷ 10 ∷ []) b h) refl

sse_delimiter-inside :
    (b : Text) (d : ℕ × ℕ) → sse_delimiter b ≡ some d → (d.0 + d.1 ≤ length b) × (0 < d.1)
unfolding sse_delimiter
sse_delimiter-inside b d e = elim (Option-cases (find_text (codes "\r\n\r\n") b)) [
  | inl n ↦ with_len-inside (codes "\n\n") b d (omega arith) (rw (n, or_else) at e)
  | inr (p, s) ↦
      with_len-inside (codes "\r\n\r\n") b d (omega arith)
        (ap (with_len 4) s ∙ (rw (s, or_else) at e))
]

pub next_block-shorter : (b f r : Text) → next_block b ≡ some (f, r) → length r < length b
unfolding next_block
next_block-shorter b f r e = cut-shorter _ b f r (sse_delimiter-inside b) e

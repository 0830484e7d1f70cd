-- ===== src/Streams/Tables/Ascending.antt =====
-- Rows in ascending order of their offsets.
use uxc.Base.{
  ℕ, zero, suc, ◌≤◌, ◌<◌, ◌≡◌, refl, ap, ◌∙◌, inl, inr, Bool, false, not, List, [], ◌∷◌, ◌++◌,
  arith, ltb, Bool-cases, take, drop, keep,
}
use uxc.Streams.{EventRow}
use uxc.Streams.Tables.{insert_by_offset, order_by_offset}
use uxc.Streams.Retention.{is_among}
use uxc.Streams.Read.{last_offset}

-- Offsets rise strictly along the rows, from `lo` on and below `hi`.
abbrev pub Ascending : {V : Type 0} → ℕ → ℕ → List (EventRow V) → Type 0
Ascending lo hi [] = Unit {0}
Ascending lo hi (e ∷ es) = (lo ≤ e.offset) × (e.offset < hi) × Ascending (suc e.offset) hi es

module _ {V : Type 0} where
  pub Ascending-mono :
      {lo lo' hi hi' : ℕ} (es : List (EventRow V))
      → lo' ≤ lo
      → hi ≤ hi'
      → Ascending lo hi es
      → Ascending lo' hi' es
  Ascending-mono [] h k a = tt
  Ascending-mono {lo} {lo'} {hi = hi} {hi' = hi'} (e ∷ es) h k a = (
    omega arith,
    omega arith,
    Ascending-mono {lo = suc e.offset} {lo' = suc e.offset} {hi = hi} {hi' = hi'} es (omega arith) k
        a.2,
  )

  pub Ascending-append :
      (lo hi : ℕ) (es : List (EventRow V)) (e : EventRow V)
      → Ascending lo hi es
      → lo ≤ e.offset
      → hi ≤ e.offset
      → Ascending lo (suc e.offset) (es ++ e ∷ [])
  Ascending-append lo hi [] e a l h = (l, omega arith, tt)
  Ascending-append lo hi (f ∷ es) e a l h =
      (a.0, omega arith, Ascending-append (suc f.offset) hi es e a.2 (omega arith) h)

  pub Ascending-keep :
      (lo hi : ℕ) (p : EventRow V → Bool) (es : List (EventRow V))
      → Ascending lo hi es
      → Ascending lo hi (keep p es)
  Ascending-keep lo hi p [] a = tt
  Ascending-keep lo hi p (e ∷ es) a =
      let rest = Ascending-keep (suc e.offset) hi p es a.2 in
      elim (Bool-cases (p e)) [
        | inl h ↦ rw h (a.0, a.1, rest)
        | inr h ↦ rw h (Ascending-mono (keep p es) (omega arith) (omega arith) rest)
      ]

  insert_by_offset_first :
      (lo hi : ℕ) (e : EventRow V) (es : List (EventRow V))
      → Ascending (suc e.offset) hi es
      → insert_by_offset e es ≡ e ∷ es
  unfolding insert_by_offset
  insert_by_offset_first lo hi e [] a = refl
  insert_by_offset_first lo hi e (f ∷ fs) a = ground arith

  -- `order by` leaves ascending rows as they are.
  pub order_by_offset-Ascending :
      (lo hi : ℕ) (es : List (EventRow V)) → Ascending lo hi es → order_by_offset es ≡ es
  unfolding order_by_offset
  order_by_offset-Ascending lo hi [] a = refl
  order_by_offset-Ascending lo hi (e ∷ es) a =
      rw (order_by_offset-Ascending (suc e.offset) hi es a.2)
        (insert_by_offset_first lo hi e es a.2)

  pub Ascending-drop :
      (lo hi n : ℕ) (es : List (EventRow V)) → Ascending lo hi es → Ascending lo hi (drop n es)
  Ascending-drop lo hi zero es a = a
  Ascending-drop lo hi (suc n) [] a = tt
  Ascending-drop lo hi (suc n) (e ∷ es) a =
      Ascending-mono {lo = suc e.offset} {lo' = lo} {hi = hi} {hi' = hi} (drop n es) (omega arith)
        (omega arith) (Ascending-drop (suc e.offset) hi n es a.2)

  keep_skip :
      (p : EventRow V → Bool) (e : EventRow V) (es : List (EventRow V))
      → p e ≡ false
      → keep p (e ∷ es) ≡ keep p es
  keep_skip p e es h = rw h

  pub last_offset-le :
      (lo hi n after : ℕ) (es : List (EventRow V))
      → Ascending lo hi es
      → after < lo
      → after ≤ last_offset (take n es) after
  last_offset-le lo hi zero after es a h = omega arith
  last_offset-le lo hi (suc n) after [] a h = omega arith
  last_offset-le lo hi (suc n) after (e ∷ es) a h =
      omega (arith, last_offset-le (suc e.offset) hi n e.offset es a.2 (omega arith))

  keep_all_above :
      (lo hi n : ℕ) (vs es : List (EventRow V))
      → Ascending lo hi es
      → n < lo
      → (v : EventRow V) → v.offset ≡ n
      → keep (λ e. not (is_among (v ∷ vs) e)) es ≡ keep (λ e. not (is_among vs e)) es
  keep_all_above lo hi n vs [] a l v q = refl
  keep_all_above lo hi n vs (e ∷ es) a l v q =
      ground (arith, keep_all_above (suc e.offset) hi n vs es a.2 (omega arith) v q)

  keep_true : (es : List (EventRow V)) → keep (λ e. not (is_among [] e)) es ≡ es
  keep_true [] = refl
  keep_true (e ∷ es) = ap (◌∷◌ e) (keep_true es)

  -- To delete the first `n` rows by their keys is to drop them.
  pub keep-drop :
      (lo hi n : ℕ) (es : List (EventRow V))
      → Ascending lo hi es
      → keep (λ e. not (is_among (take n es) e)) es ≡ drop n es
  keep-drop lo hi zero es a = keep_true es
  keep-drop lo hi (suc n) [] a = refl
  keep-drop lo hi (suc n) (e ∷ es) a =
      keep_skip (λ x. not (is_among (e ∷ take n es) x)) e es (ground arith)
      ∙ keep_all_above (suc e.offset) hi e.offset (take n es) es a.2 (omega arith) e refl
      ∙ keep-drop (suc e.offset) hi n es a.2

  keep_after_all :
      (lo hi after : ℕ) (es : List (EventRow V))
      → Ascending lo hi es
      → after < lo
      → keep (λ e. ltb after e.offset) es ≡ es
  keep_after_all lo hi after [] a h = refl
  keep_after_all lo hi after (e ∷ es) a h =
      ground (arith, keep_after_all (suc e.offset) hi after es a.2)

  -- What lies after the last row that was taken is the rest.
  pub keep_after_last :
      (lo hi n after : ℕ) (es : List (EventRow V))
      → Ascending lo hi es
      → after < lo
      → keep (λ e. ltb (last_offset (take n es) after) e.offset) es ≡ drop n es
  keep_after_last lo hi zero after es a h = keep_after_all lo hi after es a h
  keep_after_last lo hi (suc n) after [] a h = refl
  keep_after_last lo hi (suc n) after (e ∷ es) a h =
      keep_skip (λ x. ltb (last_offset (take n es) e.offset) x.offset) e es
        (ground (arith, last_offset-le (suc e.offset) hi n e.offset es a.2 (omega arith)))
      ∙ keep_after_last (suc e.offset) hi n e.offset es a.2 (omega arith)

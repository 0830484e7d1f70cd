-- ===== src/Daemon/Frames/Chunks.antt =====
-- A buffer is drained to its end, and the events do not depend on how the text was cut into chunks.
use uxc.Base.{
  ℕ, zero, suc, ◌<◌, String, ◌≡◌, refl, sym, ap, subst, ◌∙◌, inl, inr, Option, none, some, List, [],
  ◌∷◌, ◌++◌, arith, ltb, Bool-cases, Option-cases, length,
}
use mathlib.Core.List.{append-nil, append_assoc}
use uxc.Base.Result.{Result, ok, err, Result-cases}
use uxc.Base.Text.{byte_len}
use uxc.Daemon.Frames.{
  max_buffer_bytes, push_value, ensure_subscription_buffer_limit, Text, FrameError, end_of_buffer,
  drain_frames, drain,
}

-- Events in front of a result.
abbrev pub with_events :
    {V : Type 0}
    → List V
    → Option (Result FrameError (List V) × Text)
    → Option (Result FrameError (List V) × Text)
with_events vs none = none
with_events vs (some (ok ws, rest)) = some (ok (vs ++ ws), rest)
with_events vs (some (err e, rest)) = some (err e, rest)

module _ {V : Type 0} (next : Text → Option (Text × Text))
    (handle : Text → Result FrameError (Option V)) (kind : String)
    (shrinks : (buffer frame rest : Text)
      → next buffer ≡ some (frame, rest)
      → length rest < length buffer) where
  loop-end :
      (n : ℕ) (b : Text) (vs : List V)
      → next b ≡ none
      → drain_frames next handle kind (suc n) b vs ≡ some (end_of_buffer next handle kind b vs, b)
  unfolding drain_frames
  loop-end n b vs e = rw (e, drain_frames) refl

  loop-fails :
      (n : ℕ) (b f rest : Text) (vs : List V) (x : FrameError)
      → next b ≡ some (f, rest)
      → handle f ≡ err x
      → drain_frames next handle kind (suc n) b vs ≡ some (err x, rest)
  unfolding drain_frames
  loop-fails n b f rest vs x e h = rw (e, h, drain_frames) refl

  loop-goes :
      (n : ℕ) (b f rest : Text) (vs : List V) (o : Option V)
      → next b ≡ some (f, rest)
      → handle f ≡ ok o
      → drain_frames next handle kind (suc n) b vs
        ≡ drain_frames next handle kind n rest (push_value o vs)
  unfolding drain_frames
  loop-goes n b f rest vs o e h = rw (e, h, drain_frames) refl

  push_value-append :
      (o : Option V) (us vs : List V) → push_value o (us ++ vs) ≡ us ++ push_value o vs
  push_value-append none us vs = refl
  push_value-append (some v) us vs = append_assoc us vs (v ∷ [])

  end-with_events :
      (b : Text) (us vs : List V)
      → some (end_of_buffer next handle kind b (us ++ vs), b)
        ≡ with_events us (some (end_of_buffer next handle kind b vs, b))
  unfolding end_of_buffer ensure_subscription_buffer_limit
  end-with_events b us vs = elim (Bool-cases (ltb max_buffer_bytes (byte_len b))) [
    | inl e ↦ rw (e, end_of_buffer, ensure_subscription_buffer_limit) refl
    | inr e ↦ rw (e, end_of_buffer, ensure_subscription_buffer_limit) refl
  ]

  -- The events that were there stay in front.
  loop-with_events :
      (n : ℕ) (b : Text) (us vs : List V)
      → drain_frames next handle kind n b (us ++ vs)
        ≡ with_events us (drain_frames next handle kind n b vs)
  unfolding drain_frames
  loop-with_events zero b us vs = refl
  loop-with_events (suc n) b us vs = elim (Option-cases (next b)) [
    | inl e ↦
        loop-end n b (us ++ vs) e
        ∙ end-with_events b us vs
        ∙ ap (with_events us) (sym (loop-end n b vs e))
    | inr (t, e) ↦ elim (Result-cases (handle t.0)) [
      | inr (x, h) ↦
          loop-fails n b t.0 t.1 (us ++ vs) x e h
          ∙ ap (with_events us) (sym (loop-fails n b t.0 t.1 vs x e h))
      | inl (o, h) ↦
          loop-goes n b t.0 t.1 (us ++ vs) o e h
          ∙ ap (drain_frames next handle kind n t.1) (push_value-append o us vs)
          ∙ loop-with_events n t.1 us (push_value o vs)
          ∙ ap (with_events us) (sym (loop-goes n b t.0 t.1 vs o e h))
    ]
  ]

  -- Any fuel above the length of the buffer gives the same.
  pub loop_fuel :
      (n m : ℕ) (b : Text) (vs : List V)
      → length b < n
      → length b < m
      → drain_frames next handle kind n b vs ≡ drain_frames next handle kind m b vs
  loop_fuel zero m b vs l k = absurd (omega arith)
  loop_fuel (suc n) zero b vs l k = absurd (omega arith)
  loop_fuel (suc n) (suc m) b vs l k = elim (Option-cases (next b)) [
    | inl e ↦ loop-end n b vs e ∙ sym (loop-end m b vs e)
    | inr (t, e) ↦ elim (Result-cases (handle t.0)) [
      | inr (x, h) ↦ loop-fails n b t.0 t.1 vs x e h ∙ sym (loop-fails m b t.0 t.1 vs x e h)
      | inl (o, h) ↦
          let s = shrinks b t.0 t.1 e in
          loop-goes n b t.0 t.1 vs o e h
          ∙ loop_fuel n m t.1 (push_value o vs) (omega arith) (omega arith)
          ∙ sym (loop-goes m b t.0 t.1 vs o e h)
    ]
  ]

  -- Enough fuel gives a result.
  pub loop_total :
      (n : ℕ) (b : Text) (vs : List V)
      → length b < n
      → (r : Result FrameError (List V) × Text) × (drain_frames next handle kind n b vs ≡ some r)
  loop_total zero b vs l = absurd (omega arith)
  loop_total (suc n) b vs l = elim (Option-cases (next b)) [
    | inl e ↦ ((end_of_buffer next handle kind b vs, b), loop-end n b vs e)
    | inr (t, e) ↦ elim (Result-cases (handle t.0)) [
      | inr (x, h) ↦ ((err x, t.1), loop-fails n b t.0 t.1 vs x e h)
      | inl (o, h) ↦
          let s = shrinks b t.0 t.1 e in
          let r = loop_total n t.1 (push_value o vs) (omega arith) in
          (r.0, loop-goes n b t.0 t.1 vs o e h ∙ r.1)
    ]
  ]

  -- A buffer that was drained without an error: what follows it is read as if it came at once.
  module _ (Good : Text → Type 0)
      (good_rest : (buffer frame rest : Text)
        → next buffer ≡ some (frame, rest)
        → Good buffer
        → Good rest)
      (extends : (buffer more frame rest : Text)
        → Good (buffer ++ more)
        → next buffer ≡ some (frame, rest)
        → next (buffer ++ more) ≡ some (frame, rest ++ more)) where
    failed-ok :
        (x : FrameError) (us : List V) (r rest : Text)
        → ◌≡◌ {A = Option (Result FrameError (List V) × Text)}
            (some (err x, r))
            (some (ok us, rest))
        → ⊥
    failed-ok x us r rest q = cc

    drained-ok :
        (vs us : List V) (b rest : Text)
        → ◌≡◌ {A = Option (Result FrameError (List V) × Text)}
            (some (ok vs, b))
            (some (ok us, rest))
        → (vs ≡ us) × (b ≡ rest)
    drained-ok vs us b rest q = (cc, cc)

    end-ok :
        (b : Text) (vs us : List V) (rest : Text)
        → ◌≡◌ {A = Option (Result FrameError (List V) × Text)}
            (some (end_of_buffer next handle kind b vs, b))
            (some (ok us, rest))
        → (vs ≡ us) × (b ≡ rest)
    unfolding end_of_buffer ensure_subscription_buffer_limit
    end-ok b vs us rest e = elim (Bool-cases (ltb max_buffer_bytes (byte_len b))) [
      | inl t ↦
          absurd
            (failed-ok _ us b rest (rw (t, end_of_buffer, ensure_subscription_buffer_limit) at e))
      | inr t ↦
          drained-ok vs us b rest (rw (t, end_of_buffer, ensure_subscription_buffer_limit) at e)
    ]

    loop_chunks :
        (n m : ℕ) (b c : Text) (vs us : List V) (rest : Text)
        → length b < n
        → length (b ++ c) < m
        → Good (b ++ c)
        → drain_frames next handle kind n b vs ≡ some (ok us, rest)
        → drain_frames next handle kind m (b ++ c) vs
          ≡ drain_frames next handle kind (suc (length (rest ++ c))) (rest ++ c) us
    loop_chunks zero m b c vs us rest l k g e = absurd (omega arith)
    loop_chunks (suc n) zero b c vs us rest l k g e = absurd (omega arith)
    loop_chunks (suc n) (suc m) b c vs us rest l k g e = elim (Option-cases (next b)) [
      | inl q ↦
          let d = end-ok b vs us rest (sym (loop-end n b vs q) ∙ e) in
          subst
            (λ (r : Text).
              drain_frames next handle kind (suc m) (b ++ c) vs
              ≡ drain_frames next handle kind (suc (length (r ++ c))) (r ++ c) us)
            d.1 (rw (d.0) (loop_fuel (suc m) (suc (length (b ++ c))) (b ++ c) us k (omega arith)))
      | inr (t, q) ↦ elim (Result-cases (handle t.0)) [
        | inr (x, h) ↦ absurd (failed-ok x us t.1 rest (sym (loop-fails n b t.0 t.1 vs x q h) ∙ e))
        | inl (o, h) ↦
            let later = extends b c t.0 t.1 g q in
            let s = shrinks b t.0 t.1 q in
            let s' = shrinks (b ++ c) t.0 (t.1 ++ c) later in
            loop-goes m (b ++ c) t.0 (t.1 ++ c) vs o later h
            ∙ loop_chunks n m t.1 c (push_value o vs) us rest (omega arith) (omega arith)
                (good_rest (b ++ c) t.0 (t.1 ++ c) later g)
                (sym (loop-goes n b t.0 t.1 vs o q h) ∙ e)
      ]
    ]

    pub drain_chunks :
        (b c : Text) (us : List V) (rest : Text)
        → Good (b ++ c)
        → drain next handle kind b ≡ some (ok us, rest)
        → drain next handle kind (b ++ c) ≡ with_events us (drain next handle kind (rest ++ c))
    unfolding drain
    drain_chunks b c us rest g e =
        loop_chunks _ _ b c [] us rest (omega arith) (omega arith) g e
        ∙ ap (drain_frames next handle kind (suc (length (rest ++ c))) (rest ++ c))
            (sym (append-nil us))
        ∙ loop-with_events (suc (length (rest ++ c))) (rest ++ c) us []

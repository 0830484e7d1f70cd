-- ===== src/Daemon/Fanout/Since.antt =====
-- What a subscriber gets since its cursor.
use uxc.Base.{
  keep-append, keep-All, keep_none, All-drop, drop-drop, drop-append, ℕ, zero, suc, ◌+◌, ◌-◌, ◌≤◌,
  ◌≡◌, refl, ap, Bool, true, false, List, [], ◌∷◌, ◌++◌, map, arith, ltb, lt→ltb, length,
  length-append, drop, keep, All, length-drop, saturating_add, u64_max,
}
use mathlib.Core.List.{append-nil, append_assoc}
use uxc.Base.Window.{drop_all_fit, pop_to-drop}
use uxc.Daemon.Fanout.{FanoutNotification, Fanout, history_limit, push, extend, since}

-- The newest elements, as many as the history holds.
abbrev pub newest : {A : Type 0} → List A → List A
newest xs = drop (length xs - history_limit) xs

abbrev numbered : {N : Type 0} → ℕ → List N → List (FanoutNotification N)
numbered n [] = []
numbered n (x ∷ xs) = record { seq = suc n; notification = x } ∷ numbered (suc n) xs

newest-append : {A : Type 0} (xs ys : List A) → newest (newest xs ++ ys) ≡ newest (xs ++ ys)
newest-append xs ys =
    let k = length xs - history_limit in
    let m = length xs - k + length ys - history_limit in
    let l : length (newest xs ++ ys) ≡ length xs - k + length ys =
      omega (arith, length-append (newest xs) ys, length-drop k xs) in
    let e : k + m ≡ length xs + length ys - history_limit = omega arith in
    let o : m - (length xs - k) ≡ length xs + length ys - history_limit - length xs = omega arith in
    rw (l, length-append xs ys, drop-append, drop-append, drop-drop, length-drop k xs, e, o) refl

newest_short : {A : Type 0} (xs : List A) → length xs ≤ history_limit → newest xs ≡ xs
newest_short xs h = drop_all_fit history_limit xs h

length-newest-le : {A : Type 0} (xs : List A) → length (newest xs) ≤ history_limit
length-newest-le xs = omega (arith, length-drop (length xs - history_limit) xs)

module _ {N : Type 0} where
  abbrev pushed : N → Fanout N → Fanout N
  pushed n f = record f {
    next_seq = suc f.next_seq;
    notifications =
        newest (f.notifications ++ record { seq = suc f.next_seq; notification = n } ∷ []);
  }

  push-newest : (n : N) (f : Fanout N) → f.next_seq + 1 ≤ u64_max → push n f ≡ pushed n f
  unfolding push
  push-newest n f small =
      let e : saturating_add f.next_seq 1 ≡ suc f.next_seq = omega arith in rw (e, pop_to-drop) refl

  extend-newest :
      (ns : List N) (f : Fanout N)
      → length f.notifications ≤ history_limit
      → f.next_seq + length ns ≤ u64_max
      → extend ns f ≡ record f {
        next_seq = f.next_seq + length ns;
        notifications = newest (f.notifications ++ numbered f.next_seq ns);
      }
  unfolding extend
  extend-newest [] f fits small =
      let e : f.next_seq + 0 ≡ f.next_seq = omega arith in
      rw (e, append-nil f.notifications, newest_short f.notifications fits) refl
  extend-newest (n ∷ ns) f fits small =
      let e : suc f.next_seq + length ns ≡ f.next_seq + suc (length ns) = omega arith in
      let x : List (FanoutNotification N) =
        record { seq = suc f.next_seq; notification = n } ∷ [] in
      rw
        (
          push-newest n f (omega arith),
          extend-newest ns (pushed n f) (length-newest-le (f.notifications ++ x)) (omega arith),
          e,
          newest-append (f.notifications ++ x) (numbered (suc f.next_seq) ns),
          append_assoc f.notifications x (numbered (suc f.next_seq) ns),
        )
        refl

  -- The history is not too long, and no notification has a number that is still to come.
  unfoldable pub WellFormed : Fanout N → Type 0
  WellFormed f =
      (length f.notifications ≤ history_limit) × All (λ e. e.seq ≤ f.next_seq) f.notifications

  numbered-new : (n m : ℕ) (xs : List N) → n ≤ m → All (λ e. ltb n e.seq ≡ true) (numbered m xs)
  numbered-new n m [] h = tt
  numbered-new n m (x ∷ xs) h =
      (lt→ltb n (suc m) (omega arith), numbered-new n (suc m) xs (omega arith))

  numbered-old : (n m : ℕ) (xs : List N) → m + length xs ≤ n → All (λ e. e.seq ≤ n) (numbered m xs)
  numbered-old n m [] h = tt
  numbered-old n m (x ∷ xs) h = (omega arith, numbered-old n (suc m) xs (omega arith))

  map-drop-numbered :
      (j n : ℕ) (xs : List N) → map (λ e. e.notification) (drop j (numbered n xs)) ≡ drop j xs
  map-drop-numbered zero n [] = refl
  map-drop-numbered zero n (x ∷ xs) = ap (◌∷◌ x) (map-drop-numbered zero (suc n) xs)
  map-drop-numbered (suc j) n [] = refl
  map-drop-numbered (suc j) n (x ∷ xs) = map-drop-numbered j (suc n) xs

  length-numbered : (n : ℕ) (xs : List N) → length (numbered n xs) ≡ length xs
  length-numbered n [] = refl
  length-numbered n (x ∷ xs) = ap (λ k. suc k) (length-numbered (suc n) xs)

  seen_old :
      (n : ℕ) (es : List (FanoutNotification N))
      → All (λ e. e.seq ≤ n) es
      → All (λ e. ltb n e.seq ≡ false) es
  seen_old n [] h = tt
  seen_old n (e ∷ es) h = (ground (arith, h.0), seen_old n es h.1)

  All-weaken :
      (m n : ℕ) (es : List (FanoutNotification N))
      → m ≤ n
      → All (λ e. e.seq ≤ m) es
      → All (λ e. e.seq ≤ n) es
  All-weaken m n [] l h = tt
  All-weaken m n (e ∷ es) l h = (omega (arith, h.0), All-weaken m n es l h.1)

  All-append {κ} :
      (P : FanoutNotification N → Type κ) (xs ys : List (FanoutNotification N))
      → All P xs
      → All P ys
      → All P (xs ++ ys)
  All-append P [] ys h g = g
  All-append P (x ∷ xs) ys h g = (h.0, All-append P xs ys h.1 g)

  -- The history stays well-formed while the numbers do not run out.
  pub extend-WellFormed :
      (ns : List N) (f : Fanout N)
      → WellFormed f
      → f.next_seq + length ns ≤ u64_max
      → WellFormed (extend ns f)
  unfolding WellFormed
  extend-WellFormed ns f wf small = rw (extend-newest ns f wf.0 small) (
    length-newest-le (f.notifications ++ numbered f.next_seq ns),
    All-drop _ _ _ (
        All-append _ f.notifications _
          (All-weaken f.next_seq (f.next_seq + length ns) _ (omega arith) wf.1)
          (numbered-old (f.next_seq + length ns) f.next_seq ns (omega arith))),
  )

  -- A subscriber whose cursor is up to date gets, after a batch of notifications, just that batch in
  -- its order (its newest 256 where it is longer) and the cursor behind it; the history stays
  -- well-formed for the next batch. The condition is that the history was well-formed and that the
  -- numbers stay below the largest u64.
  pub since-extend :
      (ns : List N) (f : Fanout N)
      → WellFormed f
      → f.next_seq + length ns ≤ u64_max
      → (since f.next_seq (extend ns f) ≡ (newest ns, f.next_seq + length ns))
        × WellFormed (extend ns f)
  unfolding since WellFormed
  since-extend ns f wf small =
      let old = f.notifications in
      let new = numbered f.next_seq ns in
      let k = length old + length new - history_limit in
      let e : k - length old ≡ length ns - history_limit =
        omega (arith, length-numbered f.next_seq ns, wf.0) in
      let p : FanoutNotification N → Bool = λ x. ltb f.next_seq x.seq in
      let o : keep p (drop k old) ≡ [] =
        keep_none p (drop k old) (All-drop _ k old (seen_old f.next_seq old wf.1)) in
      let n : keep p (drop (k - length old) new) ≡ drop (k - length old) new =
        keep-All p _
          (All-drop _ (k - length old) new (numbered-new f.next_seq f.next_seq ns (omega arith))) in
      (
        rw
            (
              extend-newest ns f wf.0 small,
              length-append old new,
              drop-append,
              keep-append,
              o,
              n,
              e,
              map-drop-numbered,
            )
            refl,
        extend-WellFormed ns f wf small,
      )

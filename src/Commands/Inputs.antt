-- ===== src/Commands/Inputs.antt =====
-- Which inputs of an operation are accepted, of the words behind it.
use uxc.Base.{
  String, ◌≡◌, refl, sym, ap, ◌∙◌, Bool, true, false, ◌&&◌, Option, none, some, List, [], ◌∷◌, All,
  Bool-cases, ◌↔◌, inl, inr, or_else, is_some, subst, true-ne-false, some-ne-none,
}
use uxc.Base.Result.{ok, err, ◌>>=◌, bail_if, ok-injective, err-ne-ok, >>=-eq-ok}
use uxc.Json.{Value, null, bool, number, string, array, object, Fields}
use uxc.Commands.{
  assigns, is_dash, payload_not_object, unknown_argument, unexpected_argument, two_payloads,
  object_payload, take_payload, take_positionals, check_args, normalize_operation_inputs,
}
use uxc.Commands.Words.{last_of}

bail-false : {E : Type 0} (b : Bool) (e : E) → bail_if b e ≡ ok tt → b ≡ false
bail-false true e q = absurd (err-ne-ok e tt q)
bail-false false e q = refl

last_of-none : (js : List String) → last_of js none ≡ none → js ≡ []
unfolding last_of
last_of-none [] e = refl
last_of-none (j ∷ js) e = absurd (some_first js j e)
  where
    some_first : (ks : List String) (k : String) → last_of ks (some k) ≡ none → ⊥
    some_first [] k q = some-ne-none q
    some_first (l ∷ ks) k q = some_first ks l q

or_else-none : (o : Option String) → or_else o none ≡ o
or_else-none none = refl
or_else-none (some s) = refl

and_false : (b : Bool) → (b && false) ≡ false
and_false true = refl
and_false false = refl

not_both : (o : Option String) → (is_some o && true) ≡ false → o ≡ none
not_both none e = refl
not_both (some s) e = absurd (true-ne-false e)

module _ {F : Type 0} (from_str : String → Option (Value F)) where
  abbrev pub IsObject : String → Type 0
  IsObject p = (fs : Fields F) × (from_str p ≡ some (object fs))

  -- The JSON input: the last payload behind `--input-json`, or else the one word that is no assignment,
  -- which is an object.
  abbrev pub Payload : List String → List String → Option String → Type 0
  Payload js [] o = o ≡ last_of js none
  Payload js (p ∷ []) o = (js ≡ []) × IsObject p × (o ≡ some p)
  Payload js (p ∷ q ∷ ps) o = ⊥

  object_payload-IsObject :
      (o : Option (Value F)) (p q : String)
      → object_payload from_str o p ≡ ok q
      → (fs : Fields F) × (o ≡ some (object fs)) × (q ≡ p)
  object_payload-IsObject none p q e = absurd (err-ne-ok (unknown_argument p) q e)
  object_payload-IsObject (some (object fs)) p q e = (fs, refl, sym (ok-injective e))
  object_payload-IsObject (some null) p q e = absurd (err-ne-ok payload_not_object q e)
  object_payload-IsObject (some (bool b)) p q e = absurd (err-ne-ok payload_not_object q e)
  object_payload-IsObject (some (number n)) p q e = absurd (err-ne-ok payload_not_object q e)
  object_payload-IsObject (some (string s)) p q e = absurd (err-ne-ok payload_not_object q e)
  object_payload-IsObject (some (array xs)) p q e = absurd (err-ne-ok payload_not_object q e)

  check_args_iff :
      (as' : List String) → (check_args from_str as' ≡ ok tt) ↔ All (λ a. assigns a ≡ true) as'
  unfolding check_args
  check_args_iff [] = (λ e. tt {0}, λ h. refl)
  check_args_iff (a ∷ as') = elim (Bool-cases (assigns a)) [
    | inl t ↦ let r = check_args_iff as' in rw (t, check_args) (λ e. (refl, r.0 e), λ h. r.1 h.1)
    | inr t ↦ (
      λ e. absurd (err-ne-ok _ _ (rw (t, check_args) at e)),
      λ h. absurd (true-ne-false (sym h.0 ∙ t)),
    )
  ]

  -- One word that is no assignment, after none.
  take_one :
      (p : String) (ps as' : List String)
      → assigns p ≡ false
      → take_positionals from_str (p ∷ ps) as' none
        ≡ (take_payload from_str none p >>= λ q. take_positionals from_str ps as' (some q))
  unfolding take_positionals
  take_one p ps as' e = rw (e, take_positionals) refl

  take_second :
      (p : String) (ps as' : List String) (q : String)
      → assigns p ≡ false
      → is_dash p ≡ false
      → take_positionals from_str (p ∷ ps) as' (some q) ≡ err (unexpected_argument p)
  unfolding take_positionals take_payload
  take_second p ps as' q e d = rw (e, take_positionals, d) refl

  take_payload-none :
      (p : String)
      → is_dash p ≡ false
      → take_payload from_str none p ≡ object_payload from_str (from_str p) p
  unfolding take_payload
  take_payload-none p d = rw d refl

  -- What is taken of words that are no assignments, from none.
  Taken : List String → List String → List String × Option String → Type 0
  Taken as' [] r = r ≡ (as', none)
  Taken as' (p ∷ []) r = IsObject p × (r ≡ (as', some p))
  Taken as' (p ∷ q ∷ ps) r = ⊥

  taken_first :
      (p : String) (ps as' : List String) (r : List String × Option String)
      → assigns p ≡ false
      → is_dash p ≡ false
      → take_positionals from_str (p ∷ ps) as' none ≡ ok r
      → IsObject p × (take_positionals from_str ps as' (some p) ≡ ok r)
  taken_first p ps as' r e d t =
      let a = >>=-eq-ok (take_payload from_str none p) _ (sym (take_one p ps as' e) ∙ t) in
      let b = object_payload-IsObject (from_str p) p a.0 (sym (take_payload-none p d) ∙ a.1) in
      ((b.0, b.1), subst (λ x. take_positionals from_str ps as' (some x) ≡ ok r) b.2 a.2)

  take_positionals-Taken :
      (ps as' : List String) (r : List String × Option String)
      → All (λ p. (assigns p ≡ false) × (is_dash p ≡ false)) ps
      → take_positionals from_str ps as' none ≡ ok r
      → Taken as' ps r
  unfolding Taken take_positionals
  take_positionals-Taken [] as' r h e = sym (ok-injective e)
  take_positionals-Taken (p ∷ []) as' r h e =
      let a = taken_first p [] as' r h.0.0 h.0.1 e in (a.0, sym (ok-injective a.1))
  take_positionals-Taken (p ∷ q ∷ ps) as' r h e =
      let a = taken_first p (q ∷ ps) as' r h.0.0 h.0.1 e in
      err-ne-ok (unexpected_argument q) r (sym (take_second q ps as' p h.1.0.0 h.1.0.1) ∙ a.1)

  Taken-take_positionals :
      (ps as' : List String) (r : List String × Option String)
      → All (λ p. (assigns p ≡ false) × (is_dash p ≡ false)) ps
      → Taken as' ps r
      → take_positionals from_str ps as' none ≡ ok r
  unfolding Taken take_positionals
  Taken-take_positionals [] as' r h t = ap ok (sym t)
  Taken-take_positionals (p ∷ []) as' r h t =
      take_one p [] as' h.0.0 ∙ rw (take_payload-none p h.0.1, t.0.1) (ap ok (sym t.1))
  Taken-take_positionals (p ∷ q ∷ ps) as' r h t = absurd t

  -- What remains of the words: the assignments as they are, all of them such, and one JSON input.
  abbrev Accepted : List String → List String → List String → List String × Option String → Type 0
  Accepted as' js ps (args, o) = (args ≡ as') × All (λ a. assigns a ≡ true) as' × Payload js ps o

  module _ (js : List String) where
    -- Both kinds of JSON input are not given at once.
    Taken-Payload :
        (as' ps : List String) (r : List String × Option String)
        → Taken as' ps r
        → (is_some (last_of js none) && is_some r.1) ≡ false
        → (r.0 ≡ as') × Payload js ps (or_else (last_of js none) r.1)
    unfolding Taken
    Taken-Payload as' [] r t e = (
      ap (λ x. x.0) t,
      ap (λ x. or_else (last_of js none) x.1) t ∙ or_else-none (last_of js none),
    )
    Taken-Payload as' (p ∷ []) r t e =
        let q =
          not_both (last_of js none)
            (sym (ap (λ x. is_some (last_of js none) && is_some x.1) t.1) ∙ e) in
        (
          ap (λ x. x.0) t.1,
          (last_of-none js q, t.0, ap (λ x. or_else (last_of js none) x.1) t.1 ∙ rw q refl),
        )
    Taken-Payload as' (p ∷ q ∷ ps) r t e = absurd t

    Payload-Taken :
        (as' ps : List String) (o : Option String)
        → Payload js ps o
        → (r : List String × Option String) × Taken as' ps r
          × (r.0 ≡ as')
          × ((is_some (last_of js none) && is_some r.1) ≡ false)
          × (or_else (last_of js none) r.1 ≡ o)
    unfolding Taken last_of
    Payload-Taken as' [] o h = (
      (as', none),
      refl,
      refl,
      and_false (is_some (last_of js none)),
      or_else-none (last_of js none) ∙ sym h,
    )
    Payload-Taken as' (p ∷ []) o h =
        ((as', some p), (h.1, refl), refl, rw (h.0) refl, rw (h.0) (sym h.2))
    Payload-Taken as' (p ∷ q ∷ ps) o h = absurd h

  -- The inputs that are accepted, and what they become.
  pub inputs_iff :
      (js as' ps args : List String) (o : Option String)
      → All (λ p. (assigns p ≡ false) × (is_dash p ≡ false)) ps
      → (normalize_operation_inputs from_str as' (last_of js none) ps ≡ ok (args, o))
        ↔ Accepted as' js ps (args, o)
  unfolding normalize_operation_inputs
  inputs_iff js as' ps args o h = (
    λ e.
        let a = >>=-eq-ok (take_positionals from_str ps as' none) _ e in
        let b =
          >>=-eq-ok (bail_if (is_some (last_of js none) && is_some a.0.1) two_payloads) _ a.2 in
        let c = >>=-eq-ok (check_args from_str a.0.0) _ b.2 in
        let t =
          Taken-Payload js as' ps a.0 (take_positionals-Taken ps as' a.0 h a.1)
            (bail-false _ two_payloads b.1) in
        let r = ok-injective c.2 in
        (
          sym (ap (λ x. x.0) r) ∙ t.0,
          (check_args_iff as').0 (subst (λ x. check_args from_str x ≡ ok tt) t.0 c.1),
          subst (Payload js ps) (ap (λ x. x.1) r) t.1,
        ),
    λ k.
        let p = Payload-Taken js as' ps o k.2 in
        rw (Taken-take_positionals ps as' p.0 h p.1, p.3, p.2, (check_args_iff as').1 k.1, p.4, k.0)
          refl,
  )

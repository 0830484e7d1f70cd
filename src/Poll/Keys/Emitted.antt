-- ===== src/Poll/Keys/Emitted.antt =====
-- How much the filters of Poll/Keys emit, whatever the window.
use uxc.Base.{
  ◌∙◌, ap, subst, ℕ, suc, ◌+◌, ◌≤◌, String, ◌≡◌, refl, sym, Bool, List, [], ◌∷◌, Option, none, some,
  arith, length, length-append, if◌then◌else◌,
}
use uxc.Base.Result.{err-ne-ok, ok-injective, Result, ok, err}
use uxc.Poll.{PollError}
use uxc.Poll.Keys.Window.{filter_by_key-cons, filter_by_key-fails}
use uxc.Poll.Keys.{contains, push_seen_key, filter_by_key, emit_one}

-- No more than the limit, if one is set.
abbrev pub Within : Option ℕ → ℕ → Type 0
Within none n = Unit {0}
Within (some limit) n = n ≤ limit

pub length-emit_one {ℓ} :
    {A : Type ℓ} (old : Bool) (limit : Option ℕ) (x : A) (emitted : List A)
    → length (emit_one old limit x emitted) ≤ length emitted + 1
length-emit_one old limit x emitted = ground (arith, length-append emitted (x ∷ []))

pub emit_one-Within {ℓ} :
    {A : Type ℓ} (old : Bool) (limit : Option ℕ) (x : A) (emitted : List A)
    → Within limit (length emitted)
    → Within limit (length (emit_one old limit x emitted))
emit_one-Within old none x emitted h = tt
emit_one-Within old (some l) x emitted h = ground (arith, length-append emitted (x ∷ []))

module _ {A : Type 0} (key_of : A → Result PollError String) (window : ℕ) (limit : Option ℕ) where
  -- What a filter emits is at most the page, and within the limit.
  pub filter_by_key-emitted :
      (items emitted out : List A) (seen seen' : List String)
      → filter_by_key key_of window limit items emitted seen ≡ (ok out, seen')
      → Within limit (length emitted)
      → (length out ≤ length emitted + length items) × Within limit (length out)
  unfolding filter_by_key
  filter_by_key-emitted [] emitted out seen seen' e h =
      subst (λ l. (length l ≤ length emitted + 0) × Within limit (length l))
        (ok-injective (ap (λ t. t.0) e)) (omega arith, h)
  filter_by_key-emitted (x ∷ xs) emitted out seen seen' e h =
      go (key_of x) refl (λ em sn. filter_by_key-emitted xs em out sn seen')
    where
      go :
          (r : Result PollError String)
          → key_of x ≡ r
          → ((em : List A) (sn : List String)
              → filter_by_key key_of window limit xs em sn ≡ (ok out, seen')
              → Within limit (length em)
              → (length out ≤ length em + length xs) × Within limit (length out))
          → (length out ≤ length emitted + suc (length xs)) × Within limit (length out)
      go (err d) p ih = absurd (
          err-ne-ok d out (
            ap (λ t. t.0)
              (sym (filter_by_key-fails key_of window limit x xs emitted seen d p) ∙ e)))
      go (ok key) p ih =
          let em = emit_one (contains seen key) limit x emitted in
          let rest =
            ih em (if contains seen key then seen else push_seen_key seen key window)
              (sym (filter_by_key-cons key_of window limit x xs emitted seen key p) ∙ e)
              (emit_one-Within (contains seen key) limit x emitted h) in
          (omega (arith, rest.0, length-emit_one (contains seen key) limit x emitted), rest.1)

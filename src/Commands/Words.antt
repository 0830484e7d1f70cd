-- ===== src/Commands/Words.antt =====
-- What the words behind an operation stand for.
use uxc.Base.{
  String, ◌≡◌, refl, sym, ap, ◌∙◌, Option, some, List, [], ◌∷◌, ◌++◌, ◌⊎◌, inl, inr, some-injective,
  none-ne-some,
}
use uxc.Base.Result.{ok, ok-injective, err-ne-ok}
use mathlib.Core.List.{append-nil, append_assoc}
use uxc.Commands.{
  WordKind, help_word, args_option, json_option, assignment, positional, unknown, word_kind,
  Gathered, push_arg, push_positional, with_json, gather,
}

-- The words, and what they give in their order: assignments, payloads behind `--input-json`, and other
-- words. None of them asks for help.
pub data Words : List String → List String → List String → List String → Type 0 where
  no_words : Words [] [] [] []
  an_arg :
      {t v : String} {ts as' js ps : List String}
      → word_kind t ≡ args_option
      → Words ts as' js ps
      → Words (t ∷ v ∷ ts) (v ∷ as') js ps
  a_json :
      {t v : String} {ts as' js ps : List String}
      → word_kind t ≡ json_option
      → Words ts as' js ps
      → Words (t ∷ v ∷ ts) as' (v ∷ js) ps
  an_assignment :
      {t : String} {ts as' js ps : List String}
      → word_kind t ≡ assignment
      → Words ts as' js ps
      → Words (t ∷ ts) (t ∷ as') js ps
  a_positional :
      {t : String} {ts as' js ps : List String}
      → word_kind t ≡ positional
      → Words ts as' js ps
      → Words (t ∷ ts) as' js (t ∷ ps)

unfoldable pub last_of : List String → Option String → Option String
last_of [] o = o
last_of (j ∷ js) o = last_of js (some j)

-- What is gathered of such words, behind what was gathered before.
abbrev pub behind : Gathered → List String → List String → List String → Gathered
behind g as' js ps = record {
  args = g.args ++ as';
  input_json = last_of js g.input_json;
  positionals = g.positionals ++ ps;
}

behind-nothing : (g : Gathered) → behind g [] [] [] ≡ g
unfolding last_of
behind-nothing g = rw (append-nil g.args, append-nil g.positionals) refl

behind-push_arg :
    (g : Gathered) (t : String) (as' js ps : List String)
    → behind (push_arg t g) as' js ps ≡ behind g (t ∷ as') js ps
behind-push_arg g t as' js ps = rw (append_assoc g.args (t ∷ []) as') refl

behind-push_positional :
    (g : Gathered) (t : String) (as' js ps : List String)
    → behind (push_positional t g) as' js ps ≡ behind g as' js (t ∷ ps)
behind-push_positional g t as' js ps = rw (append_assoc g.positionals (t ∷ []) ps) refl

at_assignment :
    (t : String) (ts : List String) (g : Gathered)
    → word_kind t ≡ assignment
    → gather (t ∷ ts) g ≡ gather ts (push_arg t g)
unfolding gather
at_assignment t [] g e = rw (e, gather) refl
at_assignment t (v ∷ ts) g e = rw (e, gather) refl

at_positional :
    (t : String) (ts : List String) (g : Gathered)
    → word_kind t ≡ positional
    → gather (t ∷ ts) g ≡ gather ts (push_positional t g)
unfolding gather
at_positional t [] g e = rw (e, gather) refl
at_positional t (v ∷ ts) g e = rw (e, gather) refl

at_args_option :
    (t v : String) (ts : List String) (g : Gathered)
    → word_kind t ≡ args_option
    → gather (t ∷ v ∷ ts) g ≡ gather ts (push_arg v g)
unfolding gather
at_args_option t v ts g e = rw (e, gather) refl

at_json_option :
    (t v : String) (ts : List String) (g : Gathered)
    → word_kind t ≡ json_option
    → gather (t ∷ v ∷ ts) g ≡ gather ts (with_json v g)
unfolding gather
at_json_option t v ts g e = rw (e, gather) refl

pub gather-Words :
    {ts as' js ps : List String} (g : Gathered)
    → Words ts as' js ps
    → gather ts g ≡ ok (some (behind g as' js ps))
unfolding gather last_of
gather-Words g no_words = ap (λ x. ok (some x)) (sym (behind-nothing g))
gather-Words g (an_arg {t} {v} {ts} {as'} {js} {ps} e w) =
    at_args_option t v ts g e
    ∙ gather-Words (push_arg v g) w
    ∙ ap (λ x. ok (some x)) (behind-push_arg g v as' js ps)
gather-Words g (a_json {t} {v} {ts} e w) =
    at_json_option t v ts g e ∙ gather-Words (with_json v g) w
gather-Words g (an_assignment {t} {ts} {as'} {js} {ps} e w) =
    at_assignment t ts g e
    ∙ gather-Words (push_arg t g) w
    ∙ ap (λ x. ok (some x)) (behind-push_arg g t as' js ps)
gather-Words g (a_positional {t} {ts} {as'} {js} {ps} e w) =
    at_positional t ts g e
    ∙ gather-Words (push_positional t g) w
    ∙ ap (λ x. ok (some x)) (behind-push_positional g t as' js ps)

-- The converse: what is gathered comes from such words.
abbrev pub Reads : List String → Gathered → Gathered → Type 0
Reads ts g g' = (as' js ps : List String) × Words ts as' js ps × (g' ≡ behind g as' js ps)

read_arg :
    (ts us : List String) (t : String) (g g' : Gathered)
    → ((as' js ps : List String) → Words ts as' js ps → Words us (t ∷ as') js ps)
    → Reads ts (push_arg t g) g'
    → Reads us g g'
read_arg ts us t g g' f (as', js, ps, w, e) =
    (t ∷ as', js, ps, f as' js ps w, e ∙ behind-push_arg g t as' js ps)

read_positional :
    (ts : List String) (t : String) (g g' : Gathered)
    → word_kind t ≡ positional
    → Reads ts (push_positional t g) g'
    → Reads (t ∷ ts) g g'
read_positional ts t g g' k (as', js, ps, w, e) =
    (as', js, t ∷ ps, a_positional k w, e ∙ behind-push_positional g t as' js ps)

read_json :
    (ts : List String) (t v : String) (g g' : Gathered)
    → word_kind t ≡ json_option
    → Reads ts (with_json v g) g'
    → Reads (t ∷ v ∷ ts) g g'
unfolding last_of
read_json ts t v g g' k (as', js, ps, w, e) = (as', v ∷ js, ps, a_json k w, e)

read_nothing : (g g' : Gathered) → gather [] g ≡ ok (some g') → Reads [] g g'
unfolding gather
read_nothing g g' e =
    ([], [], [], no_words, sym (some-injective (ok-injective e)) ∙ sym (behind-nothing g))

WordKind-cases :
    (k : WordKind)
    → ((k ≡ assignment) ⊎ (k ≡ positional))
      ⊎ (((k ≡ args_option) ⊎ (k ≡ json_option)) ⊎ ((k ≡ help_word) ⊎ (k ≡ unknown)))
WordKind-cases help_word = inr (inr (inl refl))
WordKind-cases args_option = inr (inl (inl refl))
WordKind-cases json_option = inr (inl (inr refl))
WordKind-cases assignment = inl (inl refl)
WordKind-cases positional = inl (inr refl)
WordKind-cases unknown = inr (inr (inr refl))

pub Reads-gather : (ts : List String) (g g' : Gathered) → gather ts g ≡ ok (some g') → Reads ts g g'
unfolding gather
Reads-gather [] g g' e = read_nothing g g' e
Reads-gather (t ∷ []) g g' e = elim (WordKind-cases (word_kind t)) [
  | inl (inl k) ↦
      read_arg [] (t ∷ []) t g g' (λ as' js ps w. an_assignment k w)
        (read_nothing (push_arg t g) g' (sym (at_assignment t [] g k) ∙ e))
  | inl (inr k) ↦
      read_positional [] t g g' k
        (read_nothing (push_positional t g) g' (sym (at_positional t [] g k) ∙ e))
  | inr (inl (inl k)) ↦ absurd (err-ne-ok _ _ (rw (k, gather) at e))
  | inr (inl (inr k)) ↦ absurd (err-ne-ok _ _ (rw (k, gather) at e))
  | inr (inr (inl k)) ↦ absurd (none-ne-some (ok-injective (rw (k, gather) at e)))
  | inr (inr (inr k)) ↦ absurd (err-ne-ok _ _ (rw (k, gather) at e))
]
Reads-gather (t ∷ v ∷ ts) g g' e =
    let one = λ (h : Gathered). Reads-gather (v ∷ ts) h g' in
    let two = λ (h : Gathered). Reads-gather ts h g' in
    elim (WordKind-cases (word_kind t)) [
      | inl (inl k) ↦
          read_arg (v ∷ ts) (t ∷ v ∷ ts) t g g' (λ as' js ps w. an_assignment k w)
            (one (push_arg t g) (sym (at_assignment t (v ∷ ts) g k) ∙ e))
      | inl (inr k) ↦
          read_positional (v ∷ ts) t g g' k
            (one (push_positional t g) (sym (at_positional t (v ∷ ts) g k) ∙ e))
      | inr (inl (inl k)) ↦
          read_arg ts (t ∷ v ∷ ts) v g g' (λ as' js ps w. an_arg k w)
            (two (push_arg v g) (sym (at_args_option t v ts g k) ∙ e))
      | inr (inl (inr k)) ↦
          read_json ts t v g g' k (two (with_json v g) (sym (at_json_option t v ts g k) ∙ e))
      | inr (inr (inl k)) ↦ absurd (none-ne-some (ok-injective (rw (k, gather) at e)))
      | inr (inr (inr k)) ↦ absurd (err-ne-ok _ _ (rw (k, gather) at e))
    ]

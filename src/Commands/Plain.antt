-- ===== src/Commands/Plain.antt =====
-- Words that are taken for a payload.
use uxc.Base.{
  String, ◌≡◌, refl, Bool, true, false, not, ◌&&◌, List, [], ◌∷◌, All, str_eq, if◌then◌else◌,
}
use uxc.Commands.{
  help_word, args_option, json_option, assignment, positional, unknown, word_kind, assigns, is_dash,
  one_of,
}
use uxc.Commands.Words.{Words, no_words, an_arg, a_json, an_assignment, a_positional}

chosen_positional :
    (h a j s d : Bool)
    → (if h
        then help_word
        else if a
        then args_option
        else if j
        then json_option
        else if s && not d
        then assignment
        else if not d
        then positional
        else unknown)
      ≡ positional
    → (s ≡ false) × (d ≡ false)
chosen_positional true a j s d e = cc
chosen_positional false true j s d e = cc
chosen_positional false false true s d e = cc
chosen_positional false false false true true e = cc
chosen_positional false false false true false e = cc
chosen_positional false false false false true e = cc
chosen_positional false false false false false e = (refl, refl)

-- A word that is taken for a payload is no assignment and begins with no dash.
positional-plain :
    (t : String) → word_kind t ≡ positional → (assigns t ≡ false) × (is_dash t ≡ false)
unfolding word_kind
positional-plain t e =
    chosen_positional (one_of ("-h" ∷ "--help" ∷ []) t) (one_of ("-a" ∷ "--args" ∷ []) t)
      (str_eq t "--input-json") (assigns t) (is_dash t) e

pub Words-plain :
    {ts as' js ps : List String}
    → Words ts as' js ps
    → All (λ p. (assigns p ≡ false) × (is_dash p ≡ false)) ps
Words-plain no_words = tt
Words-plain (an_arg k w) = Words-plain w
Words-plain (a_json k w) = Words-plain w
Words-plain (an_assignment k w) = Words-plain w
Words-plain (a_positional {t} k w) = (positional-plain t k, Words-plain w)

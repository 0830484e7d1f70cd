-- ===== src/Commands/Globals.antt =====
-- Where `normalize_global_args` puts the arguments.
use uxc.Base.{
  String, ◌≡◌, refl, ap, ◌∙◌, true, false, List, [], ◌∷◌, ◌++◌, All, Bool-cases, ◌⊎◌, inl, inr,
}
use uxc.Commands.GlobalArgs.{
  GlobalKind, flag, option, other, global_kind, dashed, Split, to_global, to_rest, split_globals,
  normalize_global_args,
}

-- A list is two others, dealt together: each keeps its order.
pub data Interleaves : List String → List String → List String → Type 0 where
  end : Interleaves [] [] []
  on_left :
      {x : String} {xs ys zs : List String}
      → Interleaves xs ys zs
      → Interleaves (x ∷ xs) (x ∷ ys) zs
  on_right :
      {x : String} {xs ys zs : List String}
      → Interleaves xs ys zs
      → Interleaves (x ∷ xs) ys (x ∷ zs)

-- Every global option has its value behind it.
pub data Complete : List String → Type 0 where
  no_more : Complete []
  a_flag :
      {a : String} {as' : List String} → global_kind a ≡ flag → Complete as' → Complete (a ∷ as')
  an_option :
      {a v : String} {as' : List String}
      → global_kind a ≡ option
      → dashed v ≡ false
      → Complete as'
      → Complete (a ∷ v ∷ as')
  another :
      {a : String} {as' : List String} → global_kind a ≡ other → Complete as' → Complete (a ∷ as')

-- Flags, options with a value behind them that does not begin with two dashes, and options alone.
pub data OnlyGlobals : List String → Type 0 where
  no_global : OnlyGlobals []
  one_flag :
      {a : String} {as' : List String}
      → global_kind a ≡ flag
      → OnlyGlobals as'
      → OnlyGlobals (a ∷ as')
  with_value :
      {a v : String} {as' : List String}
      → global_kind a ≡ option
      → dashed v ≡ false
      → OnlyGlobals as'
      → OnlyGlobals (a ∷ v ∷ as')
  option_alone :
      {a : String} {as' : List String}
      → global_kind a ≡ option
      → OnlyGlobals as'
      → OnlyGlobals (a ∷ as')

GlobalKind-cases : (k : GlobalKind) → (k ≡ flag) ⊎ ((k ≡ option) ⊎ (k ≡ other))
GlobalKind-cases flag = inl refl
GlobalKind-cases option = inr (inl refl)
GlobalKind-cases other = inr (inr refl)

at_flag :
    (a : String) (as' : List String)
    → global_kind a ≡ flag
    → split_globals (a ∷ as') ≡ to_global a (split_globals as')
unfolding split_globals
at_flag a [] e = rw (e, split_globals) refl
at_flag a (b ∷ bs) e = rw (e, split_globals) refl

at_other :
    (a : String) (as' : List String)
    → global_kind a ≡ other
    → split_globals (a ∷ as') ≡ to_rest a (split_globals as')
unfolding split_globals
at_other a [] e = rw (e, split_globals) refl
at_other a (b ∷ bs) e = rw (e, split_globals) refl

at_value :
    (a v : String) (as' : List String)
    → global_kind a ≡ option
    → dashed v ≡ false
    → split_globals (a ∷ v ∷ as') ≡ to_global a (to_global v (split_globals as'))
unfolding split_globals
at_value a v as' e f = rw (e, f, split_globals) refl

at_no_value :
    (a v : String) (as' : List String)
    → global_kind a ≡ option
    → dashed v ≡ true
    → split_globals (a ∷ v ∷ as') ≡ to_global a (split_globals (v ∷ as'))
unfolding split_globals
at_no_value a v as' e f = rw (e, f, split_globals) refl

at_last : (a : String) → global_kind a ≡ option → split_globals (a ∷ []) ≡ (a ∷ [], [])
unfolding split_globals
at_last a e = rw (e, split_globals) refl

-- The two parts hold the arguments in their order, the first global ones, and the second no others.
abbrev Parts : List String → Split → Type 0
Parts args (globals, rest) =
    Interleaves args globals rest × OnlyGlobals globals × All (λ a. global_kind a ≡ other) rest

split_globals-Parts : (args : List String) → Parts args (split_globals args)
unfolding split_globals
split_globals-Parts [] = (end, no_global, tt)
split_globals-Parts (a ∷ []) = elim (GlobalKind-cases (global_kind a)) [
  | inl e ↦ rw (at_flag a [] e) (on_left end, one_flag e no_global, tt)
  | inr (inl e) ↦ rw (at_last a e) (on_left end, option_alone e no_global, tt)
  | inr (inr e) ↦ rw (at_other a [] e) (on_right end, no_global, (e, tt))
]
split_globals-Parts (a ∷ v ∷ as') =
    let one = split_globals-Parts (v ∷ as') in
    let two = split_globals-Parts as' in
    elim (GlobalKind-cases (global_kind a)) [
      | inl e ↦ rw (at_flag a (v ∷ as') e) (on_left one.0, one_flag e one.1, one.2)
      | inr (inl e) ↦ elim (Bool-cases (dashed v)) [
        | inl d ↦ rw (at_no_value a v as' e d) (on_left one.0, option_alone e one.1, one.2)
        | inr d ↦ rw (at_value a v as' e d) (on_left (on_left two.0), with_value e d two.1, two.2)
      ]
      | inr (inr e) ↦ rw (at_other a (v ∷ as') e) (on_right one.0, one.1, (e, one.2))
    ]

split_globals-All :
    (rest : List String) → All (λ a. global_kind a ≡ other) rest → split_globals rest ≡ ([], rest)
unfolding split_globals
split_globals-All [] h = refl
split_globals-All (a ∷ rest) h = at_other a rest h.0 ∙ ap (to_rest a) (split_globals-All rest h.1)

globals_again :
    {args : List String} (rest : List String)
    → Complete args
    → All (λ a. global_kind a ≡ other) rest
    → split_globals ((split_globals args).0 ++ rest) ≡ ((split_globals args).0, rest)
unfolding split_globals
globals_again rest no_more h = split_globals-All rest h
globals_again rest (a_flag {a} {as'} e c) h =
    rw (at_flag a as' e)
      (at_flag a ((split_globals as').0 ++ rest) e ∙ ap (to_global a) (globals_again rest c h))
globals_again rest (an_option {a} {v} {as'} e d c) h = rw (at_value a v as' e d) (
    at_value a v ((split_globals as').0 ++ rest) e d
    ∙ ap (λ s. to_global a (to_global v s)) (globals_again rest c h))
globals_again rest (another {a} {as'} e c) h = rw (at_other a as' e) (globals_again rest c h)

-- Where every global option has its value behind it, arguments that are in order stay so.
pub normalize_global_args_again :
    (program : String) (args : List String)
    → Complete args
    → normalize_global_args (normalize_global_args (program ∷ args))
      ≡ normalize_global_args (program ∷ args)
unfolding normalize_global_args
normalize_global_args_again program args c =
    ap (λ (s : Split). program ∷ (s.0 ++ s.1))
      (globals_again (split_globals args).1 c (split_globals-Parts args).2)

-- ===== src/Commands/External.antt =====
-- Which words behind an endpoint run an operation, and on what.
use uxc.Base.{
  String, ◌≡◌, refl, sym, ap, ◌∙◌, true, false, Option, none, some, List, ◌∷◌, All, ◌↔◌, subst,
}
use uxc.Base.Result.{ok, ok-injective, >>=-eq-ok}
use uxc.Json.{Value}
use uxc.Commands.{
  assigns, Gathered, gather, nothing, normalize_operation_inputs, describe, execute, finish,
  parse_external_command,
}
use uxc.Commands.Words.{Words, gather-Words, Reads-gather}
use uxc.Commands.Plain.{Words-plain}
use uxc.Commands.Inputs.{Payload, inputs_iff}

module _ {F : Type 0} (from_str : String → Option (Value F)) where
  abbrev pub Runs : List String → List String → Option String → Type 0
  Runs tokens args o =
      (js ps : List String) × Words tokens args js ps
      × All (λ a. assigns a ≡ true) args
      × Payload from_str js ps o

  finished :
      (op : String) (tokens args : List String) (o : Option String) (g : Option Gathered)
      → gather tokens nothing ≡ ok g
      → finish from_str op g ≡ ok (execute op args o)
      → Runs tokens args o
  finished op tokens args o none e f = absurd (describe-ne-execute (ok-injective f))
    where
      describe-ne-execute : describe op ≡ execute op args o → ⊥
      describe-ne-execute q = cc
  finished op tokens args o (some g) e f =
      let a =
        >>=-eq-ok (normalize_operation_inputs from_str g.args g.input_json g.positionals) _ f in
      let (as', js, ps, w, q) = Reads-gather tokens nothing g e in
      let same : a.0 ≡ (args, o) = execute-injective op a.0.0 args a.0.1 o (ok-injective a.2) in
      let k = (inputs_iff from_str js as' ps args o (Words-plain w)).0 (
        subst
          (λ (x : Gathered).
            normalize_operation_inputs from_str x.args x.input_json x.positionals ≡ ok (args, o))
          q (a.1 ∙ ap ok same)) in
      (
        js,
        ps,
        subst (λ x. Words tokens x js ps) (sym k.0) w,
        subst (λ x. All (λ a. assigns a ≡ true) x) (sym k.0) k.1,
        k.2,
      )
    where
      execute-injective :
          (op : String) (as' bs : List String) (p q : Option String)
          → execute op as' p ≡ execute op bs q
          → (let r : List String × Option String = (as', p) in r) ≡ (bs, q)
      execute-injective op as' bs p q e = cc

  -- The words behind an operation run it exactly when they are assignments, also behind `-a`, payloads
  -- behind `--input-json`, and at most one other word, which holds a JSON object and with which there is
  -- no such payload; nothing asks for help. The operation then gets the assignments in their order, and
  -- the last payload or that word.
  pub parse_external_command_iff :
      (op : String) (tokens args : List String) (o : Option String)
      → (parse_external_command from_str (op ∷ tokens) false ≡ ok (execute op args o))
        ↔ Runs tokens args o
  unfolding parse_external_command
  parse_external_command_iff op tokens args o = (
    λ e. let a = >>=-eq-ok (gather tokens nothing) _ e in finished op tokens args o a.0 a.1 a.2,
    λ (js, ps, w, all, p).
        rw
          (
            gather-Words nothing w,
            (inputs_iff from_str js args ps args o (Words-plain w)).1 (refl, all, p),
          )
          refl,
  )

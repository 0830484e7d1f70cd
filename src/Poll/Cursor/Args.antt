-- ===== src/Poll/Cursor/Args.antt =====
-- The arguments of a poll request.
use uxc.Base.{
  String, ◌≡◌, refl, Option, none, some, List, [], ◌∷◌, arith, str_eq, eq_iff, if◌then◌else◌,
}
use uxc.Json.{Value}
use uxc.Poll.{Config, Checkpoint}
use uxc.Poll.Cursor.{get_arg, insert_arg, with_cursor, request_cursor_value, build_request_args}

get_arg-insert_arg :
    {V : Type 0} (k j : String) (v : V) (args : List (String × V))
    → get_arg j (insert_arg k v args) ≡ (if str_eq k j then some v else get_arg j args)
unfolding get_arg insert_arg
get_arg-insert_arg k j v [] = refl
get_arg-insert_arg k j v ((i, w) ∷ args) =
    ground (arith, eq_iff k j, eq_iff i k, eq_iff i j, get_arg-insert_arg k j v args)

-- The argument of that name carries the cursor, or else the watermark.
abbrev pub sent :
    {F : Type 0} → Option String → Option (Value F) → String → Option (Value F) → Option (Value F)
sent none cursor k other = other
sent (some arg) none k other = other
sent (some arg) (some v) k other = if str_eq arg k then some v else other

-- A request carries the cursor of the checkpoint, or its watermark where it has no cursor, in the
-- configured argument, and every other argument as it was given.
pub get_arg-build_request_args :
    {F : Type 0} (config : Config) (ck : Checkpoint F) (args : List (String × Value F)) (k : String)
    → get_arg k (build_request_args config ck args)
      ≡ sent config.request_cursor_arg (request_cursor_value ck) k (get_arg k args)
unfolding build_request_args
get_arg-build_request_args config ck args k = go config.request_cursor_arg (request_cursor_value ck)
  where
    go :
        (a : Option String) (c : Option (Value _))
        → get_arg k (with_cursor a c args) ≡ sent a c k (get_arg k args)
    go none c = refl
    go (some a) none = refl
    go (some a) (some v) = get_arg-insert_arg a k v args

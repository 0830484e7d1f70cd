-- ===== src/Arguments.antt =====
-- src/cli.rs, ArgumentParser: the arguments of an operation from the command line, `key=value` with a
-- path as the key or `key:=json`, or one JSON object. The parser of JSON is an argument.
pub mod Paths
pub mod Inserted
pub mod Kept
mod Tests
use Prim.Native.Char.{Char, code}
use uxc.Base.{
  ℕ, zero, suc, String, Bool, true, false, not, ◌&&◌, Option, none, some, List, [], ◌∷◌, ◌==◌, leb,
  if◌then◌else◌, unwrap_or,
}
use uxc.Base.Result.{Result, ok, err, ◌>>=◌, ◌>>◌, bail_if, ok_or}
use uxc.Base.Text.{codes}
use uxc.Json.{Value, null, string, array, object, Items, nil, cons, Fields, end}
use uxc.Coercion.Values.{find_field}
use uxc.Coercion.Prepare.{insert_field}
use uxc.Daemon.PollLoop.HeaderMap.{parse_u64}

pub data PathSegment : Type 0 where
  key : String → PathSegment
  index : ℕ → PathSegment

pub data ArgumentError : Type 0 where
  empty_segment : ArgumentError
  missing_bracket : ArgumentError
  index_not_integer : ArgumentError
  index_too_large : ArgumentError
  empty_key : ArgumentError
  conflict : PathSegment → ArgumentError
  root_not_key : ArgumentError
  invalid_json : ArgumentError
  payload_not_object : ArgumentError

abbrev pub max_array_index : ℕ
max_array_index = 10000

abbrev pub push_char : String → Char → String
push_char String.[] c = String.◌∷◌ c String.[]
push_char (String.◌∷◌ d s) c = String.◌∷◌ d (push_char s c)

abbrev pub no_text : String → Bool
no_text String.[] = true
no_text (String.◌∷◌ c s) = false

abbrev pub is_char : ℕ → Char → Bool
is_char n c = code c == n

-- Where the scan stands: in a key, with its characters so far and whether a bracket was just closed, or
-- between brackets.
pub data Scan : Type 0 where
  in_key : String → Bool → Scan
  in_index : String → Scan

abbrev pub with_key :
    String → Result ArgumentError (List PathSegment) → Result ArgumentError (List PathSegment)
with_key current rest =
    if no_text current then rest else (do segments ← rest; ok (key current ∷ segments))

-- The text between brackets.
unfoldable pub parse_index : String → Result ArgumentError ℕ
parse_index text = do
  i ← ok_or (parse_u64 (codes text)) index_not_integer
  bail_if (not (leb i max_array_index)) index_too_large
  ok i

abbrev pub with_index :
    Result ArgumentError ℕ
    → Result ArgumentError (List PathSegment)
    → Result ArgumentError (List PathSegment)
with_index parsed rest = do i ← parsed; segments ← rest; ok (index i ∷ segments)

-- The end of the path; `dotted` where it ends with a dot.
abbrev pub at_end : Bool → Scan → Result ArgumentError (List PathSegment)
at_end dotted (in_index text) = err missing_bracket
at_end dotted (in_key current true) = ok []
at_end dotted (in_key current false) =
    if no_text current then (if dotted then err empty_segment else ok []) else ok (key current ∷ [])

unfoldable pub scan : Bool → Scan → String → Result ArgumentError (List PathSegment)
scan dotted at String.[] = at_end dotted at
scan dotted (in_key current closed) (String.◌∷◌ c s) =
    let after_dot = scan dotted (in_key String.[] false) s in
    let in_brackets = scan dotted (in_index String.[]) s in
    let in_text = scan dotted (in_key (push_char current c) false) s in
    if is_char 46 c
    then (if no_text current && not closed then err empty_segment else with_key current after_dot)
    else if is_char 91 c
    then with_key current in_brackets
    else in_text
scan dotted (in_index text) (String.◌∷◌ c s) =
    let behind = scan dotted (in_key String.[] true) s in
    let inside = scan dotted (in_index (push_char text c)) s in
    if is_char 93 c then with_index (parse_index text) behind else inside

abbrev pub ends_with_dot : String → Bool
ends_with_dot String.[] = false
ends_with_dot (String.◌∷◌ c s) = if no_text s then is_char 46 c else ends_with_dot s

abbrev pub non_empty : List PathSegment → Result ArgumentError (List PathSegment)
non_empty [] = err empty_key
non_empty (s ∷ ss) = ok (s ∷ ss)

unfoldable pub parse_segments : String → Result ArgumentError (List PathSegment)
parse_segments raw_key = do
  segments ← scan (ends_with_dot raw_key) (in_key String.[] false) raw_key
  non_empty segments

module _ {F : Type 0} where
  -- `target` as an object or an array, or an empty one in the place of `null`.
  abbrev pub object_at : PathSegment → Value F → Result ArgumentError (Fields F)
  object_at s (object fs) = ok fs
  object_at s null = ok end
  object_at s _ = err (conflict s)

  abbrev pub array_at : PathSegment → Value F → Result ArgumentError (Items F)
  array_at s (array xs) = ok xs
  array_at s null = ok nil
  array_at s _ = err (conflict s)

  abbrev pub item_at : ℕ → Items F → Option (Value F)
  item_at i nil = none
  item_at zero (cons x xs) = some x
  item_at (suc i) (cons x xs) = item_at i xs

  -- `while array.len() <= index { array.push(Null) }`, and the item is put.
  abbrev pub set_item : ℕ → Value F → Items F → Items F
  set_item zero v nil = cons v nil
  set_item zero v (cons x xs) = cons v xs
  set_item (suc i) v nil = cons null (set_item i v nil)
  set_item (suc i) v (cons x xs) = cons x (set_item i v xs)

  unfoldable pub insert_segments :
      List PathSegment → Value F → Value F → Result ArgumentError (Value F)
  insert_segments [] value target = ok value
  insert_segments (key k ∷ segments) value target = do
    fs ← object_at (key k) target
    entry ← insert_segments segments value (unwrap_or (find_field k fs) null)
    ok (object (insert_field k entry fs))
  insert_segments (index i ∷ segments) value target = do
    xs ← array_at (index i) target
    item ← insert_segments segments value (unwrap_or (item_at i xs) null)
    ok (array (set_item i item xs))

  abbrev pub insert_at : Fields F → Value F → List PathSegment → Result ArgumentError (Fields F)
  insert_at root value [] = err empty_key
  insert_at root value (index i ∷ segments) = err root_not_key
  insert_at root value (key k ∷ segments) = do
    entry ← insert_segments segments value (unwrap_or (find_field k root) null)
    ok (insert_field k entry root)

  unfoldable pub insert_argument_path :
      Fields F → String → Value F → Result ArgumentError (Fields F)
  insert_argument_path root raw_key value = do
    segments ← parse_segments raw_key
    insert_at root value segments

abbrev pub behind_char : Char → Option (String × String) → Option (String × String)
behind_char c none = none
behind_char c (some (before, after)) = some (String.◌∷◌ c before, after)

-- `split_once(":=")` and `split_once('=')`
unfoldable pub split_json : String → Option (String × String)
split_json String.[] = none
split_json (String.◌∷◌ c String.[]) = none
split_json (String.◌∷◌ c (String.◌∷◌ d s)) =
    let later = split_json (String.◌∷◌ d s) in
    if is_char 58 c && is_char 61 d then some (String.[], s) else behind_char c later

unfoldable pub split_text : String → Option (String × String)
split_text String.[] = none
split_text (String.◌∷◌ c s) =
    let later = split_text s in if is_char 61 c then some (String.[], s) else behind_char c later

module _ {F : Type 0} (from_str : String → Option (Value F)) where
  abbrev pub as_text : Option (String × String) → Option (String × Value F)
  as_text none = none
  as_text (some (k, rhs)) = some (k, string rhs)

  -- `key:=json`, or else `key=value`.
  unfoldable pub parse_assignment : String → Result ArgumentError (Option (String × Value F))
  parse_assignment raw = elim (split_json raw) [
    | some (k, rhs) ↦ (do v ← ok_or (from_str rhs) invalid_json; ok (some (k, v)))
    | none ↦ ok (as_text (split_text raw))
  ]

  abbrev pub insert_assignment :
      Fields F → Option (String × Value F) → Result ArgumentError (Fields F)
  insert_assignment root none = ok root
  insert_assignment root (some (k, v)) = insert_argument_path root k v

  unfoldable pub insert_all : Fields F → List String → Result ArgumentError (Fields F)
  insert_all root [] = ok root
  insert_all root (arg ∷ args) = do
    assignment ← parse_assignment arg
    root' ← insert_assignment root assignment
    insert_all root' args

  abbrev payload_fields : Option (Value F) → Result ArgumentError (Fields F)
  payload_fields (some (object fs)) = ok fs
  payload_fields (some _) = err payload_not_object
  payload_fields none = err invalid_json

  unfoldable pub parse_arguments : List String → Option String → Result ArgumentError (Fields F)
  parse_arguments args none = insert_all end args
  parse_arguments args (some json) = payload_fields (from_str json)

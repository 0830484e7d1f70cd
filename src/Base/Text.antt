-- ===== src/Base/Text.antt =====
-- Texts as lists of the numbers of their characters, with what the code calls of Rust's `str`.
use Prim.Native.Char.{code}
use Prim.Native.Nat.{ℕ, suc, ◌+◌}
use Prim.Native.String.{String}
use mathlib.Core.Bool.{Bool, true, false, ◌&&◌, ◌||◌}
use mathlib.Core.Option.{Option, none, some}
use mathlib.Core.List.{List, [], ◌∷◌, map}
use uxc.Base.Tests.{leb, ltb, ◌==◌, if◌then◌else◌}
use uxc.Base.Lists.{is_empty}

-- The characters of a text, as numbers.
abbrev pub codes : String → List ℕ
codes String.[] = []
codes (String.◌∷◌ c s) = code c ∷ codes s

-- `char::is_whitespace`
abbrev pub is_whitespace : ℕ → Bool
is_whitespace c =
    (leb 9 c && leb c 13)
    || (c == 0x20)
    || (c == 0x85)
    || (c == 0xA0)
    || (c == 0x1680)
    || (leb 0x2000 c && leb c 0x200A)
    || (c == 0x2028)
    || (c == 0x2029)
    || (c == 0x202F)
    || (c == 0x205F)
    || (c == 0x3000)

abbrev pub trim_start : List ℕ → List ℕ
trim_start [] = []
trim_start (c ∷ cs) = if is_whitespace c then trim_start cs else c ∷ cs

abbrev pub trim_end : List ℕ → List ℕ
trim_end [] = []
trim_end (c ∷ cs) =
    let rest = trim_end cs in if is_whitespace c && is_empty rest then [] else c ∷ rest

-- How many bytes a character takes in UTF-8, and `str::len`.
abbrev pub char_width : ℕ → ℕ
char_width c = if ltb c 0x80 then 1 else if ltb c 0x800 then 2 else if ltb c 0x10000 then 3 else 4

abbrev pub byte_len : List ℕ → ℕ
byte_len [] = 0
byte_len (c ∷ cs) = char_width c + byte_len cs

-- `str::starts_with`, and the rest of the text behind the prefix: `str::strip_prefix`
abbrev pub strip_prefix : List ℕ → List ℕ → Option (List ℕ)
strip_prefix [] cs = some cs
strip_prefix (p ∷ ps) [] = none
strip_prefix (p ∷ ps) (c ∷ cs) = if p == c then strip_prefix ps cs else none

abbrev pub starts_with : List ℕ → List ℕ → Bool
starts_with ps cs = elim (strip_prefix ps cs) [ none ↦ false | some r ↦ true ]

-- `str::find`, in characters
abbrev pub suc_pos : Option ℕ → Option ℕ
suc_pos none = none
suc_pos (some n) = some (suc n)

unfoldable pub find_text : List ℕ → List ℕ → Option ℕ
find_text needle [] = if is_empty needle then some 0 else none
find_text needle (c ∷ cs) =
    let later = find_text needle cs in if starts_with needle (c ∷ cs) then some 0 else suc_pos later

-- `trim_end_matches`, of one character
abbrev pub trim_end_matches : ℕ → List ℕ → List ℕ
trim_end_matches d [] = []
trim_end_matches d (c ∷ cs) =
    let rest = trim_end_matches d cs in if (c == d) && is_empty rest then [] else c ∷ rest

abbrev pub trim : List ℕ → List ℕ
trim cs = trim_end (trim_start cs)

-- `==` on texts
abbrev pub same_text : List ℕ → List ℕ → Bool
same_text [] [] = true
same_text [] (b ∷ bs) = false
same_text (a ∷ as') [] = false
same_text (a ∷ as') (b ∷ bs) = (a == b) && same_text as' bs

-- `to_ascii_lowercase`, on the characters
abbrev pub ascii_lower : ℕ → ℕ
ascii_lower c = if leb 65 c && leb c 90 then c + 32 else c

abbrev pub lower_codes : String → List ℕ
lower_codes s = map ascii_lower (codes s)

-- `eq_ignore_ascii_case`
abbrev pub same_ignoring_case : String → String → Bool
same_ignoring_case s t = same_text (lower_codes s) (lower_codes t)

-- ===== src/Base/Url.antt =====
-- What the code reads of a parsed URL: the parser itself is a parameter wherever it is used.
use Prim.Native.Nat.{ℕ}
use mathlib.Core.Option.{Option}
use mathlib.Core.List.{List}

pub record Target : Type 0 where
  pub host_str : Option (List ℕ)
  pub scheme_str : List ℕ
  pub path : List ℕ

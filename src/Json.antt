-- ===== src/Json.antt =====
-- The JSON values of serde_json that the Rust code matches on, `Value` and `Number`, and the
-- operations of serde_json, of sha2 and of `f64` that it calls, as a record of parameters. A
-- `Number` holds a `u64`, a negative `i64` or an `f64`; the entries of an object stand in the order
-- in which the map is iterated.
use uxc.Base.{
  ℕ, String, Bool, Ordering, List, [], ◌∷◌, Option, none, some, leb, i64_max, if◌then◌else◌,
}
use uxc.Base.Int.{ℤ, pos, negsuc}

pub data Number (F : Type 0) : Type 0 where
  pos_int : ℕ → Number F
  -- `neg_int n` is -(n + 1)
  neg_int : ℕ → Number F
  float : F → Number F

mutual
  pub data Value (F : Type 0) : Type 0 where
    null : Value F
    bool : Bool → Value F
    number : Number F → Value F
    string : String → Value F
    array : Items F → Value F
    object : Fields F → Value F

  pub data Items (F : Type 0) : Type 0 where
    nil : Items F
    cons : Value F → Items F → Items F

  pub data Fields (F : Type 0) : Type 0 where
    end : Fields F
    field : String → Value F → Fields F → Fields F

module _ {F : Type 0} where
  abbrev pub to_list : Items F → List (Value F)
  to_list nil = []
  to_list (cons v xs) = v ∷ to_list xs

  abbrev pub from_list : List (Value F) → Items F
  from_list [] = nil
  from_list (v ∷ xs) = cons v (from_list xs)

  -- `Value::as_array`
  abbrev pub as_array : Value F → Option (List (Value F))
  as_array (array xs) = some (to_list xs)
  as_array _ = none

  -- `Number::as_i64`
  abbrev pub as_i64 : Number F → Option ℤ
  as_i64 (pos_int n) = if leb n i64_max then some (pos n) else none
  as_i64 (neg_int n) = some (negsuc n)
  as_i64 (float f) = none

  -- `Number::as_u64`
  abbrev pub as_u64 : Number F → Option ℕ
  as_u64 (pos_int n) = some n
  as_u64 _ = none

  -- `Number::from(i64)`
  abbrev pub from_i64 : ℤ → Number F
  from_i64 (pos n) = pos_int n
  from_i64 (negsuc n) = neg_int n

-- What the code calls of other packages, and the floats.
pub record Serde : Type 1 where
  pub Float : Type 0
  -- `Value::pointer`
  pub pointer : String → Value Float → Option (Value Float)
  -- `serde_json::to_string` and `serde_json::to_vec`; `none` is an error
  pub to_string : Value Float → Option String
  pub to_vec : Value Float → Option (List ℕ)
  -- SHA-256 in lower-case hexadecimal
  pub sha256_hex : List ℕ → String
  -- `Number::as_f64` and `f64::partial_cmp`
  pub as_f64 : Number Float → Option Float
  pub partial_cmp : Float → Float → Option Ordering
  -- `==` on `Value`
  pub value_eq : Value Float → Value Float → Bool

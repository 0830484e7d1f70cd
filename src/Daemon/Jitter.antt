-- ===== src/Daemon/Jitter.antt =====
-- src/daemon.rs: how long a managed source waits between its polls.
pub mod Bounds
use Prim.Native.Nat.{bit_xor}
use Prim.Native.Char.{code}
use uxc.Base.{
  ◌^◌, ◌%◌, ◌/◌, ℕ, zero, suc, ◌+◌, ◌-◌, ◌*◌, min, max, String, List, [], ◌∷◌, ◌++◌, ltb, leb,
  if◌then◌else◌, saturating_add, u64_max,
}

-- The bytes of a text in UTF-8.
abbrev utf8 : ℕ → List ℕ
utf8 c =
    if ltb c 0x80
    then c ∷ []
    else if ltb c 0x800
    then (0xC0 + c / 0x40) ∷ (0x80 + c % 0x40) ∷ []
    else if ltb c 0x10000
    then (0xE0 + c / 0x1000) ∷ (0x80 + c / 0x40 % 0x40) ∷ (0x80 + c % 0x40) ∷ []
    else (0xF0 + c / 0x40000)
      ∷ (0x80 + c / 0x1000 % 0x40)
      ∷ (0x80 + c / 0x40 % 0x40)
      ∷ (0x80 + c % 0x40)
      ∷ []

abbrev pub bytes : String → List ℕ
bytes String.[] = []
bytes (String.◌∷◌ c s) = utf8 (code c) ++ bytes s

-- `to_le_bytes`, of as many bytes as are asked for
abbrev le_bytes : ℕ → ℕ → List ℕ
le_bytes zero n = []
le_bytes (suc k) n = (n % 256) ∷ le_bytes k (n / 256)

abbrev fnv_offset : ℕ
fnv_offset = 0xcbf29ce484222325

abbrev fnv_prime : ℕ
fnv_prime = 0x100000001b3

-- `hash ^= byte; hash = hash.wrapping_mul(FNV_PRIME)`
unfoldable pub hash_byte : ℕ → ℕ → ℕ
hash_byte hash byte = bit_xor hash byte * fnv_prime % 2 ^ 64

unfoldable pub hash_bytes : ℕ → List ℕ → ℕ
hash_bytes hash [] = hash
hash_bytes hash (b ∷ bs) = hash_bytes (hash_byte hash b) bs

unfoldable pub stable_managed_source_hash : String → String → ℕ → ℕ
stable_managed_source_hash namespace source_key poll_round =
    hash_bytes
      (hash_bytes (hash_byte (hash_bytes fnv_offset (bytes namespace)) 0) (bytes source_key))
      (le_bytes 8 poll_round)

abbrev pub jitter_max_ms : ℕ
jitter_max_ms = 30000

abbrev saturating_mul : ℕ → ℕ → ℕ
saturating_mul a b = min (a * b) u64_max

-- `interval_secs.max(1).saturating_mul(1000)`
unfoldable pub interval_ms : ℕ → ℕ
interval_ms interval_secs = saturating_mul (max interval_secs 1) 1000

unfoldable pub jitter_window_ms : ℕ → ℕ
jitter_window_ms interval_secs = min (max (interval_ms interval_secs / 4) 1) jitter_max_ms

unfoldable pub initial_poll_delay_ms : String → String → ℕ → ℕ
initial_poll_delay_ms namespace source_key interval_secs =
    stable_managed_source_hash namespace source_key 0 % jitter_window_ms interval_secs

-- The wait of an interval, given the hash.
unfoldable pub wait_of : ℕ → ℕ → ℕ
wait_of interval_secs hash =
    let window = jitter_window_ms interval_secs in
    let half = window / 2 in
    let jitter = hash % (window + 1) in
    max
      (if leb half jitter
        then saturating_add (interval_ms interval_secs) (jitter - half)
        else interval_ms interval_secs - (half - jitter))
      1

unfoldable pub poll_wait_ms : String → String → ℕ → ℕ → ℕ
unfolding wait_of
poll_wait_ms namespace source_key interval_secs poll_round =
    wait_of interval_secs (stable_managed_source_hash namespace source_key poll_round)

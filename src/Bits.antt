-- ===== src/Bits.antt =====
-- libjcat/jcat-common.c: `jcat_bits_ones_count64`, `jcat_bits_trailing_zeros64` and
-- `jcat_bits_length64`, which have a loop each, and a compiler intrinsic in place of it where the
-- compiler has one. `none` is a build with no intrinsic; the intrinsic is a parameter.
pub mod Loops
pub mod Builtin
use libjcat.Prelude.{
  ℕ, zero, suc, ◌+◌, ◌-◌, ◌/◌, ◌%◌, ◌^◌, Bool, Option, none, some, ◌==◌, ltb, if◌then◌else◌,
}

-- `val & ((guint64)0b1 << i)`, as a test.
abbrev pub bit_is_set : ℕ → ℕ → Bool
bit_is_set val i = val / 2 ^ i % 2 == 1

-- The loop of `jcat_bits_ones_count64` with `rounds` rounds left, at `i` with the counter `c`.
pub ones_count_loop : ℕ → ℕ → ℕ → ℕ → ℕ
ones_count_loop zero i c val = c
ones_count_loop (suc rounds) i c val =
    ones_count_loop rounds (suc i) (if bit_is_set val i then c + 1 else c) val

unfoldable pub ones_count64 : Option (ℕ → ℕ) → ℕ → ℕ
ones_count64 (some popcountll) val = popcountll val
ones_count64 none val = ones_count_loop 64 0 0 val

-- The loop of `jcat_bits_trailing_zeros64`; 64 is what stands behind the loop.
pub trailing_zeros_loop : ℕ → ℕ → ℕ → ℕ
trailing_zeros_loop zero i val = 64
trailing_zeros_loop (suc rounds) i val =
    let rest = trailing_zeros_loop rounds (suc i) val in if bit_is_set val i then i else rest

unfoldable pub trailing_zeros64 : Option (ℕ → ℕ) → ℕ → ℕ
trailing_zeros64 (some ctzll) val = if val == 0 then 64 else ctzll val
trailing_zeros64 none val = trailing_zeros_loop 64 0 val

-- The loop of `jcat_bits_length64`.
pub length_loop : ℕ → ℕ → ℕ → ℕ
length_loop zero i val = 64
length_loop (suc rounds) i val =
    let rest = length_loop rounds (suc i) val in if ltb val (2 ^ i) then i else rest

unfoldable pub length64 : Option (ℕ → ℕ) → ℕ → ℕ
length64 (some clzll) val = if val == 0 then 0 else 64 - clzll val
length64 none val = length_loop 64 0 val

-- ===== src/Bits/Builtin.antt =====
-- libjcat/jcat-common.c built with the compiler's intrinsics: they give what the loops give.
use native.Mathlib.Decide.{dec_lt}
use native.Mathlib.Nat.{le_trans, pow-le-pow_right}
use libjcat.Bits.{length64}
use libjcat.Bits.Loops.{IsBitLength, length64-IsBitLength}
use libjcat.Prelude.{ℕ, zero, suc, ◌-◌, ◌^◌, ◌≤◌, ◌<◌, ◌≡◌, none, some, arith, ◌==◌, false}

-- What the compiler documents of `__builtin_clzll`: the number of leading zeros of a nonzero
-- 64-bit value. The value's highest one stands at 63 less that number.
abbrev pub CountsLeadingZeros : (ℕ → ℕ) → Type 0
CountsLeadingZeros clzll =
    (val : ℕ)
    → 0 < val
    → val < 2 ^ 64
    → (clzll val ≤ 63) × (2 ^ (63 - clzll val) ≤ val) × (val < 2 ^ (64 - clzll val))

-- Two bit lengths of one value agree.
IsBitLength-unique : (val m n : ℕ) → IsBitLength val m → IsBitLength val n → m ≡ n
IsBitLength-unique val m n a b = elim (dec_lt m n) [
  | yes below ↦ absurd (omega (arith, a.0, b.1 m below))
  | no le ↦ elim (dec_lt n m) [
    | yes above ↦ absurd (omega (arith, b.0, a.1 n above))
    | no ge ↦ omega arith
  ]
]

clzll-IsBitLength :
    (clzll : ℕ → ℕ) (val : ℕ)
    → CountsLeadingZeros clzll
    → val < 2 ^ 64
    → IsBitLength val (length64 (some clzll) val)
unfolding length64
clzll-IsBitLength clzll zero doc lt = (omega arith, λ m p. elim p [ ])
clzll-IsBitLength clzll (suc v) doc lt =
    let (in_range, least, greatest) = doc (suc v) (omega arith) lt in
    let nonzero : (suc v == 0) ≡ false = ground arith in
    rw nonzero (
      greatest,
      λ m p. le_trans (pow-le-pow_right {n = 2} (omega arith) {i = m} (omega arith)) least,
    )

-- A build with `__builtin_clzll` and one without it return the same length, for every guint64.
pub length64-builtin :
    (clzll : ℕ → ℕ) (val : ℕ)
    → CountsLeadingZeros clzll
    → val < 2 ^ 64
    → length64 (some clzll) val ≡ length64 none val
length64-builtin clzll val doc lt =
    IsBitLength-unique val _ _ (clzll-IsBitLength clzll val doc lt) (length64-IsBitLength val lt)

-- ===== src/Bits/Loops.antt =====
-- What the loops of libjcat/jcat-common.c compute, for every value of a guint64.
use native.Mathlib.Decide.{dec_lt}
use native.Mathlib.Nat.{
  pow-zero, pow-suc, two-pow-succ, div-div-eq-div-mul, mul-div_cancel, div-one,
}
use libjcat.Bits.{
  bit_is_set, ones_count_loop, ones_count64, trailing_zeros_loop, trailing_zeros64, length_loop,
  length64,
}
use libjcat.Prelude.{
  ℕ, zero, suc, ◌+◌, ◌*◌, ◌/◌, ◌%◌, ◌^◌, ◌≤◌, ◌<◌, ◌≡◌, refl, ◌∙◌, ap, inl, inr, true, false, none,
  arith, ltb, ltb→lt, Bool-cases, ◌==◌, if◌then◌else◌,
}

-- The sum of the lowest `width` binary digits.
abbrev pub digit_sum : ℕ → ℕ → ℕ
digit_sum zero val = 0
digit_sum (suc width) val = val % 2 + digit_sum width (val / 2)

-- Of the numbers `n` with `val < 2 ^ n` it is the least.
abbrev pub IsBitLength : ℕ → ℕ → Type 0
IsBitLength val n = (val < 2 ^ n) × ((m : ℕ) → m < n → 2 ^ m ≤ val)

-- The value is an odd number times 2 ^ n.
abbrev pub IsTwoAdicOrder : ℕ → ℕ → Type 0
IsTwoAdicOrder val n = (k : ℕ) × (val ≡ (2 * k + 1) * 2 ^ n)

pub pow_pos : (i : ℕ) → 0 < 2 ^ i
pow_pos zero = omega arith
pow_pos (suc i) = omega (arith, pow_pos i, two-pow-succ i)

div-pow-suc : (val i : ℕ) → val / 2 ^ suc i ≡ val / 2 ^ i / 2
div-pow-suc val i = rw (pow-suc, div-div-eq-div-mul)

ones_count_loop-digit_sum :
    (rounds i c val : ℕ) → ones_count_loop rounds i c val ≡ c + digit_sum rounds (val / 2 ^ i)
unfolding ones_count_loop
ones_count_loop-digit_sum zero i c val = omega arith
ones_count_loop-digit_sum (suc rounds) i c val =
    rw
      (
        ones_count_loop-digit_sum rounds (suc i) (if bit_is_set val i then c + 1 else c) val,
        div-pow-suc,
      )
      (ground arith)

length_step :
    (val i m : ℕ)
    → ltb val (2 ^ i) ≡ false
    → ((m : ℕ) → m < i → 2 ^ m ≤ val)
    → m < suc i
    → 2 ^ m ≤ val
length_step val i m large h p = elim (dec_lt m i) [
  | yes below ↦ h m below
  | no above ↦ let e : m ≡ i = omega arith in rw e (ground arith)
]

length_loop-IsBitLength :
    (rounds i val : ℕ)
    → rounds + i ≡ 64
    → val < 2 ^ 64
    → ((m : ℕ) → m < i → 2 ^ m ≤ val)
    → IsBitLength val (length_loop rounds i val)
unfolding length_loop
length_loop-IsBitLength zero i val e lt h = (lt, λ m p. h m (omega arith))
length_loop-IsBitLength (suc rounds) i val e lt h = elim (Bool-cases (ltb val (2 ^ i))) [
  | inl small ↦ rw small (ltb→lt _ _ small, h)
  | inr large ↦
      rw large (
        length_loop-IsBitLength rounds (suc i) val (omega arith) lt
          λ m. length_step val i m large h)
]

-- Of a guint64 below 2 ^ 64 the loop finds the least number of bits that represent it.
pub length64-IsBitLength : (val : ℕ) → val < 2 ^ 64 → IsBitLength val (length64 none val)
unfolding length64
length64-IsBitLength val h = length_loop-IsBitLength 64 0 val refl h (λ m p. elim p [ ])

-- The loop counts the ones among the 64 binary digits.
ones_count64-digit_sum : (val : ℕ) → ones_count64 none val ≡ digit_sum 64 val
unfolding ones_count64
ones_count64-digit_sum val =
    rw (ones_count_loop-digit_sum 64 0 0 val, pow-zero, div-one) (omega arith)

odd_part : (q : ℕ) → (q % 2 == 1) ≡ true → q ≡ 2 * (q / 2) + 1
odd_part q h = ground arith

even_part : (q p : ℕ) → (q % 2 == 1) ≡ false → q * p ≡ q / 2 * (p + p)
even_part q p h =
    let halves : q ≡ q / 2 * 2 = ground arith in omega (arith, ap (λ (t : ℕ). t * p) halves)

-- `q` is what is left of the value behind `i` zero bits.
trailing_zeros_loop-IsTwoAdicOrder :
    (rounds i q val : ℕ)
    → rounds + i ≡ 64
    → val ≡ q * 2 ^ i
    → 0 < val
    → val < 2 ^ 64
    → IsTwoAdicOrder val (trailing_zeros_loop rounds i val)
unfolding trailing_zeros_loop
trailing_zeros_loop-IsTwoAdicOrder zero i q val e split pos lt =
    let last : i ≡ 64 = omega arith in absurd (omega (arith, rw last at split))
trailing_zeros_loop-IsTwoAdicOrder (suc rounds) i q val e split pos lt =
    let quot : val / 2 ^ i ≡ q = rw split (mul-div_cancel q (pow_pos i)) in
    elim (Bool-cases (bit_is_set val i)) [
      | inl one ↦ rw one (q / 2, split ∙ ap (λ (t : ℕ). t * 2 ^ i) (odd_part q (rw quot at one)))
      | inr zero_bit ↦ rw zero_bit (
          trailing_zeros_loop-IsTwoAdicOrder rounds (suc i) (q / 2) val (omega arith)
            (split ∙ rw two-pow-succ (even_part q (2 ^ i) (rw quot at zero_bit))) pos lt)
    ]

-- Of a nonzero guint64 the loop finds the number of zero bits below the lowest one: the value is
-- an odd number times that power of two.
trailing_zeros64-IsTwoAdicOrder :
    (val : ℕ) → 0 < val → val < 2 ^ 64 → IsTwoAdicOrder val (trailing_zeros64 none val)
unfolding trailing_zeros64
trailing_zeros64-IsTwoAdicOrder val pos lt =
    trailing_zeros_loop-IsTwoAdicOrder 64 0 val val refl (rw pow-zero (omega arith)) pos lt

-- ===== src/Context/Kinds.antt =====
-- libjcat/jcat-context.c: what allowing and disallowing a kind of blob does.
use native.Mathlib.Nat.{pow-zero, pow-suc, div-div-eq-div-mul, div-one}
use libjcat.Context.{
  JcatContext, set_bit, clear_bit, blob_kind_allow, blob_kind_disallow, is_blob_kind_allowed,
}
use libjcat.Kind.{JcatBlobKind, has_flag, last}
use libjcat.Prelude.{
  ◌≤◌, sym, ℕ, zero, suc, ◌*◌, ◌/◌, ◌%◌, ◌^◌, ◌<◌, Bool, false, not, ◌&&◌, ◌||◌, ◌==◌, ◌≡◌, refl,
  ◌∙◌, ap, max_u32, u32_mod, arith,
}

has_flag-zero : (m : ℕ) → has_flag m 0 ≡ (m % 2 == 1)
has_flag-zero m = rw (pow-zero, div-one) refl

has_flag-suc : (m j : ℕ) → has_flag m (suc j) ≡ has_flag (m / 2) j
has_flag-suc m j =
    let twice : 2 ^ suc j ≡ 2 * 2 ^ j = omega (arith, pow-suc 2 j) in
    ap (λ (q : ℕ). q % 2 == 1) (ap (λ (d : ℕ). m / d) twice ∙ sym (div-div-eq-div-mul m 2 (2 ^ j)))

has_flag-set_bit : (m k j : ℕ) → has_flag (set_bit m k) j ≡ (j == k || has_flag m j)
unfolding set_bit
has_flag-set_bit m zero zero = ground (arith, has_flag-zero (set_bit m 0), has_flag-zero m)
has_flag-set_bit m zero (suc j) =
    let half : set_bit m 0 / 2 ≡ m / 2 = omega arith in
    ground
      (arith, has_flag-suc (set_bit m 0) j, has_flag-suc m j, ap (λ (n : ℕ). has_flag n j) half)
has_flag-set_bit m (suc k) zero = ground (arith, has_flag-zero (set_bit m (suc k)), has_flag-zero m)
has_flag-set_bit m (suc k) (suc j) =
    let half : set_bit m (suc k) / 2 ≡ set_bit (m / 2) k = omega arith in
    ground (
      arith,
      has_flag-suc (set_bit m (suc k)) j,
      has_flag-suc m j,
      ap (λ (n : ℕ). has_flag n j) half,
      has_flag-set_bit (m / 2) k j,
    )

has_flag-clear_bit : (m k j : ℕ) → has_flag (clear_bit m k) j ≡ (not (j == k) && has_flag m j)
unfolding clear_bit
has_flag-clear_bit m zero zero = ground (arith, has_flag-zero (clear_bit m 0), has_flag-zero m)
has_flag-clear_bit m zero (suc j) =
    let half : clear_bit m 0 / 2 ≡ m / 2 = omega arith in
    ground
      (arith, has_flag-suc (clear_bit m 0) j, has_flag-suc m j, ap (λ (n : ℕ). has_flag n j) half)
has_flag-clear_bit m (suc k) zero =
    ground (arith, has_flag-zero (clear_bit m (suc k)), has_flag-zero m)
has_flag-clear_bit m (suc k) (suc j) =
    let half : clear_bit m (suc k) / 2 ≡ clear_bit (m / 2) k = omega arith in
    ground (
      arith,
      has_flag-suc (clear_bit m (suc k)) j,
      has_flag-suc m j,
      ap (λ (n : ℕ). has_flag n j) half,
      has_flag-clear_bit (m / 2) k j,
    )

set_bit-lt : (w m k : ℕ) → m < 2 ^ w → k < w → set_bit m k < 2 ^ w
unfolding set_bit
set_bit-lt zero m k fits below = omega arith
set_bit-lt (suc w) m zero fits below = omega (arith, pow-suc 2 w)
set_bit-lt (suc w) m (suc k) fits below =
    omega (arith, pow-suc 2 w, set_bit-lt w (m / 2) k (omega (arith, pow-suc 2 w)) (omega arith))

clear_bit-le : (m k : ℕ) → clear_bit m k ≤ m
unfolding clear_bit
clear_bit-le m zero = omega arith
clear_bit-le m (suc k) = omega (arith, clear_bit-le (m / 2) k)

has_flag-none : (j : ℕ) → has_flag 0 j ≡ false
has_flag-none zero = has_flag-zero 0
has_flag-none (suc j) = has_flag-suc 0 j ∙ has_flag-none j

module _ (undefined_shift : ℕ → JcatBlobKind → Bool) {World : Type 0} where
  -- Of the kinds below 64, allowing a kind that the library knows allows it, and keeps every other
  -- one as it was, unless all 32 bits are set: then it is the only one that stays allowed.
  pub is_blob_kind_allowed-blob_kind_allow :
      (self : JcatContext World) (kind other : JcatBlobKind)
      → kind < last
      → other < 64
      → is_blob_kind_allowed undefined_shift (blob_kind_allow self kind) other ≡ (
          other == kind
          || not (self.blob_kinds == max_u32) && is_blob_kind_allowed undefined_shift self other)
  unfolding is_blob_kind_allowed blob_kind_allow
  is_blob_kind_allowed-blob_kind_allow self kind other known small = ground (
    arith,
    has_flag-set_bit self.blob_kinds kind other,
    has_flag-set_bit 0 kind other,
    has_flag-none other,
  )

  -- Of the kinds below 64, disallowing a kind that the library knows takes it away and keeps every
  -- other one as it was.
  pub is_blob_kind_allowed-blob_kind_disallow :
      (self : JcatContext World) (kind other : JcatBlobKind)
      → kind < last
      → other < 64
      → is_blob_kind_allowed undefined_shift (blob_kind_disallow self kind) other
        ≡ (not (other == kind) && is_blob_kind_allowed undefined_shift self other)
  unfolding is_blob_kind_allowed blob_kind_disallow
  is_blob_kind_allowed-blob_kind_disallow self kind other known small =
      ground (arith, has_flag-clear_bit self.blob_kinds kind other)

-- If the kinds allowed fit a guint32, they still do when any kind was allowed or disallowed.
pub blob_kinds-lt :
    {World : Type 0} (self : JcatContext World) (kind : JcatBlobKind)
    → self.blob_kinds < u32_mod
    → ((blob_kind_allow self kind).blob_kinds < u32_mod)
      × ((blob_kind_disallow self kind).blob_kinds < u32_mod)
unfolding blob_kind_allow blob_kind_disallow
blob_kinds-lt self kind fits = ground (
  arith,
  set_bit-lt 32 self.blob_kinds kind fits,
  set_bit-lt 32 0 kind,
  clear_bit-le self.blob_kinds kind,
)

-- ===== src/Prelude/Text.antt =====
-- Byte strings, and what C reads of them.
use Prim.Native.Nat.{ℕ, zero, suc}
use Prim.Native.Char.{code}
use Prim.Native.String.{String}
use mathlib.Core.Path.{◌≡◌, refl}
use mathlib.Core.Logic.{◌↔◌, ◌≢◌}
use mathlib.Core.Bool.{Bool, true, false, ◌&&◌}
use mathlib.Core.List.{List, [], ◌∷◌}
use mathlib.Core.Option.{Option, none, some}
use native.Mathlib.Omega.{arith}
use libjcat.Prelude.Lists.{All}
use libjcat.Prelude.Tests.{◌==◌}

abbrev pub Bytes : Type 0
Bytes = List ℕ

-- The bytes of an ASCII literal.
abbrev pub codes : String → Bytes
codes String.[] = []
codes (String.◌∷◌ c s) = code c ∷ codes s

-- Equality of byte strings.
abbrev pub beq : Bytes → Bytes → Bool
beq [] [] = true
beq (x ∷ xs) (y ∷ ys) = x == y && beq xs ys
beq _ _ = false

pub beq_iff : (a b : Bytes) → (beq a b ≡ true) ↔ (a ≡ b)
beq_iff (x ∷ a) (y ∷ b) = ground (arith, beq_iff a b)
beq_iff _ _ = ground arith

-- The C string that a buffer holds: what stands before its first NUL.
abbrev pub c_string : Bytes → Bytes
c_string [] = []
c_string (zero ∷ bs) = []
c_string (suc b ∷ bs) = suc b ∷ c_string bs

-- No byte is a NUL, so C reads the whole buffer.
abbrev pub IsText : Bytes → Type 0
IsText = All (λ b. b ≢ 0)

pub c_string-IsText : (bs : Bytes) → IsText (c_string bs)
c_string-IsText [] = tt
c_string-IsText (zero ∷ bs) = tt
c_string-IsText (suc b ∷ bs) = (omega arith, c_string-IsText bs)

pub c_string_self : (bs : Bytes) → IsText bs → c_string bs ≡ bs
c_string_self [] h = refl
c_string_self (zero ∷ bs) h = absurd (h.0 refl)
c_string_self (suc b ∷ bs) h = cc (c_string_self bs h.1)

-- `g_strcmp0 (a, b) == 0`, where `none` is NULL.
abbrev pub strcmp0_eq : Option Bytes → Option Bytes → Bool
strcmp0_eq none none = true
strcmp0_eq (some a) (some b) = beq a b
strcmp0_eq _ _ = false

pub strcmp0_eq_iff : (a b : Option Bytes) → (strcmp0_eq a b ≡ true) ↔ (a ≡ b)
strcmp0_eq_iff none none = ground arith
strcmp0_eq_iff (some a) (some b) = ground (arith, beq_iff a b)
strcmp0_eq_iff _ _ = ground arith

-- ===== src/Prelude/Outcome.antt =====
-- GError, and results of functions that may set one.
use mathlib.Core.Path.{◌≡◌, refl}
use mathlib.Core.Logic.{◌⊎◌, inl, inr}
use mathlib.Core.Bool.{Bool, true, false}
use Prim.Native.Nat.{ℕ}
use mathlib.Core.List.{List}
use libjcat.Prelude.Text.{Bytes}

-- The codes of the G_IO_ERROR domain that the library sets; `other` is any other error.
pub data Code : Type 0 where
  invalid_data not_supported not_found failed invalid_argument : Code
  -- a g_return_val_if_fail that fails: NULL or FALSE is returned and no error is set
  critical : Code
  other : ℕ → Code

-- An error's code, and its message: the format's text and the values put in.
pub record Error : Type 0 where
  pub code : Code
  pub message : Bytes
  pub values : List Bytes

-- A pointer or a value, or the error that was set.
pub data Result {v} (Value : Type v) : Type v where
  err : Error → Result Value
  ok : Value → Result Value

infixl 5 ◌>>=◌ ◌>>◌
-- What follows a call that may fail: the error is passed on.
abbrev pub ◌>>=◌ {v w} :
    {Value : Type v} {Next : Type w} → Result Value → (Value → Result Next) → Result Next
err failure >>= rest = err failure
ok value >>= rest = rest value

-- The same behind a call that gives no value.
abbrev pub ◌>>◌ {w} : {Next : Type w} → Result (Unit {0}) → Result Next → Result Next
err failure >> rest = err failure
ok _ >> rest = rest

-- Go on if the test fails, and set the error if it passes.
abbrev pub fail_if : Bool → Error → Result (Unit {0})
fail_if true e = err e
fail_if false e = ok tt

pub Result-cases {ℓ} :
    {A : Type ℓ} (r : Result A) → ((a : A) × (r ≡ ok a)) ⊎ ((e : Error) × (r ≡ err e))
Result-cases (ok a) = inl (a, refl)
Result-cases (err e) = inr (e, refl)

pub ok-injective {ℓ} : {A : Type ℓ} {a b : A} → ok a ≡ ok b → a ≡ b
ok-injective h = cc

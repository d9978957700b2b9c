-- ===== src/Engine/Cell.antt =====
-- The part of the world that an engine keeps in its own object, behind the parts that all engines
-- share: what is read there, and what is written.
use libjcat.Engine.{Action}
use libjcat.Prelude.{List, ◌++◌, Bytes, Code, ◌∷◌, Result, ok, err, ◌≡◌}

pub record Cell (World A : Type 0) : Type 0 where
  pub get : World → A
  pub set : A → World → World

pub record CellLaws {World A : Type 0} (cell : Cell World A) : Type 0 where
  -- what was written is read
  pub get-set : (a : A) (w : World) → cell.get (cell.set a w) ≡ a

abbrev explained : {A : Type 0} → Code → Bytes → List Bytes → Result A → Result A
explained code message values (ok a) = ok a
explained code message values (err e) =
    err (record { code = code; message = message; values = values ++ e.message ∷ e.values })

-- The error for a library call that fails: behind the values of its own message stand the text of the
-- return code and, where the message asks for it too, the number of the code.
abbrev pub or_error :
    {World A : Type 0} → Code → Bytes → List Bytes → Action World A → Action World A
or_error code message values action w = (explained code message values (action w).0, (action w).1)

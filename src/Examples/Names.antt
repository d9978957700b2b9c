-- ===== src/Examples/Names.antt =====
-- The names of kinds and the bit loops at concrete values.
use libjcat.Bits.Loops.{IsBitLength, length64-IsBitLength}
use libjcat.Bits.{length64}
use libjcat.Kind.Names.{from_string-to_string}
use libjcat.Kind.{from_string, to_string, gpg}
use libjcat.Prelude.{none, ◌≡◌, arith}

from_string-to_string_example : from_string (to_string gpg) ≡ gpg
from_string-to_string_example = from_string-to_string gpg (omega arith) (omega arith)

length64-IsBitLength_example : IsBitLength 40 (length64 none 40)
length64-IsBitLength_example = length64-IsBitLength 40 (omega arith)

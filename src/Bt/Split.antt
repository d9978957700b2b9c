-- ===== src/Bt/Split.antt =====
-- What the parsers of libjcat/jcat-bt-checkpoint.c and libjcat/jcat-bt-verifier.c call of GLib, and
-- what is documented of it.
use libjcat.Prelude.{ℕ, All, List, [], ◌∷◌, ◌++◌, Bytes, ◌≡◌, ◌≢◌}

pub record Scanner : Type 0 where
  -- g_strsplit with a delimiter of one character, and the largest number of parts, where 0 is no limit
  pub strsplit : Bytes → ℕ → ℕ → List Bytes
  -- g_ascii_strtoull in the base 10
  pub strtoull : Bytes → ℕ
  -- the format %02x
  pub hex_byte : ℕ → Bytes

abbrev pub newline : ℕ
newline = 10

abbrev pub space : ℕ
space = 32

abbrev pub plus : ℕ
plus = 43

-- g_strjoinv.
abbrev pub join : ℕ → List Bytes → Bytes
join d [] = []
join d (part ∷ []) = part
join d (part ∷ more ∷ parts) = part ++ d ∷ join d (more ∷ parts)

-- A text without the delimiter.
abbrev pub Free : ℕ → Bytes → Type 0
Free d = All (λ c. c ≢ d)

pub record SplitLaws (scanner : Scanner) : Type 0 where
  -- the parts make up the text, where the empty text has no parts
  pub join-strsplit : (d : ℕ) (text : Bytes) → join d (scanner.strsplit text d 0) ≡ text
  -- a text that is joined from two or more parts is split into them
  pub strsplit-join :
      (d : ℕ) (a b : Bytes) (parts : List Bytes)
      → All (Free d) (a ∷ b ∷ parts)
      → scanner.strsplit (join d (a ∷ b ∷ parts)) d 0 ≡ a ∷ b ∷ parts
  -- with a limit, the last part is all of the rest
  pub strsplit-three :
      (d : ℕ) (a b rest : Bytes)
      → Free d a
      → Free d b
      → scanner.strsplit (a ++ d ∷ b ++ d ∷ rest) d 3 ≡ a ∷ b ∷ rest ∷ []

-- ===== src/Examples/Printing.antt =====
-- A GLib that reads ASCII and splits at newlines.
use libjcat.Text.{Glib}
use libjcat.Prelude.{ℕ, false, none, List, [], ◌∷◌, Bytes, ◌==◌, if◌then◌else◌}

abbrev extend : ℕ → List Bytes → List Bytes
extend c [] = (c ∷ []) ∷ []
extend c (line ∷ lines) = (c ∷ line) ∷ lines

abbrev split_lines : Bytes → List Bytes
split_lines [] = [] ∷ []
split_lines (c ∷ cs) = let rest = split_lines cs in if c == 10 then [] ∷ rest else extend c rest

abbrev pub ascii : Glib
ascii = record {
  utf8_chars = λ text. text;
  unichar_iswide = λ c. false;
  unichar_iszerowidth = λ c. false;
  strsplit = split_lines;
  hex = λ n. [];
  decimal = λ n. [];
  iso8601 = λ t. none;
}

-- ===== src/Text.antt =====
-- libjcat/jcat-common.c: `jcat_strwidth`, `jcat_string_append_kv` and `jcat_string_append_kx`. A
-- GString is the list of its bytes. What they call of GLib is the record `Glib`.
pub mod Align
pub mod Printer
use libjcat.Prelude.{
  ℕ, zero, suc, ◌+◌, ◌*◌, ◌-◌, ◌%◌, Bool, true, false, not, Option, none, some, List, [], ◌∷◌, ◌++◌,
  Bytes, codes, ℤ, u32_mod, ltb, if◌then◌else◌,
}

pub record Glib : Type 0 where
  -- the characters that g_utf8_get_char and g_utf8_next_char read before the end of a string
  pub utf8_chars : Bytes → List ℕ
  pub unichar_iswide : ℕ → Bool
  pub unichar_iszerowidth : ℕ → Bool
  -- g_strsplit with a newline and no limit
  pub strsplit : Bytes → List Bytes
  -- the formats %x and %u
  pub hex : ℕ → Bytes
  pub decimal : ℕ → Bytes
  -- g_date_time_new_from_unix_utc with g_date_time_format_iso8601
  pub iso8601 : ℤ → Option Bytes

abbrev pub newline : Bytes
newline = 10 ∷ []

abbrev pub align : ℕ
align = 25

-- A loop that appends the same text.
unfoldable pub append_times : ℕ → Bytes → Bytes → Bytes
append_times zero text str = str
append_times (suc n) text str = append_times n text (str ++ text)

module _ (glib : Glib) where
  -- The loop of `jcat_strwidth`.
  abbrev pub width_from : ℕ → List ℕ → ℕ
  width_from width [] = width
  width_from width (c ∷ cs) =
      width_from
        (if glib.unichar_iswide c
          then width + 2
          else if not (glib.unichar_iszerowidth c)
          then width + 1
          else width)
        cs

  -- `jcat_strwidth`.
  unfoldable pub strwidth : Bytes → ℕ
  strwidth text = width_from 0 (glib.utf8_chars text)

  -- The loop over the lines behind the first one.
  unfoldable pub append_lines : List Bytes → Bytes → Bytes
  unfolding append_times
  append_lines [] str = str
  append_lines (line ∷ lines) str =
      append_lines lines (append_times align (codes " ") str ++ (line ++ newline))

  unfoldable pub append_split : ℕ → List Bytes → Bytes → Bytes
  unfolding append_times append_lines
  append_split keysz [] str = str
  append_split keysz (line ∷ lines) str =
      append_lines lines (append_times (align - keysz) (codes " ") str ++ (line ++ newline))

  unfoldable pub append_value : ℕ → Option Bytes → Bytes → Bytes
  unfolding append_split
  append_value keysz none str = str ++ newline
  append_value keysz (some value) str = append_split keysz (glib.strsplit value) str

  -- From the test of the first character of the key on.
  unfoldable pub append_key : ℕ → Bytes → Option Bytes → Bytes → Bytes
  unfolding append_value strwidth
  append_key idt [] value str = append_value (idt * 2 % u32_mod) value str
  append_key idt (c ∷ key) value str =
      append_value (idt * 2 % u32_mod + strwidth (c ∷ key) + 1) value
        (str ++ ((c ∷ key) ++ codes ":"))

  -- `jcat_string_append_kv`; the string comes last.
  unfoldable pub append_kv : ℕ → Option Bytes → Option Bytes → Bytes → Bytes
  unfolding append_key append_times
  append_kv idt none value str = str
  append_kv idt (some key) value str =
      if not (ltb (idt * 2 % u32_mod) align)
      then str
      else append_key idt key value (append_times idt (codes "  ") str)

  -- `jcat_string_append_kx`.
  unfoldable pub append_kx : ℕ → Option Bytes → ℕ → Bytes → Bytes
  unfolding append_kv
  append_kx idt key value = append_kv idt key (some (codes "0x" ++ glib.hex value))

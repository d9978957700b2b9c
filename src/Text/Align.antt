-- ===== src/Text/Align.antt =====
-- libjcat/jcat-common.c: the values that `jcat_string_append_kv` prints stand in one column.
use mathlib.Core.List.{append-nil, append_assoc}
use libjcat.Prelude.{
  Bool, true, ltb, ap, ℕ, zero, suc, ◌+◌, ◌*◌, ◌-◌, ◌%◌, ◌≤◌, List, [], ◌∷◌, ◌++◌, u32_mod, Bytes,
  codes, some, length, length-append, Bool, true, not, ltb, ap, if◌then◌else◌, ◌≡◌, ◌∙◌, arith,
}
use libjcat.Text.{
  Glib, newline, align, append_times, append_lines, append_split, append_value, append_key,
  append_kv, strwidth,
}

-- A text, any number of times.
unfoldable pub times : ℕ → Bytes → Bytes
times zero text = []
times (suc n) text = text ++ times n text

append_times-times : (n : ℕ) (text str : Bytes) → append_times n text str ≡ str ++ times n text
unfolding append_times times
append_times-times zero text str = rw append-nil
append_times-times (suc n) text str = append_times-times n text (str ++ text) ∙ rw append_assoc

length-times : (n : ℕ) (text : Bytes) → length (times n text) ≡ n * length text
unfolding times
length-times zero text = omega arith
length-times (suc n) text = omega (arith, length-append text (times n text), length-times n text)

regroup : (str t l n r : Bytes) → ((str ++ t) ++ (l ++ n)) ++ r ≡ str ++ (t ++ (l ++ (n ++ r)))
regroup str t l n r = rw (append_assoc, append_assoc, append_assoc)

regroup_left :
    (str t k q s r : Bytes)
    → ((str ++ t) ++ (k ++ q)) ++ (s ++ r) ≡ str ++ ((t ++ (k ++ (q ++ s))) ++ r)
regroup_left str t k q s r =
    rw (append_assoc, append_assoc, append_assoc, append_assoc, append_assoc, append_assoc)

-- The lines behind the first one, each indented to the column.
abbrev pub indented : List Bytes → Bytes
indented [] = []
indented (line ∷ lines) = times align (codes " ") ++ (line ++ (newline ++ indented lines))

append_lines-indented :
    (glib : Glib) (lines : List Bytes) (str : Bytes)
    → append_lines glib lines str ≡ str ++ indented lines
unfolding append_lines
append_lines-indented glib [] str = rw append-nil
append_lines-indented glib (line ∷ lines) str =
    append_lines-indented glib lines _
    ∙ ap (λ (x : Bytes). (x ++ (line ++ newline)) ++ indented lines)
        (append_times-times align (codes " ") str)
    ∙ regroup str (times align (codes " ")) line newline (indented lines)

append_split-indented :
    (glib : Glib) (keysz : ℕ) (line : Bytes) (lines : List Bytes) (str : Bytes)
    → append_split glib keysz (line ∷ lines) str
      ≡ str ++ (times (align - keysz) (codes " ") ++ (line ++ (newline ++ indented lines)))
unfolding append_split
append_split-indented glib keysz line lines str =
    append_lines-indented glib lines _
    ∙ ap (λ (x : Bytes). (x ++ (line ++ newline)) ++ indented lines)
        (append_times-times (align - keysz) (codes " ") str)
    ∙ regroup str (times (align - keysz) (codes " ")) line newline (indented lines)

-- What stands left of the column.
abbrev left_part : ℕ → Bytes → ℕ → Bytes
left_part idt key keysz =
    times idt (codes "  ") ++ (key ++ (codes ":" ++ times (align - keysz) (codes " ")))

length-left_part :
    (idt : ℕ) (key : Bytes) (keysz : ℕ)
    → idt * 2 + length key + 1 ≡ keysz
    → keysz ≤ align
    → length (times idt (codes "  ") ++ (key ++ (codes ":" ++ times (align - keysz) (codes " "))))
      ≡ align
length-left_part idt key keysz size fits =
    let spaces = times (align - keysz) (codes " ") in
    omega (
      arith,
      length-append (times idt (codes "  ")) (key ++ (codes ":" ++ spaces)),
      length-append key (codes ":" ++ spaces),
      length-append (codes ":") spaces,
      length-times idt (codes "  "),
      length-times (align - keysz) (codes " "),
    )

-- A value with at least one line, printed with a key whose width is its length and that fits with
-- its indentation and a colon in 25 bytes: what is appended is 25 bytes, then the first line, and
-- then the other lines, each behind 25 spaces.
append_kv-aligned :
    (glib : Glib) (idt : ℕ) (c : ℕ) (key value line : Bytes) (lines : List Bytes) (str : Bytes)
    → strwidth glib (c ∷ key) ≡ length (c ∷ key)
    → idt * 2 + length (c ∷ key) + 1 ≤ align
    → glib.strsplit value ≡ line ∷ lines
    → (left : Bytes) × (length left ≡ align)
      × (append_kv glib idt (some (c ∷ key)) (some value) str
          ≡ str ++ (left ++ (line ++ (newline ++ indented lines))))
unfolding append_kv append_key append_value append_split
append_kv-aligned glib idt c key value line lines str width fits split =
    let keysz = idt * 2 % u32_mod + strwidth glib (c ∷ key) + 1 in
    let size : idt * 2 + length (c ∷ key) + 1 ≡ keysz = omega (arith, width, fits) in
    let fits_left : ltb (idt * 2 % u32_mod) align ≡ true = ground (arith, fits) in
    let start = append_times idt (codes "  ") str ++ ((c ∷ key) ++ codes ":") in
    (
      left_part idt (c ∷ key) keysz,
      length-left_part idt (c ∷ key) keysz size (omega (arith, size, fits)),
      ap (λ (b : Bool). if not b then str else append_split glib keysz (glib.strsplit value) start)
            fits_left
          ∙ ap (λ (found : List Bytes). append_split glib keysz found start) split
          ∙ append_split-indented glib keysz line lines start
          ∙ ap
              (λ (x : Bytes).
                (x ++ ((c ∷ key) ++ codes ":"))
                ++ (times (align - keysz) (codes " ") ++ (line ++ (newline ++ indented lines))))
              (append_times-times idt (codes "  ") str)
          ∙ regroup_left str (times idt (codes "  ")) (c ∷ key) (codes ":")
              (times (align - keysz) (codes " ")) (line ++ (newline ++ indented lines)),
    )

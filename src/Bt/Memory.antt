-- ===== src/Bt/Memory.antt =====
-- A splitting of texts that meets what is documented of g_strsplit, so that the hypotheses on it can
-- be met.
use mathlib.Core.List.{append_assoc}
use libjcat.Bt.Split.{Scanner, SplitLaws, join, Free}
use libjcat.Prelude.{
  ℕ, zero, suc, ◌+◌, ◌-◌, ◌*◌, ◌≤◌, All, Bool-cases, Option-cases, Option, none, some, List, [],
  ◌∷◌, ◌++◌, Bytes, length, length-append, ◌==◌, ◌≡◌, refl, sym, ap, ◌∙◌, inl, inr, arith,
  if◌then◌else◌,
}

-- The two sides of the first delimiter.
record Sides : Type 0 where
  before : Bytes
  behind : Bytes

abbrev in_front : ℕ → Option Sides → Option Sides
in_front c none = none
in_front c (some s) = some (record s { before = c ∷ s.before })

cut : ℕ → Bytes → Option Sides
cut d [] = none
cut d (c ∷ cs) =
    let rest = cut d cs in
    if c == d then some (record { before = []; behind = cs }) else in_front c rest

-- The parts from at most so many cuts.
parts : ℕ → ℕ → Bytes → List Bytes
parts d zero text = text ∷ []
parts d (suc k) text = elim (cut d text) [
  | none ↦ text ∷ []
  | some s ↦ s.before ∷ parts d k s.behind
]

abbrev unless_empty : Bytes → List Bytes → List Bytes
unless_empty [] ps = []
unless_empty (c ∷ cs) ps = ps

abbrev cuts : ℕ → ℕ → ℕ
cuts n most = if n == 0 then most else n - 1

unfoldable pub split : Bytes → ℕ → ℕ → List Bytes
unfolding parts cut
split text d n = unless_empty text (parts d (cuts n (length text)) text)

cut-Free : (d : ℕ) (a : Bytes) → Free d a → cut d a ≡ none
unfolding cut
cut-Free d [] f = refl
cut-Free d (c ∷ a) (other, f) = elim (Bool-cases (c == d)) [
  | inl same ↦ absurd (ground (arith, other))
  | inr differs ↦ rw (cut, differs, cut-Free d a f)
]

cut-append :
    (d : ℕ) (a r : Bytes) → Free d a → cut d (a ++ d ∷ r) ≡ some (record { before = a; behind = r })
unfolding cut
cut-append d [] r f = ground arith
cut-append d (c ∷ a) r (other, f) = elim (Bool-cases (c == d)) [
  | inl same ↦ absurd (ground (arith, other))
  | inr differs ↦ rw (cut, differs, cut-append d a r f)
]

-- The text that two sides are of.
abbrev glued : ℕ → Bytes → Option Sides → Bytes
glued d text none = text
glued d text (some s) = s.before ++ d ∷ s.behind

glued-in_front :
    (d c : ℕ) (text : Bytes) (o : Option Sides)
    → glued d (c ∷ text) (in_front c o) ≡ c ∷ glued d text o
glued-in_front d c text none = refl
glued-in_front d c text (some s) = refl

glued-cut : (d : ℕ) (text : Bytes) → glued d text (cut d text) ≡ text
unfolding cut
glued-cut d [] = refl
glued-cut d (c ∷ text) = elim (Bool-cases (c == d)) [
  | inl same ↦ rw (cut, same) (ap (λ x. x ∷ text) (ground arith))
  | inr differs ↦
      rw (cut, differs) (glued-in_front d c text (cut d text) ∙ ap (λ t. c ∷ t) (glued-cut d text))
]

parts-cons : (d k : ℕ) (text : Bytes) → (p : Bytes) × (ps : List Bytes) × (parts d k text ≡ p ∷ ps)
unfolding parts
parts-cons d zero text = (text, [], refl)
parts-cons d (suc k) text = elim (Option-cases (cut d text)) [
  | inl e ↦ (text, [], rw (parts, e))
  | inr (s, e) ↦ (s.before, parts d k s.behind, rw (parts, e))
]

join-cons :
    (d : ℕ) (a b : Bytes) (ps : List Bytes)
    → (p : Bytes) × (qs : List Bytes) × (ps ≡ p ∷ qs)
    → join d ps ≡ b
    → join d (a ∷ ps) ≡ a ++ d ∷ b
join-cons d a b ps (p, qs, e) h = rw e (ap (λ t. a ++ d ∷ t) (ap (join d) (sym e) ∙ h))

join-parts : (d k : ℕ) (text : Bytes) → join d (parts d k text) ≡ text
unfolding parts
join-parts d zero text = refl
join-parts d (suc k) text = elim (Option-cases (cut d text)) [
  | inl e ↦ rw (parts, e)
  | inr (s, e) ↦
      rw (parts, e)
        (join-cons d s.before s.behind _ (parts-cons d k s.behind) (join-parts d k s.behind)
          ∙ ap (glued d text) (sym e)
          ∙ glued-cut d text)
]

join-split : (d : ℕ) (text : Bytes) → join d (split text d 0) ≡ text
unfolding split
join-split d [] = refl
join-split d (c ∷ text) = join-parts d (cuts 0 (length (c ∷ text))) (c ∷ text)

unless_empty-append : (a r : Bytes) (d : ℕ) (ps : List Bytes) → unless_empty (a ++ d ∷ r) ps ≡ ps
unless_empty-append [] r d ps = refl
unless_empty-append (c ∷ a) r d ps = refl

length-join : (d : ℕ) (a : Bytes) (ps : List Bytes) → length ps ≤ length (join d (a ∷ ps))
length-join d a [] = omega arith
length-join d a (p ∷ ps) =
    omega (arith, length-append {0} a (d ∷ join d (p ∷ ps)), length-join d p ps)

parts-join :
    (d k : ℕ) (a : Bytes) (ps : List Bytes)
    → length ps ≤ k
    → All (Free d) (a ∷ ps)
    → parts d k (join d (a ∷ ps)) ≡ a ∷ ps
unfolding parts
parts-join d zero a [] few f = refl
parts-join d zero a (p ∷ ps) few f = absurd (omega arith)
parts-join d (suc k) a [] few (f, _) = rw (parts, cut-Free d a f)
parts-join d (suc k) a (p ∷ ps) few (f, fs) =
    rw (parts, cut-append d a (join d (p ∷ ps)) f)
      (ap (λ l. a ∷ l) (parts-join d k p ps (omega arith) fs))

split-join :
    (d : ℕ) (a b : Bytes) (ps : List Bytes)
    → All (Free d) (a ∷ b ∷ ps)
    → split (join d (a ∷ b ∷ ps)) d 0 ≡ a ∷ b ∷ ps
unfolding split
split-join d a b ps f =
    unless_empty-append a (join d (b ∷ ps)) d _
    ∙ parts-join d (length (join d (a ∷ b ∷ ps))) a (b ∷ ps) (length-join d a (b ∷ ps)) f

split-three :
    (d : ℕ) (a b rest : Bytes)
    → Free d a
    → Free d b
    → split (a ++ d ∷ b ++ d ∷ rest) d 3 ≡ a ∷ b ∷ rest ∷ []
unfolding split parts
split-three d a b rest f g = rw (append_assoc a (d ∷ b) (d ∷ rest)) (
    unless_empty-append a (b ++ d ∷ rest) d _
    ∙ rw (cut-append d a (b ++ d ∷ rest) f, parts, cut-append d b rest g) refl)

-- The number of decimal digits.
abbrev digits_from : ℕ → Bytes → ℕ
digits_from n [] = n
digits_from n (c ∷ cs) = digits_from (10 * n + (c - 48)) cs

abbrev pub splitter : Scanner
splitter = record { strsplit = split; strtoull = digits_from 0; hex_byte = λ c. c ∷ [] }

pub splitter_laws : SplitLaws splitter
splitter_laws = record {
  join-strsplit = join-split;
  strsplit-join = split-join;
  strsplit-three = split-three;
}

-- ===== src/System/Memory.antt =====
-- A file system in memory with no directories, which meets the laws.
use mathlib.Core.Path.{subst}
use libjcat.Engine.{Action}
use libjcat.Prelude.{
  Bool-cases, inl, inr, ◌≢◌, ◌∙◌, true, ok-injective, sym, ap, Option, none, some, List, [], ◌∷◌,
  ◌++◌, Bytes, codes, beq, beq_iff, is_some, not_found, Result, ok, err, ◌≡◌, refl, arith,
  if◌then◌else◌,
}
use libjcat.System.Interface.{Gio}
use libjcat.System.Laws.{GioLaws, Reads, AreSeparate}

pub record Entry : Type 0 where
  pub name : Bytes
  pub contents : Bytes

-- The files, what was printed, and what an engine keeps in its own object.
pub record Disk : Type 0 where
  pub files : List Entry
  pub output : Bytes
  pub kept : Bytes

abbrev pub lookup : Bytes → List Entry → Option Bytes
lookup name [] = none
lookup name (e ∷ es) =
    let rest = lookup name es in if beq name e.name then some e.contents else rest

abbrev found : Option Bytes → Disk → Result Bytes × Disk
found none w = (err (record { code = not_found; message = codes "no such file"; values = [] }), w)
found (some contents) w = (ok contents, w)

abbrev pub read : Bytes → Action Disk Bytes
read name w = found (lookup name w.files) w

abbrev pub write : Bytes → Bytes → Action Disk (Unit {0})
write name contents w =
    (ok tt, record w { files = record { name = name; contents = contents } ∷ w.files })

abbrev joined : List Bytes → Bytes
joined [] = []
joined (part ∷ []) = part
joined (part ∷ parts) = part ++ codes "/" ++ joined parts

abbrev pub memory : Gio Disk
memory = record {
  Istream = Bytes;
  Ostream = Bytes;
  file_read = read;
  stream_contents = λ contents w. (ok contents, w);
  file_replace = λ name w. (ok name, w);
  stream_write = write;
  stream_close = λ name w. (ok tt, w);
  gzip = λ bs. bs;
  gunzip = ok;
  get_contents = read;
  set_contents = λ name contents mode. write name contents;
  exists = λ name w. is_some (lookup name w.files);
  parent = λ name. [];
  make_directory_with_parents = λ name w. (ok tt, w);
  mkdir_with_parents = λ name mode w. (true, w);
  build_filename = joined;
  path_get_basename = λ name. name;
  print = λ text w. record w { output = w.output ++ text };
  printerr = λ text w. record w { output = w.output ++ text };
  dir_names = λ path w. none;
}

found_first :
    (name contents : Bytes) (es : List Entry)
    → lookup name (record { name = name; contents = contents } ∷ es) ≡ some contents
found_first name contents es = ground (arith, beq_iff name name)

read-write :
    (name contents : Bytes) (w v : Disk)
    → write name contents w ≡ (ok tt, v)
    → read name v ≡ (ok contents, v)
read-write name contents w v h =
    subst (λ (u : Disk). read name u ≡ (ok contents, u)) (ap (λ p. p.1) h)
      (ap (λ (o : Option Bytes). found o (write name contents w).1)
        (found_first name contents w.files))

pub memory_laws : GioLaws memory
memory_laws = record {
  gunzip-gzip = λ bs. refl;
  read-replace = λ name bs {os} {w} {v} {u} {x} opened written closed.
      let same : os ≡ name = sym (ok-injective (ap (λ p. p.0) opened)) in
      (
        bs,
        x,
        x,
        subst (λ (y : Disk). read name y ≡ (ok bs, y)) (ap (λ p. p.1) closed)
            (read-write name bs v u
              (subst (λ (n : Bytes). write n bs v ≡ (ok tt, u)) same written)),
        refl,
      );
  get-set = λ name bs mode {w} {v} readable done. (v, read-write name bs w v done);
  read-make_directory = λ dir filename contents {w} {v} made before.
      subst (Reads memory filename contents) (ap (λ p. p.1) made) before;
}

found-of_ok :
    (o : Option Bytes) (w : Disk) {contents : Bytes} {v : Disk}
    → found o w ≡ (ok contents, v)
    → o ≡ some contents
found-of_ok none w h = absurd (cc (ap (λ p. p.0) h))
found-of_ok (some bs) w h = ap some (ok-injective (ap (λ p. p.0) h))

lookup-write_other :
    (filename other bs : Bytes) (es : List Entry)
    → filename ≢ other
    → lookup other (record { name = filename; contents = bs } ∷ es) ≡ lookup other es
lookup-write_other filename other bs es differ = elim (Bool-cases (beq other filename)) [
  | inl same ↦ absurd (differ (sym ((beq_iff other filename).0 same)))
  | inr other_name ↦ rw other_name refl
]

read-write_other :
    (filename other bs contents : Bytes) (w v : Disk)
    → filename ≢ other
    → write filename bs w ≡ (ok tt, v)
    → Reads memory other contents w
    → Reads memory other contents v
read-write_other filename other bs contents w v differ written (x, h) =
    let u = (write filename bs w).1 in
    let there =
      lookup-write_other filename other bs w.files differ
      ∙ found-of_ok (lookup other w.files) w h in
    subst (Reads memory other contents) (ap (λ p. p.1) written)
      (u, ap (λ (o : Option Bytes). found o u) there)

-- Different names are separate files.
pub memory-AreSeparate :
    (filename other : Bytes) → filename ≢ other → AreSeparate memory filename other
memory-AreSeparate filename other differ bs contents mode w v written before =
    read-write_other filename other bs contents w v differ written before

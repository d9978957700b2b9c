-- ===== src/System/Laws.antt =====
-- What is documented of the calls on files, as far as the library relies on it.
use libjcat.Prelude.{ℕ, Bytes, ok, ◌≡◌, ◌/◌, ◌%◌}
use libjcat.System.Interface.{Gio}

pub record GioLaws {World : Type 0} (gio : Gio World) : Type 1 where
  -- compression is undone
  pub gunzip-gzip : (bs : Bytes) → gio.gunzip (gio.gzip bs) ≡ ok bs
  -- a file that was replaced through a stream that could be closed reads as what was written
  pub read-replace :
      (filename bs : Bytes) {os : gio.Ostream} {w v u x : World}
      → gio.file_replace filename w ≡ (ok os, v)
      → gio.stream_write os bs v ≡ (ok tt, u)
      → gio.stream_close os u ≡ (ok tt, x)
      → (is : gio.Istream) × (t : World) × (q : World) × (gio.file_read filename x ≡ (ok is, t))
        × (gio.stream_contents is t ≡ (ok bs, q))
  -- a file whose contents were set, with a mode in which its owner may read it, has these contents
  pub get-set :
      (filename bs : Bytes) (mode : ℕ) {w v : World}
      → mode / 256 % 2 ≡ 1
      → gio.set_contents filename bs mode w ≡ (ok tt, v)
      → (t : World) × (gio.get_contents filename v ≡ (ok bs, t))
  -- to make a directory leaves the contents of the files as they are
  pub read-make_directory :
      (dir filename contents : Bytes) {w v : World}
      → gio.make_directory_with_parents dir w ≡ (ok tt, v)
      → (t : World) × (gio.get_contents filename w ≡ (ok contents, t))
      → (t : World) × (gio.get_contents filename v ≡ (ok contents, t))

-- A file reads as some bytes.
abbrev pub Reads : {World : Type 0} → Gio World → Bytes → Bytes → World → Type 0
Reads {World} gio filename bs w = (v : World) × (gio.get_contents filename w ≡ (ok bs, v))

-- Two names of separate files, neither of which is a link to the other: to set the contents of the
-- first leaves those of the second as they are.
abbrev pub AreSeparate : {World : Type 0} → Gio World → Bytes → Bytes → Type 0
AreSeparate {World} gio filename other =
    (bs contents : Bytes) (mode : ℕ) (w v : World)
    → gio.set_contents filename bs mode w ≡ (ok tt, v)
    → Reads gio other contents w
    → Reads gio other contents v

-- ===== src/File/Disk.antt =====
-- What libjcat/jcat-file.c writes to a file, it reads back.
use mathlib.Core.Path.{ap₂}
use libjcat.File.Import.{import_json}
use libjcat.File.RoundTrip.{IsStorableFile, restored_items, loaded_back, import_parser-stored}
use libjcat.File.Streams.{import_file, export_file, compressed_document}
use libjcat.File.{JcatFile}
use libjcat.Json.Laws.{JsonLaws, Base64Laws}
use libjcat.Json.{JsonGlib, Base64}
use libjcat.Prelude.{ℕ, false, ◌++◌, Bytes, ok, ap, refl, ◌≡◌}
use libjcat.System.Laws.{GioLaws}
use libjcat.System.{Gio}

module _ {World : Type 0} (gio : Gio World) (json : JsonGlib) (base64 : Base64)
    (files : GioLaws gio) (laws : JsonLaws json) (coding : Base64Laws base64) where
  -- With the laws of GIO, of json-glib and of base64: after `jcat_file_export_file` has succeeded with
  -- a file that can be stored, and the stream that it opened could be closed, whose error the code
  -- does not look at, `jcat_file_import_file` of the same path succeeds, takes over the version and
  -- adds the same items at the end, except that a blob whose timestamp was not written gets the time
  -- of the import.
  pub import_file-export_file :
      (clock : ℕ → ℕ) (file self : JcatFile) (gfile : Bytes) (flags : ℕ) (os : gio.Ostream)
      (w a v : World)
      → IsStorableFile laws.IsUtf8 base64 file
      → export_file gio json base64 file gfile flags w ≡ (ok tt, v)
      → gio.file_replace gfile w ≡ (ok os, a)
      → (gio.stream_close os
          (gio.stream_write os (compressed_document gio json base64 file flags) a).1).0
        ≡ ok tt
      → (u : World) × (import_file gio json base64 clock gfile self v ≡ (
        (ok tt, record file { items = self.items ++ restored_items clock flags 0 file.items }),
        u,
      ))
  unfolding export_file import_file import_json
  import_file-export_file clock file self gfile flags os w a v s h opened could_close =
      let ended = rw opened at h in
      let written = ap₂ (λ r x. (r, x)) (ap (λ q. q.0) ended) refl in
      let closed = ap₂ (λ r x. (r, x)) could_close (ap (λ q. q.1) ended) in
      let (is, r, q, read, contents) =
        files.read-replace gfile (compressed_document gio json base64 file flags) opened written
          closed in
      let (n, loads, represents) =
        loaded_back json base64 laws coding false file flags s.items_storable in
      (
        q,
        rw (read, contents, files.gunzip-gzip, loads)
            (rw
              (import_parser-stored json base64 laws coding n file flags represents clock self s)),
      )

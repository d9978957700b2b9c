-- ===== src/File/Streams.antt =====
-- libjcat/jcat-file.c: `jcat_file_import_stream`, `jcat_file_import_file`,
-- `jcat_file_export_stream` and `jcat_file_export_file`. A parser that loads from a stream reads
-- all of it, through the decompressor; a generator writes all of a document, through the
-- compressor.
use libjcat.Engine.{Action}
use libjcat.File.Export.{export_builder}
use libjcat.File.Import.{Outcome, or_return, import_json}
use libjcat.File.{JcatFile}
use libjcat.Json.{JsonGlib, Base64}
use libjcat.Prelude.{ℕ, false, Bytes, Result, ok, err}
use libjcat.System.{Gio, ◌>>=◌}

module _ {World : Type 0} (gio : Gio World) (json : JsonGlib) (base64 : Base64) where
  open gio use {
    Istream, Ostream, file_read, stream_contents, file_replace, stream_write, stream_close, gzip,
    gunzip,
  }

  -- What a method that changes a file and the world returns.
  abbrev pub Changes : Type 0
  Changes = World → Outcome × World

  -- Return early, with the file as it is, or go on.
  abbrev pub or_stop : {A : Type 0} → JcatFile → Result A × World → (A → Changes) → Outcome × World
  or_stop self (ok a, w) next = next a w
  or_stop self (err e, w) next = ((err e, self), w)

  module _ (clock : ℕ → ℕ) where
    -- `jcat_file_import_stream`.
    unfoldable pub import_stream : Istream → JcatFile → Changes
    import_stream istream self w = or_stop self (stream_contents istream w) (λ compressed v.
        (or_return (gunzip compressed) self (λ text. import_json json base64 clock text self), v))

    -- `jcat_file_import_file`.
    unfoldable pub import_file : Bytes → JcatFile → Changes
    unfolding import_stream
    import_file gfile self w =
        or_stop self (file_read gfile w) (λ istream. import_stream istream self)

  -- The document, through the compressor.
  abbrev pub compressed_document : JcatFile → ℕ → Bytes
  compressed_document self flags =
      gzip (
        json.to_data false (json.get_root (export_builder json base64 self flags json.builder_new)))

  -- What is returned is how the write ended; the streams are closed when they are disposed of, where
  -- an error is lost.
  abbrev then_disposed : Ostream → Result (Unit {0}) × World → Result (Unit {0}) × World
  then_disposed ostream (result, w) = (result, (stream_close ostream w).1)

  -- `jcat_file_export_stream`. A stream that the caller keeps is closed with the compressor's.
  unfoldable pub export_stream : JcatFile → Ostream → ℕ → Action World (Unit {0})
  export_stream self ostream flags w =
      then_disposed ostream (stream_write ostream (compressed_document self flags) w)

  -- `jcat_file_export_file`.
  unfoldable pub export_file : JcatFile → Bytes → ℕ → Action World (Unit {0})
  unfolding export_stream
  export_file self gfile flags = do ostream ← file_replace gfile; export_stream self ostream flags

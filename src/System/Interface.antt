-- ===== src/System/Interface.antt =====
-- What libjcat calls of GIO and GLib on files, and the do blocks for actions on the world.
use libjcat.Engine.{Action, and_then}
use libjcat.Prelude.{ℕ, Bool, List, Bytes, Error, Option, Result, ok, err}

infixl 5 ◌>>=◌ ◌>>◌
module _ {World : Type 0} where
  abbrev pub pure : {A : Type 0} → A → Action World A
  pure a w = (ok a, w)

  abbrev pub fail : {A : Type 0} → Error → Action World A
  fail e w = (err e, w)

  -- The next action starts where the one before it leaves the world, unless that failed.
  abbrev pub ◌>>=◌ : {A B : Type 0} → Action World A → (A → Action World B) → Action World B
  ◌>>=◌ m next w = and_then (m w) next

  abbrev pub ◌>>◌ : {B : Type 0} → Action World (Unit {0}) → Action World B → Action World B
  ◌>>◌ m next w = and_then (m w) (λ _. next)

  -- A result that needs no world.
  abbrev pub lift : {A : Type 0} → Result A → Action World A
  lift result w = (result, w)

pub record Gio (World : Type 0) : Type 1 where
  pub Istream : Type 0
  pub Ostream : Type 0
  -- g_file_read, and what all reads from the stream give
  pub file_read : Bytes → Action World Istream
  pub stream_contents : Istream → Action World Bytes
  -- g_file_replace, a write of all of some bytes, and the flush and close when the stream is disposed of
  pub file_replace : Bytes → Action World Ostream
  pub stream_write : Ostream → Bytes → Action World (Unit {0})
  pub stream_close : Ostream → Action World (Unit {0})
  -- the zlib converters in the GZIP format, on a whole stream
  pub gzip : Bytes → Bytes
  pub gunzip : Bytes → Result Bytes
  -- g_file_get_contents and g_file_set_contents_full with a mode
  pub get_contents : Bytes → Action World Bytes
  pub set_contents : Bytes → Bytes → ℕ → Action World (Unit {0})
  -- g_file_test with G_FILE_TEST_EXISTS, and g_file_query_exists
  pub exists : Bytes → World → Bool
  -- g_file_get_parent and g_file_make_directory_with_parents
  pub parent : Bytes → Bytes
  pub make_directory_with_parents : Bytes → Action World (Unit {0})
  -- g_mkdir_with_parents with a mode
  pub mkdir_with_parents : Bytes → ℕ → World → Bool × World
  -- g_build_filename and g_path_get_basename
  pub build_filename : List Bytes → Bytes
  pub path_get_basename : Bytes → Bytes
  -- g_print and g_printerr
  pub print : Bytes → World → World
  pub printerr : Bytes → World → World
  -- g_dir_open with all names that g_dir_read_name gives; `none` if it cannot be opened
  pub dir_names : Bytes → World → Option (List Bytes)

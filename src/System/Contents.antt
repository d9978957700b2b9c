-- ===== src/System/Contents.antt =====
-- libjcat/jcat-common.c: `jcat_mkdir_parent`, `jcat_set_contents_bytes` and
-- `jcat_get_contents_bytes`, in a build with GLib 2.66 or later.
use libjcat.Engine.{Action}
use libjcat.Prelude.{ℕ, Bytes, not, if◌then◌else◌}
use libjcat.System.Interface.{Gio, pure, ◌>>◌}

module _ {World : Type 0} (gio : Gio World) where
  open gio use {exists, parent, make_directory_with_parents, set_contents, get_contents}

  unfoldable pub mkdir_parent : Bytes → Action World (Unit {0})
  mkdir_parent filename w =
      if exists (parent filename) w
      then pure tt w
      else make_directory_with_parents (parent filename) w

  unfoldable pub set_contents_bytes : Bytes → Bytes → ℕ → Action World (Unit {0})
  set_contents_bytes filename bytes mode w =
      ((if not (exists (parent filename) w)
            then make_directory_with_parents (parent filename)
            else pure tt)
          >> set_contents filename bytes mode)
        w

  unfoldable pub get_contents_bytes : Bytes → Action World Bytes
  get_contents_bytes filename = get_contents filename

-- ===== src/Context/Keys.antt =====
-- libjcat/jcat-context.c: `jcat_context_add_public_keys`.
use libjcat.Context.{JcatContext}
use libjcat.Prelude.{Option, none, some, List, [], ◌∷◌, ◌++◌, Bytes}
use libjcat.System.{Gio}

module _ {World : Type 0} (gio : Gio World) where
  -- The loop over the names in the directory.
  unfoldable pub add_files : Bytes → List Bytes → JcatContext World → JcatContext World
  add_files path [] self = self
  add_files path (fn_tmp ∷ names) self = add_files path names (record self {
    public_keys = self.public_keys ++ gio.build_filename (path ∷ fn_tmp ∷ []) ∷ [];
  })

  -- A directory that cannot be opened adds nothing.
  abbrev add_listed : Bytes → Option (List Bytes) → JcatContext World → JcatContext World
  unfolding add_files
  add_listed path none self = self
  add_listed path (some names) self = add_files path names self

  -- `jcat_context_add_public_keys`.
  unfoldable pub add_public_keys : Bytes → World → JcatContext World → JcatContext World
  unfolding add_files add_listed
  add_public_keys path w self = add_listed path (gio.dir_names path w) self

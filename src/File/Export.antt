-- ===== src/File/Export.antt =====
-- libjcat/jcat-file.c: `jcat_file_export_builder` and `jcat_file_export_json`.
use libjcat.File.{JcatFile}
use libjcat.Item.Export.{export_item}
use libjcat.Item.{JcatItem}
use libjcat.Json.{JsonGlib, Base64}
use libjcat.Prelude.{ℕ, true, List, [], ◌∷◌, Bytes, codes, pos, ltb, length, if◌then◌else◌}

module _ (json : JsonGlib) (base64 : Base64) where
  open json use {
    Builder, begin_object, end_object, begin_array, end_array, set_member_name, add_int_value,
    builder_new, get_root, to_data,
  }

  unfoldable pub export_items : List JcatItem → ℕ → Builder → Builder
  export_items [] flags b = b
  export_items (item ∷ items) flags b =
      export_items items flags (end_object (export_item json base64 item flags (begin_object b)))

  unfoldable pub export_builder : JcatFile → ℕ → Builder → Builder
  unfolding export_items
  export_builder self flags b =
      let b = begin_object b in
      let b =
        add_int_value (pos self.version_major) (set_member_name (codes "JcatVersionMajor") b) in
      let b =
        add_int_value (pos self.version_minor) (set_member_name (codes "JcatVersionMinor") b) in
      let b =
        if ltb 0 (length self.items)
        then end_array
            (export_items self.items flags (begin_array (set_member_name (codes "Items") b)))
        else b in
      end_object b

  -- `jcat_file_export_json`.
  unfoldable pub export_json : JcatFile → ℕ → Bytes
  unfolding export_builder
  export_json self flags = to_data true (get_root (export_builder self flags builder_new))

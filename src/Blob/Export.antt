-- ===== src/Blob/Export.antt =====
-- libjcat/jcat-blob.c: `jcat_blob_export`.
use libjcat.Blob.{JcatBlob, get_data_as_string}
use libjcat.Json.{JsonGlib, Base64}
use libjcat.Kind.{unknown, has_flag, no_timestamp}
use libjcat.Prelude.{ℕ, not, ◌&&◌, codes, pos, is_positive, is_some, ◌==◌, if◌then◌else◌}

module _ (json : JsonGlib) (base64 : Base64) where
  open json use {Builder, set_member_name, add_int_value, add_string_value}

  -- `flags` is a JcatExportFlags.
  unfoldable pub export_blob : JcatBlob → ℕ → Builder → Builder
  unfolding get_data_as_string
  export_blob self flags b =
      let data_str = get_data_as_string base64 self in
      let b = add_int_value (pos self.kind) (set_member_name (codes "Kind") b) in
      let b =
        if not (self.target == unknown)
        then add_int_value (pos self.target) (set_member_name (codes "Target") b)
        else b in
      let b = add_int_value (pos self.flags) (set_member_name (codes "Flags") b) in
      let b =
        if is_some self.appstream_id
        then add_string_value self.appstream_id (set_member_name (codes "AppstreamId") b)
        else b in
      let b =
        if is_positive self.timestamp && not (has_flag flags no_timestamp)
        then add_int_value self.timestamp (set_member_name (codes "Timestamp") b)
        else b in
      add_string_value data_str (set_member_name (codes "Data") b)

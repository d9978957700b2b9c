-- ===== src/Item/Export.antt =====
-- libjcat/jcat-item.c: `jcat_item_export`.
use libjcat.Blob.Export.{export_blob}
use libjcat.Blob.{JcatBlob}
use libjcat.Item.{JcatItem}
use libjcat.Json.{JsonGlib, Base64}
use libjcat.Prelude.{ℕ, some, List, [], ◌∷◌, Bytes, codes, ltb, length, if◌then◌else◌}

module _ (json : JsonGlib) where
  open json use {
    Builder, begin_object, end_object, begin_array, end_array, set_member_name, add_string_value,
  }

  unfoldable pub export_alias_ids : List Bytes → Builder → Builder
  export_alias_ids [] b = b
  export_alias_ids (id_tmp ∷ ids) b = export_alias_ids ids (add_string_value (some id_tmp) b)

  module _ (base64 : Base64) where
    unfoldable pub export_blobs : List JcatBlob → ℕ → Builder → Builder
    export_blobs [] flags b = b
    export_blobs (blob ∷ blobs) flags b =
        export_blobs blobs flags (end_object (export_blob json base64 blob flags (begin_object b)))

    unfoldable pub export_item : JcatItem → ℕ → Builder → Builder
    unfolding export_alias_ids export_blobs
    export_item self flags b =
        let b = add_string_value self.id (set_member_name (codes "Id") b) in
        let b =
          if ltb 0 (length self.alias_ids)
          then end_array
              (export_alias_ids self.alias_ids (begin_array (set_member_name (codes "AliasIds") b)))
          else b in
        if ltb 0 (length self.blobs)
        then end_array
            (export_blobs self.blobs flags (begin_array (set_member_name (codes "Blobs") b)))
        else b

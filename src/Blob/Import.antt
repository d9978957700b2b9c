-- ===== src/Blob/Import.antt =====
-- libjcat/jcat-blob.c: `jcat_blob_import`.
use libjcat.Blob.{JcatBlob, init}
use libjcat.Json.{JsonGlib, Base64}
use libjcat.Kind.{has_flag, is_utf8}
use libjcat.Prelude.{
  c_string, ℕ, not, none, some, List, [], ◌∷◌, Bytes, codes, is_negative, to_u32, Error,
  invalid_data, Result, ok, err, ◌>>=◌, ◌>>◌, fail_if, if◌then◌else◌,
}

-- G_IO_ERROR_INVALID_DATA with a literal message.
abbrev pub invalid : Bytes → Error
invalid message = record { code = invalid_data; message = message; values = [] }

-- The error of a member that is required and not there.
abbrev pub missing : Bytes → Error
missing name = record {
  code = invalid_data;
  message = codes "failed to find %s";
  values = name ∷ [];
}

module _ (json : JsonGlib) where
  open json use {Object, has_member, get_int_member, get_string_member}

  -- The loop over `required`, which also the imports of an item and of a file begin with.
  abbrev pub require : Object → List Bytes → Result (Unit {0})
  require obj [] = ok tt
  require obj (name ∷ names) = do
    fail_if (not (has_member obj name)) (missing name)
    require obj names

  import_timestamp : Object → JcatBlob → Result JcatBlob
  import_timestamp obj self =
      if has_member obj (codes "Timestamp")
      then (do
        let timestamp = get_int_member obj (codes "Timestamp")
        fail_if (is_negative timestamp) (invalid (codes "invalid timestamp"))
        ok (record self { timestamp = timestamp }))
      else ok self

  import_appstream_id : Object → JcatBlob → Result JcatBlob
  import_appstream_id obj self =
      if has_member obj (codes "AppstreamId")
      then elim (get_string_member obj (codes "AppstreamId")) [
        | none ↦ err (invalid (codes "AppstreamId must be a string"))
        | some appstream_id ↦ ok (record self { appstream_id = some appstream_id })
      ]
      else ok self

  import_target : Object → JcatBlob → Result JcatBlob
  import_target obj self =
      if has_member obj (codes "Target")
      then (do
        let target_tmp = get_int_member obj (codes "Target")
        fail_if (is_negative target_tmp) (invalid (codes "invalid target"))
        ok (record self { target = to_u32 target_tmp }))
      else ok self

  module _ (base64 : Base64) where
    -- From "get compressed data" on.
    import_data : Object → JcatBlob → Result JcatBlob
    import_data obj self = elim (get_string_member obj (codes "Data")) [
      | none ↦ err (invalid (codes "no Data set"))
      | some data_str ↦
          let bytes =
            if has_flag self.flags is_utf8 then c_string data_str else base64.decode data_str in
          ok (record self { data_bytes = some bytes })
    ]

    -- The first argument is the clock's time when the new object is made.
    unfoldable pub import_blob : ℕ → Object → Result JcatBlob
    unfolding init import_timestamp import_appstream_id import_target import_data
    import_blob real_time obj = do
      require obj (codes "Kind" ∷ codes "Data" ∷ codes "Flags" ∷ [])
      let kind_tmp = get_int_member obj (codes "Kind")
      fail_if (is_negative kind_tmp) (invalid (codes "invalid kind"))
      let flags_tmp = get_int_member obj (codes "Flags")
      fail_if (is_negative flags_tmp) (invalid (codes "invalid flags"))
      self ←
          import_timestamp obj
            (record (init real_time) { kind = to_u32 kind_tmp; flags = to_u32 flags_tmp })
      self ← import_appstream_id obj self
      self ← import_target obj self
      import_data obj self

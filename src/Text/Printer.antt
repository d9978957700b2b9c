-- ===== src/Text/Printer.antt =====
-- The `add_string` and `to_string` functions of libjcat/jcat-blob.c, libjcat/jcat-item.c,
-- libjcat/jcat-file.c, libjcat/jcat-engine.c and libjcat/jcat-result.c. The name of an engine's type
-- is an argument.
use libjcat.Blob.{JcatBlob, get_data_as_string}
use libjcat.File.{JcatFile}
use libjcat.Item.{JcatItem}
use libjcat.Json.{Base64}
use libjcat.Kind.{JcatBlobMethod, unknown, checksum, signature, to_string, has_flag, is_utf8}
use libjcat.Prelude.{
  ℕ, ◌+◌, ◌%◌, Bool, false, not, ◌||◌, Option, none, some, List, [], ◌∷◌, ◌++◌, Bytes, codes, ℤ,
  pos, u32_mod, length, ltb, ◌==◌, if◌then◌else◌,
}
use libjcat.Result.{JcatResult, EngineRef}
use libjcat.Text.{Glib, append_kv}

-- `jcat_engine_method_to_string`.
unfoldable pub method_to_string : JcatBlobMethod → Option Bytes
method_to_string checksum = some (codes "checksum")
method_to_string signature = some (codes "signature")
method_to_string _ = none

abbrev is_zero : ℤ → Bool
is_zero (pos n) = n == 0
is_zero _ = false

module _ (glib : Glib) where
  -- A line that is printed only where there is a value.
  abbrev append_present : ℕ → Bytes → Option Bytes → Bytes → Bytes
  append_present idt key none str = str
  append_present idt key (some value) str = append_kv glib idt (some key) (some value) str

  -- The timestamp, unless it is 0 or no date.
  abbrev append_timestamp : ℕ → ℤ → Bytes → Bytes
  append_timestamp idt timestamp str =
      if not (is_zero timestamp)
      then append_present idt (codes "Timestamp") (glib.iso8601 timestamp) str
      else str

  -- `jcat_engine_add_string`.
  unfoldable pub engine_add_string : Bytes → EngineRef → ℕ → Bytes → Bytes
  unfolding append_kv method_to_string
  engine_add_string type_name self idt str =
      let str = append_kv glib idt (some type_name) none str in
      let str = append_kv glib (idt + 1) (some (codes "Kind")) (to_string self.kind) str in
      append_kv glib (idt + 1) (some (codes "VerifyKind")) (method_to_string self.method) str

  -- `jcat_engine_to_string`.
  unfoldable pub engine_to_string : Bytes → EngineRef → Bytes
  unfolding engine_add_string
  engine_to_string type_name self = engine_add_string type_name self 0 []

  abbrev append_engine : Bytes → Option EngineRef → ℕ → Bytes → Bytes
  append_engine type_name none idt str = str
  append_engine type_name (some engine) idt str = engine_add_string type_name engine idt str

  abbrev append_authority : Option Bytes → ℕ → Bytes → Bytes
  append_authority (some (c ∷ authority)) idt str =
      append_kv glib idt (some (codes "Authority")) (some (c ∷ authority)) str
  append_authority _ idt str = str

  -- `jcat_result_add_string`.
  unfoldable pub result_add_string : Bytes → JcatResult → ℕ → Bytes → Bytes
  unfolding append_kv engine_add_string
  result_add_string type_name self idt str =
      let str = append_kv glib idt (some (codes "JcatResult")) none str in
      let str = append_timestamp (idt + 1) self.timestamp str in
      let str = append_authority self.authority (idt + 1) str in
      append_engine type_name self.engine (idt + 1) str

  -- `jcat_result_to_string`.
  unfoldable pub result_to_string : Bytes → JcatResult → Bytes
  unfolding result_add_string
  result_to_string type_name self = result_add_string type_name self 0 []

  module _ (base64 : Base64) where
    abbrev append_data : JcatBlob → Option Bytes → ℕ → Bytes → Bytes
    append_data self none idt str = str
    append_data self (some data_bytes) idt str =
        let size = codes "0x" ++ glib.hex (length data_bytes % u32_mod) in
        let str = append_kv glib idt (some (codes "Size")) (some size) str in
        append_kv glib idt (some (codes "Data")) (get_data_as_string base64 self) str

    -- `jcat_blob_add_string`.
    unfoldable pub blob_add_string : JcatBlob → ℕ → Bytes → Bytes
    unfolding append_kv
    blob_add_string self idt str =
        let str = append_kv glib idt (some (codes "JcatBlob")) none str in
        let str = append_kv glib (idt + 1) (some (codes "Kind")) (to_string self.kind) str in
        let str =
          if not (self.target == unknown)
          then append_kv glib (idt + 1) (some (codes "Target")) (to_string self.target) str
          else str in
        let flags = if has_flag self.flags is_utf8 then codes "is-utf8" else codes "none" in
        let str = append_kv glib (idt + 1) (some (codes "Flags")) (some flags) str in
        let str = append_present (idt + 1) (codes "AppstreamId") self.appstream_id str in
        let str = append_timestamp (idt + 1) self.timestamp str in
        append_data self self.data_bytes (idt + 1) str

    -- `jcat_blob_to_string`.
    unfoldable pub blob_to_string : JcatBlob → Bytes
    unfolding blob_add_string
    blob_to_string self = blob_add_string self 0 []

    abbrev append_aliases : List Bytes → ℕ → Bytes → Bytes
    append_aliases [] idt str = str
    append_aliases (alias_id ∷ ids) idt str =
        append_aliases ids idt (append_kv glib idt (some (codes "AliasId")) (some alias_id) str)

    abbrev append_blobs : List JcatBlob → ℕ → Bytes → Bytes
    append_blobs [] idt str = str
    append_blobs (blob ∷ blobs) idt str = append_blobs blobs idt (blob_add_string blob idt str)

    -- `jcat_item_add_string`.
    unfoldable pub item_add_string : JcatItem → ℕ → Bytes → Bytes
    unfolding append_kv blob_add_string
    item_add_string self idt str =
        let str = append_kv glib idt (some (codes "JcatItem")) none str in
        let str = append_kv glib (idt + 1) (some (codes "ID")) self.id str in
        append_blobs self.blobs (idt + 1) (append_aliases self.alias_ids (idt + 1) str)

    -- `jcat_item_to_string`.
    unfoldable pub item_to_string : JcatItem → Bytes
    unfolding item_add_string
    item_to_string self = item_add_string self 0 []

    abbrev append_items : List JcatItem → ℕ → Bytes → Bytes
    append_items [] idt str = str
    append_items (item ∷ items) idt str = append_items items idt (item_add_string item idt str)

    -- `jcat_file_add_string`.
    unfoldable pub file_add_string : JcatFile → ℕ → Bytes → Bytes
    unfolding append_kv item_add_string
    file_add_string self idt str =
        let str = append_kv glib idt (some (codes "JcatFile")) none str in
        let version =
          glib.decimal self.version_major ++ codes "." ++ glib.decimal self.version_minor in
        let str =
          if ltb 0 self.version_major || ltb 0 self.version_minor
          then append_kv glib (idt + 1) (some (codes "Version")) (some version) str
          else str in
        append_items self.items (idt + 1) str

    -- `jcat_file_to_string`.
    unfoldable pub file_to_string : JcatFile → Bytes
    unfolding file_add_string
    file_to_string self = file_add_string self 0 []

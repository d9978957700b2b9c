-- ===== src/Blob/RoundTrip.antt =====
-- What libjcat/jcat-blob.c stores, it reads back.
use libjcat.Blob.Import.{require, import_blob}
use libjcat.Blob.Stored.{blob_members, writes_timestamp, IsStorable}
use libjcat.Blob.{[], JcatBlob, get_data_as_string}
use libjcat.Json.Laws.{object, JsonLaws, Base64Laws}
use libjcat.Json.{JsonGlib, Base64}
use libjcat.Kind.{unknown, has_flag, is_utf8}
use libjcat.Prelude.{
  Option-cases, ◌∷◌, ℕ, ◌/◌, true, false, not, some, Bytes, codes, c_string, pos, is_some,
  to_u32-pos, c_string_self, ok, ◌≡◌, arith, ◌==◌, if◌then◌else◌, Bool-cases, inl, inr,
}

-- The blob that is read back: a timestamp that was not written is the time of the import.
abbrev pub restored : JcatBlob → ℕ → ℕ → JcatBlob
restored self flags real_time = record self {
  timestamp = if writes_timestamp self flags then self.timestamp else pos (real_time / 1000000);
}

module _ (json : JsonGlib) (base64 : Base64) (laws : JsonLaws json)
    (coding : Base64Laws base64) where
  open json use {Node, has_member, node_get_object, get_int_member, get_string_member}
  open laws use {Represents, IsUtf8, member_present, int_member, string_member}

  module _ (n : Node) (self : JcatBlob) (flags : ℕ) (text : Bytes)
      (r : Represents n (object (blob_members self flags text))) where
    required_members :
        require json (node_get_object n) (codes "Kind" ∷ codes "Data" ∷ codes "Flags" ∷ []) ≡ ok tt
    unfolding blob_members
    required_members = ground (
      arith,
      member_present n _ (codes "Kind") r,
      member_present n _ (codes "Data") r,
      member_present n _ (codes "Flags") r,
    )

    kind_member : get_int_member (node_get_object n) (codes "Kind") ≡ pos self.kind
    unfolding blob_members
    kind_member = int_member n _ (codes "Kind") _ r (ground arith)

    has_target_member :
        has_member (node_get_object n) (codes "Target") ≡ not (self.target == unknown)
    unfolding blob_members
    has_target_member = ground (arith, member_present n _ (codes "Target") r)

    target_value :
        (self.target == unknown) ≡ false
        → get_int_member (node_get_object n) (codes "Target") ≡ pos self.target
    unfolding blob_members
    target_value set = int_member n _ (codes "Target") _ r (ground arith)

    flags_value : get_int_member (node_get_object n) (codes "Flags") ≡ pos self.flags
    unfolding blob_members
    flags_value = int_member n _ (codes "Flags") _ r (ground arith)

    has_appstream_member :
        has_member (node_get_object n) (codes "AppstreamId") ≡ is_some self.appstream_id
    unfolding blob_members
    has_appstream_member = ground (arith, member_present n _ (codes "AppstreamId") r)

    appstream_value :
        is_some self.appstream_id ≡ true
        → get_string_member (node_get_object n) (codes "AppstreamId") ≡ self.appstream_id
    unfolding blob_members
    appstream_value set = elim (Option-cases self.appstream_id) [
      | inl missing ↦ absurd (ground arith)
      | inr (id, e) ↦ rw e (string_member n _ (codes "AppstreamId") id r (ground arith))
    ]

    has_timestamp_member :
        has_member (node_get_object n) (codes "Timestamp") ≡ writes_timestamp self flags
    unfolding blob_members
    has_timestamp_member = ground (arith, member_present n _ (codes "Timestamp") r)

    timestamp_value :
        writes_timestamp self flags ≡ true
        → get_int_member (node_get_object n) (codes "Timestamp") ≡ self.timestamp
    unfolding blob_members
    timestamp_value writes = int_member n _ (codes "Timestamp") _ r (ground arith)

    data_value : get_string_member (node_get_object n) (codes "Data") ≡ some text
    unfolding blob_members
    data_value = string_member n _ (codes "Data") text r (ground arith)

    -- The text that was stored is decoded to the data.
    data_restored :
        (bytes : Bytes)
        → IsStorable IsUtf8 base64 self bytes
        → get_data_as_string base64 self ≡ some text
        → (if has_flag self.flags is_utf8 then c_string text else base64.decode text) ≡ bytes
    unfolding get_data_as_string
    data_restored bytes ok_blob e = elim (Bool-cases (has_flag self.flags is_utf8)) [
      | inl utf8 ↦ ground (arith, ok_blob.has_data, c_string_self bytes (ok_blob.is_text utf8))
      | inr binary ↦ ground (arith, ok_blob.has_data, coding.decode-encode bytes)
    ]

    -- With the laws of json-glib and of base64: an object that represents the export of a blob that
    -- can be stored is imported as that blob, except that its timestamp is the time of the import
    -- if it was not written.
    pub import_blob-stored :
        (real_time : ℕ) (bytes : Bytes)
        → IsStorable IsUtf8 base64 self bytes
        → get_data_as_string base64 self ≡ some text
        → import_blob json base64 real_time (node_get_object n) ≡ ok (restored self flags real_time)
    unfolding import_blob
    import_blob-stored real_time bytes ok_blob e = ground (
      arith,
      required_members,
      kind_member,
      flags_value,
      has_target_member,
      target_value,
      has_appstream_member,
      appstream_value,
      has_timestamp_member,
      timestamp_value,
      data_value,
      data_restored bytes ok_blob e,
      to_u32-pos self.kind,
      to_u32-pos self.flags,
      to_u32-pos self.target,
    )

-- ===== src/Blob/Valid.antt =====
-- What libjcat/jcat-blob.c guarantees of a blob that it has imported, whatever the JSON holds.
use libjcat.Blob.Import.{import_blob}
use libjcat.Blob.{buffer, JcatBlob}
use libjcat.Json.{JsonGlib, Base64}
use libjcat.Kind.{has_flag, is_utf8}
use libjcat.Prelude.{
  is_some, ℕ, ◌<◌, true, false, some, Bytes, codes, IsText, c_string, c_string-IsText, is_negative,
  u32_mod, to_u32-lt, ok, ◌≡◌, arith,
}

-- The fields fit their types, the data is there, text holds no NUL, and the time is not negative.
pub record IsValid (self : JcatBlob) : Type 0 where
  pub kind_fits : self.kind < u32_mod
  pub target_fits : self.target < u32_mod
  pub flags_fit : self.flags < u32_mod
  pub has_data : is_some self.data_bytes ≡ true
  pub is_text : has_flag self.flags is_utf8 ≡ true → IsText (buffer self.data_bytes)
  pub timestamp_nonneg : is_negative self.timestamp ≡ false

-- An imported blob has data and numbers that fit 32 bits, its text holds no NUL and its timestamp
-- is not negative, for every JSON object, with no assumption on json-glib or base64.
pub import_blob-IsValid :
    (json : JsonGlib) (base64 : Base64) (real_time : ℕ) (obj : json.Object) {blob : JcatBlob}
    → import_blob json base64 real_time obj ≡ ok blob
    → IsValid blob
unfolding import_blob
import_blob-IsValid json base64 real_time obj {blob} e =
    let int = λ (name : Bytes). to_u32-lt (json.get_int_member obj name) in
    record {
      kind_fits = ground (arith, int (codes "Kind"));
      target_fits = ground (arith, int (codes "Target"));
      flags_fit = ground (arith, int (codes "Flags"));
      has_data = ground arith;
      is_text = λ utf8.
          let text = buffer (json.get_string_member obj (codes "Data")) in
          let stored : blob.data_bytes ≡ some (c_string text) = ground arith in
          rw stored (c_string-IsText text);
      timestamp_nonneg = ground arith;
    }

-- ===== src/Blob.antt =====
-- libjcat/jcat-blob.c: the object JcatBlob, its constructors, getters and setters. The check of a
-- pointer's type in each function always passes here, where the arguments are typed. A new blob
-- takes the clock's time, g_get_real_time, as an argument.
pub mod Import
pub mod Export
pub mod Stored
pub mod RoundTrip
pub mod Valid
use libjcat.Json.{Base64}
use libjcat.Kind.{JcatBlobKind, unknown, has_flag, is_utf8}
use libjcat.Prelude.{ℕ, ◌/◌, Option, none, some, [], Bytes, c_string, ℤ, pos, if◌then◌else◌}

-- JcatBlobPrivate.
pub record JcatBlob : Type 0 where
  pub kind : JcatBlobKind
  pub target : JcatBlobKind
  pub flags : ℕ
  pub data_bytes : Option Bytes
  pub appstream_id : Option Bytes
  pub timestamp : ℤ

-- G_USEC_PER_SEC.
abbrev usec_per_sec : ℕ
usec_per_sec = 1000000

-- g_object_new, which zeroes the fields, and `jcat_blob_init`.
unfoldable pub init : ℕ → JcatBlob
init real_time = record {
  kind = unknown;
  target = unknown;
  flags = 0;
  data_bytes = none;
  appstream_id = none;
  timestamp = pos (real_time / usec_per_sec);
}

-- `jcat_blob_new_full`; the data is no NULL.
unfoldable pub new_full : ℕ → JcatBlobKind → Bytes → ℕ → JcatBlob
unfolding init
new_full real_time kind bytes flags = record (init real_time) {
  kind = kind;
  data_bytes = some bytes;
  flags = flags;
}

-- `jcat_blob_new`, with JCAT_BLOB_FLAG_NONE.
unfoldable pub new : ℕ → JcatBlobKind → Bytes → JcatBlob
unfolding new_full
new real_time kind bytes = new_full real_time kind bytes 0

-- `jcat_blob_new_utf8`, with JCAT_BLOB_FLAG_IS_UTF8, and with the data of a C string.
unfoldable pub new_utf8 : ℕ → JcatBlobKind → Bytes → JcatBlob
unfolding init
new_utf8 real_time kind text = record (init real_time) {
  flags = 1;
  kind = kind;
  data_bytes = some (c_string text);
}

unfoldable pub set_timestamp : JcatBlob → ℤ → JcatBlob
set_timestamp self timestamp = record self { timestamp = timestamp }

unfoldable pub set_appstream_id : JcatBlob → Option Bytes → JcatBlob
set_appstream_id self appstream_id = record self { appstream_id = appstream_id }

unfoldable pub set_target : JcatBlob → JcatBlobKind → JcatBlob
set_target self target = record self { target = target }

-- A C string, or NULL, from a buffer that may be missing: g_strndup.
abbrev pub strndup : Option Bytes → Option Bytes
strndup none = none
strndup (some bytes) = some (c_string bytes)

-- What g_bytes_get_data and the size tell of a buffer that may be missing.
abbrev pub buffer : Option Bytes → Bytes
buffer none = []
buffer (some bytes) = bytes

-- `jcat_blob_get_data_as_string`.
unfoldable pub get_data_as_string : Base64 → JcatBlob → Option Bytes
get_data_as_string base64 self =
    if has_flag self.flags is_utf8
    then strndup self.data_bytes
    else some (base64.encode (buffer self.data_bytes))

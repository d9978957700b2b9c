-- ===== src/Blob/Stored.antt =====
-- The JSON object that libjcat/jcat-blob.c stores a blob as.
use libjcat.Blob.Export.{export_blob}
use libjcat.Blob.{c_string, buffer, JcatBlob, get_data_as_string}
use libjcat.Json.Laws.{StringsMembers, int, string, Members, end, member, emit, emit_members}
use libjcat.Json.{JsonGlib, Base64}
use libjcat.Kind.{unknown, has_flag, is_utf8, no_timestamp}
use libjcat.Prelude.{
  refl, inr, inl, Bool-cases, ℕ, ◌<◌, Bool, true, not, ◌&&◌, Option, none, some, Bytes, codes,
  IsText, pos, is_positive, u32_mod, ◌≡◌, arith, ◌==◌, if◌then◌else◌,
}

-- Whether the timestamp is written.
abbrev pub writes_timestamp : JcatBlob → ℕ → Bool
writes_timestamp self flags = is_positive self.timestamp && not (has_flag flags no_timestamp)

abbrev target_member : JcatBlob → Members → Members
target_member self rest =
    if not (self.target == unknown)
    then member (codes "Target") (int (pos self.target)) rest
    else rest

abbrev appstream_member : Option Bytes → Members → Members
appstream_member none rest = rest
appstream_member (some id) rest = member (codes "AppstreamId") (string id) rest

abbrev timestamp_member : JcatBlob → ℕ → Members → Members
timestamp_member self flags rest =
    if writes_timestamp self flags
    then member (codes "Timestamp") (int self.timestamp) rest
    else rest

-- The members of the object, in the order in which they are written.
unfoldable pub blob_members : JcatBlob → ℕ → Bytes → Members
blob_members self flags text = member (codes "Kind") (int (pos self.kind)) (
    target_member self (
      member (codes "Flags") (int (pos self.flags)) (
        appstream_member self.appstream_id
          (timestamp_member self flags (member (codes "Data") (string text) end)))))

-- A text that is there satisfies the predicate.
abbrev pub IsPresent : (Bytes → Type 0) → Option Bytes → Type 0
IsPresent P none = Unit
IsPresent P (some s) = P s

-- What a blob satisfies that the library has made from data: the fields fit their types, the data
-- is there and, if it is stored as text, holds no NUL; and JSON can hold its strings.
pub record IsStorable (P : Bytes → Type 0) (base64 : Base64) (self : JcatBlob) (bytes : Bytes)
    : Type 0 where
  pub kind_fits : self.kind < u32_mod
  pub target_fits : self.target < u32_mod
  pub flags_fit : self.flags < u32_mod
  pub has_data : self.data_bytes ≡ some bytes
  pub is_text : has_flag self.flags is_utf8 ≡ true → IsText bytes
  pub data_string : IsPresent P (get_data_as_string base64 self)
  pub appstream_string : IsPresent P self.appstream_id

module _ (P : Bytes → Type 0) where
  target_member-Strings :
      (self : JcatBlob) (rest : Members)
      → StringsMembers P rest
      → StringsMembers P (target_member self rest)
  target_member-Strings self rest h = elim (Bool-cases (self.target == unknown)) [
    | inl none_set ↦ rw none_set h
    | inr set ↦ rw set (tt, h)
  ]

  appstream_member-Strings :
      (id : Option Bytes) (rest : Members)
      → IsPresent P id
      → StringsMembers P rest
      → StringsMembers P (appstream_member id rest)
  appstream_member-Strings none rest p h = h
  appstream_member-Strings (some id) rest p h = (p, h)

  timestamp_member-Strings :
      (self : JcatBlob) (flags : ℕ) (rest : Members)
      → StringsMembers P rest
      → StringsMembers P (timestamp_member self flags rest)
  timestamp_member-Strings self flags rest h = elim (Bool-cases (writes_timestamp self flags)) [
    | inl writes ↦ rw writes (tt, h)
    | inr skips ↦ rw skips h
  ]

  pub blob_members-Strings :
      (self : JcatBlob) (flags : ℕ) (text : Bytes)
      → IsPresent P self.appstream_id
      → P text
      → StringsMembers P (blob_members self flags text)
  unfolding blob_members
  blob_members-Strings self flags text app data_ok = (
    tt,
    target_member-Strings self _ (
      tt,
      appstream_member-Strings self.appstream_id _ app
          (timestamp_member-Strings self flags _ (data_ok, tt)),
    ),
  )

module _ (json : JsonGlib) (base64 : Base64) where
  open json use {Builder}

  -- The export gives the builder the calls for that object.
  pub export_blob-emit :
      (self : JcatBlob) (flags : ℕ) (text : Bytes) (b : Builder)
      → get_data_as_string base64 self ≡ some text
      → export_blob json base64 self flags b ≡ emit_members json (blob_members self flags text) b
  unfolding export_blob emit blob_members
  export_blob-emit self flags text b e = ground arith

-- The text of a blob with data.
abbrev pub blob_text : Base64 → JcatBlob → Bytes
blob_text base64 self = buffer (get_data_as_string base64 self)

present-some :
    (P : Bytes → Type 0) (o : Option Bytes) (s : Bytes)
    → o ≡ some s
    → IsPresent P o
    → (o ≡ some (buffer o)) × P (buffer o)
present-some P none s e h = cc
present-some P (some t) s e h = (refl, h)

pub get_data_as_string-IsStorable :
    (P : Bytes → Type 0) (base64 : Base64) (self : JcatBlob) (bytes : Bytes)
    → IsStorable P base64 self bytes
    → (get_data_as_string base64 self ≡ some (blob_text base64 self)) × P (blob_text base64 self)
unfolding get_data_as_string
get_data_as_string-IsStorable P base64 self bytes ok_blob =
    let text = if has_flag self.flags is_utf8 then c_string bytes else base64.encode bytes in
    present-some P _ text (ground (arith, ok_blob.has_data)) ok_blob.data_string

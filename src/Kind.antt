-- ===== src/Kind.antt =====
-- libjcat/jcat-blob.h: the enumerations JcatBlobKind and JcatBlobMethod, and the flag sets, and
-- libjcat/jcat-blob.c: `jcat_blob_kind_from_string`, `jcat_blob_kind_to_string` and
-- `jcat_blob_kind_to_filename_ext`. A kind is an unsigned 32-bit number and no closed enumeration,
-- since the import accepts kinds that the library does not know.
pub mod Names
use libjcat.Prelude.{
  ℕ, ◌/◌, ◌%◌, ◌^◌, Bool, Option, none, some, Bytes, codes, strcmp0_eq, ◌==◌, if◌then◌else◌,
}

abbrev pub JcatBlobKind : Type 0
JcatBlobKind = ℕ

abbrev pub unknown : JcatBlobKind
unknown = 0

abbrev pub sha256 : JcatBlobKind
sha256 = 1

abbrev pub gpg : JcatBlobKind
gpg = 2

abbrev pub pkcs7 : JcatBlobKind
pkcs7 = 3

abbrev pub sha1 : JcatBlobKind
sha1 = 4

abbrev pub bt_manifest : JcatBlobKind
bt_manifest = 5

abbrev pub bt_checkpoint : JcatBlobKind
bt_checkpoint = 6

abbrev pub bt_inclusion_proof : JcatBlobKind
bt_inclusion_proof = 7

abbrev pub bt_verifier : JcatBlobKind
bt_verifier = 8

abbrev pub ed25519 : JcatBlobKind
ed25519 = 9

abbrev pub sha512 : JcatBlobKind
sha512 = 10

abbrev pub bt_logindex : JcatBlobKind
bt_logindex = 11

abbrev pub last : JcatBlobKind
last = 12

-- `none` is NULL, which is no kind.
unfoldable pub from_string : Option Bytes → JcatBlobKind
from_string kind =
    if strcmp0_eq kind (some (codes "gpg"))
    then gpg
    else if strcmp0_eq kind (some (codes "pkcs7"))
    then pkcs7
    else if strcmp0_eq kind (some (codes "sha256"))
    then sha256
    else if strcmp0_eq kind (some (codes "sha1"))
    then sha1
    else if strcmp0_eq kind (some (codes "bt-manifest"))
    then bt_manifest
    else if strcmp0_eq kind (some (codes "bt-checkpoint"))
    then bt_checkpoint
    else if strcmp0_eq kind (some (codes "bt-inclusion-proof"))
    then bt_inclusion_proof
    else if strcmp0_eq kind (some (codes "bt-verifier"))
    then bt_verifier
    else if strcmp0_eq kind (some (codes "ed25519"))
    then ed25519
    else if strcmp0_eq kind (some (codes "sha512"))
    then sha512
    else if strcmp0_eq kind (some (codes "bt-logindex"))
    then bt_logindex
    else unknown

unfoldable pub to_string : JcatBlobKind → Option Bytes
to_string kind =
    if kind == gpg
    then some (codes "gpg")
    else if kind == pkcs7
    then some (codes "pkcs7")
    else if kind == sha256
    then some (codes "sha256")
    else if kind == sha1
    then some (codes "sha1")
    else if kind == bt_manifest
    then some (codes "bt-manifest")
    else if kind == bt_checkpoint
    then some (codes "bt-checkpoint")
    else if kind == bt_inclusion_proof
    then some (codes "bt-inclusion-proof")
    else if kind == bt_verifier
    then some (codes "bt-verifier")
    else if kind == ed25519
    then some (codes "ed25519")
    else if kind == sha512
    then some (codes "sha512")
    else if kind == bt_logindex
    then some (codes "bt-logindex")
    else none

unfoldable pub to_filename_ext : JcatBlobKind → Option Bytes
to_filename_ext kind =
    if kind == gpg
    then some (codes "asc")
    else if kind == pkcs7
    then some (codes "p7b")
    else if kind == sha256
    then some (codes "sha256")
    else if kind == sha1
    then some (codes "sha1")
    else if kind == bt_manifest
    then some (codes "btmanifest")
    else if kind == bt_checkpoint
    then some (codes "btcheckpoint")
    else if kind == bt_inclusion_proof
    then some (codes "btinclusionproof")
    else if kind == bt_verifier
    then some (codes "btverifier")
    else if kind == ed25519
    then some (codes "ed25519")
    else if kind == sha512
    then some (codes "sha512")
    else if kind == bt_logindex
    then some (codes "btlogindex")
    else none

pub data JcatBlobMethod : Type 0 where
  unknown_method checksum signature : JcatBlobMethod

-- `flags & (1 << bit)`, as a test.
abbrev pub has_flag : ℕ → ℕ → Bool
has_flag flags bit = flags / 2 ^ bit % 2 == 1

-- The bit of JCAT_BLOB_FLAG_IS_UTF8.
abbrev pub is_utf8 : ℕ
is_utf8 = 0

-- The bit of JCAT_EXPORT_FLAG_NO_TIMESTAMP.
abbrev pub no_timestamp : ℕ
no_timestamp = 1

-- The bits of JCAT_VERIFY_FLAG_REQUIRE_CHECKSUM and JCAT_VERIFY_FLAG_REQUIRE_SIGNATURE.
abbrev pub require_checksum : ℕ
require_checksum = 3

abbrev pub require_signature : ℕ
require_signature = 4

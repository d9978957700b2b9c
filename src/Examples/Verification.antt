-- ===== src/Examples/Verification.antt =====
-- A context with a checksum engine and a toy signature engine, over a world that is a clock and a
-- number of keys loaded.
use libjcat.Blob.{JcatBlob}
use libjcat.Context.Checksums.{Computes, Match, verify_item-checksums, verify_blob-checksum}
use libjcat.Context.Accepted.{Accepted}
use libjcat.Context.Accepts.{verify_item_iff, verify_target_iff}
use libjcat.Context.Kinds.{
  is_blob_kind_allowed-blob_kind_allow, is_blob_kind_allowed-blob_kind_disallow, blob_kinds-lt,
}
use libjcat.Context.Steps.{ItemChecksum, ItemSignature, TargetChecksum, TargetSignature}
use libjcat.Context.Verify.{verify_item, verify_target}
use libjcat.Context.{
  verify_blob, JcatContext, Session, init, blob_kind_allow, blob_kind_disallow,
  is_blob_kind_allowed,
}
use libjcat.Engine.Checksum.{
  GChecksumType, type_sha256, IsChecksumEngine, new, kind_of, accepted, digest, self_verify_iff,
  self_verify-self_sign,
}
use libjcat.Engine.Setup.{SetsUp, setup_iff, setup-setup}
use libjcat.Engine.{Action, JcatEngine, JcatEngineClass, setup, self_verify, self_sign}
use libjcat.Item.{JcatItem}
use libjcat.Json.Tree.{plain}
use libjcat.Kind.{JcatBlobKind, sha256, gpg, checksum, signature, has_flag, is_utf8}
use libjcat.Prelude.{
  invalid_data, ℕ, suc, ◌+◌, ◌<◌, Bool, true, false, not, ◌&&◌, ◌||◌, none, some, List, [], ◌∷◌,
  Bytes, codes, pos, beq, length, ok, err, max_u32, u32_mod, ◌==◌, ◌≡◌, refl, ◌↔◌, arith,
  if◌then◌else◌,
}
use libjcat.Result.{JcatResult, of_engine}

-- A toy checksum: the length.
abbrev length_digest : GChecksumType → Bytes → Bytes
length_digest type bytes = (48 + length bytes) ∷ []

abbrev time_of : ℕ → ℕ
time_of w = w

abbrev add_key : Bytes → Action ℕ (Unit {0})
add_key fn w = (ok tt, suc w)

abbrev toy_verify : Bytes → Bytes → ℕ → Action ℕ JcatResult
toy_verify bytes sig flags w =
    if beq bytes sig
    then (
      ok (record {
        timestamp = pos 0;
        authority = none;
        engine = some (record { kind = gpg; method = signature });
      }),
      w,
    )
    else (err (record { code = invalid_data; message = []; values = [] }), w)

abbrev toy_class : JcatEngineClass ℕ
toy_class = record {
  setup = none;
  add_public_key = some add_key;
  add_public_key_raw = none;
  pubkey_verify = some toy_verify;
  pubkey_sign = none;
  self_verify = none;
  self_sign = none;
}

abbrev toy_engine : JcatEngine ℕ
toy_engine = record { kind = gpg; method = signature; done_setup = false; klass = toy_class }

abbrev sha256_engine : JcatEngine ℕ
sha256_engine = new length_digest time_of type_sha256

sha256_engine-IsChecksumEngine : IsChecksumEngine length_digest time_of type_sha256 sha256_engine
unfolding new
sha256_engine-IsChecksumEngine = record { method_is = refl; class_is = refl }

abbrev keys : List Bytes
keys = codes "a.pem" ∷ codes "b.pem" ∷ []

abbrev context : JcatContext ℕ
context = record {
  engines = sha256_engine ∷ toy_engine ∷ [];
  public_keys = keys;
  keyring_path = none;
  blob_kinds = max_u32;
}

abbrev session : Session ℕ
session = record { context = context; world = 5 }

abbrev wide : ℕ → JcatBlobKind → Bool
wide mask kind = false

abbrev blob : JcatBlobKind → Bytes → JcatBlob
blob kind bytes = record {
  kind = kind;
  target = sha256;
  flags = 1;
  data_bytes = some bytes;
  appstream_id = none;
  timestamp = pos 1;
}

abbrev item : JcatItem
item = record {
  id = some (codes "x");
  blobs = blob sha256 (codes "3") ∷ blob gpg (codes "abc") ∷ [];
  alias_ids = [];
}

self_verify_iff_example :
    ((self_verify keys sha256_engine (codes "abc") (some (codes "3")) 0 5).result
      ≡ ok (accepted length_digest time_of type_sha256))
    ↔ (codes "3" ≡ digest length_digest time_of type_sha256 (codes "abc"))
self_verify_iff_example =
    self_verify_iff length_digest time_of type_sha256 keys sha256_engine (codes "abc") (codes "3") 0
      5 sha256_engine-IsChecksumEngine

self_verify-self_sign_example :
    (b : JcatBlob) × ((self_sign keys sha256_engine (codes "abc") 0 5).result ≡ ok b)
    × (b.kind ≡ kind_of type_sha256)
    × (has_flag b.flags is_utf8 ≡ true)
    × ((self_verify [] sha256_engine (codes "abc") b.data_bytes 4 9).result
        ≡ ok (accepted length_digest time_of type_sha256))
self_verify-self_sign_example =
    self_verify-self_sign length_digest time_of type_sha256 keys [] sha256_engine sha256_engine
      (codes "abc") 0 4 5 9 sha256_engine-IsChecksumEngine sha256_engine-IsChecksumEngine

setup_iff_example :
    (setup keys toy_engine 5
      ≡ record { result = ok tt; engine = record toy_engine { done_setup = true }; world = 7 })
    ↔ SetsUp keys toy_class 5 7
setup_iff_example = setup_iff keys toy_engine 5 7 refl

setup-setup_example :
    setup (codes "c.pem" ∷ []) (setup keys toy_engine 5).engine 8
    ≡ record { result = ok tt; engine = (setup keys toy_engine 5).engine; world = 8 }
unfolding setup
setup-setup_example = setup-setup keys (codes "c.pem" ∷ []) toy_engine 5 8 refl

is_blob_kind_allowed-blob_kind_allow_example :
    is_blob_kind_allowed wide (blob_kind_allow context sha256) gpg ≡ (
      gpg == sha256 || not (context.blob_kinds == max_u32) && is_blob_kind_allowed wide context gpg)
is_blob_kind_allowed-blob_kind_allow_example =
    is_blob_kind_allowed-blob_kind_allow wide context sha256 gpg (omega arith) (omega arith)

is_blob_kind_allowed-blob_kind_disallow_example :
    is_blob_kind_allowed wide (blob_kind_disallow context sha256) gpg
    ≡ (not (gpg == sha256) && is_blob_kind_allowed wide context gpg)
is_blob_kind_allowed-blob_kind_disallow_example =
    is_blob_kind_allowed-blob_kind_disallow wide context sha256 gpg (omega arith) (omega arith)

blob_kinds-lt_example :
    ((blob_kind_allow context gpg).blob_kinds < u32_mod)
    × ((blob_kind_disallow context gpg).blob_kinds < u32_mod)
blob_kinds-lt_example = blob_kinds-lt context gpg (omega arith)

-- What a verification of the item leaves: both engines are set up, and both keys are loaded.
abbrev settled : Session ℕ
settled = record {
  context = record context {
    engines =
        record sha256_engine { done_setup = true } ∷ record toy_engine { done_setup = true } ∷ [];
  };
  world = 7;
}

abbrev both : List JcatResult
both =
    of_engine (record { kind = sha256; method = checksum })
    ∷ record {
      timestamp = pos 0;
      authority = none;
      engine = some (record { kind = gpg; method = signature });
    }
    ∷ []

-- The checksum and the signature of the item verify, as both are required.
verified : verify_item wide (codes "abc") item 24 session ≡ (ok both, settled)
unfolding verify_item of_engine new self_verify libjcat.Context.store_engine
    libjcat.Engine.pubkey_verify
verified = refl

verify_item_iff_example :
    (verify_item wide (codes "abc") item 24 session ≡ (ok both, settled))
    ↔ Accepted
        (ItemChecksum wide (codes "abc") 24)
        (ItemSignature wide (codes "abc") 24)
        item.blobs
        24
        session
        both
        settled
verify_item_iff_example =
    verify_item_iff wide (codes "abc") item 24 session both settled (omega arith)

verify_target_iff_example :
    (verify_target wide plain item item 8 session ≡ (ok both, settled))
    ↔ Accepted
        (TargetChecksum wide plain item)
        (TargetSignature wide item 8)
        item.blobs
        8
        session
        both
        settled
verify_target_iff_example =
    verify_target_iff wide plain item item 8 session both settled (omega arith)

session-Computes : Computes wide length_digest time_of type_sha256 context
unfolding is_blob_kind_allowed libjcat.Context.find_engine new
session-Computes = record {
  allowed = refl;
  engine = sha256_engine;
  found = refl;
  is_engine = sha256_engine-IsChecksumEngine;
}

verify_item-checksums_example :
    Match wide length_digest time_of type_sha256 (codes "abc") item.blobs
verify_item-checksums_example =
    verify_item-checksums wide length_digest time_of type_sha256 (codes "abc") item 24 session both
      settled (omega arith) session-Computes verified

verify_blob-checksum_example :
    ((verify_blob wide (codes "abc") (blob sha256 (codes "3")) 0 session).0
      ≡ ok (accepted length_digest time_of type_sha256))
    ↔ (some (codes "3") ≡ some (digest length_digest time_of type_sha256 (codes "abc")))
verify_blob-checksum_example =
    verify_blob-checksum wide length_digest time_of type_sha256 (codes "abc")
      (blob sha256 (codes "3")) 0 session session-Computes refl

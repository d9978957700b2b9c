-- ===== src/Engine/Libcrypto/Signing.antt =====
-- libjcat/jcat-libcrypto-pkcs7-engine.c: `jcat_libcrypto_pkcs7_engine_pubkey_sign` and
-- `jcat_libcrypto_pkcs7_engine_self_sign`.
use libjcat.Blob.{JcatBlob, new_utf8}
use libjcat.Engine.Libcrypto.Certificates.{
  load_crt_from_blob_pem, load_privkey_from_blob_pem, create_private_key, create_client_certificate,
}
use libjcat.Engine.Libcrypto.Errors.{call, unchecked}
use libjcat.Engine.Libcrypto.Interface.{Openssl, SigningFlags}
use libjcat.Engine.Libcrypto.Verify.{fn_cert}
use libjcat.Engine.{Action}
use libjcat.Kind.{pkcs7, has_flag}
use libjcat.Prelude.{
  ℕ, Bool, not, ◌&&◌, [], ◌∷◌, Bytes, codes, c_string, invalid_argument, length, Error, ok, ◌==◌,
  if◌then◌else◌,
}
use libjcat.System.Contents.{get_contents_bytes, set_contents_bytes, mkdir_parent}
use libjcat.System.{Gio, fail, pure, ◌>>=◌, ◌>>◌}

-- The bits of JCAT_SIGN_FLAG_ADD_TIMESTAMP and JCAT_SIGN_FLAG_ADD_CERT.
abbrev add_timestamp : ℕ
add_timestamp = 0

abbrev add_cert : ℕ
add_cert = 1

abbrev nothing_to_do : Error
nothing_to_do = record { code = invalid_argument; message = codes "nothing to do"; values = [] }

-- The name of the file of the private key.
abbrev pub fn_privkey : {World : Type 0} → Gio World → Bytes → Bytes
fn_privkey gio keyring_path =
    gio.build_filename (keyring_path ∷ codes "pki" ∷ codes "secret.key" ∷ [])

-- The flags for CMS_sign; `since_3_5` is OPENSSL_VERSION_PREREQ(3, 5).
abbrev pub signing_flags : Bool → ℕ → SigningFlags
signing_flags since_3_5 flags = record {
  no_signing_time = since_3_5 && not (has_flag flags add_timestamp);
  nocerts = not (has_flag flags add_cert);
}

module _ {World : Type 0} (ssl : Openssl World) (real_time : World → ℕ) (since_3_5 : Bool) where
  abbrev text_blob : Bytes → Action World JcatBlob
  text_blob text w = (ok (new_utf8 (real_time w) pkcs7 (c_string text)), w)

  -- The calls of `jcat_libcrypto_pkcs7_engine_pubkey_sign`, for data that is not empty.
  unfoldable pub sign_with : Bytes → Bytes → Bytes → ℕ → Action World JcatBlob
  unfolding load_privkey_from_blob_pem load_crt_from_blob_pem new_utf8
  sign_with blob cert privkey flags = do
    key ← load_privkey_from_blob_pem ssl privkey
    crt ← load_crt_from_blob_pem ssl cert
    blob_bio ← unchecked ssl (ssl.bio_new_mem_buf blob)
    cms ← unchecked ssl (ssl.cms_sign crt key blob_bio (signing_flags since_3_5 flags))
    bio_buf ← call ssl (codes "failed to encode PKCS7: %s") (ssl.pem_write_bio_cms cms)
    text_blob bio_buf

  -- `jcat_libcrypto_pkcs7_engine_pubkey_sign`.
  unfoldable pub class_pubkey_sign : Bytes → Bytes → Bytes → ℕ → Action World JcatBlob
  unfolding sign_with
  class_pubkey_sign blob cert privkey flags =
      if length blob == 0 then fail nothing_to_do else sign_with blob cert privkey flags

  module _ (gio : Gio World) (keyring_path : Bytes) where
    -- "generate and save" a private key.
    unfoldable pub generate_private_key : Action World Bytes
    unfolding create_private_key mkdir_parent set_contents_bytes
    generate_private_key = do
      privkey ← create_private_key ssl
      mkdir_parent gio (fn_privkey gio keyring_path)
      set_contents_bytes gio (fn_privkey gio keyring_path) privkey 384
      pure privkey

    -- "check private key exists, otherwise generate and save".
    unfoldable pub own_private_key : Action World Bytes
    unfolding generate_private_key get_contents_bytes
    own_private_key w =
        if gio.exists (fn_privkey gio keyring_path) w
        then get_contents_bytes gio (fn_privkey gio keyring_path) w
        else generate_private_key w

    -- "generate and save" a certificate.
    unfoldable pub generate_certificate : Bytes → Action World Bytes
    unfolding load_privkey_from_blob_pem create_client_certificate mkdir_parent set_contents_bytes
    generate_certificate privkey = do
      key ← load_privkey_from_blob_pem ssl privkey
      cert ← create_client_certificate ssl real_time key
      mkdir_parent gio (fn_cert gio keyring_path)
      set_contents_bytes gio (fn_cert gio keyring_path) cert 438
      pure cert

    -- "check client certificate exists, otherwise generate and save".
    unfoldable pub own_certificate : Bytes → Action World Bytes
    unfolding generate_certificate get_contents_bytes
    own_certificate privkey w =
        if gio.exists (fn_cert gio keyring_path) w
        then get_contents_bytes gio (fn_cert gio keyring_path) w
        else generate_certificate privkey w

    -- `jcat_libcrypto_pkcs7_engine_self_sign`.
    unfoldable pub class_self_sign : Bytes → ℕ → Action World JcatBlob
    unfolding own_private_key own_certificate class_pubkey_sign
    class_self_sign blob flags = do
      privkey ← own_private_key
      cert ← own_certificate privkey
      class_pubkey_sign blob cert privkey flags

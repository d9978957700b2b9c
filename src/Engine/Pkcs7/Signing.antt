-- ===== src/Engine/Pkcs7/Signing.antt =====
-- libjcat/jcat-gnutls-pkcs7-engine.c: `jcat_gnutls_pkcs7_engine_pubkey_sign` and
-- `jcat_gnutls_pkcs7_engine_self_sign`.
use libjcat.Blob.{JcatBlob, new_utf8}
use libjcat.Engine.Pkcs7.Certificates.{
  too_old, load_crt_from_blob, load_privkey_from_blob, load_pubkey_from_privkey, create_private_key,
  create_client_certificate,
}
use libjcat.Engine.Pkcs7.Errors.{call}
use libjcat.Engine.Pkcs7.Interface.{GnutlsX509, pem, pk_rsa, pk_mldsa87}
use libjcat.Engine.Pkcs7.Verify.{fn_cert}
use libjcat.Engine.{Action}
use libjcat.Kind.{pkcs7, has_flag}
use libjcat.Prelude.{
  ℕ, Bool, [], ◌∷◌, Bytes, codes, invalid_argument, length, Error, ok, ◌==◌, if◌then◌else◌,
}
use libjcat.System.Contents.{get_contents_bytes, set_contents_bytes, mkdir_parent}
use libjcat.System.{Gio, fail, pure, ◌>>=◌, ◌>>◌}

-- The bits of JCAT_SIGN_FLAG_ADD_TIMESTAMP, JCAT_SIGN_FLAG_ADD_CERT and JCAT_SIGN_FLAG_USE_PQ.
abbrev add_timestamp : ℕ
add_timestamp = 0

abbrev add_cert : ℕ
add_cert = 1

abbrev use_pq : ℕ
use_pq = 2

abbrev nothing_to_do : Error
nothing_to_do = record { code = invalid_argument; message = codes "nothing to do"; values = [] }

-- The name of the file of the private key.
abbrev pub fn_privkey : {World : Type 0} → Gio World → Bytes → Bool → Bytes
fn_privkey gio keyring_path pq = gio.build_filename (
    keyring_path
    ∷ codes "pki"
    ∷ (if pq then codes "secret-mldsa87.key" else codes "secret.key")
    ∷ [])

module _ {World : Type 0} (tls : GnutlsX509 World) (real_time : World → ℕ) where
  open tls use {Crt, Privkey, Signatures}

  -- "set certificate".
  abbrev with_crt : ℕ → Crt → Signatures → Action World Signatures
  with_crt flags crt sigs =
      if has_flag flags add_cert
      then call tls (codes "failed to pkcs7_set_cr: ") (tls.pkcs7_set_crt sigs crt)
      else pure sigs

  abbrev text_blob : Bytes → Action World JcatBlob
  unfolding new_utf8
  text_blob text w = (ok (new_utf8 (real_time w) pkcs7 text), w)

  -- The calls of `jcat_gnutls_pkcs7_engine_pubkey_sign`, for data that is not empty.
  unfoldable pub sign_with : Bytes → Bytes → Bytes → ℕ → Action World JcatBlob
  unfolding load_privkey_from_blob load_crt_from_blob load_pubkey_from_privkey new_utf8
  sign_with blob cert privkey flags = do
    key ← load_privkey_from_blob tls privkey
    crt ← load_crt_from_blob tls cert pem
    pubkey ← load_pubkey_from_privkey tls key
    dig ←
        call tls (codes "failed to get preferred hash algorithm: ")
          (tls.pubkey_get_preferred_hash_algorithm pubkey)
    made ← call tls (codes "failed to pkcs7_init: ") tls.pkcs7_init
    signed ← call tls (codes "failed to pkcs7_sign: ") (
        tls.pkcs7_sign made crt key blob dig
          (record { time = has_flag flags add_timestamp; cert = has_flag flags add_cert }))
    sigs ← with_crt flags crt signed
    text ← call tls (codes "failed to pkcs7_export: ") (tls.pkcs7_export2 sigs)
    text_blob text

  -- `jcat_gnutls_pkcs7_engine_pubkey_sign`.
  unfoldable pub class_pubkey_sign : Bytes → Bytes → Bytes → ℕ → Action World JcatBlob
  unfolding sign_with
  class_pubkey_sign blob cert privkey flags =
      if length blob == 0 then fail nothing_to_do else sign_with blob cert privkey flags

  module _ (pqc : Bool) (gio : Gio World) (keyring_path : Bytes) where
    -- The key that is made where there is none.
    abbrev new_private_key : Bool → Action World Bytes
    unfolding create_private_key
    new_private_key pq =
        if pq
        then if pqc then create_private_key tls pk_mldsa87 else fail too_old
        else create_private_key tls pk_rsa

    -- "generate and save" a private key.
    unfoldable pub generate_private_key : Bool → Action World Bytes
    unfolding create_private_key mkdir_parent set_contents_bytes new_private_key
    generate_private_key pq = do
      privkey ← new_private_key pq
      mkdir_parent gio (fn_privkey gio keyring_path pq)
      set_contents_bytes gio (fn_privkey gio keyring_path pq) privkey 384
      pure privkey

    -- "check private key exists, otherwise generate and save".
    unfoldable pub own_private_key : Bool → Action World Bytes
    unfolding generate_private_key get_contents_bytes
    own_private_key pq w =
        if gio.exists (fn_privkey gio keyring_path pq) w
        then get_contents_bytes gio (fn_privkey gio keyring_path pq) w
        else generate_private_key pq w

    -- "generate and save" a certificate.
    unfoldable pub generate_certificate : Bool → Bytes → Action World Bytes
    unfolding load_privkey_from_blob create_client_certificate mkdir_parent set_contents_bytes
    generate_certificate pq privkey = do
      key ← load_privkey_from_blob tls privkey
      cert ← create_client_certificate tls real_time key
      mkdir_parent gio (fn_cert gio keyring_path pq)
      set_contents_bytes gio (fn_cert gio keyring_path pq) cert 438
      pure cert

    -- "check client certificate exists, otherwise generate and save".
    unfoldable pub own_certificate : Bool → Bytes → Action World Bytes
    unfolding generate_certificate get_contents_bytes
    own_certificate pq privkey w =
        if gio.exists (fn_cert gio keyring_path pq) w
        then get_contents_bytes gio (fn_cert gio keyring_path pq) w
        else generate_certificate pq privkey w

    -- `jcat_gnutls_pkcs7_engine_self_sign`.
    unfoldable pub class_self_sign : Bytes → ℕ → Action World JcatBlob
    unfolding own_private_key own_certificate class_pubkey_sign
    class_self_sign blob flags = do
      privkey ← own_private_key (has_flag flags use_pq)
      cert ← own_certificate (has_flag flags use_pq) privkey
      class_pubkey_sign blob cert privkey flags

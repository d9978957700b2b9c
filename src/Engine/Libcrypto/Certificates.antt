-- ===== src/Engine/Libcrypto/Certificates.antt =====
-- libjcat/jcat-libcrypto-common.c: keys and certificates that are loaded and made.
use libjcat.Engine.{Action}
use libjcat.Engine.Libcrypto.Errors.{call, unchecked, effect}
use libjcat.Engine.Libcrypto.Interface.{Openssl}
use libjcat.Prelude.{ℕ, ◌/◌, Option, Bytes, codes, c_string}
use libjcat.System.{pure, ◌>>=◌, ◌>>◌}

-- JCAT_RSA_SIZE.
abbrev rsa_size : ℕ
rsa_size = 3072

-- JCAT_X509_NOTAFTER_UNDEFINED.
abbrev notafter_undefined : Bytes
notafter_undefined = codes "99991231235959Z"

module _ {World : Type 0} (ssl : Openssl World) where
  open ssl use {Crt, Key, Name}

  -- `jcat_libcrypto_pkcs7_load_crt_from_blob_pem`.
  unfoldable pub load_crt_from_blob_pem : Bytes → Action World Crt
  load_crt_from_blob_pem blob = do
    effect ssl ssl.err_set_mark
    bio_blob ←
        call ssl (codes "failed to create buffer for cert PEM data: %s") (ssl.bio_new_mem_buf blob)
    crt ←
        call ssl (codes "failed to parse certificate from PEM buffer: %s")
          (ssl.pem_read_bio_x509 bio_blob)
    effect ssl ssl.err_pop_to_mark
    pure crt

  -- `jcat_libcrypto_pkcs7_load_crt_from_blob_der`; the buffer is made, and the bytes are decoded.
  unfoldable pub load_crt_from_blob_der : Bytes → Action World Crt
  load_crt_from_blob_der blob = do
    effect ssl ssl.err_set_mark
    bio_blob ←
        call ssl (codes "failed to create buffer for cert DER data: %s") (ssl.bio_new_mem_buf blob)
    crt ← call ssl (codes "failed to parse certificate from DER buffer: %s") (ssl.d2i_x509 blob)
    effect ssl ssl.err_pop_to_mark
    pure crt

  -- `jcat_libcrypto_pkcs7_load_privkey_from_blob_pem`.
  unfoldable pub load_privkey_from_blob_pem : Bytes → Action World Key
  load_privkey_from_blob_pem blob = do
    dec_ctx ← call ssl (codes "failed setup keypair decoder: %s") ssl.decoder_ctx_new_for_pkey
    call ssl (codes "failed to decode keypair: %s") (ssl.decoder_from_data dec_ctx blob)

  -- `jcat_libcrypto_pkcs7_create_private_key`; a buffer that nothing uses is left out.
  unfoldable pub create_private_key : Action World Bytes
  create_private_key = do
    ctx ← call ssl (codes "failed to create RSA keygen: %s") ssl.pkey_ctx_new_id_rsa
    call ssl (codes "failed to init RSA keygen: %s") (ssl.pkey_keygen_init ctx)
    call ssl (codes "failed to set RSA keygen bits: %s")
        (ssl.pkey_ctx_set_rsa_keygen_bits ctx rsa_size)
    pkey ← call ssl (codes "failed to generate RSA key: %s") (ssl.pkey_keygen ctx)
    enc_ctx ←
        call ssl (codes "failed to create an encoder for RSA keypair: %s")
          (ssl.encoder_ctx_new_for_pkey pkey)
    call ssl (codes "failed to encode RSA keypair: %s") (ssl.encoder_to_data enc_ctx)

  -- The public key, the serial number and the times of a new certificate. The time of day is in
  -- microseconds.
  unfoldable pub set_key_and_times :
      (World → ℕ) → Option Crt → Option ssl.BigNum → Key → Action World (Unit {0})
  set_key_and_times real_time crt sha1bn privkey = do
    call ssl (codes "failed to set client cert public key: %s") (ssl.x509_set_pubkey crt privkey)
    call ssl (codes "failed to generate cert serial number: %s") (ssl.bn_rand sha1bn 159)
    call ssl (codes "failed to set serial number: %s") (ssl.set_serial_number crt sha1bn)
    (λ w.
        call ssl (codes "failed to set client cert activation time: %s")
          (ssl.set_not_before crt (real_time w / 1000000)) w)
    call ssl (codes "failed to set client cert expiration time: %s")
        (ssl.set_not_after crt notafter_undefined)

  -- The extensions and the version.
  unfoldable pub set_extensions : Option Crt → Action World (Unit {0})
  set_extensions crt = do
    call ssl (codes "failed to add basic constraints to cert: %s") (ssl.add_basic_constraints crt)
    call ssl (codes "failed to add key usage to cert: %s") (ssl.add_key_usage crt)
    md ←
        call ssl (codes "failed to create digest of pubkey for subject key ID: %s")
          (ssl.x509_pubkey_digest crt)
    call ssl (codes "failed to add subject key ID to cert: %s") (ssl.add_subject_key_id crt md)
    call ssl (codes "failed to set cert version number: %s") (ssl.x509_set_version_3 crt)

  -- `jcat_libcrypto_pkcs7_create_client_certificate`. The structures that hold the argument of one call
  -- alone are part of this call.
  unfoldable pub create_client_certificate : (World → ℕ) → Key → Action World Bytes
  unfolding set_key_and_times set_extensions
  create_client_certificate real_time privkey = do
    sha1bn ← unchecked ssl ssl.bn_new
    crt ← unchecked ssl ssl.x509_new
    set_key_and_times real_time crt sha1bn privkey
    set_extensions crt
    call ssl (codes "failed to self sign cert: %s") (ssl.x509_sign crt privkey)
    call ssl (codes "failed to encode self-signing cert: %s") (ssl.pem_write_bio_x509 crt)

  -- `jcat_libcrypto_x509_get_issuer_name`.
  unfoldable pub get_issuer_name : Crt → Action World Bytes
  get_issuer_name crt = do
    issuer_string ←
        call ssl (codes "failed to get issuer name: %s")
          (ssl.x509_name_print_ex (ssl.x509_get_issuer_name crt))
    pure (c_string issuer_string)

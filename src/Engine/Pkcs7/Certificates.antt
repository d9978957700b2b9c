-- ===== src/Engine/Pkcs7/Certificates.antt =====
-- libjcat/jcat-gnutls-common.c: keys and certificates that are loaded and made.
use libjcat.Engine.{Action}
use libjcat.Engine.Pkcs7.Errors.{call}
use libjcat.Engine.Pkcs7.Interface.{
  GnutlsX509, Reply, gives, fails, CrtFormat, SignAlgorithm, mldsa44, mldsa65, mldsa87, PkAlgorithm,
}
use libjcat.Prelude.{
  ℕ, ◌/◌, ◌%◌, Bool, true, false, Option, none, some, [], ◌∷◌, Bytes, codes, c_string, pos, negsuc,
  invalid_data, Error, if◌then◌else◌,
}
use libjcat.System.{fail, pure, ◌>>=◌, ◌>>◌}

abbrev pub too_old : Error
too_old = record {
  code = invalid_data;
  message = codes "GnuTLS too old for PQC support";
  values = [];
}

-- The test for an algorithm that resists a quantum computer.
abbrev pub is_pq : SignAlgorithm → Bool
is_pq mldsa44 = true
is_pq mldsa65 = true
is_pq mldsa87 = true
is_pq (SignAlgorithm.other_algorithm n) = false

-- `sha1buf[0] &= 0x7f`.
abbrev positive : Bytes → Bytes
positive [] = []
positive (b ∷ bs) = (b % 128) ∷ bs

module _ {World : Type 0} (tls : GnutlsX509 World) where
  open tls use {Crt, Privkey, Pubkey, Dn}

  -- `jcat_gnutls_pkcs7_load_crt_from_blob`.
  unfoldable pub load_crt_from_blob : Bytes → CrtFormat → Action World Crt
  load_crt_from_blob blob format = do
    crt ← call tls (codes "failed to crt_init: ") tls.x509_crt_init
    call tls (codes "failed to crt_import: ") (tls.x509_crt_import crt blob format)

  -- `jcat_gnutls_pkcs7_load_privkey_from_blob`.
  unfoldable pub load_privkey_from_blob : Bytes → Action World Privkey
  load_privkey_from_blob blob = do
    key ← call tls (codes "failed to privkey_init: ") tls.privkey_init
    call tls (codes "failed to privkey_import_x509_raw: ") (tls.privkey_import_x509_raw key blob)

  -- `jcat_gnutls_pkcs7_load_pubkey_from_privkey`.
  unfoldable pub load_pubkey_from_privkey : Privkey → Action World Pubkey
  load_pubkey_from_privkey privkey = do
    pubkey ← call tls (codes "failed to pubkey_init: ") tls.pubkey_init
    call tls (codes "failed to pubkey_import_privkey: ") (tls.pubkey_import_privkey pubkey privkey)

  -- A call whose failure ends the function with NULL.
  abbrev or_null :
      {A : Type 0} → Reply A × World → (A → World → Option Bytes × World) → Option Bytes × World
  or_null (gives a, w) next = next a w
  or_null (fails rc, w) next = (none, w)

  -- `jcat_gnutls_pkcs7_datum_to_dn_str`.
  unfoldable pub datum_to_dn_str : Bytes → World → Option Bytes × World
  datum_to_dn_str raw w = or_null (tls.x509_dn_init w) (λ dn v.
      or_null (tls.x509_dn_import dn raw v)
        (λ read u. or_null (tls.x509_dn_get_str2 read u) (λ str t. (some (c_string str), t))))

  -- `jcat_gnutls_pkcs7_create_private_key`.
  unfoldable pub create_private_key : PkAlgorithm → Action World Bytes
  create_private_key algo = do
    key ← call tls (codes "failed to privkey_init: ") tls.x509_privkey_init
    call tls (codes "failed to spki_init: ") tls.x509_spki_init
    made ←
        call tls (codes "failed to privkey_generate2: ")
          (tls.x509_privkey_generate2 key algo (tls.sec_param_to_pk_bits algo))
    call tls (codes "failed to privkey_verify_params: ") (tls.x509_privkey_verify_params made)
    call tls (codes "failed to privkey_export2: ") (tls.x509_privkey_export2 made)

  abbrev not_pq_safe : SignAlgorithm → Error
  not_pq_safe algo = record {
    code = invalid_data;
    message = codes "%s is not PQ safe";
    values = tls.sign_get_name algo ∷ [];
  }

  -- `jcat_gnutls_pkcs7_ensure_sign_algo_pq_safe`; `pqc` is HAVE_GNUTLS_PQC.
  unfoldable pub ensure_sign_algo_pq_safe : Bool → SignAlgorithm → Action World (Unit {0})
  ensure_sign_algo_pq_safe pqc algo =
      if pqc then if is_pq algo then pure tt else fail (not_pq_safe algo) else fail too_old

  -- The attributes of a new certificate, up to the expiration. The time of day is in microseconds.
  unfoldable pub set_serial_and_times : (World → ℕ) → Crt → Action World Crt
  set_serial_and_times real_time crt = do
    sha1buf ← call tls (codes "failed to gnutls_rnd: ") (tls.rnd 20)
    crt ←
        call tls (codes "failed to crt_set_serial: ")
          (tls.x509_crt_set_serial crt (positive sha1buf))
    crt ← (λ w.
        call tls (codes "failed to set activation time: ")
          (tls.x509_crt_set_activation_time crt (pos (real_time w / 1000000))) w)
    call tls (codes "failed to set expiration time: ")
        (tls.x509_crt_set_expiration_time crt (negsuc 0))

  -- The other attributes.
  unfoldable pub set_usage_and_version : Crt → Action World Crt
  set_usage_and_version crt = do
    crt ←
        call tls (codes "failed to set basic constraints: ")
          (tls.x509_crt_set_basic_constraints crt 0 (negsuc 0))
    crt ← call tls (codes "failed to set key usage: ") (tls.x509_crt_set_key_usage crt)
    key_id ← call tls (codes "failed to get key id: ") (tls.x509_crt_get_key_id crt)
    crt ←
        call tls (codes "failed to set subject key id: ")
          (tls.x509_crt_set_subject_key_id crt key_id)
    call tls (codes "failed to set certificate version: ") (tls.x509_crt_set_version crt 3)

  -- `jcat_gnutls_pkcs7_create_client_certificate`.
  unfoldable pub create_client_certificate : (World → ℕ) → Privkey → Action World Bytes
  unfolding load_pubkey_from_privkey set_serial_and_times set_usage_and_version
  create_client_certificate real_time privkey = do
    pubkey ← load_pubkey_from_privkey privkey
    digest_alg ←
        call tls (codes "failed to get preferred hash algorithm: ")
          (tls.pubkey_get_preferred_hash_algorithm pubkey)
    crt ← call tls (codes "failed to crt_init: ") tls.x509_crt_init
    crt ← call tls (codes "failed to crt_set_pubkey: ") (tls.x509_crt_set_pubkey crt pubkey)
    crt ← set_serial_and_times real_time crt
    crt ← set_usage_and_version crt
    crt ←
        call tls (codes "failed to crt_privkey_sign: ")
          (tls.x509_crt_privkey_sign crt crt privkey digest_alg)
    call tls (codes "failed to crt_export2: ") (tls.x509_crt_export2 crt)

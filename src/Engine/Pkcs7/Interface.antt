-- ===== src/Engine/Pkcs7/Interface.antt =====
-- What libjcat/jcat-gnutls-common.c and libjcat/jcat-gnutls-pkcs7-engine.c call of GnuTLS for X.509
-- and PKCS-7. A call that changes one of GnuTLS's objects returns the object that it leaves. The
-- format of what is exported is always PEM.
use libjcat.Prelude.{ℕ, ℤ, Bool, Option, List, Bytes}

-- The negative return codes that are told apart, and any other one by its number without the sign.
pub data Rc : Type 0 where
  ecc_unsupported_curve insufficient_credentials insufficient_security no_certificate_found : Rc
  unimplemented_feature unknown_algorithm unknown_cipher_type unknown_compression_algorithm : Rc
  unknown_hash_algorithm unknown_pk_algorithm unknown_pkcs_content_type : Rc
  unsupported_certificate_type unsupported_signature_algorithm unwanted_algorithm : Rc
  x509_certificate_error x509_unsupported_attribute x509_unsupported_critical_extension : Rc
  x509_unsupported_extension base64_decoding_error certificate_key_mismatch decryption_failed : Rc
  key_usage_violation pk_decryption_failed pk_encryption_failed pk_sign_failed : Rc
  pk_sig_verify_failed short_memory_buffer unexpected_packet_length unknown_cipher_suite : Rc
  requested_data_not_available : Rc
  other_rc : ℕ → Rc

-- What a call gives, or the code with which it fails.
pub data Reply (A : Type 0) : Type 0 where
  gives : A → Reply A
  fails : Rc → Reply A

-- A call that may depend on the world and change it.
abbrev pub Call : Type 0 → Type 0 → Type 0
Call World A = World → Reply A × World

-- gnutls_x509_crt_fmt_t.
pub data CrtFormat : Type 0 where
  pem der : CrtFormat

-- The algorithms of gnutls_sign_algorithm_t that are told apart, and any other one.
pub data SignAlgorithm : Type 0 where
  mldsa44 mldsa65 mldsa87 : SignAlgorithm
  other_algorithm : ℕ → SignAlgorithm

-- The values of gnutls_pk_algorithm_t that are asked for.
pub data PkAlgorithm : Type 0 where
  pk_rsa pk_mldsa87 : PkAlgorithm

-- The parts of gnutls_pkcs7_signature_info_st that are read.
pub record SignatureInfo : Type 0 where
  pub issuer_dn : Bytes
  pub signing_time : ℤ

-- GNUTLS_PKCS7_INCLUDE_TIME and GNUTLS_PKCS7_INCLUDE_CERT.
pub record Included : Type 0 where
  pub time : Bool
  pub cert : Bool

pub record GnutlsX509 (World : Type 0) : Type 1 where
  pub Crt : Type 0
  pub Privkey : Type 0
  pub X509Privkey : Type 0
  pub Pubkey : Type 0
  pub Digest : Type 0
  pub Dn : Type 0
  pub TrustList : Type 0
  pub Iter : Type 0
  pub Signatures : Type 0
  -- gnutls_strerror, and the code in digits
  pub strerror : Rc → Bytes
  pub rc_digits : Rc → Bytes
  -- certificates
  pub x509_crt_init : Call World Crt
  pub x509_crt_import : Crt → Bytes → CrtFormat → Call World Crt
  pub x509_crt_get_key_usage : Crt → Reply ℕ
  -- whether GNUTLS_KEY_DIGITAL_SIGNATURE and GNUTLS_KEY_KEY_CERT_SIGN are set
  pub key_digital_signature : ℕ → Bool
  pub key_cert_sign : ℕ → Bool
  pub x509_crt_get_signature_algorithm : Crt → SignAlgorithm
  pub sign_get_name : SignAlgorithm → Bytes
  pub x509_crt_set_pubkey : Crt → Pubkey → Call World Crt
  pub x509_crt_set_serial : Crt → Bytes → Call World Crt
  pub x509_crt_set_activation_time : Crt → ℤ → Call World Crt
  pub x509_crt_set_expiration_time : Crt → ℤ → Call World Crt
  pub x509_crt_set_basic_constraints : Crt → ℕ → ℤ → Call World Crt
  -- with GNUTLS_KEY_DIGITAL_SIGNATURE, and with GNUTLS_KEYID_USE_SHA1
  pub x509_crt_set_key_usage : Crt → Call World Crt
  pub x509_crt_get_key_id : Crt → Call World Bytes
  pub x509_crt_set_subject_key_id : Crt → Bytes → Call World Crt
  pub x509_crt_set_version : Crt → ℕ → Call World Crt
  -- the certificate, that of the issuer, the key of the issuer and the digest
  pub x509_crt_privkey_sign : Crt → Crt → Privkey → Digest → Call World Crt
  pub x509_crt_export2 : Crt → Call World Bytes
  -- keys
  pub privkey_init : Call World Privkey
  pub privkey_import_x509_raw : Privkey → Bytes → Call World Privkey
  pub pubkey_init : Call World Pubkey
  pub pubkey_import_privkey : Pubkey → Privkey → Call World Pubkey
  pub pubkey_get_preferred_hash_algorithm : Pubkey → Call World Digest
  pub x509_privkey_init : Call World X509Privkey
  pub x509_spki_init : Call World (Unit {0})
  -- the bits for GNUTLS_SEC_PARAM_HIGH
  pub sec_param_to_pk_bits : PkAlgorithm → ℤ
  pub x509_privkey_generate2 : X509Privkey → PkAlgorithm → ℤ → Call World X509Privkey
  pub x509_privkey_verify_params : X509Privkey → Call World (Unit {0})
  pub x509_privkey_export2 : X509Privkey → Call World Bytes
  -- gnutls_rnd of so many bytes for a nonce
  pub rnd : ℕ → Call World Bytes
  -- distinguished names
  pub x509_dn_init : Call World Dn
  pub x509_dn_import : Dn → Bytes → Call World Dn
  pub x509_dn_get_str2 : Dn → Call World Bytes
  -- lists of trusted certificates; the iterator is NULL at first
  pub trust_list_init : Call World TrustList
  pub trust_list_add_cas : TrustList → List Crt → Call World TrustList
  pub trust_list_iter_get_ca : TrustList → Option Iter → Reply Iter
  -- PKCS-7 structures; the last argument of the verifications disables the checks of times
  pub pkcs7_init : Call World Signatures
  pub pkcs7_import : Signatures → Bytes → Call World Signatures
  pub pkcs7_get_signature_count : Signatures → Reply ℕ
  pub pkcs7_get_signature_info : Signatures → ℕ → Reply SignatureInfo
  pub pkcs7_verify_direct : Signatures → Crt → ℕ → Bytes → Bool → Call World (Unit {0})
  pub pkcs7_verify : Signatures → TrustList → ℕ → Bytes → Bool → Call World (Unit {0})
  pub pkcs7_sign : Signatures → Crt → Privkey → Bytes → Digest → Included → Call World Signatures
  pub pkcs7_set_crt : Signatures → Crt → Call World Signatures
  pub pkcs7_export2 : Signatures → Call World Bytes

-- ===== src/Engine/Libcrypto/Interface.antt =====
-- What libjcat/jcat-libcrypto-common.c and libjcat/jcat-libcrypto-pkcs7-engine.c call of OpenSSL. The
-- objects are references to what the world holds. Where the code does not look whether a pointer is
-- NULL, the call that gets the pointer takes an Option, and what it does with none is OpenSSL's.
use libjcat.Prelude.{ℕ, ℤ, Bool, Option, List, Bytes}

-- A call that may give nothing: NULL, or a return code for a failure.
abbrev pub Call : Type 0 → Type 0 → Type 0
Call World A = World → Option A × World

-- The types of an ASN1_TYPE that are told apart, and any other one.
pub data Asn1Tag : Type 0 where
  utctime generalizedtime : Asn1Tag
  other_tag : ℕ → Asn1Tag

-- The flags of CMS_sign that depend on those of libjcat: CMS_NO_SIGNING_TIME and CMS_NOCERTS.
pub record SigningFlags : Type 0 where
  pub no_signing_time : Bool
  pub nocerts : Bool

pub record Openssl (World : Type 0) : Type 1 where
  pub Bio : Type 0
  pub Crt : Type 0
  pub Key : Type 0
  pub DecoderCtx : Type 0
  pub EncoderCtx : Type 0
  pub KeygenCtx : Type 0
  pub BigNum : Type 0
  pub Name : Type 0
  pub Store : Type 0
  pub StoreCtx : Type 0
  pub Cms : Type 0
  pub SignerInfo : Type 0
  pub Attribute : Type 0
  pub Asn1Type : Type 0
  pub Asn1Time : Type 0
  pub Tm : Type 0
  -- the error stack: ERR_peek_error, and ERR_print_errors to a buffer in memory
  pub err_peek_error : World → ℕ
  pub err_print_errors : World → Bytes × World
  pub err_set_mark : World → World
  pub err_pop_to_mark : World → World
  -- buffers and decoders
  pub bio_new_mem_buf : Bytes → Call World Bio
  pub pem_read_bio_x509 : Bio → Call World Crt
  pub d2i_x509 : Bytes → Call World Crt
  -- for PEM, RSA and OSSL_KEYMGMT_SELECT_KEYPAIR
  pub decoder_ctx_new_for_pkey : Call World DecoderCtx
  pub decoder_from_data : DecoderCtx → Bytes → Call World Key
  -- keys
  pub pkey_ctx_new_id_rsa : Call World KeygenCtx
  pub pkey_keygen_init : KeygenCtx → Call World (Unit {0})
  pub pkey_ctx_set_rsa_keygen_bits : KeygenCtx → ℕ → Call World (Unit {0})
  pub pkey_keygen : KeygenCtx → Call World Key
  -- for PEM and EVP_PKEY_KEYPAIR
  pub encoder_ctx_new_for_pkey : Key → Call World EncoderCtx
  pub encoder_to_data : EncoderCtx → Call World Bytes
  -- certificates
  pub x509_new : Call World Crt
  pub bn_new : Call World BigNum
  pub x509_set_pubkey : Option Crt → Key → Call World (Unit {0})
  -- of so many bits, with BN_RAND_TOP_ANY and BN_RAND_BOTTOM_ANY
  pub bn_rand : Option BigNum → ℕ → Call World (Unit {0})
  pub set_serial_number : Option Crt → Option BigNum → Call World (Unit {0})
  pub set_not_before : Option Crt → ℕ → Call World (Unit {0})
  pub set_not_after : Option Crt → Bytes → Call World (Unit {0})
  -- critical, with no CA
  pub add_basic_constraints : Option Crt → Call World (Unit {0})
  -- critical, with KU_DIGITAL_SIGNATURE
  pub add_key_usage : Option Crt → Call World (Unit {0})
  -- with EVP_sha1
  pub x509_pubkey_digest : Option Crt → Call World Bytes
  pub add_subject_key_id : Option Crt → Bytes → Call World (Unit {0})
  -- X509_VERSION_3
  pub x509_set_version_3 : Option Crt → Call World (Unit {0})
  -- with EVP_sha256
  pub x509_sign : Option Crt → Key → Call World (Unit {0})
  pub pem_write_bio_x509 : Option Crt → Call World Bytes
  pub x509_get_key_usage : Crt → World → ℕ × World
  -- whether X509v3_KU_DIGITAL_SIGNATURE and X509v3_KU_KEY_CERT_SIGN are set
  pub ku_digital_signature : ℕ → Bool
  pub ku_key_cert_sign : ℕ → Bool
  pub x509_get_issuer_name : Crt → Name
  -- with XN_FLAG_RFC2253
  pub x509_name_print_ex : Name → Call World Bytes
  -- stores of trusted certificates
  pub store_new : Call World Store
  pub store_add_cert : Option Store → Crt → Call World (Unit {0})
  -- X509_PURPOSE_ANY, and X509_V_FLAG_NO_CHECK_TIME set or cleared
  pub store_set_purpose_any : Option Store → World → World
  pub store_set_no_check_time : Option Store → Bool → World → World
  pub store_set_ex_data : Option Store → Option Bytes → World → World
  pub store_get_ex_data : Option Store → World → Option Bytes
  pub store_set_verify_cb : Option Store → (Bool → StoreCtx → World → Bool × World) → World → World
  pub store_ctx_get_current_cert : StoreCtx → World → Crt
  pub store_ctx_get0_store : StoreCtx → Option Store
  -- CMS structures
  pub pem_read_bio_cms : Option Bio → Call World Cms
  pub cms_get0_signer_infos : Cms → List SignerInfo
  -- with the certificate of the signer, for CMS_BINARY; whether the result is positive
  pub cms_verify : Cms → Option Crt → Option Store → Option Bio → World → Bool × World
  -- for NID_pkcs9_signingTime
  pub cms_signed_get_attr_by_nid : SignerInfo → ℤ
  pub cms_signed_get_attr : SignerInfo → ℤ → Option Attribute
  pub attribute_get0_type : Option Attribute → Option Asn1Type
  pub asn1_tag : Asn1Type → Asn1Tag
  pub asn1_value : Asn1Type → Asn1Time
  pub asn1_time_to_tm : Asn1Time → Call World Tm
  pub mktime : Tm → World → ℤ
  pub signer_id_issuer : SignerInfo → Call World Name
  -- with CMS_BINARY, CMS_DETACHED and CMS_NOSMIMECAP besides
  pub cms_sign : Crt → Key → Option Bio → SigningFlags → Call World Cms
  -- with PEM_STRING_PKCS7
  pub pem_write_bio_cms : Option Cms → Call World Bytes

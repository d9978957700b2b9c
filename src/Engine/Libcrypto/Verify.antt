-- ===== src/Engine/Libcrypto/Verify.antt =====
-- libjcat/jcat-libcrypto-pkcs7-engine.c: `cms_verify_cb`, `jcat_libcrypto_pkcs7_engine_verify`,
-- `jcat_libcrypto_pkcs7_engine_pubkey_verify` and `jcat_libcrypto_pkcs7_engine_self_verify`.
use libjcat.Engine.Cell.{Cell}
use libjcat.Engine.Libcrypto.Certificates.{load_crt_from_blob_pem, get_issuer_name}
use libjcat.Engine.Libcrypto.Errors.{get_errors, refuse, call, unchecked, effect}
use libjcat.Engine.Libcrypto.Interface.{Openssl, Asn1Tag, utctime, generalizedtime}
use libjcat.Engine.{Action}
use libjcat.Kind.{pkcs7, signature, has_flag}
use libjcat.Prelude.{
  ℕ, Bool, true, false, Option, none, some, List, [], ◌∷◌, Bytes, codes, c_string, invalid_data, ℤ,
  pos, negsuc, ltb, Error, Result, ok, err, if◌then◌else◌,
}
use libjcat.Result.{JcatResult}
use libjcat.System.Contents.{get_contents_bytes}
use libjcat.System.{Gio, fail, pure, ◌>>=◌, ◌>>◌}

-- The bit of JCAT_VERIFY_FLAG_DISABLE_TIME_CHECKS.
abbrev pub disable_time_checks : ℕ
disable_time_checks = 2

abbrev pub no_signatures : Error
no_signatures = record {
  code = invalid_data;
  message = codes "no PKCS7 signatures found";
  values = [];
}

-- `timestamp_newest` and `authority_newest`.
pub record Newest : Type 0 where
  pub timestamp : ℕ
  pub authority : Bytes

abbrev pub none_yet : Newest
none_yet = record { timestamp = 0; authority = [] }

abbrev pub result_of : Newest → JcatResult
result_of newest = record {
  timestamp = pos newest.timestamp;
  authority = some newest.authority;
  engine = some (record { kind = pkcs7; method = signature });
}

-- The time of a signature, if it is later than the newest.
abbrev pub later_than : ℕ → ℤ → Option ℕ
later_than newest (pos t) = if ltb newest t then some t else none
later_than newest (negsuc n) = none

-- The name of the file of the certificate.
abbrev pub fn_cert : {World : Type 0} → Gio World → Bytes → Bytes
fn_cert gio keyring_path = gio.build_filename (keyring_path ∷ codes "pki" ∷ codes "client.pem" ∷ [])

module _ {World : Type 0} (ssl : Openssl World) where
  open ssl use {Crt, Store, StoreCtx, Cms, SignerInfo, Asn1Type, Asn1Time, Bio}

  abbrev name_or_null : Result Bytes → Option Bytes
  name_or_null (ok name) = some name
  name_or_null (err e) = none

  -- `cms_verify_cb`.
  unfoldable pub cms_verify_cb : Bool → StoreCtx → World → Bool × World
  unfolding get_issuer_name
  cms_verify_cb true ctx w = (true, w)
  cms_verify_cb false ctx w =
      let (issuer_name, v) = get_issuer_name ssl (ssl.store_ctx_get_current_cert ctx w) w in
      (false, ssl.store_set_ex_data (ssl.store_ctx_get0_store ctx) (name_or_null issuer_name) v)

  -- "configure trust store for verification", and "setup verify callback for debugging".
  unfoldable pub configure : Option Store → ℕ → World → World
  unfolding cms_verify_cb
  configure trust_store flags w =
      let a = ssl.store_set_purpose_any trust_store w in
      let b = ssl.store_set_no_check_time trust_store (has_flag flags disable_time_checks) a in
      let c = ssl.store_set_ex_data trust_store none b in
      ssl.store_set_verify_cb trust_store cms_verify_cb c

  abbrev not_verified : Option Bytes → Bytes → Error
  not_verified none error_str = record {
    code = invalid_data;
    message = codes "failed to verify data: %s";
    values = error_str ∷ [];
  }
  not_verified (some issuer_name) error_str = record {
    code = invalid_data;
    message = codes "failed to verify data for %s: %s";
    values = issuer_name ∷ error_str ∷ [];
  }

  abbrev pub checked : Option Store → Bool × World → Result (Unit {0}) × World
  checked trust_store (true, w) = (ok tt, w)
  checked trust_store (false, w) =
      let (error_str, v) = get_errors ssl w in
      (err (not_verified (ssl.store_get_ex_data trust_store v) error_str), v)

  -- The call of CMS_verify, and what its failure gives.
  unfoldable pub check_cms : Cms → Option Crt → Option Store → Option Bio → Action World (Unit {0})
  unfolding get_errors
  check_cms cms signer trust_store bio w =
      checked trust_store (ssl.cms_verify cms signer trust_store bio w)

  abbrev is_time : Asn1Tag → Bool
  is_time utctime = true
  is_time generalizedtime = true
  is_time (Asn1Tag.other_tag n) = false

  abbrev pub time_in : Option Asn1Type → Option Asn1Time
  time_in none = none
  time_in (some stime) = if is_time (ssl.asn1_tag stime) then some (ssl.asn1_value stime) else none

  -- The signing time among the signed attributes.
  abbrev pub signing_attr : SignerInfo → Option Asn1Time
  signing_attr info =
      time_in (
        ssl.attribute_get0_type
          (ssl.cms_signed_get_attr info (ssl.cms_signed_get_attr_by_nid info)))

  abbrev pub extracted : Option Asn1Time → Action World Asn1Time
  extracted none = refuse ssl (codes "failed to extract timestamp: %s")
  extracted (some t) = pure t

  -- The signing time of a signature.
  unfoldable pub signing_time : SignerInfo → Action World ℤ
  unfolding get_errors
  signing_time info = do
    t ← extracted (signing_attr info)
    time_tm ← call ssl (codes "failed to convert timestamp: %s") (ssl.asn1_time_to_tm t)
    λ w. (ok (ssl.mktime time_tm w), w)

  -- What is kept of a signature with a later time.
  abbrev pub renewed : SignerInfo → Newest → Option ℕ → Action World Newest
  renewed info newest none = pure newest
  renewed info newest (some t) = do
    issuer_name ← call ssl (codes "failed to extract issuer name: %s") (ssl.signer_id_issuer info)
    issuer_string ←
        call ssl (codes "failed to print issuer name: %s") (ssl.x509_name_print_ex issuer_name)
    pure (record { timestamp = t; authority = c_string issuer_string })

  -- "save details about the key for the result".
  unfoldable pub look : List SignerInfo → Newest → Action World Newest
  unfolding signing_time
  look [] newest = pure newest
  look (info ∷ infos) newest = do
    t ← signing_time info
    more ← renewed info newest (later_than newest.timestamp t)
    look infos more

  -- The store of a certificate alone, or that of the engine.
  unfoldable pub trust_store_of :
      Cell World (Option Store) → Option Crt → Action World (Option Store)
  trust_store_of cell none = λ w. (ok (cell.get w), w)
  trust_store_of cell (some crt) = do
    self_store ← unchecked ssl ssl.store_new
    _ ← unchecked ssl (ssl.store_add_cert self_store crt)
    pure self_store

  abbrev pub some_signatures : List SignerInfo → Action World (Unit {0})
  some_signatures [] = fail no_signatures
  some_signatures (_ ∷ _) = pure tt

  -- `jcat_libcrypto_pkcs7_engine_verify`. A decoder that nothing uses is left out, and the stack of the
  -- signer's certificates is the certificate itself.
  unfoldable pub verify :
      Cell World (Option Store) → Bytes → Bytes → Option Crt → ℕ → Action World JcatResult
  unfolding trust_store_of configure check_cms look
  verify cell blob blob_signature crt flags = do
    bio_signature ← unchecked ssl (ssl.bio_new_mem_buf blob_signature)
    cms ←
        call ssl (codes "failed to parse PKCS7 signature: %s") (ssl.pem_read_bio_cms bio_signature)
    trust_store ← trust_store_of cell crt
    effect ssl (configure trust_store flags)
    bio ← unchecked ssl (ssl.bio_new_mem_buf blob)
    some_signatures (ssl.cms_get0_signer_infos cms)
    check_cms cms crt trust_store bio
    newest ← look (ssl.cms_get0_signer_infos cms) none_yet
    pure (result_of newest)

  -- `jcat_libcrypto_pkcs7_engine_self_verify`.
  unfoldable pub class_self_verify :
      Cell World (Option Store) → Gio World → Bytes → Bytes → Bytes → ℕ → Action World JcatResult
  unfolding get_contents_bytes load_crt_from_blob_pem verify
  class_self_verify cell gio keyring_path blob blob_signature flags = do
    cert_blob ← get_contents_bytes gio (fn_cert gio keyring_path)
    crt ← load_crt_from_blob_pem ssl cert_blob
    verify cell blob blob_signature (some crt) flags

  -- `jcat_libcrypto_pkcs7_engine_pubkey_verify`.
  unfoldable pub class_pubkey_verify :
      Cell World (Option Store) → Bytes → Bytes → ℕ → Action World JcatResult
  unfolding verify
  class_pubkey_verify cell blob blob_signature flags = verify cell blob blob_signature none flags

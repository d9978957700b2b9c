-- ===== src/Engine/Pkcs7/Verify.antt =====
-- libjcat/jcat-gnutls-pkcs7-engine.c: `jcat_gnutls_pkcs7_engine_verify`,
-- `jcat_gnutls_pkcs7_engine_pubkey_verify` and `jcat_gnutls_pkcs7_engine_self_verify`.
use mathlib.Core.WellFounded.{Acc}
use libjcat.Engine.Cell.{Cell}
use libjcat.Engine.Pkcs7.Certificates.{
  too_old, datum_to_dn_str, load_crt_from_blob, ensure_sign_algo_pq_safe,
}
use libjcat.Engine.Pkcs7.Errors.{rc_to_error, or_prefixed, call}
use libjcat.Engine.Pkcs7.Interface.{GnutlsX509, Reply, gives, fails, pem, SignatureInfo}
use libjcat.Engine.Pkcs7.TrustLists.{
  Follows, build_trust_list, build_trust_list_only_pq, ensure_trust_list_valid,
}
use libjcat.Engine.{Action}
use libjcat.Kind.{pkcs7, signature, has_flag}
use libjcat.Prelude.{
  ℕ, zero, suc, Bool, Option, none, some, List, [], ◌∷◌, ◌++◌, Bytes, codes, invalid_data, ℤ, pos,
  negsuc, ltb, Error, Result, ok, err, ◌==◌, if◌then◌else◌,
}
use libjcat.Result.{JcatResult}
use libjcat.System.Contents.{get_contents_bytes}
use libjcat.System.{Gio, fail, pure, lift, ◌>>=◌, ◌>>◌}

-- The bits of JCAT_VERIFY_FLAG_DISABLE_TIME_CHECKS and JCAT_VERIFY_FLAG_ONLY_PQ.
abbrev pub disable_time_checks : ℕ
disable_time_checks = 2

abbrev pub only_pq : ℕ
only_pq = 5

abbrev pub no_signatures : Error
no_signatures = record {
  code = invalid_data;
  message = codes "no PKCS7 signatures found";
  values = [];
}

-- `timestamp_newest` and `authority_newest`.
pub record Newest : Type 0 where
  pub timestamp : ℕ
  pub authority : Bytes

abbrev pub none_yet : Newest
none_yet = record { timestamp = 0; authority = [] }

-- `signing_time`: a time that is not positive counts as 1.
abbrev pub time_of : ℤ → ℕ
time_of (pos zero) = 1
time_of (pos (suc n)) = suc n
time_of (negsuc n) = 1

abbrev pub or_kept : Bytes → Option Bytes → Bytes
or_kept authority none = authority
or_kept authority (some dn) = dn

abbrev pub result_of : Newest → JcatResult
result_of newest = record {
  timestamp = pos newest.timestamp;
  authority = some newest.authority;
  engine = some (record { kind = pkcs7; method = signature });
}

-- The name of a certificate's file.
abbrev pub fn_cert : {World : Type 0} → Gio World → Bytes → Bool → Bytes
fn_cert gio keyring_path pq = gio.build_filename (
    keyring_path
    ∷ codes "pki"
    ∷ (if pq then codes "client-mldsa87.pem" else codes "client.pem")
    ∷ [])

module _ {World : Type 0} (tls : GnutlsX509 World) where
  open tls use {Crt, TrustList, Signatures}

  abbrev failed_for : Error → Option Bytes → Error
  failed_for e none = record e { message = codes "failed to verify data: " ++ e.message }
  failed_for e (some dn) = record e {
    message = codes "failed to verify data for %s: " ++ e.message;
    values = dn ∷ e.values;
  }

  -- The test of the return code of a verification, with the name of the issuer in the error.
  unfoldable pub verified : SignatureInfo → Reply (Unit {0}) × World → Result (Unit {0}) × World
  unfolding rc_to_error datum_to_dn_str
  verified info (gives _, w) = (ok tt, w)
  verified info (fails rc, w) =
      let (dn, v) = datum_to_dn_str tls info.issuer_dn w in
      (err (failed_for (rc_to_error tls rc) dn), v)

  -- "save details about the key for the result".
  unfoldable pub newer : SignatureInfo → Newest → World → Newest × World
  unfolding datum_to_dn_str
  newer info newest w =
      if ltb newest.timestamp (time_of info.signing_time)
      then (let (dn, v) = datum_to_dn_str tls info.issuer_dn w in
          (
            record {
              timestamp = time_of info.signing_time;
              authority = or_kept newest.authority dn;
            },
            v,
          ))
      else (newest, w)

  module _ (ends : (tl : TrustList) → Acc (Follows tls tl) none) (pqc : Bool) where
    -- The list of trusted certificates; `pqc` is HAVE_GNUTLS_PQC.
    unfoldable pub trusted : ℕ → List Crt → Action World TrustList
    unfolding build_trust_list build_trust_list_only_pq
    trusted flags pubkeys_crts =
        if has_flag flags only_pq
        then if pqc then build_trust_list_only_pq tls pubkeys_crts else fail too_old
        else build_trust_list tls pubkeys_crts

    -- "verify the data against the detached signature", by a certificate or the trust list.
    unfoldable pub verify_one :
        ℕ → List Crt → Option Crt → Signatures → ℕ → Bytes → SignatureInfo → Action World (Unit {0})
    unfolding trusted ensure_trust_list_valid verified
    verify_one flags pubkeys_crts (some crt) sigs i bytes info w =
        verified info
          (tls.pkcs7_verify_direct sigs crt i bytes (has_flag flags disable_time_checks) w)
    verify_one flags pubkeys_crts none sigs i bytes info w =
        (do
          tl ← trusted flags pubkeys_crts
          lift (ensure_trust_list_valid tls tl (ends tl))
          λ v.
              verified info
                (tls.pkcs7_verify sigs tl i bytes (has_flag flags disable_time_checks) v))
          w

    abbrev pub keep_newer : SignatureInfo → Newest → Action World Newest
    keep_newer info newest w = let (n, v) = newer info newest w in (ok n, v)

    -- The loop over the signatures: the index, and the number of turns left.
    unfoldable pub verify_each :
        ℕ → List Crt → Option Crt → Signatures → Bytes → ℕ → ℕ → Newest → Action World Newest
    unfolding verify_one newer
    verify_each flags pubkeys_crts crt sigs bytes i zero newest = pure newest
    verify_each flags pubkeys_crts crt sigs bytes i (suc rest) newest = do
      info ← lift (
          or_prefixed tls (codes "failed to get signature info: ")
            (tls.pkcs7_get_signature_info sigs i))
      verify_one flags pubkeys_crts crt sigs i bytes info
      newest ← keep_newer info newest
      verify_each flags pubkeys_crts crt sigs bytes (suc i) rest newest

    -- `jcat_gnutls_pkcs7_engine_verify`.
    unfoldable pub verify : List Crt → Bytes → Bytes → Option Crt → ℕ → Action World JcatResult
    unfolding verify_each
    verify pubkeys_crts blob blob_signature crt flags = do
      made ← call tls (codes "failed to init pkcs7: ") tls.pkcs7_init
      sigs ←
          call tls (codes "failed to import the PKCS7 signature: ")
            (tls.pkcs7_import made blob_signature)
      count ← lift (
          or_prefixed tls (codes "failed to get PKCS7 signature count: ")
            (tls.pkcs7_get_signature_count sigs))
      (if count == 0 then fail no_signatures else pure tt)
      newest ← verify_each flags pubkeys_crts crt sigs blob 0 count none_yet
      pure (result_of newest)

    module _ (cell : Cell World (List Crt)) where
      -- `jcat_gnutls_pkcs7_engine_pubkey_verify`.
      unfoldable pub class_pubkey_verify : Bytes → Bytes → ℕ → Action World JcatResult
      unfolding verify
      class_pubkey_verify blob blob_signature flags w =
          verify (cell.get w) blob blob_signature none flags w

      -- `jcat_gnutls_pkcs7_engine_self_verify`.
      unfoldable pub class_self_verify :
          Gio World → Bytes → Bytes → Bytes → ℕ → Action World JcatResult
      unfolding get_contents_bytes load_crt_from_blob ensure_sign_algo_pq_safe verify
      class_self_verify gio keyring_path blob blob_signature flags = do
        cert_blob ← get_contents_bytes gio (fn_cert gio keyring_path (has_flag flags only_pq))
        crt ← load_crt_from_blob tls cert_blob pem
        (if has_flag flags only_pq
            then ensure_sign_algo_pq_safe tls pqc (tls.x509_crt_get_signature_algorithm crt)
            else pure tt)
        λ w. verify (cell.get w) blob blob_signature (some crt) flags w

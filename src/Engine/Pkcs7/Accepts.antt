-- ===== src/Engine/Pkcs7/Accepts.antt =====
-- libjcat/jcat-gnutls-pkcs7-engine.c: when a PKCS-7 signature is accepted, and what the result says.
use mathlib.Core.WellFounded.{Acc}
use libjcat.Engine.Cell.{Cell}
use libjcat.Engine.Pkcs7.Errors.{or_prefixed, call}
use libjcat.Engine.Pkcs7.Interface.{GnutlsX509, gives}
use libjcat.Engine.Pkcs7.Signatures.{
  AllVerify, gives-of_ok, called-of_ok, lift-of_ok, verify_each-AllVerify, AllVerify-verify_each,
}
use libjcat.Engine.Pkcs7.TrustLists.{Follows}
use libjcat.Engine.Pkcs7.Verify.{
  Newest, none_yet, result_of, verify_each, no_signatures, verify, class_pubkey_verify,
}
use libjcat.Engine.Setup.{and_then-eq-ok}
use libjcat.Engine.{Action}
use libjcat.Prelude.{
  ℕ, zero, suc, Bool, false, Option, none, List, Bytes, codes, ok, ok-injective, ◌==◌, ◌≡◌, refl,
  sym, ap, ◌∙◌, ◌↔◌, arith, if◌then◌else◌,
}
use libjcat.Result.{JcatResult}
use libjcat.System.{fail, pure, lift, ◌>>=◌, ◌>>◌}

module _ {World : Type 0} (tls : GnutlsX509 World) where
  open tls use {Crt, TrustList, Signatures}

  suc_not_zero : (n : ℕ) → (suc n == 0) ≡ false
  suc_not_zero n = ground arith

  module _ (ends : (tl : TrustList) → Acc (Follows tls tl) none) (pqc : Bool) where
    -- What the verification of a signature finds where it succeeds.
    pub record AcceptsAll (flags : ℕ) (crts : List Crt) (crt : Option Crt)
        (blob blob_signature : Bytes) (r : JcatResult) (w u : World) : Type 0 where
      pub made : Signatures
      pub sigs : Signatures
      pub first : World
      pub second : World
      pub more : ℕ
      pub newest : Newest
      pub init_ok : tls.pkcs7_init w ≡ (gives made, first)
      pub import_ok : tls.pkcs7_import made blob_signature first ≡ (gives sigs, second)
      pub count_is : tls.pkcs7_get_signature_count sigs ≡ gives (suc more)
      pub all_verify :
          AllVerify tls ends pqc flags crts crt sigs blob 0 (suc more) none_yet second newest u
      pub result_is : r ≡ result_of newest

    -- What follows the count, the import and the initialization.
    abbrev looked : ℕ → List Crt → Option Crt → Bytes → Signatures → ℕ → Action World JcatResult
    looked flags crts crt blob sigs count = do
      (if count == 0 then fail no_signatures else pure tt)
      newest ← verify_each tls ends pqc flags crts crt sigs blob 0 count none_yet
      pure (result_of newest)

    abbrev counted : ℕ → List Crt → Option Crt → Bytes → Signatures → Action World JcatResult
    counted flags crts crt blob sigs = do
      count ← lift (
          or_prefixed tls (codes "failed to get PKCS7 signature count: ")
            (tls.pkcs7_get_signature_count sigs))
      looked flags crts crt blob sigs count

    abbrev imported :
        ℕ → List Crt → Option Crt → Bytes → Bytes → Signatures → Action World JcatResult
    imported flags crts crt blob blob_signature made = do
      sigs ←
          call tls (codes "failed to import the PKCS7 signature: ")
            (tls.pkcs7_import made blob_signature)
      counted flags crts crt blob sigs

    looked-of_ok :
        (flags : ℕ) (crts : List Crt) (crt : Option Crt) (blob : Bytes) (sigs : Signatures)
        (count : ℕ) (r : JcatResult) (w u : World)
        → looked flags crts crt blob sigs count w ≡ (ok r, u)
        → (more : ℕ) × (newest : Newest) × (count ≡ suc more)
          × (verify_each tls ends pqc flags crts crt sigs blob 0 (suc more) none_yet w
              ≡ (ok newest, u))
          × (r ≡ result_of newest)
    looked-of_ok flags crts crt blob sigs zero r w u h = absurd (cc (ap (λ q. q.0) h))
    looked-of_ok flags crts crt blob sigs (suc more) r w u h =
        let (newest, v, each, last) =
          and_then-eq-ok (verify_each tls ends pqc flags crts crt sigs blob 0 (suc more) none_yet w)
            (λ newest. pure (result_of newest)) (rw (suc_not_zero more) at h) in
        (
          more,
          newest,
          refl,
          each ∙ ap (λ x. (ok newest, x)) (ap (λ q. q.1) last),
          sym (ok-injective (ap (λ q. q.0) last)),
        )

    verify-AcceptsAll :
        (flags : ℕ) (crts : List Crt) (crt : Option Crt) (blob blob_signature : Bytes)
        (r : JcatResult) (w u : World)
        → verify tls ends pqc crts blob blob_signature crt flags w ≡ (ok r, u)
        → AcceptsAll flags crts crt blob blob_signature r w u
    unfolding verify
    verify-AcceptsAll flags crts crt blob blob_signature r w u h =
        let (made, first, init_ok, h1) =
          and_then-eq-ok (call tls (codes "failed to init pkcs7: ") tls.pkcs7_init w)
            (imported flags crts crt blob blob_signature) h in
        let (sigs, second, import_ok, h2) =
          and_then-eq-ok
            (call tls (codes "failed to import the PKCS7 signature: ")
              (tls.pkcs7_import made blob_signature) first)
            (counted flags crts crt blob) h1 in
        let (count, count_is, h3) =
          lift-of_ok tls
            (or_prefixed tls (codes "failed to get PKCS7 signature count: ")
              (tls.pkcs7_get_signature_count sigs))
            second (looked flags crts crt blob sigs) h2 in
        let (more, newest, count_suc, each, result_is) =
          looked-of_ok flags crts crt blob sigs count r second u h3 in
        record {
          made = made;
          sigs = sigs;
          first = first;
          second = second;
          more = more;
          newest = newest;
          init_ok = called-of_ok tls (codes "failed to init pkcs7: ") tls.pkcs7_init w init_ok;
          import_ok =
              called-of_ok tls (codes "failed to import the PKCS7 signature: ")
                (tls.pkcs7_import made blob_signature) first import_ok;
          count_is =
              gives-of_ok tls (codes "failed to get PKCS7 signature count: ")
                (tls.pkcs7_get_signature_count sigs) count_is
              ∙ ap gives count_suc;
          all_verify =
              verify_each-AllVerify tls ends pqc flags crts crt sigs blob 0 (suc more) none_yet
                newest second u each;
          result_is = result_is;
        }

    AcceptsAll-verify :
        (flags : ℕ) (crts : List Crt) (crt : Option Crt) (blob blob_signature : Bytes)
        (r : JcatResult) (w u : World)
        → AcceptsAll flags crts crt blob blob_signature r w u
        → verify tls ends pqc crts blob blob_signature crt flags w ≡ (ok r, u)
    unfolding verify
    AcceptsAll-verify flags crts crt blob blob_signature r w u a =
        rw
          (
            a.init_ok,
            a.import_ok,
            a.count_is,
            suc_not_zero a.more,
            AllVerify-verify_each tls ends pqc flags crts crt a.sigs blob 0 (suc a.more) none_yet
                a.newest a.second u a.all_verify,
            a.result_is,
          )
          refl

    -- PKCS-7 accepts a signature exactly if GnuTLS imports it, it has one or more signatures, each of them
    -- verifies by a trust list of the certificates of the engine, and the result is made of the newest.
    pub class_pubkey_verify-AcceptsAll_iff :
        (cell : Cell World (List Crt)) (flags : ℕ) (blob blob_signature : Bytes) (r : JcatResult)
        (w u : World)
        → (class_pubkey_verify tls ends pqc cell blob blob_signature flags w ≡ (ok r, u))
          ↔ AcceptsAll flags (cell.get w) none blob blob_signature r w u
    unfolding class_pubkey_verify
    class_pubkey_verify-AcceptsAll_iff cell flags blob blob_signature r w u = (
      verify-AcceptsAll flags (cell.get w) none blob blob_signature r w u,
      AcceptsAll-verify flags (cell.get w) none blob blob_signature r w u,
    )

-- ===== src/Engine/Libcrypto/Accepts.antt =====
-- libjcat/jcat-libcrypto-pkcs7-engine.c: when a PKCS-7 signature is accepted over OpenSSL, and which
-- flags have a say in it.
use mathlib.Core.Path.{fun_ext}
use libjcat.Engine.Cell.{Cell}
use libjcat.Engine.Libcrypto.Errors.{call, unchecked, effect}
use libjcat.Engine.Libcrypto.Interface.{Openssl}
use libjcat.Engine.Libcrypto.Signatures.{Looked, or_refuse-of_ok, look-Looked, Looked-look}
use libjcat.Engine.Libcrypto.Verify.{
  Newest, none_yet, result_of, disable_time_checks, cms_verify_cb, configure, check_cms, checked,
  look, some_signatures, class_pubkey_verify,
}
use libjcat.Engine.Setup.{and_then-eq-ok}
use libjcat.Engine.{Action, and_then}
use libjcat.Kind.{has_flag}
use libjcat.Prelude.{
  ℕ, Bool, true, false, Option, none, some, List, [], ◌∷◌, Bytes, codes, ok, ok-injective, ◌≡◌,
  refl, sym, ap, ◌∙◌, ◌↔◌,
}
use libjcat.Result.{JcatResult}
use libjcat.System.{pure, ◌>>=◌, ◌>>◌}

module _ {World : Type 0} (ssl : Openssl World) where
  open ssl use {Crt, Store, Cms, SignerInfo, Asn1Time, Tm, Name, Bio}

  -- The steps for the signatures of a structure.
  abbrev with_infos : Cms → Option Store → Option Bio → List SignerInfo → Action World JcatResult
  with_infos cms trust_store bio infos = do
    some_signatures ssl infos
    check_cms ssl cms none trust_store bio
    newest ← look ssl infos none_yet
    pure (result_of newest)

  checked-of_ok :
      (trust_store : Option Store) (p : Bool × World) {v : World}
      → checked ssl trust_store p ≡ (ok tt, v)
      → p ≡ (true, v)
  checked-of_ok trust_store (true, w) h = ap (λ x. (true, x)) (ap (λ q. q.1) h)
  checked-of_ok trust_store (false, w) h = absurd (cc (ap (λ q. q.0) h))

  check_cms-of_ok :
      (cms : Cms) (trust_store : Option Store) (bio : Option Bio) (w : World) {v : World}
      → check_cms ssl cms none trust_store bio w ≡ (ok tt, v)
      → ssl.cms_verify cms none trust_store bio w ≡ (true, v)
  unfolding check_cms
  check_cms-of_ok cms trust_store bio w h =
      checked-of_ok trust_store (ssl.cms_verify cms none trust_store bio w) h

  with_infos-of_ok :
      (cms : Cms) (trust_store : Option Store) (bio : Option Bio) (infos : List SignerInfo)
      (r : JcatResult) (w u : World)
      → with_infos cms trust_store bio infos w ≡ (ok r, u)
      → (info : SignerInfo) × (more : List SignerInfo) × (newest : Newest) × (v : World) × (infos
          ≡ info ∷ more)
        × (ssl.cms_verify cms none trust_store bio w ≡ (true, v))
        × Looked ssl (info ∷ more) none_yet v newest u
        × (r ≡ result_of newest)
  with_infos-of_ok cms trust_store bio [] r w u h = absurd (cc (ap (λ q. q.0) h))
  with_infos-of_ok cms trust_store bio (info ∷ more) r w u h =
      let last : Action World JcatResult =
        look ssl (info ∷ more) none_yet >>= (λ newest. pure (result_of newest)) in
      let (_, v, good, h1) =
        and_then-eq-ok (check_cms ssl cms none trust_store bio w) (λ _. last) h in
      let (newest, x, seen, h2) =
        and_then-eq-ok (look ssl (info ∷ more) none_yet v) (λ newest. pure (result_of newest)) h1 in
      (
        info,
        more,
        newest,
        v,
        refl,
        check_cms-of_ok cms trust_store bio w good,
        look-Looked ssl (info ∷ more) none_yet newest v u
            (seen ∙ ap (λ y. (ok newest, y)) (ap (λ q. q.1) h2)),
        sym (ok-injective (ap (λ q. q.0) h2)),
      )

  -- The steps behind the parsing, with the configuration of the store as an argument.
  abbrev rest_with :
      (Option Store → World → World) → Bytes → Cms → Option Store → Action World JcatResult
  rest_with configured blob cms trust_store = do
    effect ssl (configured trust_store)
    bio ← unchecked ssl (ssl.bio_new_mem_buf blob)
    with_infos cms trust_store bio (ssl.cms_get0_signer_infos cms)

  abbrev verify_with :
      (Option Store → World → World)
      → Cell World (Option Store)
      → Bytes
      → Bytes
      → Action World JcatResult
  verify_with configured cell blob blob_signature w =
      let (bio_signature, v) = ssl.bio_new_mem_buf blob_signature w in
      and_then
        (call ssl (codes "failed to parse PKCS7 signature: %s") (ssl.pem_read_bio_cms bio_signature)
          v)
        (λ cms u. rest_with configured blob cms (cell.get u) u)

  class_pubkey_verify-verify_with :
      (cell : Cell World (Option Store)) (blob blob_signature : Bytes) (flags : ℕ)
      → class_pubkey_verify ssl cell blob blob_signature flags
        ≡ verify_with (λ store. configure ssl store flags) cell blob blob_signature
  unfolding class_pubkey_verify
  class_pubkey_verify-verify_with cell blob blob_signature flags = refl

  configure-flags :
      (f g : ℕ) (store : Option Store)
      → has_flag f disable_time_checks ≡ has_flag g disable_time_checks
      → configure ssl store f ≡ configure ssl store g
  unfolding configure
  configure-flags f g store h =
      ap {B = World → World}
        (λ (b : Bool) (w : World). ssl.store_set_verify_cb store (cms_verify_cb ssl) (
          ssl.store_set_ex_data store none
            (ssl.store_set_no_check_time store b (ssl.store_set_purpose_any store w))))
        h

  -- JCAT_VERIFY_FLAG_ONLY_PQ has no say: with flags that agree in JCAT_VERIFY_FLAG_DISABLE_TIME_CHECKS,
  -- the engine does the same.
  pub class_pubkey_verify-flags :
      (cell : Cell World (Option Store)) (blob blob_signature : Bytes) (f g : ℕ)
      → has_flag f disable_time_checks ≡ has_flag g disable_time_checks
      → class_pubkey_verify ssl cell blob blob_signature f
        ≡ class_pubkey_verify ssl cell blob blob_signature g
  class_pubkey_verify-flags cell blob blob_signature f g h =
      class_pubkey_verify-verify_with cell blob blob_signature f
      ∙ ap (λ configured. verify_with configured cell blob blob_signature)
          (fun_ext (λ store. configure-flags f g store h))
      ∙ sym (class_pubkey_verify-verify_with cell blob blob_signature g)

  -- What the verification of a signature finds where it succeeds.
  pub record AcceptsCms (cell : Cell World (Option Store)) (flags : ℕ) (blob blob_signature : Bytes)
      (r : JcatResult) (w u : World) : Type 0 where
    pub cms : Cms
    pub info : SignerInfo
    pub infos : List SignerInfo
    pub newest : Newest
    pub parsed : World
    pub checked : World
    pub cms_is :
        ssl.pem_read_bio_cms
          (ssl.bio_new_mem_buf blob_signature w).0
          (ssl.bio_new_mem_buf blob_signature w).1
        ≡ (some cms, parsed)
    pub infos_are : ssl.cms_get0_signer_infos cms ≡ info ∷ infos
    pub verifies :
        (let (bio, ready) =
            ssl.bio_new_mem_buf blob (configure ssl (cell.get parsed) flags parsed) in
          ssl.cms_verify cms none (cell.get parsed) bio ready)
        ≡ (true, checked)
    pub looked : Looked ssl (info ∷ infos) none_yet checked newest u
    pub result_is : r ≡ result_of newest

  verify_with-AcceptsCms :
      (cell : Cell World (Option Store)) (flags : ℕ) (blob blob_signature : Bytes) (r : JcatResult)
      (w u : World)
      → verify_with (λ store. configure ssl store flags) cell blob blob_signature w ≡ (ok r, u)
      → AcceptsCms cell flags blob blob_signature r w u
  verify_with-AcceptsCms cell flags blob blob_signature r w u h =
      let (bio_signature, v) = ssl.bio_new_mem_buf blob_signature w in
      let (cms, parsed, parse, h1) =
        and_then-eq-ok
          (call ssl (codes "failed to parse PKCS7 signature: %s")
            (ssl.pem_read_bio_cms bio_signature) v)
          (λ cms x. rest_with (λ store. configure ssl store flags) blob cms (cell.get x) x) h in
      let (bio, ready) = ssl.bio_new_mem_buf blob (configure ssl (cell.get parsed) flags parsed) in
      let (info, infos, newest, checked, infos_are, verifies, looked, result_is) =
        with_infos-of_ok cms (cell.get parsed) bio (ssl.cms_get0_signer_infos cms) r ready u h1 in
      record {
        cms = cms;
        info = info;
        infos = infos;
        newest = newest;
        parsed = parsed;
        checked = checked;
        cms_is =
            or_refuse-of_ok ssl (codes "failed to parse PKCS7 signature: %s")
              (ssl.pem_read_bio_cms bio_signature v) parse;
        infos_are = infos_are;
        verifies = verifies;
        looked = looked;
        result_is = result_is;
      }

  AcceptsCms-verify_with :
      (cell : Cell World (Option Store)) (flags : ℕ) (blob blob_signature : Bytes) (r : JcatResult)
      (w u : World)
      → AcceptsCms cell flags blob blob_signature r w u
      → verify_with (λ store. configure ssl store flags) cell blob blob_signature w ≡ (ok r, u)
  unfolding check_cms
  AcceptsCms-verify_with cell flags blob blob_signature r w u a =
      let seen = Looked-look ssl (a.info ∷ a.infos) none_yet a.newest a.checked u a.looked in
      rw (a.cms_is, a.infos_are, a.verifies, seen, a.result_is) refl

  -- OpenSSL accepts a signature exactly if it parses, it has one or more signatures, CMS_verify succeeds
  -- with the store of the engine, every signature has a signing time that can be converted, and the
  -- issuer of each one that is later than all before it, starting from 1970, can be read; the result is
  -- made of the last one of these.
  pub class_pubkey_verify-AcceptsCms_iff :
      (cell : Cell World (Option Store)) (flags : ℕ) (blob blob_signature : Bytes) (r : JcatResult)
      (w u : World)
      → (class_pubkey_verify ssl cell blob blob_signature flags w ≡ (ok r, u))
        ↔ AcceptsCms cell flags blob blob_signature r w u
  class_pubkey_verify-AcceptsCms_iff cell flags blob blob_signature r w u =
      rw (ap (λ f. f w) (class_pubkey_verify-verify_with cell blob blob_signature flags)) (
        verify_with-AcceptsCms cell flags blob blob_signature r w u,
        AcceptsCms-verify_with cell flags blob blob_signature r w u,
      )

-- ===== src/Engine/Pkcs7/Signatures.antt =====
-- libjcat/jcat-gnutls-pkcs7-engine.c: the signatures of a structure, one after the other.
use mathlib.Core.Path.{ap₂}
use mathlib.Core.WellFounded.{Acc}
use libjcat.Engine.Pkcs7.Errors.{or_prefixed, call}
use libjcat.Engine.Pkcs7.Interface.{GnutlsX509, Call, Reply, gives, fails, SignatureInfo}
use libjcat.Engine.Pkcs7.TrustLists.{Follows, ensure_trust_list_valid}
use libjcat.Engine.Pkcs7.Verify.{
  Newest, verified, newer, trusted, verify_one, verify_each, keep_newer, disable_time_checks,
}
use libjcat.Engine.Setup.{and_then-eq-ok}
use libjcat.Engine.{Action, and_then}
use libjcat.Kind.{has_flag}
use libjcat.Prelude.{
  ℕ, zero, suc, Bool, Option, none, some, List, Bytes, codes, Result, ok, err, ok-injective, ◌≡◌,
  refl, sym, ap, ◌↔◌,
}
use libjcat.System.{◌>>=◌, ◌>>◌}

module _ {World : Type 0} (tls : GnutlsX509 World) where
  open tls use {Crt, TrustList, Signatures}

  pub gives-of_ok :
      {A : Type 0} (prefix : Bytes) (r : Reply A) {a : A}
      → or_prefixed tls prefix r ≡ ok a
      → r ≡ gives a
  gives-of_ok prefix (gives b) h = ap gives (ok-injective h)
  gives-of_ok prefix (fails rc) h = absurd (cc h)

  pub called-of_ok :
      {A : Type 0} (prefix : Bytes) (f : Call World A) (w : World) {a : A} {v : World}
      → call tls prefix f w ≡ (ok a, v)
      → f w ≡ (gives a, v)
  called-of_ok prefix f w {a} {v} h =
      ap₂ (λ x y. (x, y)) (gives-of_ok prefix (f w).0 (ap (λ q. q.0) h)) (ap (λ q. q.1) h)

  verified-of_ok :
      (info : SignatureInfo) (p : Reply (Unit {0}) × World) {v : World}
      → verified tls info p ≡ (ok tt, v)
      → p ≡ (gives tt, v)
  unfolding verified
  verified-of_ok info (gives _, w) h = ap (λ x. (gives tt, x)) (ap (λ q. q.1) h)
  verified-of_ok info (fails rc, w) h = absurd (cc (ap (λ q. q.0) h))

  pub lift-of_ok :
      {A B : Type 0} (r : Result A) (w : World) (next : A → Action World B) {b : B} {v : World}
      → and_then (r, w) next ≡ (ok b, v)
      → (a : A) × (r ≡ ok a) × (next a w ≡ (ok b, v))
  lift-of_ok (ok a) w next h = (a, refl, h)
  lift-of_ok (err e) w next h = absurd (cc (ap (λ q. q.0) h))

  module _ (ends : (tl : TrustList) → Acc (Follows tls tl) none) (pqc : Bool) where
    -- GnuTLS verifies the signature of an index: directly by a certificate, or by a list of trusted
    -- certificates that could be made from those of the engine and is not empty.
    abbrev pub SignatureVerifies :
        ℕ → List Crt → Option Crt → Signatures → ℕ → Bytes → World → World → Type 0
    SignatureVerifies flags crts (some crt) sigs i bytes w v =
        tls.pkcs7_verify_direct sigs crt i bytes (has_flag flags disable_time_checks) w
        ≡ (gives tt, v)
    SignatureVerifies flags crts none sigs i bytes w v =
        (tl : TrustList) × (x : World) × (trusted tls ends pqc flags crts w ≡ (ok tl, x))
        × (ensure_trust_list_valid tls tl (ends tl) ≡ ok tt)
        × (tls.pkcs7_verify sigs tl i bytes (has_flag flags disable_time_checks) x ≡ (gives tt, v))

    verify_one_iff :
        (flags : ℕ) (crts : List Crt) (crt : Option Crt) (sigs : Signatures) (i : ℕ) (bytes : Bytes)
        (info : SignatureInfo) (w v : World)
        → (verify_one tls ends pqc flags crts crt sigs i bytes info w ≡ (ok tt, v))
          ↔ SignatureVerifies flags crts crt sigs i bytes w v
    unfolding verify_one verified
    verify_one_iff flags crts (some crt) sigs i bytes info w v =
        (λ h. verified-of_ok info _ h, λ h. rw h refl)
    verify_one_iff flags crts none sigs i bytes info w v = (
      λ h.
          let (tl, x, built, later) = and_then-eq-ok (trusted tls ends pqc flags crts w) _ h in
          let (_, valid, last) = lift-of_ok (ensure_trust_list_valid tls tl (ends tl)) x _ later in
          (tl, x, built, valid, verified-of_ok info _ last),
      λ (tl, x, built, valid, good). rw (built, valid, good) refl,
    )

    -- Of so many signatures from an index on, each has its information and verifies, and the details of
    -- the newest are kept, from the state that the one before it leaves.
    pub data AllVerify (flags : ℕ) (crts : List Crt) (crt : Option Crt) (sigs : Signatures)
        (bytes : Bytes) : ℕ → ℕ → Newest → World → Newest → World → Type 0 where
      none_left : (i : ℕ) (n : Newest) (w : World) → AllVerify flags crts crt sigs bytes i 0 n w n w
      verifies :
          (i rest : ℕ) (info : SignatureInfo) (n kept m : Newest) (w v x u : World)
          → tls.pkcs7_get_signature_info sigs i ≡ gives info
          → SignatureVerifies flags crts crt sigs i bytes w v
          → newer tls info n v ≡ (kept, x)
          → AllVerify flags crts crt sigs bytes (suc i) rest kept x m u
          → AllVerify flags crts crt sigs bytes i (suc rest) n w m u

    pub verify_each-AllVerify :
        (flags : ℕ) (crts : List Crt) (crt : Option Crt) (sigs : Signatures) (bytes : Bytes)
        (i rest : ℕ) (n m : Newest) (w u : World)
        → verify_each tls ends pqc flags crts crt sigs bytes i rest n w ≡ (ok m, u)
        → AllVerify flags crts crt sigs bytes i rest n w m u
    unfolding verify_each
    verify_each-AllVerify flags crts crt sigs bytes i zero n m w u h =
        rw (sym (ok-injective (ap (λ q. q.0) h)), sym (ap (λ q. q.1) h)) (none_left i n w)
    verify_each-AllVerify flags crts crt sigs bytes i (suc rest) n m w u h =
        let rest_of : SignatureInfo → Action World Newest = λ info.
          keep_newer tls ends pqc info n
          >>= (λ m. verify_each tls ends pqc flags crts crt sigs bytes (suc i) rest m) in
        let one : SignatureInfo → Action World (Unit {0}) =
          λ info. verify_one tls ends pqc flags crts crt sigs i bytes info in
        let (info, told, later) =
          lift-of_ok
            (or_prefixed tls (codes "failed to get signature info: ")
              (tls.pkcs7_get_signature_info sigs i))
            w (λ info. one info >> rest_of info) h in
        let (_, v, good, last) = and_then-eq-ok (one info w) (λ _. rest_of info) later in
        verifies i rest info n (newer tls info n v).0 m w v (newer tls info n v).1 u
          (gives-of_ok (codes "failed to get signature info: ")
            (tls.pkcs7_get_signature_info sigs i) told)
          ((verify_one_iff flags crts crt sigs i bytes info w v).0 good) refl
          (verify_each-AllVerify flags crts crt sigs bytes (suc i) rest (newer tls info n v).0 m
            (newer tls info n v).1 u last)

    pub AllVerify-verify_each :
        (flags : ℕ) (crts : List Crt) (crt : Option Crt) (sigs : Signatures) (bytes : Bytes)
        (i rest : ℕ) (n m : Newest) (w u : World)
        → AllVerify flags crts crt sigs bytes i rest n w m u
        → verify_each tls ends pqc flags crts crt sigs bytes i rest n w ≡ (ok m, u)
    unfolding verify_each
    AllVerify-verify_each flags crts crt sigs bytes _ _ _ _ _ _ (none_left i n w) = refl
    AllVerify-verify_each flags crts crt sigs bytes _ _ _ _ _ _
          (verifies i rest info n kept m w v x u told good kept_is all) =
        rw (told, (verify_one_iff flags crts crt sigs i bytes info w v).1 good, kept_is)
          (AllVerify-verify_each flags crts crt sigs bytes (suc i) rest kept m x u all)

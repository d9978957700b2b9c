-- ===== src/Engine/Pkcs7/PublicKeys.antt =====
-- libjcat/jcat-gnutls-pkcs7-engine.c: which certificates the engine trusts.
use libjcat.Engine.Cell.{Cell}
use libjcat.Engine.Pkcs7.Certificates.{load_crt_from_blob}
use libjcat.Engine.Pkcs7.Class.{
  is_unsuitable, unsuitable, keep, add_pubkey_blob_fmt, class_add_public_key_raw,
}
use libjcat.Engine.Pkcs7.Errors.{or_prefixed}
use libjcat.Engine.Pkcs7.Interface.{GnutlsX509, gives, CrtFormat, pem}
use libjcat.Engine.Pkcs7.Signatures.{lift-of_ok, gives-of_ok}
use libjcat.Engine.Setup.{and_then-eq-ok}
use libjcat.Engine.{Action}
use libjcat.Prelude.{
  not, ◌&&◌, ◌⊎◌, arith, ℕ, Bool, true, false, List, [], ◌∷◌, ◌++◌, Bytes, codes, ok, ◌≡◌, refl,
  sym, ap, ◌↔◌, if◌then◌else◌,
}
use libjcat.System.{fail, pure, lift, ◌>>=◌, ◌>>◌}

neither_iff : (a b : Bool) → ((not a && not b) ≡ false) ↔ ((a ≡ true) ⊎ (b ≡ true))
neither_iff a b = ground arith

module _ {World : Type 0} (tls : GnutlsX509 World) (hex : ℕ → Bytes)
    (cell : Cell World (List tls.Crt)) where
  open tls use {Crt}

  -- The key usage allows signatures or certificates.
  abbrev pub IsSuitable : ℕ → Type 0
  IsSuitable usage = (tls.key_digital_signature usage ≡ true) ⊎ (tls.key_cert_sign usage ≡ true)

  is_unsuitable_iff : (usage : ℕ) → (is_unsuitable tls hex cell usage ≡ false) ↔ IsSuitable usage
  is_unsuitable_iff usage = neither_iff (tls.key_digital_signature usage) (tls.key_cert_sign usage)

  -- A certificate of some bytes that may sign is put behind those that are trusted, and nothing else changes
  -- once it is loaded.
  abbrev pub Trusts : Bytes → CrtFormat → World → World → Type 0
  Trusts blob format w v =
      (crt : Crt) × (usage : ℕ) × (u : World) × (load_crt_from_blob tls blob format w ≡ (ok crt, u))
      × (tls.x509_crt_get_key_usage crt ≡ gives usage)
      × IsSuitable usage
      × (v ≡ cell.set (cell.get u ++ crt ∷ []) u)

  suited :
      (b : Bool) (usage : ℕ) (crt : Crt) (w : World) {v : World}
      → ((if b then fail (unsuitable tls hex cell usage) else pure tt) >> keep tls hex cell crt) w
        ≡ (ok tt, v)
      → (b ≡ false) × (v ≡ cell.set (cell.get w ++ crt ∷ []) w)
  suited true usage crt w h = absurd (cc (ap (λ q. q.0) h))
  suited false usage crt w h = (refl, sym (ap (λ q. q.1) h))

  add_pubkey_blob_fmt-Trusts :
      (blob : Bytes) (format : CrtFormat) (w v : World)
      → add_pubkey_blob_fmt tls hex cell blob format w ≡ (ok tt, v)
      → Trusts blob format w v
  unfolding add_pubkey_blob_fmt
  add_pubkey_blob_fmt-Trusts blob format w v h =
      let used : Crt → ℕ → Action World (Unit {0}) = λ crt usage.
        (if is_unsuitable tls hex cell usage then fail (unsuitable tls hex cell usage) else pure tt)
        >> keep tls hex cell crt in
      let (crt, u, loaded, h1) =
        and_then-eq-ok (load_crt_from_blob tls blob format w)
          (λ crt x.
            (lift (
                  or_prefixed tls (codes "failed to get key usage: ")
                    (tls.x509_crt_get_key_usage crt))
                >>= used crt)
              x)
          h in
      let (usage, told, h2) =
        lift-of_ok tls
          (or_prefixed tls (codes "failed to get key usage: ") (tls.x509_crt_get_key_usage crt)) u
          (used crt) h1 in
      let (suitable, kept) = suited (is_unsuitable tls hex cell usage) usage crt u h2 in
      (
        crt,
        usage,
        u,
        loaded,
        gives-of_ok tls (codes "failed to get key usage: ") (tls.x509_crt_get_key_usage crt) told,
        (is_unsuitable_iff usage).0 suitable,
        kept,
      )

  -- A certificate is trusted exactly if it loads and its key usage allows signatures or certificates; it is
  -- then put behind those that are trusted.
  pub class_add_public_key_raw-Trusts_iff :
      (blob : Bytes) (w v : World)
      → (class_add_public_key_raw tls hex cell blob w ≡ (ok tt, v)) ↔ Trusts blob pem w v
  unfolding class_add_public_key_raw add_pubkey_blob_fmt
  class_add_public_key_raw-Trusts_iff blob w v = (
    add_pubkey_blob_fmt-Trusts blob pem w v,
    λ (crt, usage, u, loaded, told, suitable, kept).
        rw (loaded, told, (is_unsuitable_iff usage).1 suitable, kept) refl,
  )

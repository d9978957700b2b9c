-- ===== src/Engine/Ed25519/OwnKeys.antt =====
-- libjcat/jcat-gnutls-ed25519-engine.c: what `jcat_gnutls_ed25519_engine_self_sign` makes with a key pair
-- that it has generated, `jcat_gnutls_ed25519_engine_self_verify` accepts.
use mathlib.Core.Path.{subst}
use libjcat.Blob.{JcatBlob, new}
use libjcat.Engine.Cell.{or_error}
use libjcat.Engine.Ed25519.Interface.{Gnutls}
use libjcat.Engine.Ed25519.Keys.{pubkey_to_bytes, privkey_to_bytes, new_pubkey, new_privkey}
use libjcat.Engine.Ed25519.Signing.{
  fn_privkey, fn_pubkey, signed_blob, sign_data, generate, key_pair, class_self_sign,
}
use libjcat.Engine.Ed25519.Verify.{verified, class_self_verify}
use libjcat.Engine.Setup.{and_then-eq-ok}
use libjcat.Engine.{Action}
use libjcat.Prelude.{
  ℕ, false, some, List, [], Bytes, codes, Code, Result, failed, invalid_data, pos, ok, err,
  ok-injective, ◌≡◌, ◌⊎◌, inl, inr, Error, refl, sym, ap, ◌∙◌,
}
use libjcat.System.Contents.{set_contents_bytes, mkdir_parent}
use libjcat.System.Kept.{set_contents_bytes-Reads_other, set_contents_bytes-Reads_same}
use libjcat.System.Laws.{GioLaws, Reads, AreSeparate}
use libjcat.System.{Gio, pure, lift, ◌>>=◌, ◌>>◌}

-- What is documented of GnuTLS's keys.
pub record KeyLaws {World : Type 0} (tls : Gnutls World) : Type 1 where
  pub import-export :
      (pubkey : tls.Pubkey) {blob : Bytes}
      → tls.pubkey_export_ecc_raw pubkey ≡ ok blob
      → tls.pubkey_import_ecc_raw blob ≡ ok pubkey
  pub verify-sign :
      (privkey : tls.Privkey) {pubkey : tls.Pubkey} (bytes : Bytes) {sig : Bytes}
      → tls.pubkey_import_privkey privkey ≡ ok pubkey
      → tls.privkey_sign_data2 privkey bytes ≡ ok sig
      → tls.pubkey_verify_data2 pubkey bytes sig ≡ pos 0

explained-of_ok :
    {World A : Type 0} (code : Code) (message : Bytes) (values : List Bytes) (r : Result A)
    (w : World) {a : A} {v : World}
    → or_error code message values (λ (x : World). (r, w)) w ≡ (ok a, v)
    → ◌≡◌ {A = Result A × World} (r, w) (ok a, v)
explained-of_ok code message values (ok b) w h = h
explained-of_ok code message values (err e) w h = absurd (cc (ap (λ q. q.0) h))

or_error-of_ok :
    {World A : Type 0} (code : Code) (message : Bytes) (values : List Bytes)
    (action : Action World A) (w : World) {a : A} {v : World}
    → or_error code message values action w ≡ (ok a, v)
    → action w ≡ (ok a, v)
or_error-of_ok code message values action w h =
    explained-of_ok code message values (action w).0 (action w).1 h

module _ {World : Type 0} (gio : Gio World) (laws : GioLaws gio) where
  module _ (tls : Gnutls World) (real_time : World → ℕ) (keyring_path : Bytes) where
    open tls use {Pubkey, Privkey}

    -- What a generated private key has left on the disk.
    abbrev IsStored : Privkey → World → Type 0
    IsStored privkey v =
        (pubkey : Pubkey) × (blob : Bytes) × (tls.pubkey_import_privkey privkey ≡ ok pubkey)
        × (tls.pubkey_export_ecc_raw pubkey ≡ ok blob)
        × Reads gio (fn_pubkey gio keyring_path) blob v

    -- The steps of the generation behind the key, the public key, its bytes, and its file.
    abbrev privkey_saved : Privkey → Action World Privkey
    privkey_saved privkey = do
      blob_privkey ← privkey_to_bytes tls privkey
      set_contents_bytes gio (fn_privkey gio keyring_path) blob_privkey 384
      pure privkey

    abbrev pubkey_saved : Privkey → Bytes → Action World Privkey
    pubkey_saved privkey blob_pubkey = do
      set_contents_bytes gio (fn_pubkey gio keyring_path) blob_pubkey 438
      privkey_saved privkey

    abbrev both_saved : Privkey → Pubkey → Action World Privkey
    both_saved privkey pubkey = do
      mkdir_parent gio (fn_privkey gio keyring_path)
      blob_pubkey ← pubkey_to_bytes tls pubkey
      pubkey_saved privkey blob_pubkey

    abbrev derived : Privkey → Action World Privkey
    derived privkey = do
      pubkey ←
          or_error failed (codes "unable to import pubkey from privkey: %s") []
            (lift (tls.pubkey_import_privkey privkey))
      both_saved privkey pubkey

    privkey_saved-Reads :
        (privkey made : Privkey) (blob : Bytes) (w v : World)
        → AreSeparate gio (fn_privkey gio keyring_path) (fn_pubkey gio keyring_path)
        → privkey_saved privkey w ≡ (ok made, v)
        → Reads gio (fn_pubkey gio keyring_path) blob w
        → (privkey ≡ made) × Reads gio (fn_pubkey gio keyring_path) blob v
    unfolding privkey_to_bytes
    privkey_saved-Reads privkey made blob w v differ h before =
        let saved : Bytes → Action World Privkey = λ blob_privkey.
          set_contents_bytes gio (fn_privkey gio keyring_path) blob_privkey 384 >> pure privkey in
        let (blob_privkey, a, exported, h1) =
          and_then-eq-ok (privkey_to_bytes tls privkey w) saved h in
        let (_, b, stored, h2) =
          and_then-eq-ok (set_contents_bytes gio (fn_privkey gio keyring_path) blob_privkey 384 a)
            (λ _. pure privkey) h1 in
        let fn = fn_pubkey gio keyring_path in
        let at_a : Reads gio fn blob a =
          subst (Reads gio fn blob) (ap (λ q. q.1) exported) before in
        let at_b =
          set_contents_bytes-Reads_other gio laws (fn_privkey gio keyring_path) fn blob_privkey blob
            384 a b differ stored at_a in
        (ok-injective (ap (λ q. q.0) h2), subst (Reads gio fn blob) (ap (λ q. q.1) h2) at_b)

    pubkey_to_bytes-of_ok :
        (pubkey : Pubkey) (w : World) {blob : Bytes} {v : World}
        → pubkey_to_bytes tls pubkey w ≡ (ok blob, v)
        → tls.pubkey_export_ecc_raw pubkey ≡ ok blob
    unfolding pubkey_to_bytes
    pubkey_to_bytes-of_ok pubkey w h =
        ap (λ q. q.0)
          (or_error-of_ok failed (codes "unable to export pubkey: %s") []
            (lift (tls.pubkey_export_ecc_raw pubkey)) w h)

    generate-IsStored :
        (w : World) {privkey : Privkey} {v : World}
        → AreSeparate gio (fn_privkey gio keyring_path) (fn_pubkey gio keyring_path)
        → generate tls real_time gio keyring_path w ≡ (ok privkey, v)
        → IsStored privkey v
    unfolding generate
    generate-IsStored w {privkey} {v} differ h =
        let (key, a, _, h1) =
          and_then-eq-ok
            (or_error invalid_data (codes "failed to generate private key: %s [%i]") []
              tls.privkey_generate2 w)
            derived h in
        let (pubkey, b, imported, h2) =
          and_then-eq-ok
            (or_error failed (codes "unable to import pubkey from privkey: %s") []
              (lift (tls.pubkey_import_privkey key)) a)
            (both_saved key) h1 in
        let (_, c, _, h3) =
          and_then-eq-ok (mkdir_parent gio (fn_privkey gio keyring_path) b)
            (λ _. pubkey_to_bytes tls pubkey >>= pubkey_saved key) h2 in
        let (blob, d, exported, h4) =
          and_then-eq-ok (pubkey_to_bytes tls pubkey c) (pubkey_saved key) h3 in
        let (_, e, stored, h5) =
          and_then-eq-ok (set_contents_bytes gio (fn_pubkey gio keyring_path) blob 438 d)
            (λ _. privkey_saved key) h4 in
        let back =
          set_contents_bytes-Reads_same gio laws (fn_pubkey gio keyring_path) blob 438 d e refl
            stored in
        let (same, reads) = privkey_saved-Reads key privkey blob e v differ h5 back in
        let imported_is =
          ap (λ q. q.0)
            (or_error-of_ok failed (codes "unable to import pubkey from privkey: %s") []
              (lift (tls.pubkey_import_privkey key)) a imported) in
        (
          pubkey,
          blob,
          ap tls.pubkey_import_privkey (sym same) ∙ imported_is,
          pubkey_to_bytes-of_ok pubkey c exported,
          reads,
        )

    -- The public key is read, and a signature is accepted if an empty key can be allocated for it; if
    -- not, that is the error.
    abbrev pub VerifiesOrFails : Bytes → Bytes → ℕ → World → Type 0
    VerifiesOrFails bytes sig flags v =
        (public : Bytes) × (x : World) × (gio.get_contents (fn_pubkey gio keyring_path) v
          ≡ (ok public, x))
        × (((u : World) × (tls.pubkey_init x ≡ (ok tt, u))
              × (class_self_verify tls gio keyring_path real_time bytes sig flags v
                  ≡ (ok verified, u)))
            ⊎ ((e : Error) × (u : World) × (tls.pubkey_init x ≡ (err e, u))))

    Ran-cases :
        (p : Result (Unit {0}) × World)
        → ((u : World) × (p ≡ (ok tt, u))) ⊎ ((e : Error) × (u : World) × (p ≡ (err e, u)))
    Ran-cases (ok _, u) = inl (u, refl)
    Ran-cases (err e, u) = inr (e, u, refl)

    -- What was signed with a stored key is accepted.
    IsStored-class_self_verify :
        (privkey : Privkey) (bytes sig : Bytes) (flags : ℕ) (v : World)
        → KeyLaws tls
        → IsStored privkey v
        → tls.privkey_sign_data2 privkey bytes ≡ ok sig
        → VerifiesOrFails bytes sig flags v
    unfolding class_self_verify
    IsStored-class_self_verify privkey bytes sig flags v key
          (pubkey, blob, imported, exported, (x, read)) signed =
        (
          blob,
          x,
          read,
          elim (Ran-cases (tls.pubkey_init x)) [
            | inl (u, alloc) ↦ inl (
              u,
              alloc,
              rw
                  (
                    read,
                    alloc,
                    key.import-export pubkey exported,
                    key.verify-sign privkey bytes imported signed,
                  )
                  refl,
            )
            | inr failing ↦ inr failing
          ],
        )

    sign_data-of_ok :
        (privkey : Privkey) (bytes : Bytes) (w : World) {blob : JcatBlob} {v : World}
        → sign_data tls real_time privkey bytes w ≡ (ok blob, v)
        → (sig : Bytes) × (blob.data_bytes ≡ some sig)
          × (tls.privkey_sign_data2 privkey bytes ≡ ok sig)
          × (w ≡ v)
    unfolding sign_data new
    sign_data-of_ok privkey bytes w {blob} {v} h =
        let (sig, d, signed, h1) =
          and_then-eq-ok
            (or_error failed (codes "unable to sign data: %s") []
              (lift (tls.privkey_sign_data2 privkey bytes)) w)
            (signed_blob tls real_time) h in
        let plain =
          or_error-of_ok failed (codes "unable to sign data: %s") []
            (lift (tls.privkey_sign_data2 privkey bytes)) w signed in
        (
          sig,
          ap (λ (b : JcatBlob). b.data_bytes) (sym (ok-injective (ap (λ q. q.0) h1))),
          ap (λ q. q.0) plain,
          ap (λ q. q.1) plain ∙ ap (λ q. q.1) h1,
        )

    key_pair-generate :
        (w : World) {privkey : Privkey} {v : World}
        → gio.exists (fn_privkey gio keyring_path) w ≡ false
        → key_pair tls real_time gio keyring_path w ≡ (ok privkey, v)
        → generate tls real_time gio keyring_path w ≡ (ok privkey, v)
    unfolding key_pair
    key_pair-generate w missing h = rw missing at h

    -- With the laws of GIO and of GnuTLS: where the private key of the engine does not exist, its two
    -- files are separate and the empty keys of the signing could be allocated, a blob that
    -- `jcat_gnutls_ed25519_engine_self_sign` makes holds a signature, and the file of the public key
    -- can be read; `jcat_gnutls_ed25519_engine_self_verify` accepts the signature for the same data,
    -- unless no empty key can be allocated.
    pub class_self_verify-class_self_sign :
        (bytes : Bytes) (flags verify_flags : ℕ) (blob : JcatBlob) (w a b v : World)
        → KeyLaws tls
        → AreSeparate gio (fn_privkey gio keyring_path) (fn_pubkey gio keyring_path)
        → new_privkey tls w ≡ (ok tt, a)
        → new_pubkey tls a ≡ (ok tt, b)
        → gio.exists (fn_privkey gio keyring_path) b ≡ false
        → class_self_sign tls real_time gio keyring_path bytes flags w ≡ (ok blob, v)
        → (sig : Bytes) × (blob.data_bytes ≡ some sig) × VerifiesOrFails bytes sig verify_flags v
    unfolding class_self_sign
    class_self_verify-class_self_sign bytes flags verify_flags blob w a b v key differ first second
          missing h =
        let signing : Privkey → Action World JcatBlob =
          λ privkey. sign_data tls real_time privkey bytes in
        let (privkey, c, made, h1) =
          and_then-eq-ok (key_pair tls real_time gio keyring_path b) signing
            (rw (first, second) at h) in
        let stored = generate-IsStored b differ (key_pair-generate b missing made) in
        let (sig, data_is, signed, same) = sign_data-of_ok privkey bytes c h1 in
        (
          sig,
          data_is,
          IsStored-class_self_verify privkey bytes sig verify_flags v key
              (subst (IsStored privkey) same stored) signed,
        )

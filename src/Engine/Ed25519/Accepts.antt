-- ===== src/Engine/Ed25519/Accepts.antt =====
-- libjcat/jcat-gnutls-ed25519-engine.c: which signatures the engine accepts.
use libjcat.Engine.Cell.{Cell, CellLaws}
use libjcat.Engine.Ed25519.Interface.{Gnutls}
use libjcat.Engine.Ed25519.Keys.{pubkey_from_bytes, new_pubkey, class_add_public_key_raw}
use libjcat.Engine.Ed25519.Verify.{
  is_success, verified, verify_any, verify_keys, class_pubkey_verify,
}
use libjcat.Engine.Setup.{and_then-eq-ok}
use libjcat.Prelude.{
  ℕ, Any, true, Bool-cases, List, [], ◌∷◌, ◌++◌, Bytes, ℤ, pos, negsuc, ok, ◌≡◌, refl, sym, ap, ◌∙◌,
  ◌↔◌, inl, inr, arith,
}
use libjcat.System.{Gio}

is_success_iff : (rc : ℤ) → (is_success rc ≡ true) ↔ (rc ≡ pos 0)
is_success_iff (pos n) = ground arith
is_success_iff (negsuc n) = ground arith

module _ {World : Type 0} (tls : Gnutls World) where
  open tls use {Pubkey}

  -- The signature is good for some of the keys.
  abbrev pub VerifiedBy : Bytes → Bytes → List Pubkey → Type 0
  VerifiedBy bytes sig = Any (λ pubkey. tls.pubkey_verify_data2 pubkey bytes sig ≡ pos 0)

  verify_any_iff :
      (bytes sig : Bytes) (pubkeys : List Pubkey)
      → (verify_any tls bytes sig pubkeys ≡ ok verified) ↔ VerifiedBy bytes sig pubkeys
  unfolding verify_any
  verify_any_iff bytes sig [] = (λ h. cc h, λ h. absurd h)
  verify_any_iff bytes sig (pubkey ∷ pubkeys) =
      let (there, back) = verify_any_iff bytes sig pubkeys in
      let rc = tls.pubkey_verify_data2 pubkey bytes sig in
      let (zero_code, success) = is_success_iff rc in
      elim (Bool-cases (is_success rc)) [
        | inl good ↦ (λ h. inl (zero_code good), λ h. rw (good, verify_any) refl)
        | inr bad ↦ (
          λ h. inr (there (rw (bad, verify_any) at h)),
          elim [
            | inl now ↦ absurd (cc (sym bad ∙ success now))
            | inr later ↦ rw (bad, verify_any) (back later)
          ],
        )
      ]

  verify_keys_iff :
      (bytes sig : Bytes) (pubkeys : List Pubkey)
      → (verify_keys tls bytes sig pubkeys ≡ ok verified) ↔ VerifiedBy bytes sig pubkeys
  unfolding verify_keys
  verify_keys_iff bytes sig [] = (λ h. cc h, λ h. absurd h)
  verify_keys_iff bytes sig (pubkey ∷ pubkeys) = verify_any_iff bytes sig (pubkey ∷ pubkeys)

  Any-last :
      (bytes sig : Bytes) (pubkeys : List Pubkey) (pubkey : Pubkey)
      → tls.pubkey_verify_data2 pubkey bytes sig ≡ pos 0
      → VerifiedBy bytes sig (pubkeys ++ pubkey ∷ [])
  Any-last bytes sig [] pubkey h = inl h
  Any-last bytes sig (first ∷ pubkeys) pubkey h = inr (Any-last bytes sig pubkeys pubkey h)

  module _ (gio : Gio World) (keyring_path : Bytes) (real_time : World → ℕ)
      (cell : Cell World (List Pubkey)) where
    -- The engine accepts a signature exactly if GnuTLS returns 0 for one of the engine's public keys.
    pub class_pubkey_verify-VerifiedBy_iff :
        (bytes sig : Bytes) (flags : ℕ) (w : World)
        → (class_pubkey_verify tls gio keyring_path real_time cell bytes sig flags w
            ≡ (ok verified, w))
          ↔ VerifiedBy bytes sig (cell.get w)
    unfolding class_pubkey_verify
    class_pubkey_verify-VerifiedBy_iff bytes sig flags w =
        let (there, back) = verify_keys_iff bytes sig (cell.get w) in
        (λ h. there (ap (λ p. p.0) h), λ h. rw (back h) refl)

    -- A key that was added is used: after a public key has been added from bytes that GnuTLS reads as a
    -- key, a signature that is good for this key is accepted.
    pub class_pubkey_verify-class_add_public_key_raw :
        (blob bytes sig : Bytes) (pubkey : Pubkey) (flags : ℕ) (w u : World)
        → CellLaws cell
        → tls.pubkey_import_ecc_raw blob ≡ ok pubkey
        → class_add_public_key_raw tls cell blob w ≡ (ok tt, u)
        → tls.pubkey_verify_data2 pubkey bytes sig ≡ pos 0
        → class_pubkey_verify tls gio keyring_path real_time cell bytes sig flags u
          ≡ (ok verified, u)
    unfolding class_add_public_key_raw pubkey_from_bytes
    class_pubkey_verify-class_add_public_key_raw blob bytes sig pubkey flags w u laws read added
          good =
        let (_, v, init, later) = and_then-eq-ok (new_pubkey tls w) _ added in
        let stored = rw read at later in
        let keys : cell.get u ≡ cell.get v ++ pubkey ∷ [] =
          ap cell.get (sym (ap (λ p. p.1) stored)) ∙ laws.get-set (cell.get v ++ pubkey ∷ []) v in
        (class_pubkey_verify-VerifiedBy_iff bytes sig flags u).1
          (rw keys (Any-last bytes sig (cell.get v) pubkey good))

-- ===== src/Examples/Ed25519.antt =====
-- The engine for ED25519 over a toy library: a key is one byte, and a signature is the key in front
-- of the data.
use libjcat.Blob.{JcatBlob, new}
use libjcat.Kind.{ed25519}
use libjcat.Engine.Cell.{Cell, CellLaws}
use libjcat.Engine.Ed25519.Accepts.{
  VerifiedBy, class_pubkey_verify-VerifiedBy_iff, class_pubkey_verify-class_add_public_key_raw,
}
use libjcat.Engine.Ed25519.Interface.{Gnutls}
use libjcat.Engine.Ed25519.Keys.{class_add_public_key_raw}
use libjcat.Engine.Ed25519.OwnKeys.{KeyLaws, VerifiesOrFails, class_self_verify-class_self_sign}
use libjcat.Engine.Ed25519.Signing.{class_self_sign}
use libjcat.Engine.Ed25519.Verify
use libjcat.Engine.Ed25519.Verify.{verified}
use libjcat.Examples.Disk.{empty_disk}
use libjcat.Prelude.{
  false, beq_iff, ok-injective, sym, ap, some, ◌∙◌, ℕ, [], ◌∷◌, Bytes, codes, beq, failed, pos,
  negsuc, Error, Result, ok, err, ◌≡◌, refl, ◌↔◌, if◌then◌else◌,
}
use libjcat.System.Memory.{Disk, memory, memory_laws, memory-AreSeparate}
use libjcat.System.{pure}

abbrev refused : Error
refused = record { code = failed; message = codes "refused"; values = [] }

abbrev one_byte : Bytes → Result ℕ
one_byte (key ∷ []) = ok key
one_byte _ = err refused

abbrev toy_gnutls : Gnutls Disk
toy_gnutls = record {
  Pubkey = ℕ;
  Privkey = ℕ;
  pubkey_init = pure tt;
  privkey_init = pure tt;
  pubkey_import_ecc_raw = one_byte;
  privkey_import_ecc_raw = λ public private. one_byte private;
  pubkey_export_ecc_raw = λ key. ok (key ∷ []);
  privkey_export_ecc_raw2 = λ key. ok (key ∷ []);
  privkey_generate2 = pure 7;
  pubkey_import_privkey = ok;
  privkey_sign_data2 = λ key bytes. ok (key ∷ bytes);
  pubkey_verify_data2 = λ key bytes sig. if beq sig (key ∷ bytes) then pos 0 else negsuc 3;
  strerror = λ rc. [];
}

abbrev key_cell : Cell Disk Bytes
key_cell = record { get = λ w. w.kept; set = λ keys w. record w { kept = keys } }

key_cell_laws : CellLaws key_cell
key_cell_laws = record { get-set = λ keys w. refl }

abbrev time_of : Disk → ℕ
time_of w = 5

abbrev with_keys : Bytes → Disk
with_keys keys = record empty_disk { kept = keys }

class_pubkey_verify-VerifiedBy_iff_example :
    (Verify.class_pubkey_verify toy_gnutls memory [] time_of key_cell
        (codes "ab")
        (9 ∷ codes "ab")
        0
        (with_keys (3 ∷ 9 ∷ []))
      ≡ (ok verified, with_keys (3 ∷ 9 ∷ [])))
    ↔ VerifiedBy toy_gnutls (codes "ab") (9 ∷ codes "ab") (3 ∷ 9 ∷ [])
class_pubkey_verify-VerifiedBy_iff_example =
    class_pubkey_verify-VerifiedBy_iff toy_gnutls memory [] time_of key_cell (codes "ab")
      (9 ∷ codes "ab") 0 (with_keys (3 ∷ 9 ∷ []))

key_added :
    class_add_public_key_raw toy_gnutls key_cell (9 ∷ []) (with_keys (3 ∷ []))
    ≡ (ok tt, with_keys (3 ∷ 9 ∷ []))
unfolding class_add_public_key_raw
key_added = refl

class_pubkey_verify-class_add_public_key_raw_example :
    Verify.class_pubkey_verify toy_gnutls memory [] time_of key_cell
      (codes "ab")
      (9 ∷ codes "ab")
      0
      (with_keys (3 ∷ 9 ∷ []))
    ≡ (ok verified, with_keys (3 ∷ 9 ∷ []))
class_pubkey_verify-class_add_public_key_raw_example =
    class_pubkey_verify-class_add_public_key_raw toy_gnutls memory [] time_of key_cell (9 ∷ [])
      (codes "ab") (9 ∷ codes "ab") 9 0 (with_keys (3 ∷ [])) (with_keys (3 ∷ 9 ∷ [])) key_cell_laws
      refl key_added refl

key_laws : KeyLaws toy_gnutls
key_laws = record {
  import-export = λ pubkey {blob} h. rw (sym (ok-injective h)) refl;
  verify-sign = λ privkey {pubkey} bytes {sig} derived signed.
      let same : sig ≡ pubkey ∷ bytes =
        sym (ok-injective signed) ∙ ap (λ k. k ∷ bytes) (ok-injective derived) in
      rw ((beq_iff sig (pubkey ∷ bytes)).1 same) refl;
}

-- The disk with the key pair that the first signature generates.
abbrev signed_once : Disk
signed_once = record empty_disk {
  files =
      record { name = codes "k/pki/secret.ed25519"; contents = 7 ∷ [] }
      ∷ record { name = codes "k/pki/public.ed25519"; contents = 7 ∷ [] }
      ∷ [];
}

abbrev own_blob : JcatBlob
unfolding new
own_blob = new 5 ed25519 (7 ∷ codes "ab")

self_signed :
    class_self_sign toy_gnutls time_of memory (codes "k") (codes "ab") 0 empty_disk
    ≡ (ok own_blob, signed_once)
unfolding class_self_sign own_blob
self_signed = refl

different : beq (codes "k/pki/secret.ed25519") (codes "k/pki/public.ed25519") ≡ false
different = refl

class_self_verify-class_self_sign_example :
    (sig : Bytes) × (own_blob.data_bytes ≡ some sig)
    × VerifiesOrFails memory memory_laws toy_gnutls time_of
        (codes "k")
        (codes "ab")
        sig
        0
        signed_once
class_self_verify-class_self_sign_example =
    class_self_verify-class_self_sign memory memory_laws toy_gnutls time_of (codes "k") (codes "ab")
      0 0 own_blob empty_disk empty_disk empty_disk signed_once key_laws
      (memory-AreSeparate (codes "k/pki/secret.ed25519") (codes "k/pki/public.ed25519") (λ e.
        absurd (
          cc (
            sym different
            ∙ (beq_iff (codes "k/pki/secret.ed25519") (codes "k/pki/public.ed25519")).1 e))))
      refl refl refl self_signed

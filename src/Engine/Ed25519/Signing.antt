-- ===== src/Engine/Ed25519/Signing.antt =====
-- libjcat/jcat-gnutls-ed25519-engine.c: `jcat_gnutls_ed25519_engine_pubkey_sign` and
-- `jcat_gnutls_ed25519_engine_self_sign`.
use libjcat.Blob.{JcatBlob, new}
use libjcat.Engine.Cell.{or_error}
use libjcat.Engine.Ed25519.Interface.{Gnutls}
use libjcat.Engine.Ed25519.Keys.{
  pubkey_to_bytes, pubkey_from_bytes, privkey_to_bytes, privkey_from_bytes, new_pubkey, new_privkey,
}
use libjcat.Engine.{Action}
use libjcat.Kind.{ed25519}
use libjcat.Prelude.{
  ℕ, not, [], ◌∷◌, Bytes, codes, failed, invalid_data, invalid_argument, Error, ok, err, length,
  ◌==◌, if◌then◌else◌,
}
use libjcat.System.Contents.{get_contents_bytes, set_contents_bytes, mkdir_parent}
use libjcat.System.{Gio, pure, lift, ◌>>=◌, ◌>>◌}

abbrev nothing_to_do : Error
nothing_to_do = record { code = invalid_argument; message = codes "nothing to do"; values = [] }

-- The files of the engine's own key pair.
module _ {World : Type 0} (gio : Gio World) (keyring_path : Bytes) where
  abbrev pub fn_privkey : Bytes
  fn_privkey = gio.build_filename (keyring_path ∷ codes "pki" ∷ codes "secret.ed25519" ∷ [])

  abbrev pub fn_pubkey : Bytes
  fn_pubkey = gio.build_filename (keyring_path ∷ codes "pki" ∷ codes "public.ed25519" ∷ [])

module _ {World : Type 0} (tls : Gnutls World) (real_time : World → ℕ) where
  open tls use {Pubkey, Privkey}

  -- The blob of a signature.
  abbrev pub signed_blob : Bytes → Action World JcatBlob
  unfolding new
  signed_blob sig w = (ok (new (real_time w) ed25519 sig), w)

  -- The end of both functions.
  unfoldable pub sign_data : Privkey → Bytes → Action World JcatBlob
  unfolding new
  sign_data privkey bytes = do
    sig ←
        or_error failed (codes "unable to sign data: %s") []
          (lift (tls.privkey_sign_data2 privkey bytes))
    signed_blob sig

  -- `jcat_gnutls_ed25519_engine_pubkey_sign`.
  unfoldable pub class_pubkey_sign : Bytes → Bytes → Bytes → ℕ → Action World JcatBlob
  unfolding privkey_from_bytes sign_data
  class_pubkey_sign bytes blob_cert blob_privkey flags w =
      if length bytes == 0
      then (err nothing_to_do, w)
      else (do
        new_privkey tls
        privkey ← privkey_from_bytes tls blob_cert blob_privkey
        sign_data privkey bytes)
          w

  module _ (gio : Gio World) (keyring_path : Bytes) where
    -- "generate and save".
    unfoldable pub generate : Action World Privkey
    unfolding pubkey_to_bytes privkey_to_bytes mkdir_parent set_contents_bytes
    generate = do
      privkey ←
          or_error invalid_data (codes "failed to generate private key: %s [%i]") []
            tls.privkey_generate2
      pubkey ←
          or_error failed (codes "unable to import pubkey from privkey: %s") []
            (lift (tls.pubkey_import_privkey privkey))
      mkdir_parent gio (fn_privkey gio keyring_path)
      blob_pubkey ← pubkey_to_bytes tls pubkey
      set_contents_bytes gio (fn_pubkey gio keyring_path) blob_pubkey 438
      blob_privkey ← privkey_to_bytes tls privkey
      set_contents_bytes gio (fn_privkey gio keyring_path) blob_privkey 384
      pure privkey

    -- The key pair that exists.
    unfoldable pub load : Action World Privkey
    unfolding pubkey_from_bytes privkey_from_bytes get_contents_bytes
    load = do
      blob_pubkey ← get_contents_bytes gio (fn_pubkey gio keyring_path)
      _ ← pubkey_from_bytes tls blob_pubkey
      blob_privkey ← get_contents_bytes gio (fn_privkey gio keyring_path)
      privkey_from_bytes tls blob_pubkey blob_privkey

    -- "check keypair exists, otherwise generate and save".
    unfoldable pub key_pair : Action World Privkey
    unfolding generate load
    key_pair w = if not (gio.exists (fn_privkey gio keyring_path) w) then generate w else load w

    -- `jcat_gnutls_ed25519_engine_self_sign`.
    unfoldable pub class_self_sign : Bytes → ℕ → Action World JcatBlob
    unfolding key_pair sign_data
    class_self_sign bytes flags = do
      new_privkey tls
      new_pubkey tls
      privkey ← key_pair
      sign_data privkey bytes

-- ===== src/Engine/Ed25519/Keys.antt =====
-- libjcat/jcat-gnutls-ed25519-engine.c: keys as bytes, and the public keys of the engine.
use libjcat.Engine.Cell.{Cell, or_error}
use libjcat.Engine.Ed25519.Interface.{Gnutls}
use libjcat.Engine.{Action}
use libjcat.Prelude.{Bool, not, List, [], ◌∷◌, ◌++◌, Bytes, codes, failed, ok, if◌then◌else◌}
use libjcat.System.Contents.{get_contents_bytes}
use libjcat.System.{Gio, lift, ◌>>=◌, ◌>>◌}

module _ {World : Type 0} (tls : Gnutls World) where
  open tls use {Pubkey, Privkey}

  -- `jcat_gnutls_ed25519_pubkey_to_bytes`.
  unfoldable pub pubkey_to_bytes : Pubkey → Action World Bytes
  pubkey_to_bytes pubkey =
      or_error failed (codes "unable to export pubkey: %s") []
        (lift (tls.pubkey_export_ecc_raw pubkey))

  -- `jcat_gnutls_ed25519_pubkey_from_bytes`.
  unfoldable pub pubkey_from_bytes : Bytes → Action World Pubkey
  pubkey_from_bytes blob =
      or_error failed (codes "unable to import pubkey: %s") []
        (lift (tls.pubkey_import_ecc_raw blob))

  -- `jcat_gnutls_ed25519_privkey_to_bytes`.
  unfoldable pub privkey_to_bytes : Privkey → Action World Bytes
  privkey_to_bytes privkey =
      or_error failed (codes "unable to export pubkey: %s") []
        (lift (tls.privkey_export_ecc_raw2 privkey))

  -- `jcat_gnutls_ed25519_privkey_from_bytes`.
  unfoldable pub privkey_from_bytes : Bytes → Bytes → Action World Privkey
  privkey_from_bytes blob_public blob_privkey =
      or_error failed (codes "unable to import privkey: %s") []
        (lift (tls.privkey_import_ecc_raw blob_public blob_privkey))

  abbrev pub new_pubkey : Action World (Unit {0})
  new_pubkey = or_error failed (codes "unable to allocate pubkey: %s") [] tls.pubkey_init

  abbrev pub new_privkey : Action World (Unit {0})
  new_privkey = or_error failed (codes "unable to allocate privkey: %s") [] tls.privkey_init

  -- `self->pubkeys`.
  module _ (cell : Cell World (List Pubkey)) where
    abbrev keep : Pubkey → Action World (Unit {0})
    keep pubkey w = (ok tt, cell.set (cell.get w ++ pubkey ∷ []) w)

    -- `jcat_gnutls_ed25519_engine_add_public_key_raw`.
    unfoldable pub class_add_public_key_raw : Bytes → Action World (Unit {0})
    unfolding pubkey_from_bytes
    class_add_public_key_raw blob = do new_pubkey; pubkey ← pubkey_from_bytes blob; keep pubkey

    -- `jcat_gnutls_ed25519_engine_add_public_key`: a file with another suffix is ignored.
    unfoldable pub class_add_public_key :
        Gio World → (Bytes → Bytes → Bool) → Bytes → Action World (Unit {0})
    unfolding class_add_public_key_raw get_contents_bytes
    class_add_public_key gio has_suffix filename w =
        if not (has_suffix filename (codes ".ed25519"))
        then (ok tt, w)
        else (do blob ← get_contents_bytes gio filename; class_add_public_key_raw blob) w

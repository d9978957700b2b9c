-- ===== src/Engine/Pkcs7/Class.antt =====
-- libjcat/jcat-gnutls-pkcs7-engine.c: the public keys of the engine, its class and its constructor.
-- `hex` is the format %x.
use mathlib.Core.WellFounded.{Acc}
use libjcat.Engine.Cell.{Cell}
use libjcat.Engine.Pkcs7.Certificates.{load_crt_from_blob}
use libjcat.Engine.Pkcs7.Errors.{or_prefixed}
use libjcat.Engine.Pkcs7.Interface.{GnutlsX509, CrtFormat, pem, der}
use libjcat.Engine.Pkcs7.Signing.{class_pubkey_sign, class_self_sign}
use libjcat.Engine.Pkcs7.TrustLists.{Follows}
use libjcat.Engine.Pkcs7.Verify.{class_pubkey_verify, class_self_verify}
use libjcat.Engine.{Action, JcatEngine, JcatEngineClass}
use libjcat.Kind.{pkcs7, signature}
use libjcat.Prelude.{
  ℕ, Bool, false, not, ◌&&◌, ◌||◌, none, some, List, [], ◌∷◌, ◌++◌, Bytes, codes, invalid_data,
  Error, ok, if◌then◌else◌,
}
use libjcat.System.Contents.{get_contents_bytes}
use libjcat.System.{Gio, fail, pure, lift, ◌>>=◌, ◌>>◌}

module _ {World : Type 0} (tls : GnutlsX509 World) (hex : ℕ → Bytes)
    (cell : Cell World (List tls.Crt)) where
  open tls use {Crt}

  abbrev pub unsuitable : ℕ → Error
  unsuitable key_usage = record {
    code = invalid_data;
    message = codes "certificate not suitable for use [0x%x]";
    values = hex key_usage ∷ [];
  }

  abbrev pub is_unsuitable : ℕ → Bool
  is_unsuitable key_usage =
      not (tls.key_digital_signature key_usage) && not (tls.key_cert_sign key_usage)

  -- `self->pubkeys_crts`.
  abbrev pub keep : Crt → Action World (Unit {0})
  keep crt w = (ok tt, cell.set (cell.get w ++ crt ∷ []) w)

  -- `jcat_gnutls_pkcs7_engine_add_pubkey_blob_fmt`.
  unfoldable pub add_pubkey_blob_fmt : Bytes → CrtFormat → Action World (Unit {0})
  unfolding load_crt_from_blob
  add_pubkey_blob_fmt blob format = do
    crt ← load_crt_from_blob tls blob format
    key_usage ←
        lift (or_prefixed tls (codes "failed to get key usage: ") (tls.x509_crt_get_key_usage crt))
    (if is_unsuitable key_usage then fail (unsuitable key_usage) else pure tt)
    keep crt

  -- `jcat_gnutls_pkcs7_engine_add_public_key_raw`.
  unfoldable pub class_add_public_key_raw : Bytes → Action World (Unit {0})
  unfolding add_pubkey_blob_fmt
  class_add_public_key_raw blob = add_pubkey_blob_fmt blob pem

  module _ (gio : Gio World) (has_suffix : Bytes → Bytes → Bool) where
    abbrev add_file : Bytes → CrtFormat → Action World (Unit {0})
    unfolding get_contents_bytes add_pubkey_blob_fmt
    add_file filename format = do
      blob ← get_contents_bytes gio filename
      add_pubkey_blob_fmt blob format

    -- `jcat_gnutls_pkcs7_engine_add_public_key`: a file with another suffix is ignored.
    unfoldable pub class_add_public_key : Bytes → Action World (Unit {0})
    unfolding get_contents_bytes add_pubkey_blob_fmt add_file
    class_add_public_key filename =
        if has_suffix filename (codes ".pem")
        then add_file filename pem
        else if has_suffix filename (codes ".cer")
            || has_suffix filename (codes ".crt")
            || has_suffix filename (codes ".der")
        then add_file filename der
        else pure tt

    module _ (ends : (tl : tls.TrustList) → Acc (Follows tls tl) none) (pqc : Bool)
        (real_time : World → ℕ) (keyring_path : Bytes) where
      -- `jcat_gnutls_pkcs7_engine_class_init`.
      unfoldable pub class_init : JcatEngineClass World
      unfolding class_add_public_key class_add_public_key_raw class_pubkey_verify class_pubkey_sign
          class_self_verify class_self_sign
      class_init = record {
        setup = none;
        add_public_key = some class_add_public_key;
        add_public_key_raw = some class_add_public_key_raw;
        pubkey_verify = some (class_pubkey_verify tls ends pqc cell);
        pubkey_sign = some (class_pubkey_sign tls real_time);
        self_verify = some (class_self_verify tls ends pqc cell gio keyring_path);
        self_sign = some (class_self_sign tls real_time pqc gio keyring_path);
      }

      -- `jcat_gnutls_pkcs7_engine_new`.
      unfoldable pub new : JcatEngine World
      unfolding class_init
      new = record { kind = pkcs7; method = signature; done_setup = false; klass = class_init }

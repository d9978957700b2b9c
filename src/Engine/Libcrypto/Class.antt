-- ===== src/Engine/Libcrypto/Class.antt =====
-- libjcat/jcat-libcrypto-pkcs7-engine.c: the setup and the public keys of the engine, its class and its
-- constructor. `hex` is the format %x.
use libjcat.Engine.Cell.{Cell}
use libjcat.Engine.Libcrypto.Certificates.{load_crt_from_blob_pem, load_crt_from_blob_der}
use libjcat.Engine.Libcrypto.Errors.{get_errors, call}
use libjcat.Engine.Libcrypto.Interface.{Openssl}
use libjcat.Engine.Libcrypto.Signing.{class_pubkey_sign, class_self_sign}
use libjcat.Engine.Libcrypto.Verify.{class_pubkey_verify, class_self_verify}
use libjcat.Engine.{Action, JcatEngine, JcatEngineClass}
use libjcat.Kind.{pkcs7, signature}
use libjcat.Prelude.{
  ℕ, Bool, false, not, ◌&&◌, ◌||◌, Option, some, [], ◌∷◌, Bytes, codes, invalid_data, Error, ok,
  is_some, if◌then◌else◌,
}
use libjcat.System.Contents.{get_contents_bytes}
use libjcat.System.{Gio, fail, pure, ◌>>=◌, ◌>>◌}

module _ {World : Type 0} (ssl : Openssl World) (hex : ℕ → Bytes)
    -- `self->trust_store`
    (cell : Cell World (Option ssl.Store)) where
  open ssl use {Crt, Store}

  abbrev unsuitable : ℕ → Error
  unsuitable key_usage = record {
    code = invalid_data;
    message = codes "certificate not suitable for use [0x%x]";
    values = hex key_usage ∷ [];
  }

  abbrev is_unsuitable : ℕ → Bool
  is_unsuitable key_usage =
      not (ssl.ku_digital_signature key_usage) && not (ssl.ku_key_cert_sign key_usage)

  abbrev key_usage_of : Crt → Action World ℕ
  key_usage_of crt w = let (key_usage, v) = ssl.x509_get_key_usage crt w in (ok key_usage, v)

  abbrev trust : Crt → Action World (Unit {0})
  trust crt w =
      call ssl (codes "failed to add to trust list: %s") (ssl.store_add_cert (cell.get w) crt) w

  -- `jcat_libcrypto_pkcs7_engine_add_pubkey_x509`.
  unfoldable pub add_pubkey_x509 : Crt → Action World (Unit {0})
  unfolding get_errors
  add_pubkey_x509 crt = do
    key_usage ← key_usage_of crt
    (if is_unsuitable key_usage then fail (unsuitable key_usage) else pure tt)
    trust crt

  -- `jcat_libcrypto_pkcs7_engine_add_public_key_raw`.
  unfoldable pub class_add_public_key_raw : Bytes → Action World (Unit {0})
  unfolding load_crt_from_blob_pem add_pubkey_x509
  class_add_public_key_raw blob = do cert ← load_crt_from_blob_pem ssl blob; add_pubkey_x509 cert

  -- `jcat_libcrypto_pkcs7_engine_setup`.
  unfoldable pub class_setup : Action World (Unit {0})
  unfolding get_errors
  class_setup w =
      if is_some (cell.get w)
      then (ok tt, w)
      else (do
        trust_store ← call ssl (codes "failed to create trust list: %s") ssl.store_new
        λ v. (ok tt, cell.set (some trust_store) v))
          w

  module _ (gio : Gio World) (has_suffix : Bytes → Bytes → Bool) where
    abbrev add_file : Bytes → (Bytes → Action World Crt) → Action World (Unit {0})
    add_file filename load = do
      blob ← get_contents_bytes gio filename
      crt ← load blob
      add_pubkey_x509 crt

    -- `jcat_libcrypto_pkcs7_engine_add_public_key`: a file with another suffix is ignored.
    unfoldable pub class_add_public_key : Bytes → Action World (Unit {0})
    unfolding get_contents_bytes load_crt_from_blob_pem load_crt_from_blob_der add_pubkey_x509
    class_add_public_key filename =
        if has_suffix filename (codes ".pem")
        then add_file filename (load_crt_from_blob_pem ssl)
        else if has_suffix filename (codes ".cer")
            || has_suffix filename (codes ".crt")
            || has_suffix filename (codes ".der")
        then add_file filename (load_crt_from_blob_der ssl)
        else pure tt

    module _ (since_3_5 : Bool) (real_time : World → ℕ) (keyring_path : Bytes) where
      -- `jcat_libcrypto_pkcs7_engine_class_init`.
      unfoldable pub class_init : JcatEngineClass World
      unfolding class_setup class_add_public_key class_add_public_key_raw class_pubkey_verify
          class_pubkey_sign class_self_verify class_self_sign
      class_init = record {
        setup = some class_setup;
        add_public_key = some class_add_public_key;
        add_public_key_raw = some class_add_public_key_raw;
        pubkey_verify = some (class_pubkey_verify ssl cell);
        pubkey_sign = some (class_pubkey_sign ssl real_time since_3_5);
        self_verify = some (class_self_verify ssl cell gio keyring_path);
        self_sign = some (class_self_sign ssl real_time since_3_5 gio keyring_path);
      }

      -- `jcat_libcrypto_pkcs7_engine_new`.
      unfoldable pub new : JcatEngine World
      unfolding class_init
      new = record { kind = pkcs7; method = signature; done_setup = false; klass = class_init }

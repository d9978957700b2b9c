-- ===== src/Engine/Ed25519/Verify.antt =====
-- libjcat/jcat-gnutls-ed25519-engine.c: `jcat_gnutls_ed25519_engine_pubkey_verify`,
-- `jcat_gnutls_ed25519_engine_self_verify`, the class and the constructor.
use libjcat.Engine.Cell.{Cell}
use libjcat.Engine.Ed25519.Interface.{Gnutls}
use libjcat.Engine.Ed25519.Keys.{
  pubkey_from_bytes, new_pubkey, class_add_public_key_raw, class_add_public_key,
}
use libjcat.Engine.Ed25519.Signing.{fn_pubkey, class_pubkey_sign, class_self_sign}
use libjcat.Engine.{Action, JcatEngine, JcatEngineClass}
use libjcat.Kind.{ed25519, signature}
use libjcat.Prelude.{
  ℕ, Bool, false, none, some, List, [], ◌∷◌, Bytes, codes, invalid_data, invalid_argument, ℤ, pos,
  negsuc, is_negative, Error, Result, ok, err, ◌==◌, if◌then◌else◌,
}
use libjcat.Result.{JcatResult, of_engine}
use libjcat.System.Contents.{get_contents_bytes}
use libjcat.System.{Gio, lift, ◌>>=◌, ◌>>◌}

abbrev no_keys : Error
no_keys = record { code = invalid_argument; message = codes "no keys in keyring"; values = [] }

abbrev pub not_verified : Error
not_verified = record { code = invalid_data; message = codes "failed to verify data"; values = [] }

-- `rc == GNUTLS_E_SUCCESS`.
abbrev pub is_success : ℤ → Bool
is_success (pos n) = n == 0
is_success (negsuc n) = false

-- `g_object_new` of a result with the engine.
abbrev pub verified : JcatResult
unfolding of_engine
verified = of_engine (record { kind = ed25519; method = signature })

module _ {World : Type 0} (tls : Gnutls World) where
  open tls use {Pubkey}

  -- The loop "verifies against any of the public keys".
  unfoldable pub verify_any : Bytes → Bytes → List Pubkey → Result JcatResult
  unfolding of_engine
  verify_any bytes sig [] = err not_verified
  verify_any bytes sig (pubkey ∷ pubkeys) =
      let rest = verify_any bytes sig pubkeys in
      if is_success (tls.pubkey_verify_data2 pubkey bytes sig) then ok verified else rest

  -- With the test whether there are keys.
  unfoldable pub verify_keys : Bytes → Bytes → List Pubkey → Result JcatResult
  unfolding verify_any
  verify_keys bytes sig [] = err no_keys
  verify_keys bytes sig (pubkey ∷ pubkeys) = verify_any bytes sig (pubkey ∷ pubkeys)

  -- The test of the return code in the verification with the engine's own key.
  abbrev checked : ℤ → Result JcatResult
  unfolding of_engine
  checked rc =
      if is_negative rc
      then err (record {
        code = invalid_data;
        message = codes "failed to verify data: %s";
        values = tls.strerror rc ∷ [];
      })
      else ok verified

  module _ (gio : Gio World) (keyring_path : Bytes) (real_time : World → ℕ) where
    -- `jcat_gnutls_ed25519_engine_self_verify`.
    unfoldable pub class_self_verify : Bytes → Bytes → ℕ → Action World JcatResult
    unfolding get_contents_bytes pubkey_from_bytes of_engine
    class_self_verify bytes sig flags = do
      blob_pubkey ← get_contents_bytes gio (fn_pubkey gio keyring_path)
      new_pubkey tls
      pubkey ← pubkey_from_bytes tls blob_pubkey
      lift (checked (tls.pubkey_verify_data2 pubkey bytes sig))

    module _ (cell : Cell World (List Pubkey)) where
      -- `jcat_gnutls_ed25519_engine_pubkey_verify`.
      unfoldable pub class_pubkey_verify : Bytes → Bytes → ℕ → Action World JcatResult
      unfolding verify_keys
      class_pubkey_verify bytes sig flags w = (verify_keys bytes sig (cell.get w), w)

      -- `jcat_gnutls_ed25519_engine_class_init`.
      unfoldable pub class_init : (Bytes → Bytes → Bool) → JcatEngineClass World
      unfolding class_add_public_key class_add_public_key_raw class_pubkey_verify class_pubkey_sign
          class_self_verify class_self_sign
      class_init has_suffix = record {
        setup = none;
        add_public_key = some (class_add_public_key tls cell gio has_suffix);
        add_public_key_raw = some (class_add_public_key_raw tls cell);
        pubkey_verify = some class_pubkey_verify;
        pubkey_sign = some (class_pubkey_sign tls real_time);
        self_verify = some class_self_verify;
        self_sign = some (class_self_sign tls real_time gio keyring_path);
      }

      -- `jcat_gnutls_ed25519_engine_new`.
      unfoldable pub new : (Bytes → Bytes → Bool) → JcatEngine World
      unfolding class_init
      new has_suffix = record {
        kind = ed25519;
        method = signature;
        done_setup = false;
        klass = class_init has_suffix;
      }

-- ===== src/Engine/Ed25519/Interface.antt =====
-- What libjcat/jcat-gnutls-ed25519-engine.c calls of GnuTLS. A call with a negative return code fails
-- with an error whose message is the text of the code and whose value is its number, in digits, which
-- only a message with `%i` prints.
use libjcat.Engine.{Action}
use libjcat.Prelude.{ℤ, Bytes, Result}

pub record Gnutls (World : Type 0) : Type 1 where
  pub Pubkey : Type 0
  pub Privkey : Type 0
  -- gnutls_pubkey_init and gnutls_privkey_init, which allocate an empty key
  pub pubkey_init : Action World (Unit {0})
  pub privkey_init : Action World (Unit {0})
  -- gnutls_pubkey_import_ecc_raw and gnutls_privkey_import_ecc_raw on the curve Ed25519
  pub pubkey_import_ecc_raw : Bytes → Result Pubkey
  pub privkey_import_ecc_raw : Bytes → Bytes → Result Privkey
  -- gnutls_pubkey_export_ecc_raw and gnutls_privkey_export_ecc_raw2
  pub pubkey_export_ecc_raw : Pubkey → Result Bytes
  pub privkey_export_ecc_raw2 : Privkey → Result Bytes
  -- gnutls_privkey_generate2 and gnutls_pubkey_import_privkey
  pub privkey_generate2 : Action World Privkey
  pub pubkey_import_privkey : Privkey → Result Pubkey
  -- gnutls_privkey_sign_data2 by EdDSA
  pub privkey_sign_data2 : Privkey → Bytes → Result Bytes
  -- the return code of gnutls_pubkey_verify_data2 for data and a signature, and gnutls_strerror
  pub pubkey_verify_data2 : Pubkey → Bytes → Bytes → ℤ
  pub strerror : ℤ → Bytes

-- ===== src/Engine/Gpg/Interface.antt =====
-- What libjcat/jcat-gpg-engine.c calls of GPGME. A call fails with an error whose message is the text
-- of its return code. A context may be NULL.
use libjcat.Engine.{Action}
use libjcat.Prelude.{ℕ, Option, List, Bytes}

-- The codes of a signature's status that are told apart.
pub data Status : Type 0 where
  no_error sig_expired key_expired cert_revoked bad_signature no_pubkey : Status
  other_status : ℕ → Status

-- The parts of gpgme_signature_t and gpgme_import_result_t that are read.
pub record Signature : Type 0 where
  pub status : Status
  pub fpr : Bytes
  pub timestamp : ℕ

pub record ImportResult : Type 0 where
  pub imported : ℕ
  pub unchanged : ℕ

pub record Gpgme (World : Type 0) : Type 1 where
  pub Ctx : Type 0
  pub Data : Type 0
  pub err_init : Action World (Unit {0})
  pub ctx_new : Action World Ctx
  -- gpgme_set_protocol with OpenPGP
  pub set_protocol : Option Ctx → Action World (Unit {0})
  -- gpgme_ctx_set_engine_info with the default program and a home directory
  pub set_engine_info : Option Ctx → Bytes → Action World (Unit {0})
  pub set_armor : Option Ctx → World → World
  pub data_new_from_file : Bytes → Action World Data
  pub data_new_from_mem : Bytes → Action World Data
  pub op_import : Option Ctx → Data → Action World (Unit {0})
  pub op_import_result : Option Ctx → World → ImportResult
  -- gpgme_op_verify of a signature and the data it is for
  pub op_verify : Option Ctx → Data → Data → Action World (Unit {0})
  -- the list of signatures, or a NULL in place of the result
  pub op_verify_result : Option Ctx → World → Option (List Signature)

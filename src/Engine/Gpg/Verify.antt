-- ===== src/Engine/Gpg/Verify.antt =====
-- libjcat/jcat-gpg-engine.c: `jcat_gpg_engine_check_signature`, `jcat_gpg_engine_pubkey_verify`, the
-- class and the constructor.
use libjcat.Engine.Cell.{Cell, or_error}
use libjcat.Engine.Gpg.Interface.{
  Gpgme, Signature, Status, no_error, sig_expired, key_expired, cert_revoked, bad_signature,
  no_pubkey,
}
use libjcat.Engine.Gpg.Setup.{ctx, class_setup, class_add_public_key}
use libjcat.Engine.{Action, JcatEngine, JcatEngineClass}
use libjcat.Kind.{gpg, signature}
use libjcat.Prelude.{
  ℕ, ◌^◌, Bool, false, ◌&&◌, Option, none, some, List, [], ◌∷◌, Bytes, codes, ltb, failed,
  invalid_data, pos, Error, Result, ok, err, if◌then◌else◌,
}
use libjcat.Result.{JcatResult}
use libjcat.System.{Gio, ◌>>=◌, ◌>>◌}

abbrev pub status_error : Bytes → Signature → Error
status_error message s = record { code = invalid_data; message = message; values = s.fpr ∷ [] }

-- The cases of `jcat_gpg_engine_check_signature`.
abbrev pub status_result : Status → Signature → Result (Unit {0})
status_result no_error s = ok tt
status_result sig_expired s = err (status_error (codes "valid signature '%s' has expired") s)
status_result key_expired s = err (status_error (codes "valid signature '%s' has expired") s)
status_result cert_revoked s = err (status_error (codes "valid signature '%s' has been revoked") s)
status_result bad_signature s = err (status_error (codes "'%s' is not a valid signature") s)
status_result no_pubkey s =
    err (status_error (codes "Could not check signature '%s' as no public key") s)
status_result (Status.other_status code) s =
    err (status_error (codes "gpgme failed to verify signature '%s'") s)

-- `jcat_gpg_engine_check_signature`.
unfoldable pub check_signature : Signature → Result (Unit {0})
check_signature s = status_result s.status s

-- `timestamp_newest` and `authority_newest`.
pub record Newest : Type 0 where
  pub timestamp : ℕ
  pub authority : Bytes

abbrev pub none_yet : Newest
none_yet = record { timestamp = 0; authority = [] }

-- "save details about the key for the result": an unsigned long of 2 ^ 63 or more is negative as a
-- gint64, and so it is not newer.
unfoldable pub newer : Signature → Newest → Newest
newer s newest =
    if ltb s.timestamp (2 ^ 63) && ltb newest.timestamp s.timestamp
    then record { timestamp = s.timestamp; authority = s.fpr }
    else newest

-- "look at each signature".
unfoldable pub look : List Signature → Newest → Result Newest
unfolding check_signature newer
look [] newest = ok newest
look (s ∷ signatures) newest = elim (check_signature s) [
  | ok _ ↦ look signatures (newer s newest)
  | err e ↦ err e
]

abbrev pub result_of : Newest → JcatResult
result_of newest = record {
  timestamp = pos newest.timestamp;
  authority = some newest.authority;
  engine = some (record { kind = gpg; method = signature });
}

abbrev pub found : Result Newest → Result JcatResult
found (ok newest) = ok (result_of newest)
found (err e) = err e

abbrev failure : Bytes → Error
failure message = record { code = failed; message = message; values = [] }

-- "verify the result".
unfoldable pub verify_result : Option (List Signature) → Result JcatResult
unfolding look
verify_result none = err (failure (codes "no result record from libgpgme"))
verify_result (some []) = err (failure (codes "no signatures from libgpgme"))
verify_result (some (s ∷ signatures)) = found (look (s ∷ signatures) none_yet)

module _ {World : Type 0} (gpgme : Gpgme World) (gio : Gio World)
    (cell : Cell World (Option gpgme.Ctx)) (keyring_path : Bytes) where
  -- What is left of the verification when GPGME has verified.
  abbrev pub results_of : Action World JcatResult
  results_of w = (verify_result (gpgme.op_verify_result (ctx gpgme gio cell keyring_path w) w), w)

  -- The calls that load the data and the signature and verify.
  unfoldable pub run_verify : Bytes → Bytes → Action World (Unit {0})
  run_verify blob blob_signature = do
    loaded ← or_error failed (codes "failed to load data: %s") [] (gpgme.data_new_from_mem blob)
    sig ←
        or_error failed (codes "failed to load signature: %s") []
          (gpgme.data_new_from_mem blob_signature)
    λ w.
        or_error failed (codes "failed to verify data: %s") []
          (gpgme.op_verify (ctx gpgme gio cell keyring_path w) sig loaded) w

  -- `jcat_gpg_engine_pubkey_verify`.
  unfoldable pub class_pubkey_verify : Bytes → Bytes → ℕ → Action World JcatResult
  unfolding run_verify verify_result
  class_pubkey_verify blob blob_signature flags = run_verify blob blob_signature >> results_of

  -- `jcat_gpg_engine_class_init`.
  unfoldable pub class_init : (Bytes → Bytes → Bool) → JcatEngineClass World
  unfolding class_setup class_add_public_key class_pubkey_verify
  class_init has_prefix = record {
    setup = some (class_setup gpgme gio cell keyring_path);
    add_public_key = some (class_add_public_key gpgme gio cell keyring_path has_prefix);
    add_public_key_raw = none;
    pubkey_verify = some class_pubkey_verify;
    pubkey_sign = none;
    self_verify = none;
    self_sign = none;
  }

  -- `jcat_gpg_engine_new`.
  unfoldable pub new : (Bytes → Bytes → Bool) → JcatEngine World
  unfolding class_init
  new has_prefix = record {
    kind = gpg;
    method = signature;
    done_setup = false;
    klass = class_init has_prefix;
  }

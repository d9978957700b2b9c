-- ===== src/Engine/Gpg/Setup.antt =====
-- libjcat/jcat-gpg-engine.c: `jcat_gpg_engine_setup` and `jcat_gpg_engine_add_public_key`.
use libjcat.Engine.Cell.{Cell, or_error}
use libjcat.Engine.Gpg.Interface.{Gpgme, ImportResult}
use libjcat.Engine.{Action}
use libjcat.Prelude.{
  Bool, not, ◌&&◌, Option, some, [], ◌∷◌, Bytes, codes, is_some, failed, Error, Result, ok, err,
  ◌==◌, if◌then◌else◌,
}
use libjcat.System.{Gio, pure, fail, ◌>>=◌, ◌>>◌}

module _ {World : Type 0} (gpgme : Gpgme World) (gio : Gio World)
    (cell : Cell World (Option gpgme.Ctx)) (keyring_path : Bytes) where
  open gpgme use {Ctx, Data}

  -- `self->ctx`.
  abbrev pub ctx : World → Option Ctx
  ctx w = cell.get w

  abbrev keep_ctx : Ctx → Action World (Unit {0})
  keep_ctx c w = (ok tt, cell.set (some c) w)

  abbrev armored : Action World (Unit {0})
  armored w = (ok tt, gpgme.set_armor (ctx w) w)

  abbrev not_created : Bytes → Error
  not_created gpg_home = record {
    code = failed;
    message = codes "failed to create %s";
    values = gpg_home ∷ [];
  }

  abbrev made : Bytes → Bool × World → Result (Unit {0}) × World
  made gpg_home (done, w) = (if done then ok tt else err (not_created gpg_home), w)

  -- The calls of `jcat_gpg_engine_setup`, where there is no context yet.
  unfoldable pub start : Action World (Unit {0})
  start = do
    or_error failed (codes "failed to init: %s") [] gpgme.err_init
    c ← or_error failed (codes "failed to create context: %s") [] gpgme.ctx_new
    keep_ctx c
    (λ w. or_error failed (codes "failed to set protocol: %s") [] (gpgme.set_protocol (ctx w)) w)
    let gpg_home = gio.build_filename (keyring_path ∷ codes "gnupg" ∷ [])
    (λ w. made gpg_home (gio.mkdir_with_parents gpg_home 448 w))
    (λ w.
        or_error failed (codes "failed to set engine info, is gpg installed and found? %s") []
          (gpgme.set_engine_info (ctx w) gpg_home) w)
    armored

  -- `jcat_gpg_engine_setup`.
  unfoldable pub class_setup : Action World (Unit {0})
  unfolding start
  class_setup w = if is_some (ctx w) then (ok tt, w) else start w

  abbrev not_imported : Bytes → Error
  not_imported filename = record {
    code = failed;
    message = codes "key import failed %s";
    values = filename ∷ [];
  }

  abbrev import_is_empty : ImportResult → Bool
  import_is_empty result = result.imported == 0 && result.unchanged == 0

  -- "make sure keys were really imported".
  abbrev imported_some : Bytes → Action World (Unit {0})
  imported_some filename w =
      (if import_is_empty (gpgme.op_import_result (ctx w) w)
          then fail (not_imported filename)
          else pure tt)
        w

  -- `jcat_gpg_engine_add_public_key`: a file whose name does not start with "GPG-KEY-" is ignored.
  unfoldable pub class_add_public_key : (Bytes → Bytes → Bool) → Bytes → Action World (Unit {0})
  class_add_public_key has_prefix filename w =
      if not (has_prefix (gio.path_get_basename filename) (codes "GPG-KEY-"))
      then (ok tt, w)
      else (do
        loaded ←
            or_error failed (codes "failed to load %s: %s") (filename ∷ [])
              (gpgme.data_new_from_file filename)
        (λ v.
            or_error failed (codes "failed to import %s: %s") (filename ∷ [])
              (gpgme.op_import (ctx v) loaded) v)
        imported_some filename)
          w

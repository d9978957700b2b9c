-- ===== src/Engine/Libcrypto/Errors.antt =====
-- libjcat/jcat-libcrypto-common.c: `jcat_libcrypto_get_errors`, with the errors that are made of it.
use libjcat.Engine.{Action}
use libjcat.Engine.Libcrypto.Interface.{Openssl, Call}
use libjcat.Prelude.{
  none, some, [], ◌∷◌, Bytes, codes, c_string, invalid_data, Result, ok, err, Option, ◌==◌,
  if◌then◌else◌,
}

module _ {World : Type 0} (ssl : Openssl World) where
  -- `jcat_libcrypto_get_errors`.
  unfoldable pub get_errors : World → Bytes × World
  get_errors w =
      if ssl.err_peek_error w == 0
      then (codes "unspecified error", w)
      else (let (bio_buf, v) = ssl.err_print_errors w in (c_string bio_buf, v))

  -- An error with what OpenSSL has to say.
  abbrev pub refuse : {A : Type 0} → Bytes → Action World A
  refuse message w =
      let (error_str, v) = get_errors w in
      (err (record { code = invalid_data; message = message; values = error_str ∷ [] }), v)

  abbrev pub or_refuse : {A : Type 0} → Bytes → Option A × World → Result A × World
  or_refuse message (some a, w) = (ok a, w)
  or_refuse message (none, w) = refuse message w

  -- A call whose failure is an error.
  abbrev pub call : {A : Type 0} → Bytes → Call World A → Action World A
  call message f w = or_refuse message (f w)

  -- A call whose result is not looked at.
  abbrev pub unchecked : {A : Type 0} → Call World A → Action World (Option A)
  unchecked f w = (ok (f w).0, (f w).1)

  abbrev pub effect : (World → World) → Action World (Unit {0})
  effect f w = (ok tt, f w)

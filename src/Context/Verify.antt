-- ===== src/Context/Verify.antt =====
-- libjcat/jcat-context.c: `jcat_context_verify_item` and `jcat_context_verify_target`. The two
-- differ in the bodies of their two loops, which are the steps here, and share the rest. Messages
-- to the debug log are left out.
use libjcat.Blob.{JcatBlob, get_data_as_string}
use libjcat.Context.{Session, get_engine, settle, is_checksum, is_signature}
use libjcat.Engine.{JcatEngine, ref, self_verify, pubkey_verify, precondition, and_then}
use libjcat.Item.{JcatItem, get_blob_by_kind, kind_values, printed}
use libjcat.Json.{Base64}
use libjcat.Kind.{JcatBlobKind, unknown, has_flag, require_checksum, require_signature}
use libjcat.Prelude.{
  ℕ, ◌+◌, ◌%◌, Bool, true, false, not, ◌&&◌, Option, none, some, List, [], ◌∷◌, ◌++◌, Bytes, codes,
  u32_mod, Error, Code, critical, not_supported, Result, ok, err, length, strcmp0_eq, ◌==◌,
  if◌then◌else◌,
}
use libjcat.Result.{JcatResult, of_engine}

-- What the body of a loop does with a blob.
pub data Check (World : Type 0) : Type 0 where
  -- `continue`, with nothing verified
  skipped : Check World
  passed : JcatResult → Session World → Check World
  refused : Error → Session World → Check World

abbrev pub failure : Bytes → Error
failure message = record { code = not_supported; message = message; values = [] }

abbrev prefix_at : Code → Bytes → Error → Error
prefix_at critical prefix e = e
prefix_at _ prefix e = record e { message = prefix ++ e.message }

-- g_prefix_error, which does nothing where no error was set.
abbrev pub prefix_error : Bytes → Error → Error
prefix_error prefix e = prefix_at e.code prefix e

-- The results so far and `nr_signature`.
pub record Tally : Type 0 where
  pub results : List JcatResult
  pub nr_signature : ℕ

abbrev pub is_empty : List JcatBlob → Bool
is_empty [] = true
is_empty _ = false

module _ {World : Type 0} where
  abbrev pub checked : Result JcatResult × Session World → Check World
  checked (ok result, s) = passed result s
  checked (err e, s) = refused e s

  -- The first loop: the first failure ends it.
  unfoldable pub checksum_loop :
      (JcatBlob → Session World → Check World)
      → List JcatBlob
      → List JcatResult
      → Session World
      → Result (List JcatResult) × Session World
  checksum_loop check [] results s = (ok results, s)
  checksum_loop check (blob ∷ blobs) results s = elim (check blob s) [
    | skipped ↦ checksum_loop check blobs results s
    | passed result v ↦ checksum_loop check blobs (results ++ result ∷ []) v
    | refused e v ↦ (err e, v)
  ]

  -- The second loop: a failure is passed over.
  unfoldable pub signature_loop :
      (JcatBlob → Session World → Check World)
      → List JcatBlob
      → Tally
      → Session World
      → Tally × Session World
  signature_loop check [] tally s = (tally, s)
  signature_loop check (blob ∷ blobs) tally s = elim (check blob s) [
    | skipped ↦ signature_loop check blobs tally s
    | passed result v ↦
        signature_loop check blobs
          (record {
            results = tally.results ++ result ∷ [];
            nr_signature = (tally.nr_signature + 1) % u32_mod;
          })
          v
    | refused e v ↦ signature_loop check blobs tally v
  ]

  -- The tests behind the second loop.
  abbrev pub conclude : ℕ → Tally × Session World → Result (List JcatResult) × Session World
  conclude flags (tally, s) =
      if has_flag flags require_signature && tally.nr_signature == 0
      then (err (failure (codes "signatures were required, but none supplied")), s)
      else if length tally.results == 0
      then (err (failure (codes "no valid checksums or signatures found")), s)
      else (ok tally.results, s)

  -- What the two functions share.
  unfoldable pub verify_blobs :
      (JcatBlob → Session World → Check World)
      → (JcatBlob → Session World → Check World)
      → List JcatBlob
      → ℕ
      → Session World
      → Result (List JcatResult) × Session World
  unfolding checksum_loop signature_loop
  verify_blobs checksum_check signature_check blobs flags s =
      if is_empty blobs
      then (err (failure (codes "no blobs in item")), s)
      else and_then (checksum_loop checksum_check blobs [] s) (λ results s.
        if has_flag flags require_checksum && length results == 0
        then (err (failure (codes "checksums were required, but none supplied")), s)
        else conclude flags (
            signature_loop signature_check blobs (record { results = results; nr_signature = 0 })
              s))

module _ {World : Type 0} (undefined_shift : ℕ → JcatBlobKind → Bool) where
  abbrev pub prefixed : Check World → Check World
  prefixed (refused e s) = refused (prefix_error (codes "checksum failure: ") e) s
  prefixed check = check

  abbrev pub checksum_by :
      Bytes → ℕ → JcatBlob → Session World → Result (JcatEngine World) → Check World
  checksum_by bytes flags blob s (err e) = skipped
  checksum_by bytes flags blob s (ok engine) =
      if not (is_checksum engine.method)
      then skipped
      else prefixed (
          checked (
            settle s.context blob.kind
              (self_verify s.context.public_keys engine bytes blob.data_bytes flags s.world)))

  -- The body of the first loop of `jcat_context_verify_item`.
  unfoldable pub item_checksum : Bytes → ℕ → JcatBlob → Session World → Check World
  unfolding get_engine
  item_checksum bytes flags blob s =
      checksum_by bytes flags blob s (get_engine undefined_shift s.context blob.kind)

  -- A blob with no data fails a precondition, which sets no error. There the source reads the
  -- message of the error that is not set, for the debug log; the model goes on.
  abbrev pub signature_by :
      Option Bytes → ℕ → JcatBlob → Session World → JcatEngine World → Check World
  signature_by none flags blob s engine = refused precondition s
  signature_by (some bytes) flags blob s engine = checked (
      settle s.context blob.kind
        (pubkey_verify s.context.public_keys engine bytes blob.data_bytes flags s.world))

  abbrev pub item_signature_by :
      Bytes → ℕ → JcatBlob → Session World → Result (JcatEngine World) → Check World
  item_signature_by bytes flags blob s (err e) = skipped
  item_signature_by bytes flags blob s (ok engine) =
      if not (is_signature engine.method)
      then skipped
      else signature_by (some bytes) flags blob s engine

  -- The body of the second loop of `jcat_context_verify_item`.
  unfoldable pub item_signature : Bytes → ℕ → JcatBlob → Session World → Check World
  unfolding get_engine
  item_signature bytes flags blob s =
      item_signature_by bytes flags blob s (get_engine undefined_shift s.context blob.kind)

  -- `jcat_context_verify_item`.
  unfoldable pub verify_item :
      Bytes → JcatItem → ℕ → Session World → Result (List JcatResult) × Session World
  unfolding verify_blobs item_checksum item_signature
  verify_item bytes item flags =
      verify_blobs (item_checksum bytes flags) (item_signature bytes flags) item.blobs flags

  -- The comparison of a checksum with that of the target.
  abbrev pub compare_checksums :
      Base64 → JcatBlob → JcatEngine World → Session World → Result JcatBlob → Check World
  compare_checksums base64 blob engine s (err e) = skipped
  compare_checksums base64 blob engine s (ok blob_target) =
      let checksum = get_data_as_string base64 blob in
      let checksum_target = get_data_as_string base64 blob_target in
      if not (strcmp0_eq checksum checksum_target)
      then refused
          (record {
            code = not_supported;
            message = codes "%s checksum was %s but target is %s";
            values = kind_values blob.kind ++ printed checksum ∷ printed checksum_target ∷ [];
          })
          s
      else passed (of_engine (ref World engine)) s

  abbrev pub target_checksum_by :
      Base64 → JcatItem → JcatBlob → Session World → Result (JcatEngine World) → Check World
  target_checksum_by base64 item_target blob s (err e) = skipped
  target_checksum_by base64 item_target blob s (ok engine) =
      if not (is_checksum engine.method)
      then skipped
      else compare_checksums base64 blob engine s (get_blob_by_kind item_target blob.kind)

  -- The body of the first loop of `jcat_context_verify_target`.
  unfoldable pub target_checksum : Base64 → JcatItem → JcatBlob → Session World → Check World
  unfolding get_engine
  target_checksum base64 item_target blob s =
      target_checksum_by base64 item_target blob s (get_engine undefined_shift s.context blob.kind)

  abbrev pub sign_target :
      ℕ → JcatBlob → Session World → JcatEngine World → Result JcatBlob → Check World
  sign_target flags blob s engine (err e) = skipped
  sign_target flags blob s engine (ok blob_target) =
      signature_by blob_target.data_bytes flags blob s engine

  abbrev pub target_signature_by :
      JcatItem → ℕ → JcatBlob → Session World → Result (JcatEngine World) → Check World
  target_signature_by item_target flags blob s (err e) = skipped
  target_signature_by item_target flags blob s (ok engine) =
      if not (is_signature engine.method)
      then skipped
      else if blob.target == unknown
      then skipped
      else sign_target flags blob s engine (get_blob_by_kind item_target blob.target)

  -- The body of the second loop of `jcat_context_verify_target`.
  unfoldable pub target_signature : JcatItem → ℕ → JcatBlob → Session World → Check World
  unfolding get_engine
  target_signature item_target flags blob s =
      target_signature_by item_target flags blob s (get_engine undefined_shift s.context blob.kind)

  -- `jcat_context_verify_target`.
  unfoldable pub verify_target :
      Base64 → JcatItem → JcatItem → ℕ → Session World → Result (List JcatResult) × Session World
  unfolding verify_blobs target_checksum target_signature
  verify_target base64 item_target item flags =
      verify_blobs (target_checksum base64 item_target) (target_signature item_target flags)
        item.blobs flags

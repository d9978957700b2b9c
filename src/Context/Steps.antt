-- ===== src/Context/Steps.antt =====
-- libjcat/jcat-context.c: what the bodies of the four loops of the two verifications do with a blob.
pub mod Item
pub mod Target
use mathlib.Core.Path.{subst}
use libjcat.Blob.{JcatBlob, get_data_as_string}
use libjcat.Context.{Session, get_engine, settle, is_checksum, is_signature}
use libjcat.Context.Verify.{
  Check, skipped, passed, refused, prefix_error, prefixed, checked, item_checksum, item_signature,
  checksum_by, signature_by, target_checksum, target_signature, sign_target, compare_checksums,
}
use libjcat.Engine.{JcatEngine, ref, self_verify, pubkey_verify, precondition}
use libjcat.Item.{JcatItem, get_blob_by_kind, kind_values, printed}
use libjcat.Json.{Base64}
use libjcat.Kind.{JcatBlobKind, JcatBlobMethod, checksum, signature, unknown}
use libjcat.Prelude.{
  ℕ, Bool, true, false, not, Bool-cases, Option, none, some, Option-cases, List, [], ◌∷◌, ◌++◌,
  Bytes, codes, Error, not_supported, Result, ok, err, Result-cases, strcmp0_eq, strcmp0_eq_iff,
  ◌==◌, ==_iff, ◌≡◌, ◌≢◌, refl, sym, ap, ◌∙◌, ◌⊎◌, inl, inr, if◌then◌else◌, arith,
}
use libjcat.Result.{JcatResult, of_engine}

pub is_checksum-cases :
    (method : JcatBlobMethod)
    → ((method ≡ checksum) × (is_checksum method ≡ true))
      ⊎ ((method ≢ checksum) × (is_checksum method ≡ false))
is_checksum-cases checksum = inl (refl, refl)
is_checksum-cases signature = inr ((λ e. cc e), refl)
is_checksum-cases JcatBlobMethod.unknown_method = inr ((λ e. cc e), refl)

pub is_signature-cases :
    (method : JcatBlobMethod)
    → ((method ≡ signature) × (is_signature method ≡ true))
      ⊎ ((method ≢ signature) × (is_signature method ≡ false))
is_signature-cases signature = inl (refl, refl)
is_signature-cases checksum = inr ((λ e. cc e), refl)
is_signature-cases JcatBlobMethod.unknown_method = inr ((λ e. cc e), refl)

pub is_checksum-own : (method : JcatBlobMethod) → method ≡ checksum → is_checksum method ≡ true
is_checksum-own method own = ap is_checksum own

pub is_checksum-other : (method : JcatBlobMethod) → method ≢ checksum → is_checksum method ≡ false
is_checksum-other method other = elim (is_checksum-cases method) [
  | inl (own, _) ↦ absurd (other own)
  | inr (_, not_own) ↦ not_own
]

pub is_signature-own : (method : JcatBlobMethod) → method ≡ signature → is_signature method ≡ true
is_signature-own method own = ap is_signature own

pub is_signature-other :
    (method : JcatBlobMethod) → method ≢ signature → is_signature method ≡ false
is_signature-other method other = elim (is_signature-cases method) [
  | inl (own, _) ↦ absurd (other own)
  | inr (_, not_own) ↦ not_own
]

module _ {World : Type 0} (undefined_shift : ℕ → JcatBlobKind → Bool) where
  -- What the first loop of `jcat_context_verify_item` does with a blob.
  pub data ItemChecksum (bytes : Bytes) (flags : ℕ)
      : JcatBlob → Session World → Check World → Type 0 where
    unavailable :
        (blob : JcatBlob) (s : Session World) (e : Error)
        → get_engine undefined_shift s.context blob.kind ≡ err e
        → ItemChecksum bytes flags blob s skipped
    other_method :
        (blob : JcatBlob) (s : Session World) (engine : JcatEngine World)
        → get_engine undefined_shift s.context blob.kind ≡ ok engine
        → engine.method ≢ checksum
        → ItemChecksum bytes flags blob s skipped
    verifies :
        (blob : JcatBlob) (s : Session World) (engine : JcatEngine World) (r : JcatResult)
        (v : Session World)
        → get_engine undefined_shift s.context blob.kind ≡ ok engine
        → engine.method ≡ checksum
        → settle s.context blob.kind
            (self_verify s.context.public_keys engine bytes blob.data_bytes flags s.world)
          ≡ (ok r, v)
        → ItemChecksum bytes flags blob s (passed r v)
    fails :
        (blob : JcatBlob) (s : Session World) (engine : JcatEngine World) (e : Error)
        (v : Session World)
        → get_engine undefined_shift s.context blob.kind ≡ ok engine
        → engine.method ≡ checksum
        → settle s.context blob.kind
            (self_verify s.context.public_keys engine bytes blob.data_bytes flags s.world)
          ≡ (err e, v)
        → ItemChecksum bytes flags blob s (refused (prefix_error (codes "checksum failure: ") e) v)

  -- What the second loop of `jcat_context_verify_item` does with a blob.
  pub data ItemSignature (bytes : Bytes) (flags : ℕ)
      : JcatBlob → Session World → Check World → Type 0 where
    unavailable :
        (blob : JcatBlob) (s : Session World) (e : Error)
        → get_engine undefined_shift s.context blob.kind ≡ err e
        → ItemSignature bytes flags blob s skipped
    other_method :
        (blob : JcatBlob) (s : Session World) (engine : JcatEngine World)
        → get_engine undefined_shift s.context blob.kind ≡ ok engine
        → engine.method ≢ signature
        → ItemSignature bytes flags blob s skipped
    verifies :
        (blob : JcatBlob) (s : Session World) (engine : JcatEngine World) (r : JcatResult)
        (v : Session World)
        → get_engine undefined_shift s.context blob.kind ≡ ok engine
        → engine.method ≡ signature
        → settle s.context blob.kind
            (pubkey_verify s.context.public_keys engine bytes blob.data_bytes flags s.world)
          ≡ (ok r, v)
        → ItemSignature bytes flags blob s (passed r v)
    fails :
        (blob : JcatBlob) (s : Session World) (engine : JcatEngine World) (e : Error)
        (v : Session World)
        → get_engine undefined_shift s.context blob.kind ≡ ok engine
        → engine.method ≡ signature
        → settle s.context blob.kind
            (pubkey_verify s.context.public_keys engine bytes blob.data_bytes flags s.world)
          ≡ (err e, v)
        → ItemSignature bytes flags blob s (refused e v)

  -- What the first loop of `jcat_context_verify_target` does with a blob.
  pub data TargetChecksum (base64 : Base64) (item_target : JcatItem)
      : JcatBlob → Session World → Check World → Type 0 where
    unavailable :
        (blob : JcatBlob) (s : Session World) (e : Error)
        → get_engine undefined_shift s.context blob.kind ≡ err e
        → TargetChecksum base64 item_target blob s skipped
    other_method :
        (blob : JcatBlob) (s : Session World) (engine : JcatEngine World)
        → get_engine undefined_shift s.context blob.kind ≡ ok engine
        → engine.method ≢ checksum
        → TargetChecksum base64 item_target blob s skipped
    no_target :
        (blob : JcatBlob) (s : Session World) (engine : JcatEngine World) (e : Error)
        → get_engine undefined_shift s.context blob.kind ≡ ok engine
        → engine.method ≡ checksum
        → get_blob_by_kind item_target blob.kind ≡ err e
        → TargetChecksum base64 item_target blob s skipped
    same_text :
        (blob blob_target : JcatBlob) (s : Session World) (engine : JcatEngine World)
        → get_engine undefined_shift s.context blob.kind ≡ ok engine
        → engine.method ≡ checksum
        → get_blob_by_kind item_target blob.kind ≡ ok blob_target
        → get_data_as_string base64 blob ≡ get_data_as_string base64 blob_target
        → TargetChecksum base64 item_target blob s (passed (of_engine (ref World engine)) s)
    other_text :
        (blob blob_target : JcatBlob) (s : Session World) (engine : JcatEngine World)
        → get_engine undefined_shift s.context blob.kind ≡ ok engine
        → engine.method ≡ checksum
        → get_blob_by_kind item_target blob.kind ≡ ok blob_target
        → get_data_as_string base64 blob ≢ get_data_as_string base64 blob_target
        → TargetChecksum base64 item_target blob s (
            refused
              (record {
                code = not_supported;
                message = codes "%s checksum was %s but target is %s";
                values =
                    kind_values blob.kind
                    ++ printed (get_data_as_string base64 blob)
                      ∷ printed (get_data_as_string base64 blob_target)
                      ∷ [];
              })
              s)

  -- What the second loop of `jcat_context_verify_target` does with a blob.
  pub data TargetSignature (item_target : JcatItem) (flags : ℕ)
      : JcatBlob → Session World → Check World → Type 0 where
    unavailable :
        (blob : JcatBlob) (s : Session World) (e : Error)
        → get_engine undefined_shift s.context blob.kind ≡ err e
        → TargetSignature item_target flags blob s skipped
    other_method :
        (blob : JcatBlob) (s : Session World) (engine : JcatEngine World)
        → get_engine undefined_shift s.context blob.kind ≡ ok engine
        → engine.method ≢ signature
        → TargetSignature item_target flags blob s skipped
    unknown_target :
        (blob : JcatBlob) (s : Session World) (engine : JcatEngine World)
        → get_engine undefined_shift s.context blob.kind ≡ ok engine
        → engine.method ≡ signature
        → blob.target ≡ unknown
        → TargetSignature item_target flags blob s skipped
    no_target :
        (blob : JcatBlob) (s : Session World) (engine : JcatEngine World) (e : Error)
        → get_engine undefined_shift s.context blob.kind ≡ ok engine
        → engine.method ≡ signature
        → blob.target ≢ unknown
        → get_blob_by_kind item_target blob.target ≡ err e
        → TargetSignature item_target flags blob s skipped
    no_data :
        (blob blob_target : JcatBlob) (s : Session World) (engine : JcatEngine World)
        → get_engine undefined_shift s.context blob.kind ≡ ok engine
        → engine.method ≡ signature
        → blob.target ≢ unknown
        → get_blob_by_kind item_target blob.target ≡ ok blob_target
        → blob_target.data_bytes ≡ none
        → TargetSignature item_target flags blob s (refused precondition s)
    verifies :
        (blob blob_target : JcatBlob) (s : Session World) (engine : JcatEngine World)
        (bytes : Bytes) (r : JcatResult) (v : Session World)
        → get_engine undefined_shift s.context blob.kind ≡ ok engine
        → engine.method ≡ signature
        → blob.target ≢ unknown
        → get_blob_by_kind item_target blob.target ≡ ok blob_target
        → blob_target.data_bytes ≡ some bytes
        → settle s.context blob.kind
            (pubkey_verify s.context.public_keys engine bytes blob.data_bytes flags s.world)
          ≡ (ok r, v)
        → TargetSignature item_target flags blob s (passed r v)
    fails :
        (blob blob_target : JcatBlob) (s : Session World) (engine : JcatEngine World)
        (bytes : Bytes) (e : Error) (v : Session World)
        → get_engine undefined_shift s.context blob.kind ≡ ok engine
        → engine.method ≡ signature
        → blob.target ≢ unknown
        → get_blob_by_kind item_target blob.target ≡ ok blob_target
        → blob_target.data_bytes ≡ some bytes
        → settle s.context blob.kind
            (pubkey_verify s.context.public_keys engine bytes blob.data_bytes flags s.world)
          ≡ (err e, v)
        → TargetSignature item_target flags blob s (refused e v)

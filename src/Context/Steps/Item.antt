-- ===== src/Context/Steps/Item.antt =====
-- libjcat/jcat-context.c: the steps of `jcat_context_verify_item` are those of the two functions that are
-- the bodies of its loops.
use libjcat.Context.Steps.{
  is_checksum-cases, is_checksum-own, is_checksum-other, is_signature-cases, is_signature-own,
  is_signature-other, ItemChecksum, ItemSignature, unavailable, other_method, verifies, fails,
}
use mathlib.Core.Path.{subst}
use libjcat.Blob.{JcatBlob}
use libjcat.Context.{Session, get_engine, settle}
use libjcat.Context.Verify.{Check, prefixed, checked, item_checksum, item_signature}
use libjcat.Engine.{JcatEngine, self_verify, pubkey_verify}
use libjcat.Kind.{JcatBlobKind, checksum, signature}
use libjcat.Prelude.{ℕ, Bool, Bytes, Result, ok, err, Result-cases, ◌≡◌, refl, ap, inl, inr}
use libjcat.Result.{JcatResult}

module _ {World : Type 0} (undefined_shift : ℕ → JcatBlobKind → Bool) where
  ran_ItemChecksum :
      (bytes : Bytes) (flags : ℕ) (blob : JcatBlob) (s : Session World) (engine : JcatEngine World)
      → get_engine undefined_shift s.context blob.kind ≡ ok engine
      → engine.method ≡ checksum
      → (p : Result JcatResult × Session World)
      → settle s.context blob.kind
          (self_verify s.context.public_keys engine bytes blob.data_bytes flags s.world)
        ≡ p
      → ItemChecksum undefined_shift bytes flags blob s (prefixed undefined_shift (checked p))
  ran_ItemChecksum bytes flags blob s engine found own (ok r, v) h =
      verifies blob s engine r v found own h
  ran_ItemChecksum bytes flags blob s engine found own (err e, v) h =
      fails blob s engine e v found own h

  pub item_checksum-ItemChecksum :
      (bytes : Bytes) (flags : ℕ) (blob : JcatBlob) (s : Session World) (c : Check World)
      → item_checksum undefined_shift bytes flags blob s ≡ c
      → ItemChecksum undefined_shift bytes flags blob s c
  unfolding item_checksum
  item_checksum-ItemChecksum bytes flags blob s c h =
      elim (Result-cases (get_engine undefined_shift s.context blob.kind)) [
        | inr (e, missing) ↦
            subst (ItemChecksum undefined_shift bytes flags blob s) (rw missing at h)
              (unavailable blob s e missing)
        | inl (engine, found) ↦ elim (is_checksum-cases engine.method) [
          | inr (other, not_own) ↦
              subst (ItemChecksum undefined_shift bytes flags blob s) (rw (found, not_own) at h)
                (other_method blob s engine found other)
          | inl (own, is_own) ↦
              subst (ItemChecksum undefined_shift bytes flags blob s) (rw (found, is_own) at h)
                (ran_ItemChecksum bytes flags blob s engine found own _ refl)
        ]
      ]

  pub ItemChecksum-item_checksum :
      (bytes : Bytes) (flags : ℕ) (blob : JcatBlob) (s : Session World) (c : Check World)
      → ItemChecksum undefined_shift bytes flags blob s c
      → item_checksum undefined_shift bytes flags blob s ≡ c
  unfolding item_checksum
  ItemChecksum-item_checksum bytes flags _ _ _ (unavailable blob s e missing) = rw missing refl
  ItemChecksum-item_checksum bytes flags _ _ _ (other_method blob s engine found other) =
      rw (found, is_checksum-other engine.method other) refl
  ItemChecksum-item_checksum bytes flags _ _ _ (verifies blob s engine r v found own h) =
      rw (found, is_checksum-own engine.method own)
        (ap (λ p. prefixed undefined_shift (checked p)) h)
  ItemChecksum-item_checksum bytes flags _ _ _ (fails blob s engine e v found own h) =
      rw (found, is_checksum-own engine.method own)
        (ap (λ p. prefixed undefined_shift (checked p)) h)

  ran_ItemSignature :
      (bytes : Bytes) (flags : ℕ) (blob : JcatBlob) (s : Session World) (engine : JcatEngine World)
      → get_engine undefined_shift s.context blob.kind ≡ ok engine
      → engine.method ≡ signature
      → (p : Result JcatResult × Session World)
      → settle s.context blob.kind
          (pubkey_verify s.context.public_keys engine bytes blob.data_bytes flags s.world)
        ≡ p
      → ItemSignature undefined_shift bytes flags blob s (checked p)
  ran_ItemSignature bytes flags blob s engine found own (ok r, v) h =
      verifies blob s engine r v found own h
  ran_ItemSignature bytes flags blob s engine found own (err e, v) h =
      fails blob s engine e v found own h

  pub item_signature-ItemSignature :
      (bytes : Bytes) (flags : ℕ) (blob : JcatBlob) (s : Session World) (c : Check World)
      → item_signature undefined_shift bytes flags blob s ≡ c
      → ItemSignature undefined_shift bytes flags blob s c
  unfolding item_signature
  item_signature-ItemSignature bytes flags blob s c h =
      elim (Result-cases (get_engine undefined_shift s.context blob.kind)) [
        | inr (e, missing) ↦
            subst (ItemSignature undefined_shift bytes flags blob s) (rw missing at h)
              (unavailable blob s e missing)
        | inl (engine, found) ↦ elim (is_signature-cases engine.method) [
          | inr (other, not_own) ↦
              subst (ItemSignature undefined_shift bytes flags blob s) (rw (found, not_own) at h)
                (other_method blob s engine found other)
          | inl (own, is_own) ↦
              subst (ItemSignature undefined_shift bytes flags blob s) (rw (found, is_own) at h)
                (ran_ItemSignature bytes flags blob s engine found own _ refl)
        ]
      ]

  pub ItemSignature-item_signature :
      (bytes : Bytes) (flags : ℕ) (blob : JcatBlob) (s : Session World) (c : Check World)
      → ItemSignature undefined_shift bytes flags blob s c
      → item_signature undefined_shift bytes flags blob s ≡ c
  unfolding item_signature
  ItemSignature-item_signature bytes flags _ _ _ (unavailable blob s e missing) = rw missing refl
  ItemSignature-item_signature bytes flags _ _ _ (other_method blob s engine found other) =
      rw (found, is_signature-other engine.method other) refl
  ItemSignature-item_signature bytes flags _ _ _ (verifies blob s engine r v found own h) =
      rw (found, is_signature-own engine.method own) (ap checked h)
  ItemSignature-item_signature bytes flags _ _ _ (fails blob s engine e v found own h) =
      rw (found, is_signature-own engine.method own) (ap checked h)

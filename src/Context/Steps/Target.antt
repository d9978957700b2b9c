-- ===== src/Context/Steps/Target.antt =====
-- libjcat/jcat-context.c: the steps of `jcat_context_verify_target` are those of the two functions that
-- are the bodies of its loops.
use libjcat.Context.Steps.{
  is_checksum-cases, is_checksum-own, is_checksum-other, is_signature-cases, is_signature-own,
  is_signature-other, TargetChecksum, TargetSignature, unavailable, other_method, no_target,
  same_text, other_text, unknown_target, no_data, verifies, fails,
}
use mathlib.Core.Path.{subst}
use libjcat.Blob.{JcatBlob, get_data_as_string}
use libjcat.Context.{Session, get_engine, settle}
use libjcat.Context.Verify.{
  Check, checked, signature_by, target_checksum, target_signature, sign_target, compare_checksums,
}
use libjcat.Engine.{JcatEngine, pubkey_verify}
use libjcat.Item.{JcatItem, get_blob_by_kind}
use libjcat.Json.{Base64}
use libjcat.Kind.{JcatBlobKind, checksum, signature, unknown}
use libjcat.Prelude.{
  ℕ, Bool, true, false, Bool-cases, Option, none, some, Bytes, Result, ok, err, Result-cases,
  strcmp0_eq, strcmp0_eq_iff, ◌==◌, ==_iff, ◌≡◌, ◌≢◌, refl, sym, ap, ◌∙◌, inl, inr, arith,
}
use libjcat.Result.{JcatResult}

equal_texts :
    (base64 : Base64) (blob blob_target : JcatBlob)
    → get_data_as_string base64 blob ≡ get_data_as_string base64 blob_target
    → strcmp0_eq (get_data_as_string base64 blob) (get_data_as_string base64 blob_target) ≡ true
equal_texts base64 blob blob_target same = (strcmp0_eq_iff _ _).1 same

other_texts :
    (base64 : Base64) (blob blob_target : JcatBlob)
    → get_data_as_string base64 blob ≢ get_data_as_string base64 blob_target
    → strcmp0_eq (get_data_as_string base64 blob) (get_data_as_string base64 blob_target) ≡ false
other_texts base64 blob blob_target differ =
    elim (Bool-cases
      (strcmp0_eq (get_data_as_string base64 blob) (get_data_as_string base64 blob_target))) [
        | inl equal ↦ absurd (differ ((strcmp0_eq_iff _ _).0 equal))
        | inr differs ↦ differs
      ]

known_target : (kind : JcatBlobKind) → kind ≢ unknown → (kind == unknown) ≡ false
known_target kind known = ground (arith, known, ==_iff kind unknown)

module _ {World : Type 0} (undefined_shift : ℕ → JcatBlobKind → Bool) where
  compared_TargetChecksum :
      (base64 : Base64) (item_target : JcatItem) (blob : JcatBlob) (s : Session World)
      (engine : JcatEngine World)
      → get_engine undefined_shift s.context blob.kind ≡ ok engine
      → engine.method ≡ checksum
      → (r : Result JcatBlob) → get_blob_by_kind item_target blob.kind ≡ r
      → TargetChecksum undefined_shift base64 item_target blob s
          (compare_checksums undefined_shift base64 blob engine s r)
  compared_TargetChecksum base64 item_target blob s engine found own (err e) h =
      no_target blob s engine e found own h
  compared_TargetChecksum base64 item_target blob s engine found own (ok blob_target) h =
      let text = get_data_as_string base64 blob in
      let text_target = get_data_as_string base64 blob_target in
      elim (Bool-cases (strcmp0_eq text text_target)) [
        | inl equal ↦ rw equal (
            same_text blob blob_target s engine found own h
              ((strcmp0_eq_iff text text_target).0 equal))
        | inr differs ↦ rw differs (
            other_text blob blob_target s engine found own h
              (λ e. cc (sym differs ∙ (strcmp0_eq_iff text text_target).1 e)))
      ]

  pub target_checksum-TargetChecksum :
      (base64 : Base64) (item_target : JcatItem) (blob : JcatBlob) (s : Session World)
      (c : Check World)
      → target_checksum undefined_shift base64 item_target blob s ≡ c
      → TargetChecksum undefined_shift base64 item_target blob s c
  unfolding target_checksum
  target_checksum-TargetChecksum base64 item_target blob s c h =
      elim (Result-cases (get_engine undefined_shift s.context blob.kind)) [
        | inr (e, missing) ↦
            subst (TargetChecksum undefined_shift base64 item_target blob s) (rw missing at h)
              (unavailable blob s e missing)
        | inl (engine, found) ↦ elim (is_checksum-cases engine.method) [
          | inr (other, not_own) ↦
              subst (TargetChecksum undefined_shift base64 item_target blob s)
                (rw (found, not_own) at h) (other_method blob s engine found other)
          | inl (own, is_own) ↦
              subst (TargetChecksum undefined_shift base64 item_target blob s)
                (rw (found, is_own) at h)
                (compared_TargetChecksum base64 item_target blob s engine found own _ refl)
        ]
      ]

  pub TargetChecksum-target_checksum :
      (base64 : Base64) (item_target : JcatItem) (blob : JcatBlob) (s : Session World)
      (c : Check World)
      → TargetChecksum undefined_shift base64 item_target blob s c
      → target_checksum undefined_shift base64 item_target blob s ≡ c
  unfolding target_checksum
  TargetChecksum-target_checksum base64 item_target _ _ _ (unavailable blob s e missing) =
      rw missing refl
  TargetChecksum-target_checksum base64 item_target _ _ _ (other_method blob s engine found other) =
      rw (found, is_checksum-other engine.method other) refl
  TargetChecksum-target_checksum base64 item_target _ _ _
        (no_target blob s engine e found own missing) =
      rw (found, is_checksum-own engine.method own, missing) refl
  TargetChecksum-target_checksum base64 item_target _ _ _
        (same_text blob blob_target s engine found own target same) =
      rw
        (found, is_checksum-own engine.method own, target, equal_texts base64 blob blob_target same)
        refl
  TargetChecksum-target_checksum base64 item_target _ _ _
        (other_text blob blob_target s engine found own target differ) =
      rw
        (
          found,
          is_checksum-own engine.method own,
          target,
          other_texts base64 blob blob_target differ,
        )
        refl

  ran_TargetSignature :
      (item_target : JcatItem) (flags : ℕ) (blob blob_target : JcatBlob) (s : Session World)
      (engine : JcatEngine World) (bytes : Bytes)
      → get_engine undefined_shift s.context blob.kind ≡ ok engine
      → engine.method ≡ signature
      → blob.target ≢ unknown
      → get_blob_by_kind item_target blob.target ≡ ok blob_target
      → blob_target.data_bytes ≡ some bytes
      → (p : Result JcatResult × Session World)
      → settle s.context blob.kind
          (pubkey_verify s.context.public_keys engine bytes blob.data_bytes flags s.world)
        ≡ p
      → TargetSignature undefined_shift item_target flags blob s (checked p)
  ran_TargetSignature item_target flags blob blob_target s engine bytes found own known target
        content (ok r, v) h =
      verifies blob blob_target s engine bytes r v found own known target content h
  ran_TargetSignature item_target flags blob blob_target s engine bytes found own known target
        content (err e, v) h =
      fails blob blob_target s engine bytes e v found own known target content h

  data_TargetSignature :
      (item_target : JcatItem) (flags : ℕ) (blob blob_target : JcatBlob) (s : Session World)
      (engine : JcatEngine World)
      → get_engine undefined_shift s.context blob.kind ≡ ok engine
      → engine.method ≡ signature
      → blob.target ≢ unknown
      → get_blob_by_kind item_target blob.target ≡ ok blob_target
      → (content : Option Bytes) → blob_target.data_bytes ≡ content
      → TargetSignature undefined_shift item_target flags blob s
          (signature_by undefined_shift content flags blob s engine)
  data_TargetSignature item_target flags blob blob_target s engine found own known target none h =
      no_data blob blob_target s engine found own known target h
  data_TargetSignature item_target flags blob blob_target s engine found own known target
        (some bytes) h =
      ran_TargetSignature item_target flags blob blob_target s engine bytes found own known target h
        _ refl

  signed_TargetSignature :
      (item_target : JcatItem) (flags : ℕ) (blob : JcatBlob) (s : Session World)
      (engine : JcatEngine World)
      → get_engine undefined_shift s.context blob.kind ≡ ok engine
      → engine.method ≡ signature
      → blob.target ≢ unknown
      → (r : Result JcatBlob) → get_blob_by_kind item_target blob.target ≡ r
      → TargetSignature undefined_shift item_target flags blob s
          (sign_target undefined_shift flags blob s engine r)
  signed_TargetSignature item_target flags blob s engine found own known (err e) h =
      no_target blob s engine e found own known h
  signed_TargetSignature item_target flags blob s engine found own known (ok blob_target) h =
      data_TargetSignature item_target flags blob blob_target s engine found own known h _ refl

  pub target_signature-TargetSignature :
      (item_target : JcatItem) (flags : ℕ) (blob : JcatBlob) (s : Session World) (c : Check World)
      → target_signature undefined_shift item_target flags blob s ≡ c
      → TargetSignature undefined_shift item_target flags blob s c
  unfolding target_signature
  target_signature-TargetSignature item_target flags blob s c h =
      elim (Result-cases (get_engine undefined_shift s.context blob.kind)) [
        | inr (e, missing) ↦
            subst (TargetSignature undefined_shift item_target flags blob s) (rw missing at h)
              (unavailable blob s e missing)
        | inl (engine, found) ↦ elim (is_signature-cases engine.method) [
          | inr (other, not_own) ↦
              subst (TargetSignature undefined_shift item_target flags blob s)
                (rw (found, not_own) at h) (other_method blob s engine found other)
          | inl (own, is_own) ↦ elim (Bool-cases (blob.target == unknown)) [
            | inl not_known ↦
                subst (TargetSignature undefined_shift item_target flags blob s)
                  (rw (found, is_own, not_known) at h)
                  (unknown_target blob s engine found own
                    ((==_iff blob.target unknown).0 not_known))
            | inr known ↦
                subst (TargetSignature undefined_shift item_target flags blob s)
                  (rw (found, is_own, known) at h)
                  (signed_TargetSignature item_target flags blob s engine found own
                    (λ e. cc (sym known ∙ (==_iff blob.target unknown).1 e)) _ refl)
          ]
        ]
      ]

  pub TargetSignature-target_signature :
      (item_target : JcatItem) (flags : ℕ) (blob : JcatBlob) (s : Session World) (c : Check World)
      → TargetSignature undefined_shift item_target flags blob s c
      → target_signature undefined_shift item_target flags blob s ≡ c
  unfolding target_signature
  TargetSignature-target_signature item_target flags _ _ _ (unavailable blob s e missing) =
      rw missing refl
  TargetSignature-target_signature item_target flags _ _ _
        (other_method blob s engine found other) =
      rw (found, is_signature-other engine.method other) refl
  TargetSignature-target_signature item_target flags _ _ _
        (unknown_target blob s engine found own not_known) =
      rw (found, is_signature-own engine.method own, (==_iff blob.target unknown).1 not_known) refl
  TargetSignature-target_signature item_target flags _ _ _
        (no_target blob s engine e found own known missing) =
      rw (found, is_signature-own engine.method own, known_target blob.target known, missing) refl
  TargetSignature-target_signature item_target flags _ _ _
        (no_data blob blob_target s engine found own known target content) =
      rw
        (found, is_signature-own engine.method own, known_target blob.target known, target, content)
        refl
  TargetSignature-target_signature item_target flags _ _ _
        (verifies blob blob_target s engine bytes r v found own known target content h) =
      rw
        (found, is_signature-own engine.method own, known_target blob.target known, target, content)
        (ap checked h)
  TargetSignature-target_signature item_target flags _ _ _
        (fails blob blob_target s engine bytes e v found own known target content h) =
      rw
        (found, is_signature-own engine.method own, known_target blob.target known, target, content)
        (ap checked h)

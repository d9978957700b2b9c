-- ===== src/Context/Accepts.antt =====
-- libjcat/jcat-context.c: when the two verifications succeed.
use mathlib.Core.Path.{subst}
use libjcat.Blob.{JcatBlob}
use libjcat.Context.{Bytes, codes, Session}
use libjcat.Context.Accepted.{Accepted, Accepted-map}
use libjcat.Context.Steps.{ItemChecksum, ItemSignature, TargetChecksum, TargetSignature}
use libjcat.Context.Steps.Item.{
  item_checksum-ItemChecksum, ItemChecksum-item_checksum, item_signature-ItemSignature,
  ItemSignature-item_signature,
}
use libjcat.Context.Steps.Target.{
  target_checksum-TargetChecksum, TargetChecksum-target_checksum, target_signature-TargetSignature,
  TargetSignature-target_signature,
}
use libjcat.Context.Passes.{
  StepOf, AllPass-length, AllTried, checksum_loop-AllPass, AllPass-checksum_loop, tried,
  AllTried-signature_loop, AllTried-length,
}
use libjcat.Context.Verify.{
  Check, Tally, signature_loop, conclude, verify_blobs, verify_item, item_checksum, item_signature,
  verify_target, target_checksum, target_signature, failure,
}
use libjcat.Engine.Setup.{and_then-eq-ok}
use libjcat.Item.{JcatItem}
use libjcat.Json.{Base64}
use libjcat.Kind.{JcatBlobKind, has_flag, require_checksum, require_signature}
use libjcat.Prelude.{
  ap, ℕ, ◌+◌, ◌%◌, ◌<◌, Bool, true, ◌&&◌, List, [], ◌∷◌, ◌++◌, u32_mod, Error, Result, ok, err,
  length, length-append, ◌==◌, ◌≡◌, refl, ◌↔◌, arith, if◌then◌else◌,
}
use libjcat.Result.{JcatResult}

-- Two tests in front of a success.
guarded_iff :
    {S : Type 0} (required : Bool) (nr : ℕ) (have results : List JcatResult) (e f : Error) (s u : S)
    → ◌≡◌ {A = Result (List JcatResult) × S}
        (if required && nr == 0
          then (err e, s)
          else if length have == 0
          then (err f, s)
          else (ok have, s))
        (ok results, u)
      ↔ ((have ≡ results) × (s ≡ u) × (0 < length results) × (required ≡ true → 0 < nr))
guarded_iff required nr have results e f s u = ground arith

required_iff :
    {S : Type 0} (required : Bool) (nr : ℕ) (e : Error) (s u : S) (results : List JcatResult)
    (next : Result (List JcatResult) × S)
    → ◌≡◌ {A = Result (List JcatResult) × S}
        (if required && nr == 0 then (err e, s) else next)
        (ok results, u)
      ↔ ((next ≡ (ok results, u)) × (required ≡ true → 0 < nr))
required_iff required nr e s u results next = ground arith

conclude_iff :
    {World : Type 0} (flags : ℕ) (tally : Tally) (results : List JcatResult) (s u : Session World)
    → (conclude flags (tally, s) ≡ (ok results, u)) ↔ (
        (tally.results ≡ results)
        × (s ≡ u)
        × (0 < length results)
        × (has_flag flags require_signature ≡ true → 0 < tally.nr_signature))
conclude_iff flags tally results s u =
    guarded_iff (has_flag flags require_signature) tally.nr_signature tally.results results _ _ s u

module _ {World : Type 0}
    (checksum_check signature_check : JcatBlob → Session World → Check World) where
  -- What follows the first loop.
  abbrev second :
      List JcatBlob → ℕ → List JcatResult → Session World → Result (List JcatResult) × Session World
  second blobs flags results s =
      if has_flag flags require_checksum && length results == 0
      then (err (failure (codes "checksums were required, but none supplied")), s)
      else conclude flags
          (signature_loop signature_check blobs (record { results = results; nr_signature = 0 }) s)

  conclude-signature_loop :
      (blobs : List JcatBlob) (flags : ℕ) (checksums results signatures : List JcatResult)
      (s v u : Session World)
      → length blobs < u32_mod
      → AllTried (StepOf signature_check) blobs s signatures v
      → (conclude flags (
            signature_loop signature_check blobs
              (record { results = checksums; nr_signature = 0 })
              s)
          ≡ (ok results, u))
        ↔ ((checksums ++ signatures ≡ results)
            × (v ≡ u)
            × (0 < length results)
            × (has_flag flags require_signature ≡ true → 0 < length signatures))
  conclude-signature_loop blobs flags checksums results signatures s v u few t =
      let tally : Tally = record {
        results = checksums ++ signatures;
        nr_signature = (0 + length signatures) % u32_mod;
      } in
      let (there, back) = conclude_iff flags tally results v u in
      let short = AllTried-length signature_check blobs signatures s v t in
      rw
        (AllTried-signature_loop signature_check blobs
          (record { results = checksums; nr_signature = 0 }) signatures s v (omega arith) t)
        (
          (λ h.
              let (same, state, some_result, signed) = there h in
              (same, state, some_result, λ required. omega (arith, signed required, short))),
          λ (same, state, some_result, signed).
              back (same, state, some_result, λ required. omega (arith, signed required, short)),
        )

  verify_blobs-Accepted :
      (blobs : List JcatBlob) (flags : ℕ) (s : Session World) (results : List JcatResult)
      (u : Session World)
      → length blobs < u32_mod
      → verify_blobs checksum_check signature_check blobs flags s ≡ (ok results, u)
      → Accepted (StepOf checksum_check) (StepOf signature_check) blobs flags s results u
  unfolding verify_blobs
  verify_blobs-Accepted [] flags s results u few h = absurd (cc (ap (λ p. p.0) h))
  verify_blobs-Accepted (blob ∷ blobs) flags s results u few h =
      let (checksums, v, passes, rest) = and_then-eq-ok _ (second (blob ∷ blobs) flags) h in
      let (_, same, all) =
        checksum_loop-AllPass checksum_check (blob ∷ blobs) [] checksums s v passes in
      let (signatures, w, t) = tried signature_check (blob ∷ blobs) v in
      let (concluded, has_checksum) =
        (required_iff (has_flag flags require_checksum) (length checksums) _ v u results _).0
          rest in
      let (joined, state, some_result, has_signature) =
        (conclude-signature_loop (blob ∷ blobs) flags checksums results signatures v w u few t).0
          concluded in
      record {
        checksums = checksums;
        signatures = signatures;
        between = v;
        checksums_pass = rw (same) all;
        signatures_tried =
            subst
              (λ (x : Session World).
                AllTried (StepOf signature_check) (blob ∷ blobs) v signatures x)
              state t;
        results_are = joined;
        has_result = some_result;
        has_checksum = has_checksum;
        has_signature = has_signature;
      }

  Accepted-verify_blobs :
      (blobs : List JcatBlob) (flags : ℕ) (s : Session World) (results : List JcatResult)
      (u : Session World)
      → length blobs < u32_mod
      → Accepted (StepOf checksum_check) (StepOf signature_check) blobs flags s results u
      → verify_blobs checksum_check signature_check blobs flags s ≡ (ok results, u)
  unfolding verify_blobs
  Accepted-verify_blobs [] flags s results u few a = absurd (
      omega (
        arith,
        AllPass-length checksum_check [] a.checksums s a.between a.checksums_pass,
        AllTried-length signature_check [] a.signatures a.between u a.signatures_tried,
        length-append a.checksums a.signatures,
        ap (λ (l : List JcatResult). length l) a.results_are,
        a.has_result,
      ))
  Accepted-verify_blobs (blob ∷ blobs) flags s results u few a =
      let concluded =
        (conclude-signature_loop (blob ∷ blobs) flags a.checksums results a.signatures a.between u u
            few a.signatures_tried).1
          (a.results_are, refl, a.has_result, a.has_signature) in
      rw
        (AllPass-checksum_loop checksum_check (blob ∷ blobs) [] a.checksums s a.between
          a.checksums_pass)
        ((required_iff (has_flag flags require_checksum) (length a.checksums) _ a.between u results
            _).1
          (concluded, a.has_checksum))

-- `jcat_context_verify_item` by the functions that are the bodies of its loops.
pub verify_item-steps :
    {World : Type 0} (undefined_shift : ℕ → JcatBlobKind → Bool) (bytes : Bytes) (item : JcatItem)
    (flags : ℕ) (s : Session World) (results : List JcatResult) (u : Session World)
    → length item.blobs < u32_mod
    → (verify_item undefined_shift bytes item flags s ≡ (ok results, u))
      ↔ Accepted
          (StepOf (item_checksum undefined_shift bytes flags))
          (StepOf (item_signature undefined_shift bytes flags))
          item.blobs
          flags
          s
          results
          u
unfolding verify_item
verify_item-steps undefined_shift bytes item flags s results u few =
    let check = item_checksum undefined_shift bytes flags in
    let sign = item_signature undefined_shift bytes flags in
    (
      verify_blobs-Accepted check sign item.blobs flags s results u few,
      Accepted-verify_blobs check sign item.blobs flags s results u few,
    )

-- Where the item has fewer than 2^32 blobs, `jcat_context_verify_item` succeeds exactly when, in order,
-- every blob is left out, because no engine is available for its kind or the engine's method is not that
-- of a checksum, or its engine's self-verification of the data accepts it; and then, of the blobs whose
-- engine's method is that of a signature, whose failures do not count, and of the checksums together
-- at least one has verified, with at least one checksum and at least one signature where the flags
-- require them. The results are those of the blobs that verified.
pub verify_item_iff :
    {World : Type 0} (undefined_shift : ℕ → JcatBlobKind → Bool) (bytes : Bytes) (item : JcatItem)
    (flags : ℕ) (s : Session World) (results : List JcatResult) (u : Session World)
    → length item.blobs < u32_mod
    → (verify_item undefined_shift bytes item flags s ≡ (ok results, u))
      ↔ Accepted
          (ItemChecksum undefined_shift bytes flags)
          (ItemSignature undefined_shift bytes flags)
          item.blobs
          flags
          s
          results
          u
verify_item_iff undefined_shift bytes item flags s results u few =
    let (there, back) = verify_item-steps undefined_shift bytes item flags s results u few in
    (
      λ h.
          Accepted-map (item_checksum-ItemChecksum undefined_shift bytes flags)
            (item_signature-ItemSignature undefined_shift bytes flags) (there h),
      λ a. back (
          Accepted-map (ItemChecksum-item_checksum undefined_shift bytes flags)
            (ItemSignature-item_signature undefined_shift bytes flags) a),
    )

-- Where the item has fewer than 2^32 blobs, `jcat_context_verify_target` succeeds exactly when, in order,
-- every blob is left out, because no engine is available for its kind, the engine's method is not that of
-- a checksum or the target has not exactly one blob of the kind, or the text of its data is that of the
-- target's blob; and then, of the signatures and the checksums together at least one has verified, with
-- at least one checksum and at least one signature where the flags require them. A signature whose
-- target is known is checked against the data of the one blob of the target of that kind, and its
-- failure does not count. The results are those of the blobs that verified.
pub verify_target_iff :
    {World : Type 0} (undefined_shift : ℕ → JcatBlobKind → Bool) (base64 : Base64)
    (item_target item : JcatItem) (flags : ℕ) (s : Session World) (results : List JcatResult)
    (u : Session World)
    → length item.blobs < u32_mod
    → (verify_target undefined_shift base64 item_target item flags s ≡ (ok results, u))
      ↔ Accepted
          (TargetChecksum undefined_shift base64 item_target)
          (TargetSignature undefined_shift item_target flags)
          item.blobs
          flags
          s
          results
          u
unfolding verify_target
verify_target_iff undefined_shift base64 item_target item flags s results u few =
    let check = target_checksum undefined_shift base64 item_target in
    let sign = target_signature undefined_shift item_target flags in
    (
      λ h.
          Accepted-map (target_checksum-TargetChecksum undefined_shift base64 item_target)
            (target_signature-TargetSignature undefined_shift item_target flags)
            (verify_blobs-Accepted check sign item.blobs flags s results u few h),
      λ a. Accepted-verify_blobs check sign item.blobs flags s results u few (
          Accepted-map (TargetChecksum-target_checksum undefined_shift base64 item_target)
            (TargetSignature-target_signature undefined_shift item_target flags) a),
    )

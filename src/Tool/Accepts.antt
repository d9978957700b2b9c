-- ===== src/Tool/Accepts.antt =====
-- libjcat/jcat-tool.c: when `jcat_tool_verify_item` and the loop of `jcat_tool_verify` succeed.
use libjcat.Blob.{JcatBlob}
use libjcat.Context.{verify_blob}
use libjcat.Engine.{Action, and_then}
use libjcat.Engine.Setup.{and_then-eq-ok}
use libjcat.Item.{JcatItem}
use libjcat.Kind.{JcatBlobKind}
use libjcat.Prelude.{
  ℕ, Bool, true, false, ◌&&◌, Bool-cases, Option, none, some, List, [], ◌∷◌, ◌++◌, Bytes, codes,
  Result, ok, err, ok-injective, ◌≡◌, refl, sym, ap, ◌∙◌, ◌↔◌, inl, inr, arith,
}
use libjcat.Result.{JcatResult}
use libjcat.System.{Gio}
use libjcat.Tool.Verify.{
  reported, kind_str, verify_flags, report, tolerated, find_source, blob_source, verify_source,
  check_blob, check_blobs, concluded, verify_item,
}
use libjcat.Tool.Sources.{IsLeftOut, IsWanted, Tolerated, Flags, Source, HasSource}
use libjcat.Tool.Sources.Agree.{
  skips_iff, skips-IsWanted_iff, tolerated_iff, verify_flags-Flags, Flags-verify_flags,
  blob_source-Source, Source-blob_source, find_source-HasSource, HasSource-find_source,
}
use libjcat.Tool.Writing.{skips}
use libjcat.Tool.{Tool, printed, on_session}

-- A result that was lifted, and what follows it.
lift-eq-ok :
    {World A B : Type 0} (r : Result A) (w : World) (next : A → Action World B) {b : B} {v : World}
    → and_then (r, w) next ≡ (ok b, v)
    → (a : A) × (r ≡ ok a) × (next a w ≡ (ok b, v))
lift-eq-ok (ok a) w next h = (a, refl, h)
lift-eq-ok (err e) w next h = absurd (cc (ap (λ p. p.0) h))

module _ {World : Type 0} (gio : Gio World) (undefined_shift : ℕ → JcatBlobKind → Bool) where
  -- No blob fails: each is left out for its kind, or has data to be verified against, and its
  -- verification succeeds or ends with NOT_FOUND. The next one starts from what this one leaves and
  -- prints.
  pub data NoneFails (item : JcatItem) (source : Bytes)
      : List JcatBlob → Tool World → Tool World → Type 0 where
    none_left : (t : Tool World) → NoneFails item source [] t t
    left_out :
        (blob : JcatBlob) (blobs : List JcatBlob) (t u : Tool World)
        → IsLeftOut t.priv.kind blob
        → NoneFails item source blobs t u
        → NoneFails item source (blob ∷ blobs) t u
    checked :
        (blob : JcatBlob) (blobs : List JcatBlob) (bytes : Bytes) (flags : ℕ)
        (result : Result JcatResult) (t v u : Tool World)
        → IsWanted t.priv.kind blob
        → Source item source blob (some bytes)
        → Flags t.priv.disable_time_checks t.priv.only_pq flags
        → on_session (verify_blob undefined_shift bytes blob flags) t ≡ (result, v)
        → Tolerated result
        → NoneFails item source blobs
            (record v { world = gio.print (report gio (kind_str blob) result) v.world })
            u
        → NoneFails item source (blob ∷ blobs) t u

  -- A blob that was verified, with data or without.
  verified_NoneFails :
      (item : JcatItem) (source : Bytes) (blob : JcatBlob) (blobs : List JcatBlob)
      (bytes : Option Bytes) (result : Result JcatResult) (t v u : Tool World)
      → skips t.priv.kind blob ≡ false
      → blob_source gio undefined_shift item source blob ≡ ok bytes
      → on_session (verify_source gio undefined_shift bytes blob (verify_flags t.priv)) t
        ≡ (result, v)
      → tolerated gio result ≡ true
      → NoneFails item source blobs
          (record v { world = gio.print (report gio (kind_str blob) result) v.world })
          u
      → NoneFails item source (blob ∷ blobs) t u
  unfolding verify_source tolerated
  verified_NoneFails item source blob blobs none result t v u s b c o all =
      absurd (cc (ap (λ p. tolerated gio p.0) c ∙ o))
  verified_NoneFails item source blob blobs (some bytes) result t v u s b c o all =
      checked blob blobs bytes (verify_flags t.priv) result t v u
        ((skips-IsWanted_iff t.priv.kind blob).0 s)
        (blob_source-Source gio undefined_shift item source blob (some bytes) b)
        (verify_flags-Flags gio t.priv) c ((tolerated_iff gio result).0 o) all

  both_true : (a b : Bool) → (a && b) ≡ true → (a ≡ true) × (b ≡ true)
  both_true a b h = ground arith

  check_blob-ok :
      (item : JcatItem) (source : Bytes) (blob : JcatBlob) (passed : Bool) (t v : Tool World)
      → check_blob gio undefined_shift item source blob t ≡ (ok passed, v)
      → (bytes : Option Bytes) × (result : Result JcatResult) × (x : Tool World) × (blob_source gio
            undefined_shift item source blob
          ≡ ok bytes)
        × (on_session (verify_source gio undefined_shift bytes blob (verify_flags t.priv)) t
            ≡ (result, x))
        × (tolerated gio result ≡ passed)
        × (record x { world = gio.print (report gio (kind_str blob) result) x.world } ≡ v)
  unfolding check_blob
  check_blob-ok item source blob passed t v h =
      let (bytes, found, later) =
        lift-eq-ok (blob_source gio undefined_shift item source blob) t _ h in
      let verified =
        on_session (verify_source gio undefined_shift bytes blob (verify_flags t.priv)) in
      (
        bytes,
        (verified t).0,
        (verified t).1,
        found,
        refl,
        ok-injective (ap (λ p. p.0) later),
        ap (λ p. p.1) later,
      )

  check_blob-checked :
      (item : JcatItem) (source : Bytes) (blob : JcatBlob) (bytes : Option Bytes)
      (result : Result JcatResult) (t v : Tool World)
      → blob_source gio undefined_shift item source blob ≡ ok bytes
      → on_session (verify_source gio undefined_shift bytes blob (verify_flags t.priv)) t
        ≡ (result, v)
      → check_blob gio undefined_shift item source blob t
        ≡ reported gio undefined_shift (kind_str blob) (result, v)
  unfolding check_blob
  check_blob-checked item source blob bytes result t v b c =
      rw (b, check_blob) (ap (reported gio undefined_shift (kind_str blob)) c)

  check_blobs-NoneFails :
      (item : JcatItem) (source : Bytes) (blobs : List JcatBlob) (ret : Bool) (t u : Tool World)
      → check_blobs gio undefined_shift item source blobs ret t ≡ (ok true, u)
      → (ret ≡ true) × NoneFails item source blobs t u
  unfolding check_blobs check_blob
  check_blobs-NoneFails item source [] ret t u h =
      (ok-injective (ap (λ p. p.0) h), rw (sym (ap (λ p. p.1) h)) (none_left t))
  check_blobs-NoneFails item source (blob ∷ blobs) ret t u h =
      elim (Bool-cases (skips t.priv.kind blob)) [
        | inl s ↦
            let (was, all) =
              check_blobs-NoneFails item source blobs ret t u (rw (s, check_blobs) at h) in
            (was, left_out blob blobs t u ((skips_iff t.priv.kind blob).0 s) all)
        | inr s ↦
            let (passed, v, now, later) =
              and_then-eq-ok (check_blob gio undefined_shift item source blob t)
                (λ passed. check_blobs gio undefined_shift item source blobs (ret && passed))
                (rw (s, check_blobs) at h) in
            let (both, all) = check_blobs-NoneFails item source blobs (ret && passed) v u later in
            let (bytes, result, x, found, ran, same, state) =
              check_blob-ok item source blob passed t v now in
            let (was, now_true) = both_true ret passed both in
            (
              was,
              verified_NoneFails item source blob blobs bytes result t x u s found ran
                  (rw same now_true) (rw state all),
            )
      ]

  with_flags :
      (bytes : Bytes) (blob : JcatBlob) (flags : ℕ) (result : Result JcatResult) (t v : Tool World)
      → flags ≡ verify_flags t.priv
      → on_session (verify_blob undefined_shift bytes blob flags) t ≡ (result, v)
      → on_session (verify_source gio undefined_shift (some bytes) blob (verify_flags t.priv)) t
        ≡ (result, v)
  unfolding verify_source
  with_flags bytes blob flags result t v same c =
      ap (λ n. on_session (verify_blob undefined_shift bytes blob n) t) (sym same) ∙ c

  NoneFails-check_blobs :
      (item : JcatItem) (source : Bytes) (blobs : List JcatBlob) (t u : Tool World)
      → NoneFails item source blobs t u
      → check_blobs gio undefined_shift item source blobs true t ≡ (ok true, u)
  unfolding check_blobs check_blob
  NoneFails-check_blobs item source _ _ _ (none_left t) = refl
  NoneFails-check_blobs item source _ _ _ (left_out blob blobs t u left all) =
      rw (((skips_iff t.priv.kind blob).1 left), check_blobs)
        (NoneFails-check_blobs item source blobs t u all)
  NoneFails-check_blobs item source _ _ _
        (checked blob blobs bytes flags result t v u wanted source_is flags_are c good all) =
      rw
        (
          (skips-IsWanted_iff t.priv.kind blob).1 wanted,
          check_blobs,
          check_blob-checked item source blob (some bytes) result t v
              (Source-blob_source gio undefined_shift item source blob (some bytes) source_is)
              (with_flags bytes blob flags result t v
                (Flags-verify_flags gio t.priv flags flags_are) c),
          (tolerated_iff gio result).1 good,
        )
        (NoneFails-check_blobs item source blobs _ u all)

  -- An item that passes: behind the line with its ID, a source is found and read, and no blob fails.
  pub record ItemPasses (item : JcatItem) (t u : Tool World) : Type 0 where
    pub source : Bytes
    pub between : Tool World
    pub has_source :
        HasSource gio item
          (record t { world = gio.print (printed item.id ++ codes ":\n") t.world })
          source
          between
    pub none_fails : NoneFails item source item.blobs between u

  pub concluded-ok :
      (ret : Bool) (t u : Tool World)
      → concluded gio undefined_shift ret t ≡ (ok tt, u)
      → (ret ≡ true) × (t ≡ u)
  concluded-ok true t u h = (refl, ap (λ p. p.1) h)
  concluded-ok false t u h = absurd (cc (ap (λ p. p.0) h))

  verify_item-ItemPasses :
      (item : JcatItem) (t u : Tool World)
      → verify_item gio undefined_shift item t ≡ (ok tt, u)
      → ItemPasses item t u
  unfolding verify_item
  verify_item-ItemPasses item t u h =
      let begun : Tool World = record t {
        world = gio.print (printed item.id ++ codes ":\n") t.world;
      } in
      let (source, v, found, later) = and_then-eq-ok (find_source gio item begun) _ h in
      let (ret, w, ran, end) =
        and_then-eq-ok (check_blobs gio undefined_shift item source item.blobs true v) _ later in
      let (good, same) = concluded-ok ret w u end in
      let (_, all) =
        check_blobs-NoneFails item source item.blobs true v u (ran ∙ rw (good, same) refl) in
      record {
        source = source;
        between = v;
        has_source = find_source-HasSource gio item begun source v found;
        none_fails = all;
      }

  -- `jcat_tool_verify_item` succeeds exactly if the item passes: of the names that its ID and its
  -- aliases give, the first file that exists is read, and of the blobs none fails. A blob is left out
  -- if a kind was given that is not its own. Every other one is verified against that file, or, if it
  -- has a target, against the data of the item's one blob of that kind, with the flags that were
  -- given; a verification that ends with NOT_FOUND is no failure. Every blob is tried, from the state
  -- that the one before it leaves.
  pub verify_item-ItemPasses_iff :
      (item : JcatItem) (t u : Tool World)
      → (verify_item gio undefined_shift item t ≡ (ok tt, u)) ↔ ItemPasses item t u
  unfolding verify_item
  verify_item-ItemPasses_iff item t u = (
    verify_item-ItemPasses item t u,
    λ p.
        let begun : Tool World = record t {
          world = gio.print (printed item.id ++ codes ":\n") t.world;
        } in
        rw
          (
            HasSource-find_source gio item begun p.source p.between p.has_source,
            NoneFails-check_blobs item p.source item.blobs p.between u p.none_fails,
          )
          refl,
  )

-- ===== src/Context/Checksums.antt =====
-- libjcat/jcat-context.c with a checksum engine: what a verification that succeeds says of the
-- data.
use mathlib.Core.Path.{subst}
use libjcat.Blob.{JcatBlob}
use libjcat.Context.Accepts.{verify_item-steps}
use libjcat.Context.Passes.{StepOf, AllPass, done, skip, pass}
use libjcat.Context.Verify.{
  Check, skipped, passed, item_checksum, verify_item, checked, prefixed, checksum_by,
}
use libjcat.Context.{
  verify_blob, verify_by, JcatContext, Session, find_engine, store_engine, get_engine,
  is_blob_kind_allowed, settle, is_checksum,
}
use libjcat.Engine.{pubkey_verify, JcatEngine, Ran, self_verify}
use libjcat.Engine.Checksum.{
  accepted, self_verify_iff, GChecksumType, IsChecksumEngine, kind_of, digest,
  self_verify-IsChecksumEngine, class_self_verify,
}
use libjcat.Item.{JcatItem}
use libjcat.Kind.{JcatBlobKind}
use libjcat.Prelude.{
  ◌↔◌, beq, ℕ, Bool, true, not, Option, none, some, List, Bytes, All, Result, ok, err, Result-cases,
  ◌==◌, ◌≡◌, ap, sym, ==_iff, beq_iff, ◌∙◌, arith, inl, inr, Bool-cases, Option-cases,
  if◌then◌else◌, u32_mod, ◌<◌, length,
}
use libjcat.Result.{JcatResult}
use libjcat.Context.Engines.{
  SameEngine, self_verify-SameEngine, find_engine-store_engine, find_engine-kind,
}

module _ (undefined_shift : ℕ → JcatBlobKind → Bool) where
  module _ {World : Type 0} (compute_checksum : GChecksumType → Bytes → Bytes)
      (real_time : World → ℕ) where
    -- The context allows the kind of a checksum, and its engine for the kind is the library's.
    pub record Computes (type : GChecksumType) (self : JcatContext World) : Type 0 where
      pub allowed : is_blob_kind_allowed undefined_shift self (kind_of type) ≡ true
      pub engine : JcatEngine World
      pub found : find_engine self.engines (kind_of type) ≡ some engine
      pub is_engine : IsChecksumEngine compute_checksum real_time type engine

    some-injective : {A : Type 0} {a b : A} → some a ≡ some b → a ≡ b
    some-injective h = cc

    Computes-store :
        (type : GChecksumType) (self : JcatContext World) (kind : JcatBlobKind)
        (old new : JcatEngine World)
        → find_engine self.engines kind ≡ some old
        → old.kind ≡ kind
        → SameEngine new old
        → Computes type self
        → Computes type (record self { engines = store_engine kind new self.engines })
    unfolding is_blob_kind_allowed
    Computes-store type self kind old new found kind_is same c =
        let stays =
          find_engine-store_engine kind (kind_of type) new self.engines (same.same_kind ∙ kind_is)
            c.engine c.found in
        record {
          allowed = c.allowed;
          engine = if kind_of type == kind then new else c.engine;
          found = stays;
          is_engine = elim (Bool-cases (kind_of type == kind)) [
            | inl same_kind ↦
                let one : old ≡ c.engine = some-injective (
                  sym found
                  ∙ ap (λ (k : JcatBlobKind). find_engine self.engines k)
                      (sym ((==_iff (kind_of type) kind).0 same_kind))
                  ∙ c.found) in
                rw same_kind (record {
                  method_is =
                      same.same_method
                      ∙ ap (λ (e : JcatEngine World). e.method) one
                      ∙ c.is_engine.method_is;
                  class_is =
                      same.same_class
                      ∙ ap (λ (e : JcatEngine World). e.klass) one
                      ∙ c.is_engine.class_is;
                })
            | inr other ↦ rw other c.is_engine
          ];
        }

    get_engine-Computes :
        (type : GChecksumType) (self : JcatContext World) (c : Computes type self)
        → get_engine undefined_shift self (kind_of type) ≡ ok c.engine
    unfolding get_engine
    get_engine-Computes type self c = ground (arith, c.allowed, c.found)

    -- The check of a blob of the kind, with the tests in front of the engine's call passed.
    abbrev run_check : Bytes → ℕ → JcatBlob → Session World → JcatEngine World → Check World
    run_check bytes flags blob s engine = prefixed undefined_shift (
        checked (
          settle s.context blob.kind
            (self_verify s.context.public_keys engine bytes blob.data_bytes flags s.world)))

    item_checksum-run_check :
        (type : GChecksumType) (bytes : Bytes) (flags : ℕ) (blob : JcatBlob) (s : Session World)
        (c : Computes type s.context)
        → blob.kind ≡ kind_of type
        → item_checksum undefined_shift bytes flags blob s ≡ run_check bytes flags blob s c.engine
    unfolding item_checksum
    item_checksum-run_check type bytes flags blob s c kind_is =
        ap (λ found. checksum_by undefined_shift bytes flags blob s found)
          (ap (λ (k : JcatBlobKind). get_engine undefined_shift s.context k) kind_is
            ∙ get_engine-Computes type s.context c)
        ∙ ap
            (λ method.
              if not (is_checksum method) then skipped else run_check bytes flags blob s c.engine)
            c.is_engine.method_is

    run_check-passed :
        (type : GChecksumType) (context : JcatContext World) (kind : JcatBlobKind)
        (keys : List Bytes) (engine : JcatEngine World) (bytes : Bytes) (signature : Option Bytes)
        (flags : ℕ) (w : World) {r : JcatResult} {v : Session World}
        → IsChecksumEngine compute_checksum real_time type engine
        → prefixed undefined_shift
            (checked (settle context kind (self_verify keys engine bytes signature flags w)))
          ≡ passed r v
        → signature ≡ some (digest compute_checksum real_time type bytes)
    unfolding class_self_verify self_verify
    run_check-passed type context kind keys engine bytes none flags w is h = absurd (cc h)
    run_check-passed type context kind keys engine bytes (some signature) flags w is h =
        elim (Bool-cases (beq (digest compute_checksum real_time type bytes) signature)) [
          | inl same ↦ ap some (sym ((beq_iff _ _).0 same))
          | inr differs ↦
              let runs =
                self_verify-IsChecksumEngine compute_checksum real_time type keys engine bytes
                  signature flags w is in
              absurd (cc (rw (runs, differs) at h))
        ]

    passed-injective :
        {r q : JcatResult} {v u : Session World}
        → ◌≡◌ {A = Check World} (passed r v) (passed q u)
        → u ≡ v
    passed-injective h = cc

    run_check-context :
        (context : JcatContext World) (kind : JcatBlobKind) (ran : Ran World JcatResult)
        {r : JcatResult} {v : Session World}
        → prefixed undefined_shift (checked (settle context kind ran)) ≡ passed r v
        → v.context ≡ record context { engines = store_engine kind ran.engine context.engines }
    run_check-context context kind ran h = elim (Result-cases ran.result) [
      | inl (_, good) ↦ ap (λ (u : Session World). u.context) (passed-injective (rw good at h))
      | inr (_, bad) ↦ absurd (cc (rw bad at h))
    ]

    Computes-checksum_by :
        (type : GChecksumType) (bytes : Bytes) (flags : ℕ) (blob : JcatBlob) (s : Session World)
        (engine : JcatEngine World) {r : JcatResult} {v : Session World}
        → Computes type s.context
        → find_engine s.context.engines blob.kind ≡ some engine
        → checksum_by undefined_shift bytes flags blob s (ok engine) ≡ passed r v
        → Computes type v.context
    Computes-checksum_by type bytes flags blob s engine c found h =
        elim (Bool-cases (is_checksum engine.method)) [
          | inr other ↦ absurd (ground (arith, other))
          | inl own ↦
              let ran =
                self_verify s.context.public_keys engine bytes blob.data_bytes flags s.world in
              let runs : checksum_by undefined_shift bytes flags blob s (ok engine)
                  ≡ run_check bytes flags blob s engine =
                ap (λ b. if not b then skipped else run_check bytes flags blob s engine) own in
              subst (Computes type) (sym (run_check-context s.context blob.kind ran (sym runs ∙ h)))
                (Computes-store type s.context blob.kind engine ran.engine found
                  (find_engine-kind s.context.engines blob.kind found)
                  (self_verify-SameEngine s.context.public_keys engine bytes blob.data_bytes flags
                    s.world)
                  c)
        ]

    item_checksum-Computes :
        (type : GChecksumType) (bytes : Bytes) (flags : ℕ) (blob : JcatBlob) (s : Session World)
        {r : JcatResult} {v : Session World}
        → Computes type s.context
        → item_checksum undefined_shift bytes flags blob s ≡ passed r v
        → Computes type v.context
    unfolding item_checksum get_engine
    item_checksum-Computes type bytes flags blob s {r} {v} c h =
        elim (Option-cases (find_engine s.context.engines blob.kind)) [
          | inl none_found ↦ absurd (ground (arith, none_found))
          | inr (engine, found) ↦
              elim (Bool-cases (is_blob_kind_allowed undefined_shift s.context blob.kind)) [
                | inr forbidden ↦ absurd (ground (arith, forbidden))
                | inl permitted ↦
                    Computes-checksum_by type bytes flags blob s engine c found
                      (rw (permitted, found) at h)
              ]
        ]

    never_skipped :
        (p : Result JcatResult × Session World) → prefixed undefined_shift (checked p) ≡ skipped → ⊥
    never_skipped (ok r, v) h = cc
    never_skipped (err e, v) h = cc

    -- Every blob of the kind holds the checksum of the data.
    abbrev pub Match : GChecksumType → Bytes → List JcatBlob → Type 0
    Match type bytes = All (λ blob.
        blob.kind ≡ kind_of type
        → blob.data_bytes ≡ some (digest compute_checksum real_time type bytes))

    AllPass-Match :
        (type : GChecksumType) (bytes : Bytes) (flags : ℕ) (blobs : List JcatBlob)
        (s u : Session World) (rs : List JcatResult)
        → Computes type s.context
        → AllPass (StepOf (item_checksum undefined_shift bytes flags)) blobs s rs u
        → Match type bytes blobs
    AllPass-Match type bytes flags _ _ _ _ c (done s) = tt
    AllPass-Match type bytes flags _ _ _ _ c (skip blob blobs rs s u skips all) = (
      (λ kind_is. absurd (
          never_skipped
            (settle s.context blob.kind
              (self_verify s.context.public_keys c.engine bytes blob.data_bytes flags s.world))
            (sym (item_checksum-run_check type bytes flags blob s c kind_is) ∙ skips))),
      AllPass-Match type bytes flags blobs s u rs c all,
    )
    AllPass-Match type bytes flags _ _ _ _ c (pass blob blobs r rs s v u passes all) = (
      (λ kind_is.
          run_check-passed type s.context blob.kind s.context.public_keys c.engine bytes
            blob.data_bytes flags s.world c.is_engine
            (sym (item_checksum-run_check type bytes flags blob s c kind_is) ∙ passes)),
      AllPass-Match type bytes flags blobs v u rs
          (item_checksum-Computes type bytes flags blob s c passes) all,
    )

    -- In a context that allows the kind of a checksum and has the library's engine for it: if an item
    -- with fewer than 2^32 blobs verifies, with whatever flags, then each of its blobs of that kind
    -- holds the checksum of the data, as a C string.
    pub verify_item-checksums :
        (type : GChecksumType) (bytes : Bytes) (item : JcatItem) (flags : ℕ) (s : Session World)
        (results : List JcatResult) (u : Session World)
        → length item.blobs < u32_mod
        → Computes type s.context
        → verify_item undefined_shift bytes item flags s ≡ (ok results, u)
        → Match type bytes item.blobs
    verify_item-checksums type bytes item flags s results u few c h =
        let a = (verify_item-steps undefined_shift bytes item flags s results u few).0 h in
        AllPass-Match type bytes flags item.blobs s a.between a.checksums c a.checksums_pass

    settled_result :
        (type : GChecksumType) (context : JcatContext World) (kind : JcatBlobKind)
        (keys : List Bytes) (engine : JcatEngine World) (bytes : Bytes) (signature : Option Bytes)
        (flags : ℕ) (w : World)
        → IsChecksumEngine compute_checksum real_time type engine
        → ((settle context kind (self_verify keys engine bytes signature flags w)).0
            ≡ ok (accepted compute_checksum real_time type))
          ↔ (signature ≡ some (digest compute_checksum real_time type bytes))
    unfolding self_verify
    settled_result type context kind keys engine bytes none flags w is = ground arith
    settled_result type context kind keys engine bytes (some signature) flags w is =
        let (there, back) =
          self_verify_iff compute_checksum real_time type keys engine bytes signature flags w is in
        ((λ h. ap some (there h)), λ h. back (some-injective h))

    -- In a context that allows the kind of a checksum and has the library's engine for it:
    -- `jcat_context_verify_blob` takes a blob of that kind exactly when it holds the checksum of the
    -- data, as a C string.
    pub verify_blob-checksum :
        (type : GChecksumType) (bytes : Bytes) (blob : JcatBlob) (flags : ℕ) (s : Session World)
        → Computes type s.context
        → blob.kind ≡ kind_of type
        → ((verify_blob undefined_shift bytes blob flags s).0
            ≡ ok (accepted compute_checksum real_time type))
          ↔ (blob.data_bytes ≡ some (digest compute_checksum real_time type bytes))
    unfolding verify_blob
    verify_blob-checksum type bytes blob flags s c kind_is =
        let keys = s.context.public_keys in
        let run = self_verify keys c.engine bytes blob.data_bytes flags s.world in
        let other = pubkey_verify keys c.engine bytes blob.data_bytes flags s.world in
        let runs : verify_blob undefined_shift bytes blob flags s ≡ settle s.context blob.kind run =
          ap (λ found. verify_by undefined_shift bytes blob flags s found)
            (ap (λ (k : JcatBlobKind). get_engine undefined_shift s.context k) kind_is
              ∙ get_engine-Computes type s.context c)
          ∙ ap (λ method. settle s.context blob.kind (if is_checksum method then run else other))
              c.is_engine.method_is in
        rw runs (
          settled_result type s.context blob.kind keys c.engine bytes blob.data_bytes flags s.world
            c.is_engine)

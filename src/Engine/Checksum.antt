-- ===== src/Engine/Checksum.antt =====
-- libjcat/jcat-sha1-engine.c, libjcat/jcat-sha256-engine.c and libjcat/jcat-sha512-engine.c, which
-- differ in the kind of the checksum alone. g_compute_checksum_for_bytes is a parameter, and so is
-- the clock that a new blob reads.
use libjcat.Blob.{JcatBlob, new_utf8}
use libjcat.Engine.{
  leave, JcatBlobMethod, JcatEngine, JcatEngineClass, Action, self_verify, self_sign,
}
use libjcat.Kind.{sha512, sha256, sha1, JcatBlobKind, checksum, has_flag, is_utf8}
use libjcat.Prelude.{
  sym, ◌∙◌, ap, not, ℕ, Bool, true, false, none, some, List, [], ◌∷◌, Bytes, codes, c_string, beq,
  beq_iff, Error, invalid_data, ok, err, ◌≡◌, refl, ◌↔◌, if◌then◌else◌, arith,
}
use libjcat.Result.{JcatResult, of_engine}

-- GChecksumType.
pub data GChecksumType : Type 0 where
  type_sha1 type_sha256 type_sha512 : GChecksumType

-- The kind of the blobs that an engine makes and checks.
abbrev pub kind_of : GChecksumType → JcatBlobKind
kind_of type_sha1 = sha1
kind_of type_sha256 = sha256
kind_of type_sha512 = sha512

abbrev pub mismatch : Bytes → Bytes → Error
mismatch expected got = record {
  code = invalid_data;
  message = codes "failed to verify data, expected %s and got %s";
  values = expected ∷ got ∷ [];
}

module _ {World : Type 0} (compute_checksum : GChecksumType → Bytes → Bytes)
    (real_time : World → ℕ) where
  -- `jcat_sha1_engine_self_sign` and its likes.
  unfoldable pub class_self_sign : GChecksumType → Bytes → ℕ → Action World JcatBlob
  class_self_sign type bytes flags world =
      (ok (new_utf8 (real_time world) (kind_of type) (compute_checksum type bytes)), world)

  -- The checksum as a C string.
  abbrev pub digest : GChecksumType → Bytes → Bytes
  digest type bytes = c_string (compute_checksum type bytes)

  -- `jcat_sha1_engine_self_verify` and its likes.
  unfoldable pub class_self_verify : GChecksumType → Bytes → Bytes → ℕ → Action World JcatResult
  class_self_verify type bytes blob_signature flags world =
      if not (beq (digest type bytes) blob_signature)
      then (err (mismatch (digest type bytes) (c_string blob_signature)), world)
      else (ok (of_engine (record { kind = kind_of type; method = checksum })), world)

  -- `jcat_sha1_engine_class_init` and its likes.
  unfoldable pub class_init : GChecksumType → JcatEngineClass World
  unfolding class_self_sign class_self_verify
  class_init type = record {
    setup = none;
    add_public_key = none;
    add_public_key_raw = none;
    pubkey_verify = none;
    pubkey_sign = none;
    self_verify = some (class_self_verify type);
    self_sign = some (class_self_sign type);
  }

  -- `jcat_sha1_engine_new`, `jcat_sha256_engine_new` and `jcat_sha512_engine_new`.
  unfoldable pub new : GChecksumType → JcatEngine World
  unfolding class_init
  new type = record {
    kind = kind_of type;
    method = checksum;
    done_setup = false;
    klass = class_init type;
  }

  -- What every engine of this file remains: one of the class, set up or not.
  pub record IsChecksumEngine (type : GChecksumType) (self : JcatEngine World) : Type 0 where
    pub method_is : self.method ≡ checksum
    pub class_is : self.klass ≡ class_init type

  pub accepted : GChecksumType → JcatResult
  unfolding of_engine
  accepted type = of_engine (record { kind = kind_of type; method = checksum })

  class_self_verify_iff :
      (type : GChecksumType) (bytes signature : Bytes) (flags : ℕ) (w : World)
      → ((class_self_verify type bytes signature flags w).0 ≡ ok (accepted type))
        ↔ (signature ≡ digest type bytes)
  unfolding class_self_verify accepted
  class_self_verify_iff type bytes signature flags w =
      ground (arith, beq_iff (digest type bytes) signature)

  self_verify_of_class :
      (type : GChecksumType) (keys : List Bytes) (kind : JcatBlobKind) (method : JcatBlobMethod)
      (done : Bool) (bytes signature : Bytes) (flags : ℕ) (w : World)
      → self_verify keys
          (record { kind = kind; method = method; done_setup = done; klass = class_init type })
          bytes
          (some signature)
          flags
          w
        ≡ leave
            (record { kind = kind; method = method; done_setup = true; klass = class_init type })
            (class_self_verify type bytes signature flags w)
  unfolding self_verify class_init
  self_verify_of_class type keys kind method true bytes signature flags w = refl
  self_verify_of_class type keys kind method false bytes signature flags w = refl

  self_sign_of_class :
      (type : GChecksumType) (keys : List Bytes) (kind : JcatBlobKind) (method : JcatBlobMethod)
      (done : Bool) (bytes : Bytes) (flags : ℕ) (w : World)
      → (self_sign keys
          (record { kind = kind; method = method; done_setup = done; klass = class_init type })
          bytes
          flags
          w).result
        ≡ ok (new_utf8 (real_time w) (kind_of type) (compute_checksum type bytes))
  unfolding self_sign class_init
  self_sign_of_class type keys kind method true bytes flags w = refl
  self_sign_of_class type keys kind method false bytes flags w = refl

  -- The setup of a checksum engine always succeeds, so that the class function is called.
  pub self_verify-IsChecksumEngine :
      (type : GChecksumType) (keys : List Bytes) (self : JcatEngine World) (bytes signature : Bytes)
      (flags : ℕ) (w : World)
      → IsChecksumEngine type self
      → self_verify keys self bytes (some signature) flags w
        ≡ leave (record self { done_setup = true }) (class_self_verify type bytes signature flags w)
  self_verify-IsChecksumEngine type keys self bytes signature flags w is =
      ap (λ k. self_verify keys (record self { klass = k }) bytes (some signature) flags w)
        is.class_is
      ∙ self_verify_of_class type keys self.kind self.method self.done_setup bytes signature flags w
      ∙ ap
          (λ k.
            leave (record self { done_setup = true; klass = k })
              (class_self_verify type bytes signature flags w))
          (sym is.class_is)

  -- A checksum engine, set up or not, takes a signature exactly when it is the checksum of the
  -- data, as a C string.
  pub self_verify_iff :
      (type : GChecksumType) (keys : List Bytes) (self : JcatEngine World) (bytes signature : Bytes)
      (flags : ℕ) (w : World)
      → IsChecksumEngine type self
      → ((self_verify keys self bytes (some signature) flags w).result ≡ ok (accepted type))
        ↔ (signature ≡ digest type bytes)
  self_verify_iff type keys self bytes signature flags w is =
      rw (self_verify-IsChecksumEngine type keys self bytes signature flags w is)
        (class_self_verify_iff type bytes signature flags w)

  -- What a checksum engine signs is a text blob of its kind, and every engine of the class takes its
  -- data as the signature of the same data, with any flags, keys and in any world.
  pub self_verify-self_sign :
      (type : GChecksumType) (keys later : List Bytes) (self other : JcatEngine World)
      (bytes : Bytes) (flags verify_flags : ℕ) (w v : World)
      → IsChecksumEngine type self
      → IsChecksumEngine type other
      → (blob : JcatBlob) × ((self_sign keys self bytes flags w).result ≡ ok blob)
        × (blob.kind ≡ kind_of type)
        × (has_flag blob.flags is_utf8 ≡ true)
        × ((self_verify later other bytes blob.data_bytes verify_flags v).result
            ≡ ok (accepted type))
  unfolding new_utf8
  self_verify-self_sign type keys later self other bytes flags verify_flags w v is also =
      let blob = new_utf8 (real_time w) (kind_of type) (compute_checksum type bytes) in
      let signed =
        ap (λ k. (self_sign keys (record self { klass = k }) bytes flags w).result) is.class_is
        ∙ self_sign_of_class type keys self.kind self.method self.done_setup bytes flags w in
      let (_, accepts) =
        self_verify_iff type later other bytes (digest type bytes) verify_flags v also in
      (blob, signed, refl, refl, accepts refl)

  -- libjcat/jcat-sha256-engine.c.
  unfoldable pub sha256_self_sign : Bytes → ℕ → Action World JcatBlob
  unfolding class_self_sign
  sha256_self_sign = class_self_sign type_sha256

  unfoldable pub sha256_self_verify : Bytes → Bytes → ℕ → Action World JcatResult
  unfolding class_self_verify
  sha256_self_verify = class_self_verify type_sha256

  unfoldable pub sha256_class_init : JcatEngineClass World
  unfolding class_init
  sha256_class_init = class_init type_sha256

  unfoldable pub sha256_engine_new : JcatEngine World
  unfolding new
  sha256_engine_new = new type_sha256

  -- libjcat/jcat-sha512-engine.c.
  unfoldable pub sha512_self_sign : Bytes → ℕ → Action World JcatBlob
  unfolding class_self_sign
  sha512_self_sign = class_self_sign type_sha512

  unfoldable pub sha512_self_verify : Bytes → Bytes → ℕ → Action World JcatResult
  unfolding class_self_verify
  sha512_self_verify = class_self_verify type_sha512

  unfoldable pub sha512_class_init : JcatEngineClass World
  unfolding class_init
  sha512_class_init = class_init type_sha512

  unfoldable pub sha512_engine_new : JcatEngine World
  unfolding new
  sha512_engine_new = new type_sha512

  -- The engines that every build has, in their order in the context.
  abbrev pub standard_engines : List (JcatEngine World)
  standard_engines = new type_sha1 ∷ sha256_engine_new ∷ sha512_engine_new ∷ []

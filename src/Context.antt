-- ===== src/Context.antt =====
-- libjcat/jcat-context.c: the object JcatContext, the kinds of blobs that it allows, the engine for
-- a kind, and the verification of one blob.
pub mod Kinds
pub mod Keys
pub mod Verify
pub mod Steps
pub mod Passes
pub mod Accepted
pub mod Accepts
pub mod Engines
pub mod Checksums
use libjcat.Blob.{JcatBlob}
use libjcat.Engine.{JcatEngine, Action, Ran, self_verify, pubkey_verify}
use libjcat.Kind.{JcatBlobKind, JcatBlobMethod, checksum, signature, has_flag, last}
use libjcat.Item.{kind_values}
use libjcat.Prelude.{
  ℕ, zero, suc, ◌+◌, ◌*◌, ◌/◌, ◌%◌, Bool, true, false, not, Option, none, some, List, [], ◌∷◌, ◌++◌,
  Bytes, codes, max_u32, Error, not_supported, not_found, Result, ok, err, ltb, ◌==◌, if◌then◌else◌,
}
use libjcat.Result.{JcatResult}

-- `m | (1 << k)` and `m & ~(1 << k)`, from the lowest bit on.
unfoldable pub set_bit : ℕ → ℕ → ℕ
set_bit m zero = m / 2 * 2 + 1
set_bit m (suc k) = m % 2 + set_bit (m / 2) k * 2

unfoldable pub clear_bit : ℕ → ℕ → ℕ
clear_bit m zero = m / 2 * 2
clear_bit m (suc k) = m % 2 + clear_bit (m / 2) k * 2

-- JcatContextPrivate.
pub record JcatContext (World : Type 0) : Type 0 where
  pub engines : List (JcatEngine World)
  pub public_keys : List Bytes
  pub keyring_path : Option Bytes
  pub blob_kinds : ℕ

-- The context with the world around it.
pub record Session (World : Type 0) : Type 0 where
  pub context : JcatContext World
  pub world : World

module _ {World : Type 0} where
  -- `jcat_context_init`: the engines that are compiled in, those for checksums first, and the
  -- default path.
  unfoldable pub init : List (JcatEngine World) → Bytes → JcatContext World
  init engines keyring_path = record {
    engines = engines;
    public_keys = [];
    keyring_path = some keyring_path;
    blob_kinds = max_u32;
  }

  -- `jcat_context_add_public_key`.
  unfoldable pub add_public_key : JcatContext World → Bytes → JcatContext World
  add_public_key self filename = record self { public_keys = self.public_keys ++ filename ∷ [] }

  -- `jcat_context_set_keyring_path`.
  unfoldable pub set_keyring_path : JcatContext World → Bytes → JcatContext World
  set_keyring_path self path = record self { keyring_path = some path }

  -- `jcat_context_blob_kind_allow`.
  unfoldable pub blob_kind_allow : JcatContext World → JcatBlobKind → JcatContext World
  blob_kind_allow self kind =
      if ltb kind last
      then record self {
        blob_kinds = set_bit (if self.blob_kinds == max_u32 then 0 else self.blob_kinds) kind;
      }
      else self

  -- `jcat_context_blob_kind_disallow`.
  unfoldable pub blob_kind_disallow : JcatContext World → JcatBlobKind → JcatContext World
  blob_kind_disallow self kind =
      if ltb kind last then record self { blob_kinds = clear_bit self.blob_kinds kind } else self

  -- The loop of `jcat_context_get_engine`.
  unfoldable pub find_engine : List (JcatEngine World) → JcatBlobKind → Option (JcatEngine World)
  find_engine [] kind = none
  find_engine (engine ∷ engines) kind =
      let rest = find_engine engines kind in if engine.kind == kind then some engine else rest

  -- An engine is a reference: what an operation makes of the engine that was found for a kind
  -- stands in its place.
  unfoldable pub store_engine :
      JcatBlobKind → JcatEngine World → List (JcatEngine World) → List (JcatEngine World)
  store_engine kind new [] = []
  store_engine kind new (engine ∷ engines) =
      let rest = store_engine kind new engines in
      if engine.kind == kind then new ∷ engines else engine ∷ rest

  -- The end of an operation on the engine for a kind.
  abbrev pub settle :
      {A : Type 0} → JcatContext World → JcatBlobKind → Ran World A → Result A × Session World
  settle self kind ran = (
    ran.result,
    record {
      context = record self { engines = store_engine kind ran.engine self.engines };
      world = ran.world;
    },
  )

abbrev pub not_allowed : JcatBlobKind → Error
not_allowed kind = record {
  code = not_supported;
  message = codes "Jcat engine kind '%s' not allowed";
  values = kind_values kind;
}

abbrev pub no_engine : JcatBlobKind → Error
no_engine kind = record {
  code = not_found;
  message = codes "Jcat engine kind '%s' not supported";
  values = kind_values kind;
}

abbrev pub engine_or :
    {World : Type 0} → JcatBlobKind → Option (JcatEngine World) → Result (JcatEngine World)
engine_or kind none = err (no_engine kind)
engine_or kind (some engine) = ok engine

abbrev pub is_checksum : JcatBlobMethod → Bool
is_checksum checksum = true
is_checksum _ = false

abbrev pub is_signature : JcatBlobMethod → Bool
is_signature signature = true
is_signature _ = false

-- What the test of a bit gives at a number of 64 or more, where C leaves the shift undefined.
module _ (undefined_shift : ℕ → JcatBlobKind → Bool) where
  -- `blob_kinds & (1ull << kind)`, as a test.
  abbrev pub mask_allows : ℕ → JcatBlobKind → Bool
  mask_allows blob_kinds kind =
      if ltb kind 64 then has_flag blob_kinds kind else undefined_shift blob_kinds kind

  module _ {World : Type 0} where
    -- `jcat_context_is_blob_kind_allowed`.
    unfoldable pub is_blob_kind_allowed : JcatContext World → JcatBlobKind → Bool
    is_blob_kind_allowed self kind = mask_allows self.blob_kinds kind

    -- `jcat_context_get_engine`.
    unfoldable pub get_engine : JcatContext World → JcatBlobKind → Result (JcatEngine World)
    unfolding is_blob_kind_allowed find_engine
    get_engine self kind =
        if not (is_blob_kind_allowed self kind)
        then err (not_allowed kind)
        else engine_or kind (find_engine self.engines kind)

    abbrev pub verify_by :
        Bytes
        → JcatBlob
        → ℕ
        → Session World
        → Result (JcatEngine World)
        → Result JcatResult × Session World
    verify_by bytes blob flags s (err e) = (err e, s)
    verify_by bytes blob flags s (ok engine) =
        let keys = s.context.public_keys in
        settle s.context blob.kind (
          if is_checksum engine.method
          then self_verify keys engine bytes blob.data_bytes flags s.world
          else pubkey_verify keys engine bytes blob.data_bytes flags s.world)

    -- `jcat_context_verify_blob`.
    unfoldable pub verify_blob :
        Bytes → JcatBlob → ℕ → Session World → Result JcatResult × Session World
    unfolding get_engine
    verify_blob bytes blob flags s = verify_by bytes blob flags s (get_engine s.context blob.kind)

-- ===== src/Engine.antt =====
-- libjcat/jcat-engine.c: the object JcatEngine, its setup on first use, and the operations that it
-- passes to the functions of its class. A class function may change more than the engine (the
-- state of a crypto library, files), all of which is a type `World`. The public keys of the
-- context that the engine points to are an argument.
pub mod Setup
pub mod Checksum
pub mod Cell
pub mod Gpg
pub mod Pkcs7
pub mod Libcrypto
pub mod Ed25519
use libjcat.Blob.{JcatBlob}
use libjcat.Kind.{JcatBlobKind, JcatBlobMethod}
use libjcat.Prelude.{
  ℕ, Bool, true, false, Option, none, some, List, [], ◌∷◌, Bytes, codes, Error, not_supported,
  critical, Result, ok, err, if◌then◌else◌,
}
use libjcat.Result.{JcatResult, EngineRef}

module _ (World : Type 0) where
  -- What a class function does.
  abbrev pub Action : Type 0 → Type 0
  Action A = World → Result A × World

  -- JcatEngineClass; a NULL function is `none`.
  pub record JcatEngineClass : Type 0 where
    pub setup : Option (Action (Unit {0}))
    pub add_public_key : Option (Bytes → Action (Unit {0}))
    pub add_public_key_raw : Option (Bytes → Action (Unit {0}))
    pub pubkey_verify : Option (Bytes → Bytes → ℕ → Action JcatResult)
    pub pubkey_sign : Option (Bytes → Bytes → Bytes → ℕ → Action JcatBlob)
    pub self_verify : Option (Bytes → Bytes → ℕ → Action JcatResult)
    pub self_sign : Option (Bytes → ℕ → Action JcatBlob)

  -- JcatEnginePrivate, without the context, and the class.
  pub record JcatEngine : Type 0 where
    pub kind : JcatBlobKind
    pub method : JcatBlobMethod
    pub done_setup : Bool
    pub klass : JcatEngineClass

  -- What a JcatResult keeps of the engine.
  abbrev pub ref : JcatEngine → EngineRef
  ref self = record { kind = self.kind; method = self.method }

  -- A result with the engine and the world afterwards.
  pub record Ran (A : Type 0) : Type 0 where
    pub result : Result A
    pub engine : JcatEngine
    pub world : World

abbrev pub unsupported : Bytes → Error
unsupported message = record { code = not_supported; message = message; values = [] }

abbrev pub precondition : Error
precondition = record { code = critical; message = []; values = [] }

module _ {World : Type 0} where
  -- Go on in the world that a success leaves.
  abbrev pub and_then : {A B : Type 0} → Result A × World → (A → Action World B) → Result B × World
  and_then (ok a, world) next = next a world
  and_then (err e, world) next = (err e, world)

  -- The optional call of the class function `setup`.
  abbrev pub class_setup : Option (Action World (Unit {0})) → Action World (Unit {0})
  class_setup none world = (ok tt, world)
  class_setup (some setup) world = setup world

  -- The loop over the public keys of the context.
  unfoldable pub add_keys : (Bytes → Action World (Unit {0})) → List Bytes → Action World (Unit {0})
  add_keys add [] world = (ok tt, world)
  add_keys add (fn ∷ fns) world = and_then (add fn world) (λ _. add_keys add fns)

  abbrev pub class_add_keys :
      Option (Bytes → Action World (Unit {0})) → List Bytes → Action World (Unit {0})
  class_add_keys none fns world = (ok tt, world)
  class_add_keys (some add) fns world = add_keys add fns world

  -- The end of `jcat_engine_setup`: only a success is remembered.
  abbrev pub finish : JcatEngine World → Result (Unit {0}) × World → Ran World (Unit {0})
  finish self (ok _, world) = record {
    result = ok tt;
    engine = record self { done_setup = true };
    world = world;
  }
  finish self (err e, world) = record { result = err e; engine = self; world = world }

  -- `jcat_engine_setup`.
  unfoldable pub setup : List Bytes → JcatEngine World → World → Ran World (Unit {0})
  unfolding add_keys
  setup keys self world =
      if self.done_setup
      then record { result = ok tt; engine = self; world = world }
      else finish self (
          and_then (class_setup self.klass.setup world)
            (λ _. class_add_keys self.klass.add_public_key keys))

  abbrev pub refused : {A : Type 0} → Error → JcatEngine World → World → Ran World A
  refused e self world = record { result = err e; engine = self; world = world }

  abbrev pub leave : {A : Type 0} → JcatEngine World → Result A × World → Ran World A
  leave self (result, world) = record { result = result; engine = self; world = world }

  -- The call of a class function behind the setup.
  abbrev pub after_setup : {A : Type 0} → Ran World (Unit {0}) → Action World A → Ran World A
  after_setup ran action = elim ran.result [
    | ok _ ↦ leave ran.engine (action ran.world)
    | err e ↦ refused e ran.engine ran.world
  ]

  abbrev pub verify_with :
      Option (Bytes → Bytes → ℕ → Action World JcatResult)
      → List Bytes
      → JcatEngine World
      → Bytes
      → Option Bytes
      → ℕ
      → World
      → Ran World JcatResult
  verify_with vfunc keys self blob none flags world = refused precondition self world
  verify_with none keys self blob (some signature) flags world =
      refused (unsupported (codes "verifying data is not supported")) self world
  verify_with (some verify) keys self blob (some signature) flags world =
      after_setup (setup keys self world) (verify blob signature flags)

  -- `jcat_engine_pubkey_verify`; the signature may be the NULL that a blob with no data gives.
  unfoldable pub pubkey_verify :
      List Bytes → JcatEngine World → Bytes → Option Bytes → ℕ → World → Ran World JcatResult
  unfolding setup
  pubkey_verify keys self = verify_with self.klass.pubkey_verify keys self

  -- `jcat_engine_self_verify`.
  unfoldable pub self_verify :
      List Bytes → JcatEngine World → Bytes → Option Bytes → ℕ → World → Ran World JcatResult
  unfolding setup
  self_verify keys self = verify_with self.klass.self_verify keys self

  -- `jcat_engine_pubkey_sign`.
  unfoldable pub pubkey_sign :
      List Bytes → JcatEngine World → Bytes → Bytes → Bytes → ℕ → World → Ran World JcatBlob
  unfolding setup
  pubkey_sign keys self blob cert privkey flags world = elim self.klass.pubkey_sign [
    | none ↦ refused (unsupported (codes "signing data is not supported")) self world
    | some sign ↦ after_setup (setup keys self world) (sign blob cert privkey flags)
  ]

  -- `jcat_engine_self_sign`.
  unfoldable pub self_sign : List Bytes → JcatEngine World → Bytes → ℕ → World → Ran World JcatBlob
  unfolding setup
  self_sign keys self blob flags world = elim self.klass.self_sign [
    | none ↦ refused (unsupported (codes "signing data is not supported")) self world
    | some sign ↦ after_setup (setup keys self world) (sign blob flags)
  ]

  -- `jcat_engine_add_public_key_raw`.
  unfoldable pub add_public_key_raw :
      List Bytes → JcatEngine World → Bytes → World → Ran World (Unit {0})
  unfolding setup
  add_public_key_raw keys self blob world = elim self.klass.add_public_key_raw [
    | none ↦ refused (unsupported (codes "adding public keys manually is not supported")) self world
    | some add ↦ after_setup (setup keys self world) (add blob)
  ]

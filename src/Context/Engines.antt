-- ===== src/Context/Engines.antt =====
-- libjcat/jcat-context.c: the engines of a context stay what they are, while operations change them.
use libjcat.Context.{Action, find_engine, store_engine}
use libjcat.Engine.{verify_with, finish, after_setup, JcatEngine, Ran, setup, self_verify}
use libjcat.Engine.Setup.{setup-fresh, setup-done}
use libjcat.Kind.{JcatBlobKind}
use libjcat.Prelude.{
  ℕ, Option, none, some, List, [], ◌∷◌, Bytes, Result, ok, err, Result-cases, ◌==◌, ◌≡◌, refl,
  arith, inl, inr, Bool-cases, if◌then◌else◌,
}
use libjcat.Result.{JcatResult}

-- The engine keeps its kind, its method and its class.
pub record SameEngine {World : Type 0} (a b : JcatEngine World) : Type 0 where
  pub same_kind : a.kind ≡ b.kind
  pub same_method : a.method ≡ b.method
  pub same_class : a.klass ≡ b.klass

module _ {World : Type 0} where
  finish-SameEngine :
      (self : JcatEngine World) (p : Result (Unit {0}) × World)
      → SameEngine (finish self p).engine self
  finish-SameEngine self (ok _, w) = record {
    same_kind = refl;
    same_method = refl;
    same_class = refl;
  }
  finish-SameEngine self (err e, w) = record {
    same_kind = refl;
    same_method = refl;
    same_class = refl;
  }

  setup-SameEngine :
      (keys : List Bytes) (self : JcatEngine World) (w : World)
      → SameEngine (setup keys self w).engine self
  setup-SameEngine keys self w = elim (Bool-cases self.done_setup) [
    | inl old ↦
        rw (setup-done keys self w old)
          (record { same_kind = refl; same_method = refl; same_class = refl })
    | inr fresh ↦ rw (setup-fresh keys self w fresh) (finish-SameEngine self _)
  ]

  after_setup-SameEngine :
      {A : Type 0} (self : JcatEngine World) (ran : Ran World (Unit {0})) (action : Action World A)
      → SameEngine ran.engine self
      → SameEngine (after_setup ran action).engine self
  after_setup-SameEngine self ran action same = elim (Result-cases ran.result) [
    | inl (_, e) ↦ rw (e, after_setup) same
    | inr (_, e) ↦ rw (e, after_setup) same
  ]

  verify_with-SameEngine :
      (vfunc : Option (Bytes → Bytes → ℕ → Action World JcatResult)) (keys : List Bytes)
      (self : JcatEngine World) (bytes : Bytes) (signature : Option Bytes) (flags : ℕ) (w : World)
      → SameEngine (verify_with vfunc keys self bytes signature flags w).engine self
  verify_with-SameEngine vfunc keys self bytes none flags w = record {
    same_kind = refl;
    same_method = refl;
    same_class = refl;
  }
  verify_with-SameEngine none keys self bytes (some signature) flags w = record {
    same_kind = refl;
    same_method = refl;
    same_class = refl;
  }
  verify_with-SameEngine (some verify) keys self bytes (some signature) flags w =
      after_setup-SameEngine self (setup keys self w) (verify bytes signature flags)
        (setup-SameEngine keys self w)

  pub self_verify-SameEngine :
      (keys : List Bytes) (self : JcatEngine World) (bytes : Bytes) (signature : Option Bytes)
      (flags : ℕ) (w : World)
      → SameEngine (self_verify keys self bytes signature flags w).engine self
  unfolding self_verify
  self_verify-SameEngine keys self bytes signature flags w =
      verify_with-SameEngine self.klass.self_verify keys self bytes signature flags w

  -- Looking up behind a store.
  pub find_engine-store_engine :
      (kind k : JcatBlobKind) (new : JcatEngine World) (engines : List (JcatEngine World))
      → new.kind ≡ kind
      → (e : JcatEngine World) → find_engine engines k ≡ some e
      → find_engine (store_engine kind new engines) k ≡ some (if k == kind then new else e)
  unfolding find_engine store_engine
  find_engine-store_engine kind k new [] same e found = absurd (cc found)
  find_engine-store_engine kind k new (engine ∷ engines) same e found =
      ground (arith, same, find_engine-store_engine kind k new engines same e)

  pub find_engine-kind :
      (engines : List (JcatEngine World)) (kind : JcatBlobKind) {e : JcatEngine World}
      → find_engine engines kind ≡ some e
      → e.kind ≡ kind
  unfolding find_engine
  find_engine-kind [] kind found = absurd (cc found)
  find_engine-kind (engine ∷ engines) kind {e} found =
      ground (arith, find_engine-kind engines kind {e = e})

-- ===== src/Engine/Setup.antt =====
-- libjcat/jcat-engine.c: what `jcat_engine_setup` does, against a description of its steps.
use libjcat.Engine.{
  Error, JcatEngine, JcatEngineClass, Action, add_keys, class_add_keys, class_setup, finish, setup,
  and_then,
}
use libjcat.Prelude.{
  Bool-cases, true, false, Option, none, some, List, [], ◌∷◌, Bytes, Result, ok, err, ◌≡◌, refl, ap,
  inl, inr, ◌↔◌, if◌then◌else◌,
}

module _ {World : Type 0} where
  -- Every key is added, in order, in the world that the one before it leaves.
  pub data KeysAdded (add : Bytes → Action World (Unit {0}))
      : List Bytes → World → World → Type 0 where
    no_keys : (w : World) → KeysAdded add [] w w
    key_added :
        (fn : Bytes) (fns : List Bytes) (w v u : World)
        → add fn w ≡ (ok tt, v)
        → KeysAdded add fns v u
        → KeysAdded add (fn ∷ fns) w u

  -- The class has no way to add a key and the world stays, or every key is added.
  pub data KeysLoaded (keys : List Bytes)
      : Option (Bytes → Action World (Unit {0})) → World → World → Type 0 where
    no_loader : (w : World) → KeysLoaded keys none w w
    loaded :
        (add : Bytes → Action World (Unit {0})) (w v : World)
        → KeysAdded add keys w v
        → KeysLoaded keys (some add) w v

  -- A first setup that succeeds: the class function first, if there is one, and then the keys.
  pub record SetsUp (keys : List Bytes) (klass : JcatEngineClass World) (w v : World) : Type 0 where
    pub between : World
    pub class_ok : class_setup klass.setup w ≡ (ok tt, between)
    pub keys_ok : KeysLoaded keys klass.add_public_key between v

  pub and_then-eq-ok :
      {A B : Type 0} (p : Result A × World) (next : A → Action World B) {b : B} {v : World}
      → and_then p next ≡ (ok b, v)
      → (a : A) × (u : World) × (p ≡ (ok a, u)) × (next a u ≡ (ok b, v))
  and_then-eq-ok (ok a, u) next h = (a, u, refl, h)
  and_then-eq-ok (err e, u) next h = absurd (cc (ap (λ p. p.0) h))

  add_keys-KeysAdded :
      (add : Bytes → Action World (Unit {0})) (keys : List Bytes) (w v : World)
      → add_keys add keys w ≡ (ok tt, v)
      → KeysAdded add keys w v
  unfolding add_keys
  add_keys-KeysAdded add [] w v h = rw (ap (λ p. p.1) h) (no_keys v)
  add_keys-KeysAdded add (fn ∷ fns) w v h =
      let (_, u, now, later) = and_then-eq-ok (add fn w) (λ _. add_keys add fns) h in
      key_added fn fns w u v now (add_keys-KeysAdded add fns u v later)

  KeysAdded-add_keys :
      (add : Bytes → Action World (Unit {0})) (keys : List Bytes) (w v : World)
      → KeysAdded add keys w v
      → add_keys add keys w ≡ (ok tt, v)
  unfolding add_keys
  KeysAdded-add_keys add _ _ _ (no_keys w) = refl
  KeysAdded-add_keys add _ _ _ (key_added fn fns w v u now later) =
      rw (now, KeysAdded-add_keys add fns v u later)

  class_add_keys-KeysLoaded :
      (add : Option (Bytes → Action World (Unit {0}))) (keys : List Bytes) (w v : World)
      → class_add_keys add keys w ≡ (ok tt, v)
      → KeysLoaded keys add w v
  class_add_keys-KeysLoaded none keys w v h = rw (ap (λ p. p.1) h) (no_loader v)
  class_add_keys-KeysLoaded (some add) keys w v h =
      loaded add w v (add_keys-KeysAdded add keys w v h)

  KeysLoaded-class_add_keys :
      (add : Option (Bytes → Action World (Unit {0}))) (keys : List Bytes) (w v : World)
      → KeysLoaded keys add w v
      → class_add_keys add keys w ≡ (ok tt, v)
  KeysLoaded-class_add_keys _ keys _ _ (no_loader w) = refl
  KeysLoaded-class_add_keys _ keys _ _ (loaded add w v added) =
      KeysAdded-add_keys add keys w v added

  finish-ok :
      (self : JcatEngine World) (p : Result (Unit {0}) × World) {v : World} {e : JcatEngine World}
      → finish self p ≡ record { result = ok tt; engine = e; world = v }
      → p ≡ (ok tt, v)
  finish-ok self (ok _, u) h = ap (λ ran. (ok tt, ran.world)) h
  finish-ok self (err e, u) h = absurd (cc (ap (λ ran. ran.result) h))

  finish-done :
      (self : JcatEngine World) (p : Result (Unit {0}) × World)
      → (finish self p).result ≡ ok tt
      → (finish self p).engine.done_setup ≡ true
  finish-done self (ok _, u) h = refl
  finish-done self (err e, u) h = absurd (cc h)

  finish-failed :
      (self : JcatEngine World) (p : Result (Unit {0}) × World) {e : Error}
      → (finish self p).result ≡ err e
      → (finish self p).engine ≡ self
  finish-failed self (ok _, u) h = absurd (cc h)
  finish-failed self (err e, u) h = refl

  -- What a first setup does, before the engine remembers it.
  abbrev first : List Bytes → JcatEngine World → World → Result (Unit {0}) × World
  first keys self w =
      and_then (class_setup self.klass.setup w) (λ _. class_add_keys self.klass.add_public_key keys)

  pub setup-fresh :
      (keys : List Bytes) (self : JcatEngine World) (w : World)
      → self.done_setup ≡ false
      → setup keys self w ≡ finish self (first keys self w)
  unfolding setup
  setup-fresh keys self w fresh =
      ap
        (λ b.
          if b
          then record { result = ok tt; engine = self; world = w }
          else finish self (first keys self w))
        fresh

  pub setup-done :
      (keys : List Bytes) (self : JcatEngine World) (w : World)
      → self.done_setup ≡ true
      → setup keys self w ≡ record { result = ok tt; engine = self; world = w }
  unfolding setup
  setup-done keys self w done =
      ap
        (λ b.
          if b
          then record { result = ok tt; engine = self; world = w }
          else finish self (first keys self w))
        done

  -- An engine that has not been set up yet is set up successfully exactly when the setup of its
  -- class succeeds, where it has one, and then every public key of the context is added
  -- successfully in order, where the class can add keys; and then the engine remembers it.
  pub setup_iff :
      (keys : List Bytes) (self : JcatEngine World) (w v : World)
      → self.done_setup ≡ false
      → (setup keys self w
          ≡ record { result = ok tt; engine = record self { done_setup = true }; world = v })
        ↔ SetsUp keys self.klass w v
  setup_iff keys self w v fresh =
      let p = first keys self w in
      rw (setup-fresh keys self w fresh) (
        (λ h.
            let (_, u, class_ok, added) =
              and_then-eq-ok (class_setup self.klass.setup w)
                (λ _. class_add_keys self.klass.add_public_key keys) (finish-ok self p h) in
            record {
              between = u;
              class_ok = class_ok;
              keys_ok = class_add_keys-KeysLoaded self.klass.add_public_key keys u v added;
            }),
        λ s. rw (
          s.class_ok,
          KeysLoaded-class_add_keys self.klass.add_public_key keys s.between v s.keys_ok,
        ),
      )

  -- After a success, another setup succeeds and changes nothing, with whatever public keys the
  -- context has by then and in any world, so that keys added later are not loaded.
  pub setup-setup :
      (keys later : List Bytes) (self : JcatEngine World) (w v : World)
      → (setup keys self w).result ≡ ok tt
      → setup later (setup keys self w).engine v
        ≡ record { result = ok tt; engine = (setup keys self w).engine; world = v }
  setup-setup keys later self w v h = elim (Bool-cases self.done_setup) [
    | inl done ↦ rw (setup-done keys self w done) (setup-done later self v done)
    | inr fresh ↦ rw (setup-fresh keys self w fresh) (
        setup-done later (finish self (first keys self w)).engine v
          (finish-done self (first keys self w) (rw (setup-fresh keys self w fresh) at h)))
  ]

  -- A setup that fails leaves the engine as it was, so that the next operation starts it again.
  pub setup-failed :
      (keys : List Bytes) (self : JcatEngine World) (w : World) (e : Error)
      → (setup keys self w).result ≡ err e
      → (setup keys self w).engine ≡ self
  setup-failed keys self w e h = elim (Bool-cases self.done_setup) [
    | inl done ↦ rw (setup-done keys self w done)
    | inr fresh ↦
        rw (setup-fresh keys self w fresh)
          (finish-failed self (first keys self w) (rw (setup-fresh keys self w fresh) at h))
  ]

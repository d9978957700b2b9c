-- ===== src/Tool/Sources/Agree.antt =====
-- libjcat/jcat-tool.c: the functions behind the verification of an item agree with the relations that
-- describe them.
use libjcat.Tool.Sources.{
  IsLeftOut, IsWanted, Tolerated, Flags, no_flags, no_times, pq, no_times_and_pq, Names, with_id,
  with_no_id, FirstExists, here, further, Source, of_file, of_blob, HasSource,
}
use mathlib.Core.Path.{subst}
use libjcat.Blob.{JcatBlob}
use libjcat.Item.{JcatItem, get_blob_by_kind}
use libjcat.Kind.{JcatBlobKind, unknown}
use libjcat.Prelude.{
  ℕ, Bool, true, false, Bool-cases, Code, not_found, Error, if◌then◌else◌, ◌+◌, Option-cases,
  Option, none, some, List, [], ◌∷◌, Bytes, Result, ok, err, Result-cases, ok-injective, ◌==◌,
  ==_iff, ◌≡◌, ◌≢◌, refl, sym, ap, ◌∙◌, ◌↔◌, inl, inr, arith,
}
use libjcat.Result.{JcatResult}
use libjcat.System.Contents.{get_contents_bytes}
use libjcat.System.{Gio}
use libjcat.Tool.Verify.{
  is_not_found, verify_flags, tolerated, blob_source, find_source, possible, first_existing,
  or_not_found,
}
use libjcat.Tool.Writing.{skips}
use libjcat.Tool.{Tool, JcatToolPrivate}

pub skips_iff :
    (kind : JcatBlobKind) (blob : JcatBlob) → (skips kind blob ≡ true) ↔ IsLeftOut kind blob
unfolding skips
skips_iff kind blob = ground arith

pub skips-IsWanted_iff :
    (kind : JcatBlobKind) (blob : JcatBlob) → (skips kind blob ≡ false) ↔ IsWanted kind blob
unfolding skips
skips-IsWanted_iff kind blob = ground arith

known_kind : (kind : JcatBlobKind) → kind ≢ unknown → (kind == unknown) ≡ false
known_kind kind known = ground (arith, known, ==_iff kind unknown)

some-injective : {A : Type 0} {a b : A} → some a ≡ some b → a ≡ b
some-injective h = cc h

err-injective : {A : Type 0} {e f : Error} → ◌≡◌ {A = Result A} (err e) (err f) → e ≡ f
err-injective h = cc h

abbrev flags_of : Bool → Bool → ℕ
flags_of times only_pq = (if times then 4 else 0) + (if only_pq then 32 else 0)

flags_of-Flags : (times only_pq : Bool) → Flags times only_pq (flags_of times only_pq)
flags_of-Flags false false = no_flags
flags_of-Flags true false = no_times
flags_of-Flags false true = pq
flags_of-Flags true true = no_times_and_pq

Flags-flags_of :
    (times only_pq : Bool) (flags : ℕ) → Flags times only_pq flags → flags ≡ flags_of times only_pq
Flags-flags_of _ _ _ no_flags = refl
Flags-flags_of _ _ _ no_times = refl
Flags-flags_of _ _ _ pq = refl
Flags-flags_of _ _ _ no_times_and_pq = refl

module _ {World : Type 0} (gio : Gio World) where
  is_not_found_iff : (code : Code) → (is_not_found gio code ≡ true) ↔ (code ≡ not_found)
  is_not_found_iff not_found = ((λ h. refl), λ h. refl)
  is_not_found_iff Code.invalid_data = ((λ h. absurd (cc h)), λ h. absurd (cc h))
  is_not_found_iff Code.not_supported = ((λ h. absurd (cc h)), λ h. absurd (cc h))
  is_not_found_iff Code.failed = ((λ h. absurd (cc h)), λ h. absurd (cc h))
  is_not_found_iff Code.invalid_argument = ((λ h. absurd (cc h)), λ h. absurd (cc h))
  is_not_found_iff Code.critical = ((λ h. absurd (cc h)), λ h. absurd (cc h))
  is_not_found_iff (Code.other n) = ((λ h. absurd (cc h)), λ h. absurd (cc h))

  pub verify_flags-Flags :
      (priv : JcatToolPrivate World)
      → Flags priv.disable_time_checks priv.only_pq (verify_flags priv)
  verify_flags-Flags priv = flags_of-Flags priv.disable_time_checks priv.only_pq

  pub Flags-verify_flags :
      (priv : JcatToolPrivate World) (flags : ℕ)
      → Flags priv.disable_time_checks priv.only_pq flags
      → flags ≡ verify_flags priv
  Flags-verify_flags priv flags f = Flags-flags_of priv.disable_time_checks priv.only_pq flags f

  pub tolerated_iff :
      (result : Result JcatResult) → (tolerated gio result ≡ true) ↔ Tolerated result
  unfolding tolerated
  tolerated_iff (ok r) = ((λ h. inl (r, refl)), λ h. refl)
  tolerated_iff (err e) = (
    (λ h. inr (e, refl, (is_not_found_iff e.code).0 h)),
    λ h. elim h [
      | inl (r, good) ↦ absurd (cc good)
      | inr (f, same, code_is) ↦
          (is_not_found_iff e.code).1 (ap (λ (x : Error). x.code) (err-injective same) ∙ code_is)
    ],
  )

  module _ (undefined_shift : ℕ → JcatBlobKind → Bool) where
    pub blob_source-Source :
        (item : JcatItem) (source : Bytes) (blob : JcatBlob) (bytes : Option Bytes)
        → blob_source gio undefined_shift item source blob ≡ ok bytes
        → Source item source blob bytes
    unfolding blob_source
    blob_source-Source item source blob bytes h = elim (Bool-cases (blob.target == unknown)) [
      | inl no_target ↦
          subst (Source item source blob) (ok-injective (rw no_target at h))
            (of_file blob ((==_iff blob.target unknown).0 no_target))
      | inr some_target ↦ elim (Result-cases (get_blob_by_kind item blob.target)) [
        | inr (e, missing) ↦ absurd (cc (rw (some_target, missing) at h))
        | inl (blob_target, found) ↦
            subst (Source item source blob) (ok-injective (rw (some_target, found) at h)) (
              of_blob blob blob_target
                (λ e. cc (sym some_target ∙ (==_iff blob.target unknown).1 e)) found)
      ]
    ]

    pub Source-blob_source :
        (item : JcatItem) (source : Bytes) (blob : JcatBlob) (bytes : Option Bytes)
        → Source item source blob bytes
        → blob_source gio undefined_shift item source blob ≡ ok bytes
    unfolding blob_source
    Source-blob_source item source _ _ (of_file blob no_target) =
        rw ((==_iff blob.target unknown).1 no_target) refl
    Source-blob_source item source _ _ (of_blob blob blob_target known found) =
        rw (known_kind blob.target known, found) refl

  Names-possible :
      (prefix : Bytes) (item : JcatItem) (names : List Bytes)
      → Names gio prefix item names
      → names ≡ possible gio prefix item
  unfolding possible
  Names-possible prefix item _ (with_id id id_is) = rw id_is refl
  Names-possible prefix item _ (with_no_id id_is) = rw id_is refl

  possible-Names :
      (prefix : Bytes) (item : JcatItem) → Names gio prefix item (possible gio prefix item)
  unfolding possible
  possible-Names prefix item = elim (Option-cases item.id) [
    | inl missing ↦ subst (Names gio prefix item) (rw missing refl) (with_no_id missing)
    | inr (id, id_is) ↦ subst (Names gio prefix item) (rw id_is refl) (with_id id id_is)
  ]

  first_existing-FirstExists :
      (names : List Bytes) (w : World) (fn : Bytes)
      → first_existing gio names w ≡ some fn
      → FirstExists gio w names fn
  unfolding first_existing
  first_existing-FirstExists [] w fn h = absurd (cc h)
  first_existing-FirstExists (name ∷ names) w fn h = elim (Bool-cases (gio.exists name w)) [
    | inl there ↦
        subst (FirstExists gio w (name ∷ names)) (some-injective (rw there at h))
          (here name names there)
    | inr missing ↦
        further name names fn missing (first_existing-FirstExists names w fn (rw missing at h))
  ]

  FirstExists-first_existing :
      (w : World) (names : List Bytes) (fn : Bytes)
      → FirstExists gio w names fn
      → first_existing gio names w ≡ some fn
  unfolding first_existing
  FirstExists-first_existing w _ _ (here fn fns there) = rw there refl
  FirstExists-first_existing w _ _ (further fn fns first missing more) =
      rw missing (FirstExists-first_existing w fns first more)

  or_not_found-cases :
      (names : List Bytes) (o : Option Bytes) {fn : Bytes}
      → or_not_found gio names o ≡ ok fn
      → o ≡ some fn
  or_not_found-cases names none h = absurd (cc h)
  or_not_found-cases names (some fn) h = ap some (ok-injective h)

  pub HasSource-find_source :
      (item : JcatItem) (t : Tool World) (source : Bytes) (u : Tool World)
      → HasSource gio item t source u
      → find_source gio item t ≡ (ok source, u)
  unfolding find_source get_contents_bytes
  HasSource-find_source item t source u h =
      let first =
        ap (λ names. first_existing gio names t.world)
          (sym (Names-possible t.priv.prefix item h.names h.names_are))
        ∙ FirstExists-first_existing t.world h.names h.fn h.fn_is in
      rw (first, h.contents_are, h.state_is) refl

  pub find_source-HasSource :
      (item : JcatItem) (t : Tool World) (source : Bytes) (u : Tool World)
      → find_source gio item t ≡ (ok source, u)
      → HasSource gio item t source u
  unfolding find_source get_contents_bytes
  find_source-HasSource item t source u h =
      let names = possible gio t.priv.prefix item in
      elim (Option-cases (first_existing gio names t.world)) [
        | inl missing ↦ absurd (cc (ap (λ p. p.0) (rw missing at h)))
        | inr (fn, first) ↦
            let reads = rw first at h in
            record {
              names = names;
              fn = fn;
              after = (gio.get_contents fn t.world).1;
              names_are = possible-Names t.priv.prefix item;
              fn_is = first_existing-FirstExists names t.world fn first;
              contents_are = ap (λ r. (r, (gio.get_contents fn t.world).1)) (ap (λ p. p.0) reads);
              state_is = sym (ap (λ p. p.1) reads);
            }
      ]

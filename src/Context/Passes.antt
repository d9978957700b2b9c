-- ===== src/Context/Passes.antt =====
-- libjcat/jcat-context.c: the loops of the two verifications, against relations that describe
-- their steps.
use mathlib.Core.List.{append-nil, append_assoc}
use libjcat.Blob.{JcatBlob}
use libjcat.Context.{Session}
use libjcat.Context.Verify.{Check, skipped, passed, refused, Tally, checksum_loop, signature_loop}
use libjcat.Prelude.{
  ◌<◌, ok-injective, ℕ, ◌+◌, ◌%◌, ◌≤◌, List, [], ◌∷◌, ◌++◌, u32_mod, Error, ok, length, ◌≡◌, refl,
  sym, ◌∙◌, ap, arith, ◌⊎◌, inl, inr,
}
use libjcat.Result.{JcatResult}

same_tally :
    {World : Type 0} (s : Session World) {rs ts : List JcatResult} {n m : ℕ}
    → rs ≡ ts
    → n ≡ m
    → ◌≡◌ {A = Tally × Session World}
        (record { results = rs; nr_signature = n }, s)
        (record { results = ts; nr_signature = m }, s)
same_tally s e f = rw (e, f)

module _ {World : Type 0} (Step : JcatBlob → Session World → Check World → Type 0) where
  -- Every blob is skipped or passes, in order; the results are those of the blobs that pass.
  pub data AllPass : List JcatBlob → Session World → List JcatResult → Session World → Type 0 where
    done : (s : Session World) → AllPass [] s [] s
    skip :
        (blob : JcatBlob) (blobs : List JcatBlob) (rs : List JcatResult) (s u : Session World)
        → Step blob s skipped
        → AllPass blobs s rs u
        → AllPass (blob ∷ blobs) s rs u
    pass :
        (blob : JcatBlob) (blobs : List JcatBlob) (r : JcatResult) (rs : List JcatResult)
        (s v u : Session World)
        → Step blob s (passed r v)
        → AllPass blobs v rs u
        → AllPass (blob ∷ blobs) s (r ∷ rs) u

  -- Every blob is tried, in order; the results are those of the blobs that pass.
  pub data AllTried : List JcatBlob → Session World → List JcatResult → Session World → Type 0 where
    done : (s : Session World) → AllTried [] s [] s
    skip :
        (blob : JcatBlob) (blobs : List JcatBlob) (rs : List JcatResult) (s u : Session World)
        → Step blob s skipped
        → AllTried blobs s rs u
        → AllTried (blob ∷ blobs) s rs u
    pass :
        (blob : JcatBlob) (blobs : List JcatBlob) (r : JcatResult) (rs : List JcatResult)
        (s v u : Session World)
        → Step blob s (passed r v)
        → AllTried blobs v rs u
        → AllTried (blob ∷ blobs) s (r ∷ rs) u
    fail :
        (blob : JcatBlob) (blobs : List JcatBlob) (e : Error) (rs : List JcatResult)
        (s v u : Session World)
        → Step blob s (refused e v)
        → AllTried blobs v rs u
        → AllTried (blob ∷ blobs) s rs u

module _ {World : Type 0} {Step Other : JcatBlob → Session World → Check World → Type 0}
    (there : (blob : JcatBlob) (s : Session World) (c : Check World)
      → Step blob s c
      → Other blob s c) where
  pub AllPass-map :
      (blobs : List JcatBlob) (s : Session World) (rs : List JcatResult) (u : Session World)
      → AllPass Step blobs s rs u
      → AllPass Other blobs s rs u
  AllPass-map _ _ _ _ (done s) = done s
  AllPass-map _ _ _ _ (skip blob blobs rs s u c all) =
      skip blob blobs rs s u (there blob s _ c) (AllPass-map blobs s rs u all)
  AllPass-map _ _ _ _ (pass blob blobs r rs s v u c all) =
      pass blob blobs r rs s v u (there blob s _ c) (AllPass-map blobs v rs u all)

  pub AllTried-map :
      (blobs : List JcatBlob) (s : Session World) (rs : List JcatResult) (u : Session World)
      → AllTried Step blobs s rs u
      → AllTried Other blobs s rs u
  AllTried-map _ _ _ _ (done s) = done s
  AllTried-map _ _ _ _ (skip blob blobs rs s u c all) =
      skip blob blobs rs s u (there blob s _ c) (AllTried-map blobs s rs u all)
  AllTried-map _ _ _ _ (pass blob blobs r rs s v u c all) =
      pass blob blobs r rs s v u (there blob s _ c) (AllTried-map blobs v rs u all)
  AllTried-map _ _ _ _ (fail blob blobs e rs s v u c all) =
      fail blob blobs e rs s v u (there blob s _ c) (AllTried-map blobs v rs u all)

-- The steps of a function.
abbrev pub StepOf :
    {World : Type 0}
    → (JcatBlob → Session World → Check World)
    → JcatBlob
    → Session World
    → Check World
    → Type 0
StepOf check blob s c = check blob s ≡ c

module _ {World : Type 0} (check : JcatBlob → Session World → Check World) where
  pub Check-cases :
      (c : Check World)
      → (c ≡ skipped)
        ⊎ ((r : JcatResult) × (v : Session World) × (c ≡ passed r v))
        ⊎ ((e : Error) × (v : Session World) × (c ≡ refused e v))
  Check-cases skipped = inl refl
  Check-cases (passed r v) = inr (inl (r, v, refl))
  Check-cases (refused e v) = inr (inr (e, v, refl))

  -- The first loop succeeds only if all blobs pass.
  pub checksum_loop-AllPass :
      (blobs : List JcatBlob) (before results : List JcatResult) (s u : Session World)
      → checksum_loop check blobs before s ≡ (ok results, u)
      → (rs : List JcatResult) × (results ≡ before ++ rs) × AllPass (StepOf check) blobs s rs u
  unfolding checksum_loop
  checksum_loop-AllPass [] before results s u h =
      ([], ok-injective (ap (λ p. p.0) (sym h)) ∙ rw append-nil, rw (ap (λ p. p.1) h) (done u))
  checksum_loop-AllPass (blob ∷ blobs) before results s u h = elim (Check-cases (check blob s)) [
    | inl c ↦
        let (rs, same, all) =
          checksum_loop-AllPass blobs before results s u (rw (c, checksum_loop) at h) in
        (rs, same, skip blob blobs rs s u c all)
    | inr (inl (r, v, c)) ↦
        let (rs, same, all) =
          checksum_loop-AllPass blobs (before ++ r ∷ []) results v u (rw (c, checksum_loop) at h) in
        (r ∷ rs, same ∙ rw append_assoc, pass blob blobs r rs s v u c all)
    | inr (inr (e, v, c)) ↦ absurd (cc (ap (λ p. p.0) (rw (c, checksum_loop) at h)))
  ]

  -- The first loop succeeds if all blobs pass.
  pub AllPass-checksum_loop :
      (blobs : List JcatBlob) (before rs : List JcatResult) (s u : Session World)
      → AllPass (StepOf check) blobs s rs u
      → checksum_loop check blobs before s ≡ (ok (before ++ rs), u)
  unfolding checksum_loop
  AllPass-checksum_loop _ before _ _ _ (done s) = rw append-nil
  AllPass-checksum_loop _ before _ _ _ (skip blob blobs rs s u c all) =
      rw (c, checksum_loop) (AllPass-checksum_loop blobs before rs s u all)
  AllPass-checksum_loop _ before _ _ _ (pass blob blobs r rs s v u c all) =
      rw (c, checksum_loop)
        (AllPass-checksum_loop blobs (before ++ r ∷ []) rs v u all ∙ rw append_assoc)

  -- The blobs can always be tried.
  pub tried :
      (blobs : List JcatBlob) (s : Session World)
      → (rs : List JcatResult) × (u : Session World) × AllTried (StepOf check) blobs s rs u
  tried [] s = ([], s, done s)
  tried (blob ∷ blobs) s = elim (Check-cases (check blob s)) [
    | inl c ↦ let (rs, u, all) = tried blobs s in (rs, u, skip blob blobs rs s u c all)
    | inr (inl (r, v, c)) ↦
        let (rs, u, all) = tried blobs v in (r ∷ rs, u, pass blob blobs r rs s v u c all)
    | inr (inr (e, v, c)) ↦
        let (rs, u, all) = tried blobs v in (rs, u, fail blob blobs e rs s v u c all)
  ]

  -- The second loop adds the results of the blobs that pass, and counts them.
  pub AllTried-signature_loop :
      (blobs : List JcatBlob) (before : Tally) (rs : List JcatResult) (s u : Session World)
      → before.nr_signature < u32_mod
      → AllTried (StepOf check) blobs s rs u
      → signature_loop check blobs before s ≡ (
        record {
          results = before.results ++ rs;
          nr_signature = (before.nr_signature + length rs) % u32_mod;
        },
        u,
      )
  unfolding signature_loop
  AllTried-signature_loop _ before _ _ _ small (done s) = same_tally s (rw append-nil) (omega arith)
  AllTried-signature_loop _ before _ _ _ small (skip blob blobs rs s u c all) =
      rw (c, signature_loop) (AllTried-signature_loop blobs before rs s u small all)
  AllTried-signature_loop _ before _ _ _ small (pass blob blobs r rs s v u c all) =
      let next : Tally = record {
        results = before.results ++ r ∷ [];
        nr_signature = (before.nr_signature + 1) % u32_mod;
      } in
      rw (c, signature_loop)
        (AllTried-signature_loop blobs next rs v u (omega arith) all
          ∙ same_tally u (rw append_assoc) (omega arith))
  AllTried-signature_loop _ before _ _ _ small (fail blob blobs e rs s v u c all) =
      rw (c, signature_loop) (AllTried-signature_loop blobs before rs v u small all)

  pub AllTried-length :
      (blobs : List JcatBlob) (rs : List JcatResult) (s u : Session World)
      → AllTried (StepOf check) blobs s rs u
      → length rs ≤ length blobs
  AllTried-length _ _ _ _ (done s) = omega arith
  AllTried-length _ _ _ _ (skip blob blobs rs s u c all) =
      omega (arith, AllTried-length blobs rs s u all)
  AllTried-length _ _ _ _ (pass blob blobs r rs s v u c all) =
      omega (arith, AllTried-length blobs rs v u all)
  AllTried-length _ _ _ _ (fail blob blobs e rs s v u c all) =
      omega (arith, AllTried-length blobs rs v u all)

  pub AllPass-length :
      (blobs : List JcatBlob) (rs : List JcatResult) (s u : Session World)
      → AllPass (StepOf check) blobs s rs u
      → length rs ≤ length blobs
  AllPass-length _ _ _ _ (done s) = omega arith
  AllPass-length _ _ _ _ (skip blob blobs rs s u c all) =
      omega (arith, AllPass-length blobs rs s u all)
  AllPass-length _ _ _ _ (pass blob blobs r rs s v u c all) =
      omega (arith, AllPass-length blobs rs v u all)

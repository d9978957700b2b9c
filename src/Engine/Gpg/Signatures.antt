-- ===== src/Engine/Gpg/Signatures.antt =====
-- libjcat/jcat-gpg-engine.c: when GPGME's signatures are accepted, and what the result says.
use mathlib.Core.Path.{subst}
use libjcat.Engine.Cell.{Cell}
use libjcat.Engine.Gpg.Interface.{Gpgme, Signature, Status, no_error}
use libjcat.Engine.Gpg.Verify.{
  found, status_result, check_signature, Newest, none_yet, newer, look, result_of, verify_result,
  run_verify, class_pubkey_verify,
}
use libjcat.Engine.Setup.{and_then-eq-ok}
use libjcat.Prelude.{
  Bool-cases, Any, ◌≢◌, ℕ, ◌^◌, ◌≤◌, ◌<◌, All, true, ltb, ◌&&◌, Option, none, some, List, [], ◌∷◌,
  Bytes, Error, Result, ok, err, ok-injective, ◌≡◌, refl, sym, ap, ◌∙◌, ◌↔◌, ◌⊎◌, inl, inr, arith,
}
use libjcat.Result.{JcatResult}
use libjcat.System.{Gio}

status_result-cases :
    (status : Status) (s : Signature)
    → ((status ≡ no_error) × (status_result status s ≡ ok tt))
      ⊎ ((e : Error) × (status_result status s ≡ err e) × (status ≢ no_error))
status_result-cases Status.no_error s = inl (refl, refl)
status_result-cases Status.sig_expired s = inr (_, refl, λ e. cc e)
status_result-cases Status.key_expired s = inr (_, refl, λ e. cc e)
status_result-cases Status.cert_revoked s = inr (_, refl, λ e. cc e)
status_result-cases Status.bad_signature s = inr (_, refl, λ e. cc e)
status_result-cases Status.no_pubkey s = inr (_, refl, λ e. cc e)
status_result-cases (Status.other_status code) s = inr (_, refl, λ e. cc e)

check_signature-cases :
    (s : Signature)
    → ((s.status ≡ no_error) × (check_signature s ≡ ok tt))
      ⊎ ((e : Error) × (check_signature s ≡ err e) × (s.status ≢ no_error))
unfolding check_signature
check_signature-cases s = status_result-cases s.status s

-- The newest of the signatures behind those before.
unfoldable pub newest_of : List Signature → Newest → Newest
unfolding newer
newest_of [] newest = newest
newest_of (s ∷ signatures) newest = newest_of signatures (newer s newest)

-- Every signature is good.
abbrev pub AllGood : List Signature → Type 0
AllGood = All (λ s. s.status ≡ no_error)

look-AllGood :
    (signatures : List Signature) (newest last : Newest)
    → look signatures newest ≡ ok last
    → AllGood signatures × (last ≡ newest_of signatures newest)
unfolding look newest_of
look-AllGood [] newest last h = (tt, sym (ok-injective h))
look-AllGood (s ∷ signatures) newest last h = elim (check_signature-cases s) [
  | inl (good, passes) ↦
      let (all, same) = look-AllGood signatures (newer s newest) last (rw (passes, look) at h) in
      ((good, all), same)
  | inr (e, fails, _) ↦ absurd (cc (rw (fails, look) at h))
]

AllGood-look :
    (signatures : List Signature) (newest : Newest)
    → AllGood signatures
    → look signatures newest ≡ ok (newest_of signatures newest)
unfolding look newest_of
AllGood-look [] newest all = refl
AllGood-look (s ∷ signatures) newest (good, all) = elim (check_signature-cases s) [
  | inl (_, passes) ↦ rw (look, passes) (AllGood-look signatures (newer s newest) all)
  | inr (e, fails, bad) ↦ absurd (bad good)
]

-- A time that is positive as a gint64.
abbrev pub IsPositive : ℕ → Type 0
IsPositive t = (0 < t) × (t < 2 ^ 63)

-- The signature is the one that was taken.
abbrev IsFrom : Signature → Newest → Type 0
IsFrom s newest =
    IsPositive s.timestamp × (s.timestamp ≡ newest.timestamp) × (s.fpr ≡ newest.authority)

-- The time and the authority belong to one of the signatures whose time is positive as a gint64, and
-- no such time is later; or no signature has such a time, and there is nothing.
pub record IsNewest (signatures : List Signature) (newest : Newest) : Type 0 where
  pub none_later : All (λ s. IsPositive s.timestamp → s.timestamp ≤ newest.timestamp) signatures
  pub from_one :
      ((newest ≡ none_yet) × All (λ s. ¬ IsPositive s.timestamp) signatures)
      ⊎ Any (λ s. IsFrom s newest) signatures

both_lt : (t n : ℕ) → (ltb t (2 ^ 63) && ltb n t) ≡ true → (t < 2 ^ 63) × (n < t)
both_lt t n h = ground arith

newer-later :
    (s : Signature) (newest : Newest)
    → (newest.timestamp ≤ (newer s newest).timestamp)
      × (s.timestamp < 2 ^ 63 → s.timestamp ≤ (newer s newest).timestamp)
unfolding newer
newer-later s newest = ground arith

newer-IsFrom :
    (s : Signature) (newest : Newest) → (newer s newest ≡ newest) ⊎ IsFrom s (newer s newest)
unfolding newer
newer-IsFrom s newest =
    elim (Bool-cases (ltb s.timestamp (2 ^ 63) && ltb newest.timestamp s.timestamp)) [
      | inl taken ↦
          let (small, later) = both_lt s.timestamp newest.timestamp taken in
          rw taken (inr ((omega arith, small), refl, refl))
      | inr kept ↦ rw kept (inl refl)
    ]

newest_of-later :
    (signatures : List Signature) (newest : Newest)
    → newest.timestamp ≤ (newest_of signatures newest).timestamp
unfolding newest_of
newest_of-later [] newest = omega arith
newest_of-later (s ∷ signatures) newest =
    omega (arith, newest_of-later signatures (newer s newest), (newer-later s newest).0)

newest_of-none_later :
    (signatures : List Signature) (newest : Newest)
    → All
        (λ s. IsPositive s.timestamp → s.timestamp ≤ (newest_of signatures newest).timestamp)
        signatures
unfolding newest_of
newest_of-none_later [] newest = tt
newest_of-none_later (s ∷ signatures) newest = (
  (λ (positive, small).
      omega (arith, newest_of-later signatures (newer s newest), (newer-later s newest).1 small)),
  newest_of-none_later signatures (newer s newest),
)

newest_of-IsFrom :
    (signatures : List Signature) (newest : Newest)
    → (newest_of signatures newest ≡ newest)
      ⊎ Any (λ s. IsFrom s (newest_of signatures newest)) signatures
unfolding newest_of
newest_of-IsFrom [] newest = inl refl
newest_of-IsFrom (s ∷ signatures) newest = elim (newest_of-IsFrom signatures (newer s newest)) [
  | inr later ↦ inr (inr later)
  | inl same ↦ elim (newer-IsFrom s newest) [
    | inl kept ↦ inl (same ∙ kept)
    | inr (positive, time, name) ↦ inr (
        inl (
          positive,
          time ∙ sym (ap (λ (n : Newest). n.timestamp) same),
          name ∙ sym (ap (λ (n : Newest). n.authority) same),
        ))
  ]
]

none-IsPositive :
    (signatures : List Signature)
    → All (λ s. IsPositive s.timestamp → s.timestamp ≤ 0) signatures
    → All (λ s. ¬ IsPositive s.timestamp) signatures
none-IsPositive [] all = tt
none-IsPositive (s ∷ signatures) (le, all) =
    ((λ positive. let not_later = le positive in omega arith), none-IsPositive signatures all)

-- What is taken from the signatures is the time and the fingerprint of one of them whose time is
-- positive as a gint64, such that no other such time is later, or nothing if no signature has a time
-- that is positive as a gint64.
pub newest_of-IsNewest :
    (signatures : List Signature) → IsNewest signatures (newest_of signatures none_yet)
newest_of-IsNewest signatures =
    let none_later = newest_of-none_later signatures none_yet in
    record {
      none_later = none_later;
      from_one = elim (newest_of-IsFrom signatures none_yet) [
        | inr one ↦ inr one
        | inl nothing ↦ inl (
          nothing,
          none-IsPositive signatures (
              subst
                (λ (n : Newest).
                  All (λ s. IsPositive s.timestamp → s.timestamp ≤ n.timestamp) signatures)
                nothing none_later),
        )
      ];
    }

found-eq-ok :
    (result : Result Newest) (r : JcatResult)
    → found result ≡ ok r
    → (newest : Newest) × (result ≡ ok newest) × (r ≡ result_of newest)
found-eq-ok (ok newest) r h = (newest, refl, sym (ok-injective h))
found-eq-ok (err e) r h = absurd (cc h)

verify_result_iff :
    (signatures : Option (List Signature)) (r : JcatResult)
    → (verify_result signatures ≡ ok r) ↔ (
        (s : Signature) × (ss : List Signature) × (signatures ≡ some (s ∷ ss))
        × AllGood (s ∷ ss)
        × (r ≡ result_of (newest_of (s ∷ ss) none_yet)))
unfolding verify_result
verify_result_iff none r = (λ h. absurd (cc h), λ (s, ss, same, _, _). absurd (cc same))
verify_result_iff (some []) r = (λ h. absurd (cc h), λ (s, ss, same, _, _). absurd (cc same))
verify_result_iff (some (s ∷ ss)) r = (forward, backward)
  where
    forward :
        verify_result (some (s ∷ ss)) ≡ ok r
        → (t : Signature) × (ts : List Signature) × (some (s ∷ ss) ≡ some (t ∷ ts))
          × AllGood (t ∷ ts)
          × (r ≡ result_of (newest_of (t ∷ ts) none_yet))
    forward h =
        let (newest, looked, same) = found-eq-ok (look (s ∷ ss) none_yet) r h in
        let (all, is) = look-AllGood (s ∷ ss) none_yet newest looked in
        (s, ss, refl, all, same ∙ ap result_of is)

    backward :
        (t : Signature) × (ts : List Signature) × (some (s ∷ ss) ≡ some (t ∷ ts))
          × AllGood (t ∷ ts)
          × (r ≡ result_of (newest_of (t ∷ ts) none_yet))
        → verify_result (some (s ∷ ss)) ≡ ok r
    backward (t, ts, same, all, is) =
        subst (λ o. verify_result o ≡ ok r) (sym same)
          (ap found (AllGood-look (t ∷ ts) none_yet all) ∙ ap ok (sym is))

module _ {World : Type 0} (gpgme : Gpgme World) (gio : Gio World)
    (cell : Cell World (Option gpgme.Ctx)) (keyring_path : Bytes) where
  -- The engine accepts a signature exactly if GPGME runs, gives at least one signature, and every one
  -- of them is good; the result then has the time and the fingerprint of the newest.
  pub class_pubkey_verify_iff :
      (blob blob_signature : Bytes) (flags : ℕ) (w u : World) (r : JcatResult)
      → (class_pubkey_verify gpgme gio cell keyring_path blob blob_signature flags w ≡ (ok r, u))
        ↔ ((run_verify gpgme gio cell keyring_path blob blob_signature w ≡ (ok tt, u))
            × ((s : Signature) × (ss : List Signature) × (gpgme.op_verify_result (cell.get u) u
                  ≡ some (s ∷ ss))
                × AllGood (s ∷ ss)
                × (r ≡ result_of (newest_of (s ∷ ss) none_yet))))
  unfolding class_pubkey_verify
  class_pubkey_verify_iff blob blob_signature flags w u r = (
    λ h.
        let (_, v, ran, later) =
          and_then-eq-ok (run_verify gpgme gio cell keyring_path blob blob_signature w) _ h in
        let same : v ≡ u = ap (λ p. p.1) later in
        (
          ran ∙ rw same refl,
          subst
              (λ x.
                (s : Signature) × (ss : List Signature) × (gpgme.op_verify_result (cell.get x) x
                  ≡ some (s ∷ ss))
                × AllGood (s ∷ ss)
                × (r ≡ result_of (newest_of (s ∷ ss) none_yet)))
              same
              ((verify_result_iff (gpgme.op_verify_result (cell.get v) v) r).0
                (ap (λ p. p.0) later)),
        ),
    λ (ran, signed).
        rw (ran, (verify_result_iff (gpgme.op_verify_result (cell.get u) u) r).1 signed) refl,
  )

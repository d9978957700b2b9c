-- ===== src/Engine/Libcrypto/Signatures.antt =====
-- libjcat/jcat-libcrypto-pkcs7-engine.c: the signatures of a structure, one after the other.
use mathlib.Core.Path.{ap₂}
use libjcat.Engine.Libcrypto.Errors.{call, or_refuse}
use libjcat.Engine.Libcrypto.Interface.{Openssl}
use libjcat.Engine.Libcrypto.Verify.{
  Newest, later_than, signing_attr, extracted, signing_time, renewed, look,
}
use libjcat.Engine.Setup.{and_then-eq-ok}
use libjcat.Engine.{Action}
use libjcat.Prelude.{
  ℕ, Option, none, some, List, [], ◌∷◌, Bytes, codes, c_string, ℤ, pos, negsuc, true, ltb, ◌<◌, ◌≤◌,
  ◌⊎◌, inl, inr, Bool-cases, arith, ok, ok-injective, ◌≡◌, refl, sym, ap, ◌∙◌,
}
use libjcat.System.{pure, ◌>>=◌}

-- A time is before 1970, or no later than the newest.
abbrev pub NotLater : ℕ → ℤ → Type 0
NotLater newest time = ((t : ℕ) × (time ≡ pos t) × (t ≤ newest)) ⊎ ((n : ℕ) × (time ≡ negsuc n))

later_than-NotLater : (newest : ℕ) (time : ℤ) → later_than newest time ≡ none → NotLater newest time
later_than-NotLater newest (pos t) h = inl (t, refl, ground arith)
later_than-NotLater newest (negsuc n) h = inr (n, refl)

some-injective : {A : Type 0} {a b : A} → some a ≡ some b → a ≡ b
some-injective h = cc h

ltb_lem : (n m : ℕ) → ltb n m ≡ true → n < m
ltb_lem n m h = ground arith

later_than-some :
    (newest : ℕ) (time : ℤ) (t : ℕ)
    → later_than newest time ≡ some t
    → (time ≡ pos t) × (newest < t)
later_than-some newest (pos t) u h = elim (Bool-cases (ltb newest t)) [
  | inl later ↦
      let same : t ≡ u = some-injective (rw later at h) in
      (ap pos same, omega (arith, ltb_lem newest t later, same))
  | inr earlier ↦ absurd (cc (rw earlier at h))
]
later_than-some newest (negsuc n) u h = absurd (cc h)

NotLater-later_than : (newest : ℕ) (time : ℤ) → NotLater newest time → later_than newest time ≡ none
NotLater-later_than newest time (inl (t, time_is, old)) = rw time_is (ground arith)
NotLater-later_than newest time (inr (n, time_is)) = rw time_is refl

IsLater-later_than :
    (newest : ℕ) (time : ℤ) (t : ℕ) → time ≡ pos t → newest < t → later_than newest time ≡ some t
IsLater-later_than newest time t time_is late = rw time_is (ground arith)

module _ {World : Type 0} (ssl : Openssl World) where
  open ssl use {Crt, Store, Cms, SignerInfo, Asn1Time, Tm, Name, Bio}

  pub or_refuse-of_ok :
      {A : Type 0} (message : Bytes) (p : Option A × World) {a : A} {v : World}
      → or_refuse ssl message p ≡ (ok a, v)
      → p ≡ (some a, v)
  or_refuse-of_ok message (some b, w) h =
      ap₂ (λ x y. (some x, y)) (ok-injective (ap (λ q. q.0) h)) (ap (λ q. q.1) h)
  or_refuse-of_ok message (none, w) h = absurd (cc (ap (λ q. q.0) h))

  -- The details of the newest signature, from those that were kept and the world before: every
  -- signature has a signing time that can be converted, and the issuer of one that is later than what was
  -- kept can be read.
  pub data Looked : List SignerInfo → Newest → World → Newest → World → Type 0 where
    none_left : (n : Newest) (w : World) → Looked [] n w n w
    not_later :
        (info : SignerInfo) (infos : List SignerInfo) (t : Asn1Time) (tm : Tm) (n m : Newest)
        (w x v : World)
        → signing_attr ssl info ≡ some t
        → ssl.asn1_time_to_tm t w ≡ (some tm, x)
        → NotLater n.timestamp (ssl.mktime tm x)
        → Looked infos n x m v
        → Looked (info ∷ infos) n w m v
    is_later :
        (info : SignerInfo) (infos : List SignerInfo) (t : Asn1Time) (tm : Tm) (time : ℕ)
        (name : Name) (issuer : Bytes) (n m : Newest) (w x y z v : World)
        → signing_attr ssl info ≡ some t
        → ssl.asn1_time_to_tm t w ≡ (some tm, x)
        → ssl.mktime tm x ≡ pos time
        → n.timestamp < time
        → ssl.signer_id_issuer info x ≡ (some name, y)
        → ssl.x509_name_print_ex name y ≡ (some issuer, z)
        → Looked infos (record { timestamp = time; authority = c_string issuer }) z m v
        → Looked (info ∷ infos) n w m v

  extracted-of_ok :
      (o : Option Asn1Time) (w : World) {t : Asn1Time} {v : World}
      → extracted ssl o w ≡ (ok t, v)
      → (o ≡ some t) × (w ≡ v)
  extracted-of_ok none w h = absurd (cc (ap (λ q. q.0) h))
  extracted-of_ok (some t) w h = (ap some (ok-injective (ap (λ q. q.0) h)), ap (λ q. q.1) h)

  signing_time-of_ok :
      (info : SignerInfo) (w : World) {time : ℤ} {v : World}
      → signing_time ssl info w ≡ (ok time, v)
      → (t : Asn1Time) × (tm : Tm) × (signing_attr ssl info ≡ some t)
        × (ssl.asn1_time_to_tm t w ≡ (some tm, v))
        × (ssl.mktime tm v ≡ time)
  unfolding signing_time
  signing_time-of_ok info w {time} {v} h =
      let converted : Asn1Time → Action World ℤ = λ t.
        call ssl (codes "failed to convert timestamp: %s") (ssl.asn1_time_to_tm t)
        >>= (λ time_tm u. (ok (ssl.mktime time_tm u), u)) in
      let (t, x, found, h1) =
        and_then-eq-ok (extracted ssl (signing_attr ssl info) w) converted h in
      let (attr, same) = extracted-of_ok (signing_attr ssl info) w found in
      let (tm, y, read, h2) =
        and_then-eq-ok
          (call ssl (codes "failed to convert timestamp: %s") (ssl.asn1_time_to_tm t) x)
          (λ time_tm u. (ok (ssl.mktime time_tm u), u)) h1 in
      let at_v : y ≡ v = ap (λ q. q.1) h2 in
      (
        t,
        tm,
        attr,
        ap (ssl.asn1_time_to_tm t) same
            ∙ or_refuse-of_ok (codes "failed to convert timestamp: %s") (ssl.asn1_time_to_tm t x)
                read
            ∙ ap (λ u. (some tm, u)) at_v,
        ap (ssl.mktime tm) (sym at_v) ∙ ok-injective (ap (λ q. q.0) h2),
      )

  -- The step for a signature whose time was read.
  renewed-Looked :
      (info : SignerInfo) (infos : List SignerInfo) (t : Asn1Time) (tm : Tm) (n m : Newest)
      (w x v : World)
      → signing_attr ssl info ≡ some t
      → ssl.asn1_time_to_tm t w ≡ (some tm, x)
      → (o : Option ℕ) → later_than n.timestamp (ssl.mktime tm x) ≡ o
      → (renewed ssl info n o >>= (λ more. look ssl infos more)) x ≡ (ok m, v)
      → ((k : Newest) (y : World) → look ssl infos k y ≡ (ok m, v) → Looked infos k y m v)
      → Looked (info ∷ infos) n w m v
  renewed-Looked info infos t tm n m w x v attr tm_is none same h rest =
      not_later info infos t tm n m w x v attr tm_is
        (later_than-NotLater n.timestamp (ssl.mktime tm x) same) (rest n x h)
  renewed-Looked info infos t tm n m w x v attr tm_is (some time) later h rest =
      let (time_is, late) = later_than-some n.timestamp (ssl.mktime tm x) time later in
      let (k, z, kept, h1) =
        and_then-eq-ok (renewed ssl info n (some time) x) (λ more. look ssl infos more) h in
      let printed : Name → Action World Newest = λ name.
        call ssl (codes "failed to print issuer name: %s") (ssl.x509_name_print_ex name)
        >>= (λ text. pure (record { timestamp = time; authority = c_string text })) in
      let (name, y, id, h2) =
        and_then-eq-ok
          (call ssl (codes "failed to extract issuer name: %s") (ssl.signer_id_issuer info) x)
          printed kept in
      let (issuer, z1, print, h3) =
        and_then-eq-ok
          (call ssl (codes "failed to print issuer name: %s") (ssl.x509_name_print_ex name) y)
          (λ text. pure (record { timestamp = time; authority = c_string text })) h2 in
      is_later info infos t tm time name issuer n m w x y z v attr tm_is time_is late
        (or_refuse-of_ok (codes "failed to extract issuer name: %s") (ssl.signer_id_issuer info x)
          id)
        (or_refuse-of_ok (codes "failed to print issuer name: %s") (ssl.x509_name_print_ex name y)
            print
          ∙ ap (λ u. (some issuer, u)) (ap (λ q. q.1) h3))
        (rest (record { timestamp = time; authority = c_string issuer }) z
          (rw (ok-injective (ap (λ q. q.0) h3)) h1))

  pub look-Looked :
      (infos : List SignerInfo) (n m : Newest) (w v : World)
      → look ssl infos n w ≡ (ok m, v)
      → Looked infos n w m v
  unfolding look
  look-Looked [] n m w v h =
      rw (sym (ok-injective (ap (λ q. q.0) h)), sym (ap (λ q. q.1) h)) (none_left n w)
  look-Looked (info ∷ infos) n m w v h =
      let kept : ℤ → Action World Newest =
        λ t. renewed ssl info n (later_than n.timestamp t) >>= (λ more. look ssl infos more) in
      let (time, x, timed, h1) = and_then-eq-ok (signing_time ssl info w) kept h in
      let (t, tm, attr, tm_is, time_is) = signing_time-of_ok info w timed in
      renewed-Looked info infos t tm n m w x v attr tm_is (later_than n.timestamp time)
        (ap (later_than n.timestamp) time_is) h1 (λ k y. look-Looked infos k m y v)

  pub Looked-look :
      (infos : List SignerInfo) (n m : Newest) (w v : World)
      → Looked infos n w m v
      → look ssl infos n w ≡ (ok m, v)
  unfolding look signing_time
  Looked-look _ _ _ _ _ (none_left n w) = refl
  Looked-look _ _ _ _ _ (not_later info infos t tm n m w x v attr tm_is old rest) =
      rw (attr, tm_is, NotLater-later_than n.timestamp (ssl.mktime tm x) old)
        (Looked-look infos n m x v rest)
  Looked-look _ _ _ _ _
        (is_later info infos t tm time name issuer n m w x y z v attr tm_is time_is late id print
          rest) =
      rw
        (attr, tm_is, IsLater-later_than n.timestamp (ssl.mktime tm x) time time_is late, id, print)
        (Looked-look infos (record { timestamp = time; authority = c_string issuer }) m z v rest)

-- ===== src/Engine/Pkcs7/Latest.antt =====
-- libjcat/jcat-gnutls-pkcs7-engine.c: the time of the result of `jcat_gnutls_pkcs7_engine_pubkey_verify`.
use mathlib.Core.Path.{subst}
use mathlib.Core.WellFounded.{Acc}
use libjcat.Engine.Cell.{Cell}
use libjcat.Engine.Pkcs7.Accepts.{class_pubkey_verify-AcceptsAll_iff}
use libjcat.Engine.Pkcs7.Signatures.{AllVerify, none_left, verifies}
use libjcat.Engine.Pkcs7.Interface.{GnutlsX509, gives, SignatureInfo}
use libjcat.Engine.Pkcs7.TrustLists.{Follows}
use libjcat.Engine.Pkcs7.Verify.{Newest, none_yet, time_of, newer, class_pubkey_verify}
use libjcat.Prelude.{
  ℕ, Bool, zero, suc, ◌+◌, ◌<◌, ◌≤◌, Bool-cases, Option, none, List, Bytes, ok, ℤ, pos, negsuc, ltb,
  ltb→lt, false, ◌≡◌, ◌⊎◌, refl, sym, ap, ◌∙◌, inl, inr, arith,
}
use libjcat.Result.{JcatResult}

module _ {World : Type 0} (tls : GnutlsX509 World) where
  open tls use {Crt, TrustList, Signatures}

  -- A signature of an index below some number has the time.
  abbrev pub HasTime : Signatures → ℕ → ℕ → Type 0
  HasTime sigs bound time =
      (j : ℕ) × (info : SignatureInfo) × (j < bound)
      × (tls.pkcs7_get_signature_info sigs j ≡ gives info)
      × (time_of info.signing_time ≡ time)

  -- Of the signatures of so many indices from an index on, and of what was kept before them, the time is
  -- the latest.
  pub record IsLatest (sigs : Signatures) (i rest : ℕ) (before time : ℕ) : Type 0 where
    pub not_before : before ≤ time
    pub none_later :
        (j : ℕ) (info : SignatureInfo)
        → i ≤ j
        → j < i + rest
        → tls.pkcs7_get_signature_info sigs j ≡ gives info
        → time_of info.signing_time ≤ time
    pub from_one : (before ≡ time) ⊎ HasTime sigs (i + rest) time

  -- The later one of two times.
  abbrev IsLaterOf : ℕ → ℕ → ℕ → Type 0
  IsLaterOf a b later = (a ≤ later) × (b ≤ later) × ((later ≡ a) ⊎ (later ≡ b))

  time_of-positive : (t : ℤ) → 0 < time_of t
  time_of-positive (pos zero) = omega arith
  time_of-positive (pos (suc n)) = omega arith
  time_of-positive (negsuc n) = omega arith

  not_ltb : (a b : ℕ) → ltb a b ≡ false → b ≤ a
  not_ltb a b h = ground arith

  gives-injective : {a b : SignatureInfo} → gives a ≡ gives b → a ≡ b
  gives-injective e = cc e

  empty-IsLatest : (sigs : Signatures) (i t : ℕ) → IsLatest sigs i 0 t t
  empty-IsLatest sigs i t = record {
    not_before = omega arith;
    none_later = λ j info le lt told. absurd (omega arith);
    from_one = inl refl;
  }

  step-from_one :
      (sigs : Signatures) (i rest before kept time : ℕ) (info : SignatureInfo)
      → tls.pkcs7_get_signature_info sigs i ≡ gives info
      → (kept ≡ before) ⊎ (kept ≡ time_of info.signing_time)
      → (kept ≡ time) ⊎ HasTime sigs (suc i + rest) time
      → (before ≡ time) ⊎ HasTime sigs (i + suc rest) time
  step-from_one sigs i rest before kept time info told (inl old) (inl same) = inl (sym old ∙ same)
  step-from_one sigs i rest before kept time info told (inr new) (inl same) =
      inr (i, info, omega arith, told, sym new ∙ same)
  step-from_one sigs i rest before kept time info told origin (inr (j, other, below, told_j, is)) =
      inr (j, other, omega arith, told_j, is)

  -- One signature in front, whose details are kept if they are newer.
  step-IsLatest :
      (sigs : Signatures) (i rest before kept time : ℕ) (info : SignatureInfo)
      → tls.pkcs7_get_signature_info sigs i ≡ gives info
      → IsLaterOf before (time_of info.signing_time) kept
      → IsLatest sigs (suc i) rest kept time
      → IsLatest sigs i (suc rest) before time
  step-IsLatest sigs i rest before kept time info told (le_kept, info_le, origin) l = record {
    not_before = let le = l.not_before in omega arith;
    none_later = λ j other le lt told_j. elim (Bool-cases (ltb i j)) [
      | inl later ↦
          let less = ltb→lt i j later in l.none_later j other (omega arith) (omega arith) told_j
      | inr not_later ↦
          let le_i = not_ltb i j not_later in
          let same : i ≡ j = omega arith in
          let same_info : info ≡ other =
            gives-injective (sym told ∙ ap (tls.pkcs7_get_signature_info sigs) same ∙ told_j) in
          let le_time = l.not_before in rw (sym same_info) (omega arith)
    ];
    from_one = step-from_one sigs i rest before kept time info told origin l.from_one;
  }

  newer-timestamp :
      (info : SignatureInfo) (n : Newest) (w : World)
      → IsLaterOf n.timestamp (time_of info.signing_time) (newer tls info n w).0.timestamp
  unfolding newer
  newer-timestamp info n w = elim (Bool-cases (ltb n.timestamp (time_of info.signing_time))) [
    | inl older ↦
        let less = ltb→lt n.timestamp (time_of info.signing_time) older in
        rw older (omega arith, omega arith, inr refl)
    | inr kept ↦
        let not_less = not_ltb n.timestamp (time_of info.signing_time) kept in
        rw kept (omega arith, not_less, inl refl)
  ]

  -- Every time is 1 or later, so the time is that of a signature.
  some_HasTime :
      (sigs : Signatures) (more time : ℕ)
      → ((info : SignatureInfo) × (tls.pkcs7_get_signature_info sigs 0 ≡ gives info))
      → IsLatest sigs 0 (suc more) 0 time
      → HasTime sigs (suc more) time
  some_HasTime sigs more time (info, told) l = elim l.from_one [
    | inl zero_is ↦
        let le = l.none_later 0 info (omega arith) (omega arith) told in
        let positive = time_of-positive info.signing_time in absurd (omega arith)
    | inr (j, other, below, told_j, is) ↦ (j, other, omega arith, told_j, is)
  ]

  module _ (ends : (tl : TrustList) → Acc (Follows tls tl) none) (pqc : Bool) where
    AllVerify-IsLatest :
        (flags : ℕ) (crts : List Crt) (crt : Option Crt) (sigs : Signatures) (bytes : Bytes)
        (i rest : ℕ) (n m : Newest) (w u : World)
        → AllVerify tls ends pqc flags crts crt sigs bytes i rest n w m u
        → IsLatest sigs i rest n.timestamp m.timestamp
    AllVerify-IsLatest flags crts crt sigs bytes _ _ _ _ _ _ (none_left i n w) =
        empty-IsLatest sigs i n.timestamp
    AllVerify-IsLatest flags crts crt sigs bytes _ _ _ _ _ _
          (verifies i rest info n kept m w v x u told good kept_is all) =
        step-IsLatest sigs i rest n.timestamp kept.timestamp m.timestamp info told
          (subst
            (λ (p : Newest × World).
              IsLaterOf n.timestamp (time_of info.signing_time) p.0.timestamp)
            kept_is (newer-timestamp info n v))
          (AllVerify-IsLatest flags crts crt sigs bytes (suc i) rest kept m x u all)

    first_told :
        (flags : ℕ) (crts : List Crt) (crt : Option Crt) (sigs : Signatures) (bytes : Bytes)
        (i rest : ℕ) (n m : Newest) (w u : World)
        → AllVerify tls ends pqc flags crts crt sigs bytes i (suc rest) n w m u
        → (info : SignatureInfo) × (tls.pkcs7_get_signature_info sigs i ≡ gives info)
    first_told flags crts crt sigs bytes _ _ _ _ _ _
          (verifies i rest info n kept m w v x u told good kept_is all) =
        (info, told)

    -- The result of an accepted signature has the time of one of the signatures, such that no other is
    -- later; a signing time that is not positive counts as 1.
    pub class_pubkey_verify-IsLatest :
        (cell : Cell World (List Crt)) (flags : ℕ) (blob blob_signature : Bytes) (r : JcatResult)
        (w u : World)
        → class_pubkey_verify tls ends pqc cell blob blob_signature flags w ≡ (ok r, u)
        → (sigs : Signatures) × (count time : ℕ) × (tls.pkcs7_get_signature_count sigs
            ≡ gives count)
          × (r.timestamp ≡ pos time)
          × HasTime sigs count time
          × IsLatest sigs 0 count 0 time
    class_pubkey_verify-IsLatest cell flags blob blob_signature r w u h =
        let a =
          (class_pubkey_verify-AcceptsAll_iff tls ends pqc cell flags blob blob_signature r w u).0
            h in
        let l =
          AllVerify-IsLatest flags (cell.get w) none a.sigs blob 0 (suc a.more) none_yet a.newest
            a.second u a.all_verify in
        (
          a.sigs,
          suc a.more,
          a.newest.timestamp,
          a.count_is,
          ap (λ (x : JcatResult). x.timestamp) a.result_is,
          some_HasTime a.sigs a.more a.newest.timestamp
              (first_told flags (cell.get w) none a.sigs blob 0 a.more none_yet a.newest a.second u
                a.all_verify)
              l,
          l,
        )

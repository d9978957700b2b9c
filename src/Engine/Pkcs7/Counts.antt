-- ===== src/Engine/Pkcs7/Counts.antt =====
-- What `jcat_gnutls_ensure_trust_list_valid` of libjcat/jcat-gnutls-common.c finds, and which
-- certificates a list of trusted ones gets in libjcat/jcat-gnutls-pkcs7-engine.c.
use mathlib.Core.Path.{subst, fun_ext}
use mathlib.Core.WellFounded.{Acc}
use libjcat.Engine.Pkcs7.Verify.{trusted, only_pq}
use libjcat.Engine.{Action, and_then}
use libjcat.Kind.{has_flag}
use libjcat.Engine.Pkcs7.Certificates.{is_pq}
use libjcat.Engine.Pkcs7.Errors.{call}
use libjcat.Engine.Pkcs7.Interface.{
  GnutlsX509, Reply, gives, fails, Rc, requested_data_not_available, SignAlgorithm, mldsa44,
  mldsa65, mldsa87,
}
use libjcat.Engine.Pkcs7.TrustLists.{
  Follows, add_only_pq, counted, count_cas, ensure_trust_list_valid, some_certificates,
  build_trust_list_only_pq,
}
use libjcat.Prelude.{
  ℕ, suc, ◌+◌, ◌<◌, true, false, Option, none, some, List, [], ◌∷◌, codes, u32_mod, Result, ok, ◌≡◌,
  ◌≢◌, refl, sym, ap, ◌∙◌, ◌↔◌, inl, inr, ◌⊎◌, arith,
}
use libjcat.System.{pure, ◌>>=◌}

module _ {World : Type 0} (tls : GnutlsX509 World) where
  open tls use {Crt, TrustList, Iter}

  -- From the iterator on, the list has so many certificates.
  pub data Holds (tl : TrustList) : Option Iter → ℕ → Type 0 where
    at_end :
        (i : Option Iter)
        → tls.trust_list_iter_get_ca tl i ≡ fails requested_data_not_available
        → Holds tl i 0
    one_more :
        (i : Option Iter) (j : Iter) (n : ℕ)
        → tls.trust_list_iter_get_ca tl i ≡ gives j
        → Holds tl (some j) n
        → Holds tl i (suc n)

  gives-injective : {j k : Iter} → gives j ≡ gives k → j ≡ k
  gives-injective e = cc e

  -- The iterator of a list with finitely many certificates ends.
  pub Holds-Acc : (tl : TrustList) (i : Option Iter) (n : ℕ) → Holds tl i n → Acc (Follows tls tl) i
  Holds-Acc tl _ _ (at_end i e) = Acc.intro i (λ m (j, _, moved). absurd (cc (sym e ∙ moved)))
  Holds-Acc tl _ _ (one_more i j n e h) = Acc.intro i (λ m (k, same, moved).
      subst (Acc (Follows tls tl)) (ap some (gives-injective (sym e ∙ moved)) ∙ sym same)
        (Holds-Acc tl (some j) n h))

  fails-injective : {a b : Rc} → ◌≡◌ {A = Reply Iter} (fails a) (fails b) → a ≡ b
  fails-injective e = cc e

  counted-gives :
      (cnt : ℕ) (r : Reply Iter) (j : Iter) (next : (k : Iter) → r ≡ gives k → Result ℕ)
      → r ≡ gives j
      → (e : r ≡ gives j) × (counted tls cnt r next ≡ next j e)
  counted-gives cnt (gives k) j next h =
      subst (λ x. (e : gives k ≡ gives x) × (next k refl ≡ next x e)) (gives-injective h)
        (refl, refl)
  counted-gives cnt (fails rc) j next h = absurd (cc h)

  counted-at_end :
      (cnt : ℕ) (r : Reply Iter) (next : (k : Iter) → r ≡ gives k → Result ℕ)
      → r ≡ fails requested_data_not_available
      → counted tls cnt r next ≡ ok cnt
  counted-at_end cnt (gives k) next h = absurd (cc h)
  counted-at_end cnt (fails rc) next h = rw (fails-injective h)

  count_cas-Holds :
      (tl : TrustList) (i : Option Iter) (n cnt : ℕ) (ends : Acc (Follows tls tl) i)
      → Holds tl i n
      → cnt + n < u32_mod
      → count_cas tls tl i ends cnt ≡ ok (cnt + n)
  unfolding count_cas
  count_cas-Holds tl _ _ cnt (Acc.intro _ smaller) (at_end i e) fits =
      counted-at_end cnt _ _ e ∙ ap ok (omega arith)
  count_cas-Holds tl _ _ cnt (Acc.intro _ smaller) (one_more i j n e h) fits =
      let (moved, steps) = counted-gives cnt (tls.trust_list_iter_get_ca tl i) j _ e in
      steps
      ∙ ap (count_cas tls tl (some j) (smaller (some j) (j, refl, moved))) (omega arith)
      ∙ count_cas-Holds tl (some j) n (cnt + 1) (smaller (some j) (j, refl, moved)) h (omega arith)
      ∙ ap ok (omega arith)

  some_certificates_iff : (n : ℕ) → (some_certificates tls (ok n) ≡ ok tt) ↔ (n ≢ 0)
  some_certificates_iff n = (λ h e. cc (rw e at h), λ h. ground arith)

  -- The same, for whatever shows that the iterator ends.
  pub ensure_trust_list_valid_iff :
      (tl : TrustList) (n : ℕ) (ends : Acc (Follows tls tl) none)
      → Holds tl none n
      → n < u32_mod
      → (ensure_trust_list_valid tls tl ends ≡ ok tt) ↔ (n ≢ 0)
  unfolding ensure_trust_list_valid
  ensure_trust_list_valid_iff tl n ends h fits =
      let counts = count_cas-Holds tl none n 0 ends h (omega arith) ∙ ap ok (omega arith) in
      rw counts (some_certificates_iff n)

  -- For a list with fewer than 2 ^ 32 certificates, which GnuTLS's iterator gives one after the other, the
  -- iterator ends, and the loop along it takes the list as valid exactly if it has some certificate.
  pub ensure_trust_list_valid-Holds :
      (tl : TrustList) (n : ℕ)
      → Holds tl none n
      → n < u32_mod
      → (ends : Acc (Follows tls tl) none) × ((ensure_trust_list_valid tls tl ends ≡ ok tt)
          ↔ (n ≢ 0))
  ensure_trust_list_valid-Holds tl n h fits =
      let ends = Holds-Acc tl none n h in (ends, ensure_trust_list_valid_iff tl n ends h fits)

  -- The algorithms that resist a quantum computer.
  abbrev pub IsMldsa : SignAlgorithm → Type 0
  IsMldsa algorithm = (algorithm ≡ mldsa44) ⊎ (algorithm ≡ mldsa65) ⊎ (algorithm ≡ mldsa87)

  -- The part of a list of certificates whose signatures resist a quantum computer, in its order.
  pub data PqPart : List Crt → List Crt → Type 0 where
    no_more : PqPart [] []
    resists :
        (crt : Crt) (crts part : List Crt)
        → IsMldsa (tls.x509_crt_get_signature_algorithm crt)
        → PqPart crts part
        → PqPart (crt ∷ crts) (crt ∷ part)
    left_out :
        (crt : Crt) (crts part : List Crt)
        → ¬ IsMldsa (tls.x509_crt_get_signature_algorithm crt)
        → PqPart crts part
        → PqPart (crt ∷ crts) part

  is_pq-cases :
      (algorithm : SignAlgorithm)
      → ((is_pq algorithm ≡ true) × IsMldsa algorithm)
        ⊎ ((is_pq algorithm ≡ false) × ¬ IsMldsa algorithm)
  is_pq-cases mldsa44 = inl (refl, inl refl)
  is_pq-cases mldsa65 = inl (refl, inr (inl refl))
  is_pq-cases mldsa87 = inl (refl, inr (inr refl))
  is_pq-cases (SignAlgorithm.other_algorithm n) =
      inr (refl, λ h. elim h [ inl e ↦ cc e | inr (inl e) ↦ cc e | inr (inr e) ↦ cc e ])

  -- A loop that adds all that it is given.
  abbrev pub add_each : List Crt → TrustList → Action World TrustList
  add_each [] tl = pure tl
  add_each (crt ∷ crts) tl = do
    more ← call tls (codes "failed to add to trust list: ") (tls.trust_list_add_cas tl (crt ∷ []))
    add_each crts more

  add_only_pq-PqPart :
      (crts : List Crt)
      → (part : List Crt) × PqPart crts part
        × ((tl : TrustList) → add_only_pq tls crts tl ≡ add_each part tl)
  unfolding add_only_pq
  add_only_pq-PqPart [] = ([], no_more, λ tl. refl)
  add_only_pq-PqPart (crt ∷ crts) =
      let (part, is_part, same) = add_only_pq-PqPart crts in
      elim (is_pq-cases (tls.x509_crt_get_signature_algorithm crt)) [
        | inl (good, pq) ↦ (
          crt ∷ part,
          resists crt crts part pq is_part,
          λ tl.
              rw (good, add_only_pq)
                (fun_ext (λ w.
                  ap
                    (λ next.
                      and_then
                        (call tls (codes "failed to add to trust list: ")
                          (tls.trust_list_add_cas tl (crt ∷ [])) w)
                        next)
                    (fun_ext same))),
        )
        | inr (bad, not_pq) ↦
            (part, left_out crt crts part not_pq is_part, λ tl. rw (bad, add_only_pq) (same tl))
      ]

  -- With JCAT_VERIFY_FLAG_ONLY_PQ, and a GnuTLS that knows the algorithms, the list of trusted
  -- certificates gets those whose signature algorithm is one of the three of ML-DSA, in their order,
  -- and no other one.
  pub trusted-PqPart :
      (ends : (tl : TrustList) → Acc (Follows tls tl) none) (flags : ℕ) (crts : List Crt)
      → has_flag flags only_pq ≡ true
      → (part : List Crt) × PqPart crts part
        × (trusted tls ends true flags crts ≡ (
            call tls (codes "failed to create trust list: ") tls.trust_list_init >>= add_each part))
  unfolding trusted build_trust_list_only_pq
  trusted-PqPart ends flags crts only =
      let (part, is_part, same) = add_only_pq-PqPart crts in
      (
        part,
        is_part,
        rw only (
            ap
              (λ next.
                call tls (codes "failed to create trust list: ") tls.trust_list_init >>= next)
              (fun_ext same)),
      )

-- ===== src/Engine/Pkcs7/TrustLists.antt =====
-- The lists of trusted certificates of libjcat/jcat-gnutls-pkcs7-engine.c, and
-- `jcat_gnutls_ensure_trust_list_valid` of libjcat/jcat-gnutls-common.c.
use mathlib.Core.WellFounded.{Acc}
use libjcat.Engine.{Action}
use libjcat.Engine.Pkcs7.Certificates.{is_pq}
use libjcat.Engine.Pkcs7.Errors.{call}
use libjcat.Engine.Pkcs7.Interface.{
  GnutlsX509, Reply, gives, fails, Rc, requested_data_not_available,
}
use libjcat.Prelude.{
  ℕ, ◌+◌, ◌%◌, Bool, true, false, Option, none, some, List, [], ◌∷◌, Bytes, codes, invalid_data,
  u32_mod, Error, Result, ok, err, ◌==◌, ◌≡◌, refl, if◌then◌else◌,
}
use libjcat.System.{pure, ◌>>=◌}

abbrev is_not_available : Rc → Bool
is_not_available requested_data_not_available = true
is_not_available _ = false

abbrev pub no_certificates : Error
no_certificates = record {
  code = invalid_data;
  message = codes "no certificates in trust list";
  values = [];
}

module _ {World : Type 0} (tls : GnutlsX509 World) where
  open tls use {Crt, TrustList, Iter}

  abbrev numbered : Bytes → Rc → Error
  numbered message rc = record {
    code = invalid_data;
    message = message;
    values = tls.strerror rc ∷ tls.rc_digits rc ∷ [];
  }

  abbrev created : Reply TrustList × World → Result TrustList × World
  created (gives tl, w) = (ok tl, w)
  created (fails rc, w) = (err (numbered (codes "failed to create trust list: %s [%i]") rc), w)

  -- `jcat_gnutls_pkcs7_engine_build_trust_list`.
  unfoldable pub build_trust_list : List Crt → Action World TrustList
  build_trust_list pubkeys_crts = do
    tl ← (λ w. created (tls.trust_list_init w))
    call tls (codes "failed to add to trust list: ") (tls.trust_list_add_cas tl pubkeys_crts)

  -- The loop of `jcat_gnutls_pkcs7_engine_build_trust_list_only_pq`.
  unfoldable pub add_only_pq : List Crt → TrustList → Action World TrustList
  add_only_pq [] tl = pure tl
  add_only_pq (crt ∷ crts) tl = elim (is_pq (tls.x509_crt_get_signature_algorithm crt)) [
    | false ↦ add_only_pq crts tl
    | true ↦ do
      more ← call tls (codes "failed to add to trust list: ") (tls.trust_list_add_cas tl (crt ∷ []))
      add_only_pq crts more
  ]

  -- `jcat_gnutls_pkcs7_engine_build_trust_list_only_pq`.
  unfoldable pub build_trust_list_only_pq : List Crt → Action World TrustList
  unfolding add_only_pq
  build_trust_list_only_pq pubkeys_crts = do
    tl ← call tls (codes "failed to create trust list: ") tls.trust_list_init
    add_only_pq pubkeys_crts tl

  -- The iterator that another one is moved to.
  abbrev pub Follows : TrustList → Option Iter → Option Iter → Type 0
  Follows tl next i = (j : Iter) × (next ≡ some j) × (tls.trust_list_iter_get_ca tl i ≡ gives j)

  -- The end of the loop "check we have more than zero certs", or its next turn.
  abbrev pub counted : ℕ → (r : Reply Iter) → ((j : Iter) → r ≡ gives j → Result ℕ) → Result ℕ
  counted cnt (gives j) next = next j refl
  counted cnt (fails rc) next =
      if is_not_available rc
      then ok cnt
      else err (numbered (codes "failed to get ca from trust list: %s [%i]") rc)

  -- The loop; it ends since the iterator does. The counter is a guint.
  unfoldable pub count_cas : (tl : TrustList) (i : Option Iter) → Acc (Follows tl) i → ℕ → Result ℕ
  count_cas tl i (Acc.intro _ smaller) cnt =
      counted cnt (tls.trust_list_iter_get_ca tl i)
        (λ j e. count_cas tl (some j) (smaller (some j) (j, refl, e)) ((cnt + 1) % u32_mod))

  abbrev pub some_certificates : Result ℕ → Result (Unit {0})
  some_certificates (ok cnt) = if cnt == 0 then err no_certificates else ok tt
  some_certificates (err e) = err e

  -- `jcat_gnutls_ensure_trust_list_valid`.
  unfoldable pub ensure_trust_list_valid :
      (tl : TrustList) → Acc (Follows tl) none → Result (Unit {0})
  unfolding count_cas
  ensure_trust_list_valid tl ends = some_certificates (count_cas tl none ends 0)

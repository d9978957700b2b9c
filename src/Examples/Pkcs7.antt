-- ===== src/Examples/Pkcs7.antt =====
-- The engine for PKCS-7 over a toy library: a certificate is one byte and signs by itself, and a
-- structure of signatures is a byte for each signature, which is the certificate and the time.
use mathlib.Core.WellFounded.{Acc}
use libjcat.Engine.Cell.{Cell}
use libjcat.Engine.Pkcs7.Accepts.{AcceptsAll, class_pubkey_verify-AcceptsAll_iff}
use libjcat.Engine.Pkcs7.Signatures.{AllVerify, none_left, verifies, SignatureVerifies}
use libjcat.Engine.Pkcs7.Counts.{
  Holds, at_end, one_more, Holds-Acc, ensure_trust_list_valid_iff, ensure_trust_list_valid-Holds,
  PqPart, trusted-PqPart, add_each,
}
use libjcat.Engine.Pkcs7.Errors.{call}
use libjcat.System.{◌>>=◌}
use libjcat.Engine.Pkcs7.Interface.{
  GnutlsX509, pem, Call, Reply, gives, fails, SignAlgorithm, mldsa87, other_algorithm,
  SignatureInfo, requested_data_not_available, pk_sig_verify_failed,
}
use libjcat.Engine.Pkcs7.Class.{class_add_public_key_raw}
use libjcat.Engine.Pkcs7.PublicKeys.{Trusts, class_add_public_key_raw-Trusts_iff}
use libjcat.Engine.Pkcs7.Latest.{HasTime, IsLatest, class_pubkey_verify-IsLatest}
use libjcat.Engine.Pkcs7.TrustLists.{Follows, ensure_trust_list_valid}
use libjcat.Engine.Pkcs7.Verify
use libjcat.Engine.Pkcs7.Verify.{Newest, none_yet, result_of, newer, trusted}
use libjcat.Examples.Disk.{empty_disk}
use libjcat.Prelude.{
  ℕ, zero, suc, true, false, Option, none, some, List, [], ◌∷◌, Bytes, codes, pos, ok, leb, length,
  ◌≡◌, ◌≢◌, refl, ◌↔◌, arith, if◌then◌else◌,
}
use libjcat.Result.{JcatResult}
use libjcat.System.Memory.{Disk}

abbrev done : {A : Type 0} → A → Call Disk A
done a w = (gives a, w)

abbrev next_of : Option Bytes → Bytes → Reply Bytes
next_of (some []) tl = fails requested_data_not_available
next_of (some (_ ∷ rest)) tl = gives rest
next_of none [] = fails requested_data_not_available
next_of none (_ ∷ rest) = gives rest

-- A certificate of 100 or more resists a quantum computer.
abbrev algorithm : ℕ → SignAlgorithm
algorithm crt = if leb 100 crt then mldsa87 else other_algorithm crt

abbrev at_index : Bytes → ℕ → Reply SignatureInfo
at_index [] i = fails requested_data_not_available
at_index (b ∷ bs) zero = gives (record { issuer_dn = b ∷ []; signing_time = pos b })
at_index (b ∷ bs) (suc i) = at_index bs i

abbrev signed_by : Bytes → List ℕ → Reply (Unit {0})
signed_by sigs [] = fails pk_sig_verify_failed
signed_by sigs (_ ∷ _) = gives tt

abbrev one_of : Bytes → ℕ
one_of (b ∷ _) = b
one_of [] = 0

abbrev toy : GnutlsX509 Disk
toy = record {
  Crt = ℕ;
  Privkey = ℕ;
  X509Privkey = ℕ;
  Pubkey = ℕ;
  Digest = ℕ;
  Dn = Bytes;
  TrustList = Bytes;
  Iter = Bytes;
  Signatures = Bytes;
  strerror = λ rc. [];
  rc_digits = λ rc. [];
  x509_crt_init = done 0;
  x509_crt_import = λ crt bytes format. done (one_of bytes);
  x509_crt_get_key_usage = λ crt. gives 0;
  key_digital_signature = λ usage. true;
  key_cert_sign = λ usage. true;
  x509_crt_get_signature_algorithm = algorithm;
  sign_get_name = λ a. [];
  x509_crt_set_pubkey = λ crt pubkey. done pubkey;
  x509_crt_set_serial = λ crt serial. done crt;
  x509_crt_set_activation_time = λ crt t. done crt;
  x509_crt_set_expiration_time = λ crt t. done crt;
  x509_crt_set_basic_constraints = λ crt ca path. done crt;
  x509_crt_set_key_usage = λ crt. done crt;
  x509_crt_get_key_id = λ crt. done (crt ∷ []);
  x509_crt_set_subject_key_id = λ crt id. done crt;
  x509_crt_set_version = λ crt version. done crt;
  x509_crt_privkey_sign = λ crt issuer key dig. done crt;
  x509_crt_export2 = λ crt. done (crt ∷ []);
  privkey_init = done 0;
  privkey_import_x509_raw = λ key bytes. done (one_of bytes);
  pubkey_init = done 0;
  pubkey_import_privkey = λ pubkey key. done key;
  pubkey_get_preferred_hash_algorithm = λ pubkey. done 0;
  x509_privkey_init = done 0;
  x509_spki_init = done tt;
  sec_param_to_pk_bits = λ pk. pos 3072;
  x509_privkey_generate2 = λ key pk bits. done 7;
  x509_privkey_verify_params = λ key. done tt;
  x509_privkey_export2 = λ key. done (key ∷ []);
  rnd = λ n. done [];
  x509_dn_init = done [];
  x509_dn_import = λ dn bytes. done bytes;
  x509_dn_get_str2 = λ dn. done dn;
  trust_list_init = done [];
  trust_list_add_cas = λ tl crts. done crts;
  trust_list_iter_get_ca = λ tl i. next_of i tl;
  pkcs7_init = done [];
  pkcs7_import = λ made bytes. done bytes;
  pkcs7_get_signature_count = λ sigs. gives (length sigs);
  pkcs7_get_signature_info = at_index;
  pkcs7_verify_direct = λ sigs crt i bytes no_times w. (gives tt, w);
  pkcs7_verify = λ sigs tl i bytes no_times w. (signed_by sigs tl, w);
  pkcs7_sign = λ sigs crt key bytes dig included. done (crt ∷ sigs);
  pkcs7_set_crt = λ sigs crt. done sigs;
  pkcs7_export2 = λ sigs. done sigs;
}

Holds-rest : (tl rest : Bytes) → Holds toy tl (some rest) (length rest)
Holds-rest tl [] = at_end (some []) refl
Holds-rest tl (b ∷ rest) = one_more (some (b ∷ rest)) rest (length rest) refl (Holds-rest tl rest)

Holds-list : (tl : Bytes) → Holds toy tl none (length tl)
Holds-list [] = at_end none refl
Holds-list (b ∷ rest) = one_more none rest (length rest) refl (Holds-rest (b ∷ rest) rest)

ends : (tl : Bytes) → Acc (Follows toy tl) none
ends tl = Holds-Acc toy tl none (length tl) (Holds-list tl)

ensure_trust_list_valid-Holds_example :
    (ends : Acc (Follows toy (3 ∷ 4 ∷ [])) none) × ((ensure_trust_list_valid toy (3 ∷ 4 ∷ []) ends
        ≡ ok tt)
      ↔ ◌≢◌ {A = ℕ} 2 0)
ensure_trust_list_valid-Holds_example =
    ensure_trust_list_valid-Holds toy (3 ∷ 4 ∷ []) 2 (Holds-list (3 ∷ 4 ∷ [])) (omega arith)

two_certificates : ensure_trust_list_valid toy (3 ∷ 4 ∷ []) (ends (3 ∷ 4 ∷ [])) ≡ ok tt
two_certificates =
    (ensure_trust_list_valid_iff toy (3 ∷ 4 ∷ []) 2 (ends (3 ∷ 4 ∷ [])) (Holds-list (3 ∷ 4 ∷ []))
        (omega arith)).1
      (λ e. absurd (omega arith))

trusted-PqPart_example :
    (part : List ℕ) × PqPart toy (3 ∷ 100 ∷ 4 ∷ 200 ∷ []) part
    × (trusted toy ends true 32 (3 ∷ 100 ∷ 4 ∷ 200 ∷ []) ≡ (
        call toy (codes "failed to create trust list: ") toy.trust_list_init >>= add_each toy part))
trusted-PqPart_example = trusted-PqPart toy ends 32 (3 ∷ 100 ∷ 4 ∷ 200 ∷ []) refl

abbrev crt_cell : Cell Disk (List ℕ)
crt_cell = record { get = λ w. w.kept; set = λ crts w. record w { kept = crts } }

abbrev with_crts : Disk
with_crts = record empty_disk { kept = 3 ∷ 4 ∷ [] }

abbrev newest_result : JcatResult
newest_result = result_of (record { timestamp = 9; authority = 9 ∷ [] })

class_pubkey_verify-AcceptsAll_iff_example :
    (Verify.class_pubkey_verify toy ends false crt_cell (codes "ab") (5 ∷ 9 ∷ 2 ∷ []) 0 with_crts
      ≡ (ok newest_result, with_crts))
    ↔ AcceptsAll toy ends false 0
        (3 ∷ 4 ∷ [])
        none
        (codes "ab")
        (5 ∷ 9 ∷ 2 ∷ [])
        newest_result
        with_crts
        with_crts
class_pubkey_verify-AcceptsAll_iff_example =
    class_pubkey_verify-AcceptsAll_iff toy ends false crt_cell 0 (codes "ab") (5 ∷ 9 ∷ 2 ∷ [])
      newest_result with_crts with_crts

abbrev info : ℕ → SignatureInfo
info t = record { issuer_dn = t ∷ []; signing_time = pos t }

abbrev newest_at : ℕ → Newest
newest_at t = record { timestamp = t; authority = t ∷ [] }

-- Every signature verifies by the list of the two certificates.
verifies_by_list :
    (i : ℕ)
    → SignatureVerifies toy ends false 0
        (3 ∷ 4 ∷ [])
        none
        (5 ∷ 9 ∷ 2 ∷ [])
        i
        (codes "ab")
        with_crts
        with_crts
unfolding trusted
verifies_by_list i = (3 ∷ 4 ∷ [], with_crts, refl, two_certificates, refl)

three_verify :
    AllVerify toy ends false 0
      (3 ∷ 4 ∷ [])
      none
      (5 ∷ 9 ∷ 2 ∷ [])
      (codes "ab")
      0
      3
      none_yet
      with_crts
      (newest_at 9)
      with_crts
unfolding newer
three_verify =
    verifies 0 2 (info 5) none_yet (newest_at 5) (newest_at 9) with_crts with_crts with_crts
      with_crts refl (verifies_by_list 0) refl
      (verifies 1 1 (info 9) (newest_at 5) (newest_at 9) (newest_at 9) with_crts with_crts with_crts
        with_crts refl (verifies_by_list 1) refl
        (verifies 2 0 (info 2) (newest_at 9) (newest_at 9) (newest_at 9) with_crts with_crts
          with_crts with_crts refl (verifies_by_list 2) refl (none_left 3 (newest_at 9) with_crts)))

-- The newest of three good signatures is the second one.
pkcs7_accepted :
    Verify.class_pubkey_verify toy ends false crt_cell (codes "ab") (5 ∷ 9 ∷ 2 ∷ []) 0 with_crts
    ≡ (ok newest_result, with_crts)
pkcs7_accepted =
    (class_pubkey_verify-AcceptsAll_iff toy ends false crt_cell 0 (codes "ab") (5 ∷ 9 ∷ 2 ∷ [])
        newest_result with_crts with_crts).1
      (record {
        made = [];
        sigs = 5 ∷ 9 ∷ 2 ∷ [];
        first = with_crts;
        second = with_crts;
        more = 2;
        newest = newest_at 9;
        init_ok = refl;
        import_ok = refl;
        count_is = refl;
        all_verify = three_verify;
        result_is = refl;
      })

class_pubkey_verify-IsLatest_example :
    (sigs : Bytes) × (count time : ℕ) × (toy.pkcs7_get_signature_count sigs ≡ gives count)
    × (newest_result.timestamp ≡ pos time)
    × HasTime toy sigs count time
    × IsLatest toy sigs 0 count 0 time
class_pubkey_verify-IsLatest_example =
    class_pubkey_verify-IsLatest toy ends false crt_cell 0 (codes "ab") (5 ∷ 9 ∷ 2 ∷ [])
      newest_result with_crts with_crts pkcs7_accepted

class_add_public_key_raw-Trusts_iff_example :
    (class_add_public_key_raw toy (λ n. []) crt_cell (5 ∷ []) with_crts
      ≡ (ok tt, record empty_disk { kept = 3 ∷ 4 ∷ 5 ∷ [] }))
    ↔ Trusts toy
        (λ n. [])
        crt_cell
        (5 ∷ [])
        pem
        with_crts
        (record empty_disk { kept = 3 ∷ 4 ∷ 5 ∷ [] })
class_add_public_key_raw-Trusts_iff_example =
    class_add_public_key_raw-Trusts_iff toy (λ n. []) crt_cell (5 ∷ []) with_crts
      (record empty_disk { kept = 3 ∷ 4 ∷ 5 ∷ [] })

certificate_added :
    class_add_public_key_raw toy (λ n. []) crt_cell (5 ∷ []) with_crts
    ≡ (ok tt, record empty_disk { kept = 3 ∷ 4 ∷ 5 ∷ [] })
unfolding class_add_public_key_raw
certificate_added = refl

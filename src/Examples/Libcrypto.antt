-- ===== src/Examples/Libcrypto.antt =====
-- The engine for PKCS-7 over a toy OpenSSL: a structure of signatures is a byte for each signature,
-- which is its time and the name of its issuer.
use libjcat.Engine.Cell.{Cell}
use libjcat.Engine.Libcrypto.Accepts.{
  AcceptsCms, class_pubkey_verify-AcceptsCms_iff, class_pubkey_verify-flags,
}
use libjcat.Engine.Libcrypto.Interface.{Openssl, Call, Asn1Tag, utctime, other_tag}
use libjcat.Engine.Libcrypto.Verify
use libjcat.Engine.Libcrypto.Verify.{result_of, look, configure, check_cms}
use libjcat.Examples.Disk.{empty_disk}
use libjcat.Prelude.{
  ℕ, true, Option, none, some, [], ◌∷◌, Bytes, codes, pos, ok, is_some, ◌==◌, ◌≡◌, refl, ◌↔◌,
  if◌then◌else◌,
}
use libjcat.Result.{JcatResult}
use libjcat.System.Memory.{Disk}

abbrev done : {A : Type 0} → A → Call Disk A
done a w = (some a, w)

abbrev idle : {A : Type 0} → Option A → Disk → Disk
idle a w = w

-- A time of 0 is not a time.
abbrev tag : ℕ → Asn1Tag
tag t = if t == 0 then other_tag 0 else utctime

abbrev toy_ssl : Openssl Disk
toy_ssl = record {
  Bio = Bytes;
  Crt = ℕ;
  Key = ℕ;
  DecoderCtx = ℕ;
  EncoderCtx = ℕ;
  KeygenCtx = ℕ;
  BigNum = ℕ;
  Name = Bytes;
  Store = ℕ;
  StoreCtx = ℕ;
  Cms = Bytes;
  SignerInfo = ℕ;
  Attribute = ℕ;
  Asn1Type = ℕ;
  Asn1Time = ℕ;
  Tm = ℕ;
  err_peek_error = λ w. 0;
  err_print_errors = λ w. ([], w);
  err_set_mark = λ w. w;
  err_pop_to_mark = λ w. w;
  bio_new_mem_buf = λ bytes. done bytes;
  pem_read_bio_x509 = λ bio. done 7;
  d2i_x509 = λ bytes. done 7;
  decoder_ctx_new_for_pkey = done 0;
  decoder_from_data = λ ctx bytes. done 7;
  pkey_ctx_new_id_rsa = done 0;
  pkey_keygen_init = λ ctx. done tt;
  pkey_ctx_set_rsa_keygen_bits = λ ctx bits. done tt;
  pkey_keygen = λ ctx. done 7;
  encoder_ctx_new_for_pkey = λ key. done key;
  encoder_to_data = λ ctx. done (ctx ∷ []);
  x509_new = done 0;
  bn_new = done 0;
  x509_set_pubkey = λ crt key. done tt;
  bn_rand = λ bn bits. done tt;
  set_serial_number = λ crt bn. done tt;
  set_not_before = λ crt t. done tt;
  set_not_after = λ crt t. done tt;
  add_basic_constraints = λ crt. done tt;
  add_key_usage = λ crt. done tt;
  x509_pubkey_digest = λ crt. done [];
  add_subject_key_id = λ crt md. done tt;
  x509_set_version_3 = λ crt. done tt;
  x509_sign = λ crt key. done tt;
  pem_write_bio_x509 = λ crt. done [];
  x509_get_key_usage = λ crt w. (0, w);
  ku_digital_signature = λ usage. true;
  ku_key_cert_sign = λ usage. true;
  x509_get_issuer_name = λ crt. crt ∷ [];
  x509_name_print_ex = λ name. done name;
  store_new = done 1;
  store_add_cert = λ store crt. done tt;
  store_set_purpose_any = λ store w. idle store w;
  store_set_no_check_time = λ store b w. idle store w;
  store_set_ex_data = λ store name w. idle store w;
  store_get_ex_data = λ store w. none;
  store_set_verify_cb = λ store cb w. idle store w;
  store_ctx_get_current_cert = λ ctx w. ctx;
  store_ctx_get0_store = λ ctx. some 1;
  pem_read_bio_cms = λ bio w. (bio, w);
  cms_get0_signer_infos = λ cms. cms;
  cms_verify = λ cms signer store bio w. (is_some store, w);
  cms_signed_get_attr_by_nid = λ info. pos 0;
  cms_signed_get_attr = λ info loc. some info;
  attribute_get0_type = λ attr. attr;
  asn1_tag = tag;
  asn1_value = λ t. t;
  asn1_time_to_tm = λ t. done t;
  mktime = λ tm w. pos tm;
  signer_id_issuer = λ info. done (info ∷ []);
  cms_sign = λ crt key bio flags. done (crt ∷ []);
  pem_write_bio_cms = λ cms w. (cms, w);
}

abbrev store_cell : Cell Disk (Option ℕ)
store_cell = record { get = λ w. some 1; set = λ store w. w }

abbrev newest_signed : JcatResult
newest_signed = result_of (record { timestamp = 9; authority = 9 ∷ [] })

class_pubkey_verify-AcceptsCms_iff_example :
    (Verify.class_pubkey_verify toy_ssl store_cell (codes "ab") (5 ∷ 9 ∷ 2 ∷ []) 0 empty_disk
      ≡ (ok newest_signed, empty_disk))
    ↔ AcceptsCms toy_ssl store_cell 0
        (codes "ab")
        (5 ∷ 9 ∷ 2 ∷ [])
        newest_signed
        empty_disk
        empty_disk
class_pubkey_verify-AcceptsCms_iff_example =
    class_pubkey_verify-AcceptsCms_iff toy_ssl store_cell 0 (codes "ab") (5 ∷ 9 ∷ 2 ∷ [])
      newest_signed empty_disk empty_disk

-- The newest of three good signatures is the second one.
cms_accepted :
    Verify.class_pubkey_verify toy_ssl store_cell (codes "ab") (5 ∷ 9 ∷ 2 ∷ []) 0 empty_disk
    ≡ (ok newest_signed, empty_disk)
unfolding Verify.class_pubkey_verify
cms_accepted = refl

-- The flag 32 is JCAT_VERIFY_FLAG_ONLY_PQ.
class_pubkey_verify-flags_example :
    Verify.class_pubkey_verify toy_ssl store_cell (codes "ab") (5 ∷ 9 ∷ 2 ∷ []) 32
    ≡ Verify.class_pubkey_verify toy_ssl store_cell (codes "ab") (5 ∷ 9 ∷ 2 ∷ []) 0
class_pubkey_verify-flags_example =
    class_pubkey_verify-flags toy_ssl store_cell (codes "ab") (5 ∷ 9 ∷ 2 ∷ []) 32 0 refl

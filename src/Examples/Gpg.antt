-- ===== src/Examples/Gpg.antt =====
-- The engine for GPG over a toy library: a signature is a list of times, and of keys that are one byte.
use libjcat.Engine.Cell.{Cell}
use libjcat.Engine.Gpg.Interface.{Gpgme, Signature, Status}
use libjcat.Engine.Gpg.Signatures.{
  AllGood, IsNewest, newest_of, newest_of-IsNewest, class_pubkey_verify_iff,
}
use libjcat.Engine.Gpg.Verify.{none_yet, result_of, run_verify, class_pubkey_verify}
use libjcat.Examples.Disk.{empty_disk}
use libjcat.Prelude.{Option, some, List, [], ◌∷◌, Bytes, codes, ok, ◌≡◌, refl, ◌↔◌}
use libjcat.Result.{JcatResult}
use libjcat.System.Memory.{Disk, memory}
use libjcat.System.{pure}

abbrev good : Bytes → Signature
good fpr = record { status = Status.no_error; fpr = fpr; timestamp = 1000 }

abbrev later : Signature
later = record { status = Status.no_error; fpr = codes "B7"; timestamp = 2000 }

abbrev signatures : List Signature
signatures = good (codes "A1") ∷ later ∷ good (codes "C3") ∷ []

newest_of-IsNewest_example : IsNewest signatures (newest_of signatures none_yet)
newest_of-IsNewest_example = newest_of-IsNewest signatures

abbrev toy_gpgme : Gpgme Disk
toy_gpgme = record {
  Ctx = Bytes;
  Data = Bytes;
  err_init = pure tt;
  ctx_new = pure [];
  set_protocol = λ c. pure tt;
  set_engine_info = λ c home. pure tt;
  set_armor = λ c w. w;
  data_new_from_file = memory.get_contents;
  data_new_from_mem = λ bytes. pure bytes;
  op_import = λ c key. pure tt;
  op_import_result = λ c w. record { imported = 1; unchanged = 0 };
  op_verify = λ c sig bytes. pure tt;
  op_verify_result = λ c w. some signatures;
}

abbrev ctx_cell : Cell Disk (Option Bytes)
ctx_cell = record { get = λ w. some w.kept; set = λ c w. w }

abbrev result : JcatResult
result = result_of (record { timestamp = 2000; authority = codes "B7" })

class_pubkey_verify_iff_example :
    (class_pubkey_verify toy_gpgme memory ctx_cell [] (codes "ab") (codes "sig") 0 empty_disk
      ≡ (ok result, empty_disk))
    ↔ ((run_verify toy_gpgme memory ctx_cell [] (codes "ab") (codes "sig") empty_disk
          ≡ (ok tt, empty_disk))
        × ((s : Signature) × (ss : List Signature) × (◌≡◌ {A = Option (List Signature)}
              (some signatures)
              (some (s ∷ ss)))
            × AllGood (s ∷ ss)
            × (result ≡ result_of (newest_of (s ∷ ss) none_yet))))
class_pubkey_verify_iff_example =
    class_pubkey_verify_iff toy_gpgme memory ctx_cell [] (codes "ab") (codes "sig") 0 empty_disk
      empty_disk result

-- The newest of three good signatures is the second one.
newest_accepted :
    class_pubkey_verify toy_gpgme memory ctx_cell [] (codes "ab") (codes "sig") 0 empty_disk
    ≡ (ok result, empty_disk)
unfolding class_pubkey_verify
newest_accepted = refl

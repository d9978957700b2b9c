-- ===== src/Examples/Commands.antt =====
-- The command line tool on a disk in memory, with an engine for a toy checksum.
use libjcat.Blob.{JcatBlob}
use libjcat.Context.{JcatContext}
use libjcat.Engine.Checksum
use libjcat.Engine.Checksum.{GChecksumType, type_sha256}
use libjcat.Engine.{JcatEngine}
use libjcat.Examples.Disk.{empty_disk, path}
use libjcat.Examples.Storage.{clock}
use libjcat.File.Streams.{export_file}
use libjcat.File.{JcatFile}
use libjcat.Item.{JcatItem}
use libjcat.Json.Tree.{trees, plain}
use libjcat.Kind.{JcatBlobKind, sha256, gpg, unknown, to_filename_ext}
use libjcat.Prelude.{
  ℕ, ◌+◌, Bool, true, false, Bool-cases, ◌||◌, none, some, [], ◌∷◌, ◌++◌, Bytes, codes, beq,
  beq_iff, pos, length, max_u32, ok, ◌≡◌, refl, sym, ap, ◌∙◌, ◌↔◌, inl, inr, arith,
}
use libjcat.System.Memory.{Disk, memory}
use libjcat.Tool.Accepts.{ItemPasses, verify_item-ItemPasses_iff}
use libjcat.Tool.AllItems.{AllItemsPass, verify-AllItemsPass_iff}
use libjcat.Tool.Detect.{IsSuffixTest, detect, exported_format, detect-to_filename_ext}
use libjcat.Tool.Verify.{verify_item, verify}
use libjcat.Tool.{Tool, load_file}

-- A test for a suffix: the text is the suffix, or what follows its first byte ends in it.
ends_in : Bytes → Bytes → Bool
ends_in [] suffix = beq [] suffix
ends_in (c ∷ cs) suffix = beq (c ∷ cs) suffix || ends_in cs suffix

ends_in-front :
    (str suffix : Bytes) → ends_in str suffix ≡ true → (front : Bytes) × (front ++ suffix ≡ str)
unfolding ends_in
ends_in-front [] suffix h = ([], sym ((beq_iff [] suffix).0 h))
ends_in-front (c ∷ cs) suffix h = elim (Bool-cases (beq (c ∷ cs) suffix)) [
  | inl whole ↦ ([], sym ((beq_iff (c ∷ cs) suffix).0 whole))
  | inr longer ↦
      let (front, same) = ends_in-front cs suffix (rw longer at h) in
      (c ∷ front, ap (λ t. c ∷ t) same)
]

ends_in_self : (suffix : Bytes) → ends_in suffix suffix ≡ true
unfolding ends_in
ends_in_self [] = refl
ends_in_self (c ∷ cs) = rw ((beq_iff (c ∷ cs) (c ∷ cs)).1 refl)

ends_in-append : (front suffix : Bytes) → ends_in (front ++ suffix) suffix ≡ true
unfolding ends_in
ends_in-append [] suffix = ends_in_self suffix
ends_in-append (c ∷ front) suffix = ground (arith, ends_in-append front suffix)

ends_in-IsSuffixTest : IsSuffixTest ends_in
ends_in-IsSuffixTest str suffix = (
  ends_in-front str suffix,
  λ (front, same). ap (λ t. ends_in t suffix) (sym same) ∙ ends_in-append front suffix,
)

asc : to_filename_ext gpg ≡ some (codes "asc")
unfolding to_filename_ext
asc = refl

detect-to_filename_ext_example :
    detect (ends_in (codes "firmware.bin" ++ (codes "." ++ codes "asc"))) ≡ exported_format gpg
detect-to_filename_ext_example =
    detect-to_filename_ext ends_in gpg (codes "firmware.bin") (codes "asc") ends_in-IsSuffixTest asc

-- A toy checksum: the length.
abbrev length_digest : GChecksumType → Bytes → Bytes
length_digest type bytes = (48 + length bytes) ∷ []

abbrev time_of : Disk → ℕ
time_of w = 5

abbrev engine : JcatEngine Disk
engine = Checksum.new length_digest time_of type_sha256

abbrev context : JcatContext Disk
context = record {
  engines = engine ∷ [];
  public_keys = [];
  keyring_path = none;
  blob_kinds = max_u32;
}

abbrev sum : JcatBlob
sum = record {
  kind = sha256;
  target = unknown;
  flags = 1;
  data_bytes = some (codes "3");
  appstream_id = none;
  timestamp = pos 1000000;
}

abbrev item : JcatItem
item = record { id = some (codes "f.bin"); blobs = sum ∷ []; alias_ids = [] }

abbrev file : JcatFile
file = record { items = item ∷ []; version_major = 0; version_minor = 1 }

-- The disk with the file and the data of its item.
abbrev disk : Disk
unfolding export_file
disk = record empty_disk {
  files =
      record { name = codes "./f.bin"; contents = codes "abc" }
      ∷ (export_file memory trees plain file path 0 empty_disk).1.files;
}

abbrev tool : Tool Disk
tool = record {
  priv = record {
    context = context;
    basename = false;
    disable_time_checks = false;
    only_pq = false;
    prefix = codes ".";
    appstream_id = none;
    kind = unknown;
    target = unknown;
  };
  world = disk;
}

abbrev wide : ℕ → JcatBlobKind → Bool
wide mask kind = false

-- The state that a verification leaves: the engine is set up, and a line for the item and one for the
-- checksum are printed.
abbrev verified : Tool Disk
verified = record tool {
  priv = record tool.priv {
    context = record context { engines = record engine { done_setup = true } ∷ [] };
  };
  world = record disk { output = codes "f.bin:\n" ++ codes "    PASSED sha256: OK\n" };
}

verify_item-ItemPasses_iff_example :
    (verify_item memory wide item tool ≡ (ok tt, verified))
    ↔ ItemPasses memory wide item tool verified
verify_item-ItemPasses_iff_example = verify_item-ItemPasses_iff memory wide item tool verified

verify-AllItemsPass_iff_example :
    (verify memory wide trees plain clock (path ∷ []) tool ≡ (ok tt, verified)) ↔ (
      (read : JcatFile) × (v : Tool Disk) × (load_file memory trees plain clock path tool
        ≡ (ok read, v))
      × AllItemsPass memory wide read.items v verified)
verify-AllItemsPass_iff_example =
    verify-AllItemsPass_iff memory wide trees plain clock path tool verified

item_passes : verify_item memory wide item tool ≡ (ok tt, verified)
unfolding verify_item Checksum.new disk libjcat.Engine.self_verify libjcat.Context.store_engine
    libjcat.Result.of_engine
item_passes = refl

-- ===== src/Examples/Storage.antt =====
-- A file with a checksum and a signature for one firmware image, stored and read back.
use libjcat.Blob.Import.{missing}
use libjcat.Blob.Stored.{IsStorable}
use libjcat.Blob.{get_data_as_string, JcatBlob}
use libjcat.File.Export.{export_json}
use libjcat.File.Import.{import_json}
use libjcat.File.RoundTrip.{
  IsStorableFile, restored_items, import_json-export_json, import_json-no_items,
}
use libjcat.File.Valid.{AddsValidItems, import_json-AddsValidItems}
use libjcat.File.Lookup.{only, exact_matches, alias_matches, get_item_by_id-only}
use libjcat.File.{JcatFile, get_item_by_id, lookup_error}
use libjcat.Item.Aliases.{IsAliasSet, add_alias_id_lem, remove_alias_id_lem}
use libjcat.Item.Stored.{IsStorableItem}
use libjcat.Item.{JcatItem, add_alias_id, remove_alias_id, has_alias_id}
use libjcat.Json.Tree.{trees, trees_laws, plain, plain_laws}
use libjcat.Kind.{sha256, gpg, unknown}
use libjcat.Prelude.{
  ℕ, ◌*◌, none, some, [], ◌∷◌, Bytes, codes, pos, ok, err, ◌≡◌, refl, arith, not, ◌&&◌, ◌||◌, beq,
}

abbrev checksum_blob : JcatBlob
checksum_blob = record {
  kind = sha256;
  target = unknown;
  flags = 1;
  data_bytes = some (codes "a196");
  appstream_id = none;
  timestamp = pos 1600000000;
}

abbrev signature_blob : JcatBlob
signature_blob = record {
  kind = gpg;
  target = sha256;
  flags = 0;
  data_bytes = some (7 ∷ 0 ∷ 9 ∷ []);
  appstream_id = some (codes "org.example");
  timestamp = pos 0;
}

abbrev pub firmware : JcatItem
firmware = record {
  id = some (codes "firmware.bin");
  blobs = checksum_blob ∷ signature_blob ∷ [];
  alias_ids = codes "fw" ∷ [];
}

abbrev pub one_item : JcatFile
one_item = record { items = firmware ∷ []; version_major = 0; version_minor = 1 }

abbrev pub no_file : JcatFile
no_file = record { items = []; version_major = 0; version_minor = 1 }

abbrev pub clock : ℕ → ℕ
clock i = 1000000 * i

checksum_blob-IsStorable : IsStorable (trees_laws.IsUtf8) plain checksum_blob (codes "a196")
unfolding get_data_as_string
checksum_blob-IsStorable = record {
  kind_fits = omega arith;
  target_fits = omega arith;
  flags_fit = omega arith;
  has_data = refl;
  is_text = λ _. (omega arith, (omega arith, (omega arith, (omega arith, tt))));
  data_string = tt;
  appstream_string = tt;
}

signature_blob-IsStorable : IsStorable (trees_laws.IsUtf8) plain signature_blob (7 ∷ 0 ∷ 9 ∷ [])
unfolding get_data_as_string
signature_blob-IsStorable = record {
  kind_fits = omega arith;
  target_fits = omega arith;
  flags_fit = omega arith;
  has_data = refl;
  is_text = λ utf8. absurd (cc utf8);
  data_string = tt;
  appstream_string = tt;
}

one_alias : IsAliasSet (codes "fw" ∷ [])
one_alias id = ground arith

firmware-IsStorableItem : IsStorableItem (trees_laws.IsUtf8) plain firmware
firmware-IsStorableItem = record {
  first = 102;
  more = codes "irmware.bin";
  has_id = refl;
  id_string = tt;
  has_blobs = λ e. absurd (cc e);
  blobs_storable =
      ((codes "a196", checksum_blob-IsStorable), ((7 ∷ 0 ∷ 9 ∷ [], signature_blob-IsStorable), tt));
  alias_set = one_alias;
  alias_strings = (tt, tt);
}

pub one_item-IsStorableFile : IsStorableFile (trees_laws.IsUtf8) plain one_item
one_item-IsStorableFile = record {
  has_items = λ e. absurd (cc e);
  items_storable = (firmware-IsStorableItem, tt);
  major_fits = omega arith;
  minor_fits = omega arith;
}

import_json-export_json_example :
    import_json trees plain clock (export_json trees plain one_item 0) no_file
    ≡ (ok tt, record one_item { items = restored_items clock 0 0 one_item.items })
import_json-export_json_example =
    import_json-export_json trees plain trees_laws plain_laws clock one_item no_file 0
      one_item-IsStorableFile

import_json-no_items_example :
    import_json trees plain clock (export_json trees plain no_file 0) one_item
    ≡ (err (missing (codes "Items")), one_item)
import_json-no_items_example =
    import_json-no_items trees plain trees_laws plain_laws clock no_file one_item 0 refl

import_json-AddsValidItems_example :
    AddsValidItems one_item
      (import_json trees plain clock (export_json trees plain one_item 0) one_item).1
import_json-AddsValidItems_example =
    import_json-AddsValidItems trees plain clock (export_json trees plain one_item 0) one_item

get_item_by_id-only_example :
    get_item_by_id one_item (codes "fw")
    ≡ only
        (lookup_error (codes "multiple matches for %s") (codes "fw"))
        (only
          (lookup_error (codes "multiple aliases for %s") (codes "fw"))
          (err (lookup_error (codes "failed to find %s") (codes "fw")))
          (alias_matches (codes "fw") one_item.items))
        (exact_matches (codes "fw") one_item.items)
get_item_by_id-only_example = get_item_by_id-only one_item (codes "fw")

add_alias_id_lem_example :
    IsAliasSet (add_alias_id firmware (codes "bios")).alias_ids
    × ((j : Bytes)
        → has_alias_id (add_alias_id firmware (codes "bios")).alias_ids j
          ≡ (beq j (codes "bios") || has_alias_id firmware.alias_ids j))
add_alias_id_lem_example = add_alias_id_lem firmware (codes "bios") one_alias

remove_alias_id_lem_example :
    IsAliasSet (remove_alias_id firmware (codes "fw")).alias_ids
    × ((j : Bytes)
        → has_alias_id (remove_alias_id firmware (codes "fw")).alias_ids j
          ≡ (not (beq j (codes "fw")) && has_alias_id firmware.alias_ids j))
remove_alias_id_lem_example = remove_alias_id_lem firmware (codes "fw") one_alias

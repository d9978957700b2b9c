-- ===== src/Item.antt =====
-- libjcat/jcat-item.c: the object JcatItem and its operations, without import and export. The
-- arrays are lists: g_ptr_array_add adds at the end. Arguments that must not be NULL are no NULL.
pub mod Import
pub mod Export
pub mod Aliases
pub mod Stored
pub mod RoundTrip
pub mod Valid
use libjcat.Blob.{JcatBlob}
use libjcat.Kind.{JcatBlobKind, unknown, to_string}
use libjcat.Prelude.{
  Bool, true, false, not, Option, none, some, List, [], ◌∷◌, ◌++◌, Bytes, codes, beq, ◌==◌, Error,
  critical, invalid_data, Result, ok, err, if◌then◌else◌,
}

-- JcatItemPrivate.
pub record JcatItem : Type 0 where
  pub id : Option Bytes
  pub blobs : List JcatBlob
  pub alias_ids : List Bytes

-- g_object_new and `jcat_item_init`.
abbrev pub init : JcatItem
init = record { id = none; blobs = []; alias_ids = [] }

-- `jcat_item_new`.
unfoldable pub new : Bytes → JcatItem
new id = record init { id = some id }

unfoldable pub add_blob : JcatItem → JcatBlob → JcatItem
add_blob self blob = record self { blobs = self.blobs ++ blob ∷ [] }

-- The loop of `jcat_item_add_alias_id`: whether it returns early.
unfoldable pub has_alias_id : List Bytes → Bytes → Bool
has_alias_id [] id = false
has_alias_id (id_tmp ∷ ids) id =
    let rest = has_alias_id ids id in if beq id id_tmp then true else rest

unfoldable pub add_alias_id : JcatItem → Bytes → JcatItem
unfolding has_alias_id
add_alias_id self id =
    if has_alias_id self.alias_ids id
    then self
    else record self { alias_ids = self.alias_ids ++ id ∷ [] }

-- The loop of `jcat_item_remove_alias_id`: the first entry that is equal goes.
unfoldable pub remove_first : List Bytes → Bytes → List Bytes
remove_first [] id = []
remove_first (id_tmp ∷ ids) id = if beq id id_tmp then ids else id_tmp ∷ remove_first ids id

unfoldable pub remove_alias_id : JcatItem → Bytes → JcatItem
unfolding remove_first
remove_alias_id self id = record self { alias_ids = remove_first self.alias_ids id }

-- The loop of `jcat_item_get_blobs_by_kind`.
unfoldable pub blobs_of_kind : List JcatBlob → JcatBlobKind → List JcatBlob
blobs_of_kind [] kind = []
blobs_of_kind (blob ∷ blobs) kind =
    if blob.kind == kind then blob ∷ blobs_of_kind blobs kind else blobs_of_kind blobs kind

-- `jcat_item_get_blobs_by_kind`; `none` is the NULL of a failed precondition.
unfoldable pub get_blobs_by_kind : JcatItem → JcatBlobKind → Option (List JcatBlob)
unfolding blobs_of_kind
get_blobs_by_kind self kind =
    if not (kind == unknown) then some (blobs_of_kind self.blobs kind) else none

-- What printf makes of a C string that may be NULL.
abbrev pub printed : Option Bytes → Bytes
printed none = codes "(null)"
printed (some text) = text

-- The name of a kind as a value of a message.
abbrev pub kind_values : JcatBlobKind → List Bytes
kind_values kind = printed (to_string kind) ∷ []

abbrev pub no_checksum : JcatBlobKind → Error
no_checksum kind = record {
  code = invalid_data;
  message = codes "no existing checksum of type %s";
  values = kind_values kind;
}

abbrev pub multiple_checksums : JcatBlobKind → Error
multiple_checksums kind = record {
  code = invalid_data;
  message = codes "multiple checksums of type %s";
  values = kind_values kind;
}

-- The tests on the length of the array of blobs.
abbrev pub the_blob : JcatBlobKind → List JcatBlob → Result JcatBlob
the_blob kind [] = err (no_checksum kind)
the_blob kind (blob ∷ []) = ok blob
the_blob kind (_ ∷ _ ∷ _) = err (multiple_checksums kind)

-- `jcat_item_get_blob_by_kind`.
unfoldable pub get_blob_by_kind : JcatItem → JcatBlobKind → Result JcatBlob
unfolding get_blobs_by_kind
get_blob_by_kind self kind = elim (get_blobs_by_kind self kind) [
  | none ↦ err (record { code = critical; message = []; values = [] })
  | some target_blobs ↦ the_blob kind target_blobs
]

-- The loop of `jcat_item_has_target`.
any_target : List JcatBlob → Bool
any_target [] = false
any_target (blob_tmp ∷ blobs) =
    let rest = any_target blobs in if not (blob_tmp.target == unknown) then true else rest

unfoldable pub has_target : JcatItem → Bool
unfolding any_target
has_target self = any_target self.blobs

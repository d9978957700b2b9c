-- ===== src/File.antt =====
-- libjcat/jcat-file.c: the object JcatFile, its items and their lookup. The arguments that must
-- not be NULL are no NULL. An item is a value here; its place in the array is its identity.
pub mod Import
pub mod Export
pub mod Lookup
pub mod Store
pub mod Streams
pub mod Disk
pub mod Stored
pub mod RoundTrip
pub mod Valid
use libjcat.Item.{JcatItem}
use libjcat.Prelude.{
  ℕ, Bool, ◌&&◌, Option, none, some, List, [], ◌∷◌, ◌++◌, Bytes, codes, beq, strcmp0_eq, Error,
  not_found, failed, Result, ok, err, ◌>>=◌, is_some, if◌then◌else◌,
}

-- JcatFilePrivate.
pub record JcatFile : Type 0 where
  pub items : List JcatItem
  pub version_major : ℕ
  pub version_minor : ℕ

-- `jcat_file_new`.
abbrev pub new : JcatFile
new = record { items = []; version_major = 0; version_minor = 1 }

unfoldable pub add_item : JcatFile → JcatItem → JcatFile
add_item self item = record self { items = self.items ++ item ∷ [] }

-- G_IO_ERROR_NOT_FOUND with a message that names the ID.
abbrev pub lookup_error : Bytes → Bytes → Error
lookup_error message id = record { code = not_found; message = message; values = id ∷ [] }

-- One match more: an error if there was one before.
abbrev matched : Error → Bool → JcatItem → Option JcatItem → Result (Option JcatItem)
matched e hit item item_found =
    if hit then (if is_some item_found then err e else ok (some item)) else ok item_found

-- The loop behind "exact ID match".
unfoldable pub find_exact : Bytes → List JcatItem → Option JcatItem → Result (Option JcatItem)
find_exact id [] item_found = ok item_found
find_exact id (item ∷ items) item_found = do
  found ←
      matched (lookup_error (codes "multiple matches for %s") id) (strcmp0_eq item.id (some id))
        item item_found
  find_exact id items found

-- The inner loop behind "try aliases this time".
unfoldable pub find_alias_of :
    Bytes → JcatItem → List Bytes → Option JcatItem → Result (Option JcatItem)
find_alias_of id item [] item_found = ok item_found
find_alias_of id item (id_tmp ∷ ids) item_found = do
  found ←
      matched (lookup_error (codes "multiple aliases for %s") id) (beq id_tmp id) item item_found
  find_alias_of id item ids found

unfoldable pub find_alias : Bytes → List JcatItem → Option JcatItem → Result (Option JcatItem)
unfolding find_alias_of
find_alias id [] item_found = ok item_found
find_alias id (item ∷ items) item_found = do
  found ← find_alias_of id item item.alias_ids item_found
  find_alias id items found

-- Return what was found, or go on.
abbrev pub found_or : Option JcatItem → Result JcatItem → Result JcatItem
found_or none other = other
found_or (some item) other = ok item

-- `jcat_file_get_item_by_id`.
unfoldable pub get_item_by_id : JcatFile → Bytes → Result JcatItem
unfolding find_exact find_alias
get_item_by_id self id = do
  exact ← find_exact id self.items none
  let by_alias = find_alias id self.items none >>= λ alias.
      found_or alias (err (lookup_error (codes "failed to find %s") id))
  found_or exact by_alias

-- The tests of `jcat_file_get_item_default` on the array.
abbrev pub the_item : List JcatItem → Result JcatItem
the_item [] = err (record { code = not_found; message = codes "no items found"; values = [] })
the_item (item ∷ []) = ok item
the_item (_ ∷ _ ∷ _) = err (record {
  code = failed;
  message = codes "multiple items found, no default possible";
  values = [];
})

-- `jcat_file_get_item_default`.
unfoldable pub get_item_default : JcatFile → Result JcatItem
get_item_default self = the_item self.items

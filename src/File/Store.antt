-- ===== src/File/Store.antt =====
-- libjcat/jcat-file.c gives its items as references: what is done to the item that
-- `jcat_file_get_item_by_id` finds, is done in the file.
use libjcat.File.{JcatFile}
use libjcat.Item.{JcatItem, has_alias_id}
use libjcat.Prelude.{Bool, true, false, some, List, [], ◌∷◌, Bytes, strcmp0_eq, if◌then◌else◌}

-- Whether some item has the ID.
unfoldable pub any_exact : Bytes → List JcatItem → Bool
any_exact id [] = false
any_exact id (item ∷ items) =
    let rest = any_exact id items in if strcmp0_eq item.id (some id) then true else rest

unfoldable pub store_exact : Bytes → JcatItem → List JcatItem → List JcatItem
store_exact id new [] = []
store_exact id new (item ∷ items) =
    let rest = store_exact id new items in
    if strcmp0_eq item.id (some id) then new ∷ items else item ∷ rest

unfoldable pub store_alias : Bytes → JcatItem → List JcatItem → List JcatItem
store_alias id new [] = []
store_alias id new (item ∷ items) =
    let rest = store_alias id new items in
    if has_alias_id item.alias_ids id then new ∷ items else item ∷ rest

-- The file with an item in the place of the one that is found.
unfoldable pub store_item : JcatFile → Bytes → JcatItem → JcatFile
unfolding any_exact store_exact store_alias
store_item self id new = record self {
  items =
      if any_exact id self.items
      then store_exact id new self.items
      else store_alias id new self.items;
}

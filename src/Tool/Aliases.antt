-- ===== src/Tool/Aliases.antt =====
-- libjcat/jcat-tool.c: `jcat_tool_info`, `jcat_tool_add_alias` and `jcat_tool_remove_alias`.
use libjcat.Engine.{Action}
use libjcat.File.Store.{store_item}
use libjcat.File.{get_item_by_id}
use libjcat.Item.{JcatItem, add_alias_id, remove_alias_id}
use libjcat.Prelude.{ℕ, List, [], ◌∷◌, Bytes, codes}
use libjcat.Json.{JsonGlib, Base64}
use libjcat.System.{Gio, fail, lift, ◌>>=◌}
use libjcat.Text.Printer.{file_to_string}
use libjcat.Text.{Glib}
use libjcat.Tool.{Tool, failure, print, load_file, save_file}

module _ {World : Type 0} (gio : Gio World) (json : JsonGlib) (base64 : Base64) (clock : ℕ → ℕ)
    (glib : Glib) where
  -- `jcat_tool_info`.
  unfoldable pub info : List Bytes → Action (Tool World) (Unit {0})
  unfolding load_file
  info (filename ∷ []) = do
    file ← load_file gio json base64 clock filename
    print gio (file_to_string glib base64 file)
  info _ = fail (failure (codes "Invalid arguments, expected FILENAME"))

  -- What the two commands on aliases share: the change of the item is a change of the file.
  unfoldable pub change_item :
      Bytes → Bytes → (JcatItem → JcatItem) → Action (Tool World) (Unit {0})
  unfolding load_file get_item_by_id store_item save_file
  change_item filename id change = do
    file ← load_file gio json base64 clock filename
    item ← lift (get_item_by_id file id)
    save_file gio json base64 (store_item file id (change item)) filename

  abbrev alias_arguments : Bytes
  alias_arguments = codes "Invalid arguments, expected FILENAME ID ALIAS_ID"

  -- `jcat_tool_add_alias`.
  unfoldable pub add_alias : List Bytes → Action (Tool World) (Unit {0})
  unfolding change_item add_alias_id
  add_alias (filename ∷ id ∷ alias_id ∷ []) =
      change_item filename id (λ item. add_alias_id item alias_id)
  add_alias _ = fail (failure alias_arguments)

  -- `jcat_tool_remove_alias`.
  unfoldable pub remove_alias : List Bytes → Action (Tool World) (Unit {0})
  unfolding change_item remove_alias_id
  remove_alias (filename ∷ id ∷ alias_id ∷ []) =
      change_item filename id (λ item. remove_alias_id item alias_id)
  remove_alias _ = fail (failure alias_arguments)

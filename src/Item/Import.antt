-- ===== src/Item/Import.antt =====
-- libjcat/jcat-item.c: `jcat_item_import`. Each new blob reads the clock once: `clock n` is the
-- n-th reading, and `i` counts the readings.
use libjcat.Blob.Import.{invalid, require, import_blob}
use libjcat.Item.{JcatItem, init, add_blob, add_alias_id}
use libjcat.Json.{JsonGlib, Base64}
use libjcat.Prelude.{
  ℕ, suc, not, Option, none, some, List, [], ◌∷◌, Bytes, codes, Result, ok, err, ◌>>=◌, ◌>>◌,
  fail_if, if◌then◌else◌,
}

-- A string that is there and not empty.
abbrev pub nonempty : Option Bytes → Result Bytes
nonempty none = err (invalid (codes "no ID set"))
nonempty (some []) = err (invalid (codes "no ID set"))
nonempty (some (c ∷ cs)) = ok (c ∷ cs)

module _ (json : JsonGlib) where
  open json use {
    Node, Object, Array, get_string_member, get_array_member, get_elements, has_member,
    holds_object, holds_value, node_get_object, node_get_string,
  }

  -- The array of a member, or the error.
  abbrev pub array_of : Object → Bytes → Bytes → Result Array
  array_of obj name message = elim (get_array_member obj name) [
    | none ↦ err (invalid message)
    | some a ↦ ok a
  ]

  abbrev pub alias_of : Option Bytes → Result Bytes
  alias_of none = err (invalid (codes "AliasIds invalid"))
  alias_of (some alias_id) = ok alias_id

  unfoldable pub import_alias_ids : List Node → JcatItem → Result JcatItem
  import_alias_ids [] self = ok self
  import_alias_ids (node ∷ nodes) self = do
    fail_if (not (holds_value node)) (invalid (codes "failed to read AliasIds value"))
    alias_id ← alias_of (node_get_string node)
    import_alias_ids nodes (add_alias_id self alias_id)

  unfoldable pub import_aliases : Object → JcatItem → Result JcatItem
  unfolding import_alias_ids
  import_aliases obj self =
      if has_member obj (codes "AliasIds")
      then (do
        array ← array_of obj (codes "AliasIds") (codes "failed to read AliasIds array")
        import_alias_ids (get_elements array) self)
      else ok self

  module _ (base64 : Base64) (clock : ℕ → ℕ) where
    unfoldable pub import_blobs : ℕ → List Node → JcatItem → Result JcatItem
    import_blobs i [] self = ok self
    import_blobs i (node ∷ nodes) self = do
      fail_if (not (holds_object node)) (invalid (codes "failed to read object"))
      blob ← import_blob json base64 (clock i) (node_get_object node)
      import_blobs (suc i) nodes (add_blob self blob)

    unfoldable pub import_item : ℕ → Object → Result JcatItem
    unfolding import_blobs import_aliases
    import_item i obj = do
      require json obj (codes "Id" ∷ codes "Blobs" ∷ [])
      id ← nonempty (get_string_member obj (codes "Id"))
      array_blobs ← array_of obj (codes "Blobs") (codes "failed to read Blobs array")
      self ← import_blobs i (get_elements array_blobs) (record init { id = some id })
      import_aliases obj self

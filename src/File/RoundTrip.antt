-- ===== src/File/RoundTrip.antt =====
-- What libjcat/jcat-file.c exports, it imports again, and what it cannot import again.
use mathlib.Core.List.{append-nil, append_assoc}
use libjcat.Blob.Import.{missing}
use libjcat.File.Export.{export_builder, export_json}
use libjcat.File.Import.{import_items, import_parser, import_json}
use libjcat.File.Stored.{
  item_values, file_members, AreStorableItems, file_members-Strings, export_builder-emit,
  file_members-find,
}
use libjcat.File.{Bool, JcatFile, add_item}
use libjcat.Item.Import.{array_of}
use libjcat.Item.RoundTrip.{restored_blobs, import_item-stored}
use libjcat.Item.{JcatItem}
use libjcat.Json.Laws.{object, JsonLaws, Base64Laws, RepresentsEach}
use libjcat.Json.{JsonGlib, Base64}
use libjcat.Prelude.{
  to_u32-pos, to_u32, true, ℕ, ◌+◌, ◌<◌, List, [], ◌∷◌, ◌++◌, Bytes, codes, ok, err, u32_mod, ◌≡◌,
  ◌≢◌, ◌∙◌, arith, length,
}

-- The item that is read back, and the items, each behind the clock readings of those before it.
abbrev pub restored_item : (ℕ → ℕ) → ℕ → ℕ → JcatItem → JcatItem
restored_item clock flags i item = record item { blobs = restored_blobs clock flags i item.blobs }

abbrev pub restored_items : (ℕ → ℕ) → ℕ → ℕ → List JcatItem → List JcatItem
restored_items clock flags i [] = []
restored_items clock flags i (item ∷ items) =
    restored_item clock flags i item
    ∷ restored_items clock flags (i + length (restored_blobs clock flags i item.blobs)) items

-- What a file satisfies that can be exported and imported.
pub record IsStorableFile (P : Bytes → Type 0) (base64 : Base64) (self : JcatFile) : Type 0 where
  pub has_items : self.items ≢ []
  pub items_storable : AreStorableItems P base64 self.items
  pub major_fits : self.version_major < u32_mod
  pub minor_fits : self.version_minor < u32_mod

module _ (json : JsonGlib) (base64 : Base64) (laws : JsonLaws json)
    (coding : Base64Laws base64) where
  open json use {Node, node_get_object}
  open laws use {Represents, IsUtf8, member_present, int_member, array_member, object_node}

  import_items-stored :
      (clock : ℕ → ℕ) (i flags : ℕ) (nodes : List Node) (items : List JcatItem) (self : JcatFile)
      → RepresentsEach Represents nodes (item_values base64 items flags)
      → AreStorableItems IsUtf8 base64 items
      → import_items json base64 clock i nodes self
        ≡ (ok tt, record self { items = self.items ++ restored_items clock flags i items })
  unfolding import_items add_item
  import_items-stored clock i flags [] [] self r h = rw append-nil
  import_items-stored clock i flags [] (x ∷ xs) self r h = elim r [ ]
  import_items-stored clock i flags (n ∷ ns) [] self r h = elim r [ ]
  import_items-stored clock i flags (n ∷ ns) (item ∷ items) self (r, rs) (s, h) =
      let first = import_item-stored json base64 laws coding n item flags r s clock i in
      rw (object_node n _ r) (
        rw first (
          import_items-stored clock (i + length (restored_blobs clock flags i item.blobs)) flags ns
            items (record self { items = self.items ++ restored_item clock flags i item ∷ [] }) rs h
          ∙ rw append_assoc))

  -- A document that is exported loads, as the object of the file.
  pub loaded_back :
      (pretty : Bool) (file : JcatFile) (flags : ℕ)
      → AreStorableItems IsUtf8 base64 file.items
      → let root = json.get_root (export_builder json base64 file flags json.builder_new) in
        (n : Node) × (json.load_from_data (json.to_data pretty root) ≡ ok n)
        × Represents n (object (file_members base64 file flags))
  loaded_back pretty file flags h =
      let v = object (file_members base64 file flags) in
      let built = laws.built v (file_members-Strings IsUtf8 base64 file flags h) in
      laws.loaded pretty _ v
        (rw (← export_builder-emit json base64 IsUtf8 file flags json.builder_new h) at built)

  exported :
      (file : JcatFile) (flags : ℕ)
      → AreStorableItems IsUtf8 base64 file.items
      → (n : Node) × (json.load_from_data (export_json json base64 file flags) ≡ ok n)
        × Represents n (object (file_members base64 file flags))
  unfolding export_json
  exported = loaded_back true

  module _ (n : Node) (file : JcatFile) (flags : ℕ)
      (r : Represents n (object (file_members base64 file flags))) where
    pub import_parser-stored :
        (clock : ℕ → ℕ) (self : JcatFile)
        → IsStorableFile IsUtf8 base64 file
        → import_parser json base64 clock n self
          ≡ (ok tt, record file { items = self.items ++ restored_items clock flags 0 file.items })
    unfolding import_parser
    import_parser-stored clock self s =
        let (major, minor, items, _) = file_members-find base64 file flags in
        let (a, found, each) = array_member n _ (codes "Items") _ r (items s.has_items) in
        let obj = node_get_object n in
        let versioned = record self {
          version_major = to_u32 (json.get_int_member obj (codes "JcatVersionMajor"));
          version_minor = to_u32 (json.get_int_member obj (codes "JcatVersionMinor"));
        } in
        rw (member_present n _ (codes "JcatVersionMajor") r) (
          rw major (
            rw (member_present n _ (codes "JcatVersionMinor") r) (
              rw minor (
                rw (member_present n _ (codes "Items") r) (
                  rw (items s.has_items) (
                    rw (found, array_of)
                      (import_items-stored clock 0 flags _ file.items versioned each
                          s.items_storable
                        ∙ ground (
                          arith,
                          int_member n _ (codes "JcatVersionMajor") _ r major,
                          int_member n _ (codes "JcatVersionMinor") _ r minor,
                          to_u32-pos file.version_major s.major_fits,
                          to_u32-pos file.version_minor s.minor_fits,
                        ))))))))

  -- With the laws of json-glib and of base64: if a file has items, all of which have an ID,
  -- blobs, an array of aliases without repetitions, strings that JSON can hold and numbers that
  -- fit their types, then importing what is exported succeeds, takes over the version, and adds
  -- the same items at the end, except that a blob whose timestamp was not written gets the time
  -- of the import.
  pub import_json-export_json :
      (clock : ℕ → ℕ) (file self : JcatFile) (flags : ℕ)
      → IsStorableFile IsUtf8 base64 file
      → import_json json base64 clock (export_json json base64 file flags) self
        ≡ (ok tt, record file { items = self.items ++ restored_items clock flags 0 file.items })
  unfolding import_json export_json
  import_json-export_json clock file self flags s =
      let (n, load_ok, r) = exported file flags s.items_storable in
      rw load_ok (import_parser-stored n file flags r clock self s)

  -- With the laws of json-glib and of base64: importing what a file with no items is exported as
  -- fails, since the member Items is missing, and changes nothing.
  pub import_json-no_items :
      (clock : ℕ → ℕ) (file self : JcatFile) (flags : ℕ)
      → file.items ≡ []
      → import_json json base64 clock (export_json json base64 file flags) self
        ≡ (err (missing (codes "Items")), self)
  unfolding import_json import_parser export_json
  import_json-no_items clock file self flags e =
      let (n, load_ok, r) = exported file flags (rw e tt) in
      let (major, minor, _, absent) = file_members-find base64 file flags in
      rw load_ok (
        rw (member_present n _ (codes "JcatVersionMajor") r) (
          rw major (
            rw (member_present n _ (codes "JcatVersionMinor") r)
              (rw minor (rw (member_present n _ (codes "Items") r) (rw (absent e)))))))

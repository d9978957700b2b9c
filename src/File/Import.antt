-- ===== src/File/Import.antt =====
-- libjcat/jcat-file.c: `jcat_file_import_parser` and `jcat_file_import_json`. The import adds to a
-- file that may hold items already, and what it has added stays there when it fails, so the file
-- comes back beside the result.
use libjcat.Blob.Import.{invalid, require}
use libjcat.File.{JcatFile, add_item}
use libjcat.Item.Import.{import_item, array_of}
use libjcat.Json.{JsonGlib, Base64}
use libjcat.Prelude.{
  ℕ, ◌+◌, not, List, [], ◌∷◌, Bytes, codes, to_u32, Result, ok, err, length, if◌then◌else◌,
}

-- What a method that changes a file returns.
abbrev pub Outcome : Type 0
Outcome = Result (Unit {0}) × JcatFile

-- Go on with the value, or return early with the error and the file as it is by then.
abbrev pub or_return : {A : Type 0} → Result A → JcatFile → (A → Outcome) → Outcome
or_return (ok a) self next = next a
or_return (err e) self next = (err e, self)

module _ (json : JsonGlib) (base64 : Base64) (clock : ℕ → ℕ) where
  open json use {
    Node, Object, get_int_member, get_elements, holds_object, node_get_object, load_from_data,
  }

  unfoldable pub import_items : ℕ → List Node → JcatFile → Outcome
  import_items i [] self = (ok tt, self)
  import_items i (node ∷ nodes) self =
      if not (holds_object node)
      then (err (invalid (codes "failed to read object")), self)
      else or_return (import_item json base64 clock i (node_get_object node)) self
          (λ item. import_items (i + length item.blobs) nodes (add_item self item))

  -- From "get version" on.
  abbrev import_members : Object → JcatFile → Outcome
  import_members obj self =
      let self = record self {
        version_major = to_u32 (get_int_member obj (codes "JcatVersionMajor"));
        version_minor = to_u32 (get_int_member obj (codes "JcatVersionMinor"));
      } in
      or_return (array_of json obj (codes "Items") (codes "Items must be an array")) self
        (λ array. import_items 0 (get_elements array) self)

  -- `jcat_file_import_parser`, on the parser's root.
  unfoldable pub import_parser : Node → JcatFile → Outcome
  unfolding import_items
  import_parser root self =
      let obj = node_get_object root in
      let required = codes "JcatVersionMajor" ∷ codes "JcatVersionMinor" ∷ codes "Items" ∷ [] in
      or_return (require json obj required) self (λ _. import_members obj self)

  -- `jcat_file_import_json`.
  unfoldable pub import_json : Bytes → JcatFile → Outcome
  unfolding import_parser
  import_json text self = or_return (load_from_data text) self (λ root. import_parser root self)

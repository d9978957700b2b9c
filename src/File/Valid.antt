-- ===== src/File/Valid.antt =====
-- What libjcat/jcat-file.c guarantees of an import, whatever the document holds and whether or not
-- the import succeeds.
use mathlib.Core.List.{append-nil, append_assoc}
use libjcat.Blob.Import.{require}
use libjcat.File.Import.{or_return, import_items, import_parser, import_json, Outcome}
use libjcat.File.{JcatFile, add_item}
use libjcat.Item.Import.{import_item, array_of}
use libjcat.Item.Valid.{IsValidItem, import_item-IsValidItem}
use libjcat.Item.{JcatItem}
use libjcat.Json.{JsonGlib, Base64}
use libjcat.Prelude.{
  to_u32, ℕ, ◌+◌, List, [], ◌∷◌, ◌++◌, Bytes, codes, All, Result, ok, err, Result-cases, Bool-cases,
  inl, inr, ◌≡◌, refl, ◌∙◌, length,
}

-- The file has the items of `self` and behind them new ones, which are all valid.
abbrev pub AddsValidItems : JcatFile → JcatFile → Type 0
AddsValidItems self file =
    (added : List JcatItem) × (file.items ≡ self.items ++ added) × All IsValidItem added

adds_nothing : (self file : JcatFile) → file.items ≡ self.items → AddsValidItems self file
adds_nothing self file e = ([], rw append-nil e, tt)

or_return-AddsValidItems :
    {A : Type 0} (r : Result A) (self file : JcatFile) (next : A → Outcome)
    → file.items ≡ self.items
    → ((a : A) → AddsValidItems self (next a).1)
    → AddsValidItems self (or_return r file next).1
or_return-AddsValidItems (ok a) self file next e h = h a
or_return-AddsValidItems (err x) self file next e h = adds_nothing self file e

module _ (json : JsonGlib) (base64 : Base64) (clock : ℕ → ℕ) where
  open json use {Node}

  import_items-AddsValidItems :
      (i : ℕ) (nodes : List Node) (self : JcatFile)
      → AddsValidItems self (import_items json base64 clock i nodes self).1
  unfolding import_items add_item
  import_items-AddsValidItems i [] self = adds_nothing self self refl
  import_items-AddsValidItems i (n ∷ ns) self = elim (Bool-cases (json.holds_object n)) [
    | inr bad ↦ rw bad (adds_nothing self self refl)
    | inl good ↦ elim (Result-cases (import_item json base64 clock i (json.node_get_object n))) [
      | inr (e, failed) ↦ rw good (rw failed (adds_nothing self self refl))
      | inl (item, read) ↦
          let (added, same, valid) =
            import_items-AddsValidItems (i + length item.blobs) ns (add_item self item) in
          rw good (
            rw read (
              item ∷ added,
              same ∙ append_assoc self.items (item ∷ []) added,
              (import_item-IsValidItem json base64 clock i (json.node_get_object n) read, valid),
            ))
    ]
  ]

  import_parser-AddsValidItems :
      (root : Node) (self : JcatFile)
      → AddsValidItems self (import_parser json base64 clock root self).1
  unfolding import_parser
  import_parser-AddsValidItems root self =
      let obj = json.node_get_object root in
      let versioned = record self {
        version_major = to_u32 (json.get_int_member obj (codes "JcatVersionMajor"));
        version_minor = to_u32 (json.get_int_member obj (codes "JcatVersionMinor"));
      } in
      let items =
        or_return-AddsValidItems
          (array_of json obj (codes "Items") (codes "Items must be an array")) self versioned
          (λ a. import_items json base64 clock 0 (json.get_elements a) versioned) refl
          (λ a. import_items-AddsValidItems 0 (json.get_elements a) versioned) in
      or_return-AddsValidItems
        (require json obj
          (codes "JcatVersionMajor" ∷ codes "JcatVersionMinor" ∷ codes "Items" ∷ []))
        self self _ refl (λ _. items)

  -- An import keeps the items that the file had, in their order, and adds valid items behind them:
  -- for every text, when it fails too, and with no assumption on json-glib or base64.
  pub import_json-AddsValidItems :
      (text : Bytes) (self : JcatFile)
      → AddsValidItems self (import_json json base64 clock text self).1
  unfolding import_json
  import_json-AddsValidItems text self =
      or_return-AddsValidItems (json.load_from_data text) self self _ refl
        (λ root. import_parser-AddsValidItems root self)

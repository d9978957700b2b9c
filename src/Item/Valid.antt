-- ===== src/Item/Valid.antt =====
-- What libjcat/jcat-item.c guarantees of an item that it has imported, whatever the JSON holds.
use mathlib.Core.Path.{subst}
use libjcat.Blob.Import.{import_blob, missing}
use libjcat.Blob.Valid.{IsValid, import_blob-IsValid}
use libjcat.Blob.{JcatBlob}
use libjcat.Item.Aliases.{IsAliasSet, add_alias_id_lem}
use libjcat.Item.Import.{
  import_alias_ids, import_aliases, alias_of, import_blobs, import_item, nonempty,
}
use libjcat.Item.{JcatItem, add_alias_id, add_blob, init}
use libjcat.Json.{JsonGlib, Base64}
use libjcat.Prelude.{
  Result-cases, Option-cases, inl, inr, sym, Bool-cases, ok-injective, ℕ, suc, List, [], ◌∷◌,
  Option, none, some, Bytes, codes, All, All-append, ok, ◌≡◌, arith,
}

-- The ID is there and not empty, the blobs are valid, and no alias is repeated.
pub record IsValidItem (self : JcatItem) : Type 0 where
  pub first : ℕ
  pub more : Bytes
  pub has_id : self.id ≡ some (first ∷ more)
  pub blobs_valid : All IsValid self.blobs
  pub alias_set : IsAliasSet self.alias_ids

add_alias_id-blobs : (self : JcatItem) (id : Bytes) → (add_alias_id self id).blobs ≡ self.blobs
unfolding add_alias_id
add_alias_id-blobs self id = ground arith

add_alias_id-IsValidItem :
    (self : JcatItem) (id : Bytes) → IsValidItem self → IsValidItem (add_alias_id self id)
unfolding add_alias_id
add_alias_id-IsValidItem self id v = record {
  first = v.first;
  more = v.more;
  has_id = ground (arith, v.has_id);
  blobs_valid = subst (All IsValid) (sym (add_alias_id-blobs self id)) v.blobs_valid;
  alias_set = (add_alias_id_lem self id v.alias_set).0;
}

add_blob-IsValidItem :
    (self : JcatItem) (blob : JcatBlob)
    → IsValidItem self
    → IsValid blob
    → IsValidItem (add_blob self blob)
unfolding add_blob
add_blob-IsValidItem self blob v valid = record {
  first = v.first;
  more = v.more;
  has_id = v.has_id;
  blobs_valid = All-append IsValid self.blobs (blob ∷ []) v.blobs_valid (valid, tt);
  alias_set = v.alias_set;
}

-- The item that the blobs are added to.
named-IsValidItem :
    (text : Option Bytes) (id : Bytes)
    → nonempty text ≡ ok id
    → IsValidItem (record init { id = some id })
named-IsValidItem none id e = cc
named-IsValidItem (some []) id e = cc
named-IsValidItem (some (c ∷ cs)) id e = record {
  first = c;
  more = cs;
  has_id = cc;
  blobs_valid = tt;
  alias_set = λ j. omega arith;
}

module _ (json : JsonGlib) where
  open json use {Node, Object}

  import_alias_ids-IsValidItem :
      (nodes : List Node) (self : JcatItem) {item : JcatItem}
      → IsValidItem self
      → import_alias_ids json nodes self ≡ ok item
      → IsValidItem item
  unfolding import_alias_ids
  import_alias_ids-IsValidItem [] self v e = subst IsValidItem (ok-injective e) v
  import_alias_ids-IsValidItem (n ∷ ns) self v e =
      elim (Result-cases (alias_of json (json.node_get_string n))) [
        | inl (id, found) ↦
            import_alias_ids-IsValidItem ns (add_alias_id self id)
              (add_alias_id-IsValidItem self id v) (ground (arith, found))
        | inr (bad, missing) ↦ absurd (ground (arith, missing))
      ]

  import_aliases-IsValidItem :
      (obj : Object) (self : JcatItem) {item : JcatItem}
      → IsValidItem self
      → import_aliases json obj self ≡ ok item
      → IsValidItem item
  unfolding import_aliases
  import_aliases-IsValidItem obj self {item} v e =
      elim (Option-cases (json.get_array_member obj (codes "AliasIds"))) [
        | inl missing ↦ ground (arith, missing)
        | inr (a, found) ↦ elim (Bool-cases (json.has_member obj (codes "AliasIds"))) [
          | inl present ↦
              import_alias_ids-IsValidItem (json.get_elements a) self v
                (ground (arith, found, present))
          | inr absent ↦
              let same : self ≡ item = ok-injective (ground (arith, absent)) in
              subst IsValidItem same v
        ]
      ]

  module _ (base64 : Base64) (clock : ℕ → ℕ) where
    import_blobs-IsValidItem :
        (i : ℕ) (nodes : List Node) (self : JcatItem) {item : JcatItem}
        → IsValidItem self
        → import_blobs json base64 clock i nodes self ≡ ok item
        → IsValidItem item
    unfolding import_blobs
    import_blobs-IsValidItem i [] self v e = subst IsValidItem (ok-injective e) v
    import_blobs-IsValidItem i (n ∷ ns) self v e =
        elim (Result-cases (import_blob json base64 (clock i) (json.node_get_object n))) [
          | inl (blob, found) ↦
              import_blobs-IsValidItem (suc i) ns (add_blob self blob)
                (add_blob-IsValidItem self blob v
                  (import_blob-IsValid json base64 (clock i) (json.node_get_object n) found))
                (ground (arith, found))
          | inr (bad, failed) ↦ absurd (ground (arith, failed))
        ]

    -- An imported item has an ID that is not empty, valid blobs and no alias twice, for every
    -- JSON object, with no assumption on json-glib or base64.
    pub import_item-IsValidItem :
        (i : ℕ) (obj : Object) {item : JcatItem}
        → import_item json base64 clock i obj ≡ ok item
        → IsValidItem item
    unfolding import_item
    import_item-IsValidItem i obj e =
        let text = json.get_string_member obj (codes "Id") in
        elim (Result-cases (nonempty text)) [
          | inr (bad, unnamed) ↦ absurd (ground (arith, unnamed))
          | inl (id, named) ↦
              let start = record init { id = some id } in
              elim (Option-cases (json.get_array_member obj (codes "Blobs"))) [
                | inl missing ↦ absurd (ground (arith, named, missing))
                | inr (a, found) ↦
                    elim (Result-cases
                      (import_blobs json base64 clock i (json.get_elements a) start)) [
                        | inr (bad, failed) ↦ absurd (ground (arith, named, found, failed))
                        | inl (self, read) ↦
                            import_aliases-IsValidItem obj self
                              (import_blobs-IsValidItem i _ start (named-IsValidItem _ id named)
                                read)
                              (ground (arith, named, found, read))
                      ]
              ]
        ]

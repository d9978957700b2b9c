-- ===== src/Item/RoundTrip.antt =====
-- What libjcat/jcat-item.c stores, it reads back.
use mathlib.Core.List.{append-nil, append_assoc}
use libjcat.Blob.RoundTrip.{restored, import_blob-stored}
use libjcat.Blob.Stored.{blob_text, get_data_as_string-IsStorable}
use libjcat.Blob.{buffer, JcatBlob}
use libjcat.Item.Aliases.{IsAliasSet, count, count-append, has_alias_id-count, beq_refl}
use libjcat.Item.Import.{
  nonempty, import_alias_ids, import_aliases, import_blobs, import_item, array_of,
}
use libjcat.Item.Stored.{
  item_members-find, item_members-find_aliases, alias_values, blob_values, item_members,
  AreStorable, IsStorableItem,
}
use libjcat.Item.{some, false, JcatItem, add_alias_id, add_blob, init, has_alias_id}
use libjcat.Json.Laws.{object, JsonLaws, Base64Laws, RepresentsEach}
use libjcat.Json.{JsonGlib, Base64}
use libjcat.Prelude.{
  ap, inr, inl, ℕ, suc, List, [], ◌∷◌, ◌++◌, Bytes, codes, ok, ◌≡◌, refl, ◌∙◌, arith,
}

-- The blobs that are read back, each with its own reading of the clock.
abbrev pub restored_blobs : (ℕ → ℕ) → ℕ → ℕ → List JcatBlob → List JcatBlob
restored_blobs clock flags i [] = []
restored_blobs clock flags i (blob ∷ blobs) =
    restored blob flags (clock i) ∷ restored_blobs clock flags (suc i) blobs

module _ (json : JsonGlib) (base64 : Base64) (laws : JsonLaws json)
    (coding : Base64Laws base64) where
  open json use {Node, node_get_object}
  open laws use {
    Represents, IsUtf8, member_present, string_member, array_member, object_node, string_node,
  }

  fresh_alias :
      (olds ids : List Bytes) (id : Bytes)
      → IsAliasSet (olds ++ id ∷ ids)
      → has_alias_id olds id ≡ false
  fresh_alias olds ids id h =
      has_alias_id-count olds id
        (ground (arith, h id, count-append olds (id ∷ ids) id, beq_refl id))

  import_alias_ids-stored :
      (nodes : List Node) (ids : List Bytes) (self : JcatItem)
      → RepresentsEach Represents nodes (alias_values ids)
      → IsAliasSet (self.alias_ids ++ ids)
      → import_alias_ids json nodes self ≡ ok (record self { alias_ids = self.alias_ids ++ ids })
  unfolding import_alias_ids add_alias_id
  import_alias_ids-stored [] [] self r h = rw append-nil
  import_alias_ids-stored [] (id ∷ ids) self r h = elim r [ ]
  import_alias_ids-stored (n ∷ ns) [] self r h = elim r [ ]
  import_alias_ids-stored (n ∷ ns) (id ∷ ids) self (r, rs) h =
      let (is_value, is_string) = string_node n id r in
      let fresh = fresh_alias self.alias_ids ids id h in
      rw is_value (
        rw is_string (
          rw fresh (
            import_alias_ids-stored ns ids (record self { alias_ids = self.alias_ids ++ id ∷ [] })
              rs (rw append_assoc h)
            ∙ rw append_assoc)))

  import_blobs-stored :
      (clock : ℕ → ℕ) (i flags : ℕ) (nodes : List Node) (blobs : List JcatBlob) (self : JcatItem)
      → RepresentsEach Represents nodes (blob_values base64 blobs flags)
      → AreStorable IsUtf8 base64 blobs
      → import_blobs json base64 clock i nodes self
        ≡ ok (record self { blobs = self.blobs ++ restored_blobs clock flags i blobs })
  unfolding import_blobs add_blob
  import_blobs-stored clock i flags [] [] self r h = rw append-nil
  import_blobs-stored clock i flags [] (x ∷ xs) self r h = elim r [ ]
  import_blobs-stored clock i flags (n ∷ ns) [] self r h = elim r [ ]
  import_blobs-stored clock i flags (n ∷ ns) (blob ∷ blobs) self (r, rs) ((bytes, ok_blob), h) =
      let text = (get_data_as_string-IsStorable IsUtf8 base64 blob bytes ok_blob).0 in
      let first =
        import_blob-stored json base64 laws coding n blob flags (blob_text base64 blob) r (clock i)
          bytes ok_blob text in
      rw (object_node n _ r) (
        rw first (
          import_blobs-stored clock (suc i) flags ns blobs
            (record self { blobs = self.blobs ++ restored blob flags (clock i) ∷ [] }) rs h
          ∙ rw append_assoc))

  module _ (n : Node) (self : JcatItem) (flags : ℕ)
      (r : Represents n (object (item_members base64 self flags)))
      (s : IsStorableItem IsUtf8 base64 self) where
    import_aliases-stored :
        (item : JcatItem)
        → item.alias_ids ≡ []
        → import_aliases json (node_get_object n) item
          ≡ ok (record item { alias_ids = self.alias_ids })
    unfolding import_aliases
    import_aliases-stored item fresh = elim (item_members-find_aliases base64 self flags) [
      | inl (no_aliases, absent) ↦
          rw (member_present n _ (codes "AliasIds") r) (rw absent (ground arith))
      | inr present ↦
          let (a, found, each) = array_member n _ (codes "AliasIds") _ r present in
          rw (member_present n _ (codes "AliasIds") r) (
            rw present (
              rw (found, array_of)
                (import_alias_ids-stored _ self.alias_ids item each (λ id. ground (
                  arith,
                  s.alias_set id,
                  count-append item.alias_ids self.alias_ids id,
                  ap (count id) fresh,
                ))
                  ∙ ap
                      (λ (ids : List Bytes). ok (record item { alias_ids = ids ++ self.alias_ids }))
                      fresh)))
    ]

    -- With the laws of json-glib and of base64: an object that represents the export of an item that
    -- can be stored is imported as that item, at whatever count of earlier blobs the clock starts,
    -- except that a blob whose timestamp was not written gets the time of its import.
    pub import_item-stored :
        (clock : ℕ → ℕ) (i : ℕ)
        → import_item json base64 clock i (node_get_object n)
          ≡ ok (record self { blobs = restored_blobs clock flags i self.blobs })
    unfolding import_item
    import_item-stored clock i =
        let (id_is, blobs_are, _) = item_members-find base64 self flags in
        let (a, found, each) = array_member n _ (codes "Blobs") _ r (blobs_are s.has_blobs) in
        let id_found = string_member n _ (codes "Id") _ r id_is in
        let id_ok : nonempty (some (buffer self.id)) ≡ ok (s.first ∷ s.more) =
          ground (arith, s.has_id) in
        let named = record init { id = some (s.first ∷ s.more) } in
        let blobs_ok = import_blobs-stored clock i flags _ self.blobs named each s.blobs_storable in
        let with_blobs = record named { blobs = restored_blobs clock flags i self.blobs } in
        rw (member_present n _ (codes "Id") r) (
          rw id_is (
            rw (member_present n _ (codes "Blobs") r) (
              rw (blobs_are s.has_blobs) (
                rw id_found (
                  rw (found, array_of)
                    (rw id_ok (
                      rw blobs_ok
                        (import_aliases-stored with_blobs refl ∙ ground (arith, s.has_id)))))))))

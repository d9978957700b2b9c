-- ===== src/File/Stored.antt =====
-- The JSON document that libjcat/jcat-file.c stores a file as.
use libjcat.File.Export.{export_items, export_builder}
use libjcat.File.{JcatFile}
use libjcat.Item.Stored.{item_members, IsStorableItem, item_members-Strings, export_item-emit}
use libjcat.Item.{JcatItem}
use libjcat.Json.Laws.{
  int, object, array, Values, nil, cons, Members, end, member, find, emit, emit_members,
  emit_values, Strings, StringsEach, StringsMembers,
}
use libjcat.Json.{JsonGlib, Base64}
use libjcat.Prelude.{
  ◌≢◌, ℕ, List, [], ◌∷◌, none, some, Bytes, codes, All, pos, ltb, ltb-suc, length, ◌≡◌, refl, sym,
  ap, if◌then◌else◌,
}

abbrev pub item_values : Base64 → List JcatItem → ℕ → Values
item_values base64 [] flags = nil
item_values base64 (item ∷ items) flags =
    cons (object (item_members base64 item flags)) (item_values base64 items flags)

abbrev items_member : Base64 → List JcatItem → ℕ → Members
items_member base64 [] flags = end
items_member base64 (item ∷ items) flags =
    member (codes "Items") (array (item_values base64 (item ∷ items) flags)) end

unfoldable pub file_members : Base64 → JcatFile → ℕ → Members
file_members base64 self flags = member (codes "JcatVersionMajor") (int (pos self.version_major)) (
    member (codes "JcatVersionMinor") (int (pos self.version_minor))
      (items_member base64 self.items flags))

abbrev pub AreStorableItems : (Bytes → Type 0) → Base64 → List JcatItem → Type 0
AreStorableItems P base64 = All (IsStorableItem P base64)

item_values-Strings :
    (P : Bytes → Type 0) (base64 : Base64) (items : List JcatItem) (flags : ℕ)
    → AreStorableItems P base64 items
    → StringsEach P (item_values base64 items flags)
item_values-Strings P base64 [] flags h = tt
item_values-Strings P base64 (item ∷ items) flags (s, h) =
    (item_members-Strings P base64 item flags s, item_values-Strings P base64 items flags h)

items_member-Strings :
    (P : Bytes → Type 0) (base64 : Base64) (items : List JcatItem) (flags : ℕ)
    → AreStorableItems P base64 items
    → StringsMembers P (items_member base64 items flags)
items_member-Strings P base64 [] flags h = tt
items_member-Strings P base64 (item ∷ items) flags h =
    (item_values-Strings P base64 (item ∷ items) flags h, tt)

pub file_members-Strings :
    (P : Bytes → Type 0) (base64 : Base64) (self : JcatFile) (flags : ℕ)
    → AreStorableItems P base64 self.items
    → Strings P (object (file_members base64 self flags))
unfolding file_members
file_members-Strings P base64 self flags h =
    (tt, (tt, items_member-Strings P base64 self.items flags h))

module _ (json : JsonGlib) (base64 : Base64) where
  open json use {Builder}

  export_items-emit :
      (P : Bytes → Type 0) (items : List JcatItem) (flags : ℕ) (b : Builder)
      → AreStorableItems P base64 items
      → export_items json base64 items flags b ≡ emit_values json (item_values base64 items flags) b
  unfolding export_items emit
  export_items-emit P [] flags b h = refl
  export_items-emit P (item ∷ items) flags b (s, h) =
      rw (export_item-emit json base64 P item flags _ s) (export_items-emit P items flags _ h)

  emit-items_member :
      (P : Bytes → Type 0) (items : List JcatItem) (flags : ℕ) (b : Builder)
      → AreStorableItems P base64 items
      → emit_members json (items_member base64 items flags) b ≡ (
          if ltb 0 (length items)
          then json.end_array (
              export_items json base64 items flags
                (json.begin_array (json.set_member_name (codes "Items") b)))
          else b)
  unfolding emit
  emit-items_member P [] flags b h = refl
  emit-items_member P (item ∷ items) flags b h =
      rw (ltb-suc (length items))
        (ap json.end_array (sym (export_items-emit P (item ∷ items) flags _ h)))

  pub export_builder-emit :
      (P : Bytes → Type 0) (self : JcatFile) (flags : ℕ) (b : Builder)
      → AreStorableItems P base64 self.items
      → export_builder json base64 self flags b
        ≡ emit json (object (file_members base64 self flags)) b
  unfolding export_builder emit file_members
  export_builder-emit P self flags b h =
      ap json.end_object (sym (emit-items_member P self.items flags _ h))

module _ (base64 : Base64) (flags major minor : ℕ) where
  abbrev members_of : List JcatItem → Members
  members_of items =
      member (codes "JcatVersionMajor") (int (pos major))
        (member (codes "JcatVersionMinor") (int (pos minor)) (items_member base64 items flags))

  find_versions :
      (items : List JcatItem)
      → (find (codes "JcatVersionMajor") (members_of items) ≡ some (int (pos major)))
        × (find (codes "JcatVersionMinor") (members_of items) ≡ some (int (pos minor)))
  find_versions [] = (refl, refl)
  find_versions (_ ∷ _) = (refl, refl)

  find_items :
      (items : List JcatItem)
      → items ≢ []
      → find (codes "Items") (members_of items) ≡ some (array (item_values base64 items flags))
  find_items [] h = absurd (h refl)
  find_items (_ ∷ _) h = refl

pub file_members-find :
    (base64 : Base64) (self : JcatFile) (flags : ℕ)
    → (find (codes "JcatVersionMajor") (file_members base64 self flags)
        ≡ some (int (pos self.version_major)))
      × (find (codes "JcatVersionMinor") (file_members base64 self flags)
          ≡ some (int (pos self.version_minor)))
      × (self.items ≢ []
          → find (codes "Items") (file_members base64 self flags)
            ≡ some (array (item_values base64 self.items flags)))
      × (self.items ≡ [] → find (codes "Items") (file_members base64 self flags) ≡ none)
unfolding file_members
file_members-find base64 self flags =
    let versions = find_versions base64 flags self.version_major self.version_minor self.items in
    (
      versions.0,
      versions.1,
      find_items base64 flags self.version_major self.version_minor self.items,
      λ e. rw e,
    )

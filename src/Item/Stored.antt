-- ===== src/Item/Stored.antt =====
-- The JSON object that libjcat/jcat-item.c stores an item as.
use libjcat.Blob.Stored.{
  blob_members, blob_text, IsStorable, export_blob-emit, get_data_as_string-IsStorable,
  blob_members-Strings,
}
use libjcat.Blob.{JcatBlob, buffer}
use libjcat.Item.Aliases.{IsAliasSet}
use libjcat.Item.Export.{export_alias_ids, export_blobs, export_item}
use libjcat.Item.{none, Option, JcatItem}
use libjcat.Json.Laws.{
  find, string, array, object, Values, nil, cons, Members, end, member, emit, emit_members,
  emit_values, StringsEach, StringsMembers,
}
use libjcat.Json.{JsonGlib, Base64}
use libjcat.Prelude.{
  inr, inl, ◌⊎◌, ltb-suc, sym, ℕ, List, [], ◌∷◌, some, Bytes, codes, All, ltb, length, ◌≡◌, ◌≢◌,
  refl, ◌∙◌, ap, arith, if◌then◌else◌,
}

abbrev pub alias_values : List Bytes → Values
alias_values [] = nil
alias_values (id ∷ ids) = cons (string id) (alias_values ids)

abbrev pub blob_values : Base64 → List JcatBlob → ℕ → Values
blob_values base64 [] flags = nil
blob_values base64 (blob ∷ blobs) flags =
    cons (object (blob_members blob flags (blob_text base64 blob))) (blob_values base64 blobs flags)

abbrev aliases_member : List Bytes → Members → Members
aliases_member [] rest = rest
aliases_member (id ∷ ids) rest = member (codes "AliasIds") (array (alias_values (id ∷ ids))) rest

abbrev blobs_member : Base64 → List JcatBlob → ℕ → Members
blobs_member base64 [] flags = end
blobs_member base64 (blob ∷ blobs) flags =
    member (codes "Blobs") (array (blob_values base64 (blob ∷ blobs) flags)) end

unfoldable pub item_members : Base64 → JcatItem → ℕ → Members
item_members base64 self flags =
    member (codes "Id") (string (buffer self.id))
      (aliases_member self.alias_ids (blobs_member base64 self.blobs flags))

-- Each blob can be stored.
abbrev pub AreStorable : (Bytes → Type 0) → Base64 → List JcatBlob → Type 0
AreStorable P base64 = All (λ blob. (bytes : Bytes) × IsStorable P base64 blob bytes)

-- What an item satisfies that can be stored and read back: it has an ID and a blob.
pub record IsStorableItem (P : Bytes → Type 0) (base64 : Base64) (self : JcatItem) : Type 0 where
  pub first : ℕ
  pub more : Bytes
  pub has_id : self.id ≡ some (first ∷ more)
  pub id_string : P (first ∷ more)
  pub has_blobs : self.blobs ≢ []
  pub blobs_storable : AreStorable P base64 self.blobs
  pub alias_set : IsAliasSet self.alias_ids
  pub alias_strings : All P self.alias_ids

alias_values-Strings :
    (P : Bytes → Type 0) (ids : List Bytes) → All P ids → StringsEach P (alias_values ids)
alias_values-Strings P [] h = tt
alias_values-Strings P (id ∷ ids) h = (h.0, alias_values-Strings P ids h.1)

blob_values-Strings :
    (P : Bytes → Type 0) (base64 : Base64) (blobs : List JcatBlob) (flags : ℕ)
    → AreStorable P base64 blobs
    → StringsEach P (blob_values base64 blobs flags)
blob_values-Strings P base64 [] flags h = tt
blob_values-Strings P base64 (blob ∷ blobs) flags ((bytes, ok_blob), h) = (
  blob_members-Strings P blob flags _ ok_blob.appstream_string
      (get_data_as_string-IsStorable P base64 blob bytes ok_blob).1,
  blob_values-Strings P base64 blobs flags h,
)

module _ (P : Bytes → Type 0) (base64 : Base64) where
  aliases_member-Strings :
      (ids : List Bytes) (rest : Members)
      → All P ids
      → StringsMembers P rest
      → StringsMembers P (aliases_member ids rest)
  aliases_member-Strings [] rest p h = h
  aliases_member-Strings (id ∷ ids) rest p h = (alias_values-Strings P (id ∷ ids) p, h)

  blobs_member-Strings :
      (blobs : List JcatBlob) (flags : ℕ)
      → AreStorable P base64 blobs
      → StringsMembers P (blobs_member base64 blobs flags)
  blobs_member-Strings [] flags p = tt
  blobs_member-Strings (blob ∷ blobs) flags p =
      (blob_values-Strings P base64 (blob ∷ blobs) flags p, tt)

  pub item_members-Strings :
      (self : JcatItem) (flags : ℕ)
      → IsStorableItem P base64 self
      → StringsMembers P (item_members base64 self flags)
  unfolding item_members
  item_members-Strings self flags s = (
    rw s.has_id s.id_string,
    aliases_member-Strings self.alias_ids _ s.alias_strings
        (blobs_member-Strings self.blobs flags s.blobs_storable),
  )

module _ (json : JsonGlib) (base64 : Base64) where
  open json use {Builder}

  export_alias_ids-emit :
      (ids : List Bytes) (b : Builder)
      → export_alias_ids json ids b ≡ emit_values json (alias_values ids) b
  unfolding export_alias_ids emit
  export_alias_ids-emit [] b = refl
  export_alias_ids-emit (id ∷ ids) b = export_alias_ids-emit ids _

  export_blobs-emit :
      (P : Bytes → Type 0) (blobs : List JcatBlob) (flags : ℕ) (b : Builder)
      → AreStorable P base64 blobs
      → export_blobs json base64 blobs flags b ≡ emit_values json (blob_values base64 blobs flags) b
  unfolding export_blobs emit
  export_blobs-emit P [] flags b h = refl
  export_blobs-emit P (blob ∷ blobs) flags b ((bytes, ok_blob), h) =
      let text = (get_data_as_string-IsStorable P base64 blob bytes ok_blob).0 in
      rw (export_blob-emit json base64 blob flags (blob_text base64 blob) _ text)
        (export_blobs-emit P blobs flags _ h)

  emit-aliases_member :
      (ids : List Bytes) (rest : Members) (b : Builder)
      → emit_members json (aliases_member ids rest) b
        ≡ emit_members json rest (
            if ltb 0 (length ids)
            then json.end_array (
                export_alias_ids json ids
                  (json.begin_array (json.set_member_name (codes "AliasIds") b)))
            else b)
  unfolding emit export_alias_ids
  emit-aliases_member [] rest b = refl
  emit-aliases_member (id ∷ ids) rest b = rw (ltb-suc (length ids)) (rw (export_alias_ids-emit ids))

  emit-blobs_member :
      (P : Bytes → Type 0) (blobs : List JcatBlob) (flags : ℕ) (b : Builder)
      → AreStorable P base64 blobs
      → emit_members json (blobs_member base64 blobs flags) b ≡ (
          if ltb 0 (length blobs)
          then json.end_array (
              export_blobs json base64 blobs flags
                (json.begin_array (json.set_member_name (codes "Blobs") b)))
          else b)
  unfolding emit
  emit-blobs_member P [] flags b h = refl
  emit-blobs_member P (blob ∷ blobs) flags b h =
      rw (ltb-suc (length blobs))
        (ap json.end_array (sym (export_blobs-emit P (blob ∷ blobs) flags _ h)))

  pub export_item-emit :
      (P : Bytes → Type 0) (self : JcatItem) (flags : ℕ) (b : Builder)
      → IsStorableItem P base64 self
      → export_item json base64 self flags b ≡ emit_members json (item_members base64 self flags) b
  unfolding export_item emit item_members
  export_item-emit P self flags b s =
      let e : some (buffer self.id) ≡ self.id = ground (arith, s.has_id) in
      let named =
        json.add_string_value (some (buffer self.id)) (json.set_member_name (codes "Id") b) in
      let with_id : json.add_string_value self.id (json.set_member_name (codes "Id") b) ≡ named =
        ap (λ (o : Option Bytes). json.add_string_value o (json.set_member_name (codes "Id") b))
          (sym e) in
      rw with_id (
        sym (
          emit-aliases_member self.alias_ids (blobs_member base64 self.blobs flags) named
          ∙ emit-blobs_member P self.blobs flags _ s.blobs_storable))

-- The members that the import looks for.
module _ (base64 : Base64) (flags : ℕ) (id : Bytes) where
  abbrev members_of : List Bytes → List JcatBlob → Members
  members_of ids blobs =
      member (codes "Id") (string id) (aliases_member ids (blobs_member base64 blobs flags))

  find_id :
      (ids : List Bytes) (blobs : List JcatBlob)
      → find (codes "Id") (members_of ids blobs) ≡ some (string id)
  find_id [] [] = refl
  find_id [] (_ ∷ _) = refl
  find_id (_ ∷ _) [] = refl
  find_id (_ ∷ _) (_ ∷ _) = refl

  find_blobs :
      (ids : List Bytes) (blobs : List JcatBlob)
      → blobs ≢ []
      → find (codes "Blobs") (members_of ids blobs) ≡ some (array (blob_values base64 blobs flags))
  find_blobs ids [] h = absurd (h refl)
  find_blobs [] (_ ∷ _) h = refl
  find_blobs (_ ∷ _) (_ ∷ _) h = refl

  find_no_blobs : (ids : List Bytes) → find (codes "Blobs") (members_of ids []) ≡ none
  find_no_blobs [] = refl
  find_no_blobs (_ ∷ _) = refl

  find_no_aliases : (blobs : List JcatBlob) → find (codes "AliasIds") (members_of [] blobs) ≡ none
  find_no_aliases [] = refl
  find_no_aliases (_ ∷ _) = refl

  find_aliases :
      (x : Bytes) (ids : List Bytes) (blobs : List JcatBlob)
      → find (codes "AliasIds") (members_of (x ∷ ids) blobs) ≡ some (array (alias_values (x ∷ ids)))
  find_aliases x ids [] = refl
  find_aliases x ids (_ ∷ _) = refl

-- An item with blobs has the two members that are required; without blobs the second is missing.
pub item_members-find :
    (base64 : Base64) (self : JcatItem) (flags : ℕ)
    → (find (codes "Id") (item_members base64 self flags) ≡ some (string (buffer self.id)))
      × (self.blobs ≢ []
          → find (codes "Blobs") (item_members base64 self flags)
            ≡ some (array (blob_values base64 self.blobs flags)))
      × (self.blobs ≡ [] → find (codes "Blobs") (item_members base64 self flags) ≡ none)
unfolding item_members
item_members-find base64 self flags = (
  find_id base64 flags (buffer self.id) self.alias_ids self.blobs,
  find_blobs base64 flags (buffer self.id) self.alias_ids self.blobs,
  λ e. rw e (find_no_blobs base64 flags (buffer self.id) self.alias_ids),
)

pub item_members-find_aliases :
    (base64 : Base64) (self : JcatItem) (flags : ℕ)
    → ((self.alias_ids ≡ []) × (find (codes "AliasIds") (item_members base64 self flags) ≡ none))
      ⊎ (find (codes "AliasIds") (item_members base64 self flags)
          ≡ some (array (alias_values self.alias_ids)))
unfolding item_members
item_members-find_aliases base64 self flags = split self.alias_ids
  where
    split :
        (ids : List Bytes)
        → ((ids ≡ [])
            × (find (codes "AliasIds") (members_of base64 flags (buffer self.id) ids self.blobs)
                ≡ none))
          ⊎ (find (codes "AliasIds") (members_of base64 flags (buffer self.id) ids self.blobs)
              ≡ some (array (alias_values ids)))
    split [] = inl (refl, find_no_aliases base64 flags (buffer self.id) self.blobs)
    split (x ∷ ids) = inr (find_aliases base64 flags (buffer self.id) x ids self.blobs)

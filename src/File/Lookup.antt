-- ===== src/File/Lookup.antt =====
-- `jcat_file_get_item_by_id` of libjcat/jcat-file.c against a description without its loops.
use libjcat.File.{
  JcatFile, lookup_error, matched, find_exact, find_alias_of, find_alias, get_item_by_id, found_or,
}
use libjcat.Item.{JcatItem}
use libjcat.Prelude.{
  sym, Bool, true, false, List, [], ◌∷◌, ◌++◌, Option, none, some, Bytes, codes, beq, strcmp0_eq,
  Result, ok, err, Error, ◌>>=◌, ◌≡◌, refl, if◌then◌else◌,
}

-- The items whose ID is the given one.
abbrev pub exact_matches : Bytes → List JcatItem → List JcatItem
exact_matches id [] = []
exact_matches id (item ∷ items) =
    if strcmp0_eq item.id (some id) then item ∷ exact_matches id items else exact_matches id items

-- An item once for each time that the ID is among its aliases.
abbrev pub hits_of : Bytes → JcatItem → List Bytes → List JcatItem
hits_of id item [] = []
hits_of id item (x ∷ ids) = if beq x id then item ∷ hits_of id item ids else hits_of id item ids

abbrev pub alias_matches : Bytes → List JcatItem → List JcatItem
alias_matches id [] = []
alias_matches id (item ∷ items) = hits_of id item item.alias_ids ++ alias_matches id items

-- The only one of the candidates: what is done if there is none, and the error if there are more.
abbrev pub only : Error → Result JcatItem → List JcatItem → Result JcatItem
only several other [] = other
only several other (item ∷ []) = ok item
only several other (_ ∷ _ ∷ _) = err several

-- As `only`, for the candidate before and those to come.
abbrev merge : Error → Option JcatItem → List JcatItem → Result (Option JcatItem)
merge several found [] = ok found
merge several none (item ∷ []) = ok (some item)
merge several _ _ = err several

merge-cons :
    (several : Error) (item : JcatItem) (rest : List JcatItem)
    → merge several none (item ∷ rest) ≡ merge several (some item) rest
merge-cons several item [] = refl
merge-cons several item (_ ∷ _) = refl

merge-some_cons :
    (several : Error) (old item : JcatItem) (rest : List JcatItem)
    → merge several (some old) (item ∷ rest) ≡ err several
merge-some_cons several old item [] = refl
merge-some_cons several old item (_ ∷ _) = refl

-- One candidate more in front.
merge-matched :
    (several : Error) (hit : Bool) (item : JcatItem) (found : Option JcatItem)
    (rest : List JcatItem)
    → (matched several hit item found >>= λ f. merge several f rest)
      ≡ merge several found (if hit then item ∷ rest else rest)
merge-matched several true item none rest = sym (merge-cons several item rest)
merge-matched several true item (some old) rest = sym (merge-some_cons several old item rest)
merge-matched several false item found rest = refl

merge-append :
    (several : Error) (found : Option JcatItem) (xs ys : List JcatItem)
    → (merge several found xs >>= λ f. merge several f ys) ≡ merge several found (xs ++ ys)
merge-append several found [] ys = refl
merge-append several none (x ∷ []) ys = sym (merge-cons several x ys)
merge-append several none (x ∷ y ∷ xs) ys = refl
merge-append several (some old) (x ∷ xs) ys =
    rw (merge-some_cons several old x xs, merge-some_cons several old x (xs ++ ys))

only-merge :
    (several : Error) (other : Result JcatItem) (xs : List JcatItem)
    → (merge several none xs >>= λ f. found_or f other) ≡ only several other xs
only-merge several other [] = refl
only-merge several other (x ∷ []) = refl
only-merge several other (x ∷ y ∷ xs) = refl

find_exact-merge :
    (id : Bytes) (items : List JcatItem) (found : Option JcatItem)
    → find_exact id items found
      ≡ merge (lookup_error (codes "multiple matches for %s") id) found (exact_matches id items)
unfolding find_exact
find_exact-merge id [] found = refl
find_exact-merge id (item ∷ items) found =
    simp (find_exact-merge id items)
      (merge-matched _ (strcmp0_eq item.id (some id)) item found (exact_matches id items))

find_alias_of-merge :
    (id : Bytes) (item : JcatItem) (ids : List Bytes) (found : Option JcatItem)
    → find_alias_of id item ids found
      ≡ merge (lookup_error (codes "multiple aliases for %s") id) found (hits_of id item ids)
unfolding find_alias_of
find_alias_of-merge id item [] found = refl
find_alias_of-merge id item (x ∷ ids) found =
    simp (find_alias_of-merge id item ids)
      (merge-matched _ (beq x id) item found (hits_of id item ids))

find_alias-merge :
    (id : Bytes) (items : List JcatItem) (found : Option JcatItem)
    → find_alias id items found
      ≡ merge (lookup_error (codes "multiple aliases for %s") id) found (alias_matches id items)
unfolding find_alias
find_alias-merge id [] found = refl
find_alias-merge id (item ∷ items) found =
    simp (find_alias-merge id items, find_alias_of-merge id item)
      (merge-append _ found (hits_of id item item.alias_ids) (alias_matches id items))

-- Looking up an ID gives the only item with that ID; if no item has it, the item of the only alias
-- that equals it; and otherwise the error for several matches, several aliases or no match.
pub get_item_by_id-only :
    (self : JcatFile) (id : Bytes)
    → get_item_by_id self id
      ≡ only
          (lookup_error (codes "multiple matches for %s") id)
          (only
            (lookup_error (codes "multiple aliases for %s") id)
            (err (lookup_error (codes "failed to find %s") id))
            (alias_matches id self.items))
          (exact_matches id self.items)
unfolding get_item_by_id
get_item_by_id-only self id =
    simp (find_exact-merge id self.items none, find_alias-merge id self.items none, only-merge)

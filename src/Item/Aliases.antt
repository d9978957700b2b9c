-- ===== src/Item/Aliases.antt =====
-- The alias IDs of libjcat/jcat-item.c are a set: no alias stands twice, and adding and removing
-- have the effect on membership that their names say.
use libjcat.Item.{JcatItem, has_alias_id, add_alias_id, remove_first, remove_alias_id}
use libjcat.Prelude.{
  ℕ, ◌+◌, ◌≤◌, true, false, not, ◌&&◌, ◌||◌, List, [], ◌∷◌, ◌++◌, Bytes, beq, beq_iff, ◌≡◌, refl,
  arith, if◌then◌else◌,
}

-- How often an alias stands in the array.
abbrev pub count : Bytes → List Bytes → ℕ
count id [] = 0
count id (x ∷ ids) = (if beq id x then 1 else 0) + count id ids

-- No alias stands in the array twice.
abbrev pub IsAliasSet : List Bytes → Type 0
IsAliasSet ids = (id : Bytes) → count id ids ≤ 1

pub has_alias_id-count :
    (ids : List Bytes) (id : Bytes) → count id ids ≡ 0 → has_alias_id ids id ≡ false
unfolding has_alias_id
has_alias_id-count [] id h = refl
has_alias_id-count (x ∷ ids) id h = ground (arith, has_alias_id-count ids id)

count-has_alias_id :
    (ids : List Bytes) (id : Bytes) → has_alias_id ids id ≡ false → count id ids ≡ 0
unfolding has_alias_id
count-has_alias_id [] id h = refl
count-has_alias_id (x ∷ ids) id h = ground (arith, count-has_alias_id ids id)

pub count-append :
    (ids js : List Bytes) (id : Bytes) → count id (ids ++ js) ≡ count id ids + count id js
count-append [] js id = omega arith
count-append (x ∷ ids) js id = omega (arith, count-append ids js id)

has_alias_id-append :
    (ids : List Bytes) (id j : Bytes)
    → has_alias_id (ids ++ id ∷ []) j ≡ (beq j id || has_alias_id ids j)
unfolding has_alias_id
has_alias_id-append [] id j = ground arith
has_alias_id-append (x ∷ ids) id j = ground (arith, has_alias_id-append ids id j)

-- Adding an alias to an array with no repetitions leaves one with none, and adds that alias and
-- no other one.
pub add_alias_id_lem :
    (self : JcatItem) (id : Bytes)
    → IsAliasSet self.alias_ids
    → IsAliasSet (add_alias_id self id).alias_ids
      × ((j : Bytes)
          → has_alias_id (add_alias_id self id).alias_ids j
            ≡ (beq j id || has_alias_id self.alias_ids j))
unfolding add_alias_id
add_alias_id_lem self id h = (
  λ j. ground (
    arith,
    h j,
    count-has_alias_id self.alias_ids id,
    count-append self.alias_ids (id ∷ []) j,
    beq_iff j id,
  ),
  λ j. ground (arith, has_alias_id-append self.alias_ids id j, beq_iff j id),
)

count-remove_first : (ids : List Bytes) (id j : Bytes) → count j (remove_first ids id) ≤ count j ids
unfolding remove_first
count-remove_first [] id j = omega arith
count-remove_first (x ∷ ids) id j = ground (arith, count-remove_first ids id j)

has_alias_id-remove_first :
    (ids : List Bytes) (id j : Bytes)
    → count id ids ≤ 1
    → has_alias_id (remove_first ids id) j ≡ (not (beq j id) && has_alias_id ids j)
unfolding has_alias_id remove_first
has_alias_id-remove_first [] id j h = ground arith
has_alias_id-remove_first (x ∷ ids) id j h = ground (
  arith,
  has_alias_id-remove_first ids id j,
  has_alias_id-count ids id,
  beq_iff id x,
  beq_iff j x,
  beq_iff j id,
)

-- Of an array with no repetitions, removing an alias leaves one with none, and removes that alias
-- and no other one.
pub remove_alias_id_lem :
    (self : JcatItem) (id : Bytes)
    → IsAliasSet self.alias_ids
    → IsAliasSet (remove_alias_id self id).alias_ids
      × ((j : Bytes)
          → has_alias_id (remove_alias_id self id).alias_ids j
            ≡ (not (beq j id) && has_alias_id self.alias_ids j))
unfolding remove_alias_id
remove_alias_id_lem self id h = (
  λ j. omega (arith, h j, count-remove_first self.alias_ids id j),
  λ j. has_alias_id-remove_first self.alias_ids id j (h id),
)

pub beq_refl : (a : Bytes) → beq a a ≡ true
beq_refl a = (beq_iff a a).1 refl

remove_first-append :
    (ids : List Bytes) (id : Bytes)
    → has_alias_id ids id ≡ false
    → remove_first (ids ++ id ∷ []) id ≡ ids
unfolding has_alias_id remove_first
remove_first-append [] id h = rw (beq_refl id)
remove_first-append (x ∷ ids) id h = ground (arith, remove_first-append ids id)

-- Removing an alias that was just added, and was not there before, gives the item back.
remove_alias_id-add_alias_id :
    (self : JcatItem) (id : Bytes)
    → has_alias_id self.alias_ids id ≡ false
    → remove_alias_id (add_alias_id self id) id ≡ self
unfolding add_alias_id remove_alias_id
remove_alias_id-add_alias_id self id h = ground (arith, remove_first-append self.alias_ids id h)

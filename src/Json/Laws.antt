-- ===== src/Json/Laws.antt =====
-- What json-glib and GLib document of their calls, as far as the library relies on it: a builder
-- that is given the calls for a value makes a node that reads back as that value, and a document
-- that is written is read back.
use libjcat.Json.Interface.{JsonGlib, Base64}
use libjcat.Prelude.{
  Bool, true, Option, none, some, List, [], ◌∷◌, Bytes, beq, ℤ, ok, is_some, ◌≡◌, if◌then◌else◌,
}

-- The values that the library writes.
mutual
  pub data Value : Type 0 where
    int : ℤ → Value
    string : Bytes → Value
    array : Values → Value
    object : Members → Value

  pub data Values : Type 0 where
    nil : Values
    cons : Value → Values → Values

  pub data Members : Type 0 where
    end : Members
    member : Bytes → Value → Members → Members

-- The member of a name: the last one that was set.
abbrev pub find : Bytes → Members → Option Value
find name end = none
find name (member key v ms) =
    let here = if beq name key then some v else none in
    elim (find name ms) [ some w ↦ some w | none ↦ here ]

-- The nodes represent the values, one by one.
abbrev pub RepresentsEach : {N : Type 0} → (N → Value → Type 0) → List N → Values → Type 0
RepresentsEach P [] nil = Unit
RepresentsEach P (n ∷ ns) (cons v vs) = P n v × RepresentsEach P ns vs
RepresentsEach P _ _ = ⊥

-- Every string of the value satisfies a predicate.
abbrev mutual
  pub Strings : (Bytes → Type 0) → Value → Type 0
  Strings P (int i) = Unit
  Strings P (string s) = P s
  Strings P (array vs) = StringsEach P vs
  Strings P (object ms) = StringsMembers P ms

  pub StringsEach : (Bytes → Type 0) → Values → Type 0
  StringsEach P nil = Unit
  StringsEach P (cons v vs) = Strings P v × StringsEach P vs

  pub StringsMembers : (Bytes → Type 0) → Members → Type 0
  StringsMembers P end = Unit
  StringsMembers P (member key v ms) = Strings P v × StringsMembers P ms

module _ (json : JsonGlib) where
  open json use {
    Node, Builder, begin_object, end_object, begin_array, end_array, set_member_name, add_int_value,
    add_string_value, builder_new, get_root, has_member, get_int_member, get_string_member,
    get_array_member, get_elements, holds_object, holds_value, node_get_object, node_get_string,
    load_from_data, to_data, Array,
  }

  -- The calls that give a builder a value.
  unfoldable mutual
    pub emit : Value → Builder → Builder
    emit (int i) b = add_int_value i b
    emit (string s) b = add_string_value (some s) b
    emit (array vs) b = end_array (emit_values vs (begin_array b))
    emit (object ms) b = end_object (emit_members ms (begin_object b))

    pub emit_values : Values → Builder → Builder
    emit_values nil b = b
    emit_values (cons v vs) b = emit_values vs (emit v b)

    pub emit_members : Members → Builder → Builder
    emit_members end b = b
    emit_members (member key v ms) b = emit_members ms (emit v (set_member_name key b))

  pub record JsonLaws : Type 1 where
    pub Represents : Node → Value → Type 0
    -- the strings that a document can hold: those in valid UTF-8 with no NUL
    pub IsUtf8 : Bytes → Type 0
    pub built : (v : Value) → Strings IsUtf8 v → Represents (get_root (emit v builder_new)) v
    pub loaded :
        (pretty : Bool) (n : Node) (v : Value)
        → Represents n v
        → (m : Node) × (load_from_data (to_data pretty n) ≡ ok m) × Represents m v
    pub object_node : (n : Node) (ms : Members) → Represents n (object ms) → holds_object n ≡ true
    pub string_node :
        (n : Node) (s : Bytes)
        → Represents n (string s)
        → (holds_value n ≡ true) × (node_get_string n ≡ some s)
    pub member_present :
        (n : Node) (ms : Members) (name : Bytes)
        → Represents n (object ms)
        → has_member (node_get_object n) name ≡ is_some (find name ms)
    pub int_member :
        (n : Node) (ms : Members) (name : Bytes) (i : ℤ)
        → Represents n (object ms)
        → find name ms ≡ some (int i)
        → get_int_member (node_get_object n) name ≡ i
    pub string_member :
        (n : Node) (ms : Members) (name s : Bytes)
        → Represents n (object ms)
        → find name ms ≡ some (string s)
        → get_string_member (node_get_object n) name ≡ some s
    pub array_member :
        (n : Node) (ms : Members) (name : Bytes) (vs : Values)
        → Represents n (object ms)
        → find name ms ≡ some (array vs)
        → (a : Array) × (get_array_member (node_get_object n) name ≡ some a)
          × RepresentsEach Represents (get_elements a) vs

-- g_base64_decode undoes g_base64_encode, whose result is text.
pub record Base64Laws (base64 : Base64) : Type 0 where
  pub decode-encode : (bs : Bytes) → base64.decode (base64.encode bs) ≡ bs

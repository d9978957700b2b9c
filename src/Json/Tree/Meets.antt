-- ===== src/Json/Tree/Meets.antt =====
-- JSON trees with a stack of open frames meet what json-glib documents, and the identity meets what
-- GLib documents of Base64, so that the hypotheses on both can be met.
use libjcat.Json.Interface.{JsonGlib, Base64}
use libjcat.Json.Laws.{
  Value, int, string, array, object, Values, nil, cons, Members, end, member, find, emit,
  emit_values, emit_members, RepresentsEach, JsonLaws, Base64Laws,
}
use libjcat.Json.Tree.Build.{
  Building, Frame, in_object, in_array, put, put_into, open_frame, set_name, close_frame,
  add_string, append_value, append_member, append_values, append_members, append_values-nil,
  append_members-end, append_values-append_value, append_members-append_member,
}
use libjcat.Json.Tree.Document.{read, write, read-write}
use libjcat.Prelude.{
  Bool, true, false, Option, none, some, List, [], ◌∷◌, Bytes, ℤ, pos, is_some, ◌≡◌, refl, ap, ◌∙◌,
}

abbrev members_of : Value → Members
members_of (object ms) = ms
members_of _ = end

abbrev is_object : Value → Bool
is_object (object ms) = true
is_object _ = false

abbrev is_scalar : Value → Bool
is_scalar (int i) = true
is_scalar (string s) = true
is_scalar _ = false

abbrev string_of : Option Value → Option Bytes
string_of (some (string s)) = some s
string_of _ = none

abbrev int_of : Option Value → ℤ
int_of (some (int i)) = i
int_of _ = pos 0

abbrev values_of : Option Value → Option Values
values_of (some (array vs)) = some vs
values_of _ = none

abbrev pub elements : Values → List Value
elements nil = []
elements (cons v vs) = v ∷ elements vs

abbrev pub trees : JsonGlib
trees = record {
  Node = Value;
  Object = Value;
  Array = Values;
  Builder = Building;
  has_member = λ o name. is_some (find name (members_of o));
  get_int_member = λ o name. int_of (find name (members_of o));
  get_string_member = λ o name. string_of (find name (members_of o));
  get_array_member = λ o name. values_of (find name (members_of o));
  get_elements = elements;
  holds_object = is_object;
  holds_value = is_scalar;
  node_get_object = λ n. n;
  node_get_string = λ n. string_of (some n);
  builder_new = record { frames = []; root = string [] };
  begin_object = open_frame (in_object end []);
  end_object = close_frame;
  begin_array = open_frame (in_array nil);
  end_array = close_frame;
  set_member_name = set_name;
  add_int_value = λ i. put (int i);
  add_string_value = add_string;
  get_root = λ b. b.root;
  load_from_data = read;
  to_data = λ _. write;
}

mutual
  unfolding emit emit_values emit_members

  -- The calls for a value put it in the innermost frame.
  pub emit-put : (v : Value) (b : Building) → emit trees v b ≡ put v b
  emit-put (int i) b = refl
  emit-put (string s) b = refl
  emit-put (array vs) b = ap close_frame (emit_values-append vs nil b.frames b.root)
  emit-put (object ms) b = emit_members-append ms end [] b.frames b.root

  emit_values-append :
      (vs acc : Values) (fs : List Frame) (root : Value)
      → emit_values trees vs (record { frames = in_array acc ∷ fs; root = root })
        ≡ record { frames = in_array (append_values acc vs) ∷ fs; root = root }
  emit_values-append nil acc fs root = rw (append_values-nil acc)
  emit_values-append (cons v vs) acc fs root = rw (
    emit-put v (record { frames = in_array acc ∷ fs; root = root }),
    emit_values-append vs (append_value acc v) fs root,
    append_values-append_value acc vs v,
  )

  emit_members-append :
      (ms acc : Members) (name : Bytes) (fs : List Frame) (root : Value)
      → close_frame
          (emit_members trees ms (record { frames = in_object acc name ∷ fs; root = root }))
        ≡ put_into fs root (object (append_members acc ms))
  emit_members-append end acc name fs root = rw (append_members-end acc)
  emit_members-append (member key v ms) acc name fs root =
      ap (λ b. close_frame (emit_members trees ms b))
        (emit-put v (record { frames = in_object acc key ∷ fs; root = root }))
      ∙ emit_members-append ms (append_member acc key v) key fs root
      ∙ ap (λ ms. put_into fs root (object ms)) (append_members-append_member acc ms key v)

pub represents_elements : (vs : Values) → RepresentsEach (λ (n v : Value). n ≡ v) (elements vs) vs
represents_elements nil = tt
represents_elements (cons v vs) = (refl, represents_elements vs)

abbrev pub trees_laws : JsonLaws trees
trees_laws = record {
  Represents = λ n v. n ≡ v;
  IsUtf8 = λ s. Unit;
  built = λ v _. rw (emit-put v (record { frames = []; root = string [] }));
  loaded = λ pretty n v same. (v, rw (read-write n, same), refl);
  object_node = λ n ms same. rw (same);
  string_node = λ n s same. (rw (same), rw (same));
  member_present = λ n ms name same. rw (same);
  int_member = λ n ms name i same found. rw (same, found);
  string_member = λ n ms name s same found. rw (same, found);
  array_member = λ n ms name vs same found. (vs, rw (same, found), represents_elements vs);
}

abbrev pub plain : Base64
plain = record { encode = λ bs. bs; decode = λ bs. bs }

abbrev pub plain_laws : Base64Laws plain
plain_laws = record { decode-encode = λ bs. refl }

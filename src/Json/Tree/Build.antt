-- ===== src/Json/Tree/Build.antt =====
-- A builder with a stack of the objects and arrays that are open.
use libjcat.Json.Laws.{Value, string, array, object, Values, nil, cons, Members, end, member}
use libjcat.Prelude.{List, [], ◌∷◌, Option, none, some, Bytes, ◌≡◌, refl, ap}

abbrev pub append_value : Values → Value → Values
append_value nil v = cons v nil
append_value (cons w vs) v = cons w (append_value vs v)

abbrev pub append_member : Members → Bytes → Value → Members
append_member end name v = member name v end
append_member (member key w ms) name v = member key w (append_member ms name v)

-- An object that is open, with the name that waits for a value, or an array that is open.
pub data Frame : Type 0 where
  in_object : Members → Bytes → Frame
  in_array : Values → Frame

pub record Building : Type 0 where
  pub frames : List Frame
  pub root : Value

abbrev pub put_into : List Frame → Value → Value → Building
put_into [] root v = record { frames = []; root = v }
put_into (in_object ms name ∷ fs) root v = record {
  frames = in_object (append_member ms name v) name ∷ fs;
  root = root;
}
put_into (in_array vs ∷ fs) root v = record {
  frames = in_array (append_value vs v) ∷ fs;
  root = root;
}

-- A value comes: it goes to the innermost frame, or is the root.
abbrev pub put : Value → Building → Building
put v b = put_into b.frames b.root v

abbrev pub open_frame : Frame → Building → Building
open_frame f b = record b { frames = f ∷ b.frames }

abbrev pub name_into : List Frame → Bytes → List Frame
name_into (in_object ms _ ∷ fs) name = in_object ms name ∷ fs
name_into fs name = fs

abbrev pub set_name : Bytes → Building → Building
set_name name b = record b { frames = name_into b.frames name }

abbrev pub close_frames : List Frame → Value → Building
close_frames [] root = record { frames = []; root = root }
close_frames (in_object ms _ ∷ fs) root = put_into fs root (object ms)
close_frames (in_array vs ∷ fs) root = put_into fs root (array vs)

abbrev pub close_frame : Building → Building
close_frame b = close_frames b.frames b.root

abbrev pub add_string : Option Bytes → Building → Building
add_string none b = put (string []) b
add_string (some s) b = put (string s) b

abbrev pub append_values : Values → Values → Values
append_values nil ws = ws
append_values (cons v vs) ws = cons v (append_values vs ws)

abbrev pub append_members : Members → Members → Members
append_members end ns = ns
append_members (member key v ms) ns = member key v (append_members ms ns)

pub append_values-nil : (vs : Values) → append_values vs nil ≡ vs
append_values-nil nil = refl
append_values-nil (cons v vs) = ap (cons v) (append_values-nil vs)

pub append_members-end : (ms : Members) → append_members ms end ≡ ms
append_members-end end = refl
append_members-end (member key v ms) = ap (member key v) (append_members-end ms)

pub append_values-append_value :
    (vs ws : Values) (v : Value)
    → append_values (append_value vs v) ws ≡ append_values vs (cons v ws)
append_values-append_value nil ws v = refl
append_values-append_value (cons w vs) ws v = ap (cons w) (append_values-append_value vs ws v)

pub append_members-append_member :
    (ms ns : Members) (name : Bytes) (v : Value)
    → append_members (append_member ms name v) ns ≡ append_members ms (member name v ns)
append_members-append_member end ns name v = refl
append_members-append_member (member key w ms) ns name v =
    ap (member key w) (append_members-append_member ms ns name v)

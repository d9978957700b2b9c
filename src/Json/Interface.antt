-- ===== src/Json/Interface.antt =====
-- The calls that libjcat/jcat-blob.c, libjcat/jcat-item.c and libjcat/jcat-file.c make of
-- json-glib and of g_base64_encode and g_base64_decode.
use libjcat.Prelude.{Bool, Option, List, Bytes, ℤ, Result}

pub record JsonGlib : Type 1 where
  pub Node : Type 0
  pub Object : Type 0
  pub Array : Type 0
  pub Builder : Type 0
  -- json_object_has_member, json_object_get_int_member and so on
  pub has_member : Object → Bytes → Bool
  pub get_int_member : Object → Bytes → ℤ
  pub get_string_member : Object → Bytes → Option Bytes
  pub get_array_member : Object → Bytes → Option Array
  -- json_array_get_elements
  pub get_elements : Array → List Node
  -- JSON_NODE_HOLDS_OBJECT, JSON_NODE_HOLDS_VALUE
  pub holds_object : Node → Bool
  pub holds_value : Node → Bool
  -- json_node_get_object, json_node_get_string
  pub node_get_object : Node → Object
  pub node_get_string : Node → Option Bytes
  -- json_builder_new and the other calls on a builder, each with the builder last
  pub builder_new : Builder
  pub begin_object : Builder → Builder
  pub end_object : Builder → Builder
  pub begin_array : Builder → Builder
  pub end_array : Builder → Builder
  pub set_member_name : Bytes → Builder → Builder
  pub add_int_value : ℤ → Builder → Builder
  pub add_string_value : Option Bytes → Builder → Builder
  pub get_root : Builder → Node
  -- json_parser_load_from_data with json_parser_get_root, and json_generator_to_data, whose
  -- argument tells whether json_generator_set_pretty was given TRUE
  pub load_from_data : Bytes → Result Node
  pub to_data : Bool → Node → Bytes

pub record Base64 : Type 0 where
  pub encode : Bytes → Bytes
  pub decode : Bytes → Bytes

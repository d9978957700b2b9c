-- ===== src/Tool/Menu.antt =====
-- libjcat/jcat-tool.c: FuUtilItem, `jcat_tool_add`, `jcat_tool_get_descriptions` and
-- `jcat_tool_run`, in the untranslated locale. `g_strsplit` at a comma is a parameter.
use libjcat.Engine.{Action}
use libjcat.Prelude.{
  ℕ, ◌+◌, ◌-◌, Option, none, some, List, [], ◌∷◌, ◌++◌, Bytes, codes, length, ltb, strcmp0_eq,
  replicate, if◌then◌else◌,
}
use libjcat.System.{fail}
use libjcat.Tool.{Tool, failure}

-- FuUtilPrivateCb.
abbrev pub Callback : Type 0 → Type 0
Callback World = List Bytes → Action (Tool World) (Unit {0})

pub record FuUtilItem (World : Type 0) : Type 0 where
  pub name : Bytes
  pub arguments : Option Bytes
  pub description : Bytes
  pub callback : Callback World

-- `max_len`.
abbrev pub max_len : ℕ
max_len = 31

abbrev pub spaces : ℕ → Bytes
spaces n = replicate n 32

abbrev pub newline : Bytes
newline = 10 ∷ []

abbrev pub and_arguments : Option Bytes → Bytes
and_arguments none = []
and_arguments (some arguments) = codes " " ++ arguments

-- "remove trailing newline", where there is one.
unfoldable pub remove_trailing : Bytes → Bytes
remove_trailing [] = []
remove_trailing (c ∷ []) = []
remove_trailing (c ∷ d ∷ cs) = c ∷ remove_trailing (d ∷ cs)

module _ {World : Type 0} where
  -- The loop of `jcat_tool_add` behind its first turn.
  unfoldable pub add_aliases :
      Bytes → Option Bytes → Callback World → List Bytes → List (FuUtilItem World)
  add_aliases first arguments callback [] = []
  add_aliases first arguments callback (name ∷ names) =
      record {
        name = name;
        arguments = arguments;
        description = codes "Alias to " ++ first;
        callback = callback;
      }
      ∷ add_aliases first arguments callback names

  -- "add each one": the first name has the description.
  unfoldable pub add_names :
      List Bytes → Option Bytes → Bytes → Callback World → List (FuUtilItem World)
  unfolding add_aliases
  add_names [] arguments description callback = []
  add_names (first ∷ names) arguments description callback =
      record { name = first; arguments = arguments; description = description; callback = callback }
      ∷ add_aliases first arguments callback names

  -- `jcat_tool_add`.
  unfoldable pub add :
      (Bytes → List Bytes)
      → List (FuUtilItem World)
      → Bytes
      → Option Bytes
      → Bytes
      → Callback World
      → List (FuUtilItem World)
  unfolding add_names
  add split_commas array name arguments description callback =
      array ++ add_names (split_commas name) arguments description callback

  -- What stands in front of the description of a command, which is as long as `len`.
  abbrev pub synopsis : FuUtilItem World → Bytes
  synopsis item = codes "  " ++ (item.name ++ and_arguments item.arguments)

  -- "print each command".
  unfoldable pub describe : FuUtilItem World → Bytes
  describe item =
      let len = length (synopsis item) in
      if ltb len max_len
      then synopsis item ++ (spaces (max_len + 1 - len) ++ (item.description ++ newline))
      else synopsis item ++ (newline ++ (spaces (max_len + 1) ++ (item.description ++ newline)))

  unfoldable pub describe_all : List (FuUtilItem World) → Bytes
  unfolding describe
  describe_all [] = []
  describe_all (item ∷ items) = describe item ++ describe_all items

  -- `jcat_tool_get_descriptions`.
  unfoldable pub get_descriptions : List (FuUtilItem World) → Bytes
  unfolding describe_all remove_trailing
  get_descriptions array = remove_trailing (describe_all array)

  -- `jcat_tool_run`; a command that was not given is NULL.
  unfoldable pub run :
      List (FuUtilItem World) → Option Bytes → List Bytes → Action (Tool World) (Unit {0})
  run [] command values = fail (failure (codes "Command not found"))
  run (item ∷ items) command values =
      let rest = run items command values in
      if strcmp0_eq (some item.name) command then item.callback values else rest

-- ===== src/Tool.antt =====
-- libjcat/jcat-tool.c: the state of the command line tool, and what its commands share. The arrays
-- of arguments are lists, the name of a command not among them.
pub mod Detect
pub mod Aliases
pub mod Signing
pub mod Writing
pub mod Verify
pub mod Sources
pub mod Accepts
pub mod AllItems
pub mod Menu
pub mod Main
use libjcat.Context.{JcatContext, Session}
use libjcat.Engine.{Action}
use libjcat.File.Import.{Outcome}
use libjcat.File.Store.{store_item}
use libjcat.File.Streams.{import_file, export_file}
use libjcat.File.{new, JcatFile, add_item, get_item_by_id}
use libjcat.Item.{JcatItem, printed}
pub use libjcat.Item.{printed}
use libjcat.Json.{JsonGlib, Base64}
use libjcat.Kind.{JcatBlobKind}
use libjcat.Prelude.{
  ◌∷◌, ◌++◌, ◌==◌, ◌&&◌, ◌||◌, ℕ, Bool, Option, none, some, List, [], Bytes, codes, Error, failed,
  Result, ok, err, if◌then◌else◌,
}
use libjcat.System.{Gio, pure}

-- JcatToolPrivate, without the commands and the object that cancels.
pub record JcatToolPrivate (World : Type 0) : Type 0 where
  pub context : JcatContext World
  pub basename : Bool
  pub disable_time_checks : Bool
  pub only_pq : Bool
  pub prefix : Bytes
  pub appstream_id : Option Bytes
  pub kind : JcatBlobKind
  pub target : JcatBlobKind

-- The tool with the world around it.
pub record Tool (World : Type 0) : Type 0 where
  pub priv : JcatToolPrivate World
  pub world : World

-- The letters of %s, %i, %u and %x.
abbrev is_conversion : ℕ → Bool
is_conversion d = d == 115 || d == 105 || d == 117 || d == 120

-- The message of an error: the values, in text, stand at the places of its conversions.
abbrev fill : Bytes → List Bytes → Bytes
fill [] values = []
fill (c ∷ []) values = c ∷ []
fill (c ∷ d ∷ cs) [] = c ∷ d ∷ cs
fill (c ∷ d ∷ cs) (value ∷ values) =
    let here = value ++ fill cs values in
    let later = c ∷ fill (d ∷ cs) (value ∷ values) in
    if c == 37 && is_conversion d then here else later

abbrev pub error_text : Error → Bytes
error_text e = fill e.message e.values

abbrev pub failure : Bytes → Error
failure message = record { code = failed; message = message; values = [] }

module _ {World : Type 0} where
  abbrev back : {A : Type 0} → Tool World → Result A × World → Result A × Tool World
  back t (result, w) = (result, record t { world = w })

  -- An action on the world outside the tool.
  abbrev pub on_world : {A : Type 0} → Action World A → Action (Tool World) A
  on_world action t = back t (action t.world)

  abbrev back_session : {A : Type 0} → Tool World → Result A × Session World → Result A × Tool World
  back_session t (result, s) =
      (result, record { priv = record t.priv { context = s.context }; world = s.world })

  -- An action on the context of the tool and the world.
  abbrev pub on_session : {A : Type 0} → Action (Session World) A → Action (Tool World) A
  on_session action t =
      back_session t (action (record { context = t.priv.context; world = t.world }))

  module _ (gio : Gio World) where
    abbrev pub print : Bytes → Action (Tool World) (Unit {0})
    print text t = (ok tt, record t { world = gio.print text t.world })

    -- `jcat_tool_import_convert_id_safe`.
    unfoldable pub import_convert_id_safe : JcatToolPrivate World → Bytes → Bytes
    import_convert_id_safe priv filename =
        if priv.basename then gio.path_get_basename filename else filename

    module _ (json : JsonGlib) (base64 : Base64) (clock : ℕ → ℕ) where
      abbrev kept : Outcome × World → Result JcatFile × World
      kept ((ok _, file), w) = (ok file, w)
      kept ((err e, file), w) = (err e, w)

      -- A new file, with what `jcat_file_import_file` adds.
      unfoldable pub load_file : Bytes → Action (Tool World) JcatFile
      unfolding import_file
      load_file gfile = on_world (λ w. kept (import_file gio json base64 clock gfile new w))

      -- "import existing file".
      unfoldable pub load_existing : Bytes → Action (Tool World) JcatFile
      unfolding load_file
      load_existing gfile t = if gio.exists gfile t.world then load_file gfile t else pure new t

    -- "export new file".
    unfoldable pub save_file : JsonGlib → Base64 → JcatFile → Bytes → Action (Tool World) (Unit {0})
    unfolding export_file
    save_file json base64 file gfile = on_world (export_file gio json base64 file gfile 0)

-- An item of a file, with the file that a change of the item gives.
pub record Slot : Type 0 where
  pub item : JcatItem
  pub put : JcatItem → JcatFile

abbrev slot_of : JcatFile → Bytes → Result JcatItem → Slot
slot_of file id (ok item) = record { item = item; put = store_item file id }
slot_of file id (err e) = record { item = libjcat.Item.new id; put = add_item file }

-- "create item if required": also where the lookup fails because several items match.
unfoldable pub item_or_new : JcatFile → Bytes → Slot
unfolding get_item_by_id store_item add_item libjcat.Item.new
item_or_new file id = slot_of file id (get_item_by_id file id)

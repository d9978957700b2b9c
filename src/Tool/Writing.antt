-- ===== src/Tool/Writing.antt =====
-- libjcat/jcat-tool.c: `jcat_tool_export`, which writes every blob to a file of its own.
use libjcat.Blob.{JcatBlob}
use libjcat.Engine.{Action}
use libjcat.Item.{JcatItem}
use libjcat.Json.{JsonGlib, Base64}
use libjcat.Kind.{JcatBlobKind, unknown, to_filename_ext}
use libjcat.Prelude.{
  ℕ, Bool, not, ◌&&◌, Option, none, some, List, [], ◌∷◌, ◌++◌, Bytes, codes, ◌==◌, if◌then◌else◌,
}
use libjcat.System.Contents.{set_contents_bytes}
use libjcat.System.{Gio, pure, fail, ◌>>=◌, ◌>>◌}
use libjcat.Tool.{printed, Tool, failure, on_world, print, load_file}

-- g_string_new, of a NULL too.
abbrev string_new : Option Bytes → Bytes
string_new none = []
string_new (some text) = text

abbrev dashed : Option Bytes → Bytes
dashed none = []
dashed (some appstream_id) = codes "-" ++ appstream_id

-- The name of the file that a blob is written to.
unfoldable pub export_name : Option Bytes → JcatBlob → Bytes
unfolding to_filename_ext
export_name id blob =
    string_new id
    ++ (dashed blob.appstream_id ++ (codes "." ++ printed (to_filename_ext blob.kind)))

-- The test of the two loops over blobs.
unfoldable pub skips : JcatBlobKind → JcatBlob → Bool
skips kind blob = not (kind == unknown) && not (kind == blob.kind)

module _ {World : Type 0} (gio : Gio World) where
  -- g_bytes_get_data of a NULL fails a precondition and leaves the size as it was, which is not set:
  -- here it is zero.
  abbrev data_of : Option Bytes → Bytes
  data_of none = []
  data_of (some bytes) = bytes

  -- "export", with the mode 0666.
  unfoldable pub write_blob : Bytes → Option Bytes → JcatBlob → Action (Tool World) (Unit {0})
  unfolding export_name set_contents_bytes
  write_blob prefix id blob = do
    let fn = gio.build_filename (prefix ∷ export_name id blob ∷ [])
    on_world (set_contents_bytes gio fn (data_of blob.data_bytes) 438)
    print gio (codes "Wrote " ++ (fn ++ codes "\n"))

  -- The inner loop.
  unfoldable pub write_blobs :
      Bytes → JcatBlobKind → Option Bytes → List JcatBlob → Action (Tool World) (Unit {0})
  unfolding write_blob skips
  write_blobs prefix kind id [] = pure tt
  write_blobs prefix kind id (blob ∷ blobs) =
      let rest = write_blobs prefix kind id blobs in
      if skips kind blob then rest else write_blob prefix id blob >> rest

  -- The outer loop.
  unfoldable pub write_items : Bytes → JcatBlobKind → List JcatItem → Action (Tool World) (Unit {0})
  unfolding write_blobs
  write_items prefix kind [] = pure tt
  write_items prefix kind (item ∷ items) =
      write_blobs prefix kind item.id item.blobs >> write_items prefix kind items

  -- `jcat_tool_export`.
  unfoldable pub export : JsonGlib → Base64 → (ℕ → ℕ) → List Bytes → Action (Tool World) (Unit {0})
  unfolding load_file write_items
  export json base64 clock (filename ∷ []) t =
      (do
        file ← load_file gio json base64 clock filename
        write_items t.priv.prefix t.priv.kind file.items)
        t
  export json base64 clock _ t = fail (failure (codes "Invalid arguments, expected FILENAME")) t

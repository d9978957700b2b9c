-- ===== src/Tool/Verify.antt =====
-- libjcat/jcat-tool.c: `jcat_tool_verify_item` and `jcat_tool_verify`.
use libjcat.Blob.{JcatBlob}
use libjcat.Context.{verify_blob}
use libjcat.Engine.{Action}
use libjcat.File.{get_item_by_id}
use libjcat.Item.{JcatItem, get_blob_by_kind}
use libjcat.Json.{JsonGlib, Base64}
use libjcat.Kind.{JcatBlobKind, unknown, to_string}
use libjcat.Context.{Session}
use libjcat.Engine.{precondition}
use libjcat.Prelude.{
  not, false, ◌&&◌, Code, map, ℕ, ◌+◌, Bool, true, Option, none, some, List, [], ◌∷◌, ◌++◌, Bytes,
  codes, Error, not_found, invalid_data, Result, ok, err, ◌==◌, if◌then◌else◌,
}
use libjcat.Result.{JcatResult}
use libjcat.System.Contents.{get_contents_bytes}
use libjcat.System.{Gio, pure, fail, lift, ◌>>=◌, ◌>>◌}
use libjcat.Tool.Writing.{skips}
use libjcat.Tool.{
  failure, print, load_file, import_convert_id_safe, on_session, printed, error_text,
  JcatToolPrivate, Tool, on_world,
}

-- g_string_append adds nothing for a NULL.
abbrev appended : Option Bytes → Bytes
appended none = []
appended (some text) = text

-- `kind_str`: the kind, and the target if there is one.
unfoldable pub kind_str : JcatBlob → Bytes
unfolding to_string
kind_str blob =
    appended (to_string blob.kind)
    ++ (if not (blob.target == unknown)
        then codes "-of-" ++ printed (to_string blob.target)
        else [])

-- JCAT_VERIFY_FLAG_DISABLE_TIME_CHECKS and JCAT_VERIFY_FLAG_ONLY_PQ.
abbrev pub verify_flags : {World : Type 0} → JcatToolPrivate World → ℕ
verify_flags priv = (if priv.disable_time_checks then 4 else 0) + (if priv.only_pq then 32 else 0)

abbrev pub validation_failed : Error
validation_failed = record { code = invalid_data; message = codes "Validation failed"; values = [] }

-- g_strjoinv with " or ": the parts with it between them. The array that the code passes has no NULL at
-- its end, behind which nothing may be read.
abbrev pub join_or : List Bytes → Bytes
join_or [] = []
join_or (part ∷ []) = part
join_or (part ∷ more ∷ parts) = part ++ (codes " or " ++ join_or (more ∷ parts))

abbrev could_not_find : List Bytes → Error
could_not_find names = record {
  code = not_found;
  message = codes "Could not find %s";
  values = join_or names ∷ [];
}

-- g_build_filename stops at a NULL.
abbrev path_of : Bytes → Option Bytes → List Bytes
path_of prefix none = prefix ∷ []
path_of prefix (some name) = prefix ∷ name ∷ []

module _ {World : Type 0} (gio : Gio World) where
  -- `fns_possible`.
  unfoldable pub possible : Bytes → JcatItem → List Bytes
  possible prefix item =
      gio.build_filename (path_of prefix item.id)
      ∷ map (λ alias_id. gio.build_filename (prefix ∷ alias_id ∷ [])) item.alias_ids

  -- The loop that looks for a file that exists.
  unfoldable pub first_existing : List Bytes → World → Option Bytes
  first_existing [] w = none
  first_existing (fn ∷ fns) w =
      let rest = first_existing fns w in if gio.exists fn w then some fn else rest

  abbrev pub or_not_found : List Bytes → Option Bytes → Result Bytes
  or_not_found names none = err (could_not_find names)
  or_not_found names (some fn) = ok fn

  -- "find the source" and "load source".
  unfoldable pub find_source : JcatItem → Action (Tool World) Bytes
  unfolding possible first_existing get_contents_bytes
  find_source item t =
      (do
        let names = possible t.priv.prefix item
        fn_safe ← lift (or_not_found names (first_existing names t.world))
        on_world (get_contents_bytes gio fn_safe))
        t

  -- How the verification of a blob ends: whether `ret` stays TRUE, and what is printed.
  abbrev pub is_not_found : Code → Bool
  is_not_found not_found = true
  is_not_found _ = false

  abbrev pub line : Bytes → Bytes → Bytes → Bytes
  line word kind text =
      codes "    " ++ (word ++ (codes " " ++ (kind ++ (codes ": " ++ (text ++ codes "\n")))))

  abbrev authority_or : Option Bytes → Bytes
  authority_or none = codes "OK"
  authority_or (some authority) = authority

  unfoldable pub report : Bytes → Result JcatResult → Bytes
  report kind (ok result) = line (codes "PASSED") kind (authority_or result.authority)
  report kind (err e) =
      line (if is_not_found e.code then codes "SKIPPED" else codes "FAILED") kind (error_text e)

  unfoldable pub tolerated : Result JcatResult → Bool
  tolerated (ok result) = true
  tolerated (err e) = is_not_found e.code

  -- A verification whose failure does not end the loop.
  module _ (undefined_shift : ℕ → JcatBlobKind → Bool) where
    -- "get correct source"; the data of a blob may be NULL.
    unfoldable pub blob_source : JcatItem → Bytes → JcatBlob → Result (Option Bytes)
    blob_source item source blob =
        if blob.target == unknown
        then ok (some source)
        else elim (get_blob_by_kind item blob.target) [
          | err e ↦ err e
          | ok blob_target ↦ ok blob_target.data_bytes
        ]

    -- The verification with its precondition; where that fails the code goes on to read the message
    -- of an error that was not set.
    unfoldable pub verify_source :
        Option Bytes → JcatBlob → ℕ → Session World → Result JcatResult × Session World
    unfolding verify_blob
    verify_source none blob flags s = (err precondition, s)
    verify_source (some bytes) blob flags s = verify_blob undefined_shift bytes blob flags s

    -- A failure of the verification is no failure of the step.
    abbrev pub reported : Bytes → Result JcatResult × Tool World → Result Bool × Tool World
    reported kind (result, t) =
        (ok (tolerated result), record t { world = gio.print (report kind result) t.world })

    -- The body of the loop "verify blob", behind the test of the kind: whether the blob did not fail.
    unfoldable pub check_blob : JcatItem → Bytes → JcatBlob → Action (Tool World) Bool
    unfolding blob_source kind_str verify_source report tolerated
    check_blob item source blob t =
        (do
          bytes ← lift (blob_source item source blob)
          λ v.
              reported (kind_str blob)
                (on_session (verify_source bytes blob (verify_flags t.priv)) v))
          t

    -- The loop "verify blob", from a value of `ret` on.
    unfoldable pub check_blobs : JcatItem → Bytes → List JcatBlob → Bool → Action (Tool World) Bool
    unfolding check_blob skips
    check_blobs item source [] ret t = pure ret t
    check_blobs item source (blob ∷ blobs) ret t = elim (skips t.priv.kind blob) [
      | true ↦ check_blobs item source blobs ret t
      | false ↦
          (do passed ← check_blob item source blob; check_blobs item source blobs (ret && passed)) t
    ]

    abbrev pub concluded : Bool → Action (Tool World) (Unit {0})
    concluded ret = if not ret then fail validation_failed else pure tt

    -- `jcat_tool_verify_item`.
    unfoldable pub verify_item : JcatItem → Action (Tool World) (Unit {0})
    unfolding find_source check_blobs
    verify_item item = do
      print gio (printed item.id ++ codes ":\n")
      source ← find_source item
      ret ← check_blobs item source item.blobs true
      concluded ret

    -- Go on behind a failure, which is printed.
    abbrev pub failures_printed : Bool → Result (Unit {0}) × Tool World → Result Bool × Tool World
    failures_printed ret (ok _, t) = (ok ret, t)
    failures_printed ret (err e, t) = (
      ok false,
      record t { world = gio.print (codes "    FAILED: " ++ (error_text e ++ codes "\n")) t.world },
    )

    -- The loop "verify each file".
    unfoldable pub verify_items : List JcatItem → Bool → Action (Tool World) Bool
    unfolding verify_item
    verify_items [] ret = pure ret
    verify_items (item ∷ items) ret = do
      now ← (λ t. failures_printed ret (verify_item item t))
      verify_items items now

    -- `jcat_tool_verify`.
    unfoldable pub verify :
        JsonGlib → Base64 → (ℕ → ℕ) → List Bytes → Action (Tool World) (Unit {0})
    unfolding load_file import_convert_id_safe get_item_by_id verify_items
    verify json base64 clock [] t =
        fail (failure (codes "Invalid arguments, expected FILENAME [SOURCE]")) t
    verify json base64 clock (filename ∷ []) t =
        (do
          file ← load_file gio json base64 clock filename
          ret ← verify_items file.items true
          concluded ret)
          t
    verify json base64 clock (filename ∷ source_name ∷ _) t =
        (do
          file ← load_file gio json base64 clock filename
          item ← lift (get_item_by_id file (import_convert_id_safe gio t.priv source_name))
          verify_item item)
          t

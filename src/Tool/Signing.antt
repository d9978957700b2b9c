-- ===== src/Tool/Signing.antt =====
-- libjcat/jcat-tool.c: `jcat_tool_import`, `jcat_tool_self_sign` and `jcat_tool_sign`.
-- `g_str_has_suffix` and the time at which a blob is made are parameters.
use libjcat.Blob.{JcatBlob, new_full, set_appstream_id, set_target}
use libjcat.Context.{get_engine, settle}
use libjcat.Engine.{Action, JcatEngine, Ran, pubkey_sign, precondition}
use libjcat.Engine
use libjcat.Prelude.{
  ℕ, zero, suc, Bool, not, Option, none, some, List, [], ◌∷◌, ◌++◌, Bytes, codes, Error, failed,
  Result, ok, err, ◌==◌, if◌then◌else◌,
}
use libjcat.Item.{JcatItem, add_blob, get_blob_by_kind}
use libjcat.Json.{JsonGlib, Base64}
use libjcat.Kind.{JcatBlobKind, unknown, pkcs7, to_filename_ext}
use libjcat.System.Contents.{get_contents_bytes}
use libjcat.System.{Gio, pure, fail, lift, ◌>>=◌, ◌>>◌}
use libjcat.Tool.Detect.{Format, detect}
use libjcat.Tool.{
  JcatToolPrivate, Tool, failure, on_world, on_session, import_convert_id_safe, load_existing,
  save_file, item_or_new,
}

-- The file extensions from one kind on, each with a comma behind it.
abbrev extensions : ℕ → JcatBlobKind → Bytes
extensions zero kind = []
extensions (suc more) kind =
    (elim (to_filename_ext kind) [ none ↦ [] | some ext ↦ ext ++ codes "," ])
    ++ extensions more (suc kind)

abbrev pub without_last : Bytes → Bytes
without_last [] = []
without_last (c ∷ []) = []
without_last (c ∷ d ∷ cs) = c ∷ without_last (d ∷ cs)

abbrev no_format : Error
no_format = record {
  code = failed;
  message = codes "Cannot detect blob kind from extension, expected %s";
  values = without_last (extensions 11 1) ∷ [];
}

abbrev detected : Option Format → Result Format
detected none = err no_format
detected (some format) = ok format

-- The test for a NULL appstream ID, and for a target.
abbrev pub with_appstream_id : Option Bytes → JcatBlob → JcatBlob
with_appstream_id none blob = blob
with_appstream_id (some id) blob = set_appstream_id blob (some id)

abbrev pub with_target : JcatBlobKind → JcatBlob → JcatBlob
with_target target blob = if not (target == unknown) then set_target blob target else blob

-- A NULL where bytes are asked for fails a precondition.
abbrev no_null : Option Bytes → Result Bytes
no_null none = err precondition
no_null (some bytes) = ok bytes

module _ {World : Type 0} where
  -- The state of the tool.
  abbrev ask : Action (Tool World) (JcatToolPrivate World)
  ask t = (ok t.priv, t)

  -- The kind that is signed with by default.
  abbrev default_kind : Action (Tool World) (Unit {0})
  default_kind t = (
    ok tt,
    record t {
      priv = record t.priv { kind = if t.priv.kind == unknown then pkcs7 else t.priv.kind };
    },
  )

  module _ (gio : Gio World) where
    -- "load source" of a target: the data of the item's blob of that kind.
    abbrev target_source : Result JcatBlob → Action (Tool World) (Option Bytes)
    target_source (err e) = fail e
    target_source (ok blob_target) = pure blob_target.data_bytes

    abbrev some_bytes : Action (Tool World) Bytes → Action (Tool World) (Option Bytes)
    some_bytes action = do bytes ← action; pure (some bytes)

    -- "load source".
    unfoldable pub load_source : JcatItem → Bytes → Action (Tool World) (Option Bytes)
    unfolding get_contents_bytes get_blob_by_kind
    load_source item filename t =
        (if t.priv.target == unknown
            then some_bytes (on_world (get_contents_bytes gio filename))
            else target_source (get_blob_by_kind item t.priv.target))
          t

  module _ (undefined_shift : ℕ → JcatBlobKind → Bool) where
    -- The engine for the kind of the tool makes a blob.
    unfoldable pub sign_with :
        (List Bytes → JcatEngine World → World → Ran World JcatBlob) → Action (Tool World) JcatBlob
    unfolding get_engine
    sign_with operation t = elim (get_engine undefined_shift t.priv.context t.priv.kind) [
      | err e ↦ (err e, t)
      | ok engine ↦
          on_session
            (λ s. settle s.context t.priv.kind (operation s.context.public_keys engine s.world)) t
    ]

  module _ (gio : Gio World) (json : JsonGlib) (base64 : Base64) (clock : ℕ → ℕ) where
    -- `jcat_tool_import`.
    unfoldable pub import : (Bytes → Bytes → Bool) → ℕ → List Bytes → Action (Tool World) (Unit {0})
    unfolding load_existing get_contents_bytes detect new_full import_convert_id_safe item_or_new
        set_appstream_id add_blob save_file
    import has_suffix real_time (filename ∷ source ∷ key ∷ []) = do
      file ← load_existing gio json base64 clock filename
      data_sig ← on_world (get_contents_bytes gio key)
      format ← lift (detected (detect (has_suffix key)))
      priv ← ask
      let slot = item_or_new file (import_convert_id_safe gio priv source)
      let blob = new_full real_time format.kind data_sig format.flags
      save_file gio json base64
          (slot.put (add_blob slot.item (with_appstream_id priv.appstream_id blob))) filename
    import has_suffix real_time _ =
        fail (failure (codes "Invalid arguments, expected FILENAME DATA DETACHED_KEY"))

    -- `jcat_tool_self_sign`; JCAT_SIGN_FLAG_USE_PQ is 4.
    unfoldable pub self_sign :
        (ℕ → JcatBlobKind → Bool) → List Bytes → Action (Tool World) (Unit {0})
    unfolding load_existing import_convert_id_safe item_or_new load_source sign_with
        libjcat.Engine.self_sign set_appstream_id set_target add_blob save_file
    self_sign undefined_shift (filename ∷ source_name ∷ []) = do
      file ← load_existing gio json base64 clock filename
      priv ← ask
      let slot = item_or_new file (import_convert_id_safe gio priv source_name)
      source ← load_source gio slot.item source_name
      default_kind
      bytes ← lift (no_null source)
      blob ← sign_with undefined_shift (λ keys engine.
          libjcat.Engine.self_sign keys engine bytes (if priv.only_pq then 4 else 0))
      save_file gio json base64
          (slot.put (
            add_blob slot.item
              (with_target priv.target (with_appstream_id priv.appstream_id blob))))
          filename
    self_sign undefined_shift _ =
        fail (failure (codes "Invalid arguments, expected FILENAME SOURCE"))

    -- `jcat_tool_sign`; JCAT_SIGN_FLAG_ADD_TIMESTAMP and JCAT_SIGN_FLAG_ADD_CERT are 3.
    unfoldable pub sign : (ℕ → JcatBlobKind → Bool) → List Bytes → Action (Tool World) (Unit {0})
    unfolding load_existing import_convert_id_safe item_or_new load_source sign_with
        get_contents_bytes pubkey_sign set_appstream_id set_target add_blob save_file
    sign undefined_shift (filename ∷ source_name ∷ cert_name ∷ privkey_name ∷ []) = do
      file ← load_existing gio json base64 clock filename
      priv ← ask
      let slot = item_or_new file (import_convert_id_safe gio priv source_name)
      source ← load_source gio slot.item source_name
      cert ← on_world (get_contents_bytes gio cert_name)
      privkey ← on_world (get_contents_bytes gio privkey_name)
      default_kind
      bytes ← lift (no_null source)
      blob ← sign_with undefined_shift (λ keys engine. pubkey_sign keys engine bytes cert privkey 3)
      save_file gio json base64
          (slot.put (
            add_blob slot.item
              (with_target priv.target (with_appstream_id priv.appstream_id blob))))
          filename
    sign undefined_shift _ =
        fail (failure (codes "Invalid arguments, expected FILENAME SOURCE CERT PRIVKEY"))

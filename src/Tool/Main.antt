-- ===== src/Tool/Main.antt =====
-- libjcat/jcat-tool.c: `main`, from the parsed command line on, and `jcat_tool_add` of its commands.
-- The parser of options is GLib's: what it gives is an argument. The handler of signals, the
-- translations and the console of Windows are left out.
use libjcat.Context.{JcatContext, init, add_public_key, set_keyring_path}
use libjcat.Context.Keys.{add_public_keys}
use libjcat.Engine.{JcatEngine}
use libjcat.Json.{JsonGlib, Base64}
use libjcat.Kind.{JcatBlobKind, unknown, from_string, to_string}
use libjcat.Prelude.{
  ℕ, zero, suc, Bool, true, false, Option, none, some, List, [], ◌∷◌, ◌++◌, Bytes, codes, Code,
  failed, Result, ok, err, ◌==◌, if◌then◌else◌,
}
use libjcat.System.{Gio}
use libjcat.Text.{Glib}
use libjcat.Tool.Aliases.{info, add_alias, remove_alias}
use libjcat.Tool.Menu.{FuUtilItem, Callback, add, run, get_descriptions}
use libjcat.Tool.Signing.{self_sign, sign, import, without_last}
use libjcat.Tool.Verify.{verify}
use libjcat.Tool.Writing.{export}
use libjcat.Tool.{Tool, printed, error_text}

-- The variables of `main` that the options fill.
pub record Options : Type 0 where
  pub version : Bool
  pub basename : Bool
  pub disable_time_checks : Bool
  pub only_pq : Bool
  pub public_key : List Bytes
  pub public_keys : List Bytes
  pub prefix : Option Bytes
  pub kind : Option Bytes
  pub target : Option Bytes
  pub appstream_id : Option Bytes
  pub keyring : Option Bytes

-- What `main` ends with: EXIT_SUCCESS or EXIT_FAILURE.
pub data Exit : Type 0 where
  exit_success exit_failure : Exit

abbrev prefix_or : Option Bytes → Bytes
prefix_or none = codes "."
prefix_or (some prefix) = prefix

-- The names of the kinds from one on, each with a comma behind it.
abbrev kind_names : ℕ → JcatBlobKind → Bytes
kind_names zero kind = []
kind_names (suc more) kind = (printed (to_string kind) ++ codes ",") ++ kind_names more (suc kind)

-- An option that names a kind: unknown if it is not given, `none` if it names none.
unfoldable pub kind_option : Option Bytes → Option JcatBlobKind
unfolding from_string
kind_option none = some unknown
kind_option (some name) =
    let kind = from_string (some name) in if kind == unknown then none else some kind

-- "run the specified command": the arguments behind the name of the program.
abbrev command_of : List Bytes → Option Bytes
command_of (program ∷ command ∷ values) = some command
command_of _ = none

abbrev values_of : List Bytes → List Bytes
values_of (program ∷ command ∷ values) = values
values_of _ = []

module _ {World : Type 0} where
  -- The loop over the option `public-key`.
  unfoldable pub with_public_keys : JcatContext World → List Bytes → JcatContext World
  unfolding add_public_key
  with_public_keys context [] = context
  with_public_keys context (filename ∷ filenames) =
      with_public_keys (add_public_key context filename) filenames

  abbrev with_keyring : Option Bytes → JcatContext World → JcatContext World
  with_keyring none context = context
  with_keyring (some path) context = set_keyring_path context path

  module _ (gio : Gio World) where
    -- The loop over the option `public-keys`.
    unfoldable pub with_directories : List Bytes → World → JcatContext World → JcatContext World
    unfolding add_public_keys
    with_directories [] w context = context
    with_directories (path ∷ paths) w context =
        with_directories paths w (add_public_keys gio path w context)

    -- "create context".
    unfoldable pub create_context :
        List (JcatEngine World) → Bytes → Options → World → JcatContext World
    unfolding init with_public_keys with_directories set_keyring_path
    create_context engines keyring_path options w = with_keyring options.keyring (
        with_directories options.public_keys w
          (with_public_keys (init engines keyring_path) options.public_key))

  module _ (gio : Gio World) (json : JsonGlib) (base64 : Base64) (clock : ℕ → ℕ) (glib : Glib)
      (split_commas : Bytes → List Bytes) (has_suffix : Bytes → Bytes → Bool) (real_time : ℕ)
      (undefined_shift : ℕ → JcatBlobKind → Bool) where
    abbrev command :
        Bytes → Bytes → Bytes → Callback World → List (FuUtilItem World) → List (FuUtilItem World)
    command name arguments description callback array =
        add split_commas array name (some arguments) description callback

    -- "add commands".
    unfoldable pub cmd_array : List (FuUtilItem World)
    unfolding add info self_sign sign import export verify add_alias remove_alias
    cmd_array =
        let array =
          command (codes "info") (codes "FILENAME") (codes "Show information about a file")
            (info gio json base64 clock glib) [] in
        let array =
          command (codes "self-sign") (codes "FILENAME SOURCE")
            (codes "Add a self-signed signature to a file")
            (self_sign gio json base64 clock undefined_shift) array in
        let array =
          command (codes "sign") (codes "FILENAME SOURCE CERT PRIVKEY")
            (codes "Add a signature to a file") (sign gio json base64 clock undefined_shift)
            array in
        let array =
          command (codes "import") (codes "FILENAME DATA DETACHED_KEY")
            (codes "Import an existing signature to a file")
            (import gio json base64 clock has_suffix real_time) array in
        let array =
          command (codes "export") (codes "FILENAME")
            (codes "Exports all embedded signatures to files") (export gio json base64 clock)
            array in
        let array =
          command (codes "verify") (codes "FILENAME [SOURCE]")
            (codes "Verify a signature from a file") (verify gio undefined_shift json base64 clock)
            array in
        let array =
          command (codes "add-alias") (codes "FILENAME ID ALIAS_ID")
            (codes "Add an alias for a specific item") (add_alias gio json base64 clock glib)
            array in
        command (codes "remove-alias") (codes "FILENAME ID ALIAS_ID")
          (codes "Remove an alias for a specific item") (remove_alias gio json base64 clock glib)
          array

    module _ (sort : List (FuUtilItem World) → List (FuUtilItem World)) (get_help : Bytes → Bytes)
        (engines : List (JcatEngine World)) (keyring_path package_version : Bytes) where
      abbrev is_failed : Code → Bool
      is_failed failed = true
      is_failed _ = false

      abbrev printing : Exit → Bytes → World → Exit × World
      printing exit text w = (exit, gio.print text w)

      -- The end of `main`: with the help where the arguments are wrong.
      abbrev pub finish_main :
          List (FuUtilItem World) → Result (Unit {0}) × Tool World → Exit × World
      unfolding get_descriptions
      finish_main commands (ok _, t) = (exit_success, t.world)
      finish_main commands (err e, t) =
          if is_failed e.code
          then printing exit_failure
              (error_text e ++ (codes "\n\n" ++ get_help (get_descriptions commands))) t.world
          else printing exit_failure (error_text e ++ codes "\n") t.world

      -- The tests of the option `target`, and the rest of `main`. The message about the target
      -- has the value of the option `kind`.
      unfoldable pub run_target :
          Options → List Bytes → JcatBlobKind → Option JcatBlobKind → World → Exit × World
      unfolding create_context run
      run_target options argv kind none w = (
        exit_failure,
        gio.printerr
            (codes "Failed to parse target '"
              ++ (printed options.kind ++ codes "', expected checksum"))
            w,
      )
      run_target options argv kind (some target) w =
          let commands = sort cmd_array in
          if options.version
          then printing exit_success (codes "libjcat " ++ (package_version ++ codes "\n")) w
          else finish_main commands (
              run commands (command_of argv) (values_of argv) (record {
                priv = record {
                  context = create_context gio engines keyring_path options w;
                  basename = options.basename;
                  disable_time_checks = options.disable_time_checks;
                  only_pq = options.only_pq;
                  prefix = prefix_or options.prefix;
                  appstream_id = options.appstream_id;
                  kind = kind;
                  target = target;
                };
                world = w;
              }))

      -- The test of the option `kind`.
      unfoldable pub run_kind : Options → List Bytes → Option JcatBlobKind → World → Exit × World
      unfolding run_target kind_option
      run_kind options argv none w = (
        exit_failure,
        gio.printerr
            (codes "Failed to parse '"
              ++ (printed options.kind ++ (codes "', expected " ++ without_last (kind_names 11 1))))
            w,
      )
      run_kind options argv (some kind) w =
          run_target options argv kind (kind_option options.target) w

      -- `main`, from what g_option_context_parse_strv gives.
      unfoldable pub main : Result (Options × List Bytes) → World → Exit × World
      unfolding run_kind kind_option
      main (err e) w =
          printing exit_failure
            (codes "Failed to parse arguments: " ++ (error_text e ++ codes "\n")) w
      main (ok (options, argv)) w = run_kind options argv (kind_option options.kind) w

-- ===== src/Tool/Sources.antt =====
-- libjcat/jcat-tool.c: which blobs `jcat_tool_verify_item` verifies, against which data, with which flags,
-- and which of its results are no failure.
pub mod Agree
use mathlib.Core.Path.{subst}
use libjcat.Blob.{JcatBlob}
use libjcat.Engine.Setup.{and_then-eq-ok}
use libjcat.Item.{JcatItem, get_blob_by_kind}
use libjcat.Kind.{JcatBlobKind, unknown}
use libjcat.Prelude.{
  ℕ, Bool, true, false, Bool-cases, Code, not_found, Error, if◌then◌else◌, ◌+◌, Option-cases,
  Option, none, some, List, [], ◌∷◌, map, Bytes, Result, ok, err, Result-cases, ok-injective, ◌==◌,
  ==_iff, ◌≡◌, ◌≢◌, refl, sym, ap, ◌∙◌, ◌↔◌, ◌⊎◌, inl, inr, arith,
}
use libjcat.Result.{JcatResult}
use libjcat.System.Contents.{get_contents_bytes}
use libjcat.System.{Gio}
use libjcat.Tool.Verify.{
  is_not_found, verify_flags, tolerated, blob_source, find_source, possible, first_existing,
  or_not_found,
}
use libjcat.Tool.Writing.{skips}
use libjcat.Tool.{Tool, JcatToolPrivate}

-- A blob is left out for a kind that the tool was given.
abbrev pub IsLeftOut : JcatBlobKind → JcatBlob → Type 0
IsLeftOut kind blob = (kind ≢ unknown) × (blob.kind ≢ kind)

-- A blob is verified: no kind was given, or its kind is the one that was given.
abbrev pub IsWanted : JcatBlobKind → JcatBlob → Type 0
IsWanted kind blob = (kind ≡ unknown) ⊎ (blob.kind ≡ kind)

-- A verification that does not make the item fail: it succeeds, or ends with G_IO_ERROR_NOT_FOUND.
abbrev pub Tolerated : Result JcatResult → Type 0
Tolerated result =
    ((r : JcatResult) × (result ≡ ok r)) ⊎ ((e : Error) × (result ≡ err e) × (e.code ≡ not_found))

-- JCAT_VERIFY_FLAG_DISABLE_TIME_CHECKS is 4, and JCAT_VERIFY_FLAG_ONLY_PQ is 32.
pub data Flags : Bool → Bool → ℕ → Type 0 where
  no_flags : Flags false false 0
  no_times : Flags true false 4
  pq : Flags false true 32
  no_times_and_pq : Flags true true 36

-- The names of the source of an item in a directory: that of its ID, then those of its aliases.
pub data Names {World : Type 0} (gio : Gio World) (prefix : Bytes) (item : JcatItem)
    : List Bytes → Type 0 where
  with_id :
      (id : Bytes)
      → item.id ≡ some id
      → Names gio prefix item (
          gio.build_filename (prefix ∷ id ∷ [])
          ∷ map (λ alias_id. gio.build_filename (prefix ∷ alias_id ∷ [])) item.alias_ids)
  with_no_id :
      item.id ≡ none
      → Names gio prefix item (
          gio.build_filename (prefix ∷ [])
          ∷ map (λ alias_id. gio.build_filename (prefix ∷ alias_id ∷ [])) item.alias_ids)

-- The first name of a file that exists.
pub data FirstExists {World : Type 0} (gio : Gio World) (w : World)
    : List Bytes → Bytes → Type 0 where
  here : (fn : Bytes) (fns : List Bytes) → gio.exists fn w ≡ true → FirstExists gio w (fn ∷ fns) fn
  further :
      (fn : Bytes) (fns : List Bytes) (first : Bytes)
      → gio.exists fn w ≡ false
      → FirstExists gio w fns first
      → FirstExists gio w (fn ∷ fns) first

-- The data that a blob is verified against: the source, or the data of the one blob of its target.
pub data Source (item : JcatItem) (source : Bytes) : JcatBlob → Option Bytes → Type 0 where
  of_file : (blob : JcatBlob) → blob.target ≡ unknown → Source item source blob (some source)
  of_blob :
      (blob blob_target : JcatBlob)
      → blob.target ≢ unknown
      → get_blob_by_kind item blob.target ≡ ok blob_target
      → Source item source blob blob_target.data_bytes

module _ {World : Type 0} (gio : Gio World) where
  -- A source that is found and read: the first file of the names that exists.
  pub record HasSource (item : JcatItem) (t : Tool World) (source : Bytes) (u : Tool World)
      : Type 0 where
    pub names : List Bytes
    pub fn : Bytes
    pub after : World
    pub names_are : Names gio t.priv.prefix item names
    pub fn_is : FirstExists gio t.world names fn
    pub contents_are : gio.get_contents fn t.world ≡ (ok source, after)
    pub state_is : u ≡ record t { world = after }

-- ===== src/System/Kept.antt =====
-- What `jcat_set_contents_bytes` of libjcat/jcat-common.c leaves in the files.
use mathlib.Core.Path.{subst}
use libjcat.Engine.Setup.{and_then-eq-ok}
use libjcat.Engine.{Action}
use libjcat.Prelude.{ℕ, Bool-cases, Bytes, if◌then◌else◌, ok, ◌≡◌, ◌/◌, ◌%◌, ap, inl, inr, not}
use libjcat.System.Contents.{set_contents_bytes}
use libjcat.System.Interface.{Gio, pure}
use libjcat.System.Laws.{GioLaws, Reads, AreSeparate}

module _ {World : Type 0} (gio : Gio World) (laws : GioLaws gio) where
  -- The directory of a file is made if it does not exist.
  abbrev with_parent : Bytes → Action World (Unit {0})
  with_parent filename w =
      (if not (gio.exists (gio.parent filename) w)
          then gio.make_directory_with_parents (gio.parent filename)
          else pure tt)
        w

  with_parent-Reads :
      (filename other contents : Bytes) (w v : World)
      → with_parent filename w ≡ (ok tt, v)
      → Reads gio other contents w
      → Reads gio other contents v
  with_parent-Reads filename other contents w v h before =
      elim (Bool-cases (gio.exists (gio.parent filename) w)) [
        | inl there ↦ subst (Reads gio other contents) (ap (λ q. q.1) (rw there at h)) before
        | inr missing ↦
            laws.read-make_directory (gio.parent filename) other contents (rw missing at h) before
      ]

  -- Another file is left as it is, and the file itself reads as what was written.
  pub set_contents_bytes-Reads_other :
      (filename other bs contents : Bytes) (mode : ℕ) (w v : World)
      → AreSeparate gio filename other
      → set_contents_bytes gio filename bs mode w ≡ (ok tt, v)
      → Reads gio other contents w
      → Reads gio other contents v
  unfolding set_contents_bytes
  set_contents_bytes-Reads_other filename other bs contents mode w v separate h before =
      let (_, u, made, written) =
        and_then-eq-ok (with_parent filename w) (λ _. gio.set_contents filename bs mode) h in
      separate bs contents mode u v written
        (with_parent-Reads filename other contents w u made before)

  pub set_contents_bytes-Reads_same :
      (filename bs : Bytes) (mode : ℕ) (w v : World)
      → mode / 256 % 2 ≡ 1
      → set_contents_bytes gio filename bs mode w ≡ (ok tt, v)
      → Reads gio filename bs v
  unfolding set_contents_bytes
  set_contents_bytes-Reads_same filename bs mode w v readable h =
      let (_, u, made, written) =
        and_then-eq-ok (with_parent filename w) (λ _. gio.set_contents filename bs mode) h in
      laws.get-set filename bs mode readable written

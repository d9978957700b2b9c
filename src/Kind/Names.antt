-- ===== src/Kind/Names.antt =====
-- The names of the kinds: libjcat/jcat-blob.c reads back the names that it writes, and no two
-- kinds share a name or a file extension.
use libjcat.Kind.{JcatBlobKind, last, unknown, from_string, to_string, to_filename_ext}
use libjcat.Prelude.{◌≤◌, ◌<◌, ◌≡◌, ◌≢◌, ◌↔◌, ◌⊎◌, none, some, Bytes, codes, beq_iff, arith}

-- The name of every known kind is read back as that kind.
pub from_string-to_string :
    (kind : JcatBlobKind) → unknown < kind → kind < last → from_string (to_string kind) ≡ kind
unfolding from_string to_string
from_string-to_string kind lo hi = ground arith

-- A text that is read as a known kind is the name of that kind.
to_string-from_string :
    (s : Bytes) → from_string (some s) ≢ unknown → to_string (from_string (some s)) ≡ some s
unfolding from_string to_string
to_string-from_string s h = ground (
  arith,
  beq_iff s (codes "gpg"),
  beq_iff s (codes "pkcs7"),
  beq_iff s (codes "sha256"),
  beq_iff s (codes "sha1"),
  beq_iff s (codes "bt-manifest"),
  beq_iff s (codes "bt-checkpoint"),
  beq_iff s (codes "bt-inclusion-proof"),
  beq_iff s (codes "bt-verifier"),
  beq_iff s (codes "ed25519"),
  beq_iff s (codes "sha512"),
  beq_iff s (codes "bt-logindex"),
)

-- No two known kinds are exported under one file extension.
to_filename_ext-injective :
    (j k : JcatBlobKind)
    → unknown < j
    → j < last
    → unknown < k
    → k < last
    → to_filename_ext j ≡ to_filename_ext k
    → j ≡ k
unfolding to_filename_ext
to_filename_ext-injective j k lo_j hi_j lo_k hi_k e = ground arith

-- A kind has a name exactly if it is known.
pub to_string-none :
    (kind : JcatBlobKind) → (to_string kind ≡ none) ↔ ((kind ≡ unknown) ⊎ (last ≤ kind))
unfolding to_string
to_string-none kind = ground arith

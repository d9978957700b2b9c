-- ===== src/Tool/Detect.antt =====
-- libjcat/jcat-tool.c: how `jcat_tool_import` guesses what a detached signature is.
-- `g_str_has_suffix` is a parameter.
use mathlib.Core.List.{reverse, reverse-append}
use mathlib.Core.Path.{subst}
use libjcat.Kind.{
  JcatBlobKind, sha256, gpg, pkcs7, sha1, bt_manifest, bt_checkpoint, bt_inclusion_proof,
  bt_verifier, ed25519, sha512, bt_logindex, to_filename_ext,
}
use libjcat.Prelude.{
  ℕ, zero, suc, beq, beq_iff, Bool, true, false, Bool-cases, not, ◌&&◌, ◌||◌, Option, none, some,
  List, [], ◌∷◌, ◌++◌, Bytes, codes, All, ◌==◌, ◌≡◌, ◌↔◌, ◌≢◌, refl, ap, sym, ◌∙◌, inl, inr, arith,
  if◌then◌else◌,
}

-- The kind and the flags of the blob.
pub record Format : Type 0 where
  pub kind : JcatBlobKind
  pub flags : ℕ

-- A blob with JCAT_BLOB_FLAG_IS_UTF8, and one with JCAT_BLOB_FLAG_NONE.
abbrev pub text_of_kind : JcatBlobKind → Option Format
text_of_kind kind = some (record { kind = kind; flags = 1 })

abbrev pub data_of_kind : JcatBlobKind → Option Format
data_of_kind kind = some (record { kind = kind; flags = 0 })

-- The tests behind "guess format", for a test of one suffix; `none` is the error.
unfoldable pub detect : (Bytes → Bool) → Option Format
detect has_suffix =
    if has_suffix (codes ".asc")
    then text_of_kind gpg
    else if has_suffix (codes ".btmanifest")
    then text_of_kind bt_manifest
    else if has_suffix (codes ".btcheckpoint")
    then text_of_kind bt_checkpoint
    else if has_suffix (codes ".btinclusionproof")
    then text_of_kind bt_inclusion_proof
    else if has_suffix (codes ".btverifier")
    then text_of_kind bt_verifier
    else if has_suffix (codes ".btlogindex")
    then text_of_kind bt_logindex
    else if has_suffix (codes ".p7b") || has_suffix (codes ".p7c") || has_suffix (codes ".pem")
    then text_of_kind pkcs7
    else if has_suffix (codes ".der")
    then data_of_kind pkcs7
    else if has_suffix (codes ".ed25519")
    then data_of_kind ed25519
    else if has_suffix (codes ".sha256") || has_suffix (codes ".SHA256")
    then text_of_kind sha256
    else if has_suffix (codes ".sha512") || has_suffix (codes ".SHA512")
    then text_of_kind sha512
    else none

-- What is documented of g_str_has_suffix.
abbrev pub IsSuffixTest : (Bytes → Bytes → Bool) → Type 0
IsSuffixTest has_suffix =
    (str suffix : Bytes)
    → (has_suffix str suffix ≡ true) ↔ ((front : Bytes) × (front ++ suffix ≡ str))

-- Whether the two lists differ at a position that both have.
abbrev clashes : Bytes → Bytes → Bool
clashes (x ∷ s) (y ∷ t) = not (x == y) || clashes s t
clashes _ _ = false

-- The suffixes that are tested.
abbrev suffixes : List Bytes
suffixes =
    codes ".asc"
    ∷ codes ".btmanifest"
    ∷ codes ".btcheckpoint"
    ∷ codes ".btinclusionproof"
    ∷ codes ".btverifier"
    ∷ codes ".btlogindex"
    ∷ codes ".p7b"
    ∷ codes ".p7c"
    ∷ codes ".pem"
    ∷ codes ".der"
    ∷ codes ".ed25519"
    ∷ codes ".sha256"
    ∷ codes ".SHA256"
    ∷ codes ".sha512"
    ∷ codes ".SHA512"
    ∷ []

-- A suffix is the known end of a name, or it is none of the name.
abbrev settled : Bytes → Bytes → Bool
settled t s = beq s t || clashes (reverse s) (reverse t)

clashes-append : (s t r q : Bytes) → clashes s t ≡ true → s ++ r ≢ t ++ q
clashes-append [] t r q h e = absurd (cc h)
clashes-append (x ∷ s) [] r q h e = absurd (cc h)
clashes-append (x ∷ s) (y ∷ t) r q h e = ground (arith, clashes-append s t r q)

has_suffix-settled :
    (has_suffix : Bytes → Bytes → Bool) (name t s : Bytes)
    → IsSuffixTest has_suffix
    → settled t s ≡ true
    → has_suffix (name ++ t) s ≡ beq s t
has_suffix-settled has_suffix name t s law h =
    let (there, back) = law (name ++ t) s in
    let apart : (front : Bytes) → clashes (reverse s) (reverse t) ≡ true → front ++ s ≢ name ++ t =
      λ front clash e.
        clashes-append (reverse s) (reverse t) (reverse front) (reverse name) clash
          (sym (reverse-append front s) ∙ (ap reverse e ∙ reverse-append name t)) in
    elim (Bool-cases (beq s t)) [
      | inl same ↦ back (name, ap (λ e. name ++ e) ((beq_iff s t).0 same)) ∙ sym same
      | inr other ↦ elim (Bool-cases (has_suffix (name ++ t) s)) [
        | inl found ↦
            let (front, e) = there found in absurd (apart front (ground (arith, other, h)) e)
        | inr apart_here ↦ apart_here ∙ sym other
      ]
    ]

abbrev all_settled : Bytes → List Bytes → Bool
all_settled t [] = true
all_settled t (s ∷ ss) = settled t s && all_settled t ss

both : (a b : Bool) → (a && b) ≡ true → (a ≡ true) × (b ≡ true)
both a b h = ground arith

all_settled-agree :
    (has_suffix : Bytes → Bytes → Bool) (name t : Bytes) (ss : List Bytes)
    → IsSuffixTest has_suffix
    → all_settled t ss ≡ true
    → All (λ s. has_suffix (name ++ t) s ≡ beq s t) ss
all_settled-agree has_suffix name t [] law h = tt
all_settled-agree has_suffix name t (s ∷ ss) law h =
    let (one, rest) = both (settled t s) (all_settled t ss) h in
    (
      has_suffix-settled has_suffix name t s law one,
      all_settled-agree has_suffix name t ss law rest,
    )

-- The guess depends on the tests of the listed suffixes alone.
detect-agree : (f g : Bytes → Bool) → All (λ s. f s ≡ g s) suffixes → detect f ≡ detect g
unfolding detect
detect-agree f g (a, (b, (c, (d, (e, (h, (i, (j, (k, (l, (m, (n, (o, (p, (q, _))))))))))))))) =
    rw (a, b, c, d, e, h, i, j, k, l, m, n, o, p, q) refl

-- The format under an extension.
abbrev detected_as : Bytes → Option Format
detected_as ext = detect (λ s. beq s (codes "." ++ ext))

detect-settled :
    (has_suffix : Bytes → Bytes → Bool) (name ext : Bytes)
    → IsSuffixTest has_suffix
    → all_settled (codes "." ++ ext) suffixes ≡ true
    → detect (has_suffix (name ++ (codes "." ++ ext))) ≡ detected_as ext
detect-settled has_suffix name ext law h =
    detect-agree (has_suffix (name ++ (codes "." ++ ext))) (λ s. beq s (codes "." ++ ext))
      (all_settled-agree has_suffix name (codes "." ++ ext) suffixes law h)

-- What the extensions of the export are detected as: only that of SHA-1 is not known.
abbrev pub exported_format : JcatBlobKind → Option Format
exported_format kind =
    if kind == sha1 then none else if kind == ed25519 then data_of_kind kind else text_of_kind kind

some-injective : {a b : Bytes} → some a ≡ some b → a ≡ b
some-injective e = cc e

formats-at :
    (kind : JcatBlobKind) (known ext : Bytes)
    → some known ≡ some ext
    → all_settled (codes "." ++ known) suffixes ≡ true
    → detected_as known ≡ exported_format kind
    → (all_settled (codes "." ++ ext) suffixes ≡ true) × (detected_as ext ≡ exported_format kind)
formats-at kind known ext e h d =
    subst
      (λ t. (all_settled (codes "." ++ t) suffixes ≡ true) × (detected_as t ≡ exported_format kind))
      (some-injective e) (h, d)

formats :
    (kind : JcatBlobKind) (ext : Bytes)
    → to_filename_ext kind ≡ some ext
    → (all_settled (codes "." ++ ext) suffixes ≡ true) × (detected_as ext ≡ exported_format kind)
unfolding to_filename_ext detect
formats zero ext e = absurd (cc e)
formats (suc zero) ext e = formats-at 1 (codes "sha256") ext e refl refl
formats (suc (suc zero)) ext e = formats-at 2 (codes "asc") ext e refl refl
formats (suc (suc (suc zero))) ext e = formats-at 3 (codes "p7b") ext e refl refl
formats (suc (suc (suc (suc zero)))) ext e = formats-at 4 (codes "sha1") ext e refl refl
formats (suc (suc (suc (suc (suc zero))))) ext e = formats-at 5 (codes "btmanifest") ext e refl refl
formats (suc (suc (suc (suc (suc (suc zero)))))) ext e =
    formats-at 6 (codes "btcheckpoint") ext e refl refl
formats (suc (suc (suc (suc (suc (suc (suc zero))))))) ext e =
    formats-at 7 (codes "btinclusionproof") ext e refl refl
formats (suc (suc (suc (suc (suc (suc (suc (suc zero)))))))) ext e =
    formats-at 8 (codes "btverifier") ext e refl refl
formats (suc (suc (suc (suc (suc (suc (suc (suc (suc zero))))))))) ext e =
    formats-at 9 (codes "ed25519") ext e refl refl
formats (suc (suc (suc (suc (suc (suc (suc (suc (suc (suc zero)))))))))) ext e =
    formats-at 10 (codes "sha512") ext e refl refl
formats (suc (suc (suc (suc (suc (suc (suc (suc (suc (suc (suc zero))))))))))) ext e =
    formats-at 11 (codes "btlogindex") ext e refl refl
formats (suc (suc (suc (suc (suc (suc (suc (suc (suc (suc (suc (suc kind)))))))))))) ext e =
    absurd (ground arith)

-- A file whose extension is the one under which a known kind is exported is detected as a text of
-- that kind, as data for ED25519, and is not detected for SHA-1.
pub detect-to_filename_ext :
    (has_suffix : Bytes → Bytes → Bool) (kind : JcatBlobKind) (name ext : Bytes)
    → IsSuffixTest has_suffix
    → to_filename_ext kind ≡ some ext
    → detect (has_suffix (name ++ (codes "." ++ ext))) ≡ exported_format kind
detect-to_filename_ext has_suffix kind name ext law e =
    let (settled, format) = formats kind ext e in
    detect-settled has_suffix name ext law settled ∙ format
